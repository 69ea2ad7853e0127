-- ===== src/Transaction/Prepare/Contract.antt =====
-- ai4/transaction/prepare.py: how a call ends, and that it hands out nothing but the approved transfer.
use ai4_constrain.Prelude.{
  ◌≡◌, refl, sym, subst, ◌⊎◌, inl, inr, true, Option, none, some, String, str_eq, if-intro,
}
use ai4_constrain.Prelude.Result.{Result, ok, err}
use ai4_constrain.Transaction.{
  TransferIntent, NormalizedIntent, Reasons, Raised, invalid, decimal_overflow, Decision, allow,
  deny, DecisionReport,
}
use ai4_constrain.Transaction.Firewall.{
  normalize, to_validate, build_firewall_proposal, Accepts, FirewallResult, run_firewall_normalized,
}
use ai4_constrain.Transaction.Binding.{
  verify_approved_handoff, verify_approved_handoff-nonempty, BindsTo, Wraps,
}
use ai4_constrain.Transaction.Prepare.{
  PrepareResult, PrepareError, uncaught, Prepare, Fee, fee, fee_refused, fee_failed, prepare_result,
  well_formed, with_summary, deny_with, allowed_result, hand_off_verified, hand_off, follow_verdict,
  after_firewall, ask_firewall, after_fee, ask_fee, after_checks, prepare_transfer,
  unsigned_payload_of, approved_binding_from_intent,
}

abbrev pub Withheld : PrepareResult → Type 0
Withheld r = (r.handoff_uri ≡ none) × (r.phantom_browse_uri ≡ none) × (r.unsigned_payload ≡ none)

-- A transfer that the firewall allowed, with its payload and its binding; the URIs are the ones built
-- for it, the first one says it, and the second wraps the first.
abbrev pub Approved : Prepare → NormalizedIntent → PrepareResult → Type 0
Approved prepare n r =
    (pay_uri : String) × (browse_uri : String) × (prepare.handoff_uris_for_intent n
      ≡ ok (pay_uri, browse_uri))
    × (r.intent ≡ some n)
    × (r.handoff_uri ≡ some pay_uri)
    × (r.phantom_browse_uri ≡ some browse_uri)
    × (r.unsigned_payload ≡ some (unsigned_payload_of prepare n))
    × (r.approved_binding ≡ some (approved_binding_from_intent prepare n))
    × Accepts (prepare.firewall.evaluate_fn (build_firewall_proposal prepare.firewall n))
    × BindsTo prepare.uris pay_uri n
    × Wraps prepare.uris browse_uri pay_uri

abbrev pub Yields : (PrepareResult → Type 0) → Result PrepareError PrepareResult → Type 0
Yields P result = (r : PrepareResult) × (result ≡ ok r) × P r

-- The contract for a result of the part after the checks.
abbrev pub Kept : Prepare → NormalizedIntent → PrepareResult → Type 0
Kept prepare n r = (r.decision ≡ deny → Withheld r) × (r.decision ≡ allow → Approved prepare n r)

-- The URIs could not be built.
abbrev pub NotBuilt : Prepare → NormalizedIntent → Result PrepareError PrepareResult → Type 0
NotBuilt prepare n result =
    (raised : Raised) × (prepare.handoff_uris_for_intent n ≡ err raised)
    × (result ≡ err (uncaught raised))
    × Accepts (prepare.firewall.evaluate_fn (build_firewall_proposal prepare.firewall n))

abbrev pub KeptOr : Prepare → NormalizedIntent → Result PrepareError PrepareResult → Type 0
KeptOr prepare n result = Yields (Kept prepare n) result ⊎ NotBuilt prepare n result

abbrev pub Denied : PrepareResult → Type 0
Denied r = (r.decision ≡ deny) × Withheld r

deny_with-Denied :
    (prepare : Prepare) (reasons : Reasons) (intent : Option NormalizedIntent)
    (report : Option DecisionReport) (status note : String)
    → Yields Denied (deny_with prepare reasons intent report status note)
unfolding deny_with with_summary prepare_result well_formed
deny_with-Denied prepare reasons intent report status note = (_, refl, (refl, (refl, refl, refl)))

Kept-Denied :
    (prepare : Prepare) (n : NormalizedIntent) (result : Result PrepareError PrepareResult)
    → Yields Denied result
    → KeptOr prepare n result
Kept-Denied prepare n result (r, e, (is_deny, withheld)) =
    inl (r, e, ((λ _. withheld), λ allowed. cc))

-- A result whose fields are in order comes back with its summary.
with_summary-ok :
    (prepare : Prepare) (r : PrepareResult)
    → well_formed r ≡ true
    → with_summary prepare r ≡ ok (record r { summary = prepare.format_prepare_summary r })
unfolding with_summary prepare_result well_formed
with_summary-ok prepare r h = simp (h)

module _ (prepare : Prepare) (blank : prepare.uris.texts.strip "" ≡ "") (n : NormalizedIntent) where
  hand_off_verified-Kept :
      (verdict : FirewallResult) (status note : String) (links : String × String)
      (verified : Result Reasons (Unit {0}))
      → prepare.handoff_uris_for_intent n ≡ ok links
      → verify_approved_handoff prepare.uris links.0 links.1 n ≡ verified
      → Accepts (prepare.firewall.evaluate_fn (build_firewall_proposal prepare.firewall n))
      → KeptOr prepare n (hand_off_verified prepare n verdict status note links verified)
  unfolding hand_off_verified well_formed allowed_result
  hand_off_verified-Kept verdict status note links (err reasons) built e accepts =
      Kept-Denied prepare n _ (deny_with-Denied prepare reasons (some n) verdict.report status note)
  hand_off_verified-Kept verdict status note links (ok _) built e accepts =
      let facts = verify_approved_handoff-nonempty prepare.uris links.0 links.1 n blank e in
      let r = allowed_result prepare n verdict links.0 links.1 status note in
      let right : well_formed r ≡ true = rw (facts.0, facts.1) refl in
      inl (
        _,
        with_summary-ok prepare r right,
        (
          (λ is_deny. cc),
          λ _. (links.0, links.1, built, refl, refl, refl, refl, refl, accepts, facts.2, facts.3),
        ),
      )

  hand_off-Kept :
      (verdict : FirewallResult) (status note : String) (built : Result Raised (String × String))
      → prepare.handoff_uris_for_intent n ≡ built
      → Accepts (prepare.firewall.evaluate_fn (build_firewall_proposal prepare.firewall n))
      → KeptOr prepare n (hand_off prepare n verdict status note built)
  unfolding hand_off
  hand_off-Kept verdict status note (err raised) e accepts = inr (raised, e, refl, accepts)
  hand_off-Kept verdict status note (ok links) e accepts =
      hand_off_verified-Kept verdict status note links _ e refl accepts

  follow_verdict-Kept :
      (verdict : FirewallResult) (status note : String) (decision : Decision)
      → (decision ≡ allow
          → Accepts (prepare.firewall.evaluate_fn (build_firewall_proposal prepare.firewall n)))
      → KeptOr prepare n (follow_verdict prepare n verdict status note decision)
  unfolding follow_verdict
  follow_verdict-Kept verdict status note deny accepts =
      Kept-Denied prepare n _ (deny_with-Denied prepare _ (some n) _ status note)
  follow_verdict-Kept verdict status note allow accepts =
      hand_off-Kept verdict status note _ refl (accepts refl)

  ask_firewall-Kept : (status note : String) → KeptOr prepare n (ask_firewall prepare n status note)
  unfolding ask_firewall after_firewall
  ask_firewall-Kept status note =
      let (verdict, given, accepts) = run_firewall_normalized prepare.firewall n in
      subst (λ v. KeptOr prepare n (after_firewall prepare n status note v)) (sym given)
        (follow_verdict-Kept verdict status note verdict.decision accepts)

  after_fee-Kept : (quote : Fee) → KeptOr prepare n (after_fee prepare n quote)
  unfolding after_fee
  after_fee-Kept (fee status note) = ask_firewall-Kept status note
  after_fee-Kept (fee_refused reasons) =
      Kept-Denied prepare n _ (deny_with-Denied prepare reasons (some n) none _ _)
  after_fee-Kept (fee_failed e) =
      Kept-Denied prepare n _ (deny_with-Denied prepare _ (some n) none _ _)

  ask_fee-Kept : (url : Option String) → KeptOr prepare n (ask_fee prepare n url)
  unfolding ask_fee
  ask_fee-Kept none = ask_firewall-Kept _ _
  ask_fee-Kept (some url) =
      if-intro (KeptOr prepare n) (str_eq url "") _ _ (λ _. ask_firewall-Kept _ _)
        λ _. after_fee-Kept (prepare.fee_from_rpc url)

-- The contract of the whole pipeline.
abbrev pub Prepared : Prepare → TransferIntent → PrepareResult → Type 0
Prepared prepare intent r =
    (r.decision ≡ deny → Withheld r)
    × (r.decision ≡ allow
        → (n : NormalizedIntent) × (normalize prepare.firewall (to_validate intent) ≡ ok n)
          × Approved prepare n r)

-- How a call ends: with a result; or with the overflow of the checks, or an exception of the building
-- of the URIs of a transfer that was allowed.
abbrev pub Ends : Prepare → TransferIntent → Result PrepareError PrepareResult → Type 0
Ends prepare intent result =
    Yields (Prepared prepare intent) result
    ⊎ (((normalize prepare.firewall (to_validate intent) ≡ err decimal_overflow)
          × (result ≡ err (uncaught decimal_overflow)))
        ⊎ ((n : NormalizedIntent) × (normalize prepare.firewall (to_validate intent) ≡ ok n)
            × NotBuilt prepare n result))

after_checks-Ends :
    (prepare : Prepare) (intent : TransferIntent) (checked : Result Raised NormalizedIntent)
    → prepare.uris.texts.strip "" ≡ ""
    → normalize prepare.firewall (to_validate intent) ≡ checked
    → Ends prepare intent (after_checks prepare checked)
unfolding after_checks
after_checks-Ends prepare intent (err (invalid reasons)) blank e =
    let denied = deny_with-Denied prepare reasons none none _ _ in
    inl (denied.0, denied.1, ((λ _. denied.2.1), λ allowed. cc))
after_checks-Ends prepare intent (err decimal_overflow) blank e = inr (inl (e, refl))
after_checks-Ends prepare intent (ok n) blank e =
    ends (ask_fee-Kept prepare blank n prepare.resolved_rpc)
  where
    ends :
        {result : Result PrepareError PrepareResult}
        → KeptOr prepare n result
        → Ends prepare intent result
    ends (inl (r, same, (withheld, approved))) =
        inl (r, same, (withheld, λ allowed. (n, e, approved allowed)))
    ends (inr not_built) = inr (inr (n, e, not_built))

-- If stripping the empty text leaves it, preparing a transfer returns a result, unless a decimal
-- overflow leaves the checks, or building the URIs of a transfer that was allowed raises; it never
-- raises the error of its constructor. A denied result carries no URI and no payload. An allowed one
-- carries the transfer that passed the checks and that the scorer accepted, with its payload and its
-- binding, the URI that was built for it, which parses back to the destination, the amount, the
-- lamports and the cluster of that transfer, and a browse URI that wraps that URI.
pub prepare_transfer-Ends :
    (prepare : Prepare) (intent : TransferIntent)
    → prepare.uris.texts.strip "" ≡ ""
    → Ends prepare intent (prepare_transfer prepare intent)
unfolding prepare_transfer
prepare_transfer-Ends prepare intent blank = after_checks-Ends prepare intent _ blank refl
