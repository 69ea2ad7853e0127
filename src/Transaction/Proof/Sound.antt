-- ===== src/Transaction/Proof/Sound.antt =====
-- ai4/transaction/receipt.py: a receipt built from an observation is never refused by its own tests,
-- and claims a success only where the observation shows one.
use Prim.Native.String.{◌++◌ as append}
use package.text.Mathlib.TextLemmas.{nil-append, cons-append}
use ai4_constrain.Prelude.{
  ◌≡◌, refl, Bool, true, false, not, ◌&&◌, ◌||◌, Option, none, some, String, str_eq, eq_iff, arith,
  if◌then◌else◌,
}
use ai4_constrain.Prelude.Result.{ok}
use ai4_constrain.Prelude.Text.{join}
use ai4_constrain.Transaction.{
  Network, mainnet_beta, devnet, localnet, NormalizedIntent, text, Texts, Reasons,
}
use ai4_constrain.Transaction.Firewall.{network_value}
use ai4_constrain.Transaction.Prepare.{PrepareResult, present, truthy}
use ai4_constrain.Transaction.Status.{Receipt, explorer_url_for}
use ai4_constrain.Transaction.Proof.{
  Lifecycle, failed, fail_closed, timeout, is_success, is_finalized, is_failed, is_closed, contains,
  confirmed_lifecycle, lifecycle_from_status, Ai4Receipt, is_text, same_hash, is_devnet_link,
  is_valid, success_of, post_init, off_devnet, signed, linked, link_of, reported_signature,
  is_devnet, or_blank, Building, seen, draft, build_ai4_receipt, digest,
}

shows_devnet : contains "cluster=devnet" "?cluster=devnet" ≡ true
unfolding contains
shows_devnet = refl

contains-append : (part s t : String) → contains part t ≡ true → contains part (append s t) ≡ true
unfolding contains
contains-append part String.[] t h = rw (nil-append t) h
contains-append part (String.◌∷◌ c s) t h =
    rw (cons-append c s t) (ground (arith, contains-append part s t))

devnet_link : (sig : String) → is_devnet_link (explorer_url_for sig devnet) ≡ true
unfolding explorer_url_for join
devnet_link sig =
    let tail : contains "cluster=devnet" "?cluster=devnet" ≡ true = shows_devnet in
    let whole = contains-append "cluster=devnet" "https://explorer.solana.com/tx/" _ (
      contains-append "cluster=devnet" "" _
        (contains-append "cluster=devnet" sig "?cluster=devnet" tail)) in
    ground (arith, whole)

-- The tests on the link and the signature.
link-valid :
    (sig explorer : Option String)
    → is_devnet_link explorer ≡ true
    → (is_devnet_link (linked sig explorer) ≡ true)
      × (truthy (linked sig explorer) && not (truthy sig)) ≡ false
unfolding linked link_of
link-valid none explorer link = (refl, refl)
link-valid (some sig) none link = let shows = devnet_link sig in (ground arith, ground arith)
link-valid (some sig) (some url) link = (ground arith, ground arith)

abbrev Fits : Bool → Option String → Option String → Lifecycle → Type 0
Fits closed e confirmation l =
    ((is_success l && present e) ≡ false)
    × ((is_finalized l && not (is_text "finalized" confirmation)) ≡ false)
    × ((is_failed l && not (present e)) ≡ false)
    × (is_success l
        ≡ (not closed && not (present e) && is_success (confirmed_lifecycle confirmation)))

confirmed_lifecycle-Fits :
    (confirmation : Option String) → Fits false none confirmation (confirmed_lifecycle confirmation)
unfolding confirmed_lifecycle
confirmed_lifecycle-Fits none = (refl, refl, refl, refl)
confirmed_lifecycle-Fits (some confirmation) =
    (ground arith, ground (arith, eq_iff confirmation "finalized"), ground arith, ground arith)

-- The tests on the lifecycle, for the lifecycle that an observation has.
lifecycle-Fits :
    (closed timed : Bool) (e confirmation : Option String)
    → Fits closed e confirmation (
        if closed
        then if timed then timeout else fail_closed
        else if present e
        then failed
        else confirmed_lifecycle confirmation)
lifecycle-Fits true true e confirmation = (refl, refl, refl, refl)
lifecycle-Fits true false e confirmation = (refl, refl, refl, refl)
lifecycle-Fits false timed (some e) confirmation = (refl, refl, refl, refl)
lifecycle-Fits false timed none confirmation = confirmed_lifecycle-Fits confirmation

lifecycle_from_status-Fits :
    (texts : Texts) (s : Receipt)
    → Fits s.fail_closed s.err s.confirmation_status (lifecycle_from_status texts s)
unfolding lifecycle_from_status
lifecycle_from_status-Fits texts s = lifecycle-Fits s.fail_closed _ s.err s.confirmation_status

closed_shown :
    (l : Lifecycle) (closed : Bool) → not (is_closed l && not (closed || is_closed l)) ≡ true
closed_shown l closed = ground arith

same_hash_refl : (hash : Option String) → same_hash hash hash ≡ true
same_hash_refl none = refl
same_hash_refl (some hash) = ground (arith, eq_iff hash hash)

devnet_value :
    (network : Network) → is_devnet network ≡ true → str_eq (network_value network) "devnet" ≡ true
unfolding network_value
devnet_value mainnet_beta h = cc
devnet_value devnet h = refl
devnet_value localnet h = cc

devnet_intent :
    (intent : Option NormalizedIntent)
    → elim intent [ none ↦ false | some n ↦ not (is_devnet n.network) ] ≡ false
    → str_eq (or_blank intent (λ n. network_value n.network) "devnet") "devnet" ≡ true
devnet_intent none h = refl
devnet_intent (some n) h = devnet_value n.network (ground arith)

devnet_network :
    (prepare : PrepareResult)
    → off_devnet prepare ≡ false
    → str_eq (or_blank prepare.intent (λ n. network_value n.network) "devnet") "devnet" ≡ true
unfolding off_devnet
devnet_network prepare h = devnet_intent prepare.intent (ground arith)

-- The observation is not closed, shows no error, and has a known confirmation.
abbrev pub shows_success : Receipt → Bool
shows_success s =
    not s.fail_closed
    && not (present s.err)
    && is_success (confirmed_lifecycle s.confirmation_status)

success_means :
    (l : Lifecycle) (closed : Bool) (e confirmation : Option String)
    → Fits closed e confirmation l
    → (is_success l && not (present e) && not (closed || is_closed l))
      ≡ (not closed && not (present e) && is_success (confirmed_lifecycle confirmation))
success_means l closed e confirmation fits = ground (arith, fits.0, fits.3)

-- What the record of the receipt is built from, for an observation `s`.
module _ (build : Building) (prepare : PrepareResult) (s : Receipt) (signature : Option String)
    (extra : Reasons) (here : off_devnet prepare ≡ false)
    (link : is_devnet_link s.explorer_url ≡ true) where
  abbrev built : Ai4Receipt
  built =
      draft build prepare
        (seen prepare (lifecycle_from_status build.texts s) (some s) signature extra)

  built-valid : is_valid built ≡ true
  unfolding is_valid draft seen off_devnet
  built-valid =
      let fits = lifecycle_from_status-Fits build.texts s in
      let sig = signed build.texts (reported_signature s signature) in
      let links = link-valid sig s.explorer_url link in
      rw
        (
          fits.0,
          fits.1,
          fits.2,
          devnet_network prepare here,
          same_hash_refl (digest build.sha256 prepare.approved_binding),
          closed_shown (lifecycle_from_status build.texts s) s.fail_closed,
          links.0,
          links.1,
        )
        (rw (fits.0, fits.2) refl)

  built-success : success_of built ≡ shows_success s
  unfolding success_of draft seen
  built-success =
      let fits = lifecycle_from_status-Fits build.texts s in
      rw (fits.0, fits.2)
        (success_means (lifecycle_from_status build.texts s) s.fail_closed s.err
          s.confirmation_status fits)

  built-lifecycle : built.lifecycle_state ≡ lifecycle_from_status build.texts s
  unfolding draft seen
  built-lifecycle = rw ((lifecycle_from_status-Fits build.texts s).0) refl

-- For a prepared transfer on devnet, and an observation with no explorer link or a devnet one, a
-- receipt is always built, never refused by its own tests. It claims an observed success exactly if
-- the observation is not closed, shows no error, and has one of the three known confirmations; and
-- its lifecycle is the one of the observation.
pub build_ai4_receipt_sound :
    (build : Building) (prepare : PrepareResult) (s : Receipt) (signature : Option String)
    (extra : Reasons)
    → off_devnet prepare ≡ false
    → is_devnet_link s.explorer_url ≡ true
    → let lifecycle = lifecycle_from_status build.texts s in
      (r : Ai4Receipt) × (build_ai4_receipt build prepare lifecycle (some s) signature extra ≡ ok r)
      × (r.observed_success ≡ shows_success s)
      × (r.lifecycle_state ≡ lifecycle)
unfolding build_ai4_receipt post_init
build_ai4_receipt_sound build prepare s signature extra here link =
    let valid = built-valid build prepare s signature extra here link in
    rw (here, valid)
      ((
        _,
        refl,
        built-success build prepare s signature extra here link,
        built-lifecycle build prepare s signature extra here link,
      ))
