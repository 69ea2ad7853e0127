-- ===== src/Transaction/Prepare.antt =====
-- ai4/transaction/prepare.py: validate, read a fee hint from an RPC node, ask the firewall, and hand
-- out the wallet's URIs for what was allowed. ai4/transaction/handoff.py (which builds the URIs), the
-- fee hint of `_fee_from_rpc` and the summary's text are arguments.
pub mod Contract
use ai4_constrain.Prelude.{
  ℕ, ◌≡◌, refl, Bool, true, false, not, ◌&&◌, ◌||◌, Option, none, some, List, [], ◌∷◌, String,
  str_eq, if◌then◌else◌, arith,
}
use ai4_constrain.Prelude.Result.{Result, ok, err, ◌>>=◌, Result-cases}
use ai4_constrain.Prelude.Text.{join}
use ai4_constrain.Transaction.{
  TransferIntent, NormalizedIntent, Reasons, Raised, invalid, decimal_overflow, Decision, allow,
  deny, DecisionReport,
}
use ai4_constrain.Transaction.Firewall.{
  Firewall, FirewallResult, network_value, normalize, normalized, to_validate, run_firewall,
  build_firewall_proposal, Accepts,
}
use ai4_constrain.Transaction.Binding.{
  Uris, verify_approved_handoff, verify_approved_handoff-nonempty, BindsTo,
}

pub record UnsignedPayload : Type 0 where
  pub kind : String
  pub network : String
  pub asset : String
  pub amount_sol : String
  pub lamports : ℕ
  pub destination : String

pub record ApprovedBinding : Type 0 where
  pub network : String
  pub asset : String
  pub action : String
  pub amount_sol : String
  pub lamports : ℕ
  pub destination : String

pub record PrepareResult : Type 0 where
  pub decision : Decision
  pub reasons : Reasons
  pub summary : String
  pub intent : Option NormalizedIntent
  pub report : Option DecisionReport
  pub unsigned_payload : Option UnsignedPayload
  pub handoff_uri : Option String
  pub phantom_browse_uri : Option String
  pub fee_status : String
  pub fee_note : String
  pub approved_binding : Option ApprovedBinding

-- What leaves `prepare_transfer`: the `ValueError` of a constructor that checks its fields, or an
-- exception of a call outside of a `try` that catches it.
pub data PrepareError : Type 0 where
  value_error : PrepareError
  uncaught : Raised → PrepareError

-- What the RPC node is asked for the fee, and what comes of it.
pub data Fee : Type 0 where
  fee : (status note : String) → Fee
  fee_refused : Reasons → Fee
  fee_failed : String → Fee

pub record Prepare : Type 0 where
  pub firewall : Firewall
  pub uris : Uris
  pub resolved_rpc : Option String
  pub fee_from_rpc : String → Fee
  pub handoff_uris_for_intent : NormalizedIntent → Result Raised (String × String)
  pub format_prepare_summary : PrepareResult → String

abbrev pub present {ℓ} : {A : Type ℓ} → Option A → Bool
present none = false
present (some x) = true

-- Neither `None` nor empty.
abbrev pub truthy : Option String → Bool
truthy none = false
truthy (some value) = not (str_eq value "")

-- `PrepareResult.__post_init__`
unfoldable pub well_formed : PrepareResult → Bool
well_formed r = elim r.decision [
  | deny ↦ not (present r.handoff_uri || present r.phantom_browse_uri || present r.unsigned_payload)
  | allow ↦
      truthy r.handoff_uri
      && truthy r.phantom_browse_uri
      && present r.unsigned_payload
      && present r.approved_binding
]

unfoldable pub prepare_result : PrepareResult → Result PrepareError PrepareResult
prepare_result r = if well_formed r then ok r else err value_error

-- Both constructors are run: one without the summary, and one with the summary made from the first.
unfoldable pub with_summary : Prepare → PrepareResult → Result PrepareError PrepareResult
with_summary prepare r = do
  first ← prepare_result r
  prepare_result (record first { summary = prepare.format_prepare_summary first })

pub deny_with :
    Prepare
    → Reasons
    → Option NormalizedIntent
    → Option DecisionReport
    → (fee_status fee_note : String) → Result PrepareError PrepareResult
deny_with prepare reasons intent report fee_status fee_note = with_summary prepare (record {
  decision = deny;
  reasons = reasons;
  summary = "";
  intent = intent;
  report = report;
  unsigned_payload = none;
  handoff_uri = none;
  phantom_browse_uri = none;
  fee_status = fee_status;
  fee_note = fee_note;
  approved_binding = none;
})

-- `_unsigned_payload`
unfoldable pub unsigned_payload_of : Prepare → NormalizedIntent → UnsignedPayload
unsigned_payload_of prepare intent = record {
  kind = "solana_system_transfer_stub";
  network = network_value intent.network;
  asset = "SOL";
  amount_sol = prepare.firewall.format_sol_amount intent.amount;
  lamports = intent.lamports;
  destination = intent.destination;
}

unfoldable pub approved_binding_from_intent : Prepare → NormalizedIntent → ApprovedBinding
approved_binding_from_intent prepare intent = record {
  network = network_value intent.network;
  asset = "SOL";
  action = intent.action;
  amount_sol = prepare.firewall.format_sol_amount intent.amount;
  lamports = intent.lamports;
  destination = intent.destination;
}

unfoldable pub allowed_result :
    Prepare
    → NormalizedIntent
    → FirewallResult
    → (pay_uri phantom_uri fee_status fee_note : String) → PrepareResult
allowed_result prepare n verdict pay_uri phantom_uri fee_status fee_note = record {
  decision = allow;
  reasons = verdict.reasons;
  summary = "";
  intent = some n;
  report = verdict.report;
  unsigned_payload = some (unsigned_payload_of prepare n);
  handoff_uri = some pay_uri;
  phantom_browse_uri = some phantom_uri;
  fee_status = fee_status;
  fee_note = fee_note;
  approved_binding = some (approved_binding_from_intent prepare n);
}

-- The rest after the handoff was verified, or not.
unfoldable pub hand_off_verified :
    Prepare
    → NormalizedIntent
    → FirewallResult
    → (fee_status fee_note : String) → String × String
    → Result Reasons (Unit {0})
    → Result PrepareError PrepareResult
hand_off_verified prepare n verdict fee_status fee_note links (err reasons) =
    deny_with prepare reasons (some n) verdict.report fee_status fee_note
hand_off_verified prepare n verdict fee_status fee_note links (ok _) =
    with_summary prepare (allowed_result prepare n verdict links.0 links.1 fee_status fee_note)

-- The URIs are built outside of the `try`.
unfoldable pub hand_off :
    Prepare
    → NormalizedIntent
    → FirewallResult
    → (fee_status fee_note : String) → Result Raised (String × String)
    → Result PrepareError PrepareResult
hand_off prepare n verdict fee_status fee_note (err raised) = err (uncaught raised)
hand_off prepare n verdict fee_status fee_note (ok links) =
    hand_off_verified prepare n verdict fee_status fee_note links
      (verify_approved_handoff prepare.uris links.0 links.1 n)

-- The rest after the verdict.
unfoldable pub follow_verdict :
    Prepare
    → NormalizedIntent
    → FirewallResult
    → (fee_status fee_note : String) → Decision
    → Result PrepareError PrepareResult
follow_verdict prepare n verdict fee_status fee_note deny =
    deny_with prepare verdict.reasons (some n) verdict.report fee_status fee_note
follow_verdict prepare n verdict fee_status fee_note allow =
    hand_off prepare n verdict fee_status fee_note (prepare.handoff_uris_for_intent n)

unfoldable pub after_firewall :
    Prepare
    → NormalizedIntent
    → (fee_status fee_note : String) → Result Raised FirewallResult
    → Result PrepareError PrepareResult
after_firewall prepare n fee_status fee_note (err raised) = err (uncaught raised)
after_firewall prepare n fee_status fee_note (ok verdict) =
    follow_verdict prepare n verdict fee_status fee_note verdict.decision

-- The rest after the fee.
unfoldable pub ask_firewall :
    Prepare → NormalizedIntent → (fee_status fee_note : String) → Result PrepareError PrepareResult
ask_firewall prepare n fee_status fee_note =
    after_firewall prepare n fee_status fee_note (run_firewall prepare.firewall (normalized n))

abbrev unverified_note : String
unverified_note = "not verified (no RPC URL); your wallet will show the fee before you sign"

abbrev fail_closed_note : String
fail_closed_note = "fee or chain state could not be verified; fail closed"

pub after_fee : Prepare → NormalizedIntent → Fee → Result PrepareError PrepareResult
after_fee prepare n (fee status note) = ask_firewall prepare n status note
after_fee prepare n (fee_refused reasons) =
    deny_with prepare reasons (some n) none "rpc_fail_closed" fail_closed_note
after_fee prepare n (fee_failed e) =
    deny_with prepare (join "" ("RPC failed closed: " ∷ e ∷ []) ∷ []) (some n) none
      "rpc_fail_closed" fail_closed_note

-- `if resolved_rpc:` is false for an empty text, too.
unfoldable pub ask_fee :
    Prepare → NormalizedIntent → Option String → Result PrepareError PrepareResult
ask_fee prepare n none = ask_firewall prepare n "unverified_no_rpc" unverified_note
ask_fee prepare n (some url) =
    if str_eq url ""
    then ask_firewall prepare n "unverified_no_rpc" unverified_note
    else after_fee prepare n (prepare.fee_from_rpc url)

-- `decimal.Overflow` is not caught.
unfoldable pub after_checks :
    Prepare → Result Raised NormalizedIntent → Result PrepareError PrepareResult
after_checks prepare (err (invalid reasons)) =
    deny_with prepare reasons none none "unverified_no_rpc" unverified_note
after_checks prepare (err decimal_overflow) = err (uncaught decimal_overflow)
after_checks prepare (ok n) = ask_fee prepare n prepare.resolved_rpc

unfoldable pub prepare_transfer : Prepare → TransferIntent → Result PrepareError PrepareResult
prepare_transfer prepare intent =
    after_checks prepare (normalize prepare.firewall (to_validate intent))
