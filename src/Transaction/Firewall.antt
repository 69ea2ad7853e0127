-- ===== src/Transaction/Firewall.antt =====
-- ai4/transaction/firewall.py: deterministic validation, then the score of a text that describes the
-- transfer. The audit dictionary `extra` of the result is left out.
use ai4_constrain.Prelude.{
  ℕ, ◌≡◌, ◌↔◌, refl, subst, Option, none, some, [], ◌∷◌, String, str_eq, eq_iff, if◌then◌else◌,
  arith,
}
use ai4_constrain.Prelude.Result.{Result, ok, err, ◌>>=◌}
use ai4_constrain.Prelude.Text.{join}
use ai4_constrain.Transaction.{
  Network, mainnet_beta, devnet, localnet, RawAmount, SolAmount, TransferIntent, NormalizedIntent,
  Texts, Reasons, Raised, invalid, decimal_overflow, Decision, allow, deny, DecisionReport,
}
use ai4_constrain.Transaction.Validate.{validate_transfer_intent}

-- What `evaluate_fn` does: it returns a report or something else, or raises.
pub data Scored : Type 0 where
  scored : DecisionReport → Scored
  no_report : Scored
  execution_error other_error : String → Scored

pub data TransferInput : Type 0 where
  to_validate : TransferIntent → TransferInput
  normalized : NormalizedIntent → TransferInput

-- The configuration of a firewall, and what it calls. `number` is `str` of an `int`.
pub record Firewall : Type 0 where
  pub texts : Texts
  pub number : ℕ → String
  pub format_sol_amount : SolAmount → String
  pub max_amount_sol : RawAmount
  pub evaluate_fn : String → Scored

pub record FirewallResult : Type 0 where
  pub decision : Decision
  pub reasons : Reasons
  pub report : Option DecisionReport
  pub proposal_text : String

unfoldable pub network_value : Network → String
network_value mainnet_beta = "mainnet-beta"
network_value devnet = "devnet"
network_value localnet = "localnet"

pub build_firewall_proposal : Firewall → NormalizedIntent → String
build_firewall_proposal firewall intent = join "" (
    "Here is a brief, checkable outline of a proposed transfer and its limits.\n"
    ∷ "Action: transfer native SOL only.\n"
    ∷ "Network: Solana "
    ∷ network_value intent.network
    ∷ ".\nAsset: SOL.\nAmount: "
    ∷ firewall.format_sol_amount intent.amount
    ∷ " SOL ("
    ∷ firewall.number intent.lamports
    ∷ " lamports).\nDestination: "
    ∷ intent.destination
    ∷ " (Solana address shape already checked).\n"
    ∷ "The software does not hold keys or assets. The user signs in their own wallet.\n"
    ∷ "No custody, no server signing, no server broadcast from a server key.\n"
    ∷ "No swap, no buy, no sell, no fiat, no discretionary routing.\n"
    ∷ "I will mark anything I cannot verify.\n"
    ∷ [])

unfoldable pub map_decision : Texts → Option String → Decision × Reasons
map_decision texts none =
    (deny, "constrain decision is null (timeout or execution failure); fail closed" ∷ [])
map_decision texts (some decision) =
    if str_eq decision "accept"
    then (allow, "constrain decision is accept" ∷ [])
    else if str_eq decision "refuse"
    then (deny, "constrain decision is refuse; fail closed" ∷ [])
    else if str_eq decision "revise"
    then (deny, "constrain decision is revise; fail closed" ∷ [])
    else (
      deny,
      join "" ("unmapped constrain decision " ∷ texts.repr decision ∷ "; fail closed" ∷ []) ∷ [],
    )

unfoldable pub map_constrain_decision : Texts → Option DecisionReport → Decision × Reasons
map_constrain_decision texts none = (deny, "constrain produced no DecisionReport" ∷ [])
map_constrain_decision texts (some report) = map_decision texts report.decision

pub denied : Reasons → String → FirewallResult
denied reasons proposal = record {
  decision = deny;
  reasons = reasons;
  report = none;
  proposal_text = proposal;
}

unfoldable pub judge : Texts → String → Scored → FirewallResult
judge texts proposal (execution_error e) =
    denied (join "" ("constrain failed closed: " ∷ e ∷ []) ∷ []) proposal
judge texts proposal (other_error e) =
    denied (join "" ("constrain could not run; fail closed: " ∷ e ∷ []) ∷ []) proposal
judge texts proposal no_report =
    denied ("constrain result was not a DecisionReport; fail closed" ∷ []) proposal
judge texts proposal (scored r) = record {
  decision = (map_constrain_decision texts (some r)).0;
  reasons = (map_constrain_decision texts (some r)).1;
  report = some r;
  proposal_text = proposal;
}

unfoldable pub normalize : Firewall → TransferInput → Result Raised NormalizedIntent
normalize firewall (normalized intent) = ok intent
normalize firewall (to_validate intent) =
    validate_transfer_intent firewall.texts firewall.format_sol_amount firewall.max_amount_sol
      intent

unfoldable pub firewall_result :
    Firewall → Result Raised NormalizedIntent → Result Raised FirewallResult
firewall_result firewall (err (invalid reasons)) = ok (denied reasons "")
firewall_result firewall (err decimal_overflow) = err decimal_overflow
firewall_result firewall (ok n) =
    let proposal = build_firewall_proposal firewall n in
    ok (judge firewall.texts proposal (firewall.evaluate_fn proposal))

unfoldable pub run_firewall : Firewall → TransferInput → Result Raised FirewallResult
run_firewall firewall intent = firewall_result firewall (normalize firewall intent)

pub require_allow : FirewallResult → Result Raised (Unit {0})
require_allow result = elim result.decision [ allow ↦ ok tt | deny ↦ err (invalid result.reasons) ]

-- The scorer returned a report, and its decision is to accept.
abbrev pub Accepts : Scored → Type 0
Accepts result = (r : DecisionReport) × (result ≡ scored r) × (r.decision ≡ some "accept")

map_decision_allow :
    (texts : Texts) (decision : Option String)
    → ((map_decision texts decision).0 ≡ allow) ↔ (decision ≡ some "accept")
unfolding map_decision
map_decision_allow texts none = ground arith
map_decision_allow texts (some decision) = ground (arith, eq_iff decision "accept")

pub judge_allow :
    (texts : Texts) (proposal : String) (result : Scored)
    → ((judge texts proposal result).decision ≡ allow) ↔ Accepts result
unfolding judge denied map_constrain_decision
judge_allow texts proposal (scored r) =
    let same = map_decision_allow texts r.decision in
    (λ h. (r, refl, same.0 h), λ accepts. same.1 (ground arith))
judge_allow texts proposal no_report = (λ h. cc, λ accepts. cc)
judge_allow texts proposal (execution_error e) = (λ h. cc, λ accepts. cc)
judge_allow texts proposal (other_error e) = (λ h. cc, λ accepts. cc)

require_allow_lem :
    (result : FirewallResult) → (require_allow result ≡ ok tt) ↔ (result.decision ≡ allow)
unfolding require_allow
require_allow_lem result = ground arith

denied_raises :
    (reasons : Reasons) (proposal : String) → ¬ (require_allow (denied reasons proposal) ≡ ok tt)
unfolding require_allow denied
denied_raises reasons proposal h = cc

pub firewall_result_allow :
    (firewall : Firewall) (checked : Result Raised NormalizedIntent)
    → ((firewall_result firewall checked >>= require_allow) ≡ ok tt) ↔ (
        (n : NormalizedIntent) × (checked ≡ ok n)
        × Accepts (firewall.evaluate_fn (build_firewall_proposal firewall n)))
unfolding firewall_result
firewall_result_allow firewall (err (invalid reasons)) =
    (λ h. absurd (denied_raises reasons "" h), λ accepts. cc)
firewall_result_allow firewall (err decimal_overflow) = (λ h. cc, λ accepts. cc)
firewall_result_allow firewall (ok n) =
    let proposal = build_firewall_proposal firewall n in
    let verdict = judge firewall.texts proposal (firewall.evaluate_fn proposal) in
    let same = judge_allow firewall.texts proposal (firewall.evaluate_fn proposal) in
    let raises = require_allow_lem verdict in
    (
      λ h. (n, refl, same.0 (raises.0 h)),
      λ (m, e, accepts). raises.1 (same.1 (subst P (same_input m e) accepts)),
    )
  where
    P : NormalizedIntent → Type 0
    P m = Accepts (firewall.evaluate_fn (build_firewall_proposal firewall m))

    same_input :
        (m : NormalizedIntent) → ◌≡◌ {A = Result Raised NormalizedIntent} (ok n) (ok m) → m ≡ n
    same_input m e = cc

-- The firewall lets a transfer pass, with `require_allow`, exactly if it passes the deterministic
-- checks and the scorer, given the text built from the checked transfer, returned a report that
-- accepts; in every other case one of the two raises.
pub run_firewall_lem :
    (firewall : Firewall) (intent : TransferInput)
    → ((run_firewall firewall intent >>= require_allow) ≡ ok tt) ↔ (
        (n : NormalizedIntent) × (normalize firewall intent ≡ ok n)
        × Accepts (firewall.evaluate_fn (build_firewall_proposal firewall n)))
unfolding run_firewall
run_firewall_lem firewall intent = firewall_result_allow firewall (normalize firewall intent)

-- A checked transfer always gets a verdict, and what an allowing one means.
pub run_firewall_normalized :
    (firewall : Firewall) (n : NormalizedIntent)
    → (verdict : FirewallResult) × (run_firewall firewall (normalized n) ≡ ok verdict)
      × (verdict.decision ≡ allow
          → Accepts (firewall.evaluate_fn (build_firewall_proposal firewall n)))
unfolding run_firewall normalize firewall_result
run_firewall_normalized firewall n =
    let proposal = build_firewall_proposal firewall n in
    (
      judge firewall.texts proposal (firewall.evaluate_fn proposal),
      refl,
      (judge_allow firewall.texts proposal (firewall.evaluate_fn proposal)).0,
    )
