-- ===== src/Control.antt =====
-- src/control_contract.py and src/constraints/constraint_middleware.py: how an evaluation becomes a
-- decision, and a decision the next move of the revision loop. The closed vocabulary of actions is
-- data: the middleware's actions are in it, and C's action is read from its text. The number format
-- `:.2f` is the argument `format_score`.
pub mod Decisions
pub mod Agent
mod Examples
use Prim.Native.String.{◌++◌}
use text.Mathlib.Text.{find?}
use ai4_constrain.Prelude.{
  ℕ, Bool, true, false, not, ◌&&◌, ◌||◌, String, Option, none, some, List, [], ◌∷◌, map, ltb,
  if◌then◌else◌, str_eq, is_nil, any,
}
use mathlib.Core.List.{◌++◌ as append}
use ai4_constrain.Semantic.{Json, string, boolean, Members, no_members, pair, keys, value_of}
use ai4_constrain.Prelude.Text.{join, member}
use ai4_constrain.Prelude.Result.{Result, ok, err, ◌>>=◌, ◌>>◌, guard}
use ai4_constrain.Shards.{Rubric, ShardScore, Evaluation, Verdict, pass, fail, ArbitrationResult}
use ai4_constrain.Shards.Arbitration.{arbitrate}

-- `other_action` is any text outside `LOOP_ACTIONS`.
pub data Action : Type 0 where
  accept revise refuse timeout : Action
  other_action : String → Action

pub data Machine : Type 0 where
  m_accept m_revise_call m_refuse m_timeout m_emit_exhausted : Machine

pub data ControlError : Type 0 where
  control_parse_error : ControlError

pub record LoopDecision : Type 0 where
  pub action : Action
  pub feedback : String
  pub reason : String
  pub requested_revision : Bool

abbrev pub is_timeout : Action → Bool
is_timeout timeout = true
is_timeout _ = false

abbrev pub is_refuse : Action → Bool
is_refuse refuse = true
is_refuse _ = false

abbrev pub is_accept : Action → Bool
is_accept accept = true
is_accept _ = false

abbrev pub is_revise : Action → Bool
is_revise revise = true
is_revise _ = false

unfoldable pub next_loop_action : LoopDecision → ℕ → ℕ → Bool → Bool → Machine
next_loop_action decision revision_rounds_used max_revision_rounds budget_left timed_out =
    if timed_out || is_timeout decision.action
    then m_timeout
    else if is_refuse decision.action
    then m_refuse
    else if is_accept decision.action || not decision.requested_revision
    then m_accept
    else if is_revise decision.action && ltb revision_rounds_used max_revision_rounds
    then (if not budget_left then m_timeout else m_revise_call)
    else m_emit_exhausted

-- What C's parser uses of the language: `str.lower` and `str.strip`, `str` of a value, and
-- `json.dumps` of a mapping.
pub record CReader : Type 0 where
  pub lower : String → String
  pub strip : String → String
  pub str : Json → String
  pub dumps : Members → String

-- `payload[key] = value` on a dictionary, which keeps the place of a key it has.
unfoldable pub set_key : String → Json → Members → Members
set_key key value no_members = pair key value no_members
set_key key value (pair k v rest) =
    let later = set_key key value rest in if str_eq key k then pair k value rest else pair k v later

-- The mapping with its keys in lower case: of two keys that become one, the later value stays.
unfoldable pub lower_keys : (String → String) → Members → Members → Members
lower_keys lower done no_members = done
lower_keys lower done (pair key value rest) = lower_keys lower (set_key (lower key) value done) rest

abbrev shard_control_leaks : List String
shard_control_leaks =
    "harm_aversion" ∷ "Shard scores" ∷ "shard_id" ∷ " FAIL" ∷ " PASS" ∷ "hard shard" ∷ "soft shard"
    ∷ "arbitration" ∷ "revision_targets" ∷ "pass_threshold" ∷ "kind:" ∷ "applicable" ∷ []

abbrev banned_keys : List String
banned_keys = "shard_id" ∷ "shard_scores" ∷ "arbitration" ∷ "revision_targets" ∷ "applicable" ∷ []

abbrev contains : String → String → Bool
contains text part = elim (find? text part) [ none ↦ false | some _ ↦ true ]

abbrev require {ℓ} : {A : Type ℓ} → Option A → Result ControlError A
require none = err control_parse_error
require (some a) = ok a

unfoldable pub leaks_shard_control : CReader → Members → Bool
leaks_shard_control reader payload = any (contains (reader.dumps payload)) shard_control_leaks

unfoldable pub has_banned_key : Members → Bool
has_banned_key payload = any (λ banned. member banned (keys payload)) banned_keys

unfoldable pub c_action : String → Action
c_action text =
    if str_eq text "accept"
    then accept
    else if str_eq text "revise"
    then revise
    else other_action text

abbrev as_text : Option Json → Option String
as_text (some (string text)) = some text
as_text _ = none

abbrev as_bool : Option Json → Option Bool
as_bool (some (boolean value)) = some value
as_bool _ = none

-- `str(payload.get("action", ""))`
abbrev said : CReader → Option Json → String
said reader none = ""
said reader (some value) = reader.str value

-- `raw` is what `_as_mapping` makes of C's answer, or `none` if that raises.
unfoldable pub parse_c_decision : CReader → Option Members → Result ControlError LoopDecision
parse_c_decision reader raw = do
  mapping ← require raw
  let payload = lower_keys reader.lower no_members mapping
  guard (not (leaks_shard_control reader payload)) control_parse_error
  guard (not (has_banned_key payload)) control_parse_error
  let action = c_action (reader.lower (reader.strip (said reader (value_of "action" payload))))
  guard (is_accept action || is_revise action) control_parse_error
  critique ← require (as_text (value_of "critique" payload))
  requested ← require (as_bool (value_of "requested_revision" payload))
  guard (not (is_accept action && requested)) control_parse_error
  guard (not (is_revise action && not requested)) control_parse_error
  ok (record {
    action = action;
    feedback = if requested then critique else "";
    reason =
        if requested
        then "revision warranted after principle critique"
        else "no revision warranted";
    requested_revision = requested;
  })

abbrev pub in_loop_actions : Action → Bool
in_loop_actions (other_action _) = false
in_loop_actions _ = true

unfoldable pub parse_d_decision : Action → String → String → Result ControlError LoopDecision
parse_d_decision action reason feedback = do
  guard (in_loop_actions action) control_parse_error
  ok (record {
    action = action;
    feedback = if is_revise action then feedback else "";
    reason = reason;
    requested_revision = is_revise action;
  })

pub record ConstraintDecision : Type 0 where
  pub action : Action
  pub arbitration : ArbitrationResult
  pub reason : String
  pub revision_round : ℕ
  pub max_revision_rounds : ℕ

pub record ConstraintMiddleware : Type 0 where
  pub rubrics : List Rubric
  pub max_revision_rounds : ℕ

abbrev is_pass : Verdict → Bool
is_pass pass = true
is_pass fail = false

-- `ConstraintMiddleware.decide`: the action, and the reason that goes with it.
choose : ArbitrationResult → Bool → Bool → Bool → Action × String
choose arbitration timed_out budget_exhausted can_revise =
    if timed_out || budget_exhausted
    then (timeout, if timed_out then "timeout" else "completion budget exhausted")
    else if is_pass arbitration.verdict
    then (accept, "all shards passed")
    else if arbitration.irreconcilable
    then (refuse, "irreconcilable hard shards")
    else if can_revise
    then (revise, "revision requested: " ++ join ", " arbitration.revision_targets)
    else if arbitration.veto
    then (refuse, "hard shard still failing after revision budget")
    else (revise, "soft shard still failing; returning last revision")

unfoldable pub decide : ConstraintMiddleware → Evaluation → ℕ → Bool → Bool → ConstraintDecision
unfolding choose
decide middleware evaluation revision_round timed_out budget_exhausted =
    let arbitration = arbitrate evaluation middleware.rubrics in
    let chosen =
      choose arbitration timed_out budget_exhausted
        (ltb revision_round middleware.max_revision_rounds) in
    record {
      action = chosen.0;
      arbitration = arbitration;
      reason = chosen.1;
      revision_round = revision_round;
      max_revision_rounds = middleware.max_revision_rounds;
    }

score_line : (ℕ → String) → ShardScore → String
score_line format_score s =
    "- "
    ++ (s.shard_id
        ++ (": "
            ++ (format_score s.score
                ++ ((if s.passed then " PASS (" else " FAIL (")
                    ++ ((if is_nil s.notes then "ok" else join "; " s.notes) ++ ")")))))

unfoldable pub format_feedback : (ℕ → String) → ConstraintDecision → Evaluation → String
unfolding score_line
format_feedback format_score decision evaluation =
    let targets = decision.arbitration.revision_targets in
    let order =
      if is_nil targets
      then []
      else ("Revise to pass failing shards, in this order: " ++ (join ", " targets ++ ".")) ∷ [] in
    join "\n" (
      append ("Shard scores (v0.1):" ∷ map (score_line format_score) evaluation.shard_scores)
        (append order ("Stay useful. Do not mention shard names to the end user." ∷ [])))

abbrev pub safe_refusal : String
safe_refusal =
    "I cannot provide this. The request conflicts with a hard safety or privacy constraint."
