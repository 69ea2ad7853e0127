-- ===== src/Hybrid/Continuity.antt =====
-- ai4/constrain/_v07_3a/continuity.py: whether a product must go on as a hybrid one. A persisted
-- payload is a mapping of texts to texts or to a nested mapping, or another object.
use ai4_constrain.Prelude.{
  Bool, false, not, ◌&&◌, ◌||◌, Option, none, some, List, [], ◌∷◌, String, str_eq, any,
}
use ai4_constrain.Prelude.Result.{Result, ok, err, ◌>>=◌, ◌>>◌, guard}
use ai4_constrain.Prelude.Text.{member}
use ai4_constrain.Abort.{
  Abort, schema_invalid, continuity_required_not_ready, reject_authority_kwargs,
}

pub record ContinuitySnapshot : Type 0 where
  pub ever_on : Bool
  pub ever_required : Bool
  pub persisted_report_schema_0_2_0 : Bool
  pub persisted_semantic : Bool

-- `schema_version` is "" if it is missing or empty; `report` is the keys of a nested mapping.
pub record Mapping : Type 0 where
  pub keys : List String
  pub schema_version : String
  pub report : Option (List String)

abbrev persisted_semantic_keys : List String
persisted_semantic_keys =
    "semantic" ∷ "semantic_abort" ∷ "semantic_block" ∷ "semantic_findings" ∷ "semantic_success" ∷ []

abbrev any_semantic : List String → Bool
any_semantic keys = any (λ key. member key keys) persisted_semantic_keys

unfoldable pub inspect_persisted_report_schema_0_2_0 : Option Mapping → Bool
inspect_persisted_report_schema_0_2_0 none = false
inspect_persisted_report_schema_0_2_0 (some payload) = str_eq payload.schema_version "0.2.0"

abbrev nested_semantic : Option (List String) → Bool
nested_semantic none = false
nested_semantic (some keys) = any_semantic keys

unfoldable pub inspect_persisted_semantic : Option Mapping → Bool
inspect_persisted_semantic none = false
inspect_persisted_semantic (some payload) =
    any_semantic payload.keys || nested_semantic payload.report

unfoldable pub continuity_snapshot_from_persisted :
    List String → Bool → Bool → List (Option Mapping) → Result Abort ContinuitySnapshot
continuity_snapshot_from_persisted kwargs ever_on ever_required payloads = do
  reject_authority_kwargs kwargs
  ok (record {
    ever_on = ever_on;
    ever_required = ever_required;
    persisted_report_schema_0_2_0 = any inspect_persisted_report_schema_0_2_0 payloads;
    persisted_semantic = any inspect_persisted_semantic payloads;
  })

unfoldable pub hybrid_continuity_required :
    List String → Option ContinuitySnapshot → Result Abort Bool
hybrid_continuity_required kwargs none = do reject_authority_kwargs kwargs; err schema_invalid
hybrid_continuity_required kwargs (some snapshot) = do
  reject_authority_kwargs kwargs
  ok (
      snapshot.ever_on || snapshot.ever_required || snapshot.persisted_report_schema_0_2_0
      || snapshot.persisted_semantic)

unfoldable pub reconcile_continuity_mirrors : List String → Bool → Bool → Result Abort Bool
reconcile_continuity_mirrors kwargs ever_on ever_required = do
  reject_authority_kwargs kwargs
  ok (ever_on || ever_required)

unfoldable pub tighten_continuity_state : List String → Bool → Bool → Result Abort (Bool × Bool)
tighten_continuity_state kwargs ever_on ever_required = do
  reject_authority_kwargs kwargs
  ok (ever_on, ever_required || ever_on)

unfoldable pub assert_continuity_not_reconciled_off :
    List String → Bool → Bool → Bool → Result Abort (Unit {0})
assert_continuity_not_reconciled_off kwargs ever_on ever_required proposed_off = do
  reject_authority_kwargs kwargs
  on ← reconcile_continuity_mirrors [] ever_on ever_required
  guard (not (proposed_off && on)) continuity_required_not_ready

unfoldable pub durable_continuity_intent :
    List String → Option ContinuitySnapshot → Result Abort Bool
durable_continuity_intent kwargs none = do reject_authority_kwargs kwargs; err schema_invalid
durable_continuity_intent kwargs (some snapshot) = do
  reject_authority_kwargs kwargs
  ok snapshot.ever_on
