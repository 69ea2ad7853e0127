-- ===== src/Abort.antt =====
-- ai4/constrain/_v07_3a/abort.py and ai4/constrain/_v07_3a/_common.py: the closed vocabulary of
-- aborts and the checks on raw arguments that raise them. An abort is modelled by its class; its
-- message is text for people. A raw argument is what the checks tell apart of a Python object: an
-- `int` or `float` that is finite (in whole units of the smallest amount), one that is not, or
-- something else.
use ai4_constrain.Prelude.{ℕ, Bool, false, String, List, [], ◌∷◌, if◌then◌else◌, ◌||◌}
use ai4_constrain.Prelude.Int.{ℤ, pos, negsuc}
use ai4_constrain.Prelude.Result.{Result, ok, err}
use ai4_constrain.Prelude.Text.{member}

pub data Abort : Type 0 where
  already_expired_deadline wall_deadline_exhausted spend_reservation_rejection : Abort
  proposal_completion_exhausted examiner_call_exhaustion backend_error schema_invalid : Abort
  empty_parse injection_suspected caller_config_pin_forbidden provenance_mismatch : Abort
  origin_allowlist_failure served_model_mismatch account_session_mismatch : Abort
  observation_prompt_hash_mismatch registry_hash_mismatch policy_map_hash_mismatch : Abort
  fuse_failure identity_drift continuity_required_not_ready : Abort

pub data RawNumber : Type 0 where
  finite : ℤ → RawNumber
  not_finite not_number : RawNumber

abbrev authority_boundary_keys : List String
authority_boundary_keys =
    "accept" ∷ "action" ∷ "arbitration" ∷ "decision" ∷ "enable" ∷ "enabled" ∷ "evaluator" ∷ "fusion"
    ∷ "hybrid" ∷ "hybrid_enable" ∷ "hybrid_enabled" ∷ "install" ∷ "install_hybrid" ∷ "overlay"
    ∷ "passed" ∷ "penalties" ∷ "policy_map" ∷ "ready" ∷ "refuse" ∷ "registry" ∷ "revise"
    ∷ "terminal" ∷ "threshold" ∷ "thresholds" ∷ "verdict" ∷ "weights" ∷ []

smuggled : List String → Bool
smuggled [] = false
smuggled (key ∷ keys) = member key authority_boundary_keys || smuggled keys

-- The keyword arguments that a signature does not name, by their keys.
unfoldable pub reject_authority_kwargs : List String → Result Abort (Unit {0})
unfolding smuggled
reject_authority_kwargs [] = ok tt
reject_authority_kwargs (key ∷ keys) =
    if smuggled (key ∷ keys) then err caller_config_pin_forbidden else err schema_invalid

unfoldable pub require_finite_number : RawNumber → Result Abort ℤ
require_finite_number (finite n) = ok n
require_finite_number not_finite = err schema_invalid
require_finite_number not_number = err schema_invalid

-- A value that passes is a natural number from here on.
unfoldable pub require_nonnegative : ℤ → Result Abort ℕ
require_nonnegative (pos n) = ok n
require_nonnegative (negsuc n) = err schema_invalid
