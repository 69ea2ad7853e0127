-- ===== src/Hybrid/Ready.antt =====
-- ai4/constrain/_v07_3c/ready.py: the gates between a hybrid context and its run.
pub mod Gates
mod Examples
use ai4_constrain.Prelude.{
  ℕ, ◌+◌, Bool, true, false, not, ◌&&◌, ◌||◌, Option, none, some, List, [], ◌∷◌, ◌++◌, map, String,
  str_eq, ltb, ◌==◌, every, length, is_nil, if◌then◌else◌, select,
}
use ai4_constrain.Prelude.Int.{ℤ, ltb_ℤ}
use ai4_constrain.Prelude.Result.{Result, ok, err, ◌>>=◌, ◌>>◌}
use ai4_constrain.Prelude.Text.{member}
use ai4_constrain.Abort.{Abort, schema_invalid, reject_authority_kwargs}
use ai4_constrain.Budget.{Authority}
use ai4_constrain.Semantic.Findings.{findings_schema_version}
use ai4_constrain.Hybrid.{Snapshot, Locked}
use ai4_constrain.Hybrid.Continuity.{ContinuitySnapshot, hybrid_continuity_required}

-- A claim of a provenance, and whether one of the collectors minted it.
pub record ProvenanceClaim : Type 0 where
  pub claim : String
  pub is_runtime_observed : Bool

pub record ProvenanceEvidenceBundle : Type 0 where
  pub kind : String
  pub claims : List ProvenanceClaim

-- What the gates read of a `HybridContext`.
pub record HybridContext : Type 0 where
  pub fuse_id : String
  pub semantic_schema_version : String
  pub semantic_config_version : String
  pub roles : List String
  pub provenance : ProvenanceEvidenceBundle
  pub continuity : ContinuitySnapshot
  pub identity_snapshot : Snapshot
  pub grade : String
  pub hard_disqualifiers : List String
  pub minimum_satisfied : Bool
  pub budget_authority : Option Authority
  pub examiner_provenance : Option ProvenanceEvidenceBundle

abbrev pub required_runtime_claims : List String
required_runtime_claims =
    "transport_bound" ∷ "origin_allowlisted" ∷ "provider_session_bound" ∷ "served_model_observed"
    ∷ "account_observed" ∷ []

unfoldable pub observed_claims : ProvenanceEvidenceBundle → List String
observed_claims bundle = map (λ c. c.claim) (select (λ c. c.is_runtime_observed) bundle.claims)

-- All required claims were observed, in a bundle of the kind that is minted at run time.
unfoldable pub role_observed : ProvenanceEvidenceBundle → Bool
role_observed bundle =
    str_eq bundle.kind "runtime_observed"
    && every (λ name. member name (observed_claims bundle)) required_runtime_claims

unfoldable pub examiner_role_observed : Option ProvenanceEvidenceBundle → Bool
examiner_role_observed none = false
examiner_role_observed (some bundle) = role_observed bundle

abbrev pub deadline_ahead : ℤ → Option Authority → Bool
deadline_ahead now none = false
deadline_ahead now (some s) = ltb_ℤ now s.deadline

abbrev pub examiner_lane : Option Authority → Bool
examiner_lane none = false
examiner_lane (some s) = ltb (s.examiner_committed + s.examiner_reserved) s.max_examiner

abbrev pub proposal_lane : Option Authority → Bool
proposal_lane none = false
proposal_lane (some s) = ltb (s.proposal_committed + s.proposal_reserved) s.max_proposal

abbrev pub given : Option Authority → Bool
given none = false
given (some s) = true

pub record ReadyFacts : Type 0 where
  pub locked_observation_prompt_hash : Bool
  pub locked_registry_hash : Bool
  pub locked_policy_map_hash : Bool
  pub fuse_id_match : Bool
  pub semantic_schema_version_match : Bool
  pub semantic_config_version_match : Bool
  pub role_bindings_present : Bool
  pub operational_separation_minimum : Bool
  pub no_hard_disqualifier : Bool
  pub runtime_observed_provenance : Bool
  pub continuity_compatible : Bool
  pub shared_budget_authority : Bool
  pub wall_clock_deadline_valid : Bool
  pub examiner_call_budget_available : Bool
  pub proposal_completion_budget_available : Bool
  pub observed_claim_names : List (String × String)
  pub failed_gates : List String

-- `if not passed: failed.append(gate)`
abbrev pub gate_failed : Bool → String → List String → List String
gate_failed true gate rest = rest
gate_failed false gate rest = gate ∷ rest

-- The gates that failed, in order. The test of the locked hashes at the end adds nothing: it would add
-- the first gate, if it is missing, but only if that gate failed.
abbrev pub failed_of : ReadyFacts → List String
failed_of f = gate_failed f.locked_observation_prompt_hash "locked_observation_prompt_hash" (
    gate_failed f.locked_registry_hash "locked_registry_hash" (
      gate_failed f.locked_policy_map_hash "locked_policy_map_hash" (
        gate_failed f.fuse_id_match "fuse_id_match" (
          gate_failed f.semantic_schema_version_match "semantic_schema_version_match" (
            gate_failed f.semantic_config_version_match "semantic_config_version_match" (
              gate_failed f.role_bindings_present "proposer_examiner_role_bindings" (
                gate_failed f.operational_separation_minimum "operational_separation_minimum" (
                  gate_failed f.no_hard_disqualifier "no_hard_disqualifier" (
                    gate_failed f.runtime_observed_provenance "runtime_observed_provenance" (
                      gate_failed f.continuity_compatible "continuity_compatible" (
                        gate_failed f.shared_budget_authority "shared_budget_authority" (
                          gate_failed f.wall_clock_deadline_valid "wall_clock_deadline_valid" (
                            gate_failed f.examiner_call_budget_available
                              "examiner_call_budget_available"
                              (gate_failed f.proposal_completion_budget_available
                                "proposal_completion_budget_available" []))))))))))))))

abbrev tagged : String → List String → List (String × String)
tagged role names = map (λ name. (role, name)) names

abbrev examiner_names : Option ProvenanceEvidenceBundle → List String
examiner_names none = []
examiner_names (some bundle) = observed_claims bundle

abbrev pub no_disqualifier : HybridContext → Bool
no_disqualifier c = is_nil c.hard_disqualifiers && not (str_eq c.grade "hard_disqualifier")

abbrev pub both_roles : List String → Bool
both_roles roles = length roles == 2 && member "proposer" roles && member "examiner" roles

abbrev pub continuity_fits : HybridContext → Bool → Bool
continuity_fits c required = not required || c.continuity.ever_on

-- The facts but for the failed gates; `now` is read if there is an authority.
unfoldable pub gate_facts : Locked → String → HybridContext → ℤ → Bool → ReadyFacts
gate_facts locked config_version c now required =
    let s = c.identity_snapshot in
    record {
      locked_observation_prompt_hash =
          str_eq s.observation_prompt_sha256 locked.observation_prompt_sha256;
      locked_registry_hash = str_eq s.registry_sha256 locked.registry_sha256;
      locked_policy_map_hash = str_eq s.policy_map_sha256 locked.policy_map_sha256;
      fuse_id_match = str_eq s.fuse_id locked.fuse_id && str_eq locked.fuse_id c.fuse_id;
      semantic_schema_version_match =
          str_eq s.semantic_schema_version findings_schema_version
          && str_eq findings_schema_version c.semantic_schema_version;
      semantic_config_version_match =
          str_eq s.semantic_config_version config_version
          && str_eq config_version c.semantic_config_version;
      role_bindings_present = both_roles c.roles;
      operational_separation_minimum = c.minimum_satisfied && no_disqualifier c;
      no_hard_disqualifier = no_disqualifier c;
      runtime_observed_provenance =
          role_observed c.provenance && examiner_role_observed c.examiner_provenance;
      continuity_compatible = continuity_fits c required;
      shared_budget_authority = given c.budget_authority;
      wall_clock_deadline_valid = deadline_ahead now c.budget_authority;
      examiner_call_budget_available = examiner_lane c.budget_authority;
      proposal_completion_budget_available = proposal_lane c.budget_authority;
      observed_claim_names =
          tagged "proposer" (observed_claims c.provenance)
          ++ tagged "examiner" (examiner_names c.examiner_provenance);
      failed_gates = [];
    }

-- `compute_ready_facts`
unfoldable pub compute_ready_facts :
    Locked → String → List String → HybridContext → ℤ → Result Abort ReadyFacts
compute_ready_facts locked config_version kwargs c now = do
  reject_authority_kwargs kwargs
  required ← hybrid_continuity_required [] (some c.continuity)
  ok (record (gate_facts locked config_version c now required) {
    failed_gates = failed_of (gate_facts locked config_version c now required);
  })

pub data Readiness : Type 0 where
  ready : ReadyFacts → Readiness
  not_ready : String → Readiness

-- What may be asked whether it is ready.
pub data ReadyArgument : Type 0 where
  nothing a_configuration unsupported : ReadyArgument
  a_context : HybridContext → ReadyArgument

abbrev pub conclude : ReadyFacts → List String → Readiness
conclude facts [] = ready facts
conclude facts (gate ∷ _) = not_ready gate

-- `hybrid_ready`
unfoldable pub hybrid_ready :
    Locked → String → List String → ReadyArgument → ℤ → Result Abort Readiness
hybrid_ready locked config_version kwargs nothing now = do
  reject_authority_kwargs kwargs
  ok (not_ready "slice_incomplete")
hybrid_ready locked config_version kwargs a_configuration now = do
  reject_authority_kwargs kwargs
  ok (not_ready "runtime_observed_provenance")
hybrid_ready locked config_version kwargs unsupported now = do
  reject_authority_kwargs kwargs
  err schema_invalid
hybrid_ready locked config_version kwargs (a_context c) now = do
  reject_authority_kwargs kwargs
  facts ← compute_ready_facts locked config_version [] c now
  ok (conclude facts facts.failed_gates)
