-- ===== src/Hybrid/Ready/Examples.antt =====
-- The gates of a hybrid context: a context that passes them all, and the theorem at it.
use ai4_constrain.Prelude.{ℕ, ◌≡◌, refl, true, false, some, [], ◌∷◌, String, map, arith}
use ai4_constrain.Prelude.Int.{pos}
use ai4_constrain.Prelude.Result.{ok, err}
use ai4_constrain.Abort.{reject_authority_kwargs, schema_invalid}
use ai4_constrain.Budget.{Authority}
use ai4_constrain.Semantic.Findings.{findings_schema_version}
use ai4_constrain.Hybrid.{Locked}
use ai4_constrain.Hybrid.Continuity.{hybrid_continuity_required}
use ai4_constrain.Hybrid.Ready.{
  ProvenanceEvidenceBundle, ProvenanceClaim, HybridContext, ReadyFacts, required_runtime_claims,
  observed_claims, role_observed, examiner_role_observed, gate_facts, compute_ready_facts, ready,
  not_ready, nothing, unsupported, a_context, hybrid_ready,
}
use ai4_constrain.Hybrid.Ready.Gates.{Cleared, hybrid_ready-Cleared}

abbrev locked : Locked
locked = record {
  observation_prompt_sha256 = "p";
  registry_sha256 = "r";
  policy_map_sha256 = "m";
  fuse_id = "fuse";
}

abbrev observed_claim : String → ProvenanceClaim
observed_claim name = record { claim = name; is_runtime_observed = true }

abbrev bundle : ProvenanceEvidenceBundle
bundle = record { kind = "runtime_observed"; claims = map observed_claim required_runtime_claims }

abbrev authority : ℕ → Authority
authority deadline = record {
  deadline = pos deadline;
  max_proposal = 2;
  max_examiner = 2;
  max_usd = 10;
  next_id = 1;
  usd_committed = 4;
  usd_reserved = 0;
  proposal_reserved = 0;
  proposal_committed = 1;
  examiner_reserved = 0;
  examiner_committed = 1;
  reservations = [];
}

abbrev context : ℕ → HybridContext
context deadline = record {
  fuse_id = "fuse";
  semantic_schema_version = findings_schema_version;
  semantic_config_version = "v07.3c.0";
  roles = "proposer" ∷ "examiner" ∷ [];
  provenance = bundle;
  continuity = record {
    ever_on = true;
    ever_required = true;
    persisted_report_schema_0_2_0 = false;
    persisted_semantic = false;
  };
  identity_snapshot = record {
    observation_prompt_sha256 = "p";
    registry_sha256 = "r";
    policy_map_sha256 = "m";
    fuse_id = "fuse";
    examiner_config_identity = "examiner";
    examiner_provenance_identity = "provenance";
    proposer_identity = "proposer";
    evaluator_identity = "evaluator";
    evaluator_fingerprint = "f";
    semantic_schema_version = findings_schema_version;
    examiner_call_cap = 2;
    semantic_config_version = "v07.3c.0";
  };
  grade = "minimum_operational_separation";
  hard_disqualifiers = [];
  minimum_satisfied = true;
  budget_authority = some (authority deadline);
  examiner_provenance = some bundle;
}

abbrev facts : ReadyFacts
facts = gate_facts locked "v07.3c.0" (context 100) (pos 1) true

gates : Unit {0}
unfolding hybrid_ready compute_ready_facts gate_facts role_observed examiner_role_observed
    observed_claims hybrid_continuity_required reject_authority_kwargs
gates = tt

is_ready : hybrid_ready locked "v07.3c.0" [] (a_context (context 100)) (pos 1) ≡ ok (ready facts)
unfolding gates
is_ready = refl

-- Past the deadline, without a context, and with an object that is none.
is_not_ready :
    (hybrid_ready locked "v07.3c.0" [] (a_context (context 100)) (pos 100)
      ≡ ok (not_ready "wall_clock_deadline_valid"))
    × (hybrid_ready locked "v07.3c.0" [] nothing (pos 1) ≡ ok (not_ready "slice_incomplete"))
    × (hybrid_ready locked "v07.3c.0" [] unsupported (pos 1) ≡ err schema_invalid)
unfolding gates
is_not_ready = (refl, refl, refl)

hybrid_ready-Cleared_example : Cleared locked (context 100) 6 (pos 1) (authority 100)
hybrid_ready-Cleared_example =
    hybrid_ready-Cleared locked "v07.3c.0" (context 100) (pos 1) facts (authority 100) 6 is_ready
      refl (omega arith)
