-- ===== src/Hybrid/Ready/Gates.antt =====
-- ai4/constrain/_v07_3c/ready.py: what a ready context is good for.
use ai4_constrain.Prelude.{
  ℕ, ◌+◌, ◌≤◌, ◌≡◌, refl, ap, subst, Bool, true, false, not, ◌||◌, some, List, [], ◌∷◌, String,
  str_eq, is_nil, arith,
}
use ai4_constrain.Prelude.Int.{ℤ, pos}
use ai4_constrain.Prelude.Result.{Result, ok}
use ai4_constrain.Abort.{Abort, finite, reject_authority_kwargs}
use ai4_constrain.Budget.{
  Authority, proposal_completion, examiner_call, reserve_proposal_completion, reserve_examiner_call,
  new_handle,
}
use ai4_constrain.Budget.Room.{reserve_proposal_completion-room, reserve_examiner_call-room}
use ai4_constrain.Hybrid.{Snapshot, Locked, assert_locked_artifact_hashes}
use ai4_constrain.Hybrid.Continuity.{ContinuitySnapshot, hybrid_continuity_required}
use ai4_constrain.Hybrid.Ready.{
  HybridContext, ReadyFacts, gate_failed, failed_of, gate_facts, compute_ready_facts, Readiness,
  ready, a_context, conclude, hybrid_ready, role_observed, examiner_role_observed, both_roles,
  deadline_ahead, examiner_lane, proposal_lane,
}

gate_failed-nil :
    (passed : Bool) (gate : String) (rest : List String)
    → gate_failed passed gate rest ≡ []
    → (passed ≡ true) × (rest ≡ [])
gate_failed-nil true gate rest h = (refl, h)
gate_failed-nil false gate rest h = cc

-- Every gate was passed.
abbrev pub Passed : ReadyFacts → Type 0
Passed f =
    (f.locked_observation_prompt_hash ≡ true)
    × (f.locked_registry_hash ≡ true)
    × (f.locked_policy_map_hash ≡ true)
    × (f.fuse_id_match ≡ true)
    × (f.role_bindings_present ≡ true)
    × (f.operational_separation_minimum ≡ true)
    × (f.runtime_observed_provenance ≡ true)
    × (f.continuity_compatible ≡ true)
    × (f.wall_clock_deadline_valid ≡ true)
    × (f.examiner_call_budget_available ≡ true)
    × (f.proposal_completion_budget_available ≡ true)

failed_of-Passed : (f : ReadyFacts) → failed_of f ≡ [] → Passed f
failed_of-Passed f h =
    let (prompt, h) = gate_failed-nil f.locked_observation_prompt_hash _ _ h in
    let (registry, h) = gate_failed-nil f.locked_registry_hash _ _ h in
    let (policy, h) = gate_failed-nil f.locked_policy_map_hash _ _ h in
    let (fuse, h) = gate_failed-nil f.fuse_id_match _ _ h in
    let (schema, h) = gate_failed-nil f.semantic_schema_version_match _ _ h in
    let (config, h) = gate_failed-nil f.semantic_config_version_match _ _ h in
    let (roles, h) = gate_failed-nil f.role_bindings_present _ _ h in
    let (separation, h) = gate_failed-nil f.operational_separation_minimum _ _ h in
    let (hard, h) = gate_failed-nil f.no_hard_disqualifier _ _ h in
    let (observed, h) = gate_failed-nil f.runtime_observed_provenance _ _ h in
    let (continuity, h) = gate_failed-nil f.continuity_compatible _ _ h in
    let (shared, h) = gate_failed-nil f.shared_budget_authority _ _ h in
    let (deadline, h) = gate_failed-nil f.wall_clock_deadline_valid _ _ h in
    let (examiner, h) = gate_failed-nil f.examiner_call_budget_available _ _ h in
    let (proposal, h) = gate_failed-nil f.proposal_completion_budget_available _ _ h in
    (
      prompt, registry, policy, fuse, roles, separation, observed, continuity, deadline, examiner,
      proposal,
    )

conclude-nil :
    (facts given : ReadyFacts) (gates : List String)
    → ◌≡◌ {A = Result Abort Readiness} (ok (conclude given gates)) (ok (ready facts))
    → gates ≡ []
conclude-nil facts given [] h = refl
conclude-nil facts given (gate ∷ gates) h = cc

abbrev required : ContinuitySnapshot → Bool
required k = k.ever_on || k.ever_required || k.persisted_report_schema_0_2_0 || k.persisted_semantic

hybrid_ready-Passed :
    (locked : Locked) (version : String) (c : HybridContext) (now : ℤ) (facts : ReadyFacts)
    → hybrid_ready locked version [] (a_context c) now ≡ ok (ready facts)
    → Passed (gate_facts locked version c now (required c.continuity))
unfolding hybrid_ready compute_ready_facts hybrid_continuity_required reject_authority_kwargs
hybrid_ready-Passed locked version c now facts h =
    let g = gate_facts locked version c now (required c.continuity) in
    failed_of-Passed g (conclude-nil facts (record g { failed_gates = failed_of g }) _ h)

-- What a ready context has, and what its authority grants at once.
pub record Cleared (locked : Locked) (c : HybridContext) (amount : ℕ) (now : ℤ) (s : Authority)
    : Type 0 where
  pub locked_hashes : assert_locked_artifact_hashes locked [] c.identity_snapshot ≡ ok tt
  pub roles : both_roles c.roles ≡ true
  pub separated : (c.minimum_satisfied ≡ true) × (is_nil c.hard_disqualifiers ≡ true)
  pub proposer : role_observed c.provenance ≡ true
  pub examiner : examiner_role_observed c.examiner_provenance ≡ true
  pub continuity : hybrid_continuity_required [] (some c.continuity) ≡ ok c.continuity.ever_on
  pub proposal_granted :
      (reserve_proposal_completion [] (finite (pos amount)) now s).0
      ≡ ok (new_handle proposal_completion amount s)
  pub examiner_granted :
      (reserve_examiner_call [] (finite (pos amount)) now s).0
      ≡ ok (new_handle examiner_call amount s)

required_on :
    (k : ContinuitySnapshot) → (not (required k) || k.ever_on) ≡ true → required k ≡ k.ever_on
required_on k h = ground arith

locked_fits :
    (locked : Locked) (s : Snapshot)
    → str_eq s.observation_prompt_sha256 locked.observation_prompt_sha256 ≡ true
    → str_eq s.registry_sha256 locked.registry_sha256 ≡ true
    → str_eq s.policy_map_sha256 locked.policy_map_sha256 ≡ true
    → str_eq s.fuse_id locked.fuse_id ≡ true
    → assert_locked_artifact_hashes locked [] s ≡ ok tt
unfolding assert_locked_artifact_hashes reject_authority_kwargs
locked_fits locked s prompt registry policy fuse = rw (prompt, registry, policy, fuse) refl

-- If a context is ready, its snapshot has the locked hashes, both roles are bound and observed at run
-- time, they are separated, continuity is required exactly if it is durably on, and its authority
-- grants, at that moment, a proposal completion and an examination of any amount that it has left.
pub hybrid_ready-Cleared :
    (locked : Locked) (version : String) (c : HybridContext) (now : ℤ) (facts : ReadyFacts)
    (s : Authority) (amount : ℕ)
    → hybrid_ready locked version [] (a_context c) now ≡ ok (ready facts)
    → c.budget_authority ≡ some s
    → s.usd_committed + s.usd_reserved + amount ≤ s.max_usd
    → Cleared locked c amount now s
unfolding gate_facts hybrid_continuity_required reject_authority_kwargs
hybrid_ready-Cleared locked version c now facts s amount is_ready shared left =
    let (
      prompt, registry, policy, fuse, roles, separation, observed, continuity, deadline, examiner,
      proposal,
    ) =
      hybrid_ready-Passed locked version c now facts is_ready in
    let early = subst (λ o. deadline_ahead now o ≡ true) shared deadline in
    let examining = subst (λ o. examiner_lane o ≡ true) shared examiner in
    let proposing = subst (λ o. proposal_lane o ≡ true) shared proposal in
    let fuse_matches : str_eq c.identity_snapshot.fuse_id locked.fuse_id ≡ true = ground arith in
    record {
      locked_hashes = locked_fits locked c.identity_snapshot prompt registry policy fuse_matches;
      roles = roles;
      separated = (ground arith, ground arith);
      proposer = ground arith;
      examiner = ground arith;
      continuity = ap ok (required_on c.continuity continuity);
      proposal_granted = reserve_proposal_completion-room amount now s early left proposing;
      examiner_granted = reserve_examiner_call-room amount now s early left examining;
    }
