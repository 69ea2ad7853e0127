-- ===== src/Hybrid/Loop.antt =====
-- ai4/constrain/_v07_3c/loop.py: the governing loop of a hybrid run, from the first proposal to its
-- terminal state. What comes of each outside call is given, by the number of the round and by the
-- texts that go into it: replies of the provider, examinations, clock readings and the connections
-- that are read at each check. The shared budget authority is there, which the install requires.
pub mod Judge
pub mod Step
mod Raised
mod Calls
pub mod Judged
pub mod Accounts
pub mod Ledger
pub mod Safety
mod Examples
use ai4_constrain.Prelude.{
  ℕ, zero, suc, ◌+◌, ◌-◌, ◌*◌, Bool, true, false, not, Option, none, some, List, [], ◌∷◌, ◌++◌, map,
  String, str_eq, is_nil, ltb, if◌then◌else◌,
}
use ai4_constrain.Prelude.Int.{ℤ, pos, negsuc}
use ai4_constrain.Prelude.Result.{Result, ok, err, ◌>>=◌, ◌>>◌, guard}
use ai4_constrain.Abort.{
  Abort, schema_invalid, identity_drift, fuse_failure, backend_error, proposal_completion_exhausted,
  RawNumber, finite,
}
use ai4_constrain.Budget.{Authority}
use ai4_constrain.Budget.Adapter.{Reply, CallError, aborted, provider_failed, Called, call}
use ai4_constrain.Shards.{Rubric, ShardScore, Evaluation}
use ai4_constrain.Shards.Wall.{
  WallError, constraint_execution_error, wall_key_error, overlay_packaged_policy, raw_evaluation,
}
use ai4_constrain.Control.{
  Machine, m_accept, m_revise_call, m_refuse, m_timeout, m_emit_exhausted, ControlError,
  LoopDecision, next_loop_action, parse_d_decision, Action, ConstraintDecision,
  ConstraintMiddleware, decide, is_revise,
}
use ai4_constrain.Control.Agent.{TerminalState, accepted, revised, refused, repeated}
use ai4_constrain.Fuse
use ai4_constrain.Fuse.{
  FuseError, semantic_fuse_error, key_error, Policy, PackagedFuseResult, raw_of,
}
use ai4_constrain.Fuse.Findings.{fuse_bound_findings}
use ai4_constrain.Fuse.Rebuild.{rebuild_fused_evaluation}
use ai4_constrain.Semantic.Findings.{
  BoundFinding, BoundSemanticFindings, text_length, is_sha256_hex,
}
use ai4_constrain.Semantic.Findings.Bound.{slice}
use ai4_constrain.Hybrid.{
  Snapshot, detect_identity_drift, Connection, assert_served_model_matches, InstalledHybrid,
  recheck_runtime_provenance,
}
use ai4_constrain.Hybrid.Feedback.{ClosedIds, Pair, format_hybrid_revision_feedback}
use ai4_constrain.Hybrid.Examine.{Examination, observe_semantic}

pub record RoundResult : Type 0 where
  pub text : String
  pub completion : Reply
  pub det_eval : Evaluation
  pub bound : BoundSemanticFindings
  pub fuse_result : PackagedFuseResult
  pub fused_eval : Evaluation
  pub walled : Evaluation
  pub decision : ConstraintDecision
  pub feedback : String

-- A `RevisionStep`, less its records for a report.
pub record RevisionStep : Type 0 where
  pub round : ℕ
  pub input_text : String
  pub output_text : String
  pub action : Action
  pub reason : String
  pub feedback : String

-- What the loop returns.
pub record Governed : Type 0 where
  pub last : RoundResult
  pub completions : List Reply
  pub steps : List RevisionStep
  pub used : ℕ
  pub state : TerminalState
  pub reason : String

-- An abort, or an exception that the loop lets through; `out_of_fuel` marks a bound of the model.
pub data LoopError : Type 0 where
  abort : Abort → LoopError
  wall_error : WallError → LoopError
  control_error : ControlError → LoopError
  dict_key_error out_of_fuel : LoopError

-- The outside of a run.
pub record Outside (E : Type 0) : Type 0 where
  pub proposer : ℕ → Option Connection
  pub examiner : ℕ → Option Connection
  pub clock : ℕ → ℤ
  pub first_reply : Result E Reply
  pub reply : ℕ → String → String → Result E Reply
  pub examination : ℕ → String → Examination

-- The arguments of the loop, the context and the packaged data that it reads.
pub record Setup : Type 0 where
  pub installed : Option InstalledHybrid
  pub context_snapshot : Option Snapshot
  pub served_model : String
  pub locked_prompt : String
  pub proposal : Option String
  pub supplied_model : String
  pub reserve_usd_proposal : ℕ
  pub reserve_usd_examiner : RawNumber
  pub max_revision_rounds : ℕ
  pub evaluate : String → Evaluation
  pub middleware : ConstraintMiddleware
  pub packaged : List Rubric
  pub policy : Policy
  pub closed : ClosedIds
  pub sha256 : String → String
  pub lower : String → String

abbrev pub lift {ℓ} : {A : Type ℓ} → Result Abort A → Result LoopError A
lift (err class) = err (abort class)
lift (ok value) = ok value

-- A negative index of Python counts from the end.
abbrev pub offset : ℕ → ℤ → ℕ
offset size (pos n) = n
offset size (negsuc n) = size - suc n

-- `_quote_sha256`
unfoldable pub quote_sha256 : (String → String) → String → ℤ → ℤ → String
quote_sha256 sha256 text start end =
    sha256 (slice (offset (text_length text) start) (offset (text_length text) end) text)

unfoldable pub check_quotes :
    (String → String) → String → List BoundFinding → Result Abort (Unit {0})
check_quotes sha256 text [] = ok tt
check_quotes sha256 text (item ∷ rest) = do
  guard
      (str_eq item.finding.quote_sha256
        (quote_sha256 sha256 text item.finding.span.start item.finding.span.end))
      identity_drift
  check_quotes sha256 text rest

-- `_det_score_map`: a later score overwrites one under the same identifier.
unfoldable pub put_score : String → ℕ → List (String × ℕ) → List (String × ℕ)
put_score shard score [] = (shard, score) ∷ []
put_score shard score (entry ∷ rest) =
    let later = put_score shard score rest in
    if str_eq entry.0 shard then (shard, score) ∷ rest else entry ∷ later

unfoldable pub det_score_map : List ShardScore → List (String × ℕ) → List (String × ℕ)
det_score_map [] scores = scores
det_score_map (s ∷ rest) scores = det_score_map rest (put_score s.shard_id s.score scores)

abbrev pub fused : Result FuseError PackagedFuseResult → Result LoopError PackagedFuseResult
fused (err semantic_fuse_error) = err (abort fuse_failure)
fused (err key_error) = err dict_key_error
fused (ok result) = ok result

abbrev pub walled_of : Result WallError Evaluation → Result LoopError Evaluation
walled_of (err e) = err (wall_error e)
walled_of (ok evaluation) = ok evaluation

-- What the fusion reads of a finding.
abbrev pub fusion_view : BoundFinding → Fuse.BoundFinding
fusion_view item = record {
  finding_id = item.finding.finding_id;
  class_id = item.finding.class_id;
  confidence_bin = item.finding.confidence_bin;
  claim_fingerprint = item.claim_fingerprint;
}

abbrev pub pair_of : BoundFinding → Pair
pair_of item = (item.finding.class_id, item.finding.observation_code)

-- `_hybrid_feedback`
unfoldable pub hybrid_feedback : ClosedIds → BoundSemanticFindings → Result Abort String
hybrid_feedback closed bound = do
  guard (not (is_nil bound.findings)) schema_invalid
  format_hybrid_revision_feedback closed [] (map pair_of bound.findings)
