-- ===== src/Hybrid/Loop/Judge.antt =====
-- ai4/constrain/_v07_3c/loop.py: `run_governing_loop`, a round after its examination, as far as its
-- decision.
use ai4_constrain.Prelude.{ℕ, Bool, false, [], map, String, if◌then◌else◌}
use ai4_constrain.Prelude.Result.{Result, ok, ◌>>=◌, ◌>>◌}
use ai4_constrain.Budget.Adapter.{Reply}
use ai4_constrain.Shards.{one, Evaluation}
use ai4_constrain.Shards.Wall.{overlay_packaged_policy, raw_evaluation}
use ai4_constrain.Control.{decide, is_revise}
use ai4_constrain.Fuse.{PackagedFuseResult, raw_of}
use ai4_constrain.Fuse.Findings.{fuse_bound_findings}
use ai4_constrain.Fuse.Rebuild.{rebuild_fused_evaluation}
use ai4_constrain.Semantic.Findings.{BoundSemanticFindings, is_sha256_hex}
use ai4_constrain.Hybrid.Loop.{
  RoundResult, LoopError, Setup, lift, check_quotes, det_score_map, fused, walled_of, fusion_view,
  hybrid_feedback,
}

-- The steps of a round that ask nothing of the outside.
module _ (setup : Setup) where
  -- `map_and_fuse_v2` of the deterministic scores and the findings.
  unfoldable pub fuse_step :
      Evaluation → BoundSemanticFindings → Result LoopError PackagedFuseResult
  fuse_step det_eval bound = fused (
      fuse_bound_findings is_sha256_hex setup.policy
        (raw_of (det_score_map det_eval.shard_scores [])) (map fusion_view bound.findings))

  unfoldable pub rebuild_step : Evaluation → PackagedFuseResult → Result LoopError Evaluation
  rebuild_step det_eval fuse_result = lift (rebuild_fused_evaluation [] det_eval fuse_result)

  unfoldable pub wall_step : Evaluation → Result LoopError Evaluation
  wall_step fused_eval =
      walled_of (overlay_packaged_policy one setup.packaged (raw_evaluation fused_eval))

  unfoldable pub quote_step : String → BoundSemanticFindings → Result LoopError (Unit {0})
  quote_step current bound = lift (check_quotes setup.sha256 current bound.findings)

  unfoldable pub feedback_step : Bool → BoundSemanticFindings → Result LoopError String
  feedback_step revising bound =
      lift (if revising then hybrid_feedback setup.closed bound else ok "")

  -- From the examination to the decision.
  unfoldable pub judge : ℕ → String → Reply → BoundSemanticFindings → Result LoopError RoundResult
  judge used current completion bound = do
    quote_step current bound
    fuse_result ← fuse_step (setup.evaluate current) bound
    fused_eval ← rebuild_step (setup.evaluate current) fuse_result
    walled ← wall_step fused_eval
    feedback ←
        feedback_step (is_revise (decide setup.middleware walled used false false).action) bound
    ok (record {
      text = current;
      completion = completion;
      det_eval = setup.evaluate current;
      bound = bound;
      fuse_result = fuse_result;
      fused_eval = fused_eval;
      walled = walled;
      decision = decide setup.middleware walled used false false;
      feedback = feedback;
    })
