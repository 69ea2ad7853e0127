-- ===== src/Hybrid/Loop/Judged.antt =====
-- ai4/constrain/_v07_3c/loop.py: how a round comes to its decision, and what follows from it.
use ai4_constrain.Prelude.{ℕ, ◌≤◌, ◌≡◌, refl, true, false, String, sym, ap, ◌∙◌, arith}
use ai4_constrain.Prelude.Result.{Result, ok, Returns, Returns-bind, Returns-then}
use ai4_constrain.Budget.Adapter.{Reply}
use ai4_constrain.Shards.{Evaluation}
use ai4_constrain.Shards.Arbitration.{any_hard_failed, arbitrate-verdict}
use ai4_constrain.Control.{
  accept, revise, refuse, m_accept, m_refuse, ControlError, LoopDecision, next_loop_action,
  parse_d_decision, is_revise, decide, in_loop_actions, Action,
}
use ai4_constrain.Control.Decisions.{parse_d_decision-decide}
use ai4_constrain.Semantic.Findings.{BoundSemanticFindings}
use ai4_constrain.Hybrid.Loop.{RoundResult, Setup}
use ai4_constrain.Hybrid.Loop.Judge.{
  judge, fuse_step, rebuild_step, wall_step, quote_step, feedback_step,
}

-- How the round came to its decision: the deterministic evaluation of its text, fused with the bound
-- findings, rebuilt, and walled by the packaged rubrics.
abbrev pub Judged : Setup → RoundResult → Type 0
Judged setup last =
    (last.det_eval ≡ setup.evaluate last.text)
    × (quote_step setup last.text last.bound ≡ ok tt)
    × (fuse_step setup last.det_eval last.bound ≡ ok last.fuse_result)
    × (rebuild_step setup last.det_eval last.fuse_result ≡ ok last.fused_eval)
    × (wall_step setup last.fused_eval ≡ ok last.walled)
    × ((used : ℕ) × (last.decision ≡ decide setup.middleware last.walled used false false))

pub judge-Judged :
    (setup : Setup) (used : ℕ) (current : String) (completion : Reply)
    (bound : BoundSemanticFindings)
    → Returns
        (λ last.
          Judged setup last
          × (last.decision ≡ decide setup.middleware last.walled used false false))
        (judge setup used current completion bound)
unfolding judge
judge-Judged setup used current completion bound =
    let P : RoundResult → Type 0 = λ last.
      Judged setup last × (last.decision ≡ decide setup.middleware last.walled used false false) in
    Returns-then P (quote_step setup current bound) _ λ quoted.
      Returns-bind P (fuse_step setup (setup.evaluate current) bound) _ λ fuse_result fused.
        Returns-bind P (rebuild_step setup (setup.evaluate current) fuse_result) _
          λ fused_eval rebuilt. Returns-bind P (wall_step setup fused_eval) _ λ walled walls.
            let revising = is_revise (decide setup.middleware walled used false false).action in
            Returns-bind P (feedback_step setup revising bound) _
              λ feedback _. ((refl, quoted, fused, rebuilt, walls, (used, refl)), refl)

pub moves_accept :
    (d : LoopDecision) (used max : ℕ)
    → d.requested_revision ≡ is_revise d.action
    → in_loop_actions d.action ≡ true
    → next_loop_action d used max true false ≡ m_accept
    → d.action ≡ accept
unfolding next_loop_action
moves_accept d used max requested known e = ground arith

pub moves_refuse :
    (d : LoopDecision) (used max : ℕ)
    → next_loop_action d used max true false ≡ m_refuse
    → d.action ≡ refuse
unfolding next_loop_action
moves_refuse d used max e = ground arith

pub is_revise_lem : (action : Action) → is_revise action ≡ true → action ≡ revise
is_revise_lem action h = ground arith

module _ (setup : Setup) where
  -- What D's parser makes of a decision keeps its action.
  abbrev pub Decided : ℕ → RoundResult → LoopDecision → Type 0
  Decided used last d =
      Judged setup last
      × (last.decision ≡ decide setup.middleware last.walled used false false)
      × (d.action ≡ last.decision.action)
      × (d.requested_revision ≡ is_revise last.decision.action)

  pub decide-soft :
      (e : Evaluation) (used : ℕ)
      → (decide setup.middleware e used false false).action ≡ revise
      → setup.middleware.max_revision_rounds ≤ used
      → any_hard_failed e ≡ false
  unfolding decide
  decide-soft e used r m = ground (arith, arbitrate-verdict e setup.middleware.rubrics)

  pub decide-known :
      (e : Evaluation) (used : ℕ)
      → in_loop_actions (decide setup.middleware e used false false).action ≡ true
  unfolding decide
  decide-known e used = ground arith

  pub parsed-Decided :
      (used : ℕ) (last : RoundResult)
      → Judged setup last
      → last.decision ≡ decide setup.middleware last.walled used false false
      → (d : LoopDecision)
      → parse_d_decision last.decision.action last.decision.reason last.feedback ≡ ok d
      → Decided used last d
  parsed-Decided used last judged made d e =
      let raw = decide setup.middleware last.walled used false false in
      let parsed =
        parse_d_decision-decide setup.middleware last.walled used false false last.feedback in
      let same : parse_d_decision last.decision.action last.decision.reason last.feedback
          ≡ parse_d_decision raw.action raw.reason last.feedback =
        ap (λ c. parse_d_decision c.action c.reason last.feedback) made in
      let result = sym parsed ∙ sym same ∙ e in
      let back = ap (λ c. c.action) made in
      (judged, made, action_of result ∙ sym back, requested_of result ∙ ap is_revise (sym back))
    where
      action_of :
          {a b : LoopDecision}
          → ◌≡◌ {A = Result ControlError LoopDecision} (ok a) (ok b)
          → b.action ≡ a.action
      action_of h = cc

      requested_of :
          {a b : LoopDecision}
          → ◌≡◌ {A = Result ControlError LoopDecision} (ok a) (ok b)
          → b.requested_revision ≡ a.requested_revision
      requested_of h = cc
