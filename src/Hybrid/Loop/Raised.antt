-- ===== src/Hybrid/Loop/Raised.antt =====
-- ai4/constrain/_v07_3c/loop.py: how the steps of a round fail.
use ai4_constrain.Prelude.{ℕ, false, String}
use ai4_constrain.Prelude.Result.{Result, ok, err, ◌>>◌, ◌>>=◌}
use ai4_constrain.Abort.{Abort}
use ai4_constrain.Budget.Adapter.{Reply}
use ai4_constrain.Fuse.{FuseError, semantic_fuse_error, key_error, PackagedFuseResult}
use ai4_constrain.Shards.{Evaluation}
use ai4_constrain.Shards.Wall.{WallError}
use ai4_constrain.Control.{is_revise, decide}
use ai4_constrain.Semantic.Findings.{BoundSemanticFindings}
use ai4_constrain.Hybrid.Loop.{RoundResult, LoopError, out_of_fuel, Setup, lift, fused, walled_of}
use ai4_constrain.Hybrid.Loop.Judge.{
  judge, fuse_step, rebuild_step, wall_step, quote_step, feedback_step,
}

-- An error other than running out of fuel.
abbrev pub Raises : LoopError → Type 0
Raises out_of_fuel = ⊥
Raises _ = Unit

abbrev pub Raised : {A : Type 0} → Result LoopError A → Type 0
Raised (ok _) = Unit
Raised (err error) = Raises error

Raised-bind :
    {A B : Type 0} (first : Result LoopError A) (next : A → Result LoopError B)
    → Raised first
    → ((value : A) → Raised (next value))
    → Raised (first >>= next)
Raised-bind (err error) next raised each = raised
Raised-bind (ok value) next raised each = each value

Raised-then :
    {B : Type 0} (first : Result LoopError (Unit {0})) (next : Result LoopError B)
    → Raised first
    → Raised next
    → Raised (first >> next)
Raised-then (err error) next raised each = raised
Raised-then (ok tt) next raised each = each

lift-Raised : {A : Type 0} (r : Result Abort A) → Raised (lift r)
lift-Raised (err class) = tt
lift-Raised (ok value) = tt

fused-Raised : (r : Result FuseError PackagedFuseResult) → Raised (fused r)
fused-Raised (err semantic_fuse_error) = tt
fused-Raised (err key_error) = tt
fused-Raised (ok result) = tt

walled_of-Raised : (r : Result WallError Evaluation) → Raised (walled_of r)
walled_of-Raised (err e) = tt
walled_of-Raised (ok evaluation) = tt

pub judge-Raised :
    (setup : Setup) (used : ℕ) (current : String) (completion : Reply)
    (bound : BoundSemanticFindings)
    → Raised (judge setup used current completion bound)
unfolding judge quote_step fuse_step rebuild_step wall_step feedback_step
judge-Raised setup used current completion bound =
    let det = setup.evaluate current in
    Raised-then {B = RoundResult} (quote_step setup current bound) _ (lift-Raised _) (
      Raised-bind {B = RoundResult} (fuse_step setup det bound) _ (fused-Raised _) λ fuse_result.
        Raised-bind {B = RoundResult} (rebuild_step setup det fuse_result) _ (lift-Raised _)
          λ fused_eval.
            Raised-bind {B = RoundResult} (wall_step setup fused_eval) _ (walled_of-Raised _)
              λ walled.
                let revising = is_revise (decide setup.middleware walled used false false).action in
                Raised-bind {B = RoundResult} (feedback_step setup revising bound) _ (lift-Raised _)
                  λ feedback. tt)
