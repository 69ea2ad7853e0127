-- ===== src/Hybrid/Loop/Calls.antt =====
-- ai4/constrain/_v07_3c/loop.py: what a call of the provider or the examiner books.
use ai4_constrain.Prelude.{[], ℕ, ◌≡◌, ◌⊎◌, inl, inr, String, arith}
use ai4_constrain.Prelude.Int.{ℤ}
use ai4_constrain.Prelude.Result.{Result, err}
use ai4_constrain.Abort.{Abort, RawNumber}
use ai4_constrain.Budget.{reserve_examiner_call, Authority}
use ai4_constrain.Budget.Lane.{Moved}
use ai4_constrain.Budget.Adapter.{Reply, CallError, Called, call, Settled, call-Settled}
use ai4_constrain.Hybrid.Examine.{Examined, Examination, observe_semantic, known_answer}
use ai4_constrain.Hybrid.Examine.Settled
use ai4_constrain.Hybrid.Examine.Settled.{observe_semantic-Settled}

-- A provider's call books one proposal, or nothing and raises.
abbrev pub CalledMoves : {E : Type 0} → Authority → Called E → Type 0
CalledMoves {E} s done =
    (((error : CallError E) × (done.0 ≡ err error)) × Moved 0 0 s done.1) ⊎ Moved 1 0 s done.1

Settled-CalledMoves :
    {E : Type 0} (answer : Result E Reply) (s : Authority) (done : Called E)
    → Settled answer s done
    → CalledMoves s done
Settled-CalledMoves answer s done (inl (e, failed, (same, usd, committed))) =
    inl ((e, failed), (same.0, same.1, same.2, omega arith, omega arith))
Settled-CalledMoves answer s done (inr (same, (reply, actual, good, known, usd, committed))) =
    inr (same.0, same.1, same.2, committed, omega arith)

pub call-CalledMoves :
    {E : Type 0} (amount : ℕ) (answer : Result E Reply) (now later : ℤ) (s : Authority)
    → CalledMoves s (call amount answer now later s)
call-CalledMoves amount answer now later s =
    Settled-CalledMoves answer s (call amount answer now later s)
      (call-Settled amount answer now later s)

-- An examination books one call, or nothing and raises.
abbrev pub ExaminedMoves : Authority → Examined → Type 0
ExaminedMoves s done =
    (((class : Abort) × (done.0 ≡ err class)) × Moved 0 0 s done.1) ⊎ Moved 0 1 s done.1

pub observe_semantic-moves :
    (lower : String → String) (locked : String) (usd : RawNumber) (x : Examination) (now later : ℤ)
    (s : Authority)
    → ExaminedMoves s (observe_semantic lower locked usd x now later s)
observe_semantic-moves lower locked usd x now later s =
    moves (observe_semantic lower locked usd x now later s)
      (observe_semantic-Settled lower locked usd x now later s)
  where
    moves :
        (done : Examined)
        → Settled.Settled lower
            (known_answer locked x)
            (reserve_examiner_call [] usd now s)
            later
            s
            done
        → ExaminedMoves s done
    moves done (inl (class, failed, restored, why)) = inl ((class, failed), restored.0)
    moves done (inr (ran, (bound, actual, good, charged, how))) = inr charged.0
