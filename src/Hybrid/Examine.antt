-- ===== src/Hybrid/Examine.antt =====
-- ai4/constrain/_v07_3c/loop.py, `_observe_semantic`: the call of the examiner against the ledger.
-- What comes of `observe_semantic_candidate` is given: bound findings, or an exception of a class.
pub mod Settled
use text.Mathlib.Text.{find?}
use ai4_constrain.Prelude.{
  ℕ, Bool, true, false, not, ◌&&◌, ◌||◌, Option, none, some, List, [], ◌∷◌, String, str_eq,
  if◌then◌else◌, lookup,
}
use ai4_constrain.Prelude.Int.{ℤ, pos}
use ai4_constrain.Prelude.Result.{Result, ok, err, ◌>>=◌, ◌>>◌, guard}
use ai4_constrain.Abort.{
  Abort, schema_invalid, wall_deadline_exhausted, backend_error, injection_suspected, empty_parse,
  observation_prompt_hash_mismatch, RawNumber, finite,
}
use ai4_constrain.Budget.{
  State, committed, Reservation, Authority, Outcome, begin_execute, commit, release,
  reserve_examiner_call,
}
use ai4_constrain.Budget.Adapter.{require_known_actual_usd}
use ai4_constrain.Semantic.Findings.{BoundSemanticFindings}

-- An exception in the examiner's call: an abort, a semantic error with its text, or another one.
pub data ExaminerFailure : Type 0 where
  hybrid_abort : Abort → ExaminerFailure
  semantic_error : String → ExaminerFailure
  other_error : ExaminerFailure

-- `_STATUS_TO_ABORT`
unfoldable pub status_to_abort : List (String × Abort)
status_to_abort =
    ("timeout", wall_deadline_exhausted)
    ∷ ("backend_error", backend_error)
    ∷ ("schema_invalid", schema_invalid)
    ∷ ("injection_suspected", injection_suspected)
    ∷ ("empty_parse", empty_parse)
    ∷ []

-- `_STATUS_TO_ABORT.get(status, "backend_error")`
unfoldable pub abort_of_status : String → List (String × Abort) → Abort
abort_of_status status [] = backend_error
abort_of_status status ((s, class) ∷ rest) =
    let later = abort_of_status status rest in if str_eq status s then class else later

abbrev pub holds : String → String → Bool
holds text part = elim (find? text part) [ none ↦ false | some _ ↦ true ]

abbrev pub abort_of_rest : String → Abort
abort_of_rest text =
    if holds text "schema"
    then schema_invalid
    else if holds text "injection"
    then injection_suspected
    else if holds text "empty" || holds text "parse"
    then empty_parse
    else backend_error

-- The loop over the statuses in the text of an exception, in lower case.
unfoldable pub abort_of_text : String → List (String × Abort) → Abort
abort_of_text text [] = abort_of_rest text
abort_of_text text ((status, class) ∷ rest) =
    let later = abort_of_text text rest in if holds text status then class else later

-- `_translate_examiner_failure`, and the handler of any other exception.
unfoldable pub translate_examiner_failure : (String → String) → ExaminerFailure → Abort
translate_examiner_failure lower (hybrid_abort class) = class
translate_examiner_failure lower (semantic_error text) = abort_of_text (lower text) status_to_abort
translate_examiner_failure lower other_error = backend_error

abbrev pub is_committed : State → Bool
is_committed committed = true
is_committed _ = false

-- By the entry of the authority, if there is one; an abort of `release` is dropped.
unfoldable pub release_entry : Option Reservation → Reservation → Authority → Authority
release_entry none handle s =
    if is_committed handle.state then s else (release [] (some handle) s).1
release_entry (some current) handle s =
    if is_committed current.state
    then s
    else if is_committed handle.state
    then s
    else (release [] (some handle) s).1

-- `_release_unless_committed`
unfoldable pub release_unless_committed : Reservation → Authority → Authority
release_unless_committed handle s =
    release_entry (lookup handle.reservation_id s.reservations) handle s

abbrev pub Examined : Type 0
Examined = Result Abort BoundSemanticFindings × Authority

-- What the examiner and the packaged prompt give in one call.
pub record Examination : Type 0 where
  pub answer : Result ExaminerFailure BoundSemanticFindings
  pub prompt_sha256 : String
  pub last_estimated_usd : Option RawNumber

abbrev pub known_cost : Result Abort ℕ → Result ExaminerFailure ℕ
known_cost (err class) = err (hybrid_abort class)
known_cost (ok amount) = ok amount

-- The tests on the answer, before the commit; the amount is the one to commit.
unfoldable pub known_answer :
    (locked_prompt : String) → Examination → Result ExaminerFailure (BoundSemanticFindings × ℕ)
known_answer locked_prompt x = do
  bound ← x.answer
  guard (str_eq x.prompt_sha256 locked_prompt) (hybrid_abort observation_prompt_hash_mismatch)
  guard (str_eq bound.payload.status "ok")
      (hybrid_abort (abort_of_status bound.payload.status status_to_abort))
  actual ← known_cost (require_known_actual_usd x.last_estimated_usd)
  ok (bound, actual)

unfoldable pub failed_after : Abort → Reservation → Authority → Examined
failed_after class handle s = (err class, release_unless_committed handle s)

unfoldable pub after_commit : Reservation → BoundSemanticFindings → Outcome → Examined
after_commit handle bound (ok _, s) = (ok bound, s)
after_commit handle bound (err class, s) = failed_after class handle s

-- The body under `try`, with the handlers.
unfoldable pub after_answer :
    (String → String)
    → Reservation
    → Result ExaminerFailure (BoundSemanticFindings × ℕ)
    → Authority
    → Examined
after_answer lower handle (err failure) s =
    failed_after (translate_examiner_failure lower failure) handle s
after_answer lower handle (ok (bound, actual)) s =
    after_commit handle bound (commit [] (some handle) (finite (pos actual)) s)

unfoldable pub after_begin :
    (String → String) → Result ExaminerFailure (BoundSemanticFindings × ℕ) → Outcome → Examined
after_begin lower answer (err class, s) = (err class, s)
after_begin lower answer (ok handle, s) = after_answer lower handle answer s

unfoldable pub after_reserve :
    (String → String) → Result ExaminerFailure (BoundSemanticFindings × ℕ) → ℤ → Outcome → Examined
after_reserve lower answer later (err class, s) = (err class, s)
after_reserve lower answer later (ok handle, s) =
    after_begin lower answer (begin_execute [] (some handle) later s)

-- `_observe_semantic`; `reserve_examiner_lane` passes its amount on to `reserve_examiner_call`. The
-- clock is read twice.
unfoldable pub observe_semantic :
    (lower : String → String)
    → (locked_prompt : String) → (reserve_usd : RawNumber) → Examination
    → ℤ
    → ℤ
    → Authority
    → Examined
observe_semantic lower locked_prompt reserve_usd x now later s =
    after_reserve lower (known_answer locked_prompt x) later
      (reserve_examiner_call [] reserve_usd now s)
