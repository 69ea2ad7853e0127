-- ===== src/Hybrid/Feedback/Closed.antt =====
-- ai4/constrain/_v07_3b/feedback.py: what the feedback of a hybrid run can say.
use Prim.Native.String.{◌++◌}
use ai4_constrain.Prelude.{
  ◌≤◌, ◌≡◌, refl, ap, ◌∙◌, true, not, Option, none, some, List, [], ◌∷◌, String, str_eq, eq_iff,
  length, is_nil, if-intro, arith, ◌⊎◌, inl, inr, All, Bool-cases,
}
use ai4_constrain.Prelude.Result.{
  Returns, Returns-map, returned, Returns-bind, Returns-guard, Returns-then,
}
use ai4_constrain.Prelude.Text.{member, join}
use ai4_constrain.Abort.{reject_authority_kwargs}
use ai4_constrain.Hybrid.Feedback.{
  Pair, same_pair, feedback_templates, template_of, ClosedIds, template_given,
  lookup_feedback_template, seen_before, feedback_lines, reject_injected,
  format_hybrid_revision_feedback,
}

-- The line of a pair, in the templates and among the lines.
abbrev pub Printed : List String → Pair → Type 0
Printed lines pair =
    (template : String) × (template_of pair feedback_templates ≡ some template)
    × (member ("- " ++ template) lines ≡ true)

-- A line that stands for one of the pairs, which is in the registry.
abbrev pub Stands : ClosedIds → List Pair → String → Type 0
Stands closed pairs line =
    (pair : Pair) × (template : String) × (seen_before pair pairs ≡ true)
    × (member pair.0 closed.class_ids ≡ true)
    × (member pair.1 closed.observation_codes ≡ true)
    × (template_of pair feedback_templates ≡ some template)
    × (line ≡ "- " ++ template)

-- For the loop, some pairs have been seen before.
abbrev Answers : ClosedIds → List Pair → List Pair → List String → Type 0
Answers closed pairs seen lines =
    All (Stands closed pairs) lines
    × All (λ pair. (seen_before pair seen ≡ true) ⊎ Printed lines pair) pairs
    × (length lines ≤ length pairs)

same_pair_refl : (p : Pair) → same_pair p p ≡ true
same_pair_refl p = ground (arith, (eq_iff p.0 p.0).1 refl, (eq_iff p.1 p.1).1 refl)

same_pair_eq : (p q : Pair) → same_pair p q ≡ true → p ≡ q
same_pair_eq p q h =
    let first : str_eq p.0 q.0 ≡ true = ground arith in
    let second : str_eq p.1 q.1 ≡ true = ground arith in
    λ i. ((eq_iff p.0 q.0).0 first i, (eq_iff p.1 q.1).0 second i)

Stands-more :
    (closed : ClosedIds) (pair : Pair) (pairs : List Pair) (lines : List String)
    → All (Stands closed pairs) lines
    → All (Stands closed (pair ∷ pairs)) lines
Stands-more closed pair pairs [] all = tt
Stands-more closed pair pairs (line ∷ lines) ((p, t, among, class, code, template, is), all) =
    ((p, t, ground arith, class, code, template, is), Stands-more closed pair pairs lines all)

member-more :
    (x y : String) (lines : List String) → member x lines ≡ true → member x (y ∷ lines) ≡ true
member-more x y lines h = ground arith

member-here : (x : String) (lines : List String) → member x (x ∷ lines) ≡ true
member-here x lines = ground (arith, (eq_iff x x).1 refl)

-- A pair that was seen before the first line, or is the pair of that line, or is printed later.
answered :
    (pair : Pair) (template : String) (seen : List Pair) (lines : List String) (pairs : List Pair)
    → template_of pair feedback_templates ≡ some template
    → All (λ q. (seen_before q (pair ∷ seen) ≡ true) ⊎ Printed lines q) pairs
    → All (λ q. (seen_before q seen ≡ true) ⊎ Printed (("- " ++ template) ∷ lines) q) pairs
answered pair template seen lines [] found all = tt
answered pair template seen lines (q ∷ pairs) found (inr (t, here, printed), all) = (
  inr (t, here, member-more ("- " ++ t) ("- " ++ template) lines printed),
  answered pair template seen lines pairs found all,
)
answered pair template seen lines (q ∷ pairs) found (inl before, all) = (
  elim (Bool-cases (same_pair q pair)) [
    | inl same ↦
        let at : q ≡ pair = same_pair_eq q pair same in
        inr (
          template,
          ap (λ p. template_of p feedback_templates) at ∙ found,
          member-here ("- " ++ template) lines,
        )
    | inr other ↦ inl (ground arith)
  ],
  answered pair template seen lines pairs found all,
)

-- A template is found for a pair of the registry alone.
abbrev LookedUp : ClosedIds → Pair → String → Type 0
LookedUp closed pair template =
    (member pair.0 closed.class_ids ≡ true)
    × (member pair.1 closed.observation_codes ≡ true)
    × (template_of pair feedback_templates ≡ some template)

template_given-some :
    (o : Option String) → Returns (λ template. o ≡ some template) (template_given o)
template_given-some none = tt
template_given-some (some template) = refl

lookup_feedback_template-LookedUp :
    (closed : ClosedIds) (kwargs : List String) (pair : Pair)
    → Returns (LookedUp closed pair) (lookup_feedback_template closed kwargs pair)
unfolding lookup_feedback_template
lookup_feedback_template-LookedUp closed kwargs pair =
    let P = LookedUp closed pair in
    let found = template_of pair feedback_templates in
    Returns-then P (reject_authority_kwargs kwargs) _ λ _.
      Returns-guard P (not (str_eq pair.0 "")) _ _ λ _.
        Returns-guard P (not (str_eq pair.1 "")) _ _ λ _.
          Returns-guard P (member pair.0 closed.class_ids) _ _ λ class.
            Returns-guard P (member pair.1 closed.observation_codes) _ (template_given found)
              λ code.
                Returns-map (template_given found) (template_given-some found)
                  λ t here. (class, code, here)

feedback_lines-Answers :
    (closed : ClosedIds) (pairs seen : List Pair)
    → Returns (Answers closed pairs seen) (feedback_lines closed pairs seen)
unfolding feedback_lines
feedback_lines-Answers closed [] seen = (tt, tt, omega arith)
feedback_lines-Answers closed (pair ∷ pairs) seen =
    let P = Answers closed (pair ∷ pairs) seen in
    if-intro (Returns P) (seen_before pair seen) _ _
      (λ before.
        Returns-map (feedback_lines closed pairs seen) (feedback_lines-Answers closed pairs seen)
          λ lines (stands, answers, few).
            (Stands-more closed pair pairs lines stands, (inl before, answers), omega arith))
      λ _. Returns-bind P (lookup_feedback_template closed [] pair) _ λ template looked.
        let (class, code, here) =
          returned _ _ (lookup_feedback_template-LookedUp closed [] pair) looked in
        Returns-bind P (feedback_lines closed pairs (pair ∷ seen)) _ λ lines made.
          let (stands, answers, few) =
            returned _ _ (feedback_lines-Answers closed pairs (pair ∷ seen)) made in
          let mine : seen_before pair (pair ∷ pairs) ≡ true = ground (arith, same_pair_refl pair) in
          (
            (
              (pair, template, mine, class, code, here, refl),
              Stands-more closed pair pairs lines stands,
            ),
            (
              inr (template, here, member-here ("- " ++ template) lines),
              answered pair template seen lines pairs here answers,
            ),
            omega arith,
          )

-- A feedback is the heading and lines, each the packaged template of one of the pairs, and each pair
-- has its line.
abbrev pub Guidance : ClosedIds → List Pair → String → Type 0
Guidance closed pairs text =
    (lines : List String) × (text ≡ join "\n" ("Hybrid revision guidance (template-only):" ∷ lines))
    × All (Stands closed pairs) lines
    × All (Printed lines) pairs
    × (length lines ≤ length pairs)

without_seen :
    (lines : List String) (pairs : List Pair)
    → All (λ pair. (seen_before pair [] ≡ true) ⊎ Printed lines pair) pairs
    → All (Printed lines) pairs
without_seen lines [] all = tt
without_seen lines (pair ∷ pairs) (inl before, all) = cc
without_seen lines (pair ∷ pairs) (inr printed, all) = (printed, without_seen lines pairs all)

-- Whatever the findings hold, a feedback that goes to the provider is the fixed heading followed by
-- lines that are each the packaged template of one of the given pairs of a class and a code, both in
-- the registry; every pair has its line, and there are no more lines than pairs.
pub format_hybrid_revision_feedback-Guidance :
    (closed : ClosedIds) (kwargs : List String) (pairs : List Pair)
    → Returns (Guidance closed pairs) (format_hybrid_revision_feedback closed kwargs pairs)
unfolding format_hybrid_revision_feedback
format_hybrid_revision_feedback-Guidance closed kwargs pairs =
    let P = Guidance closed pairs in
    Returns-then P (reject_injected kwargs) _ λ _. Returns-guard P (not (is_nil pairs)) _ _ λ _.
      Returns-bind P (feedback_lines closed pairs []) _ λ lines made.
        let (stands, answers, few) = returned _ _ (feedback_lines-Answers closed pairs []) made in
        (lines, refl, stands, without_seen lines pairs answers, few)
