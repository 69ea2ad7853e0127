-- ===== src/Fuse/Dedupe/Survivors.antt =====
-- ai4/constrain/semantic_fuse.py, `_dedupe_findings`: equivalent findings cannot multiply a penalty.
use ai4_constrain.Prelude.{
  ℕ, ◌+◌, ◌≡◌, refl, Bool, true, false, not, ◌&&◌, ◌||◌, List, [], ◌∷◌, ◌++◌, String, str_eq,
  eq_iff, if◌then◌else◌, select, any, length, any-append, is_nil, arith, Bool-cases, inl, inr, ap,
  ◌∙◌, sym,
}
use ai4_constrain.Prelude.Result.{Returns, Returns-then}
use ai4_constrain.Prelude.Sort.{sort, any-sort, length-select-sort, is_nil-sort}
use ai4_constrain.Fuse.{BoundFinding}
use ai4_constrain.Fuse.Dedupe.{
  equivalent, Group, members, append_to, group_all, key_leb, rank_leb, result_leb, heads,
  survivors_of, dedupe_findings, validate_findings,
}

equivalent_refl : (a : BoundFinding) → equivalent a a ≡ true
equivalent_refl a =
    ground (arith, eq_iff a.class_id a.class_id, eq_iff a.claim_fingerprint a.claim_fingerprint)

text_via : (x y z : String) → str_eq y z ≡ true → str_eq x y ≡ str_eq x z
text_via x y z h = ap (str_eq x) ((eq_iff y z).0 h)

text_sym : (x y : String) → str_eq x y ≡ str_eq y x
text_sym x y = ground (arith, eq_iff x y, eq_iff y x)

equivalent_via : (a b c : BoundFinding) → equivalent b c ≡ true → equivalent a b ≡ equivalent a c
equivalent_via a b c h = ground (
  arith,
  text_via a.class_id b.class_id c.class_id,
  text_via a.claim_fingerprint b.claim_fingerprint c.claim_fingerprint,
)

equivalent_sym : (a b : BoundFinding) → equivalent a b ≡ equivalent b a
equivalent_sym a b =
    ground (arith, text_sym a.class_id b.class_id, text_sym a.claim_fingerprint b.claim_fingerprint)

-- How many groups are of the class and fingerprint of a finding.
abbrev groups_of : BoundFinding → List Group → ℕ
groups_of p gs = length (select (λ g. equivalent p g.first) gs)

abbrev one_if : Bool → ℕ
one_if b = if b then 1 else 0

-- The members of a group are equivalent to its first.
abbrev is_mixed : Group → Bool
is_mixed g = any (λ x. not (equivalent g.first x)) (members g)

groups_of-append_to :
    (p f : BoundFinding) (gs : List Group)
    → groups_of p (append_to f gs)
      ≡ groups_of p gs + one_if (equivalent p f && not (any (λ g. equivalent g.first f) gs))
unfolding append_to
groups_of-append_to p f [] = ground arith
groups_of-append_to p f (g ∷ gs) = elim (Bool-cases (equivalent g.first f)) [
  | inl same ↦ rw (same) (ground arith)
  | inr other ↦ rw (other) (ground (arith, groups_of-append_to p f gs))
]

any-first :
    (p f : BoundFinding) (gs : List Group)
    → equivalent p f ≡ true
    → any (λ g. equivalent g.first f) gs ≡ any (λ g. equivalent p g.first) gs
any-first p f [] h = refl
any-first p f (g ∷ gs) h =
    let one : equivalent g.first f ≡ equivalent p g.first =
      sym (equivalent_via g.first p f h) ∙ equivalent_sym g.first p in
    let later = any-first p f gs h in rw (one, later) refl

any_of-select :
    {A : Type 0} (q : A → Bool) (xs : List A) (b : Bool)
    → length (select q xs) ≡ one_if b
    → any q xs ≡ b
any_of-select q [] b h = ground arith
any_of-select q (x ∷ xs) b h = ground (arith, any_of-select q xs b)

-- A finding that is taken in is counted once for its class and fingerprint.
append_to-once :
    (p f : BoundFinding) (gs : List Group) (b : Bool)
    → groups_of p gs ≡ one_if b
    → groups_of p (append_to f gs) ≡ one_if (b || equivalent p f)
append_to-once p f gs b h =
    let counted = groups_of-append_to p f gs in
    let any_p = any_of-select (λ g. equivalent p g.first) gs b h in ground (arith, any-first p f gs)

group_all-once :
    (findings : List BoundFinding) (gs : List Group) (s : BoundFinding → Bool)
    → ((p : BoundFinding) → groups_of p gs ≡ one_if (s p))
    → (p : BoundFinding)
    → groups_of p (group_all findings gs) ≡ one_if (s p || any (equivalent p) findings)
unfolding group_all
group_all-once [] gs s h p = ground (arith, h p)
group_all-once (f ∷ rest) gs s h p =
    let later =
      group_all-once rest (append_to f gs) (λ q. s q || equivalent q f)
        (λ q. append_to-once q f gs (s q) (h q)) p in
    ground arith

-- Groups are never mixed.
append_to-unmixed :
    (f : BoundFinding) (gs : List Group)
    → any is_mixed gs ≡ false
    → any is_mixed (append_to f gs) ≡ false
unfolding append_to
append_to-unmixed f [] h = ground (arith, equivalent_refl f)
append_to-unmixed f (g ∷ gs) h = elim (Bool-cases (equivalent g.first f)) [
  | inl same ↦
      rw (same) (ground (arith, any-append (λ x. not (equivalent g.first x)) g.rest (f ∷ [])))
  | inr other ↦ rw (other) (ground (arith, append_to-unmixed f gs))
]

group_all-unmixed :
    (findings : List BoundFinding) (gs : List Group)
    → any is_mixed gs ≡ false
    → any is_mixed (group_all findings gs) ≡ false
unfolding group_all
group_all-unmixed [] gs h = h
group_all-unmixed (f ∷ rest) gs h =
    group_all-unmixed rest (append_to f gs) (append_to-unmixed f gs h)

-- The head of a list of findings equivalent to `first` is counted as `first` is.
heads-counted :
    (p first : BoundFinding) (xs others : List BoundFinding)
    → is_nil xs ≡ false
    → any (λ x. not (equivalent first x)) xs ≡ false
    → length (select (equivalent p) (heads xs ++ others))
      ≡ one_if (equivalent p first) + length (select (equivalent p) others)
heads-counted p first [] others filled h = cc
heads-counted p first (x ∷ xs) others filled h = ground (arith, equivalent_via p first x)

survivors_of-counted :
    (p : BoundFinding) (gs : List Group)
    → any is_mixed gs ≡ false
    → length (select (equivalent p) (survivors_of gs)) ≡ groups_of p gs
unfolding survivors_of
survivors_of-counted p [] h = refl
survivors_of-counted p (g ∷ gs) h =
    let one =
      heads-counted p g.first (sort rank_leb (members g)) (survivors_of gs)
        (is_nil-sort rank_leb (members g))
        (any-sort rank_leb (λ x. not (equivalent g.first x)) (members g) ∙ ground arith) in
    one ∙ ground (arith, survivors_of-counted p gs)

-- One survivor for each class and fingerprint that occurs.
abbrev pub OncePerIdentity : List BoundFinding → List BoundFinding × List BoundFinding → Type 0
OncePerIdentity findings split =
    (p : BoundFinding)
    → length (select (equivalent p) split.0) ≡ (if any (equivalent p) findings then 1 else 0)

-- Of the findings with one class and one fingerprint exactly one survives, and none if there are
-- none: equivalent findings never multiply a penalty, and no identity is lost.
pub dedupe_findings-OncePerIdentity :
    (is_sha256 : String → Bool) (findings : List BoundFinding)
    → Returns (OncePerIdentity findings) (dedupe_findings is_sha256 findings)
unfolding dedupe_findings
dedupe_findings-OncePerIdentity is_sha256 findings =
    Returns-then (OncePerIdentity findings) (validate_findings is_sha256 [] findings) _ λ valid p.
      let groups = group_all findings [] in
      let unmixed = group_all-unmixed findings [] refl in
      length-select-sort result_leb (equivalent p) (survivors_of (sort key_leb groups))
      ∙ survivors_of-counted p (sort key_leb groups) (any-sort key_leb is_mixed groups ∙ unmixed)
      ∙ length-select-sort key_leb (λ g. equivalent p g.first) groups
      ∙ group_all-once findings [] (λ _. false) (λ _. refl) p
