-- ===== src/Fuse/Scores.antt =====
-- ai4/constrain/semantic_fuse.py, `packaged_fuse_v2`: the fused scores are the deterministic ones less
-- the overlay, never below 0.
use ai4_constrain.Prelude.{
  leb, leb→le, every, is_nil, ap, ◌∙◌, ℕ, ◌-◌, ◌≤◌, ◌≡◌, refl, true, Option, none, some, List, [],
  ◌∷◌, String, str_eq, eq_iff, subst, sym, arith, inl, inr, Bool-cases,
}
use ai4_constrain.Prelude.Int.{pos, negsuc, ◌-ℤ◌}
use ai4_constrain.Prelude.Result.{
  Result, ok, Returns, returned, Returns-bind, Returns-guard, Returns-map,
}
use ai4_constrain.Prelude.Text.{member}
use ai4_constrain.Abort.{RawNumber, finite, not_finite, not_number}
use ai4_constrain.Fuse.{
  FuseError, semantic_fuse_error, found, score_given, get, item, item_of, required_shard_ids, one,
  finite_number, nonnegative, within, score_of, collect, score_map, clamp, fuse_one, fuse_shard,
  packaged_fuse_v2,
}

clamp_lem : (det over : ℕ) → clamp (pos det -ℤ pos over) (pos 0) (pos det) ≡ ok (pos (det - over))
unfolding clamp ◌-ℤ◌
clamp_lem det over = ground arith

-- The clamp of a difference is the difference that stops at 0, and the tests after it pass.
pub fuse_one_lem : (det over : ℕ) → fuse_one det over ≡ ok (det - over)
unfolding fuse_one nonnegative
fuse_one_lem det over =
    let le : leb (det - over) det ≡ true = ground arith in rw (clamp_lem det over, le) refl

-- The dictionary that a loop makes holds the value of each shard of the loop.
abbrev pub Holds : (String → Result FuseError ℕ) → List String → List (String × ℕ) → Type 0
Holds f shards d =
    (shard : String)
    → member shard shards ≡ true
    → (value : ℕ) × (f shard ≡ ok value) × (get shard d ≡ some value)

pub collect-Holds :
    (f : String → Result FuseError ℕ) (shards : List String)
    → Returns (Holds f shards) (collect f shards)
unfolding collect get
collect-Holds f [] = λ shard h. cc
collect-Holds f (s ∷ shards) = Returns-bind (Holds f (s ∷ shards)) (f s) _ λ value e.
    Returns-bind (Holds f (s ∷ shards)) (collect f shards) _ λ rest made shard h.
      elim (Bool-cases (str_eq shard s)) [
        | inl same ↦
            (value, subst (λ t. f t ≡ ok value) (sym ((eq_iff shard s).0 same)) e, rw (same) refl)
        | inr other ↦
            let later =
              returned (Holds f shards) (collect f shards) (collect-Holds f shards) made shard
                (ground (arith, other)) in
            (later.0, later.1, rw (other) later.2)
      ]

-- The values of a score map: of a raw number that is in the domain.
abbrev pub Scored : Option ℕ → List (String × RawNumber) → String → ℕ → Type 0
Scored maximum raw shard value =
    (get shard raw ≡ some (finite (pos value))) × (within maximum value ≡ true)

score_given-Scored :
    (maximum : Option ℕ) (given : Option RawNumber)
    → Returns
        (λ value. (given ≡ some (finite (pos value))) × (within maximum value ≡ true))
        (score_given maximum given)
unfolding score_given item_of finite_number nonnegative
score_given-Scored maximum none = tt
score_given-Scored maximum (some not_finite) = tt
score_given-Scored maximum (some not_number) = tt
score_given-Scored maximum (some (finite (negsuc n))) = tt
score_given-Scored maximum (some (finite (pos n))) =
    Returns-guard (λ value. _ × (within maximum value ≡ true)) (within maximum n)
      semantic_fuse_error (ok n) λ h. (refl, h)

abbrev pub MapOf : Option ℕ → List (String × RawNumber) → List (String × ℕ) → Type 0
MapOf maximum raw d =
    (shard : String)
    → member shard required_shard_ids ≡ true
    → (value : ℕ) × Scored maximum raw shard value × (get shard d ≡ some value)

pub score_map-MapOf :
    (maximum : Option ℕ) (raw : List (String × RawNumber))
    → Returns (MapOf maximum raw) (score_map required_shard_ids maximum raw)
unfolding score_map score_of
score_map-MapOf maximum raw =
    let P = MapOf maximum raw in
    let made = collect (score_of maximum raw) required_shard_ids in
    Returns-guard P (every (λ entry. member entry.0 required_shard_ids) raw) semantic_fuse_error _
      λ extra.
        Returns-guard P (every (λ shard. found (get shard raw)) required_shard_ids)
          semantic_fuse_error made
          λ missing.
            Returns-map made (collect-Holds (score_of maximum raw) required_shard_ids)
              λ d holds shard h.
                let value = holds shard h in
                (
                  value.0,
                  returned _ _ (score_given-Scored maximum (get shard raw)) value.1,
                  value.2,
                )

-- A required shard has a deterministic score of at most 1 and an overlay, and its fused score is the
-- one less the other, or 0.
abbrev pub Fused :
    List (String × RawNumber) → List (String × RawNumber) → List (String × ℕ) → Type 0
Fused det over fused =
    (shard : String)
    → member shard required_shard_ids ≡ true
    → (d : ℕ) × (o : ℕ) × (get shard det ≡ some (finite (pos d)))
      × (get shard over ≡ some (finite (pos o)))
      × (d ≤ one)
      × (get shard fused ≡ some (d - o))

fuse_shard_lem :
    (det over : List (String × ℕ)) (shard : String) (d o : ℕ)
    → get shard det ≡ some d
    → get shard over ≡ some o
    → fuse_shard det over shard ≡ ok (d - o)
unfolding fuse_shard item item_of
fuse_shard_lem det over shard d o e f = rw (e, f) (fuse_one_lem d o)

-- A call that returns gives every required shard the score that the equation says: what is left of
-- the deterministic score, which is at most 1, after the overlay, and never less than 0.
pub packaged_fuse_v2-Fused :
    (kwargs : List String) (det over : List (String × RawNumber))
    → Returns (Fused det over) (packaged_fuse_v2 kwargs det over)
unfolding packaged_fuse_v2
packaged_fuse_v2-Fused kwargs det over =
    let P = Fused det over in
    Returns-guard P (is_nil kwargs) semantic_fuse_error _ λ none_given.
      Returns-bind P (score_map required_shard_ids (some one) det) _ λ d det_made.
        Returns-bind P (score_map required_shard_ids none over) _ λ o over_made.
          Returns-map (collect (fuse_shard d o) required_shard_ids)
            (collect-Holds (fuse_shard d o) required_shard_ids)
            λ fused holds shard h.
              let left = returned _ _ (score_map-MapOf (some one) det) det_made shard h in
              let right = returned _ _ (score_map-MapOf none over) over_made shard h in
              let value = holds shard h in
              let same = fuse_shard_lem d o shard left.0 right.0 left.2 right.2 in
              let exact : value.0 ≡ left.0 - right.0 = cc in
              let le : left.0 ≤ one = leb→le left.0 one left.1.1 in
              (left.0, right.0, left.1.0, right.1.0, le, value.2 ∙ ap some exact)
