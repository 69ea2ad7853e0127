-- ===== src/Fuse/Rebuild/Scored.antt =====
-- ai4/constrain/_v07_3a/rebuild.py: what a rebuilt evaluation is.
use ai4_constrain.Prelude.{
  ℕ, ◌≡◌, ◌≤◌, refl, Bool, true, not, ◌&&◌, Option, none, some, List, [], ◌∷◌, map, String, str_eq,
  eq_iff, every, length, ◌==◌, arith, subst, sym, ap, ◌∙◌, Bool-cases, inl, inr,
}
use ai4_constrain.Prelude.Result.{
  Returns, returned, Returns-bind, Returns-guard, Returns-then, Returns-map, Returns-any,
}
use ai4_constrain.Prelude.Text.{member}
use ai4_constrain.Abort.{schema_invalid, reject_authority_kwargs}
use ai4_constrain.Shards.{Evaluation, ShardScore}
use ai4_constrain.Fuse.{get, found, required_shard_ids, PackagedFuseResult}
use ai4_constrain.Fuse.Rebuild.{
  pairs_of, is_required, score_map_from_eval, score_map_from_pairs, or_zero, check_shard, check_all,
  source_of, rebuilt, add_rebuilt, rebuild_all, rebuild_fused_evaluation, distinct,
}

every-member :
    (p : String → Bool) (shards : List String) (shard : String)
    → every p shards ≡ true
    → member shard shards ≡ true
    → p shard ≡ true
every-member p [] shard all h = cc
every-member p (s ∷ shards) shard all h = elim (Bool-cases (str_eq shard s)) [
  | inl same ↦ ap p ((eq_iff shard s).0 same) ∙ ground arith
  | inr other ↦ every-member p shards shard (ground arith) (ground (arith, other))
]

-- The entry found is the one of the score map.
abbrev Source : String → List ShardScore → Type 0
Source shard scores =
    (source : ShardScore) × (source_of shard scores ≡ some source)
    × (source.shard_id ≡ shard)
    × (get shard (pairs_of scores) ≡ some source.score)

found-Source :
    (shard : String) (scores : List ShardScore)
    → found (get shard (pairs_of scores)) ≡ true
    → Source shard scores
unfolding get source_of
found-Source shard [] h = cc
found-Source shard (s ∷ rest) h = elim (Bool-cases (str_eq shard s.shard_id)) [
  | inl same ↦ (s, rw (same) refl, sym ((eq_iff shard s.shard_id).0 same), rw (same) refl)
  | inr other ↦
      let later = found-Source shard rest (ground (arith, other)) in
      (later.0, rw (other) later.1, later.2, rw (other) later.3)
]

-- Every required shard is there.
abbrev Complete : List ShardScore → List String → Type 0
Complete scores shards = every (λ shard. found (get shard (pairs_of scores))) shards ≡ true

rebuild_all-ids :
    (fused : List (String × ℕ)) (scores : List ShardScore) (shards : List String)
    → Complete scores shards
    → map (λ s. s.shard_id) (rebuild_all fused scores shards) ≡ shards
unfolding rebuild_all rebuilt
rebuild_all-ids fused scores [] h = refl
rebuild_all-ids fused scores (shard ∷ shards) h =
    let source = found-Source shard scores (ground arith) in
    let later = rebuild_all-ids fused scores shards (ground arith) in
    rw (source.1, source.2, later) refl

rebuild_all-score :
    (fused : List (String × ℕ)) (scores : List ShardScore) (shards : List String) (shard : String)
    → Complete scores shards
    → member shard shards ≡ true
    → get shard (pairs_of (rebuild_all fused scores shards)) ≡ some (or_zero (get shard fused))
unfolding rebuild_all rebuilt get
rebuild_all-score fused scores [] shard all h = cc
rebuild_all-score fused scores (s ∷ shards) shard all h =
    let source = found-Source s scores (ground arith) in
    let later = rebuild_all-score fused scores shards shard (ground arith) in
    rw (source.1) (elim (Bool-cases (str_eq shard s)) [
      | inl same ↦
          rw (source.2, same)
            (ap (λ z. some (or_zero (get z fused))) (sym ((eq_iff shard s).0 same)))
      | inr other ↦ rw (source.2, other) (later (ground (arith, other)))
    ])

abbrev Agrees : List (String × ℕ) → List (String × ℕ) → List (String × ℕ) → String → Type 0
Agrees from_fuse from_eval fused shard =
    (or_zero (get shard from_fuse) ≡ or_zero (get shard from_eval))
    × (or_zero (get shard fused) ≤ or_zero (get shard from_eval))

check_shard-Agrees :
    (from_fuse from_eval fused : List (String × ℕ)) (shard : String)
    → Returns
        (λ _. Agrees from_fuse from_eval fused shard)
        (check_shard from_fuse from_eval fused shard)
unfolding check_shard
check_shard-Agrees from_fuse from_eval fused shard = ground arith

check_all-Agrees :
    (from_fuse from_eval fused : List (String × ℕ)) (shards : List String) (shard : String)
    → member shard shards ≡ true
    → Returns
        (λ _. Agrees from_fuse from_eval fused shard)
        (check_all from_fuse from_eval fused shards)
unfolding check_all
check_all-Agrees from_fuse from_eval fused [] shard h = cc
check_all-Agrees from_fuse from_eval fused (s ∷ shards) shard h =
    let P : Unit {0} → Type 0 = λ _. Agrees from_fuse from_eval fused shard in
    Returns-then P (check_shard from_fuse from_eval fused s) _ λ checked.
      let here = returned _ _ (check_shard-Agrees from_fuse from_eval fused s) checked in
      elim (Bool-cases (str_eq shard s)) [
        | inl same ↦
            let both : Agrees from_fuse from_eval fused shard =
              subst (Agrees from_fuse from_eval fused) (sym ((eq_iff shard s).0 same)) here in
            Returns-map (check_all from_fuse from_eval fused shards)
              (Returns-any (check_all from_fuse from_eval fused shards)) λ _ _. both
        | inr other ↦
            check_all-Agrees from_fuse from_eval fused shards shard (ground (arith, other))
      ]

add_rebuilt-unpassed :
    (score : ℕ) (source : Option ShardScore) (rest : List ShardScore)
    → every (λ s. not s.passed) rest ≡ true
    → every (λ s. not s.passed) (add_rebuilt score source rest) ≡ true
unfolding rebuilt
add_rebuilt-unpassed score none rest h = h
add_rebuilt-unpassed score (some source) rest h = h

and_right : (a b : Bool) → (a && b) ≡ true → b ≡ true
and_right a b h = ground arith

and_middle : (a b c : Bool) → (a && b && c) ≡ true → b ≡ true
and_middle a b c h = ground arith

rebuild_all-unpassed :
    (fused : List (String × ℕ)) (scores : List ShardScore) (shards : List String)
    → every (λ s. not s.passed) (rebuild_all fused scores shards) ≡ true
unfolding rebuild_all
rebuild_all-unpassed fused scores [] = refl
rebuild_all-unpassed fused scores (shard ∷ shards) =
    add_rebuilt-unpassed (or_zero (get shard fused)) (source_of shard scores) _
      (rebuild_all-unpassed fused scores shards)

score_map_from_eval-Complete :
    (scores : List ShardScore)
    → Returns
        (λ m. (m ≡ pairs_of scores) × Complete scores required_shard_ids)
        (score_map_from_eval scores)
unfolding score_map_from_eval
score_map_from_eval-Complete scores =
    Returns-guard (λ m. (m ≡ pairs_of scores) × Complete scores required_shard_ids)
      (every (λ entry. is_required entry.0) (pairs_of scores)
        && every (λ shard. found (get shard (pairs_of scores))) required_shard_ids
        && (length scores == length required_shard_ids))
      schema_invalid _
      λ h. (refl, and_middle (every (λ entry. is_required entry.0) (pairs_of scores)) _ _ h)

score_map_from_pairs-found :
    (pairs : List (String × ℕ))
    → Returns
        (λ m. (m ≡ pairs) × (every (λ shard. found (get shard pairs)) required_shard_ids ≡ true))
        (score_map_from_pairs pairs)
unfolding score_map_from_pairs
score_map_from_pairs-found pairs =
    let P : List (String × ℕ) → Type 0 =
      λ m. (m ≡ pairs) × (every (λ shard. found (get shard pairs)) required_shard_ids ≡ true) in
    Returns-guard P (distinct pairs) schema_invalid _ λ _.
      Returns-guard P
        (every (λ entry. is_required entry.0) pairs
          && every (λ shard. found (get shard pairs)) required_shard_ids)
        schema_invalid _ λ h. (refl, and_right (every (λ entry. is_required entry.0) pairs) _ h)

found_value : (o : Option ℕ) → found o ≡ true → o ≡ some (or_zero o)
found_value none h = cc
found_value (some n) h = refl

-- A rebuilt evaluation has the required shards in their order, none of them passed, each with its
-- fused score, which is at most its deterministic one.
abbrev pub Rebuilt : Evaluation → PackagedFuseResult → Evaluation → Type 0
Rebuilt det fuse_result e =
    (e.text ≡ det.text)
    × (map (λ s. s.shard_id) e.shard_scores ≡ required_shard_ids)
    × (every (λ s. not s.passed) e.shard_scores ≡ true)
    × ((shard : String)
        → member shard required_shard_ids ≡ true
        → (score : ℕ) × (before : ℕ) × (get shard (pairs_of e.shard_scores) ≡ some score)
          × (get shard fuse_result.fused_scores ≡ some score)
          × (get shard (pairs_of det.shard_scores) ≡ some before)
          × (score ≤ before))

-- A rebuilt evaluation keeps the text, has exactly the required shards, in their order, lets none of
-- them pass, and gives each its fused score, which is never above its deterministic one.
pub rebuild_fused_evaluation-Rebuilt :
    (kwargs : List String) (det : Evaluation) (fuse_result : PackagedFuseResult)
    → Returns (Rebuilt det fuse_result) (rebuild_fused_evaluation kwargs det fuse_result)
unfolding rebuild_fused_evaluation
rebuild_fused_evaluation-Rebuilt kwargs det fuse_result =
    let P = Rebuilt det fuse_result in
    let scores = det.shard_scores in
    Returns-then P (reject_authority_kwargs kwargs) _ λ _.
      Returns-bind P (score_map_from_eval scores) _ λ from_eval made_eval.
        Returns-bind P (score_map_from_pairs fuse_result.det_scores) _ λ from_fuse _.
          Returns-bind P (score_map_from_pairs fuse_result.fused_scores) _ λ fused made_fused.
            Returns-then P (check_all from_fuse from_eval fused required_shard_ids) _ λ checked.
              let complete = returned _ _ (score_map_from_eval-Complete scores) made_eval in
              let given =
                returned _ _ (score_map_from_pairs-found fuse_result.fused_scores) made_fused in
              (
                refl,
                rebuild_all-ids fused scores required_shard_ids complete.1,
                rebuild_all-unpassed fused scores required_shard_ids,
                λ shard h.
                    let agrees =
                      returned _ _
                        (check_all-Agrees from_fuse from_eval fused required_shard_ids shard h)
                        checked in
                    let there =
                      every-member (λ s. found (get s fuse_result.fused_scores)) required_shard_ids
                        shard given.1 h in
                    let source =
                      every-member (λ s. found (get s (pairs_of scores))) required_shard_ids shard
                        complete.1 h in
                    (
                      or_zero (get shard fused),
                      or_zero (get shard from_eval),
                      rebuild_all-score fused scores required_shard_ids shard complete.1 h,
                      subst (λ m. get shard fuse_result.fused_scores ≡ some (or_zero (get shard m)))
                          (sym given.0) (found_value (get shard fuse_result.fused_scores) there),
                      subst (λ m. get shard (pairs_of scores) ≡ some (or_zero (get shard m)))
                          (sym complete.0) (found_value (get shard (pairs_of scores)) source),
                      agrees.1,
                    ),
              )
