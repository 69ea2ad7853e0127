-- ===== src/Semantic/Findings/Bound/Evidence.antt =====
-- ai4/constrain/semantic_findings.py: what a bound finding is evidence of.
use ai4_constrain.Prelude.{
  ℕ, zero, suc, ◌-◌, ◌≤◌, ◌<◌, ◌≡◌, refl, ap, sym, ◌∙◌, Bool, true, false, not, ◌||◌, Option, List,
  [], ◌∷◌, map, String, str_eq, eq_iff, All, arith, is_nil, if-intro,
}
use ai4_constrain.Prelude.Int.{ℤ, pos, negsuc, ltb_ℤ}
use ai4_constrain.Prelude.Result.{ok, Returns, Returns-map, returned, Returns-bind, Returns-guard}
use ai4_constrain.Semantic.{Json}
use ai4_constrain.Semantic.Findings.{
  Registry, SemanticFinding, SemanticFindingsPayload, BoundFinding, BoundSemanticFindings,
  text_length, eq_ℤ, is_sha256_hex,
}
use ai4_constrain.Semantic.Findings.Bound.{
  take, drop, slice, slice_scalars, RawPayload, material, claim_fingerprint_v1,
  quote_sha256_for_span, bind_finding, bind_all, as_payload, bind_payload, bind_semantic_findings,
}

length-take : (n : ℕ) (s : String) → n ≤ text_length s → text_length (take n s) ≡ n
unfolding take text_length
length-take zero s h = refl
length-take (suc n) String.[] h = absurd (omega arith)
length-take (suc n) (String.◌∷◌ c s) h = ap suc (length-take n s (omega arith))

length-drop : (n : ℕ) (s : String) → text_length (drop n s) ≡ text_length s - n
unfolding drop text_length
length-drop zero s = omega arith
length-drop (suc n) String.[] = omega arith
length-drop (suc n) (String.◌∷◌ c s) = omega (arith, length-drop n s)

length-slice :
    (start end : ℕ) (s : String)
    → start < end
    → end ≤ text_length s
    → text_length (slice start end s) ≡ end - start
unfolding slice
length-slice start end s h k =
    length-take (end - start) (drop start s) (omega (arith, length-drop start s))

-- Offsets that name a part of the candidate that is not empty.
abbrev pub InBounds : String → ℤ → ℤ → ℕ → ℕ → Type 0
InBounds candidate start end s e =
    (start ≡ pos s) × (end ≡ pos e) × (s < e) × (e ≤ text_length candidate)

abbrev Excerpt : String → ℤ → ℤ → String → Type 0
Excerpt candidate start end excerpt =
    (s : ℕ) × (e : ℕ) × InBounds candidate start end s e × (excerpt ≡ slice s e candidate)

abbrev rejects : String → ℤ → ℤ → Bool
rejects candidate start end =
    ltb_ℤ start (pos 0)
    || ltb_ℤ end (pos 0)
    || not (ltb_ℤ start (pos (text_length candidate)))
    || ltb_ℤ (pos (text_length candidate)) end

slice_scalars-Excerpt :
    (candidate : String) (start end : ℤ)
    → Returns (Excerpt candidate start end) (slice_scalars candidate start end)
unfolding slice_scalars
slice_scalars-Excerpt candidate (pos s) (pos e) =
    let P = Excerpt candidate (pos s) (pos e) in
    Returns-guard P (not (ltb_ℤ (pos e) (pos s))) _ _ λ ordered.
      Returns-guard P (not (eq_ℤ (pos s) (pos e))) _ _ λ apart.
        Returns-guard P (not (rejects candidate (pos s) (pos e))) _ _
          λ inside. (s, e, (refl, refl, ground arith, ground arith), refl)
slice_scalars-Excerpt candidate (negsuc s) end =
    let P = Excerpt candidate (negsuc s) end in
    Returns-guard P (not (ltb_ℤ end (negsuc s))) _ _ λ ordered.
      Returns-guard P (not (eq_ℤ (negsuc s) end)) _ _ λ apart.
        Returns-guard P (not (rejects candidate (negsuc s) end)) _ _ λ inside. absurd (ground arith)
slice_scalars-Excerpt candidate (pos s) (negsuc e) =
    let P = Excerpt candidate (pos s) (negsuc e) in
    Returns-guard P (not (ltb_ℤ (negsuc e) (pos s))) _ _ λ ordered. absurd (ground arith)

module _ (sha256 : String → String) (decimal : ℤ → String) where
  -- A bound finding: its offsets name a part of the candidate of that length, its quote is the
  -- digest of that part, and its fingerprint the digest of its class, its offsets and its quote.
  abbrev pub Evidence : String → BoundFinding → Type 0
  Evidence candidate b =
      let f = b.finding in
      (s : ℕ) × (e : ℕ) × InBounds candidate f.span.start f.span.end s e
      × (text_length (slice s e candidate) ≡ e - s)
      × (f.quote_sha256 ≡ sha256 (slice s e candidate))
      × (b.claim_fingerprint
          ≡ sha256 (material decimal f.class_id f.span.start f.span.end f.quote_sha256))

  abbrev Quote : String → ℤ → ℤ → String → Type 0
  Quote candidate start end quote =
      (s : ℕ) × (e : ℕ) × InBounds candidate start end s e × (quote ≡ sha256 (slice s e candidate))

  quote_sha256_for_span-Quote :
      (candidate : String) (start end : ℤ)
      → Returns (Quote candidate start end) (quote_sha256_for_span sha256 candidate start end)
  unfolding quote_sha256_for_span
  quote_sha256_for_span-Quote candidate start end =
      Returns-bind (Quote candidate start end) (slice_scalars candidate start end) _ λ excerpt cut.
        let (s, e, bounds, part) = returned _ _ (slice_scalars-Excerpt candidate start end) cut in
        (s, e, bounds, ap sha256 part)

  claim_fingerprint_v1-material :
      (class_id : String) (start end : ℤ) (quote : String)
      → Returns
          (λ f. f ≡ sha256 (material decimal class_id start end quote))
          (claim_fingerprint_v1 sha256 decimal class_id start end quote)
  unfolding claim_fingerprint_v1
  claim_fingerprint_v1-material class_id start end quote =
      let P : String → Type 0 = λ f. f ≡ sha256 (material decimal class_id start end quote) in
      Returns-guard P (not (str_eq class_id "")) _ _ λ _.
        Returns-guard P (not (str_eq quote "")) _ _
          λ _. Returns-guard P (is_sha256_hex quote) _ _ λ _. refl

  abbrev BoundTo : String → SemanticFinding → BoundFinding → Type 0
  BoundTo candidate finding b = (b.finding ≡ finding) × Evidence candidate b

  bind_finding-BoundTo :
      (candidate : String) (finding : SemanticFinding)
      → Returns (BoundTo candidate finding) (bind_finding sha256 decimal candidate finding)
  unfolding bind_finding
  bind_finding-BoundTo candidate finding =
      let P = BoundTo candidate finding in
      let start = finding.span.start in
      let end = finding.span.end in
      Returns-bind P (quote_sha256_for_span sha256 candidate start end) _ λ quote quoted.
        Returns-guard P (str_eq quote finding.quote_sha256) _ _ λ matches.
          Returns-bind P (claim_fingerprint_v1 sha256 decimal finding.class_id start end quote) _
            λ fingerprint made.
              let same = (eq_iff quote finding.quote_sha256).0 matches in
              let (s, e, bounds, digest) =
                returned _ _ (quote_sha256_for_span-Quote candidate start end) quoted in
              let printed =
                returned _ _ (claim_fingerprint_v1-material finding.class_id start end quote)
                  made in
              (
                refl,
                (
                  s,
                  e,
                  bounds,
                  length-slice s e candidate bounds.2 bounds.3,
                  sym same ∙ digest,
                  printed ∙ ap (λ q. sha256 (material decimal finding.class_id start end q)) same,
                ),
              )

  bind_all-Evidence :
      (candidate : String) (findings : List SemanticFinding)
      → Returns
          (λ bs. (map (λ b. b.finding) bs ≡ findings) × All (Evidence candidate) bs)
          (bind_all sha256 decimal candidate findings)
  unfolding bind_all
  bind_all-Evidence candidate [] = (refl, tt)
  bind_all-Evidence candidate (finding ∷ rest) =
      let P : List BoundFinding → Type 0 =
        λ bs. (map (λ b. b.finding) bs ≡ finding ∷ rest) × All (Evidence candidate) bs in
      Returns-bind P (bind_finding sha256 decimal candidate finding) _ λ bound made.
        Returns-bind P (bind_all sha256 decimal candidate rest) _ λ later made_later.
          let (same, evidence) = returned _ _ (bind_finding-BoundTo candidate finding) made in
          let (others, all) = returned _ _ (bind_all-Evidence candidate rest) made_later in
          (cc, (evidence, all))

  -- What binding makes of a payload.
  abbrev pub BindsTo : SemanticFindingsPayload → String → BoundSemanticFindings → Type 0
  BindsTo payload candidate bound =
      (bound.payload ≡ payload)
      × (bound.candidate ≡ candidate)
      × (map (λ b. b.finding) bound.findings ≡ payload.findings)
      × (str_eq payload.status "ok" ≡ false → bound.findings ≡ [])
      × All (Evidence candidate) bound.findings

  pub bind_payload-BindsTo :
      (payload : SemanticFindingsPayload) (candidate : String)
      → Returns (BindsTo payload candidate) (bind_payload sha256 decimal payload candidate)
  unfolding bind_payload
  bind_payload-BindsTo payload candidate =
      let P = BindsTo payload candidate in
      if-intro (Returns P) (str_eq payload.status "ok") _ _
        (λ is_ok. Returns-bind P (bind_all sha256 decimal candidate payload.findings) _ λ bs made.
          let (same, all) = returned _ _ (bind_all-Evidence candidate payload.findings) made in
          (refl, refl, same, (λ failed. absurd (cc (is_ok, failed))), all))
        λ failed.
          Returns-guard P (is_nil payload.findings) _ _
            λ none_left. (refl, refl, is_nil-nil payload.findings none_left, (λ _. refl), tt)
    where
      is_nil-nil : (findings : List SemanticFinding) → is_nil findings ≡ true → [] ≡ findings
      is_nil-nil [] h = refl
      is_nil-nil (f ∷ fs) h = cc

  -- Findings that were bound keep the payload's findings, in order, each with evidence in the
  -- candidate: offsets in bounds of a part that is not empty, whose digest is the quote, and a
  -- fingerprint of class, offsets and quote. A payload that reports a failure has none.
  pub bind_semantic_findings-BindsTo :
      (loads : String → Option Json) (registry : Registry) (raw : RawPayload) (candidate : String)
      {bound : BoundSemanticFindings}
      → bind_semantic_findings sha256 decimal loads registry raw candidate ≡ ok bound
      → (payload : SemanticFindingsPayload) × (as_payload loads registry raw ≡ ok payload)
        × BindsTo payload candidate bound
  unfolding bind_semantic_findings
  bind_semantic_findings-BindsTo loads registry raw candidate e = returned _ _ binds e
    where
      binds :
          Returns
            (λ bound.
              (payload : SemanticFindingsPayload) × (as_payload loads registry raw ≡ ok payload)
              × BindsTo payload candidate bound)
            (bind_semantic_findings sha256 decimal loads registry raw candidate)
      binds = Returns-bind _ (as_payload loads registry raw) _ λ payload read.
          Returns-map (bind_payload sha256 decimal payload candidate)
            (bind_payload-BindsTo payload candidate) λ bound binds. (payload, read, binds)
