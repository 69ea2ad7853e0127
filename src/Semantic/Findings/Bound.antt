-- ===== src/Semantic/Findings/Bound.antt =====
-- ai4/constrain/semantic_findings.py: bind_semantic_findings, which ties findings to a candidate.
-- `sha256` is the hex digest of a text's UTF-8 bytes, `decimal` is `str` of an integer, and
-- `loads` is `json.loads`.
pub mod Evidence
use Prim.Native.String.{◌++◌}
use ai4_constrain.Prelude.{
  ℕ, zero, suc, ◌+◌, ◌-◌, ◌≤◌, ◌<◌, ◌≡◌, refl, ap, sym, ◌∙◌, Bool, true, false, not, ◌||◌, ◌⊎◌, inl,
  inr, Option, none, some, List, [], ◌∷◌, map, String, str_eq, eq_iff, All, arith, is_nil, ltb,
  Bool-cases, if◌then◌else◌,
}
use ai4_constrain.Prelude.Int.{ℤ, pos, ltb_ℤ, pos_part, neg_part}
use ai4_constrain.Prelude.Result.{
  Result, ok, err, ◌>>=◌, ◌>>◌, guard, Returns, Returns-map, returned, Returns-bind, Returns-guard,
  Returns-then,
}
use ai4_constrain.Semantic.{Json, FindingsError, semantic_findings_error}
use ai4_constrain.Semantic.Findings.{
  Registry, FindingSpan, SemanticFinding, SemanticFindingsPayload, BoundFinding,
  BoundSemanticFindings, text_length, eq_ℤ, is_sha256_hex, validate_semantic_findings,
}

unfoldable pub take : ℕ → String → String
take zero s = ""
take (suc n) String.[] = ""
take (suc n) (String.◌∷◌ c s) = String.◌∷◌ c (take n s)

unfoldable pub drop : ℕ → String → String
drop zero s = s
drop (suc n) String.[] = ""
drop (suc n) (String.◌∷◌ c s) = drop n s

-- `candidate[start:end]`, by characters, of two offsets that are not negative.
unfoldable pub slice : ℕ → ℕ → String → String
slice start end s = take (end - start) (drop start s)

-- `_slice_scalars`
unfoldable pub slice_scalars : String → ℤ → ℤ → Result FindingsError String
slice_scalars candidate start end = do
  guard (not (ltb_ℤ end start)) semantic_findings_error
  guard (not (eq_ℤ start end)) semantic_findings_error
  guard
      (not (
        ltb_ℤ start (pos 0)
        || ltb_ℤ end (pos 0)
        || not (ltb_ℤ start (pos (text_length candidate)))
        || ltb_ℤ (pos (text_length candidate)) end))
      semantic_findings_error
  ok (slice (pos_part start) (pos_part end) candidate)

-- What a payload comes as.
pub data RawPayload : Type 0 where
  validated : SemanticFindingsPayload → RawPayload
  json_text : String → RawPayload
  document : Json → RawPayload

-- The text of which the fingerprint is the digest.
abbrev pub material : (ℤ → String) → String → ℤ → ℤ → String → String
material decimal class_id start end quote_sha256 =
    "cf_v1"
    ++ ("\u{1f}"
        ++ (class_id
            ++ ("\u{1f}"
                ++ (decimal start ++ ("\u{1f}" ++ (decimal end ++ ("\u{1f}" ++ quote_sha256)))))))

-- `_as_payload`
unfoldable pub as_payload :
    (String → Option Json) → Registry → RawPayload → Result FindingsError SemanticFindingsPayload
as_payload loads registry (validated payload) = ok payload
as_payload loads registry (json_text raw) = elim (loads raw) [
  | none ↦ err semantic_findings_error
  | some parsed ↦ validate_semantic_findings registry parsed
]
as_payload loads registry (document raw) = validate_semantic_findings registry raw

unfoldable pub quote_sha256_for_span :
    (String → String) → String → ℤ → ℤ → Result FindingsError String
quote_sha256_for_span sha256 candidate start end = do
  excerpt ← slice_scalars candidate start end
  ok (sha256 excerpt)

module _ (sha256 : String → String) (decimal : ℤ → String) where
  unfoldable pub claim_fingerprint_v1 : String → ℤ → ℤ → String → Result FindingsError String
  claim_fingerprint_v1 class_id start end quote_sha256 = do
    guard (not (str_eq class_id "")) semantic_findings_error
    guard (not (str_eq quote_sha256 "")) semantic_findings_error
    guard (is_sha256_hex quote_sha256) semantic_findings_error
    ok (sha256 (material decimal class_id start end quote_sha256))

  -- The body of the loop over the payload's findings.
  unfoldable pub bind_finding : String → SemanticFinding → Result FindingsError BoundFinding
  bind_finding candidate finding = do
    actual_quote ← quote_sha256_for_span sha256 candidate finding.span.start finding.span.end
    guard (str_eq actual_quote finding.quote_sha256) semantic_findings_error
    fingerprint ←
        claim_fingerprint_v1 finding.class_id finding.span.start finding.span.end actual_quote
    ok (record { finding = finding; claim_fingerprint = fingerprint })

  unfoldable pub bind_all : String → List SemanticFinding → Result FindingsError (List BoundFinding)
  bind_all candidate [] = ok []
  bind_all candidate (finding ∷ rest) = do
    bound ← bind_finding candidate finding
    later ← bind_all candidate rest
    ok (bound ∷ later)

  unfoldable pub bind_payload :
      SemanticFindingsPayload → String → Result FindingsError BoundSemanticFindings
  bind_payload payload candidate =
      if str_eq payload.status "ok"
      then (bind_all candidate payload.findings >>= λ bound.
          ok (record { payload = payload; candidate = candidate; findings = bound }))
      else (guard (is_nil payload.findings) semantic_findings_error
          >> ok (record { payload = payload; candidate = candidate; findings = [] }))

  unfoldable pub bind_semantic_findings :
      (String → Option Json)
      → Registry
      → RawPayload
      → String
      → Result FindingsError BoundSemanticFindings
  bind_semantic_findings loads registry raw candidate = do
    payload ← as_payload loads registry raw
    bind_payload payload candidate
