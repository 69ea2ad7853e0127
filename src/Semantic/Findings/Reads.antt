-- ===== src/Semantic/Findings/Reads.antt =====
-- ai4/constrain/semantic_findings.py: the parts of a payload are read back from their documents.
use ai4_constrain.Prelude.{
  ◌≡◌, refl, sym, subst, ◌∙◌, Bool, true, not, List, [], ◌∷◌, ◌++◌, String, str_eq, arith, if-intro,
}
use mathlib.Core.List.{append_assoc, append-nil}
use ai4_constrain.Prelude.Int.{ℤ, pos}
use ai4_constrain.Prelude.Result.{
  ok, Returns, Returns-map, returned, Returns-bind, Returns-guard, Returns-then,
}
use ai4_constrain.Prelude.Text.{member}
use ai4_constrain.Semantic.{
  Json, integer, float, zero_float, string, object, Items, no_items, item, Members, at_key,
  value_of, require_object, require_array, reject_extra, require_str, require_int,
}
use ai4_constrain.Semantic.Findings.{
  Registry, FindingSpan, SemanticFinding, require_sha256_hex, is_sha256_hex, eq_ℤ,
  require_temperature, check_span, parse_span, parse_codes, text_at, sha256_at, parse_finding,
  reject_smuggled_and_shard_keys, confidence_bins, finding_keys, span_keys,
}
use ai4_constrain.Semantic.Findings.Document.{
  code_items, span_members, finding_members, reject_smuggled-finding, reject_extra-span,
  reject_extra-finding,
}

-- What was read is read again from a document that holds it.
abbrev pub ReadsText : String → Type 0
ReadsText text = require_str (string text) ≡ ok text

abbrev pub ReadsDigest : String → Type 0
ReadsDigest text = require_sha256_hex (string text) ≡ ok text

abbrev pub ReadsTemperature : ℤ → Type 0
ReadsTemperature n = require_temperature (integer n) ≡ ok n

abbrev ReadsSpan : FindingSpan → Type 0
ReadsSpan span = parse_span (object (span_members span)) ≡ ok span

require_str-ReadsText : (raw : Json) → Returns ReadsText (require_str raw)
unfolding require_str
require_str-ReadsText (string text) =
    if-intro (Returns ReadsText) (str_eq text "") _ (ok text) (λ _. tt) λ other. rw (other) refl
require_str-ReadsText _ = tt

pub text_at-ReadsText :
    (document : Members) (key : String) → Returns ReadsText (text_at document key)
text_at-ReadsText document key =
    Returns-bind ReadsText (at_key document key) _ λ raw _. require_str-ReadsText raw

require_sha256_hex-ReadsDigest : (raw : Json) → Returns ReadsDigest (require_sha256_hex raw)
unfolding require_sha256_hex
require_sha256_hex-ReadsDigest raw = Returns-bind ReadsDigest (require_str raw) _ λ text read.
    Returns-guard ReadsDigest (is_sha256_hex text) _ (ok text)
      λ hex. rw (returned ReadsText _ (require_str-ReadsText raw) read) (rw (hex) refl)

pub sha256_at-ReadsDigest :
    (document : Members) (key : String) → Returns ReadsDigest (sha256_at document key)
sha256_at-ReadsDigest document key =
    Returns-bind ReadsDigest (at_key document key) _ λ raw _. require_sha256_hex-ReadsDigest raw

pub require_temperature-ReadsTemperature :
    (raw : Json) → Returns ReadsTemperature (require_temperature raw)
unfolding require_temperature
require_temperature-ReadsTemperature (integer n) =
    if-intro (Returns ReadsTemperature) (eq_ℤ n (pos 0)) (ok (pos 0)) _ (λ _. refl) λ _. tt
require_temperature-ReadsTemperature (float zero_float) = refl
require_temperature-ReadsTemperature _ = tt

check_span-again :
    (start end : ℤ)
    → Returns (λ span. check_span span.start span.end ≡ ok span) (check_span start end)
unfolding check_span
check_span-again start end = ground arith

parse_span-ReadsSpan : (raw : Json) → Returns ReadsSpan (parse_span raw)
unfolding parse_span require_object require_int span_members value_of
parse_span-ReadsSpan raw = Returns-bind ReadsSpan (require_object raw) _ λ span _.
    Returns-then ReadsSpan (reject_extra span span_keys) _ λ _.
      Returns-bind ReadsSpan (at_key span "start") _ λ start_raw _.
        Returns-bind ReadsSpan (require_int start_raw) _ λ start _.
          Returns-bind ReadsSpan (at_key span "end") _ λ end_raw _.
            Returns-bind ReadsSpan (require_int end_raw) _ λ end _.
              Returns-map (check_span start end) (check_span-again start end)
                λ value again. rw (reject_extra-span value) again

-- The codes that were added to the ones before.
abbrev AddsCodes : List String → List String → List String → Type 0
AddsCodes allowed before codes =
    (added : List String) × (codes ≡ before ++ added)
    × (parse_codes allowed (code_items added) before ≡ ok codes)

parse_codes-AddsCodes :
    (allowed : List String) (items : Items) (before : List String)
    → Returns (AddsCodes allowed before) (parse_codes allowed items before)
unfolding parse_codes code_items
parse_codes-AddsCodes allowed no_items before = ([], sym (append-nil before), refl)
parse_codes-AddsCodes allowed (item raw rest) before =
    let P = AddsCodes allowed before in
    Returns-bind P (require_str raw) _ λ text read.
      Returns-guard P (member text allowed) _ _ λ known.
        Returns-guard P (not (member text before)) _ _ λ fresh.
          Returns-map (parse_codes allowed rest (before ++ (text ∷ [])))
            (parse_codes-AddsCodes allowed rest (before ++ (text ∷ [])))
            λ codes later. (
              text ∷ later.0,
              later.1 ∙ append_assoc before (text ∷ []) later.0,
              rw (returned ReadsText _ (require_str-ReadsText raw) read)
                  (rw (known) (rw (fresh) later.2)),
            )

abbrev ReadsCodes : List String → List String → Type 0
ReadsCodes allowed codes = parse_codes allowed (code_items codes) [] ≡ ok codes

parse_codes-ReadsCodes :
    (allowed : List String) (items : Items)
    → Returns (ReadsCodes allowed) (parse_codes allowed items [])
parse_codes-ReadsCodes allowed items =
    Returns-map (parse_codes allowed items []) (parse_codes-AddsCodes allowed items [])
      λ codes adds.
        subst (λ c. parse_codes allowed (code_items c) [] ≡ ok codes) (sym adds.1) adds.2

-- The facts that make a finding readable, of its fields.
abbrev ReadableFinding : Registry → SemanticFinding → Type 0
ReadableFinding registry f =
    ReadsText f.finding_id
    × ReadsText f.class_id
    × (member f.class_id registry.class_ids ≡ true)
    × ReadsText f.confidence_bin
    × (member f.confidence_bin confidence_bins ≡ true)
    × ReadsSpan f.span
    × ReadsDigest f.quote_sha256
    × ReadsText f.observation_code
    × (member f.observation_code registry.observation_codes ≡ true)
    × ReadsCodes registry.injection_signal_codes f.injection_signal_codes

abbrev pub ReadsFinding : Registry → SemanticFinding → Type 0
ReadsFinding registry f = parse_finding registry true (object (finding_members f)) ≡ ok f

readable-ReadsFinding :
    (registry : Registry) (f : SemanticFinding)
    → ReadableFinding registry f
    → ReadsFinding registry f
unfolding parse_finding require_object require_array finding_members value_of
readable-ReadsFinding registry f (id, cls, in_cls, bin, in_bin, span, quote, code, in_code, codes) =
    rw
      (
        reject_smuggled-finding f,
        reject_extra-finding f,
        id,
        cls,
        in_cls,
        bin,
        in_bin,
        span,
        quote,
        code,
        in_code,
        codes,
      )
      refl

pub parse_finding-ReadsFinding :
    (registry : Registry) (complete : Bool) (raw : Json)
    → Returns
        (λ f. (complete ≡ true) × ReadsFinding registry f)
        (parse_finding registry complete raw)
unfolding parse_finding
parse_finding-ReadsFinding registry complete raw =
    let P : SemanticFinding → Type 0 = λ f. (complete ≡ true) × ReadsFinding registry f in
    Returns-bind P (require_object raw) _ λ entry _.
      Returns-then P (reject_smuggled_and_shard_keys entry) _ λ _.
        Returns-guard P complete _ _ λ all. Returns-then P (reject_extra entry finding_keys) _ λ _.
          Returns-bind P (text_at entry "finding_id") _ λ finding_id id.
            Returns-bind P (text_at entry "class_id") _ λ class_id cls.
              Returns-guard P (member class_id registry.class_ids) _ _ λ in_cls.
                Returns-bind P (text_at entry "confidence_bin") _ λ confidence_bin bin.
                  Returns-guard P (member confidence_bin confidence_bins) _ _ λ in_bin.
                    Returns-bind P (at_key entry "span") _ λ span_raw _.
                      Returns-bind P (parse_span span_raw) _ λ span read_span.
                        Returns-bind P (sha256_at entry "quote_sha256") _ λ quote_sha256 quote.
                          Returns-bind P (text_at entry "observation_code") _
                            λ observation_code code.
                              Returns-guard P (member observation_code registry.observation_codes) _
                                _
                                λ in_code.
                                  Returns-bind P (at_key entry "injection_signal_codes") _
                                    λ codes_raw _.
                                      Returns-bind P (require_array codes_raw) _ λ items _.
                                        Returns-bind P
                                          (parse_codes registry.injection_signal_codes items []) _
                                          λ codes read_codes. (
                                            all,
                                            readable-ReadsFinding registry _ (
                                              reads_text entry "finding_id" id,
                                              reads_text entry "class_id" cls,
                                              in_cls,
                                              reads_text entry "confidence_bin" bin,
                                              in_bin,
                                              returned _ _ (parse_span-ReadsSpan span_raw)
                                                  read_span,
                                              returned _ _ (sha256_at-ReadsDigest entry _) quote,
                                              reads_text entry "observation_code" code,
                                              in_code,
                                              returned _ _ (parse_codes-ReadsCodes _ items)
                                                  read_codes,
                                            ),
                                          )
  where
    reads_text :
        (entry : Members) (key : String) {text : String}
        → text_at entry key ≡ ok text
        → ReadsText text
    reads_text entry key e = returned ReadsText _ (text_at-ReadsText entry key) e
