-- ===== src/Semantic/Findings.antt =====
-- ai4/constrain/semantic_findings.py: what an examiner may report of a candidate. `sha256` is the hex
-- digest of a text's UTF-8 bytes, and `decimal` is `str` of an integer.
pub mod Document
mod Reads
pub mod RoundTrip
pub mod Bound
mod Examples
use Prim.Native.Char.{Char, code}
use Prim.Native.String.{◌++◌}
use ai4_constrain.Prelude.{
  ℕ, zero, suc, ◌+◌, ◌-◌, Bool, true, false, not, ◌&&◌, ◌||◌, List, [], ◌∷◌, String, str_eq, any,
  leb, ◌==◌, if◌then◌else◌, is_nil,
}
use mathlib.Core.List.{◌++◌ as append}
use ai4_constrain.Prelude.Int.{ℤ, pos, ltb_ℤ, pos_part}
use ai4_constrain.Prelude.Result.{Result, ok, err, ◌>>=◌, ◌>>◌, guard}
use ai4_constrain.Prelude.Text.{member}
use ai4_constrain.Fuse.{required_shard_ids}
use ai4_constrain.Semantic.{
  Json, null, boolean, integer, float, zero_float, string, array, object, Items, no_items, item,
  Members, no_members, pair, FindingsError, semantic_findings_error, is_no_items, at_key,
  require_object, require_array, reject_extra, require_str, require_int, walk_keys,
}

abbrev pub findings_schema_version : String
findings_schema_version = "ai4.semantic_findings.v0.7-c2"

abbrev pub statuses : List String
statuses =
    "ok" ∷ "timeout" ∷ "schema_invalid" ∷ "backend_error" ∷ "injection_suspected" ∷ "empty_parse"
    ∷ []

abbrev pub confidence_bins : List String
confidence_bins = "low" ∷ "medium" ∷ "high" ∷ []

abbrev pub payload_keys : List String
payload_keys =
    "schema_version" ∷ "examiner_id" ∷ "examiner_version" ∷ "model_id" ∷ "provider_id"
    ∷ "observation_prompt_sha256" ∷ "temperature" ∷ "status" ∷ "findings" ∷ []

abbrev pub finding_keys : List String
finding_keys =
    "finding_id" ∷ "class_id" ∷ "confidence_bin" ∷ "span" ∷ "quote_sha256" ∷ "observation_code"
    ∷ "injection_signal_codes" ∷ []

abbrev pub span_keys : List String
span_keys = "start" ∷ "end" ∷ []

-- `POLICY_SMUGGLE_KEYS`
unfoldable pub policy_smuggle_keys : List String
policy_smuggle_keys =
    "accept" ∷ "arbitration" ∷ "claim_fingerprint" ∷ "comment" ∷ "comments" ∷ "decision"
    ∷ "explanation" ∷ "freeform" ∷ "fused_score" ∷ "fused_scores" ∷ "hard" ∷ "kind" ∷ "note"
    ∷ "notes" ∷ "passed" ∷ "priority" ∷ "rationale" ∷ "reasoning" ∷ "refuse" ∷ "revise"
    ∷ "revision_targets" ∷ "score" ∷ "scores" ∷ "shard_hints" ∷ "shard_id" ∷ "shard_ids" ∷ "soft"
    ∷ "threshold" ∷ "thresholds" ∷ []

-- A finding registry, by its sets of names.
pub record Registry : Type 0 where
  pub class_ids : List String
  pub observation_codes : List String
  pub injection_signal_codes : List String

pub record FindingSpan : Type 0 where
  pub start : ℤ
  pub end : ℤ

pub record SemanticFinding : Type 0 where
  pub finding_id : String
  pub class_id : String
  pub confidence_bin : String
  pub span : FindingSpan
  pub quote_sha256 : String
  pub observation_code : String
  pub injection_signal_codes : List String

pub record SemanticFindingsPayload : Type 0 where
  pub schema_version : String
  pub examiner_id : String
  pub examiner_version : String
  pub model_id : String
  pub provider_id : String
  pub observation_prompt_sha256 : String
  pub temperature : ℤ
  pub status : String
  pub findings : List SemanticFinding

pub record BoundFinding : Type 0 where
  pub finding : SemanticFinding
  pub claim_fingerprint : String

pub record BoundSemanticFindings : Type 0 where
  pub payload : SemanticFindingsPayload
  pub candidate : String
  pub findings : List BoundFinding

-- `_SHA256_RE.fullmatch`
abbrev is_hex : Char → Bool
is_hex c = (leb b'0' (code c) && leb (code c) b'9') || (leb b'a' (code c) && leb (code c) b'f')

unfoldable pub all_hex : String → Bool
all_hex String.[] = true
all_hex (String.◌∷◌ c s) = is_hex c && all_hex s

unfoldable pub text_length : String → ℕ
text_length String.[] = 0
text_length (String.◌∷◌ c s) = suc (text_length s)

unfoldable pub is_sha256_hex : String → Bool
is_sha256_hex s = all_hex s && text_length s == 64

unfoldable pub require_sha256_hex : Json → Result FindingsError String
require_sha256_hex raw = do
  text ← require_str raw
  guard (is_sha256_hex text) semantic_findings_error
  ok text

-- `_reject_smuggled_and_shard_keys`
unfoldable pub reject_smuggled_and_shard_keys : Members → Result FindingsError (Unit {0})
reject_smuggled_and_shard_keys payload = do
  found ← walk_keys (object payload)
  guard (not (any (λ key. member key policy_smuggle_keys) found)) semantic_findings_error
  guard (not (any (λ key. member key required_shard_ids) found)) semantic_findings_error
  ok tt

abbrev pub eq_ℤ : ℤ → ℤ → Bool
eq_ℤ a b = not (ltb_ℤ a b) && not (ltb_ℤ b a)

unfoldable pub require_temperature : Json → Result FindingsError ℤ
require_temperature (integer n) = if eq_ℤ n (pos 0) then ok (pos 0) else err semantic_findings_error
require_temperature (float zero_float) = ok (pos 0)
require_temperature _ = err semantic_findings_error

unfoldable pub check_span : ℤ → ℤ → Result FindingsError FindingSpan
check_span start end = do
  guard (not (ltb_ℤ end start)) semantic_findings_error
  guard (not (eq_ℤ start end)) semantic_findings_error
  guard (not (ltb_ℤ start (pos 0) || ltb_ℤ end (pos 0))) semantic_findings_error
  ok (record { start = start; end = end })

unfoldable pub parse_span : Json → Result FindingsError FindingSpan
parse_span raw = do
  span ← require_object raw
  reject_extra span span_keys
  start_raw ← at_key span "start"
  start ← require_int start_raw
  end_raw ← at_key span "end"
  end ← require_int end_raw
  check_span start end

-- The loop over `codes_raw`, with the codes so far.
unfoldable pub parse_codes : List String → Items → List String → Result FindingsError (List String)
parse_codes allowed no_items codes = ok codes
parse_codes allowed (item raw rest) codes = do
  text ← require_str raw
  guard (member text allowed) semantic_findings_error
  guard (not (member text codes)) semantic_findings_error
  parse_codes allowed rest (append codes (text ∷ []))

-- `document[key]`, checked to be a text that is not empty.
abbrev pub text_at : Members → String → Result FindingsError String
text_at document key = do raw ← at_key document key; require_str raw

abbrev pub sha256_at : Members → String → Result FindingsError String
sha256_at document key = do raw ← at_key document key; require_sha256_hex raw

unfoldable pub parse_finding :
    Registry → (require_complete : Bool) → Json → Result FindingsError SemanticFinding
parse_finding registry require_complete raw = do
  entry ← require_object raw
  reject_smuggled_and_shard_keys entry
  guard require_complete semantic_findings_error
  reject_extra entry finding_keys
  finding_id ← text_at entry "finding_id"
  class_id ← text_at entry "class_id"
  guard (member class_id registry.class_ids) semantic_findings_error
  confidence_bin ← text_at entry "confidence_bin"
  guard (member confidence_bin confidence_bins) semantic_findings_error
  span_raw ← at_key entry "span"
  span ← parse_span span_raw
  quote_sha256 ← sha256_at entry "quote_sha256"
  observation_code ← text_at entry "observation_code"
  guard (member observation_code registry.observation_codes) semantic_findings_error
  codes_raw ← at_key entry "injection_signal_codes"
  items ← require_array codes_raw
  codes ← parse_codes registry.injection_signal_codes items []
  ok (record {
    finding_id = finding_id;
    class_id = class_id;
    confidence_bin = confidence_bin;
    span = span;
    quote_sha256 = quote_sha256;
    observation_code = observation_code;
    injection_signal_codes = codes;
  })

unfoldable pub parse_findings :
    Registry → Bool → Items → Result FindingsError (List SemanticFinding)
parse_findings registry require_complete no_items = ok []
parse_findings registry require_complete (item raw rest) = do
  finding ← parse_finding registry require_complete raw
  later ← parse_findings registry require_complete rest
  ok (finding ∷ later)

-- The loop with `seen_ids`.
unfoldable pub distinct_ids : List String → List SemanticFinding → Result FindingsError (Unit {0})
distinct_ids seen [] = ok tt
distinct_ids seen (finding ∷ rest) = do
  guard (not (member finding.finding_id seen)) semantic_findings_error
  distinct_ids (finding.finding_id ∷ seen) rest

unfoldable pub validate_semantic_findings :
    Registry → Json → Result FindingsError SemanticFindingsPayload
validate_semantic_findings registry payload = do
  document ← require_object payload
  reject_smuggled_and_shard_keys document
  reject_extra document payload_keys
  schema_version ← text_at document "schema_version"
  guard (str_eq schema_version findings_schema_version) semantic_findings_error
  status ← text_at document "status"
  guard (member status statuses) semantic_findings_error
  findings_raw ← at_key document "findings"
  items ← require_array findings_raw
  guard (str_eq status "ok" || is_no_items items) semantic_findings_error
  findings ← parse_findings registry (str_eq status "ok") items
  distinct_ids [] findings
  examiner_id ← text_at document "examiner_id"
  examiner_version ← text_at document "examiner_version"
  model_id ← text_at document "model_id"
  provider_id ← text_at document "provider_id"
  observation_prompt_sha256 ← sha256_at document "observation_prompt_sha256"
  temperature_raw ← at_key document "temperature"
  temperature ← require_temperature temperature_raw
  ok (record {
    schema_version = schema_version;
    examiner_id = examiner_id;
    examiner_version = examiner_version;
    model_id = model_id;
    provider_id = provider_id;
    observation_prompt_sha256 = observation_prompt_sha256;
    temperature = temperature;
    status = status;
    findings = findings;
  })
