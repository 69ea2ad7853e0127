-- ===== src/Semantic/Findings/Examples.antt =====
-- ai4/constrain/semantic_findings.py: one finding, from its JSON to its evidence.
use ai4_constrain.Prelude.{◌≡◌, refl, none, [], ◌∷◌, String}
use ai4_constrain.Prelude.Int.{ℤ, pos}
use ai4_constrain.Prelude.Result.{ok, err}
use ai4_constrain.Semantic.{
  Json, integer, string, array, object, no_items, item, no_members, pair, semantic_findings_error,
  keys, value_of, is_no_items, require_object, require_array, reject_extra, require_str,
  require_int, walk_keys, walk_items, walk_members,
}
use ai4_constrain.Semantic.Findings.{
  Registry, SemanticFindingsPayload, BoundSemanticFindings, policy_smuggle_keys, all_hex,
  text_length, is_sha256_hex, require_sha256_hex, reject_smuggled_and_shard_keys,
  require_temperature, check_span, parse_span, parse_codes, parse_finding, parse_findings,
  distinct_ids, validate_semantic_findings, findings_schema_version,
}
use ai4_constrain.Semantic.Findings.Document.{findings_to_dict}
use ai4_constrain.Semantic.Findings.RoundTrip.{validate-findings_to_dict}
use ai4_constrain.Semantic.Findings.Bound.{
  take, drop, slice, slice_scalars, document, quote_sha256_for_span, claim_fingerprint_v1,
  bind_finding, bind_all, as_payload, bind_payload, bind_semantic_findings,
}
use ai4_constrain.Semantic.Findings.Bound.Evidence.{bind_semantic_findings-BindsTo, BindsTo}

abbrev registry : Registry
registry = record {
  class_ids = "unsupported_certainty" ∷ [];
  observation_codes = "ungrounded_certainty_cue" ∷ [];
  injection_signal_codes = "ignore_rules" ∷ [];
}

abbrev digest : String
digest = "0123456789abcdef0123456789abcdef0123456789abcdef0123456789abcdef"

abbrev candidate : String
candidate = "It is certain."

abbrev finding_json : String → Json
finding_json bin = object (
    pair "finding_id" (string "f1") (
      pair "class_id" (string "unsupported_certainty") (
        pair "confidence_bin" (string bin) (
          pair "span"
            (object (pair "start" (integer (pos 6)) (pair "end" (integer (pos 13)) no_members)))
            (pair "quote_sha256" (string digest) (
              pair "observation_code" (string "ungrounded_certainty_cue") (
                pair "injection_signal_codes" (array (item (string "ignore_rules") no_items))
                  no_members)))))))

abbrev payload_json : Json → Json
payload_json finding = object (
    pair "schema_version" (string findings_schema_version) (
      pair "examiner_id" (string "e") (
        pair "examiner_version" (string "1") (
          pair "model_id" (string "m") (
            pair "provider_id" (string "p") (
              pair "observation_prompt_sha256" (string digest) (
                pair "temperature" (integer (pos 0)) (
                  pair "status" (string "ok")
                    (pair "findings" (array (item finding no_items)) no_members)))))))))

abbrev payload : SemanticFindingsPayload
payload = record {
  schema_version = findings_schema_version;
  examiner_id = "e";
  examiner_version = "1";
  model_id = "m";
  provider_id = "p";
  observation_prompt_sha256 = digest;
  temperature = pos 0;
  status = "ok";
  findings =
      record {
        finding_id = "f1";
        class_id = "unsupported_certainty";
        confidence_bin = "high";
        span = record { start = pos 6; end = pos 13 };
        quote_sha256 = digest;
        observation_code = "ungrounded_certainty_cue";
        injection_signal_codes = "ignore_rules" ∷ [];
      }
      ∷ [];
}

validated : validate_semantic_findings registry (payload_json (finding_json "high")) ≡ ok payload
unfolding validate_semantic_findings require_object reject_smuggled_and_shard_keys walk_keys
    walk_items walk_members policy_smuggle_keys reject_extra keys value_of require_str require_array
    is_no_items parse_findings parse_finding parse_span require_int check_span require_sha256_hex
    is_sha256_hex all_hex text_length parse_codes distinct_ids require_temperature
validated = refl

-- An unknown confidence, and a smuggled key.
refused : Unit {0}
unfolding validate_semantic_findings require_object reject_smuggled_and_shard_keys walk_keys
    walk_items walk_members policy_smuggle_keys reject_extra keys value_of require_str require_array
    is_no_items parse_findings parse_finding
refused =
    let bin : validate_semantic_findings registry (payload_json (finding_json "sure"))
        ≡ err semantic_findings_error =
      refl in
    let smuggled : validate_semantic_findings registry (
          payload_json (
            object (pair "nested" (object (pair "score" (integer (pos 1)) no_members)) no_members)))
        ≡ err semantic_findings_error =
      refl in
    tt

validate-findings_to_dict_example :
    validate_semantic_findings registry (findings_to_dict payload) ≡ ok payload
validate-findings_to_dict_example =
    validate-findings_to_dict registry (payload_json (finding_json "high")) validated

abbrev sha256 : String → String
sha256 text = digest

abbrev decimal : ℤ → String
decimal n = "n"

abbrev bound : BoundSemanticFindings
bound = record {
  payload = payload;
  candidate = candidate;
  findings =
      record {
        finding = record {
          finding_id = "f1";
          class_id = "unsupported_certainty";
          confidence_bin = "high";
          span = record { start = pos 6; end = pos 13 };
          quote_sha256 = digest;
          observation_code = "ungrounded_certainty_cue";
          injection_signal_codes = "ignore_rules" ∷ [];
        };
        claim_fingerprint = digest;
      }
      ∷ [];
}

binds :
    bind_semantic_findings sha256 decimal
      (λ _. none)
      registry
      (document (payload_json (finding_json "high")))
      candidate
    ≡ ok bound
unfolding bind_semantic_findings as_payload bind_payload bind_all bind_finding quote_sha256_for_span
    slice_scalars slice take drop claim_fingerprint_v1 validate_semantic_findings require_object
    reject_smuggled_and_shard_keys walk_keys walk_items walk_members policy_smuggle_keys
    reject_extra keys value_of require_str require_array is_no_items parse_findings parse_finding
    parse_span require_int check_span require_sha256_hex is_sha256_hex all_hex text_length
    parse_codes distinct_ids require_temperature
binds = refl

bind_semantic_findings-BindsTo_example :
    (p : SemanticFindingsPayload) × (as_payload
        (λ _. none)
        registry
        (document (payload_json (finding_json "high")))
      ≡ ok p)
    × BindsTo sha256 decimal p candidate bound
bind_semantic_findings-BindsTo_example =
    bind_semantic_findings-BindsTo sha256 decimal (λ _. none) registry
      (document (payload_json (finding_json "high"))) candidate binds
