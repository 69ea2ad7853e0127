-- ===== src/Semantic/Findings/RoundTrip.antt =====
-- ai4/constrain/semantic_findings.py: a validated payload is read back from its document.
use ai4_constrain.Prelude.{
  ◌≡◌, refl, ap, sym, subst, ◌∙◌, Bool, true, ◌||◌, List, [], String, str_eq,
}
use ai4_constrain.Prelude.Result.{ok, Returns, returned, Returns-bind, Returns-guard, Returns-then}
use ai4_constrain.Prelude.Text.{member}
use ai4_constrain.Semantic.{
  Json, object, Items, no_items, item, Members, at_key, value_of, require_object, require_array,
  reject_extra, is_no_items,
}
use ai4_constrain.Semantic.Findings.{
  Registry, SemanticFinding, SemanticFindingsPayload, require_temperature, text_at, sha256_at,
  parse_finding, parse_findings, distinct_ids, validate_semantic_findings,
  reject_smuggled_and_shard_keys, findings_schema_version, statuses, payload_keys,
}
use ai4_constrain.Semantic.Findings.Document.{
  finding_members, finding_items, payload_members, findings_to_dict, reject_smuggled-payload,
  reject_extra-payload,
}
use ai4_constrain.Semantic.Findings.Reads.{
  ReadsText, ReadsDigest, ReadsTemperature, text_at-ReadsText, sha256_at-ReadsDigest,
  require_temperature-ReadsTemperature, parse_finding-ReadsFinding,
}

-- The findings that were read, with the number of items.
abbrev ReadsFindings : Registry → Bool → Items → List SemanticFinding → Type 0
ReadsFindings registry complete items findings =
    (parse_findings registry complete (finding_items findings) ≡ ok findings)
    × (is_no_items (finding_items findings) ≡ is_no_items items)

parse_findings-ReadsFindings :
    (registry : Registry) (complete : Bool) (items : Items)
    → Returns (ReadsFindings registry complete items) (parse_findings registry complete items)
unfolding parse_findings finding_items is_no_items
parse_findings-ReadsFindings registry complete no_items = (refl, refl)
parse_findings-ReadsFindings registry complete (item raw rest) =
    let P = ReadsFindings registry complete (item raw rest) in
    Returns-bind P (parse_finding registry complete raw) _ λ finding read.
      Returns-bind P (parse_findings registry complete rest) _ λ later read_rest.
        let (all, first) = returned _ _ (parse_finding-ReadsFinding registry complete raw) read in
        let (others, _) =
          returned _ _ (parse_findings-ReadsFindings registry complete rest) read_rest in
        let same =
          subst (λ c. parse_finding registry c (object (finding_members finding)) ≡ ok finding)
            (sym all) first in
        (rw (same, others) refl, refl)

abbrev ReadablePayload : Registry → SemanticFindingsPayload → Type 0
ReadablePayload registry p =
    ReadsText p.schema_version
    × (str_eq p.schema_version findings_schema_version ≡ true)
    × ReadsText p.status
    × (member p.status statuses ≡ true)
    × ((str_eq p.status "ok" || is_no_items (finding_items p.findings)) ≡ true)
    × (parse_findings registry (str_eq p.status "ok") (finding_items p.findings) ≡ ok p.findings)
    × (distinct_ids [] p.findings ≡ ok tt)
    × ReadsText p.examiner_id
    × ReadsText p.examiner_version
    × ReadsText p.model_id
    × ReadsText p.provider_id
    × ReadsDigest p.observation_prompt_sha256
    × ReadsTemperature p.temperature

readable-payload :
    (registry : Registry) (p : SemanticFindingsPayload)
    → ReadablePayload registry p
    → validate_semantic_findings registry (findings_to_dict p) ≡ ok p
unfolding validate_semantic_findings findings_to_dict require_object require_array payload_members
    value_of
readable-payload registry p
      (
        schema, right, status, known, fits, findings, distinct, id, version, model, provider,
        digest, temperature,
      ) =
    rw
      (
        reject_smuggled-payload p,
        reject_extra-payload p,
        schema,
        right,
        status,
        known,
        fits,
        findings,
        distinct,
        id,
        version,
        model,
        provider,
        digest,
        temperature,
      )
      refl

validate-again :
    (registry : Registry) (raw : Json)
    → Returns
        (λ p. validate_semantic_findings registry (findings_to_dict p) ≡ ok p)
        (validate_semantic_findings registry raw)
unfolding validate_semantic_findings
validate-again registry raw =
    let P : SemanticFindingsPayload → Type 0 =
      λ p. validate_semantic_findings registry (findings_to_dict p) ≡ ok p in
    Returns-bind P (require_object raw) _ λ document _.
      Returns-then P (reject_smuggled_and_shard_keys document) _ λ _.
        Returns-then P (reject_extra document payload_keys) _ λ _.
          Returns-bind P (text_at document "schema_version") _ λ schema_version schema.
            Returns-guard P (str_eq schema_version findings_schema_version) _ _ λ right.
              Returns-bind P (text_at document "status") _ λ status read_status.
                Returns-guard P (member status statuses) _ _ λ known.
                  Returns-bind P (at_key document "findings") _ λ findings_raw _.
                    Returns-bind P (require_array findings_raw) _ λ items _.
                      Returns-guard P (str_eq status "ok" || is_no_items items) _ _ λ fits.
                        Returns-bind P (parse_findings registry (str_eq status "ok") items) _
                          λ findings read. Returns-then P (distinct_ids [] findings) _ λ distinct.
                            Returns-bind P (text_at document "examiner_id") _ λ examiner_id id.
                              Returns-bind P (text_at document "examiner_version") _
                                λ examiner_version version.
                                  Returns-bind P (text_at document "model_id") _ λ model_id model.
                                    Returns-bind P (text_at document "provider_id") _
                                      λ provider_id provider.
                                        Returns-bind P
                                          (sha256_at document "observation_prompt_sha256") _
                                          λ prompt digest.
                                            Returns-bind P (at_key document "temperature") _
                                              λ temperature_raw _.
                                                Returns-bind P (require_temperature temperature_raw)
                                                  _
                                                  λ temperature zero.
                                                    let (again, length) =
                                                      returned _ _
                                                        (parse_findings-ReadsFindings registry _
                                                          items)
                                                        read in
                                                    readable-payload registry _ (
                                                      reads_text document _ schema,
                                                      right,
                                                      reads_text document _ read_status,
                                                      known,
                                                      ap (λ b. str_eq status "ok" || b) length
                                                          ∙ fits,
                                                      again,
                                                      distinct,
                                                      reads_text document _ id,
                                                      reads_text document _ version,
                                                      reads_text document _ model,
                                                      reads_text document _ provider,
                                                      returned _ _
                                                          (sha256_at-ReadsDigest document _) digest,
                                                      returned _ _
                                                          (require_temperature-ReadsTemperature
                                                            temperature_raw)
                                                          zero,
                                                    )
  where
    reads_text :
        (document : Members) (key : String) {text : String}
        → text_at document key ≡ ok text
        → ReadsText text
    reads_text document key e = returned ReadsText _ (text_at-ReadsText document key) e

-- A payload that was validated is read back, unchanged, from the document that it is serialized to,
-- under the same registry.
pub validate-findings_to_dict :
    (registry : Registry) (raw : Json) {p : SemanticFindingsPayload}
    → validate_semantic_findings registry raw ≡ ok p
    → validate_semantic_findings registry (findings_to_dict p) ≡ ok p
validate-findings_to_dict registry raw e = returned _ _ (validate-again registry raw) e
