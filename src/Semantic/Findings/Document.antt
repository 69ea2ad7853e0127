-- ===== src/Semantic/Findings/Document.antt =====
-- ai4/constrain/semantic_findings.py: findings_to_dict, and the checks on the keys of what it makes.
use mathlib.Core.List.{append-nil}
use ai4_constrain.Prelude.{
  ◌≡◌, refl, ap, ◌∙◌, Bool, false, ◌||◌, List, [], ◌∷◌, ◌++◌, String, any, any-append,
}
use ai4_constrain.Prelude.Result.{ok}
use ai4_constrain.Prelude.Text.{member}
use ai4_constrain.Fuse.{required_shard_ids}
use ai4_constrain.Semantic.{
  Json, integer, string, array, object, Items, no_items, item, Members, no_members, pair, keys,
  reject_extra, walk_keys, walk_items, walk_members,
}
use ai4_constrain.Semantic.Findings.{
  FindingSpan, SemanticFinding, SemanticFindingsPayload, span_keys, finding_keys, payload_keys,
  policy_smuggle_keys, reject_smuggled_and_shard_keys,
}

unfoldable pub code_items : List String → Items
code_items [] = no_items
code_items (text ∷ rest) = item (string text) (code_items rest)

unfoldable pub span_members : FindingSpan → Members
span_members span = pair "start" (integer span.start) (pair "end" (integer span.end) no_members)

unfoldable pub finding_members : SemanticFinding → Members
finding_members finding = pair "finding_id" (string finding.finding_id) (
    pair "class_id" (string finding.class_id) (
      pair "confidence_bin" (string finding.confidence_bin) (
        pair "span" (object (span_members finding.span)) (
          pair "quote_sha256" (string finding.quote_sha256) (
            pair "observation_code" (string finding.observation_code) (
              pair "injection_signal_codes" (array (code_items finding.injection_signal_codes))
                no_members))))))

unfoldable pub finding_items : List SemanticFinding → Items
finding_items [] = no_items
finding_items (finding ∷ rest) = item (object (finding_members finding)) (finding_items rest)

unfoldable pub payload_members : SemanticFindingsPayload → Members
payload_members payload = pair "schema_version" (string payload.schema_version) (
    pair "examiner_id" (string payload.examiner_id) (
      pair "examiner_version" (string payload.examiner_version) (
        pair "model_id" (string payload.model_id) (
          pair "provider_id" (string payload.provider_id) (
            pair "observation_prompt_sha256" (string payload.observation_prompt_sha256) (
              pair "temperature" (integer payload.temperature) (
                pair "status" (string payload.status)
                  (pair "findings" (array (finding_items payload.findings)) no_members))))))))

unfoldable pub findings_to_dict : SemanticFindingsPayload → Json
findings_to_dict payload = object (payload_members payload)

walk_items-code_items : (codes : List String) → walk_items (code_items codes) ≡ ok []
unfolding walk_items walk_keys code_items
walk_items-code_items [] = refl
walk_items-code_items (text ∷ rest) = rw (walk_items-code_items rest) refl

-- The keys of a finding's document, nested ones included.
abbrev all_finding_keys : List String
all_finding_keys =
    "finding_id" ∷ "class_id" ∷ "confidence_bin" ∷ "span" ∷ "start" ∷ "end" ∷ "quote_sha256"
    ∷ "observation_code" ∷ "injection_signal_codes" ∷ []

walk_members-finding :
    (finding : SemanticFinding) → walk_members (finding_members finding) ≡ ok all_finding_keys
unfolding walk_members walk_keys finding_members span_members
walk_members-finding finding = rw (walk_items-code_items finding.injection_signal_codes) refl

all_keys_of : List SemanticFinding → List String
all_keys_of [] = []
all_keys_of (_ ∷ rest) = all_finding_keys ++ all_keys_of rest

walk_items-finding_items :
    (findings : List SemanticFinding)
    → walk_items (finding_items findings) ≡ ok (all_keys_of findings)
unfolding walk_items walk_keys finding_items all_keys_of
walk_items-finding_items [] = refl
walk_items-finding_items (finding ∷ rest) =
    rw (walk_members-finding finding) (rw (walk_items-finding_items rest) refl)

-- No key of the findings' documents is in a list that has none of a finding's keys.
none_of :
    (forbidden : String → Bool) (findings : List SemanticFinding)
    → any forbidden all_finding_keys ≡ false
    → any forbidden (all_keys_of findings) ≡ false
unfolding all_keys_of
none_of forbidden [] h = refl
none_of forbidden (_ ∷ rest) h =
    any-append forbidden all_finding_keys (all_keys_of rest)
    ∙ ap (λ b. b || any forbidden (all_keys_of rest)) h
    ∙ none_of forbidden rest h

pub reject_smuggled-finding :
    (finding : SemanticFinding) → reject_smuggled_and_shard_keys (finding_members finding) ≡ ok tt
unfolding reject_smuggled_and_shard_keys walk_keys policy_smuggle_keys
reject_smuggled-finding finding = rw (walk_members-finding finding) refl

pub reject_smuggled-payload :
    (payload : SemanticFindingsPayload)
    → reject_smuggled_and_shard_keys (payload_members payload) ≡ ok tt
unfolding reject_smuggled_and_shard_keys walk_keys walk_members payload_members policy_smuggle_keys
reject_smuggled-payload payload = rw (walk_items-finding_items payload.findings) (
    rw (append-nil) (
      rw (none_of (λ key. member key policy_smuggle_keys) payload.findings refl)
        (rw (none_of (λ key. member key required_shard_ids) payload.findings refl) refl)))

pub reject_extra-span : (span : FindingSpan) → reject_extra (span_members span) span_keys ≡ ok tt
unfolding reject_extra keys span_members
reject_extra-span span = refl

pub reject_extra-finding :
    (finding : SemanticFinding) → reject_extra (finding_members finding) finding_keys ≡ ok tt
unfolding reject_extra keys finding_members
reject_extra-finding finding = refl

pub reject_extra-payload :
    (payload : SemanticFindingsPayload)
    → reject_extra (payload_members payload) payload_keys ≡ ok tt
unfolding reject_extra keys payload_members
reject_extra-payload payload = refl
