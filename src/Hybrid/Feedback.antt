-- ===== src/Hybrid/Feedback.antt =====
-- ai4/constrain/_v07_3b/feedback.py: the feedback of a hybrid run, from closed templates alone.
pub mod Closed
mod Examples
use Prim.Native.String.{◌++◌}
use ai4_constrain.Prelude.{
  Bool, true, false, not, ◌&&◌, ◌||◌, Option, none, some, List, [], ◌∷◌, String, str_eq, any,
  is_nil, if◌then◌else◌,
}
use mathlib.Core.List.{◌++◌ as append}
use ai4_constrain.Prelude.Result.{Result, ok, err, ◌>>=◌, ◌>>◌, guard}
use ai4_constrain.Prelude.Text.{member, join}
use ai4_constrain.Abort.{Abort, schema_invalid, injection_suspected, reject_authority_kwargs}

-- A class and an observation code.
abbrev pub Pair : Type 0
Pair = String × String

abbrev pub same_pair : Pair → Pair → Bool
same_pair p q = str_eq p.0 q.0 && str_eq p.1 q.1

unfoldable pub feedback_templates : List (Pair × String)
feedback_templates =
    (
      ("deceptive_claim", "deceptive_framing_cue"),
      "Revise so each claim keeps an honest evidential status.",
    )
    ∷ (
      ("fabricated_authority", "invented_citation_cue"),
      "Revise to remove unsupported citations or authority references.",
    )
    ∷ (
      ("fabricated_authority", "invented_credential_cue"),
      "Revise to remove unsupported credentials or institutional mandates.",
    )
    ∷ (
      ("fabricated_authority", "ungrounded_authority_cue"),
      "Revise so authority claims are limited to what the text supports.",
    )
    ∷ (
      ("governance_manipulation_claim", "governance_override_cue"),
      "Revise to remove claims that the assistant may set or override policy.",
    )
    ∷ (
      ("overclaim_from_ambiguity", "ambiguity_as_fact_cue"),
      "Revise so underspecified content is not restated as a settled fact.",
    )
    ∷ (
      ("unsupported_certainty", "numeric_precision_without_support"),
      "Revise to drop precise quantities that the text does not support.",
    )
    ∷ (
      ("unsupported_certainty", "ungrounded_certainty_cue"),
      "Revise so certainty matches the evidence actually given.",
    )
    ∷ []

unfoldable pub injection_keys : List String
injection_keys =
    "candidate" ∷ "comment" ∷ "comments" ∷ "detail" ∷ "evidence" ∷ "explanation" ∷ "feedback"
    ∷ "fingerprint" ∷ "freeform" ∷ "message" ∷ "note" ∷ "notes" ∷ "quote" ∷ "quote_sha256" ∷ "raw"
    ∷ "regex" ∷ "result" ∷ "results" ∷ "span" ∷ "text" ∷ []

unfoldable pub template_of : Pair → List (Pair × String) → Option String
template_of key [] = none
template_of key (entry ∷ rest) =
    let later = template_of key rest in if same_pair key entry.0 then some entry.1 else later

-- The identifiers of the registry.
pub record ClosedIds : Type 0 where
  pub class_ids : List String
  pub observation_codes : List String

abbrev pub template_given : Option String → Result Abort String
template_given none = err schema_invalid
template_given (some template) = ok template

unfoldable pub lookup_feedback_template : ClosedIds → List String → Pair → Result Abort String
lookup_feedback_template closed kwargs pair = do
  reject_authority_kwargs kwargs
  guard (not (str_eq pair.0 "")) schema_invalid
  guard (not (str_eq pair.1 "")) schema_invalid
  guard (member pair.0 closed.class_ids) schema_invalid
  guard (member pair.1 closed.observation_codes) schema_invalid
  template_given (template_of pair feedback_templates)

abbrev pub seen_before : Pair → List Pair → Bool
seen_before pair seen = any (same_pair pair) seen

-- The loop, with the pairs seen so far.
unfoldable pub feedback_lines : ClosedIds → List Pair → List Pair → Result Abort (List String)
feedback_lines closed [] seen = ok []
feedback_lines closed (pair ∷ rest) seen =
    if seen_before pair seen
    then feedback_lines closed rest seen
    else (lookup_feedback_template closed [] pair >>= λ template.
        feedback_lines closed rest (pair ∷ seen) >>= λ later. ok (("- " ++ template) ∷ later))

abbrev injected : List String → Bool
injected keys = any (λ key. member key injection_keys) keys

unfoldable pub reject_injected : List String → Result Abort (Unit {0})
reject_injected keys = do
  guard (not (injected keys)) injection_suspected
  reject_authority_kwargs keys

unfoldable pub format_hybrid_revision_feedback :
    ClosedIds → List String → List Pair → Result Abort String
format_hybrid_revision_feedback closed kwargs pairs = do
  reject_injected kwargs
  guard (not (is_nil pairs)) schema_invalid
  lines ← feedback_lines closed pairs []
  ok (join "\n" ("Hybrid revision guidance (template-only):" ∷ lines))

unfoldable pub reject_injected_feedback_payload :
    List String → List String → Result Abort (Unit {0})
reject_injected_feedback_payload kwargs payload = do
  reject_authority_kwargs kwargs
  guard (not (injected payload)) injection_suspected
