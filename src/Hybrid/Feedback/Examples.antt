-- ===== src/Hybrid/Feedback/Examples.antt =====
-- The feedback of a hybrid run: a run with a pair that comes twice, and the theorem at it.
use ai4_constrain.Prelude.{◌≡◌, refl, List, [], ◌∷◌}
use ai4_constrain.Prelude.Result.{ok, err, Returns}
use ai4_constrain.Prelude.Text.{join}
use ai4_constrain.Abort.{schema_invalid, injection_suspected, reject_authority_kwargs}
use ai4_constrain.Hybrid.Feedback.{
  Pair, ClosedIds, feedback_templates, injection_keys, template_of, lookup_feedback_template,
  feedback_lines, reject_injected, format_hybrid_revision_feedback,
}
use ai4_constrain.Hybrid.Feedback.Closed.{Guidance, format_hybrid_revision_feedback-Guidance}

abbrev closed : ClosedIds
closed = record {
  class_ids = "unsupported_certainty" ∷ "deceptive_claim" ∷ [];
  observation_codes = "ungrounded_certainty_cue" ∷ "deceptive_framing_cue" ∷ [];
}

abbrev certainty : Pair
certainty = ("unsupported_certainty", "ungrounded_certainty_cue")

abbrev deception : Pair
deception = ("deceptive_claim", "deceptive_framing_cue")

abbrev pairs : List Pair
pairs = certainty ∷ deception ∷ certainty ∷ []

feedback : Unit {0}
unfolding format_hybrid_revision_feedback reject_injected injection_keys reject_authority_kwargs
    feedback_lines lookup_feedback_template template_of feedback_templates join
feedback =
    let twice : format_hybrid_revision_feedback closed [] pairs
        ≡ ok (
            join "\n" (
              "Hybrid revision guidance (template-only):"
              ∷ "- Revise so certainty matches the evidence actually given."
              ∷ "- Revise so each claim keeps an honest evidential status." ∷ [])) =
      refl in
    let unknown : format_hybrid_revision_feedback closed []
          (("deceptive_claim", "ungrounded_certainty_cue") ∷ [])
        ≡ err schema_invalid =
      refl in
    let injected : format_hybrid_revision_feedback closed ("quote" ∷ []) pairs
        ≡ err injection_suspected =
      refl in
    tt

format_hybrid_revision_feedback-Guidance_example :
    Returns (Guidance closed pairs) (format_hybrid_revision_feedback closed [] pairs)
format_hybrid_revision_feedback-Guidance_example =
    format_hybrid_revision_feedback-Guidance closed [] pairs
