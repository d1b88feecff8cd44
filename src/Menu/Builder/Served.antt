-- ===== src/Menu/Builder/Served.antt =====
-- From the operator's form to the chef: what a built capability runs.
use tanaka.Prelude.{String, ◌==◌, ◌≡◌, refl, eq_iff, Bool, false, some, List, Bool-cases, inl, inr}
use tanaka.Json.{Json, obj, Fields, dict}
use tanaka.Json.Sort.{sort_keys}
use tanaka.Spine.{Capability, resolved_behavior}
use tanaka.Chef.Main.Handlers.{TextOps, output, handle, handle_template, safe_fields}
use tanaka.Menu.Templates.{Template}
use tanaka.Menu.Decode.{decode_capability}
use tanaka.Menu.Builder.{Form, built, build_descriptor}
use tanaka.Menu.Builder.RoundTrip.{
  Chosen, chosen_draft_reply, chosen_docs_summarize, chosen_payment_request, chosen_template,
  described, build_descriptor-decodes,
}

-- Whether a run of the behavior that a capability resolves to ends with an output.
abbrev pub Runs : TextOps → String → String → Capability → Type 0
Runs ops resource source_text c =
    (text : String) × (handle ops (resolved_behavior c) resource source_text c.behavior_config
      ≡ output text)

Chosen-runs :
    (ops : TextOps) (resource source_text behavior : String) (t : Template)
    (config : List (String × Json))
    → ops.strip "" ≡ ""
    → Chosen ops.strip behavior t config
    → (text : String) × (handle ops behavior resource source_text (dict config) ≡ output text)
unfolding handle handle_template
Chosen-runs ops resource source_text _ _ _ blank chosen_draft_reply = (_, refl)
Chosen-runs ops resource source_text _ _ _ blank chosen_docs_summarize = (_, refl)
Chosen-runs ops resource source_text _ _ _ blank chosen_payment_request = (_, refl)
Chosen-runs ops resource source_text _ _ _ blank (chosen_template message h) =
    elim (Bool-cases (message == "")) [
      | inl e ↦
          let empty : ops.strip message ≡ "" = rw ((eq_iff message "").0 e) blank in
          cc (rw empty at h)
      | inr e ↦
          let text = ops.safe_substitute message (safe_fields ops resource source_text) in
          (text, rw e refl)
    ]

Chosen-named :
    {strip : String → String} (behavior : String) {t : Template} {config : List (String × Json)}
    → Chosen strip behavior t config
    → (behavior == "") ≡ false
Chosen-named _ chosen_draft_reply = refl
Chosen-named _ chosen_docs_summarize = refl
Chosen-named _ chosen_payment_request = refl
Chosen-named _ (chosen_template message h) = refl

-- A capability that an operator composed without code can be run: if the builder takes a form, then the
-- descriptor, written with sorted keys and read back, is a capability whose behavior the chef
-- has, and every run of it on a resource ends with an output. Asked of `strip`: nothing is left of
-- the empty text.
pub build_descriptor-Runs :
    (ops : TextOps) (is_zero : String → Bool) (form : Form) (d : Fields)
    (resource source_text : String)
    → ops.strip "" ≡ ""
    → build_descriptor ops.strip is_zero form ≡ built d
    → (c : Capability) × (decode_capability (sort_keys (obj d)) ≡ some c)
      × Runs ops resource source_text c
unfolding resolved_behavior
build_descriptor-Runs ops is_zero form d resource source_text blank h =
    let (p, _, _, is_checked, e) = build_descriptor-decodes ops.strip is_zero form d h in
    (
      described p,
      e,
      rw (Chosen-named p.behavior is_checked.chosen) (
          Chosen-runs ops resource source_text p.behavior p.template p.config blank
            is_checked.chosen),
    )
