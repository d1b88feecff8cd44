-- ===== src/Menu/Builder/RoundTrip.antt =====
-- menu/builder.py: what the parts of a built descriptor are, and reading the descriptor back.
use tanaka.Prelude.{
  String, ◌==◌, ◌≡◌, refl, subst, eq_iff, Bool, true, false, Option, some, List, [], ◌∷◌, pos,
  Bool-cases, Option-cases, inl, inr,
}
use tanaka.Json.{Json, null, bool, int, float, str, arr, obj, Fields, dict}
use tanaka.Json.Sort.{sort_keys, insert_field}
use tanaka.Spine.{Capability}
use tanaka.Menu.Templates.{
  Template, template, draft_reply_block, docs_summarize_block, payment_request_block,
  template_block,
}
use tanaka.Menu.Decode.{decode_capability, typed_capability, but_enabled, only_keys}
use tanaka.Menu.Builder.{
  Form, Built, built, build_error, raised, ◌>>=◌, the_template, the_id, filled_text, the_risk,
  the_rate, the_config, stripped, texts_json, Parts, checked_parts, descriptor, build_descriptor,
}

-- The capability that the parts describe.
abbrev pub described : Parts → Capability
described p = record {
  id = p.id;
  name = p.name;
  inputs = p.template.inputs;
  outputs = p.template.outputs;
  side_effects = p.template.side_effects;
  scope = "own_queue";
  risk_class = p.risk_class;
  description = p.description;
  recommended_max_rate = some (pos p.rate);
  requires_second_admin = p.requires_second_admin;
  requires_user_confirmation = p.requires_user_confirmation;
  scoped_input = p.template.scoped_input;
  behavior = some p.behavior;
  enabled = p.enabled;
  behavior_config = dict p.config;
}

-- A behavior, its template and the config that a form gives with it.
pub data Chosen (strip : String → String) : String → Template → List (String × Json) → Type 0 where
  chosen_draft_reply : Chosen strip "draft_reply" draft_reply_block []
  chosen_docs_summarize : Chosen strip "docs_summarize" docs_summarize_block []
  chosen_payment_request : Chosen strip "payment_request" payment_request_block []
  chosen_template :
      (message : String)
      → (strip message == "") ≡ false
      → Chosen strip "template" template_block (("template", str message) ∷ [])

-- Whatever else the form says, the descriptor is read back as the capability.
pub decoded_descriptor :
    (strip : String → String) (p : Parts)
    → Chosen strip p.behavior p.template p.config
    → decode_capability (sort_keys (obj (descriptor p))) ≡ some (described p)
unfolding decode_capability typed_capability but_enabled only_keys sort_keys insert_field descriptor
    texts_json
decoded_descriptor strip p chosen =
    go p.id p.name p.behavior p.template p.risk_class p.description chosen
  where
    go :
        (id name behavior : String) (t : Template) (risk_class description : String)
        {config : List (String × Json)}
        → Chosen strip behavior t config
        → (let q = record p {
          id = id;
          name = name;
          behavior = behavior;
          template = t;
          risk_class = risk_class;
          description = description;
          config = config;
        } in
            decode_capability (sort_keys (obj (descriptor q))) ≡ some (described q))
    go id name _ _ risk_class description chosen_draft_reply = refl
    go id name _ _ risk_class description chosen_docs_summarize = refl
    go id name _ _ risk_class description chosen_payment_request = refl
    go id name _ _ risk_class description (chosen_template message h) = refl

-- A chain goes on only where its first part gave a value.
built-bind :
    {A B : Type 0} (x : Built A) (f : A → Built B) (b : B)
    → (x >>= f) ≡ built b
    → (a : A) × (x ≡ built a) × (f a ≡ built b)
built-bind (built a) f b h = (a, refl, h)
built-bind build_error f b h = cc h
built-bind raised f b h = cc h

-- The four behaviors that have a template.
data Known : String → Template → Type 0 where
  known_draft_reply : Known "draft_reply" draft_reply_block
  known_docs_summarize : Known "docs_summarize" docs_summarize_block
  known_payment_request : Known "payment_request" payment_request_block
  known_template : Known "template" template_block

template-Known : (behavior : String) (t : Template) → template behavior ≡ some t → Known behavior t
unfolding template
template-Known behavior t h = elim (Bool-cases ("draft_reply" == behavior)) [
  | inl e ↦ at "draft_reply" draft_reply_block known_draft_reply e (rw (e, template) at h)
  | inr a ↦ elim (Bool-cases ("docs_summarize" == behavior)) [
    | inl e ↦
        at "docs_summarize" docs_summarize_block known_docs_summarize e (rw (a, template, e) at h)
    | inr b ↦ elim (Bool-cases ("payment_request" == behavior)) [
      | inl e ↦
          at "payment_request" payment_request_block known_payment_request e
            (rw (a, template, b, e) at h)
      | inr c ↦ elim (Bool-cases ("template" == behavior)) [
        | inl e ↦ at "template" template_block known_template e (rw (a, template, b, c, e) at h)
        | inr d ↦ cc (rw (a, template, b, c, d) at h)
      ]
    ]
  ]
]
  where
    at :
        (name : String) (u : Template)
        → Known name u
        → (name == behavior) ≡ true
        → Path (Option Template) (some u) (some t)
        → Known behavior t
    at name u known e f =
        let both : (name, u) ≡ (behavior, t) = cc ((eq_iff name behavior).0 e, f) in
        subst (λ (p : String × Template). Known p.0 p.1) both known

the_template-Known :
    (v : Json) (behavior : String) (t : Template)
    → the_template v ≡ built (behavior, t)
    → Known behavior t
unfolding the_template
the_template-Known (str s) behavior t h = elim (Option-cases (template s)) [
  | inl e ↦ cc (rw (e, the_template) at h)
  | inr (u, e) ↦
      let same : (s, u) ≡ (behavior, t) = cc (rw (e, the_template) at h) in
      subst (λ (p : String × Template). Known p.0 p.1) same (template-Known s u e)
]
the_template-Known null behavior t h = cc h
the_template-Known (bool _) behavior t h = cc h
the_template-Known (int _) behavior t h = cc h
the_template-Known (float _) behavior t h = cc h
the_template-Known (arr _) behavior t h = cc h
the_template-Known (obj _) behavior t h = cc h

filled_text-some :
    (strip : String → String) (v : Json) (s : String)
    → filled_text strip v ≡ built s
    → (strip s == "") ≡ false
unfolding filled_text
filled_text-some strip (str r) s h = elim (Bool-cases (strip r == "")) [
  | inl e ↦ cc (rw (e, filled_text) at h)
  | inr e ↦ let same : r ≡ s = cc (rw (e, filled_text) at h) in rw (← same) e
]
filled_text-some strip null s h = cc h
filled_text-some strip (bool _) s h = cc h
filled_text-some strip (int _) s h = cc h
filled_text-some strip (float _) s h = cc h
filled_text-some strip (arr _) s h = cc h
filled_text-some strip (obj _) s h = cc h

config-Chosen :
    (strip : String → String) (behavior : String) (t : Template) (v : Json)
    (config : List (String × Json))
    → Known behavior t
    → the_config strip t v ≡ built config
    → Chosen strip behavior t config
unfolding the_config
config-Chosen strip _ _ v config known_draft_reply h =
    let none_given : [] ≡ config = cc h in
    subst (λ c. Chosen strip "draft_reply" draft_reply_block c) none_given chosen_draft_reply
config-Chosen strip _ _ v config known_docs_summarize h =
    let none_given : [] ≡ config = cc h in
    subst (λ c. Chosen strip "docs_summarize" docs_summarize_block c) none_given
      chosen_docs_summarize
config-Chosen strip _ _ v config known_payment_request h =
    let none_given : [] ≡ config = cc h in
    subst (λ c. Chosen strip "payment_request" payment_request_block c) none_given
      chosen_payment_request
config-Chosen strip _ _ v config known_template h =
    let (message, e, f) =
      built-bind (filled_text strip v) (λ m. built (("template", str m) ∷ [])) config h in
    let given : ("template", str message) ∷ [] ≡ config = cc f in
    subst (λ c. Chosen strip "template" template_block c) given
      (chosen_template message (filled_text-some strip v message e))

built_inj : {A : Type 0} {a b : A} → built a ≡ built b → a ≡ b
built_inj h = cc h

-- What the checks of a form leave.
pub record IsChecked (strip : String → String) (form : Form) (p : Parts) : Type 0 where
  pub chosen : Chosen strip p.behavior p.template p.config
  pub id : the_id form.capability_id ≡ built p.id
  pub risk : the_risk p.template form.risk_class ≡ built p.risk_class

pub checked_parts-IsChecked :
    (strip : String → String) (is_zero : String → Bool) (form : Form) (p : Parts)
    → checked_parts strip is_zero form ≡ built p
    → IsChecked strip form p
unfolding checked_parts
checked_parts-IsChecked strip is_zero form p h =
    let ((behavior, t), e1, h1) = built-bind (the_template form.behavior) _ p h in
    let (id, e2, h2) = built-bind (the_id form.capability_id) _ p h1 in
    let (name, e3, h3) = built-bind (filled_text strip form.name) _ p h2 in
    let (risk, e4, h4) = built-bind (the_risk t form.risk_class) _ p h3 in
    let (rate, e5, h5) = built-bind (the_rate t form.recommended_max_rate) _ p h4 in
    let (config, e6, h6) = built-bind (the_config strip t form.template) _ p h5 in
    let (description, e7, h7) = built-bind (stripped strip form.description) _ p h6 in
    subst (λ q. IsChecked strip form q) (built_inj h7)
      (record {
        chosen =
            config-Chosen strip behavior t form.template config
              (the_template-Known form.behavior behavior t e1) e6;
        id = e2;
        risk = e4;
      })

-- A form that the builder takes gives the descriptor of parts with a known behavior, and that descriptor,
-- written with sorted keys, is read back as the capability that the parts describe.
pub build_descriptor-decodes :
    (strip : String → String) (is_zero : String → Bool) (form : Form) (d : Fields)
    → build_descriptor strip is_zero form ≡ built d
    → (p : Parts) × (checked_parts strip is_zero form ≡ built p)
      × (descriptor p ≡ d)
      × IsChecked strip form p
      × (decode_capability (sort_keys (obj d)) ≡ some (described p))
unfolding build_descriptor
build_descriptor-decodes strip is_zero form d h =
    let (p, e, f) = built-bind (checked_parts strip is_zero form) _ d h in
    let is_checked = checked_parts-IsChecked strip is_zero form p e in
    (
      p,
      e,
      built_inj f,
      is_checked,
      rw (← built_inj f) (decoded_descriptor strip p is_checked.chosen),
    )
