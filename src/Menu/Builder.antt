-- ===== src/Menu/Builder.antt =====
-- menu/builder.py: from a form to the descriptor of a capability.
pub mod RoundTrip
pub mod Served
use Prim.Native.Char.{code}
use Prim.Native.String
use tanaka.Prelude.{
  ℕ, suc, String, ◌==◌, Bool, true, false, ◌&&◌, ◌||◌, Option, none, some, List, [], ◌∷◌, leb, eqb,
  elem, pos, if◌then◌else◌,
}
use tanaka.Json.{Json, null, bool, int, float, str, arr, obj, Fields, dict}
use tanaka.Json.Truth.{truthy}
use tanaka.Menu.Templates.{Template, template}

-- What an operator sends: `null` where a field is `None`.
pub record Form : Type 0 where
  pub behavior : Json
  pub capability_id : Json
  pub name : Json
  pub description : Json
  pub risk_class : Json
  pub recommended_max_rate : Json
  pub requires_user_confirmation : Json
  pub requires_second_admin : Json
  pub enabled : Json
  pub template : Json

-- A value, a `CapabilityBuildError`, or an exception that is none.
pub data Built (A : Type 0) : Type 0 where
  built : A → Built A
  build_error raised : Built A

infixl 5 ◌>>=◌
abbrev pub ◌>>=◌ : {A B : Type 0} → Built A → (A → Built B) → Built B
built a >>= f = f a
build_error >>= f = build_error
raised >>= f = raised

-- `[a-z0-9]` and `[a-z0-9._-]`
abbrev is_id_start : ℕ → Bool
is_id_start c = (leb 97 c && leb c 122) || (leb 48 c && leb c 57)

abbrev is_id_char : ℕ → Bool
is_id_char c = is_id_start c || (eqb c 46 || eqb c 95 || eqb c 45)

-- `[a-z0-9._-]{2,80}$` after `n` of these characters: Python's `$` matches before a last newline too.
unfoldable pub id_rest : ℕ → String → Bool
id_rest n String.[] = leb 2 n && leb n 80
id_rest n (String.◌∷◌ c s) =
    let rest = id_rest (suc n) s in
    if is_id_char (code c) then rest else eqb (code c) 10 && s == "" && leb 2 n && leb n 80

-- `_ID_RE.match(text)`
unfoldable pub is_id : String → Bool
unfolding id_rest
is_id String.[] = false
is_id (String.◌∷◌ c s) = is_id_start (code c) && id_rest 0 s

-- A behavior that cannot be hashed is a `TypeError`.
unfoldable pub the_template : Json → Built (String × Template)
unfolding template
the_template (str behavior) = elim (template behavior) [
  | none ↦ build_error
  | some t ↦ built (behavior, t)
]
the_template (arr _) = raised
the_template (obj _) = raised
the_template _ = build_error

unfoldable pub the_id : Json → Built String
unfolding is_id
the_id (str id) = if is_id id then built id else build_error
the_id _ = build_error

-- A text that is not blank; `strip` is the method of `str`.
unfoldable pub filled_text : (String → String) → Json → Built String
filled_text strip (str s) = if strip s == "" then build_error else built s
filled_text strip _ = build_error

unfoldable pub the_risk : Template → Json → Built String
the_risk t null =
    if elem t.default_risk ("low" ∷ "medium" ∷ "high" ∷ [])
    then built t.default_risk
    else build_error
the_risk t (str risk) =
    if elem risk ("low" ∷ "medium" ∷ "high" ∷ []) then built risk else build_error
the_risk t _ = build_error

unfoldable pub the_rate : Template → Json → Built ℕ
the_rate t null = built t.default_recommended_max_rate
the_rate t (int (pos n)) = built n
the_rate t _ = build_error

-- `_flag`
unfoldable pub flag : (String → Bool) → Json → Bool → Bool
flag is_zero null default = default
flag is_zero value default = truthy is_zero value

unfoldable pub the_config : (String → String) → Template → Json → Built (List (String × Json))
unfolding filled_text
the_config strip t text =
    if t.needs_template
    then (do message ← filled_text strip text; built (("template", str message) ∷ []))
    else built []

-- A description that is no text has no `strip`.
unfoldable pub stripped : (String → String) → Json → Built String
stripped strip (str s) = built (strip s)
stripped strip _ = raised

unfoldable pub texts_json : List (String × String) → List (String × Json)
texts_json [] = []
texts_json ((k, v) ∷ d) = (k, str v) ∷ texts_json d

-- The parts of a descriptor that the checks of a form leave.
pub record Parts : Type 0 where
  pub id : String
  pub name : String
  pub behavior : String
  pub template : Template
  pub risk_class : String
  pub description : String
  pub rate : ℕ
  pub requires_user_confirmation : Bool
  pub requires_second_admin : Bool
  pub enabled : Bool
  pub config : List (String × Json)

unfoldable pub checked_parts : (String → String) → (String → Bool) → Form → Built Parts
unfolding the_template the_id filled_text the_risk the_rate flag the_config stripped
checked_parts strip is_zero form = do
  (behavior, t) ← the_template form.behavior
  id ← the_id form.capability_id
  name ← filled_text strip form.name
  risk ← the_risk t form.risk_class
  rate ← the_rate t form.recommended_max_rate
  config ← the_config strip t form.template
  description ← stripped strip form.description
  built (record {
    id = id;
    name = strip name;
    behavior = behavior;
    template = t;
    risk_class = risk;
    description = description;
    rate = rate;
    requires_user_confirmation =
        flag is_zero form.requires_user_confirmation t.default_requires_user_confirmation;
    requires_second_admin = flag is_zero form.requires_second_admin t.default_requires_second_admin;
    enabled = truthy is_zero form.enabled;
    config = config;
  })

unfoldable pub descriptor : Parts → Fields
unfolding texts_json
descriptor p = dict (
    ("id", str p.id)
    ∷ ("name", str p.name)
    ∷ ("behavior", str p.behavior)
    ∷ ("inputs", obj (dict (texts_json p.template.inputs)))
    ∷ ("outputs", obj (dict (texts_json p.template.outputs)))
    ∷ ("side_effects", str p.template.side_effects)
    ∷ ("scope", str "own_queue")
    ∷ ("scoped_input", str p.template.scoped_input)
    ∷ ("risk_class", str p.risk_class)
    ∷ ("description", str p.description)
    ∷ ("recommended_max_rate", int (pos p.rate))
    ∷ ("requires_user_confirmation", bool p.requires_user_confirmation)
    ∷ ("requires_second_admin", bool p.requires_second_admin)
    ∷ ("enabled", bool p.enabled)
    ∷ ("behavior_config", obj (dict p.config))
    ∷ [])

unfoldable pub build_descriptor : (String → String) → (String → Bool) → Form → Built Fields
unfolding checked_parts
build_descriptor strip is_zero form = do p ← checked_parts strip is_zero form; built (descriptor p)
