-- ===== src/Menu/Decode.antt =====
-- `Capability(**obj)` of menu/catalog.py, on the JSON of a file.
pub mod Laws
use tanaka.Prelude.{
  String, Bool, true, false, ◌&&◌, Option, none, some, List, [], ◌∷◌, elem, ℤ, if◌then◌else◌,
}
use tanaka.Json.{Json, null, bool, int, float, str, arr, obj, Fields, end, field, get, has_keys}
use tanaka.Spine.{Capability}

abbrev pub required_fields : List String
required_fields =
    "id" ∷ "name" ∷ "inputs" ∷ "outputs" ∷ "side_effects" ∷ "scope" ∷ "risk_class" ∷ []

abbrev pub all_fields : List String
all_fields =
    "id" ∷ "name" ∷ "inputs" ∷ "outputs" ∷ "side_effects" ∷ "scope" ∷ "risk_class" ∷ "description"
    ∷ "recommended_max_rate" ∷ "requires_second_admin" ∷ "requires_user_confirmation"
    ∷ "scoped_input" ∷ "behavior" ∷ "enabled" ∷ "behavior_config" ∷ []

-- Every key is a field of the dataclass.
unfoldable pub only_keys : List String → Fields → Bool
only_keys keys end = true
only_keys keys (field k v fs) = elem k keys && only_keys keys fs

infixl 5 ◌>>=◌
abbrev pub ◌>>=◌ : {A B : Type 0} → Option A → (A → Option B) → Option B
none >>= f = none
some a >>= f = f a

-- The value of a field in the type that the dataclass declares for it, with its default.
abbrev pub text_field : Option Json → Option String → Option String
text_field none default = default
text_field (some (str s)) default = some s
text_field _ default = none

abbrev pub flag_field : Option Json → Bool → Option Bool
flag_field none default = some default
flag_field (some (bool b)) default = some b
flag_field _ default = none

abbrev pub rate_field : Option Json → Option (Option ℤ)
rate_field none = some none
rate_field (some null) = some none
rate_field (some (int n)) = some (some n)
rate_field _ = none

abbrev pub behavior_field : Option Json → Option (Option String)
behavior_field none = some none
behavior_field (some null) = some none
behavior_field (some (str s)) = some (some s)
behavior_field _ = none

abbrev pub texts_of : Fields → Option (List (String × String))
texts_of end = some []
texts_of (field k (str s) fs) = elim (texts_of fs) [ none ↦ none | some d ↦ some ((k, s) ∷ d) ]
texts_of _ = none

abbrev pub texts_field : Option Json → Option (List (String × String))
texts_field (some (obj fs)) = texts_of fs
texts_field _ = none

abbrev pub config_field : Option Json → Option Fields
config_field none = some end
config_field (some (obj fs)) = some fs
config_field _ = none

-- All fields but `enabled`
unfoldable pub but_enabled : (String → Option Json) → Option Capability
but_enabled at = do
  id ← text_field (at "id") none
  name ← text_field (at "name") none
  inputs ← texts_field (at "inputs")
  outputs ← texts_field (at "outputs")
  side_effects ← text_field (at "side_effects") none
  scope ← text_field (at "scope") none
  risk_class ← text_field (at "risk_class") none
  description ← text_field (at "description") (some "")
  recommended_max_rate ← rate_field (at "recommended_max_rate")
  requires_second_admin ← flag_field (at "requires_second_admin") false
  requires_user_confirmation ← flag_field (at "requires_user_confirmation") false
  scoped_input ← text_field (at "scoped_input") (some "thread_id")
  behavior ← behavior_field (at "behavior")
  behavior_config ← config_field (at "behavior_config")
  some (record {
    id = id;
    name = name;
    inputs = inputs;
    outputs = outputs;
    side_effects = side_effects;
    scope = scope;
    risk_class = risk_class;
    description = description;
    recommended_max_rate = recommended_max_rate;
    requires_second_admin = requires_second_admin;
    requires_user_confirmation = requires_user_confirmation;
    scoped_input = scoped_input;
    behavior = behavior;
    enabled = true;
    behavior_config = behavior_config;
  })

abbrev pub enabled_as : Bool → Capability → Capability
enabled_as enabled c = record c { enabled = enabled }

unfoldable pub typed_capability : (String → Option Json) → Option Capability
unfolding but_enabled
typed_capability at = do
  c ← but_enabled at
  enabled ← flag_field (at "enabled") true
  some (enabled_as enabled c)

-- `none` is the `TypeError` of a missing or an unknown field, or of a value that is no object. The dataclass
-- does not check its values: a file whose values have other types than the declared ones is
-- outside the model, and `none` too.
unfoldable pub decode_capability : Json → Option Capability
unfolding only_keys typed_capability
decode_capability (obj fs) =
    if only_keys all_fields fs && has_keys required_fields fs
    then typed_capability (λ k. get k fs)
    else none
decode_capability _ = none
