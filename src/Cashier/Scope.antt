-- ===== src/Cashier/Scope.antt =====
-- Step 5 of the pipeline in cashier/engine.py: the scoped resource "<owner>/<local>".
pub mod Laws
use Prim.Native.Char.{code}
use Prim.Native.String
use tanaka.Prelude.{
  ℕ, String, ◌==◌, Bool, true, false, ◌&&◌, ◌||◌, not, Option, none, some, ltb, eqb, if◌then◌else◌,
}
use tanaka.Prelude.Texts.{any_code, has_code}
use tanaka.Json.{Json, null, bool, int, float, str, arr, obj, get}

-- `resource.split("/", 1)`; `none` where the text has no "/"
unfoldable pub split_once : String → Option (String × String)
split_once String.[] = none
split_once (String.◌∷◌ c s) =
    if eqb (code c) b'/' then some (String.[], s) else elim (split_once s) [
      | none ↦ none
      | some (owner, local) ↦ some (String.◌∷◌ c owner, local)
    ]

-- `ord(ch) < 0x20 or ord(ch) == 0x7f`
abbrev pub is_control : ℕ → Bool
is_control c = ltb c 0x20 || eqb c 0x7f

unfoldable pub local_unsafe : String → Bool
local_unsafe local =
    local == "" || has_code b'/' local || has_code 92 local || local == "." || local == ".."

-- `order.args.get(scoped_key) if isinstance(order.args, dict) else None`
unfoldable pub resource_of : String → Json → Option Json
resource_of key (obj fields) = get key fields
resource_of key _ = none

unfoldable pub owned_by : String → String → Option (String × String) → Bool
owned_by principal resource none = false
owned_by principal resource (some (owner, local)) =
    not (any_code is_control resource)
    && not (owner == "" || not (owner == principal) || local_unsafe local)

-- The texts that pass are the scoped resources of `principal`.
unfoldable pub in_scope : String → Option Json → Option String
in_scope principal (some (str resource)) =
    if owned_by principal resource (split_once resource) then some resource else none
in_scope principal _ = none
