-- ===== src/Json/Dict.antt =====
-- The values, and the operations of Python's dict on an object's fields.
use tanaka.Prelude.{
  String, ◌≡◌, ap, eq_iff, Bool, true, false, ◌&&◌, ◌||◌, Option, none, some, List, [], ◌∷◌, ◌==◌,
  elem, if◌then◌else◌, ℤ,
}

-- A float is held by its literal text: the program computes with none of them.
mutual
  pub data Json : Type 0 where
    null : Json
    bool : Bool → Json
    int : ℤ → Json
    float : String → Json
    str : String → Json
    arr : Items → Json
    obj : Fields → Json

  pub data Items : Type 0 where
    nil : Items
    cons : Json → Items → Items

  pub data Fields : Type 0 where
    end : Fields
    field : String → Json → Fields → Fields

-- `{"k": v, …}`
abbrev pub dict : List (String × Json) → Fields
dict [] = end
dict ((k, v) ∷ d) = field k v (dict d)

-- `d.get(k)`
abbrev pub get : String → Fields → Option Json
get k end = none
get k (field j v fs) = if j == k then some v else get k fs

-- `d[k] = v`
abbrev pub set : String → Json → Fields → Fields
set k v end = field k v end
set k v (field j w fs) = if j == k then field j v fs else field j w (set k v fs)

-- `k in d`
abbrev pub has_key : String → Fields → Bool
has_key k end = false
has_key k (field j v fs) = j == k || has_key k fs

-- `len(d)`, and the texts among `d.values()`
abbrev pub has_keys : List String → Fields → Bool
has_keys [] fs = true
has_keys (k ∷ ks) fs = has_key k fs && has_keys ks fs

-- `{k: v for k, v in d.items() if k not in keys}`
abbrev pub without : List String → Fields → Fields
without ks end = end
without ks (field k v fs) = if elem k ks then without ks fs else field k v (without ks fs)

-- `v == text`, for what `d.get` returned
abbrev pub is_text : Option Json → String → Bool
is_text (some (str s)) t = s == t
is_text _ t = false

-- `x if x is not None else null`, as `json.dumps` writes an optional text
abbrev pub opt_text : Option String → Json
opt_text none = null
opt_text (some s) = str s

abbrev pub opt_json : Option Json → Json
opt_json none = null
opt_json (some j) = j

pub is_text-eq : (v : Option Json) (t : String) → is_text v t ≡ true → v ≡ some (str t)
is_text-eq (some (str s)) t h = ap (λ x. some (str x)) ((eq_iff s t).0 h)
is_text-eq none t h = cc
is_text-eq (some null) t h = cc
is_text-eq (some (bool _)) t h = cc
is_text-eq (some (int _)) t h = cc
is_text-eq (some (float _)) t h = cc
is_text-eq (some (arr _)) t h = cc
is_text-eq (some (obj _)) t h = cc
