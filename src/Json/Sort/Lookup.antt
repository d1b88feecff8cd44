-- ===== src/Json/Sort/Lookup.antt =====
-- Lookups in sorted, filtered and changed fields.
use tanaka.Prelude.{
  String, ◌≡◌, refl, ap, ◌∙◌, Bool, false, ◌||◌, Option, none, some, List, elem, ◌==◌, eq_iff,
  arith, if◌then◌else◌,
}
use tanaka.Prelude.Texts.{str_leb_refl}
use tanaka.Json.Dict.{Json, Fields, end, field, get, set, has_key, without}
use tanaka.Json.Sort.{sort_keys, sort_fields, insert_field}

abbrev pub sorted_value : Option Json → Option Json
sorted_value none = none
sorted_value (some v) = some (sort_keys v)

get-insert_field :
    (i k : String) (v : Json) (fs : Fields)
    → get i (insert_field k v fs) ≡ (if k == i then some v else get i fs)
unfolding insert_field
get-insert_field i k v end = refl
get-insert_field i k v (field j w fs) =
    ground (arith, get-insert_field i k v fs, eq_iff k i, eq_iff j i, eq_iff k j, str_leb_refl k)

-- Sorting the keys moves no value to another key.
pub get-sort_fields : (k : String) (fs : Fields) → get k (sort_fields fs) ≡ sorted_value (get k fs)
unfolding sort_fields
get-sort_fields k end = refl
get-sort_fields k (field j v fs) =
    rw (get-insert_field k j (sort_keys v) (sort_fields fs), get-sort_fields k fs) (ground arith)

-- A key that is not taken out keeps its value.
pub get-without :
    (k : String) (ks : List String) (fs : Fields)
    → elem k ks ≡ false
    → get k (without ks fs) ≡ get k fs
get-without k ks end h = refl
get-without k ks (field j v fs) h = ground (arith, get-without k ks fs h, eq_iff j k)

has_key-insert_field :
    (i k : String) (v : Json) (fs : Fields)
    → has_key i (insert_field k v fs) ≡ (k == i || has_key i fs)
unfolding insert_field
has_key-insert_field i k v end = refl
has_key-insert_field i k v (field j w fs) = ground (arith, has_key-insert_field i k v fs)

pub has_key-sort_fields : (k : String) (fs : Fields) → has_key k (sort_fields fs) ≡ has_key k fs
unfolding sort_fields
has_key-sort_fields k end = refl
has_key-sort_fields k (field j v fs) =
    has_key-insert_field k j (sort_keys v) (sort_fields fs)
    ∙ ap (λ (b : Bool). j == k || b) (has_key-sort_fields k fs)

pub get-set :
    (i k : String) (v : Json) (fs : Fields)
    → get i (set k v fs) ≡ (if k == i then some v else get i fs)
get-set i k v end = refl
get-set i k v (field j w fs) = ground (arith, get-set i k v fs, eq_iff k i, eq_iff j i, eq_iff j k)

pub has_key-set :
    (i k : String) (v : Json) (fs : Fields) → has_key i (set k v fs) ≡ (k == i || has_key i fs)
has_key-set i k v end = refl
has_key-set i k v (field j w fs) =
    ground (arith, has_key-set i k v fs, eq_iff k i, eq_iff j i, eq_iff j k)
