-- ===== src/Json/Sort.antt =====
-- `sort_keys=True`: `json.dumps` writes the fields of every object in the order of their keys.
pub mod Laws
pub mod Lookup
use tanaka.Prelude.{String, Bool, if◌then◌else◌}
use tanaka.Prelude.Texts.{str_leb}
use tanaka.Json.Dict.{
  Json, null, bool, int, float, str, arr, obj, Items, nil, cons, Fields, end, field,
}

unfoldable pub insert_field : String → Json → Fields → Fields
insert_field k v end = field k v end
insert_field k v (field j w fs) =
    if str_leb k j then field k v (field j w fs) else field j w (insert_field k v fs)

unfoldable mutual
  unfolding insert_field

  pub sort_keys : Json → Json
  sort_keys null = null
  sort_keys (bool b) = bool b
  sort_keys (int n) = int n
  sort_keys (float x) = float x
  sort_keys (str s) = str s
  sort_keys (arr xs) = arr (sort_items xs)
  sort_keys (obj fs) = obj (sort_fields fs)

  pub sort_items : Items → Items
  sort_items nil = nil
  sort_items (cons x xs) = cons (sort_keys x) (sort_items xs)

  pub sort_fields : Fields → Fields
  sort_fields end = end
  sort_fields (field k v fs) = insert_field k (sort_keys v) (sort_fields fs)
