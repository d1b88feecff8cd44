-- ===== src/Json/Sort/Laws.antt =====
-- Laws of the sorting of keys.
use tanaka.Prelude.{String, ◌≡◌, refl, ap, true, inl, inr, arith, Bool-cases}
use tanaka.Prelude.Texts.{str_leb, str_leb_total}
use tanaka.Json.Dict.{
  Json, null, bool, int, float, str, arr, obj, Items, nil, cons, Fields, end, field,
}
use tanaka.Json.Sort.{insert_field, sort_keys, sort_items, sort_fields}

-- The keys stand in order, and every value is sorted already.
abbrev StartsAfter : String → Fields → Type 0
StartsAfter k end = Unit
StartsAfter k (field j v fs) = str_leb k j ≡ true

abbrev IsSorted : Fields → Type 0
IsSorted end = Unit
IsSorted (field k v fs) = StartsAfter k fs × (sort_keys v ≡ v) × IsSorted fs

StartsAfter-insert_field :
    (i k : String) (v : Json) (fs : Fields)
    → str_leb i k ≡ true
    → StartsAfter i fs
    → StartsAfter i (insert_field k v fs)
unfolding insert_field
StartsAfter-insert_field i k v end h s = h
StartsAfter-insert_field i k v (field j w fs) h s = ground arith

insert_field-IsSorted :
    (k : String) (v : Json) (fs : Fields)
    → sort_keys v ≡ v
    → IsSorted fs
    → IsSorted (insert_field k v fs)
unfolding insert_field
insert_field-IsSorted k v end e s = (tt, e, tt)
insert_field-IsSorted k v (field j w fs) e (after, f, rest) = elim (Bool-cases (str_leb k j)) [
  | inl p ↦ rw p (p, e, (after, f, rest))
  | inr q ↦ rw q (
    StartsAfter-insert_field j k v fs (str_leb_total k j q) after,
    f,
    insert_field-IsSorted k v fs e rest,
  )
]

insert_field_first :
    (k : String) (v : Json) (fs : Fields) → StartsAfter k fs → insert_field k v fs ≡ field k v fs
unfolding insert_field
insert_field_first k v end s = refl
insert_field_first k v (field j w fs) s = rw s

pub sort_fields_of_IsSorted : (fs : Fields) → IsSorted fs → sort_fields fs ≡ fs
unfolding sort_fields
sort_fields_of_IsSorted end s = refl
sort_fields_of_IsSorted (field k v fs) (after, e, rest) =
    rw (e, sort_fields_of_IsSorted fs rest) (insert_field_first k v fs after)

mutual
  unfolding sort_keys

  pub sort_keys_idem : (j : Json) → sort_keys (sort_keys j) ≡ sort_keys j
  sort_keys_idem null = refl
  sort_keys_idem (bool b) = refl
  sort_keys_idem (int n) = refl
  sort_keys_idem (float x) = refl
  sort_keys_idem (str s) = refl
  sort_keys_idem (arr xs) = ap arr (sort_items_idem xs)
  sort_keys_idem (obj fs) =
      ap obj (sort_fields_of_IsSorted (sort_fields fs) (sort_fields-IsSorted fs))

  sort_items_idem : (xs : Items) → sort_items (sort_items xs) ≡ sort_items xs
  sort_items_idem nil = refl
  sort_items_idem (cons x xs) = λ i. cons (sort_keys_idem x i) (sort_items_idem xs i)

  sort_fields-IsSorted : (fs : Fields) → IsSorted (sort_fields fs)
  sort_fields-IsSorted end = tt
  sort_fields-IsSorted (field k v fs) =
      insert_field-IsSorted k (sort_keys v) (sort_fields fs) (sort_keys_idem v)
        (sort_fields-IsSorted fs)
