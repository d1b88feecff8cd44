-- ===== src/Menu/Decode/Laws.antt =====
-- menu/catalog.py: a capability read from a file whose keys were sorted, or whose `enabled` was changed.
use tanaka.Prelude.{
  String, ◌==◌, ◌≡◌, refl, sym, ap, ◌∙◌, eq_iff, Bool, true, ◌&&◌, Option, none, some, List, [],
  ◌∷◌, elem, arith, Option-cases, Bool-cases, &&-eq-true, inl, inr, if◌then◌else◌,
}
use tanaka.Json.{Json, bool, obj, Fields, end, field, get, set, has_key, has_keys}
use tanaka.Json.Sort.{sort_keys, sort_fields, insert_field}
use tanaka.Json.Sort.Lookup.{get-sort_fields, has_key-sort_fields, get-set, has_key-set}
use tanaka.Spine.{Capability}
use tanaka.Menu.Decode.{
  required_fields, all_fields, only_keys, but_enabled, enabled_as, flag_field, typed_capability,
  decode_capability,
}

only_keys-insert_field :
    (keys : List String) (k : String) (v : Json) (fs : Fields)
    → only_keys keys (insert_field k v fs) ≡ (elem k keys && only_keys keys fs)
unfolding only_keys insert_field
only_keys-insert_field keys k v end = refl
only_keys-insert_field keys k v (field j w fs) = ground (arith, only_keys-insert_field keys k v fs)

pub only_keys-sort_fields :
    (keys : List String) (fs : Fields) → only_keys keys (sort_fields fs) ≡ only_keys keys fs
unfolding only_keys sort_fields
only_keys-sort_fields keys end = refl
only_keys-sort_fields keys (field k v fs) =
    only_keys-insert_field keys k (sort_keys v) (sort_fields fs)
    ∙ ap (λ (b : Bool). elem k keys && b) (only_keys-sort_fields keys fs)

only_keys-set :
    (keys : List String) (k : String) (v : Json) (fs : Fields)
    → elem k keys ≡ true
    → only_keys keys (set k v fs) ≡ only_keys keys fs
unfolding only_keys
only_keys-set keys k v end h = rw h refl
only_keys-set keys k v (field j w fs) h = ground (arith, h, only_keys-set keys k v fs h, eq_iff j k)

pub has_keys-sort_fields :
    (keys : List String) (fs : Fields) → has_keys keys (sort_fields fs) ≡ has_keys keys fs
has_keys-sort_fields [] fs = refl
has_keys-sort_fields (k ∷ keys) fs =
    rw (has_key-sort_fields k fs, has_keys-sort_fields keys fs) refl

has_keys-set :
    (keys : List String) (k : String) (v : Json) (fs : Fields)
    → has_keys keys fs ≡ true
    → has_keys keys (set k v fs) ≡ true
has_keys-set [] k v fs h = refl
has_keys-set (j ∷ keys) k v fs h =
    let (here, later) = &&-eq-true (has_key j fs) (has_keys keys fs) h in
    rw (has_key-set j k v fs, here, has_keys-set keys k v fs later) (ground arith)

-- What the fields of a sorted object hold, after `enabled` was set.
get_enabled :
    (enabled : Bool) (fs : Fields)
    → sort_fields fs ≡ fs
    → Path
        (String → Option Json)
        (λ k. get k (sort_fields (set "enabled" (bool enabled) fs)))
        (λ k. if "enabled" == k then some (bool enabled) else get k fs)
unfolding sort_keys
get_enabled enabled fs h = λ i k. at k i
  where
    at :
        (k : String)
        → get k (sort_fields (set "enabled" (bool enabled) fs))
          ≡ (if "enabled" == k then some (bool enabled) else get k fs)
    at k = elim (Bool-cases ("enabled" == k)) [
      | inl e ↦
          get-sort_fields k (set "enabled" (bool enabled) fs)
          ∙ rw (get-set k "enabled" (bool enabled) fs, e) refl
      | inr e ↦
          get-sort_fields k (set "enabled" (bool enabled) fs)
          ∙ rw (get-set k "enabled" (bool enabled) fs, e)
              (sym (get-sort_fields k fs) ∙ ap (λ gs. get k gs) h)
    ]

but_enabled_same :
    (enabled : Bool) (at : String → Option Json)
    → but_enabled (λ (k : String). if "enabled" == k then some (bool enabled) else at k)
      ≡ but_enabled at
unfolding but_enabled
but_enabled_same enabled at = refl

re_enabled : Bool → Option Capability → Option Capability
re_enabled enabled none = none
re_enabled enabled (some c) = some (enabled_as enabled c)

typed_enabled :
    (enabled : Bool) (at : String → Option Json) (c : Capability)
    → typed_capability at ≡ some c
    → typed_capability (λ (k : String). if "enabled" == k then some (bool enabled) else at k)
      ≡ some (enabled_as enabled c)
unfolding typed_capability re_enabled
typed_enabled enabled at c h = elim (Option-cases (but_enabled at)) [
  | inl e ↦ cc (rw (e, typed_capability) at h)
  | inr (made, e) ↦ elim (Option-cases (flag_field (at "enabled") true)) [
    | inl f ↦ cc (rw (e, typed_capability, f) at h)
    | inr (before, f) ↦
        let g : some (enabled_as before made) ≡ some c = rw (e, typed_capability, f) at h in
        rw (but_enabled_same enabled at, e) (ap (re_enabled enabled) g)
  ]
]

-- A capability's file, with its `enabled` changed and its keys sorted again, is read as the same
-- capability with that `enabled`.
pub decode_enabled :
    (enabled : Bool) (fs : Fields) (c : Capability)
    → sort_fields fs ≡ fs
    → decode_capability (obj fs) ≡ some c
    → decode_capability (obj (sort_fields (set "enabled" (bool enabled) fs)))
      ≡ some (enabled_as enabled c)
unfolding decode_capability
decode_enabled enabled fs c sorted h =
    let changed = set "enabled" (bool enabled) fs in
    elim (Bool-cases (only_keys all_fields fs && has_keys required_fields fs)) [
      | inr e ↦ cc (rw (e, decode_capability) at h)
      | inl e ↦
          let (known, present) =
            &&-eq-true (only_keys all_fields fs) (has_keys required_fields fs) e in
          let known' : only_keys all_fields (sort_fields changed) ≡ true =
            only_keys-sort_fields all_fields changed
            ∙ only_keys-set all_fields "enabled" (bool enabled) fs refl
            ∙ known in
          let present' : has_keys required_fields (sort_fields changed) ≡ true =
            has_keys-sort_fields required_fields changed
            ∙ has_keys-set required_fields "enabled" (bool enabled) fs present in
          rw (known', present')
            (ap typed_capability (get_enabled enabled fs sorted)
              ∙ typed_enabled enabled (λ k. get k fs) c (rw (e, decode_capability) at h))
    ]
