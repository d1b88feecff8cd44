-- ===== src/Menu/Catalog/Shown.antt =====
-- menu/catalog.py: what the menu shows, of the shipped capabilities and the operator's own.
use tanaka.Prelude.{
  String, ◌==◌, ◌≡◌, refl, ap, ◌∙◌, ◌⊎◌, eq_iff, Bool, true, false, Option, none, some, [], ◌∷◌,
  lookup, insert, lookup-insert, arith, Bool-cases, inl, inr, if◌then◌else◌,
}
use tanaka.Prelude.Texts.{ends_with}
use tanaka.Spine.{Capability}
use tanaka.Cashier.Engine.{Menu}
use tanaka.Menu.Catalog.{
  Files, Result, ok, value_error, raised, load_file, load_files, load_dir, sort_files, update,
  only_enabled, merged, load_catalog,
}
use tanaka.Menu.Catalog.Directory.{or_before}

-- No id has two entries.
abbrev NoDup : Menu → Type 0
NoDup [] = Unit
NoDup ((id, c) ∷ menu) = (lookup id menu ≡ none) × NoDup menu

insert-NoDup : (id : String) (c : Capability) (menu : Menu) → NoDup menu → NoDup (insert id c menu)
insert-NoDup id c [] h = (refl, tt)
insert-NoDup id c ((j, d) ∷ menu) h = elim (Bool-cases (j == id)) [
  | inl same ↦ rw same (rw ((eq_iff j id).0 same) at h.0, h.1)
  | inr other ↦ rw other (
    lookup-insert id j c menu ∙ ground (arith, other, h.0, eq_iff id j, eq_iff j id),
    insert-NoDup id c menu h.1,
  )
]

Result-cases :
    {A : Type 0} (r : Result A) → ((a : A) × (r ≡ ok a)) ⊎ ((r ≡ value_error) ⊎ (r ≡ raised))
Result-cases (ok a) = inl (a, refl)
Result-cases value_error = inr (inl refl)
Result-cases raised = inr (inr refl)

load_files-NoDup :
    (files : Files) (catalog loaded : Menu)
    → NoDup catalog
    → load_files files catalog ≡ ok loaded
    → NoDup loaded
unfolding load_files
load_files-NoDup [] catalog loaded h e = let same : catalog ≡ loaded = cc e in rw (← same) h
load_files-NoDup ((n, content) ∷ files) catalog loaded h e =
    elim (Bool-cases (ends_with ".json" n)) [
      | inr other ↦ load_files-NoDup files catalog loaded h (rw (other, load_files) at e)
      | inl json ↦ elim (Result-cases (load_file content)) [
        | inl (c, f) ↦
            load_files-NoDup files (insert c.id c catalog) loaded (insert-NoDup c.id c catalog h)
              (rw (json, load_files, f) at e)
        | inr (inl f) ↦ cc (rw (json, load_files, f) at e)
        | inr (inr f) ↦ cc (rw (json, load_files, f) at e)
      ]
    ]

update-NoDup : (more catalog : Menu) → NoDup catalog → NoDup (update more catalog)
unfolding update
update-NoDup [] catalog h = h
update-NoDup ((id, c) ∷ more) catalog h =
    update-NoDup more (insert id c catalog) (insert-NoDup id c catalog h)

lookup-update :
    (id : String) (more catalog : Menu)
    → NoDup more
    → lookup id (update more catalog) ≡ or_before (lookup id more) (lookup id catalog)
unfolding update
lookup-update id [] catalog h = refl
lookup-update id ((j, c) ∷ more) catalog h =
    lookup-update id more (insert j c catalog) h.1 ∙ elim (Bool-cases (j == id)) [
      | inl same ↦
          let missing : lookup id more ≡ none = rw ((eq_iff j id).0 same) at h.0 in
          rw (lookup-insert j id c catalog, same, missing) refl
      | inr other ↦ rw (lookup-insert j id c catalog, other) refl
    ]

-- What is left of an entry when the disabled ones are hidden.
abbrev pub if_enabled : Option Capability → Option Capability
if_enabled none = none
if_enabled (some c) = if c.enabled then some c else none

lookup-only_enabled :
    (id : String) (menu : Menu)
    → NoDup menu
    → lookup id (only_enabled menu) ≡ if_enabled (lookup id menu)
unfolding only_enabled
lookup-only_enabled id [] h = refl
lookup-only_enabled id ((j, c) ∷ menu) h =
    let later = lookup-only_enabled id menu h.1 in
    elim (Bool-cases (j == id)) [
      | inl same ↦
          let missing : lookup id menu ≡ none = rw ((eq_iff j id).0 same) at h.0 in
          elim (Bool-cases c.enabled) [
            | inl on ↦ rw (on, same) refl
            | inr off ↦ rw (off, same) (later ∙ ap if_enabled missing)
          ]
      | inr other ↦ elim (Bool-cases c.enabled) [
        | inl on ↦ rw (on, other) later
        | inr off ↦ rw (off, other) later
      ]
    ]

-- Whether the disabled ones are shown
abbrev pub visible : Bool → Option Capability → Option Capability
visible true found = found
visible false found = if_enabled found

lookup-merged :
    (include_disabled : Bool) (shipped own : Menu) (id : String)
    → NoDup shipped
    → NoDup own
    → lookup id (merged include_disabled shipped own)
      ≡ visible include_disabled (or_before (lookup id shipped) (lookup id own))
unfolding merged
lookup-merged include_disabled shipped own id h k =
    let alone : lookup id (update own []) ≡ lookup id own =
      lookup-update id own [] k ∙ or_none (lookup id own) in
    let both : lookup id (update shipped (update own []))
        ≡ or_before (lookup id shipped) (lookup id own) =
      lookup-update id shipped (update own []) h ∙ ap (or_before (lookup id shipped)) alone in
    let kept = update-NoDup shipped (update own []) (update-NoDup own [] tt) in
    go include_disabled both kept
  where
    or_none : (o : Option Capability) → or_before o none ≡ o
    or_none none = refl
    or_none (some c) = refl

    go :
        (b : Bool)
        → lookup id (update shipped (update own [])) ≡ or_before (lookup id shipped) (lookup id own)
        → NoDup (update shipped (update own []))
        → lookup id (merged b shipped own)
          ≡ visible b (or_before (lookup id shipped) (lookup id own))
    go true both kept = both
    go false both kept =
        lookup-only_enabled id (update shipped (update own [])) kept ∙ ap if_enabled both

-- Over files that load: for every id the menu has the shipped capability where there is one, the
-- operator's own otherwise, and nothing where that one is disabled and disabled ones are not
-- asked for.
pub lookup-load_catalog :
    (shipped custom : Files) (include_disabled : Bool) (menu : Menu)
    → load_catalog shipped (some custom) include_disabled ≡ ok menu
    → (s : Menu) × (o : Menu) × (load_dir shipped ≡ ok s)
      × (load_dir custom ≡ ok o)
      × ((id : String)
          → lookup id menu ≡ visible include_disabled (or_before (lookup id s) (lookup id o)))
unfolding load_catalog load_dir
lookup-load_catalog shipped custom include_disabled menu e =
    go (load_dir custom) (load_dir shipped) refl refl
  where
    go :
        (r q : Result Menu)
        → load_dir custom ≡ r
        → load_dir shipped ≡ q
        → (s : Menu) × (o : Menu) × (load_dir shipped ≡ ok s)
          × (load_dir custom ≡ ok o)
          × ((id : String)
              → lookup id menu ≡ visible include_disabled (or_before (lookup id s) (lookup id o)))
    go value_error q f g = cc (rw (f, load_catalog) at e)
    go raised q f g = cc (rw (f, load_catalog) at e)
    go (ok o) value_error f g = cc (rw (f, load_catalog, g) at e)
    go (ok o) raised f g = cc (rw (f, load_catalog, g) at e)
    go (ok o) (ok s) f g =
        let same : merged include_disabled s o ≡ menu = cc (rw (f, load_catalog, g) at e) in
        (
          s,
          o,
          g,
          f,
          λ id. rw (← same) (
              lookup-merged include_disabled s o id
                (load_files-NoDup (sort_files shipped) [] s tt g)
                (load_files-NoDup (sort_files custom) [] o tt f)),
        )
