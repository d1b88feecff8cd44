-- ===== src/Menu/Catalog/Directory.antt =====
-- menu/catalog.py: what a directory of capabilities stands for, and that loading it gives that.
use tanaka.Prelude.{
  String, ◌==◌, ◌≡◌, refl, sym, ap, ◌∙◌, eq_iff, eq_refl, true, Option, none, some, [], ◌∷◌, lookup,
  insert, lookup-insert, All, arith, Bool-cases, inl, inr, if◌then◌else◌,
}
use tanaka.Prelude.Texts.{ends_with, str_leb, str_leb_refl}
use tanaka.Json.{Json}
use tanaka.Json.Sort.{sort_keys}
use tanaka.Spine.{Capability}
use tanaka.Cashier.Engine.{Menu}
use tanaka.Menu.Decode.{decode_capability}
use tanaka.Menu.Catalog.{
  Files, ok, file_name, insert_file, sort_files, load_file, load_files, load_dir,
}
use text.Mathlib.TextLemmas.{append_cancel_right, cons-append}

-- The capability with an id: the one that the file with its name holds.
abbrev pub decoded : Option (Option Json) → Option Capability
decoded (some (some v)) = decode_capability v
decoded _ = none

abbrev pub capability_at : Files → String → Option Capability
capability_at files id = decoded (lookup (file_name id) files)

-- A file that holds a capability under the name of its id, with its keys sorted.
pub record IsCapabilityFile (file : String × Option Json) : Type 0 where
  pub value : Json
  pub capability : Capability
  pub content : file.1 ≡ some value
  pub decodes : decode_capability value ≡ some capability
  pub sorted : sort_keys value ≡ value
  pub named : file.0 ≡ file_name capability.id

abbrev pub IsUnique : Files → Type 0
IsUnique [] = Unit
IsUnique ((n, c) ∷ files) = (lookup n files ≡ none) × IsUnique files

pub record IsMenuDir (files : Files) : Type 0 where
  pub all_capabilities : All IsCapabilityFile files
  pub unique : IsUnique files

ends_with-file_name : (s : String) → ends_with ".json" (file_name s) ≡ true
unfolding ends_with
ends_with-file_name String.[] = refl
ends_with-file_name (String.◌∷◌ c s) =
    ap (λ t. ends_with ".json" t) (cons-append c s ".json") ∙ ground (arith, ends_with-file_name s)

pub file_name-eq : (a b : String) → (file_name a == file_name b) ≡ (a == b)
file_name-eq a b = elim (Bool-cases (a == b)) [
  | inl e ↦ rw ((eq_iff a b).0 e, eq_refl b, eq_refl (file_name b)) refl
  | inr e ↦ elim (Bool-cases (file_name a == file_name b)) [
    | inl f ↦
        let same : a ≡ b =
          append_cancel_right a b ".json" ((eq_iff (file_name a) (file_name b)).0 f) in
        cc ((eq_iff a b).1 same)
    | inr f ↦ f ∙ sym e
  ]
]

pub lookup-insert_file :
    (k n : String) (c : Option Json) (files : Files)
    → lookup k (insert_file n c files) ≡ (if n == k then some c else lookup k files)
unfolding insert_file
lookup-insert_file k n c [] = refl
lookup-insert_file k n c ((m, d) ∷ files) =
    ground
      (arith, lookup-insert_file k n c files, eq_iff n k, eq_iff m k, eq_iff n m, str_leb_refl n)

lookup-sort_files : (k : String) (files : Files) → lookup k (sort_files files) ≡ lookup k files
unfolding sort_files
lookup-sort_files k [] = refl
lookup-sort_files k ((n, c) ∷ files) =
    rw (lookup-insert_file k n c (sort_files files), lookup-sort_files k files) refl

insert_file-IsUnique :
    (n : String) (c : Option Json) (files : Files)
    → lookup n files ≡ none
    → IsUnique files
    → IsUnique (insert_file n c files)
unfolding insert_file
insert_file-IsUnique n c [] h u = (refl, tt)
insert_file-IsUnique n c ((m, d) ∷ files) h u = elim (Bool-cases (str_leb n m)) [
  | inl e ↦ rw e (h, u)
  | inr e ↦ rw e (
    lookup-insert_file m n c files ∙ ground (arith, h, u.0, eq_iff n m, eq_iff m n),
    insert_file-IsUnique n c files (ground (arith, h)) u.1,
  )
]

insert_file-All :
    (P : String × Option Json → Type 0) (n : String) (c : Option Json) (files : Files)
    → P (n, c)
    → All P files
    → All P (insert_file n c files)
unfolding insert_file
insert_file-All P n c [] p h = (p, tt)
insert_file-All P n c ((m, d) ∷ files) p h = elim (Bool-cases (str_leb n m)) [
  | inl e ↦ rw e (p, h)
  | inr e ↦ rw e (h.0, insert_file-All P n c files p h.1)
]

sort_files-IsMenuDir : (files : Files) → IsMenuDir files → IsMenuDir (sort_files files)
unfolding sort_files
sort_files-IsMenuDir [] d = d
sort_files-IsMenuDir ((n, c) ∷ files) d =
    let rest =
      sort_files-IsMenuDir files
        (record { all_capabilities = d.all_capabilities.1; unique = d.unique.1 }) in
    record {
      all_capabilities =
          insert_file-All IsCapabilityFile n c (sort_files files) d.all_capabilities.0
            rest.all_capabilities;
      unique =
          insert_file-IsUnique n c (sort_files files) (lookup-sort_files n files ∙ d.unique.0)
            rest.unique;
    }

-- What the catalog gives for an id, where the files give `found` and the catalog before them `before`.
abbrev pub or_before : Option Capability → Option Capability → Option Capability
or_before (some c) before = some c
or_before none before = before

load_files_step :
    (n : String) (content : Option Json) (files : Files) (catalog : Menu)
    → (file : IsCapabilityFile (n, content))
    → load_files ((n, content) ∷ files) catalog
      ≡ load_files files (insert file.capability.id file.capability catalog)
unfolding load_files load_file
load_files_step n content files catalog file =
    let ends : ends_with ".json" n ≡ true =
      rw file.named (ends_with-file_name file.capability.id) in
    rw (ends, load_files) (rw (file.content, load_files) (rw file.decodes refl))

or_before_step :
    (n : String) (content : Option Json) (files : Files) (catalog : Menu) (id : String)
    → (file : IsCapabilityFile (n, content)) → lookup n files ≡ none
    → or_before
        (capability_at files id)
        (lookup id (insert file.capability.id file.capability catalog))
      ≡ or_before (capability_at ((n, content) ∷ files) id) (lookup id catalog)
or_before_step n content files catalog id file h =
    let c = file.capability in
    let hit : (n == file_name id) ≡ (c.id == id) = rw file.named (file_name-eq c.id id) in
    elim (Bool-cases (c.id == id)) [
      | inl e ↦
          let missing : lookup (file_name id) files ≡ none =
            rw ((eq_iff n (file_name id)).0 (hit ∙ e)) at h in
          rw (lookup-insert c.id id c catalog, hit, e, missing, file.content, file.decodes) refl
      | inr e ↦ rw (lookup-insert c.id id c catalog, hit, e) refl
    ]

load_files_lem :
    (files : Files) (catalog : Menu)
    → IsMenuDir files
    → (loaded : Menu) × (load_files files catalog ≡ ok loaded)
      × ((id : String) → lookup id loaded ≡ or_before (capability_at files id) (lookup id catalog))
unfolding load_files
load_files_lem [] catalog d = (catalog, refl, λ id. refl)
load_files_lem ((n, content) ∷ files) catalog d =
    let file = d.all_capabilities.0 in
    let c = file.capability in
    let (loaded, eq, same) =
      load_files_lem files (insert c.id c catalog)
        (record { all_capabilities = d.all_capabilities.1; unique = d.unique.1 }) in
    (
      loaded,
      load_files_step n content files catalog file ∙ eq,
      λ id. same id ∙ or_before_step n content files catalog id file d.unique.0,
    )

or_before-none : (found : Option Capability) → or_before found none ≡ found
or_before-none none = refl
or_before-none (some c) = refl

-- A directory of capabilities loads, and the catalog has for each id what the file with its name
-- holds, whatever the order of the files.
pub load_dir_lem :
    (files : Files)
    → IsMenuDir files
    → (loaded : Menu) × (load_dir files ≡ ok loaded)
      × ((id : String) → lookup id loaded ≡ capability_at files id)
unfolding load_dir
load_dir_lem files d =
    let (loaded, eq, same) = load_files_lem (sort_files files) [] (sort_files-IsMenuDir files d) in
    (
      loaded,
      eq,
      λ id.
          same id
          ∙ or_before-none (capability_at (sort_files files) id)
          ∙ ap decoded (lookup-sort_files (file_name id) files),
    )
