-- ===== src/Menu/Catalog/Edits.antt =====
-- menu/catalog.py: the three edits of an operator's directory, as edits of a map from ids to
-- capabilities.
use tanaka.Prelude.{
  String, ◌==◌, ◌≡◌, refl, sym, ap, ◌∙◌, Bool, ◌||◌, Option, none, some, is_some, [], ◌∷◌, ◌++◌,
  lookup, insert, lookup-insert, Bool-cases, Option-cases, inl, inr, if◌then◌else◌,
}
use tanaka.Json.{Json, null, bool, int, float, str, arr, obj, Fields, set}
use tanaka.Json.Sort.{sort_keys, sort_fields}
use tanaka.Json.Sort.Laws.{sort_keys_idem}
use tanaka.Spine.{Capability}
use tanaka.Cashier.Engine.{Menu}
use tanaka.Menu.Decode.{decode_capability, enabled_as}
use tanaka.Menu.Decode.Laws.{decode_enabled}
use tanaka.Menu.Catalog.{
  Files, Result, ok, value_error, file_name, load_dir, save_custom_capability, enabled_content,
  set_file_enabled, Paths, set_custom_capability_enabled, delete_custom_capability, remove_file,
  delete_file,
}
use tanaka.Menu.Catalog.Directory.{
  IsCapabilityFile, IsMenuDir, decoded, capability_at, file_name-eq,
}
use tanaka.Menu.Catalog.Upkeep.{
  lookup-append, lookup-remove_file, All-lookup, IsMenuDir-append, IsMenuDir-insert,
  IsMenuDir-remove_file,
}

-- What the directory is for the operator: a map from ids to capabilities.
abbrev pub OwnMenu : Type 0
OwnMenu = String → Option Capability

abbrev pub put : String → Option Capability → OwnMenu → OwnMenu
put id c m j = if id == j then c else m j

-- A new capability goes in if neither a shipped one nor an own one has its id.
unfoldable pub added : Menu → Capability → OwnMenu → Option OwnMenu
added shipped c m =
    if is_some (lookup c.id shipped) || is_some (m c.id) then none else some (put c.id (some c) m)

unfoldable pub switched : String → Bool → OwnMenu → Option OwnMenu
switched id enabled m = elim (m id) [
  | none ↦ none
  | some c ↦ some (put id (some (enabled_as enabled c)) m)
]

unfoldable pub removed : String → OwnMenu → Option OwnMenu
removed id m = elim (m id) [ none ↦ none | some c ↦ some (put id none m) ]

-- The directory stands for the map.
pub record Stands (files : Files) (m : OwnMenu) : Type 0 where
  pub dir : IsMenuDir files
  pub same : (id : String) → capability_at files id ≡ m id

-- An edit of the directory and an edit of the map agree: both refuse, or the results stand together.
pub data Agrees : Result Files → Option OwnMenu → Type 0 where
  both_edit : {files : Files} {m : OwnMenu} → Stands files m → Agrees (ok files) (some m)
  both_refuse : Agrees value_error none

-- The file with the name of an id is missing, or it holds what the map has for the id.
data Found (files : Files) (id : String) (m : OwnMenu) : Type 0 where
  missing : lookup (file_name id) files ≡ none → m id ≡ none → Found files id m
  held :
      (v : Json) (c : Capability)
      → lookup (file_name id) files ≡ some (some v)
      → decode_capability v ≡ some c
      → sort_keys v ≡ v
      → file_name id ≡ file_name c.id
      → m id ≡ some c
      → Found files id m

find : (files : Files) (id : String) (m : OwnMenu) → Stands files m → Found files id m
find files id m s = elim (Option-cases (lookup (file_name id) files)) [
  | inl e ↦ missing e (sym (s.same id) ∙ ap decoded e)
  | inr (content, e) ↦
      let file =
        All-lookup IsCapabilityFile (file_name id) content files s.dir.all_capabilities e in
      held file.value file.capability (e ∙ ap (λ (x : Option Json). some x) file.content)
        file.decodes file.sorted file.named (sym (s.same id) ∙ rw (e, file.content) file.decodes)
]

-- After a file for `id` was written: `at` is what is found under a name then.
Stands-put :
    (files files' : Files) (id : String) (c : Option Capability) (m : OwnMenu)
    (new : Option (Option Json))
    → IsMenuDir files'
    → ((k : String) → lookup k files' ≡ (if file_name id == k then new else lookup k files))
    → decoded new ≡ c
    → Stands files m
    → Stands files' (put id c m)
Stands-put files files' id c m new d at e s = record {
  dir = d;
  same = λ j.
      ap decoded (at (file_name j))
      ∙ rw (file_name-eq id j)
          (elim (Bool-cases (id == j)) [ inl here ↦ rw here e | inr there ↦ rw there (s.same j) ]);
}

-- A save of a descriptor that is read back as `c`.
pub save-Agrees :
    (shipped : Files) (menu : Menu) (files : Files) (m : OwnMenu) (descriptor : Fields)
    (c : Capability)
    → load_dir shipped ≡ ok menu
    → decode_capability (sort_keys (obj descriptor)) ≡ some c
    → Stands files m
    → Agrees (save_custom_capability shipped c.id descriptor files) (added menu c m)
unfolding save_custom_capability added
save-Agrees shipped menu files m descriptor c h e s = elim (find files c.id m s) [
  | held v d at _ _ _ own ↦ elim (Bool-cases (is_some (lookup c.id menu))) [
    | inl taken ↦ rw (h, save_custom_capability, taken) both_refuse
    | inr free ↦ rw (h, save_custom_capability, free, at, own) both_refuse
  ]
  | missing at own ↦ elim (Bool-cases (is_some (lookup c.id menu))) [
    | inl taken ↦ rw (h, save_custom_capability, taken) both_refuse
    | inr free ↦
        let v = sort_keys (obj descriptor) in
        let file : IsCapabilityFile (file_name c.id, some v) = record {
          value = v;
          capability = c;
          content = refl;
          decodes = e;
          sorted = sort_keys_idem (obj descriptor);
          named = refl;
        } in
        rw (h, save_custom_capability, free, at, own)
          (both_edit (
            Stands-put files (files ++ (file_name c.id, some v) ∷ []) c.id (some c) m
              (some (some v)) (IsMenuDir-append (file_name c.id) (some v) files at file s.dir)
              (λ k. lookup-append k (file_name c.id) (some v) files at) e s))
  ]
]

sorted_object : (fs : Fields) → sort_keys (obj fs) ≡ obj fs → sort_fields fs ≡ fs
unfolding sort_keys
sorted_object fs h = cc h

enabled_content-edit :
    (v : Json) (enabled : Bool) (c : Capability)
    → decode_capability v ≡ some c
    → sort_keys v ≡ v
    → (w : Json) × (enabled_content enabled (some v) ≡ ok w)
      × (sort_keys w ≡ w)
      × (decode_capability w ≡ some (enabled_as enabled c))
unfolding enabled_content sort_keys decode_capability
enabled_content-edit (obj fs) enabled c e sorted = (
  sort_keys (obj (set "enabled" (bool enabled) fs)),
  refl,
  sort_keys_idem (obj (set "enabled" (bool enabled) fs)),
  decode_enabled enabled fs c (sorted_object fs sorted) e,
)
enabled_content-edit null enabled c e sorted = cc e
enabled_content-edit (bool _) enabled c e sorted = cc e
enabled_content-edit (int _) enabled c e sorted = cc e
enabled_content-edit (float _) enabled c e sorted = cc e
enabled_content-edit (str _) enabled c e sorted = cc e
enabled_content-edit (arr _) enabled c e sorted = cc e

set_file_enabled-Agrees :
    (id : String) (enabled : Bool) (files : Files) (m : OwnMenu)
    → Stands files m
    → Agrees (set_file_enabled (file_name id) enabled files) (switched id enabled m)
unfolding set_file_enabled switched
set_file_enabled-Agrees id enabled files m s = elim (find files id m s) [
  | missing at own ↦ rw (at, set_file_enabled) (rw (own, switched) both_refuse)
  | held v c at e sorted named own ↦
      let (w, done, sorted', e') = enabled_content-edit v enabled c e sorted in
      let file : IsCapabilityFile (file_name id, some w) = record {
        value = w;
        capability = enabled_as enabled c;
        content = refl;
        decodes = e';
        sorted = sorted';
        named = named;
      } in
      rw (at, set_file_enabled, done)
        (rw (own, switched)
          (both_edit (
            Stands-put files (insert (file_name id) (some w) files) id (some (enabled_as enabled c))
              m (some (some w)) (IsMenuDir-insert (file_name id) (some w) files file s.dir)
              (λ k. lookup-insert (file_name id) k (some w) files) e' s)))
]

delete_file-Agrees :
    (id : String) (files : Files) (m : OwnMenu)
    → Stands files m
    → Agrees (delete_file (file_name id) files) (removed id m)
unfolding delete_file removed
delete_file-Agrees id files m s = elim (find files id m s) [
  | missing at own ↦ rw (at, delete_file) (rw (own, removed) both_refuse)
  | held v c at _ _ _ own ↦
      rw (at, delete_file)
        (rw (own, removed)
          (both_edit (
            Stands-put files (remove_file (file_name id) files) id none m none
              (IsMenuDir-remove_file (file_name id) files s.dir)
              (λ k. lookup-remove_file k (file_name id) files) refl s)))
]

pub set_enabled-Agrees :
    (paths : Paths) (id : String) (enabled : Bool) (files : Files) (m : OwnMenu)
    → paths.entry id ≡ some (file_name id)
    → Stands files m
    → Agrees (set_custom_capability_enabled paths id enabled files) (switched id enabled m)
unfolding set_custom_capability_enabled
set_enabled-Agrees paths id enabled files m plain s =
    rw (plain, set_custom_capability_enabled) (set_file_enabled-Agrees id enabled files m s)

pub delete-Agrees :
    (paths : Paths) (id : String) (files : Files) (m : OwnMenu)
    → paths.entry id ≡ some (file_name id)
    → Stands files m
    → Agrees (delete_custom_capability paths id files) (removed id m)
unfolding delete_custom_capability
delete-Agrees paths id files m plain s =
    rw (plain, delete_custom_capability) (delete_file-Agrees id files m s)
