-- ===== src/Menu/Catalog.antt =====
-- menu/catalog.py: the capabilities that are files of a directory. A directory is the list of its
-- files, each with the JSON that it holds (`none` where it holds none); one that does not exist is
-- empty.
pub mod Directory
mod Upkeep
pub mod Edits
pub mod Shown
use tanaka.Prelude.{
  String, ◌==◌, Bool, true, false, ◌||◌, not, Option, none, some, List, [], ◌∷◌, ◌++◌, is_some,
  lookup, insert, if◌then◌else◌,
}
use tanaka.Prelude.Texts.{str_leb, concat, ends_with}
use tanaka.Json.{Json, bool, str, obj, Fields, get, set}
use tanaka.Json.Sort.{sort_keys}
use tanaka.Spine.{Capability}
use tanaka.Cashier.Engine.{Menu}
use tanaka.Menu.Decode.{decode_capability}

abbrev pub Files : Type 0
Files = List (String × Option Json)

-- A result, a `ValueError` (a JSON error is one), or another exception.
pub data Result (A : Type 0) : Type 0 where
  ok : A → Result A
  value_error raised : Result A

-- `cap_id + ".json"`
abbrev pub file_name : String → String
file_name id = concat id ".json"

-- `sorted(os.listdir(directory))`
unfoldable pub insert_file : String → Option Json → Files → Files
insert_file name content [] = (name, content) ∷ []
insert_file name content ((n, c) ∷ files) =
    if str_leb name n
    then (name, content) ∷ (n, c) ∷ files
    else (n, c) ∷ insert_file name content files

unfoldable pub sort_files : Files → Files
unfolding insert_file
sort_files [] = []
sort_files ((n, c) ∷ files) = insert_file n c (sort_files files)

-- `json.load`, and `Capability(**obj)`
unfoldable pub load_file : Option Json → Result Capability
unfolding decode_capability
load_file none = value_error
load_file (some v) = elim (decode_capability v) [ none ↦ raised | some c ↦ ok c ]

unfoldable pub load_files : Files → Menu → Result Menu
unfolding load_file ends_with
load_files [] catalog = ok catalog
load_files ((n, content) ∷ files) catalog = elim (ends_with ".json" n) [
  | false ↦ load_files files catalog
  | true ↦ elim (load_file content) [
    | ok c ↦ load_files files (insert c.id c catalog)
    | value_error ↦ value_error
    | raised ↦ raised
  ]
]

-- `_load_dir`
unfoldable pub load_dir : Files → Result Menu
unfolding load_files sort_files
load_dir files = load_files (sort_files files) []

-- `catalog.update(more)`
unfoldable pub update : Menu → Menu → Menu
update [] catalog = catalog
update ((id, c) ∷ more) catalog = update more (insert id c catalog)

unfoldable pub only_enabled : Menu → Menu
only_enabled [] = []
only_enabled ((id, c) ∷ menu) = if c.enabled then (id, c) ∷ only_enabled menu else only_enabled menu

unfoldable pub merged : Bool → Menu → Menu → Menu
unfolding update only_enabled
merged include_disabled shipped own =
    let catalog = update shipped (update own []) in
    if include_disabled then catalog else only_enabled catalog

-- `load_catalog`, on the directory of the shipped capabilities and the operator's own
unfoldable pub load_catalog : Files → Option Files → Bool → Result Menu
unfolding load_dir merged
load_catalog shipped none include_disabled = elim (load_dir shipped) [
  | ok menu ↦ ok (merged include_disabled menu [])
  | value_error ↦ value_error
  | raised ↦ raised
]
load_catalog shipped (some custom) include_disabled = elim (load_dir custom) [
  | value_error ↦ value_error
  | raised ↦ raised
  | ok own ↦ elim (load_dir shipped) [
    | ok menu ↦ ok (merged include_disabled menu own)
    | value_error ↦ value_error
    | raised ↦ raised
  ]
]

-- `save_custom_capability`, on a descriptor with the id `id`: the files after it
unfoldable pub save_custom_capability : Files → String → Fields → Files → Result Files
unfolding load_dir
save_custom_capability shipped id descriptor files = elim (load_dir shipped) [
  | value_error ↦ value_error
  | raised ↦ raised
  | ok menu ↦
      if is_some (lookup id menu) || is_some (lookup (file_name id) files)
      then value_error
      else ok (files ++ (file_name id, some (sort_keys (obj descriptor))) ∷ [])
]

-- `obj["enabled"] = bool(enabled)`: what is no object takes no item.
unfoldable pub enabled_content : Bool → Option Json → Result Json
enabled_content enabled none = value_error
enabled_content enabled (some (obj fs)) = ok (sort_keys (obj (set "enabled" (bool enabled) fs)))
enabled_content enabled (some _) = raised

-- Where `os.path.join(target_dir, capability_id + ".json")` leads, which the file system decides: to
-- the file of the directory with the name `entry`, under which the directory lists it, or out of the
-- directory, to a file that holds `outside`, or to no file.
pub record Paths : Type 0 where
  pub entry : String → Option String
  pub outside : String → Option (Option Json)

unfoldable pub set_file_enabled : String → Bool → Files → Result Files
unfolding enabled_content
set_file_enabled name enabled files = elim (lookup name files) [
  | none ↦ value_error
  | some content ↦ elim (enabled_content enabled content) [
    | ok v ↦ ok (insert name (some v) files)
    | value_error ↦ value_error
    | raised ↦ raised
  ]
]

-- The files of the directory stay as they are where another file is written.
unfoldable pub set_outside_enabled : Option (Option Json) → Bool → Files → Result Files
unfolding enabled_content
set_outside_enabled none enabled files = value_error
set_outside_enabled (some content) enabled files = elim (enabled_content enabled content) [
  | ok v ↦ ok files
  | value_error ↦ value_error
  | raised ↦ raised
]

unfoldable pub set_custom_capability_enabled : Paths → String → Bool → Files → Result Files
unfolding set_file_enabled set_outside_enabled
set_custom_capability_enabled paths id enabled files = elim (paths.entry id) [
  | some name ↦ set_file_enabled name enabled files
  | none ↦ set_outside_enabled (paths.outside id) enabled files
]

unfoldable pub remove_file : String → Files → Files
remove_file name [] = []
remove_file name ((n, c) ∷ files) =
    if n == name then remove_file name files else (n, c) ∷ remove_file name files

unfoldable pub delete_file : String → Files → Result Files
unfolding remove_file
delete_file name files =
    if is_some (lookup name files) then ok (remove_file name files) else value_error

unfoldable pub delete_custom_capability : Paths → String → Files → Result Files
unfolding delete_file
delete_custom_capability paths id files = elim (paths.entry id) [
  | some name ↦ delete_file name files
  | none ↦ if is_some (paths.outside id) then ok files else value_error
]
