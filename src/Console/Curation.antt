-- ===== src/Console/Curation.antt =====
-- console/service.py: the author composes, switches and deletes menu items.
pub mod Refinement
use tanaka.Prelude.{String, Bool, true, false, Option, none, some, List, [], ◌∷◌, is_some, lookup}
use tanaka.Json.{Json, null, bool, str, obj, Fields, get, opt_json}
use tanaka.Cashier.Engine.{Menu}
use tanaka.Menu.Builder.{Form, Built, built, build_error, raised, build_descriptor}
use tanaka.Menu.Catalog.{
  Files, Result, ok, value_error, raised, load_dir, save_custom_capability, Paths,
  set_custom_capability_enabled, delete_custom_capability,
}
use tanaka.Console.Service.{
  Admin, role_author, Response, done, auth_error, bad_request, not_found, conflict, raised, ◌>>=◌,
  require_role,
}

-- What is answered; of a new item, the descriptor has the id, the behavior and `enabled`.
pub data MenuReply : Type 0 where
  created : Fields → MenuReply
  switched_to : String → Bool → MenuReply
  deleted : String → MenuReply

-- The methods of `str` and `float` that the builder uses, the shipped capabilities, and where the
-- paths of the custom directory lead.
pub record Curation : Type 0 where
  pub strip : String → String
  pub is_zero : String → Bool
  pub shipped : Files
  pub paths : Paths

-- The custom directory, `none` where none is configured.
unfoldable pub require_menu_curation : Option Files → Response Files
require_menu_curation none = conflict
require_menu_curation (some files) = done files

abbrev or_default : Option Json → Json → Json
or_default none default = default
or_default (some v) default = v

unfoldable pub form_of : Fields → Form
form_of form = record {
  behavior = opt_json (get "behavior" form);
  capability_id = opt_json (get "capability_id" form);
  name = or_default (get "name" form) (str "");
  description = or_default (get "description" form) (str "");
  risk_class = opt_json (get "risk_class" form);
  recommended_max_rate = opt_json (get "recommended_max_rate" form);
  requires_user_confirmation = opt_json (get "requires_user_confirmation" form);
  requires_second_admin = opt_json (get "requires_second_admin" form);
  enabled = or_default (get "enabled" form) (bool true);
  template = opt_json (get "template" form);
}

-- `build_descriptor` on the form, where it is an object
unfoldable pub built_from : Curation → Json → Response Fields
unfolding form_of
built_from c (obj form) = elim (build_descriptor c.strip c.is_zero (form_of form)) [
  | built descriptor ↦ done descriptor
  | build_error ↦ bad_request
  | raised ↦ raised
]
built_from c _ = bad_request

-- A `ValueError` of the catalog is answered with `otherwise`.
unfoldable pub edited : {A : Type 0} → Response A → Result A → Response A
edited otherwise (ok a) = done a
edited otherwise value_error = otherwise
edited otherwise raised = raised

unfoldable pub save_descriptor : Curation → Fields → Files → Response Files
unfolding edited
save_descriptor c descriptor files = elim (get "id" descriptor) [
  | some (str id) ↦ edited conflict (save_custom_capability c.shipped id descriptor files)
  | _ ↦ raised
]

-- An id that is not shipped; a shipped menu that does not load is no console error.
unfoldable pub require_own : Curation → String → Response Unit
require_own c id = elim (load_dir c.shipped) [
  | ok menu ↦ elim (is_some (lookup id menu)) [ true ↦ conflict | false ↦ done tt ]
  | value_error ↦ raised
  | raised ↦ raised
]

-- The answer, with the files after it.
abbrev pub Edited : Type 0
Edited = Response (MenuReply × Files)

unfoldable pub create_capability : Curation → Option Admin → Json → Option Files → Edited
unfolding require_role require_menu_curation built_from save_descriptor
create_capability c admin form custom = do
  _ ← require_role admin role_author
  files ← require_menu_curation custom
  descriptor ← built_from c form
  files' ← save_descriptor c descriptor files
  done (created descriptor, files')

unfoldable pub set_capability_enabled :
    Curation → Option Admin → String → Bool → Option Files → Edited
unfolding require_role require_menu_curation require_own edited
set_capability_enabled c admin id enabled custom = do
  _ ← require_role admin role_author
  files ← require_menu_curation custom
  _ ← require_own c id
  files' ← edited not_found (set_custom_capability_enabled c.paths id enabled files)
  done (switched_to id enabled, files')

unfoldable pub delete_capability : Curation → Option Admin → String → Option Files → Edited
unfolding require_role require_menu_curation require_own edited
delete_capability c admin id custom = do
  _ ← require_role admin role_author
  files ← require_menu_curation custom
  _ ← require_own c id
  files' ← edited not_found (delete_custom_capability c.paths id files)
  done (deleted id, files')

-- One request of the curation screen.
pub data MenuRequest : Type 0 where
  create : Json → MenuRequest
  set_enabled : String → Bool → MenuRequest
  delete : String → MenuRequest

unfoldable pub curate : Curation → Option Admin → MenuRequest → Option Files → Edited
unfolding create_capability set_capability_enabled delete_capability
curate c admin (create form) custom = create_capability c admin form custom
curate c admin (set_enabled id enabled) custom = set_capability_enabled c admin id enabled custom
curate c admin (delete id) custom = delete_capability c admin id custom

-- The answer alone, and the files after it: an error changes none.
unfoldable pub answer_of : Edited → Response MenuReply
answer_of (done (reply, files)) = done reply
answer_of auth_error = auth_error
answer_of bad_request = bad_request
answer_of not_found = not_found
answer_of conflict = conflict
answer_of raised = raised

unfoldable pub files_after : Edited → Files → Files
files_after (done (reply, files')) files = files'
files_after _ files = files

-- A series of requests: the answers, and the files after them.
unfoldable pub curate_all :
    Curation → List (Option Admin × MenuRequest) → Files → List (Response MenuReply) × Files
unfolding curate answer_of files_after
curate_all c [] files = ([], files)
curate_all c ((admin, request) ∷ requests) files =
    let edit = curate c admin request (some files) in
    let later = curate_all c requests (files_after edit files) in
    (answer_of edit ∷ later.0, later.1)
