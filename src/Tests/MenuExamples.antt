-- ===== src/Tests/MenuExamples.antt =====
-- The menu: a form that is built, the catalog, and a series of requests to the curation screen.
use tanaka.Prelude.{
  String, ◌≡◌, refl, true, false, Option, none, some, is_some, List, [], ◌∷◌, lookup, All,
  if◌then◌else◌,
}
use text.Mathlib.Text.{find?}
use tanaka.Json.{Json, null, str, bool, obj, Fields, dict}
use tanaka.Json.Sort.{sort_keys}
use tanaka.Spine.{Capability}
use tanaka.Cashier.Engine.{Menu}
use tanaka.Chef.Main.Handlers.{handle}
use tanaka.Menu.Templates.{template}
use tanaka.Menu.Templates.Handled.{has_handler, template-handled}
use tanaka.Menu.Decode.{decode_capability}
use tanaka.Menu.Builder.{Form, Built, built, Parts, checked_parts, descriptor, build_descriptor}
use tanaka.Menu.Builder.Served.{Runs, build_descriptor-Runs}
use tanaka.Menu.Catalog.{Files, Paths, file_name, Result, ok, load_dir, load_catalog}
use tanaka.Menu.Catalog.Directory.{or_before}
use tanaka.Menu.Catalog.Shown.{visible, lookup-load_catalog}
use tanaka.Console.Service.{Admin}
use tanaka.Console.Curation.{Curation, MenuRequest, create, set_enabled, delete, curate_all}
use tanaka.Console.Curation.Refinement.{IsPlain, specified_all, curate_all-refines}
use tanaka.Tests.ChefExamples.{text_ops}

template-handled_example :
    is_some (template "template") ≡ has_handler (handle text_ops "template" "a/b" "text" (dict []))
template-handled_example = template-handled text_ops "template" "a/b" "text" (dict [])

abbrev form : Form
form = record {
  behavior = str "template";
  capability_id = str "cap.note.v1";
  name = str "Note";
  description = str "";
  risk_class = null;
  recommended_max_rate = null;
  requires_user_confirmation = bool true;
  requires_second_admin = null;
  enabled = bool true;
  template = str "About $subject";
}

abbrev form_parts : Built Parts
form_parts = checked_parts (λ s. s) (λ s. false) form

abbrev built_fields : Built Parts → Fields
built_fields (built p) = descriptor p
built_fields _ = dict []

form_built : build_descriptor (λ s. s) (λ s. false) form ≡ built (built_fields form_parts)
unfolding build_descriptor
form_built = refl

build_descriptor-Runs_example :
    (c : Capability) × (decode_capability (sort_keys (obj (built_fields form_parts))) ≡ some c)
    × Runs text_ops "a/b" "text" c
build_descriptor-Runs_example =
    build_descriptor-Runs text_ops (λ s. false) form (built_fields form_parts) "a/b" "text" refl
      form_built

abbrev form_json : Json
form_json = obj (
    dict (
      ("behavior", str "draft_reply")
      ∷ ("capability_id", str "cap.mine.v1")
      ∷ ("name", str "Mine")
      ∷ []))

abbrev author : Option Admin
author = some (record { id = "author.aiko"; role = "author" })

abbrev own_paths : Paths
own_paths = record {
  entry = λ id. if is_some (find? id "/") then none else some (file_name id);
  outside = λ id. none;
}

abbrev curation : Curation
curation = record { strip = λ s. s; is_zero = λ s. false; shipped = []; paths = own_paths }

abbrev requests : List (Option Admin × MenuRequest)
requests =
    (author, create form_json)
    ∷ (none, delete "cap.mine.v1")
    ∷ (author, set_enabled "cap.mine.v1" false)
    ∷ (author, create form_json)
    ∷ []

requests-IsPlain : All (λ (r : Option Admin × MenuRequest). IsPlain curation r.1) requests
requests-IsPlain = (tt, (refl, (refl, (tt, tt))))

nothing_shipped : load_dir [] ≡ ok []
unfolding load_dir
nothing_shipped = refl

curate_all-refines_example :
    ((curate_all curation requests []).0 ≡ (specified_all curation [] requests (λ _. none)).0)
    × ((loaded : Menu) × (load_dir (curate_all curation requests []).1 ≡ ok loaded)
        × ((id : String)
            → lookup id loaded ≡ (specified_all curation [] requests (λ _. none)).1 id))
curate_all-refines_example =
    curate_all-refines curation [] nothing_shipped requests requests-IsPlain

abbrev shipped_file : Files
shipped_file = ("cap.note.v1.json", some (sort_keys (obj (built_fields form_parts)))) ∷ []

abbrev menu_of : Result Menu → Menu
menu_of (ok menu) = menu
menu_of _ = []

catalog_loads :
    load_catalog shipped_file (some shipped_file) false
    ≡ ok (menu_of (load_catalog shipped_file (some shipped_file) false))
unfolding load_catalog sort_keys checked_parts descriptor
catalog_loads = refl

lookup-load_catalog_example :
    (s : Menu) × (o : Menu) × (load_dir shipped_file ≡ ok s)
    × (load_dir shipped_file ≡ ok o)
    × ((id : String)
        → lookup id (menu_of (load_catalog shipped_file (some shipped_file) false))
          ≡ visible false (or_before (lookup id s) (lookup id o)))
lookup-load_catalog_example =
    lookup-load_catalog shipped_file shipped_file false
      (menu_of (load_catalog shipped_file (some shipped_file) false)) catalog_loads
