-- ===== src/Console/Curation/Refinement.antt =====
-- console/service.py: the curation of the menu as operations on a map from ids to capabilities.
use tanaka.Prelude.{
  String, ◌==◌, ◌≡◌, refl, ◌∙◌, true, not, Option, none, some, is_some, List, [], ◌∷◌, lookup,
  Bool-cases, inl, inr, All,
}
use tanaka.Json.{Json, null, bool, int, float, str, arr, obj, Fields}
use tanaka.Spine.{Capability}
use tanaka.Cashier.Engine.{Menu}
use tanaka.Menu.Builder.{
  Built, built, build_error, raised, Parts, checked_parts, descriptor, build_descriptor,
}
use tanaka.Menu.Builder.RoundTrip.{described, decoded_descriptor, checked_parts-IsChecked}
use tanaka.Menu.Catalog.{file_name, Files, Result, ok, raised, load_dir}
use tanaka.Menu.Catalog.Directory.{load_dir_lem}
use tanaka.Menu.Catalog.Edits.{
  OwnMenu, added, switched, removed, Stands, Agrees, both_edit, both_refuse, save-Agrees,
  set_enabled-Agrees, delete-Agrees,
}
use tanaka.Console.Service.{
  Admin, role_author, Response, done, auth_error, bad_request, not_found, conflict, raised, ◌>>=◌,
  require_role, require_that,
}
use tanaka.Console.Curation.{
  MenuReply, created, switched_to, deleted, Curation, form_of, built_from, edited, save_descriptor,
  require_own, Edited, create_capability, set_capability_enabled, delete_capability, MenuRequest,
  create, set_enabled, delete, curate, require_menu_curation, answer_of, files_after, curate_all,
}

-- The id of a request to switch or delete names a file of the directory: it has no separator.
abbrev pub IsPlain : Curation → MenuRequest → Type 0
IsPlain c (create form) = Unit
IsPlain c (set_enabled id enabled) = c.paths.entry id ≡ some (file_name id)
IsPlain c (delete id) = c.paths.entry id ≡ some (file_name id)

-- The descriptor and the capability that a form asks for.
unfoldable pub composed : Curation → Json → Response (Fields × Capability)
composed c (obj form) = elim (checked_parts c.strip c.is_zero (form_of form)) [
  | built p ↦ done (descriptor p, described p)
  | build_error ↦ bad_request
  | raised ↦ raised
]
composed c _ = bad_request

abbrev or_error : {A : Type 0} → Response A → Option A → Response A
or_error otherwise none = otherwise
or_error otherwise (some a) = done a

abbrev pub Specified : Type 0
Specified = Response (MenuReply × OwnMenu)

unfoldable pub specified_by_author : Curation → Menu → MenuRequest → OwnMenu → Specified
unfolding composed require_that
specified_by_author c menu (create form) m = do
  (fields, capability) ← composed c form
  m' ← or_error conflict (added menu capability m)
  done (created fields, m')
specified_by_author c menu (set_enabled id enabled) m = do
  _ ← require_that (not (is_some (lookup id menu))) conflict tt
  m' ← or_error not_found (switched id enabled m)
  done (switched_to id enabled, m')
specified_by_author c menu (delete id) m = do
  _ ← require_that (not (is_some (lookup id menu))) conflict tt
  m' ← or_error not_found (removed id m)
  done (deleted id, m')

-- What a request does to the map of the operator's own capabilities.
unfoldable pub specified : Curation → Menu → Option Admin → MenuRequest → OwnMenu → Specified
unfolding require_role specified_by_author
specified c menu admin request m = do
  _ ← require_role admin role_author
  specified_by_author c menu request m

unfoldable pub specified_answer : Specified → Response MenuReply
specified_answer (done (reply, m)) = done reply
specified_answer auth_error = auth_error
specified_answer bad_request = bad_request
specified_answer not_found = not_found
specified_answer conflict = conflict
specified_answer raised = raised

unfoldable pub map_after : Specified → OwnMenu → OwnMenu
map_after (done (reply, m')) m = m'
map_after _ m = m

-- What a series of requests does: the answers, and the map after them.
unfoldable pub specified_all :
    Curation
    → Menu
    → List (Option Admin × MenuRequest)
    → OwnMenu
    → List (Response MenuReply) × OwnMenu
unfolding specified specified_answer map_after
specified_all c menu [] m = ([], m)
specified_all c menu ((admin, request) ∷ requests) m =
    let edit = specified c menu admin request m in
    let later = specified_all c menu requests (map_after edit m) in
    (specified_answer edit ∷ later.0, later.1)

-- The same answer, and files that stand for the map.
pub data Matches : Edited → Specified → Type 0 where
  both_done :
      {files : Files} {m : OwnMenu} (reply : MenuReply)
      → Stands files m
      → Matches (done (reply, files)) (done (reply, m))
  both_auth_error : Matches auth_error auth_error
  both_bad_request : Matches bad_request bad_request
  both_not_found : Matches not_found not_found
  both_conflict : Matches conflict conflict
  both_raised : Matches raised raised

Matches-of_Agrees :
    (refused : Response Files) (refused' : Response OwnMenu) (reply : MenuReply) {r : Result Files}
    {o : Option OwnMenu}
    → Matches (refused >>= λ files. done (reply, files)) (refused' >>= λ m. done (reply, m))
    → Agrees r o
    → Matches
        (edited refused r >>= λ files. done (reply, files))
        (or_error refused' o >>= λ m. done (reply, m))
unfolding edited
Matches-of_Agrees refused refused' reply h (both_edit s) = both_done reply s
Matches-of_Agrees refused refused' reply h both_refuse = h

module _ (c : Curation) (menu : Menu) (loads : load_dir c.shipped ≡ ok menu) where
  own-Matches :
      (id : String) (x : Edited) (y : Specified)
      → Matches x y
      → Matches
          (require_own c id >>= λ _. x)
          (require_that (not (is_some (lookup id menu))) conflict tt >>= λ _. y)
  unfolding require_own require_that
  own-Matches id x y h = elim (Bool-cases (is_some (lookup id menu))) [
    | inl e ↦ rw (loads, require_own, e) both_conflict
    | inr e ↦ rw (loads, require_own, e) h
  ]

  create-Matches :
      (form : Json) (files : Files) (m : OwnMenu)
      → Stands files m
      → Matches
          (built_from c form >>= λ d.
            save_descriptor c d files >>= λ files'. done (created d, files'))
          (composed c form >>= λ (d, capability).
            or_error conflict (added menu capability m) >>= λ m'. done (created d, m'))
  unfolding built_from composed build_descriptor save_descriptor descriptor
  create-Matches (obj form) files m s = go (checked_parts c.strip c.is_zero (form_of form)) refl
    where
      go :
          (x : Built Parts)
          → checked_parts c.strip c.is_zero (form_of form) ≡ x
          → Matches
              (built_from c (obj form) >>= λ d.
                save_descriptor c d files >>= λ files'. done (created d, files'))
              (composed c (obj form) >>= λ (d, capability).
                or_error conflict (added menu capability m) >>= λ m'. done (created d, m'))
      go build_error e = rw (e, composed, built_from, build_descriptor) both_bad_request
      go raised e = rw (e, composed, built_from, build_descriptor) both_raised
      go (built p) e =
          let chosen = (checked_parts-IsChecked c.strip c.is_zero (form_of form) p e).chosen in
          rw (e, composed, built_from, build_descriptor)
            (Matches-of_Agrees conflict conflict (created (descriptor p)) both_conflict (
              save-Agrees c.shipped menu files m (descriptor p) (described p) loads
                (decoded_descriptor c.strip p chosen) s))
  create-Matches null files m s = both_bad_request
  create-Matches (bool _) files m s = both_bad_request
  create-Matches (int _) files m s = both_bad_request
  create-Matches (float _) files m s = both_bad_request
  create-Matches (str _) files m s = both_bad_request
  create-Matches (arr _) files m s = both_bad_request

  by_author-Matches :
      (request : MenuRequest) (files : Files) (m : OwnMenu)
      → IsPlain c request
      → Stands files m
      → Matches
          (curate c (some (record { id = ""; role = role_author })) request (some files))
          (specified_by_author c menu request m)
  unfolding curate create_capability set_capability_enabled delete_capability specified_by_author
      require_role require_menu_curation
  by_author-Matches (create form) files m plain s = create-Matches form files m s
  by_author-Matches (set_enabled id enabled) files m plain s = own-Matches id _ _ (
      Matches-of_Agrees not_found not_found (switched_to id enabled) both_not_found
        (set_enabled-Agrees c.paths id enabled files m plain s))
  by_author-Matches (delete id) files m plain s = own-Matches id _ _ (
      Matches-of_Agrees not_found not_found (deleted id) both_not_found
        (delete-Agrees c.paths id files m plain s))

  curate_author :
      (a : Admin) (request : MenuRequest) (custom : Option Files)
      → (a.role == role_author) ≡ true
      → curate c (some a) request custom
        ≡ curate c (some (record { id = ""; role = role_author })) request custom
  unfolding curate create_capability set_capability_enabled delete_capability require_role
  curate_author a (create form) custom h = rw h refl
  curate_author a (set_enabled id enabled) custom h = rw h refl
  curate_author a (delete id) custom h = rw h refl

  curate_other :
      (admin : Option Admin) (request : MenuRequest) (custom : Option Files)
      → require_role admin role_author ≡ auth_error
      → curate c admin request custom ≡ auth_error
  unfolding curate create_capability set_capability_enabled delete_capability
  curate_other admin (create form) custom h = rw h refl
  curate_other admin (set_enabled id enabled) custom h = rw h refl
  curate_other admin (delete id) custom h = rw h refl

  curate-Matches :
      (admin : Option Admin) (request : MenuRequest) (files : Files) (m : OwnMenu)
      → IsPlain c request
      → Stands files m
      → Matches (curate c admin request (some files)) (specified c menu admin request m)
  unfolding specified require_role
  curate-Matches none request files m plain s =
      rw (curate_other none request (some files) refl) both_auth_error
  curate-Matches (some a) request files m plain s = elim (Bool-cases (a.role == role_author)) [
    | inl e ↦
        rw (curate_author a request (some files) e, e) (by_author-Matches request files m plain s)
    | inr e ↦ rw (curate_other (some a) request (some files) (rw e refl), e) both_auth_error
  ]

  after-Matches :
      {edit : Edited} {spec : Specified} (files : Files) (m : OwnMenu)
      → Stands files m
      → Matches edit spec
      → (answer_of edit ≡ specified_answer spec)
        × Stands (files_after edit files) (map_after spec m)
  unfolding answer_of specified_answer files_after map_after
  after-Matches files m s (both_done reply s') = (refl, s')
  after-Matches files m s both_auth_error = (refl, s)
  after-Matches files m s both_bad_request = (refl, s)
  after-Matches files m s both_not_found = (refl, s)
  after-Matches files m s both_conflict = (refl, s)
  after-Matches files m s both_raised = (refl, s)

  curate_all-Stands :
      (requests : List (Option Admin × MenuRequest)) (files : Files) (m : OwnMenu)
      → All (λ (r : Option Admin × MenuRequest). IsPlain c r.1) requests
      → Stands files m
      → ((curate_all c requests files).0 ≡ (specified_all c menu requests m).0)
        × Stands (curate_all c requests files).1 (specified_all c menu requests m).1
  unfolding curate_all specified_all
  curate_all-Stands [] files m plain s = (refl, s)
  curate_all-Stands ((admin, request) ∷ requests) files m (plain, all) s =
      let (answered, s') = after-Matches files m s (curate-Matches admin request files m plain s) in
      let (later, s'') = curate_all-Stands requests _ _ all s' in (rw (answered, later) refl, s'')

  -- From an empty directory, whatever requests are made and by whom, the answers are those of the map
  -- from ids to capabilities, and the directory loads, to a catalog that has for each id what
  -- the map has. Asked: the shipped capabilities load, and the path of an id that is switched or deleted
  -- leads to the file of the directory that is named after it.
  pub curate_all-refines :
      (requests : List (Option Admin × MenuRequest))
      → All (λ (r : Option Admin × MenuRequest). IsPlain c r.1) requests
      → ((curate_all c requests []).0 ≡ (specified_all c menu requests (λ _. none)).0)
        × ((loaded : Menu) × (load_dir (curate_all c requests []).1 ≡ ok loaded)
            × ((id : String) → lookup id loaded ≡ (specified_all c menu requests (λ _. none)).1 id))
  curate_all-refines requests plain =
      let opening : Stands [] (λ _. none) = record {
        dir = record { all_capabilities = tt; unique = tt };
        same = λ id. refl;
      } in
      let (answered, s) = curate_all-Stands requests [] (λ _. none) plain opening in
      let (loaded, eq, at) = load_dir_lem (curate_all c requests []).1 s.dir in
      (answered, (loaded, eq, λ id. at id ∙ s.same id))
