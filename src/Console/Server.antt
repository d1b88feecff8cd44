-- ===== src/Console/Server.antt =====
-- console/server.py: one HTTP request to the console, from its signature to the service and back. The
-- service is an interface here: what it keeps is a state of some type.
pub mod Authorised
use Prim.Native.Char.{code}
use Prim.Native.String
use tanaka.Prelude.{
  ℕ, String, ◌==◌, Bool, true, false, ◌&&◌, ◌||◌, Option, none, some, List, [], ◌∷◌, eqb, ℤ,
  if◌then◌else◌,
}
use tanaka.Prelude.Texts.{starts_with, ends_with}
use tanaka.Json.{Json, null, bool, int, float, str, arr, obj, Fields, end, get, opt_json}
use tanaka.Host.{Host}
use tanaka.Console.Service.{
  Admin, Response, done, auth_error, bad_request, not_found, conflict, raised,
}
use tanaka.Console.SignedAuth.{Numerals, KeyEntry, Headers, verify_request}

-- The methods of `ConsoleService` that the routes call, over what it keeps: those that read it, and those that
-- may change it. A sequence number is any integer that a path or a body gives.
pub record ConsoleApi (S : Type 0) : Type 0 where
  pub capabilities : Admin → S → Response Json
  pub policies : Admin → S → Response Json
  pub activity : Admin → S → Response Json
  pub receipt : Admin → ℤ → S → Response Json
  pub templates : Admin → S → Response Json
  pub menu : Admin → S → Response Json
  pub simulate : Admin → Json → Json → S → Response Json
  pub run_drill : Admin → S → Response Json
  pub publish : Admin → Json → Json → S → Response Json × S
  pub rollback : Admin → Json → Json → S → Response Json × S
  pub approve : Admin → ℤ → S → Response Json × S
  pub create_capability : Admin → Json → S → Response Json × S
  pub set_capability_enabled : Admin → String → Bool → S → Response Json × S
  pub delete_capability : Admin → String → S → Response Json × S

abbrev slash : ℕ
slash = 47

-- `path.split("?", 1)[0]`
unfoldable pub before_query : String → String
before_query String.[] = String.[]
before_query (String.◌∷◌ c s) = if eqb (code c) 63 then String.[] else String.◌∷◌ c (before_query s)

-- `path.rstrip("/")` and `path.lstrip("/")`
unfoldable pub rstrip_slash : String → String
rstrip_slash String.[] = String.[]
rstrip_slash (String.◌∷◌ c s) =
    let rest = rstrip_slash s in
    if eqb (code c) slash && rest == "" then String.[] else String.◌∷◌ c rest

unfoldable pub lstrip_slash : String → String
lstrip_slash String.[] = String.[]
lstrip_slash (String.◌∷◌ c s) =
    let rest = lstrip_slash s in if eqb (code c) slash then rest else String.◌∷◌ c s

-- `path.split("?", 1)[0].rstrip("/") or "/"`
unfoldable pub route_path : String → String
unfolding before_query rstrip_slash
route_path path = let p = rstrip_slash (before_query path) in if p == "" then "/" else p

-- A character in front of the first part.
abbrev grown : String → List String → List String
grown c [] = c ∷ []
grown c (part ∷ parts) = String.◌++◌ c part ∷ parts

-- `text.split("/")`
unfoldable pub split_slash : String → List String
split_slash String.[] = "" ∷ []
split_slash (String.◌∷◌ c s) =
    let rest = split_slash s in
    if eqb (code c) slash then "" ∷ rest else grown (String.◌∷◌ c String.[]) rest

unfoldable pub segments : String → List String
unfolding split_slash rstrip_slash lstrip_slash
segments path = split_slash (rstrip_slash (lstrip_slash path))

-- `parts[-1]` and `parts[-2]`; `none` is an `IndexError`.
unfoldable pub last_part : List String → Option String
last_part [] = none
last_part (p ∷ []) = some p
last_part (p ∷ q ∷ ps) = last_part (q ∷ ps)

unfoldable pub part_before_last : List String → Option String
part_before_last [] = none
part_before_last (p ∷ []) = none
part_before_last (p ∷ q ∷ []) = some p
part_before_last (p ∷ q ∷ r ∷ ps) = part_before_last (q ∷ r ∷ ps)

-- `_int_segment`; `int_of` is `int(text)`.
unfoldable pub int_segment : (String → Option ℤ) → Option String → Response ℤ
int_segment int_of none = bad_request
int_segment int_of (some part) = elim (int_of part) [ none ↦ bad_request | some n ↦ done n ]

-- `_str_segment`
unfoldable pub str_segment : Option String → Response String
str_segment none = bad_request
str_segment (some part) = done part

-- A method of the service on an argument that may be missing.
abbrev read_with : {A S : Type 0} → Response A → (A → S → Response Json) → S → Response Json
read_with (done a) f s = f a s
read_with auth_error f s = auth_error
read_with bad_request f s = bad_request
read_with not_found f s = not_found
read_with conflict f s = conflict
read_with raised f s = raised

abbrev change_with :
    {A S : Type 0} → Response A → (A → S → Response Json × S) → S → Response Json × S
change_with (done a) f s = f a s
change_with auth_error f s = (auth_error, s)
change_with bad_request f s = (bad_request, s)
change_with not_found f s = (not_found, s)
change_with conflict f s = (conflict, s)
change_with raised f s = (raised, s)

unfoldable pub route_get :
    {S : Type 0} → ConsoleApi S → (String → Option ℤ) → String → Admin → S → Response Json
unfolding segments last_part int_segment
route_get service int_of path admin s =
    if path == "/api/capabilities"
    then service.capabilities admin s
    else if path == "/api/policies"
    then service.policies admin s
    else if path == "/api/activity"
    then service.activity admin s
    else if starts_with "/api/receipt/" path
    then read_with (int_segment int_of (last_part (segments path))) (service.receipt admin) s
    else if path == "/api/menu/templates"
    then service.templates admin s
    else if path == "/api/menu"
    then service.menu admin s
    else not_found

-- `path.startswith(prefix) and path.endswith(suffix)`
abbrev between : String → String → String → Bool
between prefix suffix path = starts_with prefix path && ends_with suffix path

-- The routes on a body that is an object.
unfoldable pub route_post :
    {S : Type 0}
    → ConsoleApi S
    → (String → Option ℤ)
    → String
    → Admin
    → Fields
    → S
    → Response Json × S
unfolding segments part_before_last int_segment str_segment
route_post service int_of path admin body s =
    let field = λ (k : String). opt_json (get k body) in
    let id = str_segment (part_before_last (segments path)) in
    if path == "/api/policies/simulate"
    then (service.simulate admin (field "candidate_policy") (field "sample_orders") s, s)
    else if path == "/api/policies/publish"
    then service.publish admin (field "candidate_policy") (field "reason") s
    else if path == "/api/policies/rollback"
    then service.rollback admin (field "target_seq") (field "reason") s
    else if between "/api/policies/" "/approve" path
    then change_with (int_segment int_of (part_before_last (segments path))) (service.approve admin)
        s
    else if path == "/api/drill/run"
    then (service.run_drill admin s, s)
    else if path == "/api/menu/capabilities"
    then service.create_capability admin (obj body) s
    else if between "/api/menu/capabilities/" "/enable" path
    then change_with id (λ c s. service.set_capability_enabled admin c true s) s
    else if between "/api/menu/capabilities/" "/disable" path
    then change_with id (λ c s. service.set_capability_enabled admin c false s) s
    else if between "/api/menu/capabilities/" "/delete" path
    then change_with id (service.delete_capability admin) s
    else (not_found, s)

-- The console serves these two.
pub data Method : Type 0 where
  get_method post_method : Method

abbrev pub method_text : Method → String
method_text get_method = "GET"
method_text post_method = "POST"

-- What is sent: a page, a status with the result or the error, or nothing after an exception.
pub data HttpAnswer : Type 0 where
  page : String → HttpAnswer
  json_answer : ℕ → Option Json → HttpAnswer
  dropped : HttpAnswer

unfoldable pub answer_with : Response Json → HttpAnswer
answer_with (done result) = json_answer 200 (some result)
answer_with auth_error = json_answer 403 none
answer_with bad_request = json_answer 400 none
answer_with not_found = json_answer 404 none
answer_with conflict = json_answer 409 none
answer_with raised = dropped

-- `_STATIC_FILES.get(path)`
unfoldable pub static_file : String → Option String
static_file path =
    if path == "/" || path == "/index.html"
    then some "index.html"
    else if path == "/app.js"
    then some "app.js"
    else none

-- What the server is built with; the empty body, whether a body is empty, and the files that can be read.
pub record ConsoleServer (B K S : Type 0) : Type 0 where
  pub service : ConsoleApi S
  pub registry : List (String × KeyEntry K)
  pub no_body : B
  pub is_empty : B → Bool
  pub readable : String → Bool

module _ (host : Host) (numerals : Numerals) {S : Type 0} where
  open host use {Bytes, PublicKey, loads}

  -- `_parse_body`
  unfoldable pub parse_body : ConsoleServer Bytes PublicKey S → Bytes → Response Fields
  parse_body server raw =
      if server.is_empty raw
      then done end
      else elim (loads raw) [ some (obj body) ↦ done body | _ ↦ bad_request ]

  -- `_route`
  unfoldable pub route :
      ConsoleServer Bytes PublicKey S → Method → String → Admin → Bytes → S → Response Json × S
  unfolding route_get route_post parse_body
  route server get_method path admin raw s =
      (route_get server.service numerals.int_of path admin s, s)
  route server post_method path admin raw s =
      change_with (parse_body server raw) (route_post server.service numerals.int_of path admin) s

  -- After the test of the signature.
  unfoldable pub dispatch_as :
      ConsoleServer Bytes PublicKey S → Method → String → Bytes → Option Admin → S → HttpAnswer × S
  unfolding route answer_with route_path
  dispatch_as server method path raw none s = (json_answer 401 none, s)
  dispatch_as server method path raw (some admin) s =
      let (response, s') = route server method (route_path path) admin raw s in
      (answer_with response, s')

  -- A GET is signed over an empty body.
  unfoldable pub signed_body : ConsoleServer Bytes PublicKey S → Method → Bytes → Bytes
  signed_body server get_method body = server.no_body
  signed_body server post_method body = body

  unfoldable pub dispatch :
      ConsoleServer Bytes PublicKey S → Method → String → Headers → Bytes → ℕ → S → HttpAnswer × S
  unfolding dispatch_as signed_body
  dispatch server method path headers body now s =
      let raw = signed_body server method body in
      dispatch_as server method path raw
        (verify_request host numerals server.registry (method_text method) path raw headers now) s

  -- `do_GET` and `do_POST`
  unfoldable pub handle_http :
      ConsoleServer Bytes PublicKey S → Method → String → Headers → Bytes → ℕ → S → HttpAnswer × S
  unfolding dispatch static_file before_query
  handle_http server post_method path headers body now s =
      dispatch server post_method path headers body now s
  handle_http server get_method path headers body now s = elim (static_file (before_query path)) [
    | none ↦ dispatch server get_method path headers body now s
    | some file ↦ (if server.readable file then page file else json_answer 404 none, s)
  ]
