-- ===== src/Console/Server/Authorised.antt =====
-- console/server.py: which requests reach what the service keeps.
use tanaka.Prelude.{ℕ, String, ◌≡◌, ◌≢◌, refl, Option, none, some, Option-cases, inl, inr}
use tanaka.Host.{Host}
use tanaka.Console.Service.{Admin}
use tanaka.Console.SignedAuth.{Numerals, Headers, verify_request}
use tanaka.Console.SignedAuth.Laws.{IsAuthentic, verify_request-IsAuthentic}
use tanaka.Console.Server.{
  Method, get_method, post_method, ConsoleServer, static_file, before_query, route, signed_body,
  dispatch_as, dispatch, handle_http,
}

module _ (host : Host) (numerals : Numerals) {S : Type 0}
    (server : ConsoleServer host.Bytes host.PublicKey S) where
  open host use {Bytes}

  dispatch_get :
      (path : String) (raw : Bytes) (admin : Option Admin) (s : S)
      → (dispatch_as host numerals server get_method path raw admin s).1 ≡ s
  unfolding dispatch_as route
  dispatch_get path raw none s = refl
  dispatch_get path raw (some admin) s = refl

  -- A GET changes nothing.
  get_same :
      (path : String) (headers : Headers) (body : Bytes) (now : ℕ) (s : S)
      → (handle_http host numerals server get_method path headers body now s).1 ≡ s
  unfolding handle_http dispatch
  get_same path headers body now s = elim (Option-cases (static_file (before_query path))) [
    | inl e ↦
        rw (e, handle_http)
          (let raw = signed_body host numerals server get_method body in
            dispatch_get path raw
              (verify_request host numerals server.registry "GET" path raw headers now) s)
    | inr (file, e) ↦ rw (e, handle_http) refl
  ]

  -- A request that changes what the service keeps is a POST that an admin of the registry signed: the
  -- method, the path as it was sent, the body, the admin's id and a timestamp that is at most 300
  -- seconds away from the server's clock.
  pub change-IsAuthentic :
      (method : Method) (path : String) (headers : Headers) (body : Bytes) (now : ℕ) (s : S)
      → (handle_http host numerals server method path headers body now s).1 ≢ s
      → (method ≡ post_method)
        × ((admin : Admin) × IsAuthentic host numerals server.registry "POST" path body headers now
              admin)
  unfolding handle_http dispatch dispatch_as
  change-IsAuthentic get_method path headers body now s change =
      elim (change (get_same path headers body now s)) [ ]
  change-IsAuthentic post_method path headers body now s change = (
    refl,
    elim (Option-cases
        (verify_request host numerals server.registry "POST" path body headers now)) [
          | inl e ↦ elim (change (rw (e, handle_http) refl)) [ ]
          | inr (admin, e) ↦ (
            admin,
            verify_request-IsAuthentic host numerals server.registry "POST" path body headers now
                admin e,
          )
        ],
  )
