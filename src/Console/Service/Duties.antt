-- ===== src/Console/Service/Duties.antt =====
-- console/service.py: who may put which version in force.
use tanaka.Prelude.{
  ℕ, String, ◌==◌, ◌≡◌, ◌≢◌, refl, ap, sym, ◌∙◌, Bool, true, false, not, Option, none, some, List,
  ◌∷◌, eq_iff, eq_refl, arith, Bool-cases, Option-cases, inl, inr,
}
use tanaka.Prelude.Texts.{concat}
use tanaka.Json.{Json, str, Fields, get, is_text, is_text-eq}
use tanaka.Host.{Host}
use tanaka.Chain.{Table}
use tanaka.PolicyStore.{Draft, Version, append_version}
use tanaka.Console.Candidate.{needs_second_admin, valid_policy_list}
use tanaka.Console.Service.{
  materialize, Admin, role_author, role_reviewer, Response, done, auth_error, bad_request,
  not_found, conflict, raised, ◌>>=◌, require_role, require_reason, require_that, value_at,
  find_version, Reply, status_for, ConsoleState, Console, Change, publish_flagged, publish_content,
  publish_request, publish, approve_request, approve_draft, approve,
}

bind_inv :
    {A B : Type 0} (m : Response A) (f : A → Response B) {b : B}
    → (m >>= f) ≡ done b
    → (a : A) × (m ≡ done a) × (f a ≡ done b)
bind_inv (done a) f h = (a, refl, h)
bind_inv _ f h = cc

require_role_inv :
    (admin : Option Admin) (role : String) {a : Admin}
    → require_role admin role ≡ done a
    → (admin ≡ some a) × (a.role ≡ role)
unfolding require_role
require_role_inv none role h = cc
require_role_inv (some admin) role h = elim (Bool-cases (admin.role == role)) [
  | inl p ↦
      let same : done admin ≡ done _ = rw (p, require_role) at h in
      let it : admin ≡ _ = cc same in
      (ap some it, ap (λ (x : Admin). x.role) (sym it) ∙ (eq_iff admin.role role).0 p)
  | inr q ↦ cc (rw (q, require_role) at h)
]

require_that_inv :
    {A : Type 0} (b : Bool) (otherwise : Response A) (a : A) {x : A}
    → ((y : A) → otherwise ≢ done y)
    → require_that b otherwise a ≡ done x
    → b ≡ true
unfolding require_that
require_that_inv true otherwise a n h = refl
require_that_inv false otherwise a n h = elim (n _ h) [ ]

value_at_inv : (v : Option Json) {j : Json} → value_at v ≡ done j → v ≡ some j
unfolding value_at
value_at_inv none h = cc
value_at_inv (some v) h = cc

is_text_of_eq : (v : Option Json) (s : String) → v ≡ some (str s) → is_text v s ≡ true
is_text_of_eq v s h = rw h (eq_refl s)

module _ (host : Host) (c : Console host.PrivateKey) where
  open host use {Bytes, PrivateKey}

  -- The approval of a proposal by a reviewer who is not its author, and the version that follows.
  pub record IsDutiful (admin : Option Admin) (seq : ℕ) (s : ConsoleState Bytes) (draft : Draft)
      : Type 0 where
    pub reviewer : Admin
    pub admin_is : admin ≡ some reviewer
    pub role : reviewer.role ≡ role_reviewer
    pub proposal : Fields
    pub stored : find_version host s seq ≡ done proposal
    pub pending : get "status" proposal ≡ some (str "pending")
    pub other_author : get "author" proposal ≢ some (str reviewer.id)
    pub author : get "author" proposal ≡ some draft.author
    pub policies : get "policies" proposal ≡ some draft.policies
    pub status : draft.status ≡ "active"
    pub approved_by : draft.approved_by ≡ some reviewer.id

  pub approve_request-IsDutiful :
      (admin : Option Admin) (seq : ℕ) (hex : String) (s : ConsoleState Bytes) (draft : Draft)
      → approve_request host c admin seq hex s ≡ done draft
      → IsDutiful admin seq s draft
  unfolding approve_request
  approve_request-IsDutiful admin seq hex s draft h =
      let (a, e₁, h₁) = bind_inv (require_role admin role_reviewer) _ h in
      let (target, e₂, h₂) = bind_inv (find_version host s seq) _ h₁ in
      let (status, e₃, h₃) = bind_inv (value_at (get "status" target)) _ h₂ in
      let (_, e₄, h₄) =
        bind_inv (require_that (is_text (some status) "pending") conflict tt) _ h₃ in
      let (author, e₅, h₅) = bind_inv (value_at (get "author" target)) _ h₄ in
      let (_, e₆, h₆) =
        bind_inv (require_that (not (is_text (some author) a.id)) auth_error tt) _ h₅ in
      let (policies, e₇, h₇) = bind_inv (value_at (get "policies" target)) _ h₆ in
      let built : record {
        version_hex = hex;
        policies = policies;
        author = author;
        reason =
            concat "approved proposal seq "
              (concat (c.decimal seq) (concat " (reviewer " (concat a.id ")")));
        status = "active";
        approved_by = some a.id;
      }
          ≡ draft =
        cc h₇ in
      let (admin_is, role) = require_role_inv admin role_reviewer e₁ in
      let by_author = value_at_inv (get "author" target) e₅ in
      let differs =
        require_that_inv (not (is_text (some author) a.id)) auth_error tt (λ y e. cc e) e₆ in
      rw (← built) (record {
        reviewer = a;
        admin_is = admin_is;
        role = role;
        proposal = target;
        stored = e₂;
        pending =
            value_at_inv (get "status" target) e₃
            ∙ is_text-eq (some status) "pending"
                (require_that_inv (is_text (some status) "pending") conflict tt (λ y e. cc e) e₄);
        other_author =
            λ e. ground (arith, differs, is_text_of_eq (some author) a.id (sym by_author ∙ e));
        author = by_author;
        policies = value_at_inv (get "policies" target) e₇;
        status = refl;
        approved_by = refl;
      })

  materialize_rows :
      (rows : Table Bytes) (file : Option Json) (answer : Reply)
      → (materialize host rows file answer).1.rows ≡ rows
  unfolding materialize
  materialize_rows rows file answer = ground arith

  approve_draft_inv :
      (seq : ℕ) (s : ConsoleState Bytes) (r : Response Draft) {reply : Reply}
      → (approve_draft host c seq s r).0 ≡ done reply
      → (draft : Draft) × (v : Version) × (r ≡ done draft)
        × (append_version host c.private_key draft s.rows
            ≡ some (v, (approve_draft host c seq s r).1.rows))
  unfolding approve_draft
  approve_draft_inv seq s (done draft) h =
      elim (Option-cases (append_version host c.private_key draft s.rows)) [
        | inl fails ↦ cc (rw (fails, approve_draft) at h)
        | inr ((v, rows'), there) ↦ (
          draft,
          v,
          refl,
          there
              ∙ ap (λ (t : Table Bytes). some (v, t))
                  (rw (there, approve_draft, materialize_rows) refl),
        )
      ]
  approve_draft_inv seq s _ h = cc

  -- If an approval is answered, then the caller is a reviewer, the proposal is in the store, it is
  -- pending, and the caller is not its author; and the version that was appended is active, with
  -- the author and the policies of the proposal and the caller as the one who approved.
  pub approve-IsDutiful :
      (admin : Option Admin) (seq : ℕ) (hex : String) (s : ConsoleState Bytes) (reply : Reply)
      → (approve host c admin seq hex s).0 ≡ done reply
      → (draft : Draft) × (v : Version) × IsDutiful admin seq s draft
        × (append_version host c.private_key draft s.rows
            ≡ some (v, (approve host c admin seq hex s).1.rows))
  unfolding approve
  approve-IsDutiful admin seq hex s reply h =
      let (draft, v, asked, appended) =
        approve_draft_inv seq s (approve_request host c admin seq hex s) h in
      (draft, v, approve_request-IsDutiful admin seq hex s draft asked, appended)

  publish_flagged_waits :
      (hex : String) (change : Change) (id : String) (ids : List String) (s : ConsoleState Bytes)
      → (publish_flagged host c hex change (id ∷ ids) s).1.file ≡ s.file
  unfolding publish_flagged status_for
  publish_flagged_waits hex change id ids s = ground arith

  -- The policies of the change, where there is one, ask for a second admin.
  abbrev Flagged : Response Change → Type 0
  Flagged (done change) =
      (id : String) × (ids : List String) × (needs_second_admin c.catalog change.policies
        ≡ some (id ∷ ids))
  Flagged _ = Unit

  publish_content_waits :
      (hex : String) (s : ConsoleState Bytes) (r : Response Change)
      → Flagged r
      → (publish_content host c hex s r).1.file ≡ s.file
  unfolding publish_content
  publish_content_waits hex s (done change) (id, ids, flagged) =
      rw (flagged, publish_content) (publish_flagged_waits hex change id ids s)
  publish_content_waits hex s auth_error h = refl
  publish_content_waits hex s bad_request h = refl
  publish_content_waits hex s not_found h = refl
  publish_content_waits hex s conflict h = refl
  publish_content_waits hex s raised h = refl

  policies-publish_request :
      (admin : Option Admin) (policies reason : Json) (change : Change)
      → publish_request host c admin policies reason ≡ done change
      → change.policies ≡ policies
  unfolding publish_request require_that
  policies-publish_request admin policies reason change h =
      let (a, _, h₁) = bind_inv (require_role admin role_author) _ h in
      let (p, e, h₂) =
        bind_inv (require_that (valid_policy_list policies) bad_request policies) _ h₁ in
      let (text, _, h₃) = bind_inv (require_reason c.strip reason) _ h₂ in
      let built : record { policies = p; author = a.id; reason = text } ≡ change = cc h₃ in
      ap (λ (x : Change). x.policies) (sym built) ∙ ground arith

  -- Where the candidate grants a capability that needs a second admin, publishing it leaves the file
  -- that the engine loads as it is, whoever publishes and however the request ends.
  pub publish_waits :
      (admin : Option Admin) (policies reason : Json) (hex id : String) (ids : List String)
      (s : ConsoleState Bytes)
      → needs_second_admin c.catalog policies ≡ some (id ∷ ids)
      → (publish host c admin policies reason hex s).1.file ≡ s.file
  unfolding publish
  publish_waits admin policies reason hex id ids s flagged =
      publish_content_waits hex s (publish_request host c admin policies reason) (
        by_request (publish_request host c admin policies reason)
          (λ change e. policies-publish_request admin policies reason change e))
    where
      by_request :
          (r : Response Change)
          → ((change : Change) → r ≡ done change → change.policies ≡ policies)
          → Flagged r
      by_request (done change) same =
          (id, ids, ap (needs_second_admin c.catalog) (same change refl) ∙ flagged)
      by_request auth_error same = tt
      by_request bad_request same = tt
      by_request not_found same = tt
      by_request conflict same = tt
      by_request raised same = tt
