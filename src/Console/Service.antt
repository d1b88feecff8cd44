-- ===== src/Console/Service.antt =====
-- console/service.py: publishing, approving and rolling back policies, with the second-admin gate
-- and the separation of duties. The catalog is the one that is live at the time of the call.
pub mod Duties
pub mod History
use tanaka.Prelude.{
  ℕ, String, ◌==◌, Bool, true, false, ◌||◌, not, Option, none, some, List, [], ◌∷◌, eqb,
  if◌then◌else◌,
}
use tanaka.Prelude.Texts.{concat}
use tanaka.Json.{Json, null, str, obj, Fields, get, is_text}
use tanaka.Host.{Host}
use tanaka.Chain.{Table}
use tanaka.Cashier.Engine.{Menu}
use tanaka.PolicyStore.{Draft, Version, append_version, read_all, materialize_active}
use tanaka.Console.Candidate.{valid_policy_list, needs_second_admin}

pub record Admin : Type 0 where
  pub id : String
  pub role : String

abbrev pub role_author : String
role_author = "author"

abbrev pub role_reviewer : String
role_reviewer = "reviewer"

-- An answer, one of the console's errors, or an exception that none of them is.
pub data Response (A : Type 0) : Type 0 where
  done : A → Response A
  auth_error bad_request not_found conflict raised : Response A

infixl 5 ◌>>=◌
abbrev pub ◌>>=◌ : {A B : Type 0} → Response A → (A → Response B) → Response B
done a >>= f = f a
auth_error >>= f = auth_error
bad_request >>= f = bad_request
not_found >>= f = not_found
conflict >>= f = conflict
raised >>= f = raised

unfoldable pub require_role : Option Admin → String → Response Admin
require_role none role = auth_error
require_role (some admin) role = if admin.role == role then done admin else auth_error

-- A reason is a text that is not blank; `strip` is the method of `str`.
unfoldable pub require_reason : (String → String) → Json → Response String
require_reason strip (str reason) = if strip reason == "" then bad_request else done reason
require_reason strip _ = bad_request

unfoldable pub require_that : {A : Type 0} → Bool → Response A → A → Response A
require_that true otherwise a = done a
require_that false otherwise a = otherwise

-- `row[key]`
unfoldable pub value_at : Option Json → Response Json
value_at none = raised
value_at (some v) = done v

unfoldable pub find_seq : ℕ → List Version → Response Fields
find_seq seq [] = not_found
find_seq seq ((s, row) ∷ vs) = let rest = find_seq seq vs in if eqb s seq then done row else rest

-- What is answered: `seq`, `version_id`, and the status with the flagged capabilities, or the
-- reviewer and the proposal.
pub data Reply : Type 0 where
  published : ℕ → String → String → List String → Reply
  approved : ℕ → String → String → ℕ → Reply

-- A change to a capability that needs a second admin waits for one.
unfoldable pub status_for : List String → String
status_for [] = "active"
status_for (_ ∷ _) = "pending"

-- The version store, and the file that the engine loads.
pub record ConsoleState (B : Type 0) : Type 0 where
  pub rows : Table B
  pub file : Option Json

-- What the service is built with, and the functions of Python that it uses.
pub record Console (K : Type 0) : Type 0 where
  pub private_key : K
  pub catalog : Menu
  pub strip : String → String
  pub decimal : ℕ → String

-- What `publish` and `rollback` hand to `_publish_content`.
pub record Change : Type 0 where
  pub policies : Json
  pub author : String
  pub reason : String

module _ (host : Host) where
  open host use {Bytes, PrivateKey}

  abbrev pub Answer : Type 0
  Answer = Response Reply × ConsoleState Bytes

  unfoldable pub find_version : ConsoleState Bytes → ℕ → Response Fields
  find_version s seq = elim (read_all host s.rows) [
    | none ↦ raised
    | some versions ↦ find_seq seq versions
  ]

  -- `_materialize`, and the answer that follows it
  unfoldable pub materialize : Table Bytes → Option Json → Reply → Answer
  materialize rows file answer = elim (materialize_active host rows file) [
    | none ↦ (raised, record { rows = rows; file = file })
    | some file' ↦ (done answer, record { rows = rows; file = file' })
  ]

  -- The version is appended with the status that the flagged capabilities ask for; only an active
  -- one is materialized.
  unfoldable pub publish_flagged :
      Console PrivateKey → String → Change → List String → ConsoleState Bytes → Answer
  unfolding materialize status_for
  publish_flagged c hex change flagged s =
      let status = status_for flagged in
      let draft : Draft = record {
        version_hex = hex;
        policies = change.policies;
        author = str change.author;
        reason = change.reason;
        status = status;
        approved_by = none;
      } in
      elim (append_version host c.private_key draft s.rows) [
        | none ↦ (raised, s)
        | some ((seq, row), rows') ↦
            let answer = published seq (concat "pv-" hex) status flagged in
            if status == "active"
            then materialize rows' s.file answer
            else (done answer, record { rows = rows'; file = s.file })
      ]

  unfoldable pub publish_content :
      Console PrivateKey → String → ConsoleState Bytes → Response Change → Answer
  publish_content c hex s (done change) = elim (needs_second_admin c.catalog change.policies) [
    | none ↦ (raised, s)
    | some flagged ↦ publish_flagged c hex change flagged s
  ]
  publish_content c hex s auth_error = (auth_error, s)
  publish_content c hex s bad_request = (bad_request, s)
  publish_content c hex s not_found = (not_found, s)
  publish_content c hex s conflict = (conflict, s)
  publish_content c hex s raised = (raised, s)

  unfoldable pub publish_request : Console PrivateKey → Option Admin → Json → Json → Response Change
  unfolding require_role require_reason require_that
  publish_request c admin candidate_policy reason = do
    a ← require_role admin role_author
    policies ← require_that (valid_policy_list candidate_policy) bad_request candidate_policy
    text ← require_reason c.strip reason
    done (record { policies = policies; author = a.id; reason = text })

  unfoldable pub publish :
      Console PrivateKey → Option Admin → Json → Json → String → ConsoleState Bytes → Answer
  publish c admin candidate_policy reason hex s =
      publish_content c hex s (publish_request c admin candidate_policy reason)

  unfoldable pub rollback_request :
      Console PrivateKey → Option Admin → ℕ → Json → ConsoleState Bytes → Response Change
  unfolding require_role require_reason value_at
  rollback_request c admin target_seq reason s = do
    a ← require_role admin role_author
    text ← require_reason c.strip reason
    target ← find_version s target_seq
    policies ← value_at (get "policies" target)
    done (record {
      policies = policies;
      author = a.id;
      reason = concat "rollback to seq " (concat (c.decimal target_seq) (concat ": " text));
    })

  unfoldable pub rollback :
      Console PrivateKey → Option Admin → ℕ → Json → String → ConsoleState Bytes → Answer
  rollback c admin target_seq reason hex s =
      publish_content c hex s (rollback_request c admin target_seq reason s)

  -- The checks of `approve`, and the version that it appends when they pass.
  unfoldable pub approve_request :
      Console PrivateKey → Option Admin → ℕ → String → ConsoleState Bytes → Response Draft
  unfolding require_role require_that value_at
  approve_request c admin seq hex s = do
    a ← require_role admin role_reviewer
    target ← find_version s seq
    status ← value_at (get "status" target)
    _ ← require_that (is_text (some status) "pending") conflict tt
    author ← value_at (get "author" target)
    _ ← require_that (not (is_text (some author) a.id)) auth_error tt
    policies ← value_at (get "policies" target)
    done (record {
      version_hex = hex;
      policies = policies;
      author = author;
      reason =
          concat "approved proposal seq "
            (concat (c.decimal seq) (concat " (reviewer " (concat a.id ")")));
      status = "active";
      approved_by = some a.id;
    })

  unfoldable pub approve_draft :
      Console PrivateKey → ℕ → ConsoleState Bytes → Response Draft → Answer
  unfolding materialize
  approve_draft c proposal s (done draft) = elim (append_version host c.private_key draft s.rows) [
    | none ↦ (raised, s)
    | some ((seq, row), rows') ↦ materialize rows' s.file (
        approved seq (concat "pv-" draft.version_hex)
          (elim draft.approved_by [ none ↦ "" | some id ↦ id ]) proposal)
  ]
  approve_draft c proposal s auth_error = (auth_error, s)
  approve_draft c proposal s bad_request = (bad_request, s)
  approve_draft c proposal s not_found = (not_found, s)
  approve_draft c proposal s conflict = (conflict, s)
  approve_draft c proposal s raised = (raised, s)

  unfoldable pub approve :
      Console PrivateKey → Option Admin → ℕ → String → ConsoleState Bytes → Answer
  approve c admin seq hex s = approve_draft c seq s (approve_request c admin seq hex s)
