-- ===== src/Console/Service/History.antt =====
-- console/service.py: the version history over requests to the console.
use tanaka.Prelude.{
  ℕ, ◌+◌, ◌≤◌, String, ◌==◌, ◌||◌, ◌≡◌, ◌⊎◌, refl, true, Option, none, List, [], ◌∷◌, length, arith,
  Bool-cases, Option-cases, inl, inr,
}
use tanaka.Json.{Json, str}
use tanaka.Host.{Host}
use tanaka.Chain.{Table, verified}
use tanaka.PolicyStore.{Draft, append_version_after, verify_policy_history}
use tanaka.PolicyStore.Laws.{append_version-verified}
use tanaka.Console.Candidate.{needs_second_admin}
use tanaka.Console.Service.Duties.{approve_request-IsDutiful}
use tanaka.Console.Service.{
  Admin, Response, done, Reply, status_for, ConsoleState, Console, Change, materialize,
  publish_flagged, publish_content, publish, rollback, approve_request, approve_draft, approve,
}

-- One request to the console, with the fresh id of the version that it may append.
pub data Request : Type 0 where
  publish_of : Option Admin → Json → Json → String → Request
  rollback_of : Option Admin → ℕ → Json → String → Request
  approve_of : Option Admin → ℕ → String → Request

status_for-valid :
    (flagged : List String)
    → (status_for flagged == "active" || status_for flagged == "pending") ≡ true
unfolding status_for
status_for-valid [] = refl
status_for-valid (x ∷ xs) = refl

module _ (host : Host) (c : Console host.PrivateKey) where
  open host use {Bytes, PublicKey, public_key}

  abbrev pub serve : Request → ConsoleState Bytes → Response Reply × ConsoleState Bytes
  serve (publish_of admin policies reason hex) s = publish host c admin policies reason hex s
  serve (rollback_of admin seq reason hex) s = rollback host c admin seq reason hex s
  serve (approve_of admin seq hex) s = approve host c admin seq hex s

  abbrev pub serve_all : List Request → ConsoleState Bytes → ConsoleState Bytes
  serve_all [] s = s
  serve_all (r ∷ rs) s = serve_all rs (serve r s).1

  -- The rows verify with the count `n`, or with one more.
  abbrev Kept : ℕ → Table Bytes → Type 0
  Kept n rows =
      (verify_policy_history host (public_key c.private_key) rows ≡ verified n)
      ⊎ (verify_policy_history host (public_key c.private_key) rows ≡ verified (n + 1))

  rows-materialize :
      (rows : Table Bytes) (file : Option Json) (answer : Reply)
      → (materialize host rows file answer).1.rows ≡ rows
  unfolding materialize
  rows-materialize rows file answer = ground arith

  publish_flagged-Kept :
      (hex : String) (change : Change) (flagged : List String) (s : ConsoleState Bytes) (n : ℕ)
      → verify_policy_history host (public_key c.private_key) s.rows ≡ verified n
      → Kept n (publish_flagged host c hex change flagged s).1.rows
  unfolding publish_flagged append_version_after
  publish_flagged-Kept hex change flagged s n h =
      let draft : Draft = record {
        version_hex = hex;
        policies = change.policies;
        author = str change.author;
        reason = change.reason;
        status = status_for flagged;
        approved_by = none;
      } in
      let (prev, done_so, longer) =
        append_version-verified host c.private_key draft s.rows n (status_for-valid flagged) h in
      elim (Bool-cases (status_for flagged == "active")) [
        | inl active ↦ rw (done_so, publish_flagged, active, rows-materialize) (inr longer)
        | inr pending ↦ rw (done_so, publish_flagged, pending) (inr longer)
      ]

  publish_content-Kept :
      (hex : String) (s : ConsoleState Bytes) (r : Response Change) (n : ℕ)
      → verify_policy_history host (public_key c.private_key) s.rows ≡ verified n
      → Kept n (publish_content host c hex s r).1.rows
  unfolding publish_content
  publish_content-Kept hex s (done change) n h =
      elim (Option-cases (needs_second_admin c.catalog change.policies)) [
        | inl fails ↦ rw (fails, publish_content) (inl h)
        | inr (flagged, there) ↦
            rw (there, publish_content) (publish_flagged-Kept hex change flagged s n h)
      ]
  publish_content-Kept hex s _ n h = inl h

  approve_draft-Kept :
      (seq : ℕ) (s : ConsoleState Bytes) (r : Response Draft) (n : ℕ)
      → ((draft : Draft) → r ≡ done draft → draft.status ≡ "active")
      → verify_policy_history host (public_key c.private_key) s.rows ≡ verified n
      → Kept n (approve_draft host c seq s r).1.rows
  unfolding approve_draft append_version_after
  approve_draft-Kept seq s (done draft) n active h =
      let valid : (draft.status == "active" || draft.status == "pending") ≡ true =
        rw (active draft refl) refl in
      let (prev, done_so, longer) =
        append_version-verified host c.private_key draft s.rows n valid h in
      rw (done_so, approve_draft, rows-materialize) (inr longer)
  approve_draft-Kept seq s _ n active h = inl h

  serve-Kept :
      (r : Request) (s : ConsoleState Bytes) (n : ℕ)
      → verify_policy_history host (public_key c.private_key) s.rows ≡ verified n
      → Kept n (serve r s).1.rows
  unfolding publish rollback approve
  serve-Kept (publish_of admin policies reason hex) s n h = publish_content-Kept hex s _ n h
  serve-Kept (rollback_of admin seq reason hex) s n h = publish_content-Kept hex s _ n h
  serve-Kept (approve_of admin seq hex) s n h =
      approve_draft-Kept seq s (approve_request host c admin seq hex s) n
        (λ draft e. (approve_request-IsDutiful host c admin seq hex s draft e).status) h

  -- If the history verifies with a count of `n`, then after any list of requests, allowed or not, it
  -- verifies, with a count between `n` and `n` and the number of the requests.
  pub serve_all-verified :
      (requests : List Request) (s : ConsoleState Bytes) (n : ℕ)
      → verify_policy_history host (public_key c.private_key) s.rows ≡ verified n
      → (m : ℕ) × (n ≤ m)
        × (m ≤ n + length requests)
        × (verify_policy_history host (public_key c.private_key) (serve_all requests s).rows
            ≡ verified m)
  serve_all-verified [] s n h = (n, omega arith, omega arith, h)
  serve_all-verified (r ∷ rs) s n h = elim (serve-Kept r s n h) [
    | inl same ↦
        let (m, low, high, ok) = serve_all-verified rs (serve r s).1 n same in
        (m, low, omega (arith, high), ok)
    | inr more ↦
        let (m, low, high, ok) = serve_all-verified rs (serve r s).1 (n + 1) more in
        (m, omega (arith, low), omega (arith, high), ok)
  ]
