-- ===== src/Console/Simulate.antt =====
-- console/service.py: `simulate`, which asks the cashier's pipeline about sample orders with a store
-- of its own.
pub mod Predicts
use tanaka.Prelude.{
  ℕ, suc, String, Bool, true, false, ◌&&◌, Option, none, some, List, [], ◌∷◌, ℤ, lookup,
  if◌then◌else◌,
}
use tanaka.Json.{
  Json, null, bool, int, float, str, arr, obj, Items, nil, cons, Fields, end, get, has_keys,
}
use tanaka.Spine.{Order}
use tanaka.Cashier.Policy.{Policy}
use tanaka.Cashier.Store.{empty_store}
use tanaka.Cashier.Engine.{
  Menu, Decision, accept, reject, ReasonCode, off_menu, role_not_permitted, evaluate_order,
}
use tanaka.Console.Candidate.{valid_policy_list}
use tanaka.Console.Service.{
  Admin, role_author, Response, done, auth_error, bad_request, not_found, conflict, raised, ◌>>=◌,
  require_role, require_that,
}

-- The texts of a list: another value equals no capability's id.
unfoldable pub texts_in : Items → List String
texts_in nil = []
texts_in (cons (str s) items) = s ∷ texts_in items
texts_in (cons _ items) = texts_in items

unfoldable pub listed : Option Json → List String
unfolding texts_in
listed (some (arr items)) = texts_in items
listed _ = []

-- A policy of the candidate, which has passed the tests.
unfoldable pub candidate_policy : Fields → Option Policy
unfolding listed
candidate_policy p = elim (get "role" p) [
  | some (str role) ↦ elim (get "rate_limit_per_hour" p) [
    | some (int limit) ↦ some (record {
      role = role;
      allowed_capabilities = listed (get "allowed_capabilities" p);
      rate_limit_per_hour = limit;
      paused_capabilities = listed (get "paused_capabilities" p);
    })
    | _ ↦ none
  ]
  | _ ↦ none
]

-- `_candidate_policy_set`
unfoldable pub candidate_policy_set : Items → Response (List Policy)
unfolding candidate_policy
candidate_policy_set nil = done []
candidate_policy_set (cons (obj p) ps) = elim (candidate_policy p) [
  | none ↦ raised
  | some policy ↦ candidate_policy_set ps >>= λ policies. done (policy ∷ policies)
]
candidate_policy_set (cons _ ps) = raised

-- A principal that is no text owns nothing, as the empty text does.
abbrev principal_text : Json → String
principal_text (str s) = s
principal_text _ = ""

-- The order of a sample; nothing in the verdict comes from the other fields.
unfoldable pub sample_order : String → Json → String → String → Option Json → Order
sample_order hex principal role capability_id args = record {
  order_id = "sim";
  principal = principal_text principal;
  role = role;
  capability_id = capability_id;
  args = elim args [ none ↦ obj end | some v ↦ v ];
  nonce = hex;
  ts = "simulation";
}

-- The verdict on a sample whose capability's id is a text, by its role.
unfoldable pub sample_verdict :
    Menu → List Policy → String → ℕ → Json → Json → String → Option Json → Decision
unfolding sample_order
sample_verdict catalog policies hex now principal (str role) capability_id args =
    evaluate_order (sample_order hex principal role capability_id args) catalog policies empty_store
      now
sample_verdict catalog policies hex now principal _ capability_id args =
    elim (lookup capability_id catalog) [
      | none ↦ reject off_menu
      | some _ ↦ reject role_not_permitted
    ]

-- One line of the answer: the sample's three fields, and the verdict.
pub record Simulated : Type 0 where
  pub principal : Json
  pub role : Json
  pub capability_id : Json
  pub verdict : Decision

-- An id that cannot be hashed is a `TypeError`; another that is no text is on no menu.
unfoldable pub simulate_sample :
    Menu → List Policy → String → ℕ → Json → Json → Json → Option Json → Response Simulated
unfolding sample_verdict
simulate_sample catalog policies hex now principal role (str capability_id) args = done (record {
  principal = principal;
  role = role;
  capability_id = str capability_id;
  verdict = sample_verdict catalog policies hex now principal role capability_id args;
})
simulate_sample catalog policies hex now principal role (arr _) args = raised
simulate_sample catalog policies hex now principal role (obj _) args = raised
simulate_sample catalog policies hex now principal role capability_id args = done (record {
  principal = principal;
  role = role;
  capability_id = capability_id;
  verdict = reject off_menu;
})

unfoldable pub simulate_one : Menu → List Policy → String → ℕ → Json → Response Simulated
unfolding simulate_sample
simulate_one catalog policies hex now (obj s) = elim (get "principal" s) [
  | none ↦ bad_request
  | some principal ↦ elim (get "role" s) [
    | none ↦ bad_request
    | some role ↦ elim (get "capability_id" s) [
      | none ↦ bad_request
      | some capability_id ↦
          simulate_sample catalog policies hex now principal role capability_id (get "args" s)
    ]
  ]
]
simulate_one catalog policies hex now _ = bad_request

-- The clock is read once for each sample, and each has a fresh nonce.
unfoldable pub simulate_items :
    Menu → List Policy → (ℕ → String × ℕ) → ℕ → Items → Response (List Simulated)
unfolding simulate_one
simulate_items catalog policies reading i nil = done []
simulate_items catalog policies reading i (cons s samples) = do
  result ← simulate_one catalog policies (reading i).0 (reading i).1 s
  results ← simulate_items catalog policies reading (suc i) samples
  done (result ∷ results)

-- `sample_orders` must be a list that is not empty.
unfoldable pub sample_items : Json → Response Items
sample_items (arr (cons s samples)) = done (cons s samples)
sample_items _ = bad_request

unfoldable pub policy_items : Json → Response Items
policy_items (arr ps) = done ps
policy_items _ = bad_request

unfoldable pub simulate :
    Menu → Option Admin → (ℕ → String × ℕ) → Json → Json → Response (List Simulated)
unfolding require_role require_that sample_items policy_items candidate_policy_set simulate_items
simulate catalog admin reading candidate sample_orders = do
  _ ← require_role admin role_author
  _ ← require_that (valid_policy_list candidate) bad_request tt
  samples ← sample_items sample_orders
  ps ← policy_items candidate
  policies ← candidate_policy_set ps
  simulate_items catalog policies reading 0 samples
