-- ===== src/Cashier/Engine/Window.antt =====
-- cashier/engine.py and cashier/store.py: the rate limit wears off.
use tanaka.Prelude.{
  ℕ, ◌+◌, ◌≤◌, String, ◌==◌, ◌&&◌, ◌≡◌, refl, true, false, Option, some, List, [], ◌∷◌, lookup,
  elem, reaches, All, All-append, arith, Bool-cases, inl, inr,
}
use tanaka.Json.{str}
use tanaka.Host.{Host}
use tanaka.Spine.{Order, Capability}
use tanaka.Chain.{Table}
use tanaka.Cashier.Scope.{resource_of}
use tanaka.Cashier.Scope.Laws.{IsOwn}
use tanaka.Cashier.Store.{
  CashierStore, empty_store, nonce_is_spent, nonce_seen, times_of, count_recent, rate_count,
  rate_window_seconds, record_accept,
}
use tanaka.Cashier.Store.Laws.{history-nonce_seen, times_of-add_time}
use tanaka.Cashier.Policy.{Policy, for_role}
use tanaka.Cashier.Engine.{accept, Menu, Readings, Spawn, evaluate_order, process_order}
use tanaka.Cashier.Engine.Decide.{evaluate_order_iff}
use tanaka.Cashier.Engine.Process.{StoreAfter, refused, counted, process_order-StoreAfter}

-- No accepted order has a time after `now`.
abbrev IsPast : ℕ → CashierStore → Type 0
IsPast now s = (p c : String) → All (λ t. t ≤ now) (times_of p c s.history)

All-later :
    {now later : ℕ} (times : List ℕ)
    → now ≤ later
    → All (λ t. t ≤ now) times
    → All (λ t. t ≤ later) times
All-later [] h a = tt
All-later (t ∷ times) h a = (omega (arith, a.0), All-later times h a.1)

record_accept-IsPast :
    (s : CashierStore) (now later : ℕ) (p c : String)
    → now ≤ later
    → IsPast now s
    → IsPast later (record_accept s later p c)
unfolding record_accept
record_accept-IsPast s now later p c h a q d = elim (Bool-cases (p == q && c == d)) [
  | inl same ↦
      rw (times_of-add_time, same)
        (All-append (λ t. t ≤ later) (times_of q d s.history) (later ∷ [])
          (All-later (times_of q d s.history) h (a q d)) (omega arith, tt))
  | inr other ↦ rw (times_of-add_time, other) (All-later (times_of q d s.history) h (a q d))
]

count_recent_past :
    (now later : ℕ) (times : List ℕ)
    → now + rate_window_seconds ≤ later
    → All (λ t. t ≤ now) times
    → count_recent later times ≡ 0
unfolding count_recent
count_recent_past now later [] h a = refl
count_recent_past now later (t ∷ times) h a =
    ground (arith, h, a.0, count_recent_past now later times h a.1)

module _ (host : Host) (private_key : host.PrivateKey) (A : Type 0) where
  open host use {Bytes}

  -- The states that orders lead to from an empty store, each with the last time on the clock.
  pub data Reached : CashierStore → ℕ → Type 0 where
    start : Reached empty_store 0
    order :
        {store : CashierStore} {now : ℕ}
        → Reached store now
        → (o : Order) (menu : Menu) (policy_set : List Policy) (readings : Readings)
          (spawn : Option (Spawn Bytes A)) (rows : Table Bytes)
        → now ≤ readings.accept_now
        → Reached
            (process_order host private_key o menu policy_set readings spawn store rows).store
            readings.accept_now

  Reached-IsPast : {store : CashierStore} {now : ℕ} → Reached store now → IsPast now store
  Reached-IsPast start = λ p c. unfold times_of in tt
  Reached-IsPast
        (order {store = store} {now = now} before o menu policy_set readings spawn rows h) =
      go (Reached-IsPast before)
        (process_order-StoreAfter host private_key o menu policy_set readings spawn store rows)
    where
      go :
          {s : CashierStore}
          → IsPast now store
          → StoreAfter host private_key o menu policy_set readings spawn store rows s
          → IsPast readings.accept_now s
      go past (refused reason e) =
          λ p c. rw history-nonce_seen (All-later (times_of p c store.history) h (past p c))
      go past (counted key resource e) =
          record_accept-IsPast (nonce_seen store o.nonce).0 now readings.accept_now o.principal
            o.capability_id h (λ p c. rw history-nonce_seen (past p c))

  -- A limit that is reached does not last: from an empty store, whatever orders were processed and
  -- whatever the verdicts, one window after the last of them an order with an unspent nonce, for a listed
  -- capability that its role is granted and that is not paused, on a resource of its own, is
  -- accepted, if the policy's limit is positive and the clock did not run backwards.
  pub accepted-again :
      {store : CashierStore} {now : ℕ} (later : ℕ) (o : Order) (menu : Menu)
      (policy_set : List Policy) (capability : Capability) (policy : Policy) (resource : String)
      → Reached store now
      → now + rate_window_seconds ≤ later
      → nonce_is_spent store o.nonce ≡ false
      → lookup o.capability_id menu ≡ some capability
      → for_role policy_set o.role ≡ some policy
      → elem o.capability_id policy.allowed_capabilities ≡ true
      → elem o.capability_id policy.paused_capabilities ≡ false
      → resource_of capability.scoped_input o.args ≡ some (str resource)
      → IsOwn o.principal resource
      → reaches 0 policy.rate_limit_per_hour ≡ false
      → evaluate_order o menu policy_set store later ≡ accept capability.scoped_input resource
  unfolding rate_count
  accepted-again {store} {now} later o menu policy_set capability policy resource reached h fresh
        listed role granted running given own limit =
      let idle =
        count_recent_past now later (times_of o.principal o.capability_id store.history) h
          (Reached-IsPast reached o.principal o.capability_id) in
      (evaluate_order_iff o menu policy_set store later (accept capability.scoped_input resource)).1
        (record {
          capability = capability;
          policy = policy;
          fresh = fresh;
          on_menu = listed;
          has_policy = role;
          granted = granted;
          running = running;
          scoped_key = refl;
          given = given;
          own = own;
          below_limit = unfold rate_count in rw idle limit;
        })
