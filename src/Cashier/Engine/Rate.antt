-- ===== src/Cashier/Engine/Rate.antt =====
-- cashier/engine.py: the rate limit over calls of `process_order`.
use tanaka.Prelude.{
  ℕ, ◌≤◌, ◌<◌, String, ◌≡◌, true, false, ◌&&◌, ◌==◌, Option, some, List, [], ◌∷◌, ℤ, pos, negsuc,
  reaches, All, arith, Bool-cases, inl, inr, eq_iff,
}
use tanaka.Host.{Host}
use tanaka.Spine.{Order}
use tanaka.Chain.{Table}
use tanaka.Cashier.Store.{
  CashierStore, empty_store, nonce_seen, times_of, count_recent, rate_count, record_accept,
}
use tanaka.Cashier.Store.Laws.{
  history-nonce_seen, times_of-add_time, count_recent-append, count_recent_antitone,
}
use tanaka.Cashier.Policy.{Policy, for_role}
use tanaka.Cashier.Engine.{accept, Menu, Readings, Spawn, process_order}
use tanaka.Cashier.Engine.Decide.{evaluate_order_iff}
use tanaka.Cashier.Engine.Process.{StoreAfter, refused, counted, process_order-StoreAfter}

for_role-All :
    (P : Policy → Type 0) (ps : List Policy) (role : String) (p : Policy)
    → All P ps
    → for_role ps role ≡ some p
    → P p
unfolding for_role
for_role-All P [] role p h e = cc
for_role-All P (q ∷ ps) role p h e = elim (Bool-cases (q.role == role)) [
  | inl here ↦ let same : q ≡ p = cc (rw (here, for_role) at e) in rw same at h.0
  | inr there ↦ for_role-All P ps role p h.1 (rw (there, for_role) at e)
]

-- The limit of a policy is at most `limit`; a negative one lets nothing through.
abbrev pub LimitLe : ℕ → Policy → Type 0
LimitLe limit p = reaches limit p.rate_limit_per_hour ≡ true

below : (count limit : ℕ) (l : ℤ) → reaches limit l ≡ true → reaches count l ≡ false → count < limit
below count limit (pos n) h e = ground arith
below count limit (negsuc n) h e = cc

module _ (limit : ℕ) where
  -- At the time `now` no key has more than `limit` accepted orders in its window.
  abbrev pub IsBounded : ℕ → CashierStore → Type 0
  IsBounded now s = (p c : String) → rate_count s now p c ≤ limit

  IsBounded-later :
      {now later : ℕ} (s : CashierStore) → now ≤ later → IsBounded now s → IsBounded later s
  unfolding rate_count
  IsBounded-later {now} {later} s h b p c =
      omega (arith, count_recent_antitone now later (times_of p c s.history) h, b p c)

  count_one : (now : ℕ) → count_recent now (now ∷ []) ≡ 1
  unfolding count_recent
  count_one now = ground arith

  record_accept-IsBounded :
      (s : CashierStore) (checked stored : ℕ) (p c : String)
      → checked ≤ stored
      → IsBounded checked s
      → rate_count s checked p c < limit
      → IsBounded stored (record_accept s stored p c)
  unfolding rate_count record_accept
  record_accept-IsBounded s checked stored p c h b room q d = elim (Bool-cases (p == q && c == d)) [
    | inl same ↦
        let fewer = count_recent_antitone checked stored (times_of p c s.history) h in
        let keys : (p ≡ q) × (c ≡ d) = ground (arith, eq_iff p q, eq_iff c d) in
        rw (times_of-add_time, same, count_recent-append, count_one, ← keys.0, ← keys.1)
          (omega arith)
    | inr other ↦
        rw (times_of-add_time, other)
          (omega (arith, count_recent_antitone checked stored (times_of q d s.history) h, b q d))
  ]

  nonce_seen-IsBounded :
      (s : CashierStore) (now : ℕ) (n : String) → IsBounded now s → IsBounded now (nonce_seen s n).0
  unfolding rate_count
  nonce_seen-IsBounded s now n b p c = rw history-nonce_seen (b p c)

  module _ (host : Host) (private_key : host.PrivateKey) (A : Type 0) where
    open host use {Bytes}

    -- One call keeps the bound, if every policy in force has a limit of at most `limit` and the
    -- clock does not run backwards.
    process_order-IsBounded :
        (o : Order) (menu : Menu) (policy_set : List Policy) (readings : Readings)
        (spawn : Option (Spawn Bytes A)) (store : CashierStore) (rows : Table Bytes) {now : ℕ}
        → All (LimitLe limit) policy_set
        → now ≤ readings.rate_now
        → readings.rate_now ≤ readings.accept_now
        → IsBounded now store
        → IsBounded readings.accept_now
            (process_order host private_key o menu policy_set readings spawn store rows).store
    process_order-IsBounded o menu policy_set readings spawn store rows limits h k b =
        go (process_order-StoreAfter host private_key o menu policy_set readings spawn store rows)
      where
        checked : IsBounded readings.rate_now (nonce_seen store o.nonce).0
        checked = nonce_seen-IsBounded store readings.rate_now o.nonce (IsBounded-later store h b)

        go :
            {s : CashierStore}
            → StoreAfter host private_key o menu policy_set readings spawn store rows s
            → IsBounded readings.accept_now s
        go (refused reason e) = IsBounded-later (nonce_seen store o.nonce).0 k checked
        go (counted key resource e) =
            let p =
              (evaluate_order_iff o menu policy_set store readings.rate_now (accept key resource)).0
                e in
            record_accept-IsBounded (nonce_seen store o.nonce).0 readings.rate_now
              readings.accept_now o.principal o.capability_id k checked
              (unfold rate_count in
                rw history-nonce_seen (
                  below _ limit p.policy.rate_limit_per_hour
                    (for_role-All (LimitLe limit) policy_set o.role p.policy limits p.has_policy)
                    (unfold rate_count in p.below_limit)))

    -- The states that orders lead to from an empty store, each with the last time on the clock.
    pub data Served : CashierStore → ℕ → Type 0 where
      start : Served empty_store 0
      order :
          {store : CashierStore} {now : ℕ}
          → Served store now
          → (o : Order) (menu : Menu) (policy_set : List Policy) (readings : Readings)
            (spawn : Option (Spawn Bytes A)) (rows : Table Bytes)
          → All (LimitLe limit) policy_set
          → now ≤ readings.rate_now
          → readings.rate_now ≤ readings.accept_now
          → Served
              (process_order host private_key o menu policy_set readings spawn store rows).store
              readings.accept_now

    -- From an empty store, whatever orders are processed, no principal ever has more than `limit`
    -- accepted orders for one capability in the trailing window, if every policy in force has a
    -- limit of at most `limit` and the clock does not run backwards.
    pub Served-IsBounded : {store : CashierStore} {now : ℕ} → Served store now → IsBounded now store
    Served-IsBounded start = λ p c. unfold rate_count times_of count_recent in omega arith
    Served-IsBounded
          (order {store = store} before o menu policy_set readings spawn rows limits h k) =
        process_order-IsBounded o menu policy_set readings spawn store rows limits h k
          (Served-IsBounded before)
