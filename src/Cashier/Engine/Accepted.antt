-- ===== src/Cashier/Engine/Accepted.antt =====
-- cashier/engine.py: the orders that were accepted, counted without the cashier's own store.
use tanaka.Prelude.{
  ℕ, ◌+◌, ◌≤◌, String, ◌==◌, ◌&&◌, ◌≡◌, refl, ◌∙◌, ltb, List, [], ◌∷◌, ◌++◌, arith, Bool-cases, inl,
  inr, if◌then◌else◌,
}
use tanaka.Host.{Host}
use tanaka.Spine.{Order}
use tanaka.Chain.{Table}
use tanaka.Cashier.Store.{
  CashierStore, nonce_seen, times_of, count_recent, rate_count, record_accept,
}
use tanaka.Cashier.Store.Laws.{history-nonce_seen, times_of-add_time, count_recent-append}
use tanaka.Cashier.Policy.{Policy}
use tanaka.Cashier.Engine.{Decision, accept, reject, Menu, Readings, evaluate_order}
use tanaka.Cashier.Engine.Process.{StoreAfter, refused, counted, process_order-StoreAfter}
use tanaka.Cashier.Engine.Rate.{Served, start, order, Served-IsBounded}

-- An order that was accepted: for whom, for what, and when.
pub record Acceptance : Type 0 where
  pub principal : String
  pub capability_id : String
  pub at : ℕ

accepted_by : Order → Readings → Decision → List Acceptance
accepted_by o readings (accept key resource) =
    record { principal = o.principal; capability_id = o.capability_id; at = readings.accept_now }
    ∷ []
accepted_by o readings (reject reason) = []

-- How many orders of a principal for a capability were accepted less than an hour before `now`.
pub accepted_within : ℕ → String → String → List Acceptance → ℕ
accepted_within now p c [] = 0
accepted_within now p c (a ∷ log) =
    (if a.principal == p && a.capability_id == c && ltb now (a.at + 3600) then 1 else 0)
    + accepted_within now p c log

accepted_within-append :
    (now : ℕ) (p c : String) (xs ys : List Acceptance)
    → accepted_within now p c (xs ++ ys) ≡ accepted_within now p c xs + accepted_within now p c ys
unfolding accepted_within
accepted_within-append now p c [] ys = omega arith
accepted_within-append now p c (x ∷ xs) ys = omega (arith, accepted_within-append now p c xs ys)

count_one : (now t : ℕ) → count_recent now (t ∷ []) ≡ (if ltb now (t + 3600) then 1 else 0)
unfolding count_recent
count_one now t = ground arith

rate_count-nonce_seen :
    (s : CashierStore) (n : String) (now : ℕ) (p c : String)
    → rate_count (nonce_seen s n).0 now p c ≡ rate_count s now p c
unfolding rate_count
rate_count-nonce_seen s n now p c = rw history-nonce_seen refl

rate_count-record_accept :
    (s : CashierStore) (t now : ℕ) (p c q d : String)
    → rate_count (record_accept s t p c) now q d
      ≡ rate_count s now q d + (if p == q && c == d && ltb now (t + 3600) then 1 else 0)
unfolding rate_count record_accept
rate_count-record_accept s t now p c q d = elim (Bool-cases (p == q && c == d)) [
  | inl same ↦ rw (times_of-add_time, same, count_recent-append, count_one) ground (arith, same)
  | inr other ↦ rw (times_of-add_time, other) ground (arith, other)
]

module _ (limit : ℕ) (host : Host) (private_key : host.PrivateKey) (A : Type 0) where
  open host use {Bytes}

  -- The orders that were accepted on the way to a state.
  pub log :
      {store : CashierStore} {now : ℕ} → Served limit host private_key A store now → List Acceptance
  log start = []
  log (order {store = store} before o menu policy_set readings spawn rows _ _ _) =
      log before
      ++ accepted_by o readings (evaluate_order o menu policy_set store readings.rate_now)

  rate_count_step :
      (o : Order) (menu : Menu) (policy_set : List Policy) (readings : Readings) (spawn : _)
      (store : CashierStore) (rows : Table Bytes) (now : ℕ) (p c : String) {s : CashierStore}
      → StoreAfter host private_key {A = A} o menu policy_set readings spawn store rows s
      → rate_count s now p c
        ≡ rate_count store now p c
          + accepted_within now p c
              (accepted_by o readings (evaluate_order o menu policy_set store readings.rate_now))
  unfolding accepted_within accepted_by
  rate_count_step o menu policy_set readings spawn store rows now p c (refused reason e) =
      rw (e, accepted_by) (rate_count-nonce_seen store o.nonce now p c ∙ omega arith)
  rate_count_step o menu policy_set readings spawn store rows now p c (counted key resource e) =
      rw (e, accepted_by)
        (omega (
          arith,
          rate_count-record_accept (nonce_seen store o.nonce).0 readings.accept_now now o.principal
              o.capability_id p c,
          rate_count-nonce_seen store o.nonce now p c,
        ))

  -- What the store counts is what was accepted.
  rate_count-log :
      {store : CashierStore} {now : ℕ} (h : Served limit host private_key A store now) (later : ℕ)
      (p c : String)
      → rate_count store later p c ≡ accepted_within later p c (log h)
  unfolding log
  rate_count-log start later p c = unfold rate_count times_of count_recent accepted_within in refl
  rate_count-log (order {store = store} before o menu policy_set readings spawn rows _ _ _) later p
        c =
      omega (
        arith,
        rate_count_step o menu policy_set readings spawn store rows later p c
            (process_order-StoreAfter host private_key o menu policy_set readings spawn store rows),
        rate_count-log before later p c,
        accepted_within-append later p c (log before)
            (accepted_by o readings (evaluate_order o menu policy_set store readings.rate_now)),
      )

  -- From an empty store, whatever orders are processed, no principal has had more than `limit`
  -- orders accepted for one capability within an hour of the last reading of the clock, if every
  -- policy in force has a limit of at most `limit` and the clock does not run backwards.
  pub accepted-IsBounded :
      {store : CashierStore} {now : ℕ} (h : Served limit host private_key A store now)
      (p c : String)
      → accepted_within now p c (log h) ≤ limit
  accepted-IsBounded {now = now} h p c =
      omega (arith, rate_count-log h now p c, Served-IsBounded limit host private_key A h p c)
