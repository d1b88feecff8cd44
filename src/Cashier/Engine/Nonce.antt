-- ===== src/Cashier/Engine/Nonce.antt =====
-- cashier/engine.py: the nonces over calls of `process_order`.
use tanaka.Prelude.{ℕ, String, ◌≡◌, refl, true, ◌||◌, ◌==◌, Option, List, eq_refl, arith}
use tanaka.Host.{Host}
use tanaka.Spine.{Order}
use tanaka.Chain.{Table}
use tanaka.Cashier.Store.{CashierStore, nonce_is_spent, record_accept}
use tanaka.Cashier.Store.Laws.{nonce_is_spent-nonce_seen}
use tanaka.Cashier.Policy.{Policy}
use tanaka.Cashier.Engine.{reject, replay, Menu, evaluate_order, Readings, Spawn, process_order}
use tanaka.Cashier.Engine.Decide.{evaluate_order_iff, spent}
use tanaka.Cashier.Engine.Process.{StoreAfter, refused, counted, process_order-StoreAfter}

spent-record_accept :
    (s : CashierStore) (now : ℕ) (p c n : String)
    → nonce_is_spent (record_accept s now p c) n ≡ nonce_is_spent s n
unfolding nonce_is_spent record_accept
spent-record_accept s now p c n = refl

module _ (host : Host) (private_key : host.PrivateKey) (A : Type 0) where
  open host use {Bytes}

  module _ (order : Order) (menu : Menu) (policy_set : List Policy) (readings : Readings)
      (spawn : Option (Spawn Bytes A)) (store : CashierStore) (rows : Table Bytes) where
    -- Accepted or not, an order leaves exactly its own nonce spent beside the old ones.
    pub nonce_is_spent-process_order :
        (n : String)
        → nonce_is_spent
            (process_order host private_key order menu policy_set readings spawn store rows).store
            n
          ≡ (n == order.nonce || nonce_is_spent store n)
    nonce_is_spent-process_order n =
        go (
          process_order-StoreAfter host private_key order menu policy_set readings spawn store rows)
      where
        go :
            {s : CashierStore}
            → StoreAfter host private_key order menu policy_set readings spawn store rows s
            → nonce_is_spent s n ≡ (n == order.nonce || nonce_is_spent store n)
        go (refused reason e) = nonce_is_spent-nonce_seen store order.nonce n
        go (counted key resource e) =
            rw spent-record_accept (nonce_is_spent-nonce_seen store order.nonce n)

  -- The stores that any further orders lead to; menu, policies, clocks, ledger and hook may change
  -- from order to order.
  pub data Later (s : CashierStore) : CashierStore → Type 0 where
    now : Later s s
    order :
        {t : CashierStore}
        → Later s t
        → (o : Order) (menu : Menu) (policy_set : List Policy) (readings : Readings)
          (spawn : Option (Spawn Bytes A)) (rows : Table Bytes)
        → Later s (process_order host private_key o menu policy_set readings spawn t rows).store

  spent-Later :
      {s t : CashierStore} (n : String)
      → nonce_is_spent s n ≡ true
      → Later s t
      → nonce_is_spent t n ≡ true
  spent-Later n h now = h
  spent-Later n h (order {t = t} before o menu policy_set readings spawn rows) =
      rw
        (
          nonce_is_spent-process_order o menu policy_set readings spawn t rows n,
          spent-Later n h before,
        )
        (ground arith)

  -- Once an order has been processed, accepted or not, every later order with its nonce is
  -- rejected as a replay, whatever was processed in between and whatever menu and policies hold by
  -- then.
  pub processed_once :
      (o : Order) (menu : Menu) (policy_set : List Policy) (readings : Readings)
      (spawn : Option (Spawn Bytes A)) (store : CashierStore) (rows : Table Bytes)
      {t : CashierStore}
      → Later (process_order host private_key o menu policy_set readings spawn store rows).store t
      → (o' : Order) (menu' : Menu) (policy_set' : List Policy) (time : ℕ) → o'.nonce ≡ o.nonce
      → evaluate_order o' menu' policy_set' t time ≡ reject replay
  processed_once o menu policy_set readings spawn store rows {t} later o' menu' policy_set' time
        same =
      (evaluate_order_iff o' menu' policy_set' t time (reject replay)).1 (
        spent (
          rw same (
            spent-Later o.nonce
              (rw (
                nonce_is_spent-process_order o menu policy_set readings spawn store rows o.nonce,
                eq_refl,
              ))
              later)))
