-- ===== src/Cashier/Engine/Process.antt =====
-- What `process_order` does with each verdict, over an intact ledger.
use tanaka.Prelude.{
  String, ◌≡◌, refl, ap, true, Option, none, some, List, [], ◌∷◌, ◌++◌, lookup, arith,
}
use tanaka.Json.{obj, str, dict}
use tanaka.Host.{Host}
use tanaka.Spine.{Capability, Order, Ticket, Receipt, order_meta_from_order}
use tanaka.Chain.{Table, next_seq}
use tanaka.Ledger.{append_after}
use tanaka.Ledger.Laws.{IsIntact, append_after_eq, append_after-IsIntact, appended_text}
use tanaka.Cashier.Store.{CashierStore, nonce_seen, record_accept}
use tanaka.Cashier.Policy.{Policy}
use tanaka.Cashier.Engine.{
  Decision, accept, reject, ReasonCode, reason_text, Menu, evaluate_order, Readings, rejected,
  Processed, Spawn, rejection_entry, ticket_signable_dict, mint, reject_order, after_spawn,
  run_spawn, act, process_order,
}
use tanaka.Cashier.Engine.Decide.{evaluate_order_iff}

module _ (host : Host) (private_key : host.PrivateKey) where
  open host use {Bytes, dumps, verify, public_key, verify-sign}

  -- A ticket's signature verifies over the seven keys that the chef recomputes.
  pub mint_is_signed :
      (order : Order) (capability : Capability) (key resource : String) (readings : Readings)
      → let t = mint host private_key order capability (dict ((key, str resource) ∷ [])) readings in
        verify (public_key private_key) t.cashier_sig (dumps (obj (ticket_signable_dict t))) ≡ true
  unfolding mint ticket_signable_dict
  mint_is_signed order capability key resource readings = verify-sign private_key _

  module _ {A : Type 0} (order : Order) (menu : Menu) (policy_set : List Policy)
      (readings : Readings) (spawn : Option (Spawn Bytes A)) (store : CashierStore)
      (rows : Table Bytes) where
    abbrev verdict : Decision
    verdict = evaluate_order order menu policy_set store readings.rate_now

    abbrev after : Processed Bytes A
    after = process_order host private_key order menu policy_set readings spawn store rows

    -- What a refusal leaves: a receipt of the order with the code, at the end of the ledger, and no
    -- trace of the hook; of the store only the nonce has changed.
    pub record IsRefused (last : String) (reason : ReasonCode) : Type 0 where
      pub receipt : Receipt Bytes
      pub text : Bytes
      pub outcome : after.outcome ≡ some (rejected reason receipt)
      pub spawned : after.spawned ≡ none
      pub store_after : after.store ≡ (nonce_seen store order.nonce).0
      pub appended : after.rows ≡ rows ++ (next_seq rows, text) ∷ []
      pub linked : receipt.prev_hash ≡ last
      pub of_order : receipt.order_id ≡ order.order_id
      pub without_ticket : receipt.ticket_id ≡ none
      pub status : receipt.status ≡ "REJECTED"
      pub code : receipt.reason_code ≡ some (reason_text reason)
      pub named : receipt.order_meta ≡ some (order_meta_from_order order)
      pub intact : IsIntact host private_key after.rows receipt.this_hash

    after_reject :
        (last : String) (reason : ReasonCode)
        → IsIntact host private_key rows last
        → verdict ≡ reject reason
        → let written =
            append_after host private_key
              (rejection_entry order reason readings.receipt_hex)
              rows
              last in
          after ≡ record {
            outcome = some (rejected reason written.0);
            store = (nonce_seen store order.nonce).0;
            rows = written.1;
            spawned = none;
          }
    unfolding process_order act reject_order
    after_reject last reason h e = rw (
      e,
      act,
      reject_order,
      append_after_eq host private_key (rejection_entry order reason readings.receipt_hex) rows last
          h,
    )

    -- If the verdict is a rejection and the ledger is intact, then the call refuses the order with
    -- that code and records it.
    pub process_order-IsRefused :
        (last : String) (reason : ReasonCode)
        → IsIntact host private_key rows last
        → verdict ≡ reject reason
        → IsRefused last reason
    unfolding append_after rejection_entry
    process_order-IsRefused last reason h e =
        let entry = rejection_entry order reason readings.receipt_hex in
        let eq = after_reject last reason h e in
        record {
          receipt = (append_after host private_key entry rows last).0;
          text = appended_text host private_key entry last;
          outcome = ap (λ (p : Processed Bytes A). p.outcome) eq;
          spawned = ap (λ (p : Processed Bytes A). p.spawned) eq;
          store_after = ap (λ (p : Processed Bytes A). p.store) eq;
          appended = ap (λ (p : Processed Bytes A). p.rows) eq;
          linked = refl;
          of_order = refl;
          without_ticket = refl;
          status = refl;
          code = refl;
          named = refl;
          intact = rw eq (append_after-IsIntact host private_key entry rows last h);
        }

    -- If the verdict accepts, the menu has the capability, and the call mints its ticket, counts
    -- the order and hands both on to the hook.
    pub after_accept :
        (key resource : String)
        → verdict ≡ accept key resource
        → (capability : Capability) × (lookup order.capability_id menu ≡ some capability)
          × (after
              ≡ run_spawn host spawn
                  (mint host private_key order capability
                    (dict ((key, str resource) ∷ []))
                    readings)
                  (record_accept
                    (nonce_seen store order.nonce).0
                    readings.accept_now
                    order.principal
                    order.capability_id)
                  rows)
    unfolding process_order act
    after_accept key resource e =
        let permitted =
          (evaluate_order_iff order menu policy_set store readings.rate_now (accept key resource)).0
            e in
        (permitted.capability, permitted.on_menu, rw (e, act, permitted.on_menu))

    -- The two ways in which the store can come out of a call.
    pub data StoreAfter : CashierStore → Type 0 where
      refused :
          (reason : ReasonCode)
          → verdict ≡ reject reason
          → StoreAfter (nonce_seen store order.nonce).0
      counted :
          (key resource : String)
          → verdict ≡ accept key resource
          → StoreAfter (
              record_accept
                (nonce_seen store order.nonce).0
                readings.accept_now
                order.principal
                order.capability_id)

    store-after_spawn :
        (t : Ticket Bytes) (s : CashierStore) (r : Option A × Table Bytes)
        → (after_spawn host t s r).store ≡ s
    unfolding after_spawn
    store-after_spawn t s (none, rows') = refl
    store-after_spawn t s (some a, rows') = refl

    store_of_spawn :
        (h : Option (Spawn Bytes A)) (t : Ticket Bytes) (s : CashierStore)
        → (run_spawn host h t s rows).store ≡ s
    unfolding run_spawn
    store_of_spawn none t s = refl
    store_of_spawn (some f) t s = store-after_spawn t s (f t rows)

    store_of_reject :
        (reason : ReasonCode) (s : CashierStore)
        → (reject_order host {A = A} private_key order reason readings s rows).store ≡ s
    unfolding reject_order
    store_of_reject reason s = ground arith

    pub process_order-StoreAfter : StoreAfter after.store
    process_order-StoreAfter = go verdict refl
      where
        go : (d : Decision) → verdict ≡ d → StoreAfter after.store
        go (reject reason) e =
            let eq : after.store ≡ (nonce_seen store order.nonce).0 =
              unfold process_order act in rw (e, act) (store_of_reject reason _) in
            rw eq (refused reason e)
        go (accept key resource) e =
            let (capability, on_menu, eq) = after_accept key resource e in
            let same : after.store
                ≡ record_accept (nonce_seen store order.nonce).0 readings.accept_now order.principal
                    order.capability_id =
              rw eq (store_of_spawn spawn _ _) in
            rw same (counted key resource e)
