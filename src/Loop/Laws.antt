-- ===== src/Loop/Laws.antt =====
-- loop.py: what a placed order leaves.
use tanaka.Prelude.{
  true, ℕ, ◌+◌, String, ◌≡◌, refl, ap, Option, none, some, List, [], ◌∷◌, arith, length,
  length-append, ◌∙◌, All,
}
use tanaka.Json.{obj, str, dict}
use tanaka.Host.{Host}
use tanaka.Spine.{Order, Ticket, order_meta_from_order}
use tanaka.Chain.{Table, next_seq, verified}
use tanaka.Ledger.{verify_ledger}
use tanaka.Ledger.Laws.{IsIntact, verified_of_IsIntact, IsIntact-of_verified}
use tanaka.Cashier.Store.{CashierStore, nonce_seen, record_accept}
use tanaka.Cashier.Engine.{
  ticket_signable_dict, Decision, accept, reject, ReasonCode, Spawn, after_spawn, Processed,
  Outcome, ticketed, rejected, evaluate_order, Readings, mint, run_spawn, process_order,
}
use tanaka.Cashier.Engine.Process.{IsRefused, mint_is_signed, process_order-IsRefused, after_accept}
use tanaka.Chef.Runner.{ChefResult, chef_process}
use tanaka.Chef.Runner.Laws.{IsRecorded, Ran, recorded, unrecorded, run_chef-Ran, Runs}
use tanaka.Loop.{Wiring, LoopState, spawn, place, place_all}

module _ (host : Host) (w : Wiring host.Bytes host.PrivateKey) where
  open host use {Bytes, PrivateKey, public_key, dumps, verify}

  module _ (order : Order) (readings : Readings) (chef_hex : String) (s : LoopState Bytes) where
    abbrev after : LoopState Bytes
    after = (place host w order readings chef_hex s).1

    abbrev verdict : Decision
    verdict = evaluate_order order w.menu w.policy_set s.store readings.rate_now

    -- What a placed order leaves, by the verdict of the cashier.
    pub data Placed (last : String) : Option (Outcome Bytes) → Type 0 where
      refused :
          (reason : ReasonCode)
          → verdict ≡ reject reason
          → after.last_chef ≡ none
          → (r : IsRefused host w.private_key order w.menu w.policy_set readings
              (some (spawn host w (some (order_meta_from_order order)) chef_hex))
              s.store
              s.rows
              last
              reason)
          → Placed last (some (rejected reason r.receipt))
      served :
          (key resource : String) (t : Ticket Bytes) (chef : ChefResult Bytes)
          → verdict ≡ accept key resource
          → t.order_id ≡ order.order_id
          → t.capability_id ≡ order.capability_id
          → t.scoped_args ≡ dict ((key, str resource) ∷ [])
          → verify (public_key w.private_key) t.cashier_sig (dumps (obj (ticket_signable_dict t)))
            ≡ true
          → after.last_chef ≡ some chef
          → IsRecorded host w.private_key w.service t
              (some (order_meta_from_order order))
              s.rows
              last
              chef
              after.rows
          → Placed last (some (ticketed t))

    abbrev hook : Option (Spawn Bytes (ChefResult Bytes))
    hook = some (spawn host w (some (order_meta_from_order order)) chef_hex)

    refused_Placed :
        (last : String) (reason : ReasonCode)
        → IsIntact host w.private_key s.rows last
        → verdict ≡ reject reason
        → Placed last (place host w order readings chef_hex s).0
    unfolding place
    refused_Placed last reason h e =
        let r =
          process_order-IsRefused host w.private_key order w.menu w.policy_set readings hook s.store
            s.rows last reason h e in
        rw r.outcome (refused reason e r.spawned r)

    -- How a placed order ends: with what `Placed` says, or, where the cashier accepts and the
    -- runner's process raises, with that exception and the ledger as it was.
    pub data Ended (last : String) : Option (Outcome Bytes) → Type 0 where
      answered : {o : Option (Outcome Bytes)} → Placed last o → Ended last o
      stopped :
          (key resource : String) (t : Ticket Bytes)
          → verdict ≡ accept key resource
          → t.order_id ≡ order.order_id
          → chef_process host w.service t ≡ none
          → after.last_chef ≡ none
          → after.rows ≡ s.rows
          → Ended last none

    spent : CashierStore
    spent =
        record_accept (nonce_seen s.store order.nonce).0 readings.accept_now order.principal
          order.capability_id

    run_Ended :
        (last key resource : String) (t : Ticket Bytes)
        (x : Option (ChefResult Bytes) × Table Bytes)
        → verdict ≡ accept key resource
        → t.order_id ≡ order.order_id
        → t.capability_id ≡ order.capability_id
        → t.scoped_args ≡ dict ((key, str resource) ∷ [])
        → verify (public_key w.private_key) t.cashier_sig (dumps (obj (ticket_signable_dict t)))
          ≡ true
        → process_order host w.private_key order w.menu w.policy_set readings hook s.store s.rows
          ≡ after_spawn host t spent x
        → Ran host w.private_key w.service t (some (order_meta_from_order order)) s.rows last x
        → Ended last (place host w order readings chef_hex s).0
    unfolding place after_spawn
    run_Ended last key resource t _ e same_order same_capability args signed eq
          (recorded chef rows' r) =
        rw eq (
          answered (
            served key resource t chef e same_order same_capability args signed
              (ap (λ (p : Processed Bytes (ChefResult Bytes)). p.spawned) eq) (rw eq r)))
    run_Ended last key resource t _ e same_order same_capability args signed eq
          (unrecorded raises) =
        rw eq (
          stopped key resource t e same_order raises
            (ap (λ (p : Processed Bytes (ChefResult Bytes)). p.spawned) eq)
            (ap (λ (p : Processed Bytes (ChefResult Bytes)). p.rows) eq))

    served_Ended :
        (last key resource : String)
        → IsIntact host w.private_key s.rows last
        → verdict ≡ accept key resource
        → Ended last (place host w order readings chef_hex s).0
    unfolding spawn run_spawn mint spent
    served_Ended last key resource h e =
        let (capability, _, eq) =
          after_accept host w.private_key order w.menu w.policy_set readings hook s.store s.rows key
            resource e in
        let ticket =
          mint host w.private_key order capability (dict ((key, str resource) ∷ [])) readings in
        let r =
          run_chef-Ran host w.private_key w.service ticket (some (order_meta_from_order order))
            chef_hex s.rows last h in
        run_Ended last key resource ticket _ e refl refl refl
          (mint_is_signed host w.private_key order capability key resource readings) eq r

    -- Over an intact ledger a placed order ends in one of three ways. If the cashier rejects, the
    -- outcome carries the code and the receipt that was appended, and no chef ran. If it accepts, the
    -- chef ran on a signed ticket for this order, this capability and the one resource, and its
    -- result is recorded; or the runner's process raised on a ticket with this order's id, no result
    -- is kept, and the ledger is as it was.
    pub place-Ended :
        (last : String)
        → IsIntact host w.private_key s.rows last
        → Ended last (place host w order readings chef_hex s).0
    place-Ended last h = go verdict refl
      where
        go : (d : Decision) → verdict ≡ d → Ended last (place host w order readings chef_hex s).0
        go (reject reason) e = answered (refused_Placed last reason h e)
        go (accept key resource) e = served_Ended last key resource h e

    Placed-of_Ended :
        (last : String) {o : Option (Outcome Bytes)}
        → Runs host w.private_key w.service order.order_id
        → Ended last o
        → Placed last o
    Placed-of_Ended last runs (answered p) = p
    Placed-of_Ended last runs (stopped key resource t e same raises _ _) =
        absurd (runs t same raises)

    pub place-Placed :
        (last : String)
        → Runs host w.private_key w.service order.order_id
        → IsIntact host w.private_key s.rows last
        → Placed last (place host w order readings chef_hex s).0
    place-Placed last runs h = Placed-of_Ended last runs (place-Ended last h)

    pub one_more :
        (last : String) {o : Option (Outcome Bytes)}
        → Placed last o
        → ((r : String) × IsIntact host w.private_key after.rows r)
          × (length after.rows ≡ length s.rows + 1)
    unfolding place
    one_more last (refused reason e none_ran r) = (
      (r.receipt.this_hash, r.intact),
      rw r.appended (omega (arith, length-append s.rows ((next_seq s.rows, r.text) ∷ []))),
    )
    one_more last (served key resource t chef e _ _ _ _ _ r) = (
      (chef.receipt.this_hash, r.intact),
      rw r.appended (omega (arith, length-append s.rows ((next_seq s.rows, r.text) ∷ []))),
    )

  -- Every order leaves exactly one receipt: if the verifier accepts the ledger with a count of
  -- `n`, and the runner's process does not raise on tickets with the ids of the orders, then after
  -- these orders, whatever their verdicts and whatever the chef's exit code and draft, the verifier
  -- accepts the ledger with a count of `n` and the number of the orders.
  pub place_all-verified :
      (orders : List (Order × Readings × String)) (s : LoopState Bytes) (n : ℕ)
      → All
          (λ (o : Order × Readings × String). Runs host w.private_key w.service o.0.order_id)
          orders
      → verify_ledger host (public_key w.private_key) s.rows ≡ verified n
      → verify_ledger host (public_key w.private_key) (place_all host w orders s).rows
        ≡ verified (n + length orders)
  unfolding place_all
  place_all-verified [] s n all h = h ∙ ap verified (omega arith)
  place_all-verified ((order, readings, chef_hex) ∷ rest) s n (runs, all) h =
      let ((last, intact), counted) = IsIntact-of_verified host w.private_key s.rows n h in
      let s' = (place host w order readings chef_hex s).1 in
      let ((last', intact'), longer) =
        one_more order readings chef_hex s last
          (place-Placed order readings chef_hex s last runs intact) in
      place_all-verified rest s' (n + 1) all (
        verified_of_IsIntact host w.private_key s'.rows last' intact'
        ∙ ap verified (omega (arith, longer, counted)))
      ∙ ap verified (omega arith)
