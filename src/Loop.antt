-- ===== src/Loop.antt =====
-- loop.py: the object that holds the cashier's key and wires the cashier to the chef.
pub mod Laws
use tanaka.Prelude.{ℕ, String, Option, none, some, List, [], ◌∷◌}
use tanaka.Json.{Json}
use tanaka.Host.{Host}
use tanaka.Spine.{Order, Ticket, Receipt, order_meta_from_order}
use tanaka.Chain.{Table}
use tanaka.Cashier.Store.{CashierStore}
use tanaka.Cashier.Policy.{Policy}
use tanaka.Cashier.Engine.{Menu, Readings, Outcome, Processed, Spawn, process_order}
use tanaka.Chef.Runner.{Service, ChefResult, run_chef}

-- What does not change from order to order.
pub record Wiring (B K : Type 0) : Type 0 where
  pub private_key : K
  pub menu : Menu
  pub policy_set : List Policy
  pub service : Service B K

-- What does: the nonces and times, the ledger, and the last chef's result.
pub record LoopState (B : Type 0) : Type 0 where
  pub store : CashierStore
  pub rows : Table B
  pub last_chef : Option (ChefResult B)

module _ (host : Host) where
  open host use {Bytes, PrivateKey}

  -- `_spawn`: the metadata rides beside the ticket. `chef_hex` is the fresh id of the receipt.
  unfoldable pub spawn :
      Wiring Bytes PrivateKey → Option Json → String → Spawn Bytes (ChefResult Bytes)
  spawn w order_meta chef_hex ticket rows =
      run_chef host w.private_key w.service ticket order_meta chef_hex rows

  unfoldable pub place :
      Wiring Bytes PrivateKey
      → Order
      → Readings
      → String
      → LoopState Bytes
      → Option (Outcome Bytes) × LoopState Bytes
  place w order readings chef_hex s =
      let p =
        process_order host w.private_key order w.menu w.policy_set readings
          (some (spawn w (some (order_meta_from_order order)) chef_hex)) s.store s.rows in
      (p.outcome, record { store = p.store; rows = p.rows; last_chef = p.spawned })

  -- A day's orders, each with what is read from outside while it is placed.
  unfoldable pub place_all :
      Wiring Bytes PrivateKey → List (Order × Readings × String) → LoopState Bytes → LoopState Bytes
  place_all w [] s = s
  place_all w ((order, readings, chef_hex) ∷ rest) s =
      place_all w rest (place w order readings chef_hex s).1
