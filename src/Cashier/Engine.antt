-- ===== src/Cashier/Engine.antt =====
-- cashier/engine.py: the six steps, the minting of tickets, and the rejection receipts.
pub mod Decide
pub mod Process
pub mod Nonce
pub mod Rate
pub mod Accepted
pub mod Window
use tanaka.Prelude.{
  ℕ, String, Bool, not, Option, none, some, List, [], ◌∷◌, lookup, elem, reaches, if◌then◌else◌,
}
use tanaka.Prelude.Texts.{concat}
use tanaka.Json.{Json, obj, str, Fields, dict}
use tanaka.Host.{Host}
use tanaka.Spine.{Capability, Order, Ticket, Receipt, resolved_behavior, order_meta_from_order}
use tanaka.Chain.{Table}
use tanaka.Ledger.{Entry, append}
use tanaka.Cashier.Store.{CashierStore, nonce_is_spent, nonce_seen, rate_count, record_accept}
use tanaka.Cashier.Policy.{Policy, for_role}
use tanaka.Cashier.Scope.{resource_of, in_scope}

pub data ReasonCode : Type 0 where
  replay off_menu role_not_permitted capability_paused out_of_scope rate_limited : ReasonCode

unfoldable pub reason_text : ReasonCode → String
reason_text replay = "REPLAY"
reason_text off_menu = "OFF_MENU"
reason_text role_not_permitted = "ROLE_NOT_PERMITTED"
reason_text capability_paused = "CAPABILITY_PAUSED"
reason_text out_of_scope = "OUT_OF_SCOPE"
reason_text rate_limited = "RATE_LIMITED"

-- The verdict: the scoped key and the resource, which make up the narrowed arguments, or the
-- code of the step that failed.
pub data Decision : Type 0 where
  accept : String → String → Decision
  reject : ReasonCode → Decision

-- `dict[str, Capability]`
abbrev pub Menu : Type 0
Menu = List (String × Capability)

-- Steps 5 and 6, for a policy that permits the capability.
unfoldable pub check_args : Order → Capability → Policy → CashierStore → ℕ → Decision
check_args order capability policy store now =
    elim (in_scope order.principal (resource_of capability.scoped_input order.args)) [
      | none ↦ reject out_of_scope
      | some resource ↦
          if reaches (rate_count store now order.principal order.capability_id)
            policy.rate_limit_per_hour
          then reject rate_limited
          else accept capability.scoped_input resource
    ]

-- Steps 3 and 4, for a capability on the menu.
unfoldable pub check_policy : Order → Capability → Option Policy → CashierStore → ℕ → Decision
unfolding check_args
check_policy order capability none store now = reject role_not_permitted
check_policy order capability (some policy) store now =
    if not (elem order.capability_id policy.allowed_capabilities)
    then reject role_not_permitted
    else if elem order.capability_id policy.paused_capabilities
    then reject capability_paused
    else check_args order capability policy store now

unfoldable pub evaluate_order : Order → Menu → List Policy → CashierStore → ℕ → Decision
unfolding check_policy
evaluate_order order menu policy_set store now =
    if nonce_is_spent store order.nonce
    then reject replay
    else elim (lookup order.capability_id menu) [
      | none ↦ reject off_menu
      | some capability ↦ check_policy order capability (for_role policy_set order.role) store now
    ]

-- The seven keys that are signed, from the values that a ticket is minted of.
unfoldable pub signable : String → String → String → String → Fields → Fields → String → Fields
signable ticket_id order_id capability_id behavior behavior_config scoped_args issued_ts = dict (
    ("ticket_id", str ticket_id)
    ∷ ("order_id", str order_id)
    ∷ ("capability_id", str capability_id)
    ∷ ("behavior", str behavior)
    ∷ ("behavior_config", obj behavior_config)
    ∷ ("scoped_args", obj scoped_args)
    ∷ ("issued_ts", str issued_ts)
    ∷ [])

unfoldable pub ticket_signable_dict : {B : Type 0} → Ticket B → Fields
unfolding signable
ticket_signable_dict t =
    signable t.ticket_id t.order_id t.capability_id t.behavior t.behavior_config t.scoped_args
      t.issued_ts

-- What one call of `process_order` reads from outside: the store's clock, twice, the time of the
-- ticket as ISO text, and two fresh hexadecimal ids.
pub record Readings : Type 0 where
  pub rate_now : ℕ
  pub accept_now : ℕ
  pub issued_ts : String
  pub receipt_hex : String
  pub ticket_hex : String

pub data Outcome (B : Type 0) : Type 0 where
  ticketed : Ticket B → Outcome B
  rejected : ReasonCode → Receipt B → Outcome B

-- How a call ends: its outcome, or `none` for an exception; and, with either, the state.
-- `spawned` is what the hook left on the object that it belongs to.
pub record Processed (B A : Type 0) : Type 0 where
  pub outcome : Option (Outcome B)
  pub store : CashierStore
  pub rows : Table B
  pub spawned : Option A

-- The hook of `process_order`: its result, `none` for an exception, and the ledger after it.
abbrev pub Spawn : Type 0 → Type 0 → Type 0
Spawn B A = Ticket B → Table B → Option A × Table B

unfoldable pub rejection_entry : Order → ReasonCode → String → Entry
rejection_entry order reason receipt_hex = record {
  receipt_id = concat "rcpt-" receipt_hex;
  order_id = order.order_id;
  ticket_id = none;
  status = "REJECTED";
  reason_code = some (reason_text reason);
  result_digest = none;
  attestation = none;
  order_meta = some (order_meta_from_order order);
  containment = none;
}

module _ (host : Host) where
  open host use {Bytes, PrivateKey, dumps, sign}

  unfoldable pub mint : PrivateKey → Order → Capability → Fields → Readings → Ticket Bytes
  mint private_key order capability scoped_args readings =
      let ticket_id = concat "tkt-" readings.ticket_hex in
      let behavior = resolved_behavior capability in
      let signed =
        signable ticket_id order.order_id order.capability_id behavior capability.behavior_config
          scoped_args readings.issued_ts in
      record {
        ticket_id = ticket_id;
        order_id = order.order_id;
        capability_id = order.capability_id;
        behavior = behavior;
        behavior_config = capability.behavior_config;
        scoped_args = scoped_args;
        issued_ts = readings.issued_ts;
        cashier_sig = sign private_key (dumps (obj signed));
      }

  -- `_append_rejection`, and the outcome that carries the receipt
  unfoldable pub reject_order :
      {A : Type 0}
      → PrivateKey
      → Order
      → ReasonCode
      → Readings
      → CashierStore
      → Table Bytes
      → Processed Bytes A
  reject_order private_key order reason readings store rows =
      elim (append host private_key (rejection_entry order reason readings.receipt_hex) rows) [
        | none ↦ record { outcome = none; store = store; rows = rows; spawned = none }
        | some (receipt, rows') ↦ record {
          outcome = some (rejected reason receipt);
          store = store;
          rows = rows';
          spawned = none;
        }
      ]

  unfoldable pub after_spawn :
      {A : Type 0} → Ticket Bytes → CashierStore → Option A × Table Bytes → Processed Bytes A
  after_spawn ticket store (none, rows) = record {
    outcome = none;
    store = store;
    rows = rows;
    spawned = none;
  }
  after_spawn ticket store (some result, rows) = record {
    outcome = some (ticketed ticket);
    store = store;
    rows = rows;
    spawned = some result;
  }

  -- `if spawn is not None: spawn(ticket)`
  unfoldable pub run_spawn :
      {A : Type 0}
      → Option (Spawn Bytes A)
      → Ticket Bytes
      → CashierStore
      → Table Bytes
      → Processed Bytes A
  run_spawn none ticket store rows = record {
    outcome = some (ticketed ticket);
    store = store;
    rows = rows;
    spawned = none;
  }
  run_spawn (some spawn) ticket store rows = after_spawn ticket store (spawn ticket rows)

  -- After the nonce is registered. `menu[order.capability_id]` cannot miss where the decision
  -- accepts; a miss would be a `KeyError`.
  unfoldable pub act :
      {A : Type 0}
      → PrivateKey
      → Order
      → Menu
      → Decision
      → Readings
      → Option (Spawn Bytes A)
      → CashierStore
      → Table Bytes
      → Processed Bytes A
  act private_key order menu (reject reason) readings spawn store rows =
      reject_order private_key order reason readings store rows
  act private_key order menu (accept key resource) readings spawn store rows =
      elim (lookup order.capability_id menu) [
        | none ↦ record { outcome = none; store = store; rows = rows; spawned = none }
        | some capability ↦
            run_spawn spawn
              (mint private_key order capability (dict ((key, str resource) ∷ [])) readings)
              (record_accept store readings.accept_now order.principal order.capability_id) rows
      ]

  unfoldable pub process_order :
      {A : Type 0}
      → PrivateKey
      → Order
      → Menu
      → List Policy
      → Readings
      → Option (Spawn Bytes A)
      → CashierStore
      → Table Bytes
      → Processed Bytes A
  process_order private_key order menu policy_set readings spawn store rows =
      let decision = evaluate_order order menu policy_set store readings.rate_now in
      act private_key order menu decision readings spawn (nonce_seen store order.nonce).0 rows
