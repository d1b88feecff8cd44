-- ===== src/Consumer/Place.antt =====
-- consumer/loop.py: one action of a consumer's agent. The approver, who sees the order and the
-- capability, is a parameter.
pub mod Gate
pub mod Laws
pub mod Consent
use tanaka.Prelude.{
  String, Bool, true, false, ◌&&◌, Option, none, some, eqb, is_some, List, [], ◌∷◌, lookup,
  if◌then◌else◌,
}
use tanaka.Prelude.Texts.{concat}
use tanaka.Host.{Host}
use tanaka.Spine.{Capability, Order, Ticket, Receipt, order_meta_from_order}
use tanaka.Chain.{Table}
use tanaka.Ledger.{Entry, append}
use tanaka.Cashier.Store.{CashierStore}
use tanaka.Cashier.Engine.{
  Readings, Outcome, ticketed, rejected, reason_text, Processed, process_order,
}
use tanaka.Chef.Runner.{ChefResult, run_chef}
use tanaka.Loop.{Wiring}
use tanaka.Consumer.Preferences.{
  Permission, allow, ask, block, Preferences, effective_state, set_preference, save_if_persistent,
  ApprovalDecision,
}

pub record ConsumerOutcome (B : Type 0) : Type 0 where
  pub status : String
  pub reason_code : Option String
  pub receipt : Receipt B
  pub draft : Option B
  pub confirmation_required : Bool
  pub confirmation_asked : Bool

-- What an action changes: the cashier's store, the ledger, and the user's choices.
pub record ConsumerState (B : Type 0) : Type 0 where
  pub store : CashierStore
  pub rows : Table B
  pub prefs : Preferences

unfoldable pub consumer_entry : Order → String → String → String → Entry
consumer_entry order ticket_id reason_code receipt_hex = record {
  receipt_id = concat "rcpt-" receipt_hex;
  order_id = order.order_id;
  ticket_id = some ticket_id;
  status = "REJECTED";
  reason_code = some reason_code;
  result_digest = none;
  attestation = none;
  order_meta = some (order_meta_from_order order);
  containment = none;
}

-- `none` is an exception, as of a prompt at the end of its input.
abbrev pub Approver : Type 0
Approver = Order → Capability → Option ApprovalDecision

-- "Always allow" is kept, and goes to the file.
unfoldable pub remember_choice : ApprovalDecision → String → Preferences → Preferences
unfolding save_if_persistent set_preference
remember_choice d capability_id prefs =
    if d.allowed && d.remember
    then save_if_persistent (set_preference prefs capability_id allow)
    else prefs

module _ (host : Host) where
  open host use {Bytes, PrivateKey}

  unfoldable pub refuse :
      Wiring Bytes PrivateKey
      → ConsumerState Bytes
      → Order
      → Ticket Bytes
      → String
      → String
      → String
      → Bool
      → Option (ConsumerOutcome Bytes) × ConsumerState Bytes
  refuse w s order t status reason_code hex asked =
      elim (append host w.private_key (consumer_entry order t.ticket_id reason_code hex) s.rows) [
        | none ↦ (none, s)
        | some (receipt, rows') ↦ (
          some (record {
            status = status;
            reason_code = some reason_code;
            receipt = receipt;
            draft = none;
            confirmation_required = asked;
            confirmation_asked = asked;
          }),
          record s { rows = rows' },
        )
      ]

  -- `chef.draft_bytes if fulfilled else None`
  abbrev pub fulfilled_draft_of : ChefResult Bytes → Option Bytes
  fulfilled_draft_of chef = if eqb chef.returncode 0 then chef.draft_bytes else none

  unfoldable pub executed : ChefResult Bytes → Bool → ConsumerOutcome Bytes
  executed chef asked =
      let fulfilled = is_some (fulfilled_draft_of chef) in
      record {
        status = if fulfilled then "FULFILLED" else "EXECUTION_FAILED";
        reason_code = if fulfilled then none else some "EXECUTION_FAILED";
        receipt = chef.receipt;
        draft = fulfilled_draft_of chef;
        confirmation_required = asked;
        confirmation_asked = asked;
      }

  unfoldable pub execute :
      Wiring Bytes PrivateKey
      → ConsumerState Bytes
      → Order
      → Ticket Bytes
      → String
      → Bool
      → Option (ConsumerOutcome Bytes) × ConsumerState Bytes
  execute w s order t hex asked =
      let (chef, rows') =
        run_chef host w.private_key w.service t (some (order_meta_from_order order)) hex s.rows in
      (elim chef [ none ↦ none | some c ↦ some (executed c asked) ], record s { rows = rows' })

  -- Steps 2a, 2b and 3, by the state of the capability.
  unfoldable pub gate :
      Wiring Bytes PrivateKey
      → ConsumerState Bytes
      → Order
      → Ticket Bytes
      → String
      → Option ApprovalDecision
      → Permission
      → Option (ConsumerOutcome Bytes) × ConsumerState Bytes
  gate w s order t hex decision block =
      refuse w s order t "BLOCKED_BY_USER" "USER_BLOCKED" hex false
  gate w s order t hex none ask = (none, s)
  gate w s order t hex (some decision) ask =
      let s' = record s { prefs = remember_choice decision order.capability_id s.prefs } in
      if decision.allowed
      then execute w s' order t hex true
      else refuse w s' order t "DENIED_BY_USER" "USER_DENIED" hex true
  gate w s order t hex decision allow = execute w s order t hex false

  -- What follows the cashier's outcome. The capability of an accepted order is on the menu; a miss
  -- would be an `AttributeError`.
  unfoldable pub after_cashier :
      Wiring Bytes PrivateKey
      → Approver
      → ConsumerState Bytes
      → Order
      → String
      → Option (Outcome Bytes)
      → Option (ConsumerOutcome Bytes) × ConsumerState Bytes
  after_cashier w decide s order hex none = (none, s)
  after_cashier w decide s order hex (some (rejected reason receipt)) = (
    some (record {
      status = "REJECTED_BY_POLICY";
      reason_code = some (reason_text reason);
      receipt = receipt;
      draft = none;
      confirmation_required = false;
      confirmation_asked = false;
    }),
    s,
  )
  after_cashier w decide s order hex (some (ticketed t)) =
      elim (lookup order.capability_id w.menu) [
        | none ↦ (none, s)
        | some capability ↦
            gate w s order t hex (decide order capability) (effective_state s.prefs capability)
      ]

  -- `ConsumerLoop.place`: the cashier is asked with no hook, so that nothing runs yet.
  unfoldable pub consumer_place :
      Wiring Bytes PrivateKey
      → Approver
      → Order
      → Readings
      → String
      → ConsumerState Bytes
      → Option (ConsumerOutcome Bytes) × ConsumerState Bytes
  consumer_place w decide order readings hex s =
      let p =
        process_order host {A = ChefResult Bytes} w.private_key order w.menu w.policy_set readings
          none s.store s.rows in
      after_cashier w decide (record { store = p.store; rows = p.rows; prefs = s.prefs }) order hex
        p.outcome
