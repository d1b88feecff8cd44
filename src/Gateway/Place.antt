-- ===== src/Gateway/Place.antt =====
-- `place_order_json`: one intake at the counter, and what goes back to the diner.
pub mod Laws
use tanaka.Prelude.{
  ℕ, String, Bool, true, false, ◌&&◌, Option, none, some, eqb, is_some, List, [], ◌∷◌,
  if◌then◌else◌,
}
use tanaka.Prelude.Texts.{concat}
use tanaka.Json.{Json, null, bool, str, obj, Fields, dict, set, opt_text}
use tanaka.Host.{Host}
use tanaka.Spine.{Order, Ticket, Receipt, receipt_content_dict}
use tanaka.Chain.{Table}
use tanaka.Ledger.{Entry, append}
use tanaka.Cashier.Engine.{Readings, Outcome, ticketed, rejected, reason_text}
use tanaka.Chef.Runner.{ChefResult}
use tanaka.Loop.{Wiring, LoopState, place}
use tanaka.Gateway.Parse.{Parsed, ok, malformed, raised, MalformedOrder, detail, parse_order}

abbrev pub unadmitted_principal : String
unadmitted_principal = "gateway:unadmitted"

unfoldable pub malformed_entry : String → String → String → Entry
malformed_entry receipt_hex order_hex ts = record {
  receipt_id = concat "rcpt-" receipt_hex;
  order_id = concat "gw-unadmitted-" order_hex;
  ticket_id = none;
  status = "REJECTED";
  reason_code = some "MALFORMED_ORDER";
  result_digest = none;
  attestation = none;
  order_meta = some (
      obj (
        dict (
          ("principal", str unadmitted_principal)
          ∷ ("role", str "(none)")
          ∷ ("capability_id", str "(unparsed)")
          ∷ ("ts", str ts)
          ∷ [])));
  containment = none;
}

-- What one intake reads from outside, besides what its order reads: the gateway's clock as ISO
-- text, and a fresh id for an order that was not admitted.
pub record Intake : Type 0 where
  pub readings : Readings
  pub chef_hex : String
  pub order_hex : String
  pub now_ts : String

module _ (host : Host) where
  open host use {Bytes, PrivateKey, b64encode}

  unfoldable pub receipt_to_dict : Receipt Bytes → Fields
  receipt_to_dict r =
      set "sig" (str (b64encode r.sig)) (set "this_hash" (str r.this_hash) (receipt_content_dict r))

  unfoldable pub rejected_dict : Order → String → Receipt Bytes → Fields
  rejected_dict order reason receipt = dict (
      ("order_id", str order.order_id)
      ∷ ("accepted", bool false)
      ∷ ("status", str "REJECTED")
      ∷ ("reason_code", str reason)
      ∷ ("ticket_id", null)
      ∷ ("receipt", obj (receipt_to_dict receipt))
      ∷ ("window_dir", null)
      ∷ ("draft_b64", null)
      ∷ [])

  -- `chef.draft_bytes` where `fulfilled` holds
  unfoldable pub fulfilled_draft : ChefResult Bytes → Option Bytes
  fulfilled_draft chef = if eqb chef.returncode 0 then chef.draft_bytes else none

  unfoldable pub accepted_dict :
      (String → String) → Order → Ticket Bytes → ChefResult Bytes → Fields
  accepted_dict window_dir order ticket chef = dict (
      ("order_id", str order.order_id)
      ∷ ("accepted", bool true)
      ∷ ("status", str chef.receipt.status)
      ∷ ("reason_code", opt_text chef.receipt.reason_code)
      ∷ ("ticket_id", str ticket.ticket_id)
      ∷ ("receipt", obj (receipt_to_dict chef.receipt))
      ∷ (
        "window_dir",
        elim (fulfilled_draft chef) [ none ↦ null | some _ ↦ str (window_dir ticket.order_id) ],
      )
      ∷ (
        "draft_b64",
        elim (fulfilled_draft chef) [ none ↦ null | some draft ↦ str (b64encode draft) ],
      )
      ∷ [])

  -- `none` is the `AttributeError` of a `last_chef` that is `None`
  unfoldable pub outcome_to_dict :
      (String → String) → Order → Outcome Bytes → Option (ChefResult Bytes) → Option Fields
  outcome_to_dict window_dir order (rejected reason receipt) last_chef =
      some (rejected_dict order (reason_text reason) receipt)
  outcome_to_dict window_dir order (ticketed ticket) none = none
  outcome_to_dict window_dir order (ticketed ticket) (some chef) =
      some (accepted_dict window_dir order ticket chef)

  unfoldable pub malformed_dict : MalformedOrder → Receipt Bytes → Fields
  malformed_dict e receipt = dict (
      ("accepted", bool false)
      ∷ ("error", str "MALFORMED_ORDER")
      ∷ ("detail", str (detail e))
      ∷ ("receipt_id", str receipt.receipt_id)
      ∷ [])

  -- `none` is an exception: of the parse, of the ledger while a receipt is appended, or of the chef.
  unfoldable pub respond :
      Wiring Bytes PrivateKey
      → (String → String)
      → Intake
      → LoopState Bytes
      → Parsed Order
      → Option Fields × LoopState Bytes
  respond w window_dir i s (malformed e) =
      elim (append host w.private_key (malformed_entry i.readings.receipt_hex i.order_hex i.now_ts)
        s.rows) [
          | none ↦ (none, s)
          | some (receipt, rows') ↦ (some (malformed_dict e receipt), record s { rows = rows' })
        ]
  respond w window_dir i s raised = (none, s)
  respond w window_dir i s (ok order) =
      let (outcome, s') = place host w order i.readings i.chef_hex s in
      (elim outcome [ none ↦ none | some o ↦ outcome_to_dict window_dir order o s'.last_chef ], s')

  unfoldable pub place_order_json :
      Wiring Bytes PrivateKey
      → (String → String)
      → Intake
      → Bytes
      → LoopState Bytes
      → Option Fields × LoopState Bytes
  place_order_json w window_dir i text s = respond w window_dir i s (parse_order host text)
