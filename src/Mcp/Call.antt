-- ===== src/Mcp/Call.antt =====
-- `_tools_call`: one call of a tool, as an order that the loop or the consumer loop places.
pub mod Laws
pub mod Answers
use tanaka.Prelude.{
  ℕ, String, ◌==◌, Bool, Option, none, some, List, [], ◌∷◌, eqb, lookup, if◌then◌else◌,
}
use tanaka.Prelude.Texts.{concat}
use tanaka.Json.{Json, str, arr, obj, Fields, end, get}
use tanaka.Json.Truth.{or_else}
use tanaka.Host.{Host}
use tanaka.Spine.{Capability, Order, Ticket, Receipt}
use tanaka.Chain.{Table}
use tanaka.Cashier.Store.{CashierStore}
use tanaka.Cashier.Engine.{Readings, Outcome, ticketed, rejected, reason_text}
use tanaka.Chef.Runner.{ChefResult}
use tanaka.Loop.{Wiring, LoopState, place}
use tanaka.Consumer.Preferences.{Preferences}
use tanaka.Consumer.Place.{ConsumerOutcome, ConsumerState, Approver, consumer_place}
use tanaka.Mcp.Protocol.{McpTexts, Identity, ToolResult, fulfilled_result, tool_error, menu_map}

-- What one call reads from outside.
pub record CallReadings : Type 0 where
  pub order_hex : String
  pub nonce_hex : String
  pub ts : String
  pub readings : Readings
  pub chef_hex : String

-- The state of the loop, and of the consumer loop over it.
pub record McpState (B : Type 0) : Type 0 where
  pub store : CashierStore
  pub rows : Table B
  pub last_chef : Option (ChefResult B)
  pub prefs : Preferences

-- What the gateway is built with; with a consumer loop, an approver.
pub record McpGateway (B K : Type 0) : Type 0 where
  pub wiring : Wiring B K
  pub identity : Identity
  pub consumer : Option Approver
  pub texts : McpTexts B

unfoldable pub order_of : Identity → CallReadings → Capability → Json → Order
order_of me i cap arguments = record {
  order_id = concat "ord-" i.order_hex;
  principal = me.principal;
  role = me.role;
  capability_id = cap.id;
  args = arguments;
  nonce = concat "nonce-" i.nonce_hex;
  ts = i.ts;
}

-- The tool that a call names: `none` for the `TypeError` of a name that cannot be hashed.
unfoldable pub find_tool : List (String × Capability) → Option Json → Option (Option Capability)
find_tool tools (some (str name)) = some (lookup name tools)
find_tool tools (some (arr _)) = none
find_tool tools (some (obj _)) = none
find_tool tools _ = some none

unfoldable pub refused_text : String → String → String
refused_text reason receipt_id =
    concat "Refused by policy: " (
      concat reason (concat ". A signed rejection receipt was recorded (" (concat receipt_id ").")))

unfoldable pub failed_text : Option String → String → String
failed_text reason receipt_id =
    let code : String = elim reason [ none ↦ "None" | some r ↦ r ] in
    concat "Execution failed (" (concat code (concat "). Receipt: " (concat receipt_id ".")))

module _ (host : Host) where
  open host use {Bytes, PrivateKey}

  -- The text of a draft, which may be no UTF-8, with the receipt
  unfoldable pub shown_draft : McpTexts Bytes → Bytes → Receipt Bytes → Option (ToolResult Bytes)
  shown_draft texts draft receipt = elim (texts.decode draft) [
    | none ↦ none
    | some output ↦ some (fulfilled_result output receipt)
  ]

  unfoldable pub chef_answer : McpTexts Bytes → ChefResult Bytes → Option (ToolResult Bytes)
  unfolding shown_draft failed_text
  chef_answer texts chef = elim (if eqb chef.returncode 0 then chef.draft_bytes else none) [
    | some draft ↦ shown_draft texts draft chef.receipt
    | none ↦ some (tool_error (failed_text chef.receipt.reason_code chef.receipt.receipt_id))
  ]

  -- `none` is an exception.
  unfoldable pub place_answer :
      McpTexts Bytes
      → Option (Outcome Bytes)
      → Option (ChefResult Bytes)
      → Option (ToolResult Bytes)
  unfolding refused_text
  place_answer texts none chef = none
  place_answer texts (some (rejected reason receipt)) chef =
      some (tool_error (refused_text (reason_text reason) receipt.receipt_id))
  place_answer texts (some (ticketed t)) none = none
  place_answer texts (some (ticketed t)) (some chef) = chef_answer texts chef

  -- `_tools_call_confirmed`, on what the consumer loop gave back
  unfoldable pub confirmed_answer :
      McpTexts Bytes → ConsumerOutcome Bytes → Option (ToolResult Bytes)
  unfolding refused_text failed_text shown_draft
  confirmed_answer texts out =
      if out.status == "REJECTED_BY_POLICY"
      then some (
          tool_error (
            refused_text (elim out.reason_code [ none ↦ "None" | some r ↦ r ])
              out.receipt.receipt_id))
      else if out.status == "BLOCKED_BY_USER"
      then some (
          tool_error (
            concat
              "Blocked by the user's standing permissions (USER_BLOCKED). A signed rejection receipt was recorded ("
              (concat out.receipt.receipt_id ").")))
      else if out.status == "DENIED_BY_USER"
      then some (
          tool_error (
            concat
              "The user declined this action on-device (USER_DENIED). A signed rejection receipt was recorded ("
              (concat out.receipt.receipt_id ").")))
      else if out.status == "FULFILLED"
      then elim out.draft [ none ↦ none | some draft ↦ shown_draft texts draft out.receipt ]
      else some (tool_error (failed_text out.receipt.reason_code out.receipt.receipt_id))

  -- With a consumer loop or without one
  unfoldable pub place_with :
      McpGateway Bytes PrivateKey
      → Option Approver
      → CallReadings
      → Order
      → McpState Bytes
      → Option (ToolResult Bytes) × McpState Bytes
  unfolding place_answer confirmed_answer
  place_with g none i order s =
      let (outcome, after) =
        place host g.wiring order i.readings i.chef_hex
          (record { store = s.store; rows = s.rows; last_chef = s.last_chef }) in
      (
        place_answer g.texts outcome after.last_chef,
        record {
          store = after.store;
          rows = after.rows;
          last_chef = after.last_chef;
          prefs = s.prefs;
        },
      )
  place_with g (some approver) i order s =
      let (outcome, after) =
        consumer_place host g.wiring approver order i.readings i.chef_hex
          (record { store = s.store; rows = s.rows; prefs = s.prefs }) in
      (
        elim outcome [ none ↦ none | some out ↦ confirmed_answer g.texts out ],
        record {
          store = after.store;
          rows = after.rows;
          last_chef = s.last_chef;
          prefs = after.prefs;
        },
      )

  unfoldable pub call_with :
      McpGateway Bytes PrivateKey
      → CallReadings
      → Option (Option Capability)
      → String
      → Json
      → McpState Bytes
      → Option (ToolResult Bytes) × McpState Bytes
  call_with g i none name arguments s = (none, s)
  call_with g i (some none) name arguments s = (some (tool_error (concat "unknown tool: " name)), s)
  call_with g i (some (some c)) name arguments s =
      place_with g g.consumer i (order_of g.identity i c arguments) s

  -- Its arguments must be an object.
  unfoldable pub call_arguments :
      McpGateway Bytes PrivateKey
      → CallReadings
      → Fields
      → Json
      → McpState Bytes
      → Option (ToolResult Bytes) × McpState Bytes
  call_arguments g i params (obj arguments) s =
      call_with g i (find_tool (menu_map g.wiring.menu) (get "name" params))
        (g.texts.show (get "name" params)) (obj arguments) s
  call_arguments g i params _ s = (some (tool_error "arguments must be an object"), s)

  unfoldable pub tools_call :
      McpGateway Bytes PrivateKey
      → CallReadings
      → Fields
      → McpState Bytes
      → Option (ToolResult Bytes) × McpState Bytes
  unfolding or_else
  tools_call g i params s =
      call_arguments g i params (or_else g.texts.is_zero (get "arguments" params) (obj end)) s
