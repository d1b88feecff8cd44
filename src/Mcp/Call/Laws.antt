-- ===== src/Mcp/Call/Laws.antt =====
-- mcp_gateway.py: what a call of a tool leaves in the ledger, and what it answers.
use tanaka.Prelude.{
  ℕ, ◌+◌, ◌≤◌, ◌≡◌, refl, length, ap, ◌∙◌, String, Bool, true, false, ◌&&◌, Option, none, some,
  is_some, lookup, arith,
}
use tanaka.Json.{Json, null, bool, int, float, str, arr, obj, Fields, end, get}
use tanaka.Json.Truth.{or_else}
use tanaka.Host.{Host}
use tanaka.Spine.{Capability, Order}
use tanaka.Chain.{verified}
use tanaka.Ledger.{verify_ledger}
use tanaka.Ledger.Laws.{verified_of_IsIntact, IsIntact-of_verified}
use tanaka.Cashier.Engine.{Menu, Outcome}
use tanaka.Loop.{LoopState, place}
use tanaka.Loop.Laws.{Ended, answered, stopped, place-Ended, one_more}
use tanaka.Consumer.Place.{Approver, ConsumerOutcome, ConsumerState, consumer_place}
use tanaka.Consumer.Place.Gate.{Settles, settled, stopped as raised}
use tanaka.Consumer.Place.Laws.{consumer_place-Settles}
use tanaka.Mcp.Protocol.{menu_map}
use tanaka.Mcp.Call.{
  CallReadings, McpState, McpGateway, order_of, find_tool, call_with, place_with, call_arguments,
  tools_call, place_answer, confirmed_answer,
}

-- Whether a name is one of a tool on the menu.
unfoldable pub names_tool : Menu → Option Json → Bool
names_tool menu (some (str name)) = is_some (lookup name (menu_map menu))
names_tool menu _ = false

abbrev is_object : Json → Bool
is_object (obj _) = true
is_object _ = false

-- Whether the params of a call ask for an order: their arguments are an object (or nothing), and
-- their name is one of a tool.
unfoldable pub is_governed : (String → Bool) → Menu → Fields → Bool
unfolding names_tool
is_governed is_zero menu params =
    is_object (or_else is_zero (get "arguments" params) (obj end))
    && names_tool menu (get "name" params)

abbrev pub count_if : Bool → ℕ
count_if true = 1
count_if false = 0

module _ (host : Host) (g : McpGateway host.Bytes host.PrivateKey) where
  open host use {Bytes, PrivateKey, public_key}

  -- The verifier counts `n` receipts.
  abbrev pub Counts : ℕ → McpState Bytes → Type 0
  Counts n s = verify_ledger host (public_key g.wiring.private_key) s.rows ≡ verified n

  pub uncounted : (s : McpState Bytes) (n : ℕ) → Counts n s → Counts (n + 0) s
  uncounted s n h = h ∙ ap verified (omega arith)

  -- What the verifier counts after a step that began with `n` receipts and was asked for `asked`
  -- orders: all of them are counted where the step was done, with no exception.
  pub record Kept (done : Bool) (n asked : ℕ) (s : McpState Bytes) : Type 0 where
    pub added : ℕ
    pub counted : Counts (n + added) s
    pub at_most : added ≤ asked
    pub all_of : done ≡ true → added ≡ asked

  pub kept :
      {done : Bool} (n asked : ℕ) (s : McpState Bytes) → Counts (n + asked) s → Kept done n asked s
  kept n asked s h = record {
    added = asked;
    counted = h;
    at_most = omega arith;
    all_of = λ _. refl;
  }

  pub untouched : {done : Bool} (s : McpState Bytes) (n : ℕ) → Counts n s → Kept done n 0 s
  untouched s n h = kept n 0 s (uncounted s n h)

  pub unplaced : {asked : ℕ} (n : ℕ) (s : McpState Bytes) → Counts n s → Kept false n asked s
  unplaced n s h = record {
    added = 0;
    counted = uncounted s n h;
    at_most = omega arith;
    all_of = λ e. cc e;
  }

  abbrev loop_state : McpState Bytes → LoopState Bytes
  loop_state s = record { store = s.store; rows = s.rows; last_chef = s.last_chef }

  abbrev consumer_state : McpState Bytes → ConsumerState Bytes
  consumer_state s = record { store = s.store; rows = s.rows; prefs = s.prefs }

  module _ (i : CallReadings) where
    Ended-Kept :
        (order : Order) (s : McpState Bytes) (n : ℕ) (last : String) {o : Option (Outcome Bytes)}
        → Counts n s
        → n ≡ length s.rows
        → Ended host g.wiring order i.readings i.chef_hex (loop_state s) last o
        → Kept
            (is_some (
              place_answer host g.texts o
                (place host g.wiring order i.readings i.chef_hex (loop_state s)).1.last_chef))
            n
            1
            (place_with host g none i order s).1
    unfolding place_with place_answer
    Ended-Kept order s n last h counted (answered p) =
        let ((last', intact'), longer) =
          one_more host g.wiring order i.readings i.chef_hex (loop_state s) last p in
        kept n 1 (place_with host g none i order s).1 (
          verified_of_IsIntact host g.wiring.private_key
            (place host g.wiring order i.readings i.chef_hex (loop_state s)).1.rows last' intact'
          ∙ ap verified (omega (arith, longer, counted)))
    Ended-Kept order s n last h counted (stopped key resource t e _ _ _ same) =
        unplaced n (place_with host g none i order s).1
          (ap (verify_ledger host (public_key g.wiring.private_key)) same ∙ h)

    Settles-Kept :
        (s : McpState Bytes) (n : ℕ) (r : Option (ConsumerOutcome Bytes) × ConsumerState Bytes)
        → Counts n s
        → n ≡ length s.rows
        → Settles host g.wiring s.rows r
        → Kept
            (is_some (elim r.0 [ none ↦ none | some out ↦ confirmed_answer host g.texts out ]))
            n
            1
            (record {
              store = r.1.store;
              rows = r.1.rows;
              last_chef = s.last_chef;
              prefs = r.1.prefs;
            })
    Settles-Kept s n r h counted (settled x) = kept n 1 _ (
        verified_of_IsIntact host g.wiring.private_key r.1.rows x.last x.intact
        ∙ ap verified (omega (arith, x.longer, counted)))
    Settles-Kept s n r h counted (raised unanswered same) =
        rw unanswered
          (unplaced n _ (ap (verify_ledger host (public_key g.wiring.private_key)) same ∙ h))

    place_with-Kept :
        (c : Option Approver) (order : Order) (s : McpState Bytes) (n : ℕ)
        → Counts n s
        → Kept (is_some (place_with host g c i order s).0) n 1 (place_with host g c i order s).1
    unfolding place_with
    place_with-Kept none order s n h =
        let ((last, intact), counted) = IsIntact-of_verified host g.wiring.private_key s.rows n h in
        Ended-Kept order s n last h counted
          (place-Ended host g.wiring order i.readings i.chef_hex (loop_state s) last intact)
    place_with-Kept (some approver) order s n h =
        let ((last, intact), counted) = IsIntact-of_verified host g.wiring.private_key s.rows n h in
        Settles-Kept s n
          (consumer_place host g.wiring approver order i.readings i.chef_hex (consumer_state s)) h
          counted
          (consumer_place-Settles host g.wiring approver order i.readings i.chef_hex
            (consumer_state s) last intact)

    call_found-Kept :
        (found : Option Capability) (shown : String) (arguments : Json) (s : McpState Bytes) (n : ℕ)
        → Counts n s
        → Kept
            (is_some (call_with host g i (some found) shown arguments s).0)
            n
            (count_if (is_some found))
            (call_with host g i (some found) shown arguments s).1
    unfolding call_with
    call_found-Kept none shown arguments s n h = untouched s n h
    call_found-Kept (some c) shown arguments s n h =
        place_with-Kept g.consumer (order_of g.identity i c arguments) s n h

    call_with-Kept :
        (name : Option Json) (shown : String) (arguments : Json) (s : McpState Bytes) (n : ℕ)
        → Counts n s
        → Kept
            (is_some
              (call_with host g i (find_tool (menu_map g.wiring.menu) name) shown arguments s).0)
            n
            (count_if (names_tool g.wiring.menu name))
            (call_with host g i (find_tool (menu_map g.wiring.menu) name) shown arguments s).1
    unfolding call_with find_tool names_tool
    call_with-Kept (some (str name)) shown arguments s n h =
        call_found-Kept (lookup name (menu_map g.wiring.menu)) shown arguments s n h
    call_with-Kept none shown arguments s n h = untouched s n h
    call_with-Kept (some null) shown arguments s n h = untouched s n h
    call_with-Kept (some (bool _)) shown arguments s n h = untouched s n h
    call_with-Kept (some (int _)) shown arguments s n h = untouched s n h
    call_with-Kept (some (float _)) shown arguments s n h = untouched s n h
    call_with-Kept (some (arr _)) shown arguments s n h = untouched s n h
    call_with-Kept (some (obj _)) shown arguments s n h = untouched s n h

    call_arguments-Kept :
        (params : Fields) (arguments : Json) (s : McpState Bytes) (n : ℕ)
        → Counts n s
        → Kept
            (is_some (call_arguments host g i params arguments s).0)
            n
            (count_if (is_object arguments && names_tool g.wiring.menu (get "name" params)))
            (call_arguments host g i params arguments s).1
    unfolding call_arguments
    call_arguments-Kept params (obj arguments) s n h =
        call_with-Kept (get "name" params) (g.texts.show (get "name" params)) (obj arguments) s n h
    call_arguments-Kept params null s n h = untouched s n h
    call_arguments-Kept params (bool _) s n h = untouched s n h
    call_arguments-Kept params (int _) s n h = untouched s n h
    call_arguments-Kept params (float _) s n h = untouched s n h
    call_arguments-Kept params (str _) s n h = untouched s n h
    call_arguments-Kept params (arr _) s n h = untouched s n h

    pub tools_call-Kept :
        (params : Fields) (s : McpState Bytes) (n : ℕ)
        → Counts n s
        → Kept
            (is_some (tools_call host g i params s).0)
            n
            (count_if (is_governed g.texts.is_zero g.wiring.menu params))
            (tools_call host g i params s).1
    unfolding tools_call is_governed
    tools_call-Kept params s n h =
        call_arguments-Kept params (or_else g.texts.is_zero (get "arguments" params) (obj end)) s n
          h
