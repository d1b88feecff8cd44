-- ===== src/Mcp/Server/Laws.antt =====
-- mcp_gateway.py: the receipts that the messages of a session leave.
use tanaka.Prelude.{
  ℕ, ◌+◌, ◌≤◌, ◌≡◌, refl, ap, ◌∙◌, String, Bool, true, false, ◌&&◌, Option, none, some, List,
  is_some, [], ◌∷◌, arith, Bool-cases, Option-cases, inl, inr,
}
use tanaka.Json.{
  Json, null, bool, int, float, str, arr, obj, Fields, end, get, is_text, is_text-eq, opt_json,
}
use tanaka.Json.Truth.{or_else}
use tanaka.Host.{Host}
use tanaka.Chain.{verified}
use tanaka.Cashier.Engine.{Menu}
use tanaka.Mcp.Protocol.{ToolResult}
use tanaka.Mcp.Call.{CallReadings, McpState, McpGateway, tools_call}
use tanaka.Mcp.Call.Laws.{
  is_governed, count_if, Counts, uncounted, tools_call-Kept, Kept, untouched,
}
use tanaka.Mcp.Server.{
  Handled, reply, silent, raised, call_response, handle_params, handle_object, handle_message,
  handle_line, Session, and_then, serve,
}

unfoldable pub asks_params : (String → Bool) → Menu → Json → Bool
asks_params is_zero menu (obj params) = is_governed is_zero menu params
asks_params is_zero menu _ = false

-- Whether a message asks for an order: a `tools/call` of JSON-RPC 2.0 whose params ask for one.
unfoldable pub asks_order : (String → Bool) → Menu → Json → Bool
unfolding asks_params
asks_order is_zero menu (obj request) =
    is_text (get "jsonrpc" request) "2.0"
    && (is_text (get "method" request) "tools/call"
        && asks_params is_zero menu (or_else is_zero (get "params" request) (obj end)))
asks_order is_zero menu _ = false

module _ (host : Host) (g : McpGateway host.Bytes host.PrivateKey) where
  open host use {Bytes, PrivateKey, loads}

  -- Whether a line asks for an order.
  unfoldable pub line_asks : Bytes → Bool
  line_asks line = elim (g.texts.clean line) [
    | none ↦ false
    | some text ↦ elim (loads text) [
      | none ↦ false
      | some request ↦ asks_order g.texts.is_zero g.wiring.menu request
    ]
  ]

  unfoldable pub orders_asked : List (Bytes × CallReadings) → ℕ
  orders_asked [] = 0
  orders_asked ((line, i) ∷ lines) = count_if (line_asks line) + orders_asked lines

  -- Whether a message was handled with no exception.
  abbrev went_on : Handled → Bool
  went_on raised = false
  went_on _ = true

  module _ (i : CallReadings) where
    call_response-Kept :
        (req_id : Json) (r : Option (ToolResult Bytes) × McpState Bytes) (n asked : ℕ)
        → Kept host g (is_some r.0) n asked r.1
        → Kept host g
            (went_on (call_response host g req_id r).0)
            n
            asked
            (call_response host g req_id r).1
    unfolding call_response
    call_response-Kept req_id (none, s) n asked h = h
    call_response-Kept req_id (some result, s) n asked h = h

    call_params-Kept :
        (req_id params : Json) (s : McpState Bytes) (n : ℕ)
        → Counts host g n s
        → Kept host g
            (went_on (handle_params host g i true req_id params s).0)
            n
            (count_if (asks_params g.texts.is_zero g.wiring.menu params))
            (handle_params host g i true req_id params s).1
    unfolding handle_params asks_params
    call_params-Kept req_id (obj params) s n h =
        call_response-Kept req_id (tools_call host g i params s) n _
          (tools_call-Kept host g i params s n h)
    call_params-Kept req_id null s n h = untouched host g s n h
    call_params-Kept req_id (bool _) s n h = untouched host g s n h
    call_params-Kept req_id (int _) s n h = untouched host g s n h
    call_params-Kept req_id (float _) s n h = untouched host g s n h
    call_params-Kept req_id (str _) s n h = untouched host g s n h
    call_params-Kept req_id (arr _) s n h = untouched host g s n h

    -- `initialize` changes nothing.
    greeting_same :
        (req_id params : Json) (s : McpState Bytes)
        → (handle_params host g i false req_id params s).1 ≡ s
    unfolding handle_params
    greeting_same req_id (obj params) s = refl
    greeting_same req_id null s = refl
    greeting_same req_id (bool _) s = refl
    greeting_same req_id (int _) s = refl
    greeting_same req_id (float _) s = refl
    greeting_same req_id (str _) s = refl
    greeting_same req_id (arr _) s = refl

    -- Of the methods, only `tools/call` changes the state.
    other_same :
        (request : Fields) (s : McpState Bytes)
        → is_text (get "method" request) "tools/call" ≡ false
        → (handle_object host g i request s).1 ≡ s
    unfolding handle_object
    other_same request s h =
        let params = or_else g.texts.is_zero (get "params" request) (obj end) in
        let greeted = greeting_same (opt_json (get "id" request)) params s in
        ground (arith, h, greeted)

    call_object :
        (request : Fields) (s : McpState Bytes)
        → is_text (get "method" request) "tools/call" ≡ true
        → handle_object host g i request s
          ≡ handle_params host g i true
              (opt_json (get "id" request))
              (or_else g.texts.is_zero (get "params" request) (obj end))
              s
    unfolding handle_object
    call_object request s h = rw (is_text-eq (get "method" request) "tools/call" h) refl

    abbrev is_rpc : Fields → Bool
    is_rpc request = is_text (get "jsonrpc" request) "2.0"

    abbrev asks_call : Fields → Bool
    asks_call request =
        is_text (get "method" request) "tools/call"
        && asks_params g.texts.is_zero g.wiring.menu
            (or_else g.texts.is_zero (get "params" request) (obj end))

    handle_object-Kept :
        (request : Fields) (s : McpState Bytes) (n : ℕ)
        → Counts host g n s
        → Kept host g
            (went_on (handle_object host g i request s).0)
            n
            (count_if (asks_call request))
            (handle_object host g i request s).1
    handle_object-Kept request s n h =
        elim (Bool-cases (is_text (get "method" request) "tools/call")) [
          | inl e ↦
              rw (call_object request s e, e)
                (call_params-Kept (opt_json (get "id" request))
                  (or_else g.texts.is_zero (get "params" request) (obj end)) s n h)
          | inr e ↦ rw (other_same request s e, e) (untouched host g s n h)
        ]

    pub handle_message-Kept :
        (message : Json) (s : McpState Bytes) (n : ℕ)
        → Counts host g n s
        → Kept host g
            (went_on (handle_message host g i message s).0)
            n
            (count_if (asks_order g.texts.is_zero g.wiring.menu message))
            (handle_message host g i message s).1
    unfolding handle_message asks_order
    handle_message-Kept (obj request) s n h = elim (Bool-cases (is_rpc request)) [
      | inl e ↦ rw e (handle_object-Kept request s n h)
      | inr e ↦ rw e (untouched host g s n h)
    ]
    handle_message-Kept null s n h = untouched host g s n h
    handle_message-Kept (bool _) s n h = untouched host g s n h
    handle_message-Kept (int _) s n h = untouched host g s n h
    handle_message-Kept (float _) s n h = untouched host g s n h
    handle_message-Kept (str _) s n h = untouched host g s n h
    handle_message-Kept (arr _) s n h = untouched host g s n h

    pub handle_line-Kept :
        (line : Bytes) (s : McpState Bytes) (n : ℕ)
        → Counts host g n s
        → Kept host g
            (went_on (handle_line host g i line s).0)
            n
            (count_if (line_asks line))
            (handle_line host g i line s).1
    unfolding handle_line line_asks
    handle_line-Kept line s n h = elim (Option-cases (g.texts.clean line)) [
      | inl blank ↦ rw (blank, line_asks, handle_line) (untouched host g s n h)
      | inr (text, e) ↦ elim (Option-cases (loads text)) [
        | inl bad ↦ rw (e, line_asks, handle_line, bad) (untouched host g s n h)
        | inr (request, f) ↦ rw (e, line_asks, handle_line, f) (handle_message-Kept request s n h)
      ]
    ]

  -- What the verifier counts after a session that began with `n` receipts: one more for each line
  -- that asks for an order, unless an exception ended the session before its last line.
  pub record Tallied (lines : List (Bytes × CallReadings)) (n : ℕ) (session : Session host)
      : Type 0 where
    pub orders : ℕ
    pub counted : Counts host g (n + orders) session.state
    pub at_most : orders ≤ orders_asked lines
    pub all_of : session.crashed ≡ false → orders ≡ orders_asked lines

  and_then-Tallied :
      (line : Bytes) (i : CallReadings) (lines : List (Bytes × CallReadings)) (n : ℕ)
      (r : Handled × McpState Bytes) (rest : Session host)
      → (k : Kept host g (went_on r.0) n (count_if (line_asks line)) r.1)
      → Tallied lines (n + k.added) rest
      → Tallied ((line, i) ∷ lines) n (and_then host r rest)
  unfolding and_then orders_asked
  and_then-Tallied line i lines n (raised, s) rest k t = record {
    orders = k.added;
    counted = k.counted;
    at_most = omega (arith, k.at_most);
    all_of = λ e. cc e;
  }
  and_then-Tallied line i lines n (silent, s) rest k t = record {
    orders = k.added + t.orders;
    counted = t.counted ∙ ap verified (omega arith);
    at_most = omega (arith, t.at_most, k.at_most);
    all_of = λ e. omega (arith, t.all_of e, k.all_of refl);
  }
  and_then-Tallied line i lines n (reply response, s) rest k t = record {
    orders = k.added + t.orders;
    counted = t.counted ∙ ap verified (omega arith);
    at_most = omega (arith, t.at_most, k.at_most);
    all_of = λ e. omega (arith, t.all_of e, k.all_of refl);
  }

  -- If the verifier accepts the ledger with a count of `n` before a session over any lines, it
  -- accepts it afterwards, with a count that has grown by at most the number of the lines that ask
  -- for an order, a `tools/call` of JSON-RPC 2.0 with object arguments that names a tool on the
  -- menu, and by that number if no exception ended the session.
  pub serve-Tallied :
      (lines : List (Bytes × CallReadings)) (s : McpState Bytes) (n : ℕ)
      → Counts host g n s
      → Tallied lines n (serve host g lines s)
  unfolding serve orders_asked
  serve-Tallied [] s n h = record {
    orders = 0;
    counted = uncounted host g s n h;
    at_most = omega arith;
    all_of = λ _. refl;
  }
  serve-Tallied ((line, i) ∷ lines) s n h =
      let k = handle_line-Kept i line s n h in
      and_then-Tallied line i lines n (handle_line host g i line s) _ k
        (serve-Tallied lines (handle_line host g i line s).1 (n + k.added) k.counted)
