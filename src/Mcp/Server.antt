-- ===== src/Mcp/Server.antt =====
-- `handle` and `serve`: one JSON-RPC message, and the loop over the lines of stdin.
pub mod Laws
use tanaka.Prelude.{
  String, ◌==◌, Bool, true, false, not, Option, none, some, List, [], ◌∷◌, is_some, ℤ, negsuc,
  if◌then◌else◌,
}
use tanaka.Prelude.Texts.{concat, starts_with}
use tanaka.Json.{Json, null, str, obj, Fields, end, dict, get, has_key, is_text, opt_json}
use tanaka.Json.Truth.{or_else}
use tanaka.Host.{Host}
use tanaka.Mcp.Protocol.{
  ok_response, error_response, ToolResult, tool_result_json, initialize, tools_list,
}
use tanaka.Mcp.Call.{CallReadings, McpState, McpGateway, tools_call}

-- A response, no response, or an exception that ends the server.
pub data Handled : Type 0 where
  reply : Json → Handled
  silent raised : Handled

-- `isinstance(method, str) and method.startswith("notifications/")`
unfoldable pub is_notice : Option Json → Bool
is_notice (some (str method)) = starts_with "notifications/" method
is_notice _ = false

module _ (host : Host) where
  open host use {Bytes, PrivateKey, loads}

  unfoldable pub call_response :
      McpGateway Bytes PrivateKey
      → Json
      → Option (ToolResult Bytes) × McpState Bytes
      → Handled × McpState Bytes
  call_response g req_id (none, s) = (raised, s)
  call_response g req_id (some result, s) =
      (reply (ok_response req_id (tool_result_json g.texts.first_twelve result)), s)

  -- The methods that take params: a truthy value that is no object is an `AttributeError`.
  unfoldable pub handle_params :
      McpGateway Bytes PrivateKey
      → CallReadings
      → Bool
      → Json
      → Json
      → McpState Bytes
      → Handled × McpState Bytes
  unfolding call_response
  handle_params g i is_call req_id (obj params) s =
      if is_call then call_response g req_id (tools_call host g i params s) else (
        reply (
            ok_response req_id (initialize g.texts.is_zero g.identity (is_some g.consumer) params)),
        s,
      )
  handle_params g i is_call req_id _ s = (raised, s)

  unfoldable pub handle_object :
      McpGateway Bytes PrivateKey
      → CallReadings
      → Fields
      → McpState Bytes
      → Handled × McpState Bytes
  unfolding handle_params or_else is_notice
  handle_object g i request s =
      let method = get "method" request in
      let req_id = opt_json (get "id" request) in
      let params = or_else g.texts.is_zero (get "params" request) (obj end) in
      if is_text method "initialize"
      then handle_params g i false req_id params s
      else if is_text method "ping"
      then (reply (ok_response req_id (obj end)), s)
      else if is_text method "tools/list"
      then (reply (ok_response req_id (tools_list g.wiring.menu)), s)
      else if is_text method "tools/call"
      then handle_params g i true req_id params s
      else if is_notice method
      then (silent, s)
      else if not (has_key "id" request)
      then (silent, s)
      else (
        reply (
            error_response req_id (negsuc 32600)
              (concat "method not found: " (g.texts.show method))),
        s,
      )

  unfoldable pub handle_message :
      McpGateway Bytes PrivateKey → CallReadings → Json → McpState Bytes → Handled × McpState Bytes
  handle_message g i (obj request) s =
      if is_text (get "jsonrpc" request) "2.0"
      then handle_object g i request s
      else (reply (error_response null (negsuc 32599) "invalid JSON-RPC request"), s)
  handle_message g i _ s =
      (reply (error_response null (negsuc 32599) "invalid JSON-RPC request"), s)

  -- One line: `none` where it is blank.
  unfoldable pub handle_line :
      McpGateway Bytes PrivateKey → CallReadings → Bytes → McpState Bytes → Handled × McpState Bytes
  handle_line g i line s = elim (g.texts.clean line) [
    | none ↦ (silent, s)
    | some text ↦ elim (loads text) [
      | none ↦ (reply (error_response null (negsuc 32699) "parse error"), s)
      | some request ↦ handle_message g i request s
    ]
  ]

  -- What was written, the state, and whether an exception ended the loop.
  pub record Session : Type 0 where
    pub responses : List Json
    pub state : McpState Bytes
    pub crashed : Bool

  -- What one message adds to what the rest of the lines would give.
  unfoldable pub and_then : Handled × McpState Bytes → Session → Session
  and_then (raised, s) rest = record { responses = []; state = s; crashed = true }
  and_then (silent, s) rest = rest
  and_then (reply response, s) rest = record {
    responses = response ∷ rest.responses;
    state = rest.state;
    crashed = rest.crashed;
  }

  unfoldable pub serve :
      McpGateway Bytes PrivateKey → List (Bytes × CallReadings) → McpState Bytes → Session
  unfolding and_then
  serve g [] s = record { responses = []; state = s; crashed = false }
  serve g ((line, i) ∷ lines) s =
      let handled = handle_line g i line s in and_then handled (serve g lines handled.1)
