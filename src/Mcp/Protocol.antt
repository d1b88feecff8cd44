-- ===== src/Mcp/Protocol.antt =====
-- The names of the tools, the shape of the messages, and what the gateway is built with.
use Prim.Native.Char.{Char, code}
use tanaka.Prelude.{
  ℕ, String, ◌==◌, Bool, true, false, ◌||◌, ◌&&◌, Option, none, some, List, [], ◌∷◌, insert, leb,
  eqb, ℤ, if◌then◌else◌,
}
use tanaka.Prelude.Texts.{concat, str_leb}
use tanaka.Json.{Json, bool, int, str, arr, obj, Items, nil, cons, Fields, dict, get}
use tanaka.Json.Truth.{or_else}
use tanaka.Spine.{Capability, Receipt}
use tanaka.Cashier.Engine.{Menu}

-- `[a-zA-Z0-9_-]`
abbrev is_safe : ℕ → Bool
is_safe c =
    (leb 97 c && leb c 122)
    || (leb 65 c && leb c 90)
    || (leb 48 c && leb c 57)
    || eqb c 95
    || eqb c 45

abbrev underscore : Char
underscore = "_"

-- `re.sub(r"[^a-zA-Z0-9_-]", "_", capability_id)`
unfoldable pub tool_name : String → String
tool_name String.[] = String.[]
tool_name (String.◌∷◌ c s) = String.◌∷◌ (if is_safe (code c) then c else underscore) (tool_name s)

-- A later capability with the name of an earlier one takes its place.
unfoldable pub add_tools : Menu → List (String × Capability) → List (String × Capability)
unfolding tool_name
add_tools [] tools = tools
add_tools ((id, cap) ∷ menu) tools = add_tools menu (insert (tool_name cap.id) cap tools)

unfoldable pub menu_map : Menu → List (String × Capability)
unfolding add_tools
menu_map menu = add_tools menu []

-- What of Python the gateway uses: whether a float is zero, `str(value)` and `str(n)`, the bytes of a draft as
-- UTF-8 text (`none` for `UnicodeDecodeError`), a line without its BOM and blanks (`none` where
-- nothing is left), and the first twelve characters of a text.
pub record McpTexts (B : Type 0) : Type 0 where
  pub is_zero : String → Bool
  pub show : Option Json → String
  pub decode : B → Option String
  pub clean : B → Option B
  pub first_twelve : String → String

-- The identity that the agent acts as, and what the server says of itself.
pub record Identity : Type 0 where
  pub principal : String
  pub role : String
  pub server_name : String
  pub version : String

unfoldable pub ok_response : Json → Json → Json
ok_response req_id result =
    obj (dict (("jsonrpc", str "2.0") ∷ ("id", req_id) ∷ ("result", result) ∷ []))

unfoldable pub error_response : Json → ℤ → String → Json
error_response req_id code message = obj (
    dict (
      ("jsonrpc", str "2.0")
      ∷ ("id", req_id)
      ∷ ("error", obj (dict (("code", int code) ∷ ("message", str message) ∷ [])))
      ∷ []))

-- What a tool call gives back: the text of a draft with its receipt, or a tool's error.
pub data ToolResult (B : Type 0) : Type 0 where
  fulfilled_result : String → Receipt B → ToolResult B
  tool_error : String → ToolResult B

abbrev text_item : String → Json
text_item s = obj (dict (("type", str "text") ∷ ("text", str s) ∷ []))

unfoldable pub receipt_note : {B : Type 0} → (String → String) → Receipt B → String
receipt_note first_twelve r =
    let digest : String = elim r.result_digest [ none ↦ "" | some d ↦ d ] in
    concat "[Sentinel receipt " (
      concat r.receipt_id (
        concat " | status " (
          concat r.status (
            concat " | result digest "
              (concat (first_twelve digest) ".. | verifiable in the ledger]")))))

unfoldable pub tool_result_json : {B : Type 0} → (String → String) → ToolResult B → Json
unfolding receipt_note
tool_result_json first_twelve (fulfilled_result output receipt) = obj (
    dict (
      (
        "content",
        arr (cons (text_item output) (cons (text_item (receipt_note first_twelve receipt)) nil)),
      )
      ∷ ("isError", bool false)
      ∷ []))
tool_result_json first_twelve (tool_error message) =
    obj (dict (("content", arr (cons (text_item message) nil)) ∷ ("isError", bool true) ∷ []))

-- `_initialize`, on the fields of its params; `consumer` tells whether there is a consumer loop.
unfoldable pub initialize : (String → Bool) → Identity → Bool → Fields → Json
unfolding or_else
initialize is_zero me consumer params = obj (
    dict (
      ("protocolVersion", or_else is_zero (get "protocolVersion" params) (str "2025-06-18"))
      ∷ ("capabilities", obj (dict (("tools", obj (dict (("listChanged", bool false) ∷ []))) ∷ [])))
      ∷ ("serverInfo", obj (dict (("name", str me.server_name) ∷ ("version", str me.version) ∷ [])))
      ∷ (
        "instructions",
        str (
            concat
              "Every tool call is governed by Sentinel policy (scope, role, rate) and leaves a signed receipt. Refused calls return an error and are still recorded."
              (if consumer
                then " High-stakes calls additionally require the user's on-device approval; a denial is recorded too."
                else "")),
      )
      ∷ []))

-- The inputs of a capability, as the schema of its tool has them.
unfoldable pub input_properties : String → List (String × String) → List (String × Json)
input_properties scoped_input [] = []
input_properties scoped_input ((key, kind) ∷ inputs) =
    (
      key,
      obj (
          dict (
            ("type", str "string")
            ∷ (
              "description",
              str (if key == scoped_input then "scoped resource id (e.g. <owner>/<item>)" else key),
            )
            ∷ [])),
    )
    ∷ input_properties scoped_input inputs

unfoldable pub required_inputs : List (String × String) → Items
required_inputs [] = nil
required_inputs ((key, kind) ∷ inputs) = cons (str key) (required_inputs inputs)

unfoldable pub tool_json : String → Capability → Json
unfolding input_properties required_inputs
tool_json name cap = obj (
    dict (
      ("name", str name)
      ∷ (
        "description",
        str (
            concat (if cap.description == "" then cap.name else cap.description) (
              concat "  [governed: "
                (concat cap.risk_class " risk; every call scope-checked and receipted]"))),
      )
      ∷ (
        "inputSchema",
        obj (
            dict (
              ("type", str "object")
              ∷ ("properties", obj (dict (input_properties cap.scoped_input cap.inputs)))
              ∷ ("required", arr (required_inputs cap.inputs))
              ∷ [])),
      )
      ∷ []))

-- `sorted(self._menu_map().items())`: no two entries have one name.
insert_tool : String → Capability → List (String × Capability) → List (String × Capability)
insert_tool name cap [] = (name, cap) ∷ []
insert_tool name cap ((n, c) ∷ tools) =
    if str_leb name n then (name, cap) ∷ (n, c) ∷ tools else (n, c) ∷ insert_tool name cap tools

unfoldable pub sorted_tools : List (String × Capability) → List (String × Capability)
unfolding insert_tool
sorted_tools [] = []
sorted_tools ((name, cap) ∷ tools) = insert_tool name cap (sorted_tools tools)

unfoldable pub tool_items : List (String × Capability) → Items
unfolding tool_json
tool_items [] = nil
tool_items ((name, cap) ∷ tools) = cons (tool_json name cap) (tool_items tools)

unfoldable pub tools_list : Menu → Json
unfolding tool_items sorted_tools menu_map
tools_list menu = obj (dict (("tools", arr (tool_items (sorted_tools (menu_map menu)))) ∷ []))
