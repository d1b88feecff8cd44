-- ===== src/Tests/McpExamples.antt =====
-- The MCP gateway on a session of three messages, and on one call.
use tanaka.Prelude.{String, ◌≡◌, refl, false, none, some, [], ◌∷◌}
use tanaka.Json.{str, obj, dict}
use tanaka.Spine.{Receipt, genesis_prev_hash}
use tanaka.Chain.{head_hash, next_seq}
use tanaka.Cashier.Store.{
  empty_store, nonce_is_spent, rate_count, count_recent, times_of, add_time, nonce_seen,
  record_accept,
}
use tanaka.Mcp.Protocol.{McpTexts, fulfilled_result}
use tanaka.Mcp.Call.{
  CallReadings, McpState, McpGateway, place_with, chef_answer, place_answer, shown_draft,
}
use tanaka.Mcp.Call.Answers.{IsBacked, fulfilled-IsBacked}
use tanaka.Mcp.Server.{serve}
use tanaka.Mcp.Server.Laws.{Tallied, serve-Tallied}
use tanaka.Loop.{place, spawn}
use tanaka.Cashier.Engine.{
  process_order, act, evaluate_order, run_spawn, after_spawn, check_args, check_policy, mint,
}
use tanaka.Cashier.Policy.{for_role}
use tanaka.Cashier.Scope.{in_scope, resource_of, owned_by, split_once, local_unsafe}
use tanaka.Chef.Runner.{chef_entry, chef_process, chef_result, draft_of, fulfilled_entry, run_chef}
use tanaka.Ledger.{append, append_after}
use tanaka.Tests.ToyHost.{Blob, doc, raw, toy, to_text}
use tanaka.Tests.Data.{readings, honest}
use tanaka.Tests.LoopExamples.{wiring, empty_accepted}

abbrev texts : McpTexts Blob
texts = record {
  is_zero = λ x. false;
  show = λ v. "value";
  decode = λ b. some (to_text b);
  clean = λ b. some b;
  first_twelve = λ s. s;
}

abbrev gateway : McpGateway Blob String
gateway = record {
  wiring = wiring;
  identity = record {
    principal = "user.kenji";
    role = "account_manager";
    server_name = "sentinel-loop";
    version = "1";
  };
  consumer = none;
  texts = texts;
}

abbrev draws : CallReadings
draws = record {
  order_hex = "11";
  nonce_hex = "22";
  ts = "2026-06-10T12:00:00+00:00";
  readings = readings;
  chef_hex = "cc";
}

abbrev call : Blob
call = doc (
    obj (
      dict (
        ("jsonrpc", str "2.0")
        ∷ ("id", str "7")
        ∷ ("method", str "tools/call")
        ∷ (
          "params",
          obj (
              dict (
                ("name", str "cap_email_draft_reply_v1")
                ∷ ("arguments", obj (dict (("thread_id", str "user.kenji/t-001") ∷ [])))
                ∷ [])),
        )
        ∷ [])))

abbrev ping : Blob
ping = doc (obj (dict (("jsonrpc", str "2.0") ∷ ("id", str "8") ∷ ("method", str "ping") ∷ [])))

abbrev opening_state : McpState Blob
opening_state = record {
  store = empty_store;
  rows = [];
  last_chef = none;
  prefs = record { settings = []; saved = none };
}

serve-Tallied_example :
    Tallied toy gateway ((ping, draws) ∷ (call, draws) ∷ (raw "no json", draws) ∷ []) 0 (
      serve toy gateway ((ping, draws) ∷ (call, draws) ∷ (raw "no json", draws) ∷ []) opening_state)
serve-Tallied_example =
    serve-Tallied toy gateway ((ping, draws) ∷ (call, draws) ∷ (raw "no json", draws) ∷ [])
      opening_state 0 empty_accepted

abbrev blank_receipt : Receipt Blob
blank_receipt = record {
  receipt_id = "";
  order_id = "";
  ticket_id = none;
  status = "";
  reason_code = none;
  result_digest = none;
  attestation = none;
  prev_hash = "";
  this_hash = "";
  sig = raw "";
  order_meta = none;
  containment = none;
}

-- The receipt that the call of the honest order answers with.
abbrev shown_receipt : Receipt Blob
shown_receipt = elim (place_with toy gateway none draws honest opening_state).0 [
  | some (fulfilled_result output receipt) ↦ receipt
  | _ ↦ blank_receipt
]

honest_shown :
    (place_with toy gateway none draws honest opening_state).0
    ≡ some (fulfilled_result "draft" shown_receipt)
unfolding place_with place process_order act evaluate_order nonce_is_spent for_role in_scope
    resource_of owned_by split_once local_unsafe rate_count count_recent times_of run_spawn
    after_spawn spawn check_args check_policy mint add_time nonce_seen record_accept head_hash
    next_seq chef_entry chef_process chef_result draft_of fulfilled_entry run_chef append
    append_after chef_answer place_answer shown_draft to_text
honest_shown = refl

fulfilled-IsBacked_example :
    IsBacked toy gateway draws honest opening_state "draft" shown_receipt
      (place_with toy gateway none draws honest opening_state).1.rows
fulfilled-IsBacked_example =
    fulfilled-IsBacked toy gateway draws honest opening_state (genesis_prev_hash toy) "draft"
      shown_receipt refl honest_shown
