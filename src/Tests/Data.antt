-- ===== src/Tests/Data.antt =====
-- The capability, the policies and the orders that the examples use.
use tanaka.Prelude.{String, true, false, none, some, List, [], ◌∷◌, pos}
use tanaka.Json.{str, obj, dict}
use tanaka.Spine.{Capability, Order}
use tanaka.Ledger.{Entry}
use tanaka.Cashier.Policy.{Policy}
use tanaka.Cashier.Engine.{Menu, Readings}

abbrev pub draft_reply : Capability
draft_reply = record {
  id = "cap.email.draft_reply.v1";
  name = "Draft reply";
  inputs = ("thread_id", "string") ∷ [];
  outputs = ("draft", "text") ∷ [];
  side_effects = "none";
  scope = "own_queue";
  risk_class = "low";
  description = "";
  recommended_max_rate = none;
  requires_second_admin = false;
  requires_user_confirmation = false;
  scoped_input = "thread_id";
  behavior = some "draft_reply";
  enabled = true;
  behavior_config = dict [];
}

abbrev pub menu : Menu
menu = ("cap.email.draft_reply.v1", draft_reply) ∷ []

abbrev pub policies : List Policy
policies =
    record {
      role = "account_manager";
      allowed_capabilities = "cap.email.draft_reply.v1" ∷ [];
      rate_limit_per_hour = pos 5;
      paused_capabilities = [];
    }
    ∷ []

abbrev pub order_for : String → String → Order
order_for nonce thread = record {
  order_id = "ord-1";
  principal = "user.kenji";
  role = "account_manager";
  capability_id = "cap.email.draft_reply.v1";
  args = obj (dict (("thread_id", str thread) ∷ []));
  nonce = nonce;
  ts = "2026-06-10T12:00:00+00:00";
}

abbrev pub honest : Order
honest = order_for "nonce-1" "user.kenji/t-001"

abbrev pub foreign_order : Order
foreign_order = order_for "nonce-2" "user.aiko/t-001"

abbrev pub readings : Readings
readings = record {
  rate_now = 100;
  accept_now = 101;
  issued_ts = "2026-06-10T12:00:01+00:00";
  receipt_hex = "aa";
  ticket_hex = "bb";
}

abbrev pub entry : Entry
entry = record {
  receipt_id = "rcpt-1";
  order_id = "ord-1";
  ticket_id = none;
  status = "REJECTED";
  reason_code = some "OFF_MENU";
  result_digest = none;
  attestation = none;
  order_meta = none;
  containment = none;
}
