-- ===== src/Menu/Templates.antt =====
-- menu/templates.py: the blocks that an operator composes menu items from.
pub mod Handled
use tanaka.Prelude.{ℕ, String, Bool, true, false, Option, List, [], ◌∷◌, lookup, map}

pub record Template : Type 0 where
  pub label : String
  pub summary : String
  pub scoped_input : String
  pub inputs : List (String × String)
  pub outputs : List (String × String)
  pub side_effects : String
  pub default_risk : String
  pub default_requires_user_confirmation : Bool
  pub default_requires_second_admin : Bool
  pub default_recommended_max_rate : ℕ
  pub needs_template : Bool

abbrev pub draft_reply_block : Template
draft_reply_block = record {
  label = "Draft a reply";
  summary = "Read a message in a folder and write a draft reply for review. Never sends.";
  scoped_input = "thread_id";
  inputs = ("thread_id", "string") ∷ [];
  outputs = ("draft", "text") ∷ [];
  side_effects = "none";
  default_risk = "low";
  default_requires_user_confirmation = false;
  default_requires_second_admin = false;
  default_recommended_max_rate = 20;
  needs_template = false;
}

abbrev pub docs_summarize_block : Template
docs_summarize_block = record {
  label = "Summarize a document";
  summary =
      "Read a document in a folder and return a short extractive summary (no AI model). Content never leaves the kitchen.";
  scoped_input = "doc_id";
  inputs = ("doc_id", "string") ∷ [];
  outputs = ("summary", "text") ∷ [];
  side_effects = "none";
  default_risk = "low";
  default_requires_user_confirmation = false;
  default_requires_second_admin = false;
  default_recommended_max_rate = 30;
  needs_template = false;
}

abbrev pub payment_request_block : Template
payment_request_block = record {
  label = "Request a payment";
  summary =
      "Prepare a payment-authorization request for a human to approve. HIGH RISK. Never moves money in this slice.";
  scoped_input = "thread_id";
  inputs = ("thread_id", "string") ∷ [];
  outputs = ("payment_request", "text") ∷ [];
  side_effects = "money_movement";
  default_risk = "high";
  default_requires_user_confirmation = true;
  default_requires_second_admin = true;
  default_recommended_max_rate = 2;
  needs_template = false;
}

abbrev pub template_block : Template
template_block = record {
  label = "Custom text response";
  summary =
      "Read something and produce a text message you write, with fill-in fields like $subject, $first_line, $word_count, $body. No code.";
  scoped_input = "doc_id";
  inputs = ("doc_id", "string") ∷ [];
  outputs = ("text", "text") ∷ [];
  side_effects = "none";
  default_risk = "low";
  default_requires_user_confirmation = false;
  default_requires_second_admin = false;
  default_recommended_max_rate = 20;
  needs_template = true;
}

abbrev pub templates : List (String × Template)
templates =
    ("draft_reply", draft_reply_block)
    ∷ ("docs_summarize", docs_summarize_block)
    ∷ ("payment_request", payment_request_block)
    ∷ ("template", template_block)
    ∷ []

-- `TEMPLATES.get(behavior)`
unfoldable pub template : String → Option Template
template behavior = lookup behavior templates
