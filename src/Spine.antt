-- ===== src/Spine.antt =====
-- spine/types.py and spine/hashing.py: the values that the parts of the program exchange.
use tanaka.Prelude.{String, ◌==◌, Bool, Option, none, some, List, [], ◌∷◌, ℤ, if◌then◌else◌}
use tanaka.Json.{Json, str, obj, Fields, dict, opt_text, opt_json}
use tanaka.Host.{Host}

pub record Capability : Type 0 where
  pub id : String
  pub name : String
  pub inputs : List (String × String)
  pub outputs : List (String × String)
  pub side_effects : String
  pub scope : String
  pub risk_class : String
  pub description : String
  pub recommended_max_rate : Option ℤ
  pub requires_second_admin : Bool
  pub requires_user_confirmation : Bool
  pub scoped_input : String
  pub behavior : Option String
  pub enabled : Bool
  pub behavior_config : Fields

-- `self.behavior or self.id`: an empty text counts as none
unfoldable pub resolved_behavior : Capability → String
resolved_behavior c = elim c.behavior [
  | none ↦ c.id
  | some behavior ↦ if behavior == "" then c.id else behavior
]

pub record Order : Type 0 where
  pub order_id : String
  pub principal : String
  pub role : String
  pub capability_id : String
  pub args : Json
  pub nonce : String
  pub ts : String

-- `B` is the type of the signature, Python's bytes.
pub record Ticket (B : Type 0) : Type 0 where
  pub ticket_id : String
  pub order_id : String
  pub capability_id : String
  pub behavior : String
  pub behavior_config : Fields
  pub scoped_args : Fields
  pub issued_ts : String
  pub cashier_sig : B

pub record Receipt (B : Type 0) : Type 0 where
  pub receipt_id : String
  pub order_id : String
  pub ticket_id : Option String
  pub status : String
  pub reason_code : Option String
  pub result_digest : Option String
  pub attestation : Option Json
  pub prev_hash : String
  pub this_hash : String
  pub sig : B
  pub order_meta : Option Json
  pub containment : Option String

-- Who, what and when of an order; its `args` are left out.
unfoldable pub order_meta_from_order : Order → Json
order_meta_from_order o = obj (
    dict (
      ("principal", str o.principal)
      ∷ ("role", str o.role)
      ∷ ("capability_id", str o.capability_id)
      ∷ ("ts", str o.ts)
      ∷ []))

-- Every field of a receipt but `this_hash` and `sig`.
unfoldable pub receipt_content_dict : {B : Type 0} → Receipt B → Fields
receipt_content_dict r = dict (
    ("receipt_id", str r.receipt_id)
    ∷ ("order_id", str r.order_id)
    ∷ ("ticket_id", opt_text r.ticket_id)
    ∷ ("status", str r.status)
    ∷ ("reason_code", opt_text r.reason_code)
    ∷ ("result_digest", opt_text r.result_digest)
    ∷ ("attestation", opt_json r.attestation)
    ∷ ("order_meta", opt_json r.order_meta)
    ∷ ("containment", opt_text r.containment)
    ∷ ("prev_hash", str r.prev_hash)
    ∷ [])

module _ (host : Host) where
  open host use {Bytes, dumps, sha256, encode}

  unfoldable pub genesis_prev_hash : String
  genesis_prev_hash = sha256 (encode "GENESIS")

  unfoldable pub receipt_content_hash : Fields → String
  receipt_content_hash content = sha256 (dumps (obj content))
