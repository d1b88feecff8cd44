-- ===== src/Ledger.antt =====
-- ledger/receipts.py and verify_ledger.py: the append-only store of signed receipts.
pub mod Laws
pub mod Tamper
use tanaka.Prelude.{ℕ, String, Option, none, some, List, [], ◌∷◌, ◌++◌, ◌==◌, if◌then◌else◌}
use tanaka.Json.{Json, null, obj, str, Fields, dict, get, opt_text, opt_json}
use tanaka.Host.{Host}
use tanaka.Spine.{Receipt, receipt_content_hash, genesis_prev_hash}
use tanaka.Chain.{Table, Verdict, next_seq, head_hash, walk}

-- The arguments of `Ledger.append`.
pub record Entry : Type 0 where
  pub receipt_id : String
  pub order_id : String
  pub ticket_id : Option String
  pub status : String
  pub reason_code : Option String
  pub result_digest : Option String
  pub attestation : Option Json
  pub order_meta : Option Json
  pub containment : Option String

-- The content that is hashed: every argument, and the hash of the row before.
unfoldable pub entry_content : Entry → String → Fields
entry_content e prev_hash = dict (
    ("receipt_id", str e.receipt_id)
    ∷ ("order_id", str e.order_id)
    ∷ ("ticket_id", opt_text e.ticket_id)
    ∷ ("status", str e.status)
    ∷ ("reason_code", opt_text e.reason_code)
    ∷ ("result_digest", opt_text e.result_digest)
    ∷ ("attestation", opt_json e.attestation)
    ∷ ("order_meta", opt_json e.order_meta)
    ∷ ("containment", opt_text e.containment)
    ∷ ("prev_hash", str prev_hash)
    ∷ [])

-- The row that is stored: the content, its hash and the signature.
unfoldable pub entry_row : Entry → String → String → String → Fields
entry_row e prev_hash this_hash sig_b64 = dict (
    ("receipt_id", str e.receipt_id)
    ∷ ("order_id", str e.order_id)
    ∷ ("ticket_id", opt_text e.ticket_id)
    ∷ ("status", str e.status)
    ∷ ("reason_code", opt_text e.reason_code)
    ∷ ("result_digest", opt_text e.result_digest)
    ∷ ("attestation", opt_json e.attestation)
    ∷ ("order_meta", opt_json e.order_meta)
    ∷ ("containment", opt_text e.containment)
    ∷ ("prev_hash", str prev_hash)
    ∷ ("this_hash", str this_hash)
    ∷ ("sig", str sig_b64)
    ∷ [])

module _ (host : Host) where
  open host use {Bytes, PrivateKey, PublicKey, dumps, encode, b64encode, sign}

  -- The row that is inserted, and the receipt that is returned, after the head `prev_hash`.
  unfoldable pub append_after :
      PrivateKey → Entry → Table Bytes → String → Receipt Bytes × Table Bytes
  append_after private_key e rows prev_hash =
      let this_hash = receipt_content_hash host (entry_content e prev_hash) in
      let raw_sig = sign private_key (encode this_hash) in
      let stored_json = dumps (obj (entry_row e prev_hash this_hash (b64encode raw_sig))) in
      (
        record {
          receipt_id = e.receipt_id;
          order_id = e.order_id;
          ticket_id = e.ticket_id;
          status = e.status;
          reason_code = e.reason_code;
          result_digest = e.result_digest;
          attestation = e.attestation;
          prev_hash = prev_hash;
          this_hash = this_hash;
          sig = raw_sig;
          order_meta = e.order_meta;
          containment = e.containment;
        },
        rows ++ (next_seq rows, stored_json) ∷ [],
      )

  -- `Ledger.append`. `none` is an exception while the head is read, before anything is written.
  unfoldable pub append : PrivateKey → Entry → Table Bytes → Option (Receipt Bytes × Table Bytes)
  append private_key e rows = elim (head_hash host (genesis_prev_hash host) rows) [
    | none ↦ none
    | some prev_hash ↦ some (append_after private_key e rows prev_hash)
  ]

abbrev pub content_keys : List String
content_keys =
    "receipt_id" ∷ "order_id" ∷ "ticket_id" ∷ "status" ∷ "reason_code" ∷ "result_digest"
    ∷ "attestation" ∷ "prev_hash" ∷ []

-- The loop of verify_ledger.py over the rows that `SELECT … ORDER BY seq` returned.
unfoldable pub verify_ledger : (host : Host) → host.PublicKey → Table host.Bytes → Verdict
verify_ledger host key rows = walk host content_keys key rows (genesis_prev_hash host) 0
