-- ===== src/Chef/Runner.antt =====
-- chef/runner.py and attestor/mock.py: a ticket is executed, and the result is recorded. What the
-- sandboxed subprocess does is a parameter: its exit code, its stderr, and the draft that can be
-- read back afterwards, or an exception. So is whether the directories of the serving window can be
-- made (window/serving.py), which the order's id decides. The workspace is not modelled.
pub mod Laws
use tanaka.Prelude.{
  ℕ, String, Bool, true, false, ◌&&◌, Option, none, some, List, [], ◌∷◌, ◌++◌, eqb, is_some,
  if◌then◌else◌,
}
use tanaka.Prelude.Texts.{concat}
use tanaka.Json.{Json, bool, str, obj, Fields, dict}
use tanaka.Host.{Host}
use tanaka.Spine.{Ticket, Receipt}
use tanaka.Chain.{Table}
use tanaka.Ledger.{Entry, append}

-- What is left when the chef's process has ended. `draft` is `none` for `FileNotFoundError`.
pub record ChefRun (B : Type 0) : Type 0 where
  pub returncode : ℕ
  pub stderr : String
  pub draft : Option B

-- A containment backend: the class it reports, and its run on the text on stdin. `none` is an
-- exception, of the run or of reading the draft back, other than `FileNotFoundError`.
pub record Sandbox (B : Type 0) : Type 0 where
  pub containment_class : String
  pub run : B → Option (ChefRun B)

pub record ChefResult (B : Type 0) : Type 0 where
  pub draft_bytes : Option B
  pub result_digest : Option String
  pub receipt : Receipt B
  pub returncode : ℕ
  pub stderr : String

-- The ticket as the chef reads it: the signed keys and the signature.
unfoldable pub wire : {B : Type 0} → (B → String) → Ticket B → Fields
wire b64encode t = dict (
    ("ticket_id", str t.ticket_id)
    ∷ ("order_id", str t.order_id)
    ∷ ("capability_id", str t.capability_id)
    ∷ ("behavior", str t.behavior)
    ∷ ("behavior_config", obj t.behavior_config)
    ∷ ("scoped_args", obj t.scoped_args)
    ∷ ("issued_ts", str t.issued_ts)
    ∷ ("cashier_sig", str (b64encode t.cashier_sig))
    ∷ [])

-- What the runner is given besides the ticket and its order: the backend, the attestor's key, the
-- hash of the chef's source, and whether `os.makedirs` makes the directory that
-- `serving.window_dir` names for an order's id; where it does not, it raises.
pub record Service (B K : Type 0) : Type 0 where
  pub sandbox : Sandbox B
  pub attestor_key : K
  pub measurement : String
  pub makes_window : String → Bool

unfoldable pub failed_entry : {B : Type 0} → Ticket B → Option Json → String → String → Entry
failed_entry t order_meta containment receipt_hex = record {
  receipt_id = concat "rcpt-" receipt_hex;
  order_id = t.order_id;
  ticket_id = some t.ticket_id;
  status = "REJECTED";
  reason_code = some "EXECUTION_FAILED";
  result_digest = none;
  attestation = none;
  order_meta = order_meta;
  containment = some containment;
}

unfoldable pub fulfilled_entry :
    {B : Type 0} → Ticket B → Option Json → String → String → String → Json → Entry
fulfilled_entry t order_meta containment receipt_hex digest attestation = record {
  receipt_id = concat "rcpt-" receipt_hex;
  order_id = t.order_id;
  ticket_id = some t.ticket_id;
  status = "FULFILLED";
  reason_code = none;
  result_digest = some digest;
  attestation = some attestation;
  order_meta = order_meta;
  containment = some containment;
}

-- The draft counts where the exit code is zero; it is not read otherwise.
unfoldable pub draft_of : {B : Type 0} → ChefRun B → Option B
draft_of p = if eqb p.returncode 0 then p.draft else none

module _ (host : Host) where
  open host use {Bytes, PrivateKey, dumps_plain, encode, sha256, b64encode, sign}

  -- `MockAttestor.quote`
  unfoldable pub quote : PrivateKey → String → Json
  quote key measurement_hex = obj (
      dict (
        ("mock", bool true)
        ∷ ("attestor", str "MockAttestor")
        ∷ ("measurement", str measurement_hex)
        ∷ ("sig", str (b64encode (sign key (encode measurement_hex))))
        ∷ (
          "note",
          str
              "MOCK ATTESTATION — signs a code hash, NOT a TEE quote. Proves the receipt attestation slot only.",
        )
        ∷ []))

  -- The receipt that is appended for the draft that the process left.
  unfoldable pub chef_entry :
      Service Bytes PrivateKey → Ticket Bytes → Option Json → String → Option Bytes → Entry
  unfolding failed_entry fulfilled_entry
  chef_entry service t order_meta receipt_hex none =
      failed_entry t order_meta service.sandbox.containment_class receipt_hex
  chef_entry service t order_meta receipt_hex (some draft) =
      fulfilled_entry t order_meta service.sandbox.containment_class receipt_hex (sha256 draft)
        (quote service.attestor_key service.measurement)

  -- What is done before the receipt; `none` is an exception, which nothing catches.
  unfoldable pub chef_process : Service Bytes PrivateKey → Ticket Bytes → Option (ChefRun Bytes)
  chef_process service t =
      if service.makes_window t.order_id
      then service.sandbox.run (dumps_plain (obj (wire b64encode t)))
      else none

  unfoldable pub chef_result : ChefRun Bytes → Receipt Bytes → ChefResult Bytes
  chef_result proc receipt = record {
    draft_bytes = draft_of proc;
    result_digest = elim (draft_of proc) [ none ↦ none | some draft ↦ some (sha256 draft) ];
    receipt = receipt;
    returncode = proc.returncode;
    stderr = proc.stderr;
  }

  -- The receipt of a process that has ended; `none` is an exception of the append.
  unfoldable pub record_run :
      PrivateKey
      → Service Bytes PrivateKey
      → Ticket Bytes
      → Option Json
      → String
      → ChefRun Bytes
      → Table Bytes
      → Option (ChefResult Bytes) × Table Bytes
  record_run private_key service t order_meta receipt_hex proc rows =
      elim (append host private_key (chef_entry service t order_meta receipt_hex (draft_of proc))
        rows) [
          | none ↦ (none, rows)
          | some (receipt, rows') ↦ (some (chef_result proc receipt), rows')
        ]

  -- `none` is an exception: of the window, of the run, or of the append. The workspace is gone on
  -- every path.
  unfoldable pub run_chef :
      PrivateKey
      → Service Bytes PrivateKey
      → Ticket Bytes
      → Option Json
      → String
      → Table Bytes
      → Option (ChefResult Bytes) × Table Bytes
  unfolding record_run
  run_chef private_key service t order_meta receipt_hex rows = elim (chef_process service t) [
    | none ↦ (none, rows)
    | some proc ↦ record_run private_key service t order_meta receipt_hex proc rows
  ]
