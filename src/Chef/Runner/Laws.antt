-- ===== src/Chef/Runner/Laws.antt =====
-- The receipt of one execution of chef/runner.py.
use tanaka.Prelude.{
  String, ◌≡◌, ◌≢◌, refl, Option-cases, inl, inr, Option, none, some, [], ◌∷◌, ◌++◌,
}
use tanaka.Json.{Json}
use tanaka.Host.{Host}
use tanaka.Spine.{Ticket, Receipt}
use tanaka.Chain.{Table, next_seq}
use tanaka.Ledger.{Entry, append_after}
use tanaka.Ledger.Laws.{IsIntact, append_after_eq, append_after-IsIntact, appended_text}
use tanaka.Chef.Runner.{
  ChefResult, ChefRun, Service, record_run, draft_of, chef_entry, chef_process, chef_result,
  run_chef, quote,
}

module _ (host : Host) (private_key : host.PrivateKey) where
  open host use {Bytes, PrivateKey, sha256}

  -- How a receipt reads for a process that left `draft`.
  abbrev pub Reports : Service Bytes PrivateKey → Receipt Bytes → Option Bytes → Type 0
  Reports service r none =
      (r.status ≡ "REJECTED")
      × (r.reason_code ≡ some "EXECUTION_FAILED")
      × (r.result_digest ≡ none)
      × (r.attestation ≡ none)
  Reports service r (some draft) =
      (r.status ≡ "FULFILLED")
      × (r.reason_code ≡ none)
      × (r.result_digest ≡ some (sha256 draft))
      × (r.attestation ≡ some (quote host service.attestor_key service.measurement))

  module _ (service : Service Bytes PrivateKey) (t : Ticket Bytes) (order_meta : Option Json)
      (receipt_hex : String) where
    abbrev entry_of : Option Bytes → Entry
    entry_of draft = chef_entry host service t order_meta receipt_hex draft

    entry_of-Reports :
        (draft : Option Bytes) (rows : Table Bytes) (last : String)
        → Reports service (append_after host private_key (entry_of draft) rows last).0 draft
    unfolding chef_entry append_after
    entry_of-Reports none rows last = (refl, refl, refl, refl)
    entry_of-Reports (some draft) rows last = (refl, refl, refl, refl)

    order_id-entry_of : (draft : Option Bytes) → (entry_of draft).order_id ≡ t.order_id
    unfolding chef_entry
    order_id-entry_of none = refl
    order_id-entry_of (some draft) = refl

    ticket_id-entry_of : (draft : Option Bytes) → (entry_of draft).ticket_id ≡ some t.ticket_id
    unfolding chef_entry
    ticket_id-entry_of none = refl
    ticket_id-entry_of (some draft) = refl

    order_meta-entry_of : (draft : Option Bytes) → (entry_of draft).order_meta ≡ order_meta
    unfolding chef_entry
    order_meta-entry_of none = refl
    order_meta-entry_of (some draft) = refl

    containment-entry_of :
        (draft : Option Bytes)
        → (entry_of draft).containment ≡ some service.sandbox.containment_class
    unfolding chef_entry
    containment-entry_of none = refl
    containment-entry_of (some draft) = refl

  -- What a run leaves, over a ledger with the head `last`.
  pub record IsRecorded (service : Service Bytes PrivateKey) (t : Ticket Bytes)
      (order_meta : Option Json) (rows : Table Bytes) (last : String) (chef : ChefResult Bytes)
      (rows' : Table Bytes) : Type 0 where
    pub process : ChefRun Bytes
    pub ran : chef_process host service t ≡ some process
    pub draft : chef.draft_bytes ≡ draft_of process
    pub reported : Reports service chef.receipt chef.draft_bytes
    pub order_id : chef.receipt.order_id ≡ t.order_id
    pub ticket_id : chef.receipt.ticket_id ≡ some t.ticket_id
    pub meta : chef.receipt.order_meta ≡ order_meta
    pub containment : chef.receipt.containment ≡ some service.sandbox.containment_class
    pub linked : chef.receipt.prev_hash ≡ last
    pub text : Bytes
    pub appended : rows' ≡ rows ++ (next_seq rows, text) ∷ []
    pub intact : IsIntact host private_key rows' chef.receipt.this_hash

  -- How a run ends, over a ledger with the head `last`: with a result and its receipt, or, where
  -- the process raises, with that exception and the rows as they were.
  pub data Ran (service : Service Bytes PrivateKey) (t : Ticket Bytes) (order_meta : Option Json)
      (rows : Table Bytes) (last : String) : Option (ChefResult Bytes) × Table Bytes → Type 0 where
    recorded :
        (chef : ChefResult Bytes) (rows' : Table Bytes)
        → IsRecorded service t order_meta rows last chef rows'
        → Ran service t order_meta rows last (some chef, rows')
    unrecorded :
        chef_process host service t ≡ none → Ran service t order_meta rows last (none, rows)

  -- Over an intact ledger a run ends in one of two ways. Where the window can be made and the
  -- sandbox does not raise, it ends with a result and one more receipt, FULFILLED with the digest of
  -- the draft where the exit code is zero and a draft is there, and EXECUTION_FAILED without digest
  -- and attestation otherwise. Else it raises, and leaves the ledger as it was.
  pub run_chef-Ran :
      (service : Service Bytes PrivateKey) (t : Ticket Bytes) (order_meta : Option Json)
      (receipt_hex : String) (rows : Table Bytes) (last : String)
      → IsIntact host private_key rows last
      → Ran service t order_meta rows last
          (run_chef host private_key service t order_meta receipt_hex rows)
  unfolding run_chef chef_result append_after record_run
  run_chef-Ran service t order_meta receipt_hex rows last h =
      elim (Option-cases (chef_process host service t)) [
        | inl raises ↦ rw (raises, run_chef) (unrecorded raises)
        | inr (proc, ends) ↦
            let entry = chef_entry host service t order_meta receipt_hex (draft_of proc) in
            rw (ends, run_chef)
              (rw (append_after_eq host private_key entry rows last h, record_run)
                (recorded (chef_result host proc (append_after host private_key entry rows last).0)
                  (append_after host private_key entry rows last).1
                  (record {
                    process = proc;
                    ran = ends;
                    draft = refl;
                    reported =
                        entry_of-Reports service t order_meta receipt_hex (draft_of proc) rows last;
                    order_id = order_id-entry_of service t order_meta receipt_hex (draft_of proc);
                    ticket_id = ticket_id-entry_of service t order_meta receipt_hex (draft_of proc);
                    meta = order_meta-entry_of service t order_meta receipt_hex (draft_of proc);
                    containment =
                        containment-entry_of service t order_meta receipt_hex (draft_of proc);
                    linked = refl;
                    text = appended_text host private_key entry last;
                    appended = refl;
                    intact = append_after-IsIntact host private_key entry rows last h;
                  })))
      ]

  -- No ticket with this order id makes the runner's process raise.
  abbrev pub Runs : Service Bytes PrivateKey → String → Type 0
  Runs service order_id =
      (t : Ticket Bytes) → t.order_id ≡ order_id → chef_process host service t ≢ none
