-- ===== src/Consumer/Place/Gate.antt =====
-- consumer/loop.py: what the gate after the cashier answers and appends.
use tanaka.Prelude.{
  ◌+◌, String, ◌≡◌, ◌≢◌, refl, ap, ◌∙◌, Bool, true, false, Option, none, some, [], ◌∷◌, length,
  length-append, arith, Bool-cases, inl, inr,
}
use tanaka.Host.{Host}
use tanaka.Spine.{Order, Ticket, order_meta_from_order}
use tanaka.Chain.{Table, next_seq}
use tanaka.Ledger.Laws.{
  IsIntact, append_after_eq, append_after-IsIntact, rows_after_eq, appended_text,
}
use tanaka.Chef.Runner.{ChefResult, chef_process}
use tanaka.Chef.Runner.Laws.{IsRecorded, Ran, recorded, unrecorded, run_chef-Ran}
use tanaka.Loop.{Wiring}
use tanaka.Consumer.Preferences.{Permission, allow, ask, block, ApprovalDecision}
use tanaka.Consumer.Place.{
  ConsumerOutcome, ConsumerState, consumer_entry, refuse, executed, execute, gate,
}

module _ (host : Host) (w : Wiring host.Bytes host.PrivateKey) where
  open host use {Bytes, PrivateKey, public_key}

  -- An answer, and a ledger that is intact and one row longer than `rows`.
  pub record IsSettled (rows : Table Bytes)
      (r : Option (ConsumerOutcome Bytes) × ConsumerState Bytes) : Type 0 where
    pub answer : ConsumerOutcome Bytes
    pub answered : r.0 ≡ some answer
    pub last : String
    pub intact : IsIntact host w.private_key r.1.rows last
    pub longer : length r.1.rows ≡ length rows + 1

  refuse-IsSettled :
      (s : ConsumerState Bytes) (order : Order) (t : Ticket Bytes) (status reason_code hex : String)
      (asked : Bool) (last : String)
      → IsIntact host w.private_key s.rows last
      → IsSettled s.rows (refuse host w s order t status reason_code hex asked)
  unfolding refuse
  refuse-IsSettled s order t status reason_code hex asked last h =
      let entry = consumer_entry order t.ticket_id reason_code hex in
      rw (append_after_eq host w.private_key entry s.rows last h, refuse)
        (record {
          answer = _;
          answered = refl;
          last = _;
          intact = append_after-IsIntact host w.private_key entry s.rows last h;
          longer =
              ap (λ (t : Table Bytes). length t)
                (rows_after_eq host w.private_key entry s.rows last)
              ∙ omega (
                arith,
                length-append s.rows
                    ((next_seq s.rows, appended_text host w.private_key entry last) ∷ []),
              );
        })

  -- An answer with its receipt, or an exception that leaves the ledger as it was.
  pub data Settles (rows : Table Bytes) (r : Option (ConsumerOutcome Bytes) × ConsumerState Bytes)
      : Type 0 where
    settled : IsSettled rows r → Settles rows r
    stopped : r.0 ≡ none → r.1.rows ≡ rows → Settles rows r

  recorded-IsSettled :
      (s : ConsumerState Bytes) (order : Order) (t : Ticket Bytes) (asked : Bool) (last : String)
      (chef : ChefResult Bytes) (rows' : Table Bytes)
      → IsRecorded host w.private_key w.service t
          (some (order_meta_from_order order))
          s.rows
          last
          chef
          rows'
      → IsSettled s.rows (some (executed host chef asked), record s { rows = rows' })
  recorded-IsSettled s order t asked last chef rows' r = record {
    answer = executed host chef asked;
    answered = refl;
    last = chef.receipt.this_hash;
    intact = r.intact;
    longer = rw r.appended (omega (arith, length-append s.rows ((next_seq s.rows, r.text) ∷ [])));
  }

  execute_ends :
      (P : Option (ConsumerOutcome Bytes) × ConsumerState Bytes → Type 0) (s : ConsumerState Bytes)
      (order : Order) (t : Ticket Bytes) (hex : String) (asked : Bool) (last : String)
      → IsIntact host w.private_key s.rows last
      → (chef_process host w.service t ≡ none → P (none, s))
      → ((chef : ChefResult Bytes) (rows' : Table Bytes)
          → IsSettled s.rows (some (executed host chef asked), record s { rows = rows' })
          → P (some (executed host chef asked), record s { rows = rows' }))
      → P (execute host w s order t hex asked)
  unfolding execute
  execute_ends P s order t hex asked last h on_raise on_result = go _ (
      run_chef-Ran host w.private_key w.service t (some (order_meta_from_order order)) hex s.rows
        last h)
    where
      go :
          (x : Option (ChefResult Bytes) × Table Bytes)
          → Ran host w.private_key w.service t (some (order_meta_from_order order)) s.rows last x
          → P (
            elim x.0 [ none ↦ none | some c ↦ some (executed host c asked) ],
            record s { rows = x.1 },
          )
      go _ (unrecorded raises) = on_raise raises
      go _ (recorded chef rows' r) =
          on_result chef rows' (recorded-IsSettled s order t asked last chef rows' r)

  execute-IsSettled :
      (s : ConsumerState Bytes) (order : Order) (t : Ticket Bytes) (hex : String) (asked : Bool)
      (last : String)
      → chef_process host w.service t ≢ none
      → IsIntact host w.private_key s.rows last
      → IsSettled s.rows (execute host w s order t hex asked)
  execute-IsSettled s order t hex asked last runs h =
      execute_ends (λ r. IsSettled s.rows r) s order t hex asked last h
        (λ raises. absurd (runs raises)) (λ chef rows' x. x)

  execute-Settles :
      (s : ConsumerState Bytes) (order : Order) (t : Ticket Bytes) (hex : String) (asked : Bool)
      (last : String)
      → IsIntact host w.private_key s.rows last
      → Settles s.rows (execute host w s order t hex asked)
  execute-Settles s order t hex asked last h =
      execute_ends (λ r. Settles s.rows r) s order t hex asked last h (λ raises. stopped refl refl)
        (λ chef rows' x. settled x)

  pub gate-IsSettled :
      (s : ConsumerState Bytes) (order : Order) (t : Ticket Bytes) (hex : String)
      (d : Option ApprovalDecision) (p : Permission) (last : String)
      → chef_process host w.service t ≢ none
      → (p ≡ ask → d ≢ none)
      → IsIntact host w.private_key s.rows last
      → IsSettled s.rows (gate host w s order t hex d p)
  unfolding gate
  gate-IsSettled s order t hex d block last runs says h =
      refuse-IsSettled s order t _ _ hex false last h
  gate-IsSettled s order t hex d allow last runs says h =
      execute-IsSettled s order t hex false last runs h
  gate-IsSettled s order t hex none ask last runs says h = absurd (says refl refl)
  gate-IsSettled s order t hex (some d) ask last runs says h = elim (Bool-cases d.allowed) [
    | inl yes_said ↦ rw (yes_said, gate) (execute-IsSettled _ order t hex true last runs h)
    | inr no_said ↦ rw (no_said, gate) (refuse-IsSettled _ order t _ _ hex true last h)
  ]

  pub gate-Settles :
      (s : ConsumerState Bytes) (order : Order) (t : Ticket Bytes) (hex : String)
      (d : Option ApprovalDecision) (p : Permission) (last : String)
      → IsIntact host w.private_key s.rows last
      → Settles s.rows (gate host w s order t hex d p)
  unfolding gate
  gate-Settles s order t hex d block last h =
      settled (refuse-IsSettled s order t _ _ hex false last h)
  gate-Settles s order t hex d allow last h = execute-Settles s order t hex false last h
  gate-Settles s order t hex none ask last h = stopped refl refl
  gate-Settles s order t hex (some d) ask last h = elim (Bool-cases d.allowed) [
    | inl yes_said ↦ rw (yes_said, gate) (execute-Settles _ order t hex true last h)
    | inr no_said ↦ rw (no_said, gate) (settled (refuse-IsSettled _ order t _ _ hex true last h))
  ]
