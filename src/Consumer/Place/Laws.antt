-- ===== src/Consumer/Place/Laws.antt =====
-- consumer/loop.py: the outcome and the receipt of an action.
use tanaka.Prelude.{
  ℕ, ◌+◌, String, ◌≡◌, ◌≢◌, refl, ap, ◌∙◌, none, some, [], ◌∷◌, lookup, length-append, arith,
}
use tanaka.Json.{str, dict}
use tanaka.Host.{Host}
use tanaka.Spine.{Capability, Order}
use tanaka.Chain.{verified, next_seq}
use tanaka.Ledger.{verify_ledger}
use tanaka.Ledger.Laws.{IsIntact, verified_of_IsIntact, IsIntact-of_verified}
use tanaka.Cashier.Store.{CashierStore, nonce_seen, record_accept}
use tanaka.Cashier.Engine.{
  Decision, accept, reject, ReasonCode, Readings, Processed, evaluate_order, mint, run_spawn,
}
use tanaka.Cashier.Engine.Process.{process_order-IsRefused, after_accept}
use tanaka.Chef.Runner.{ChefResult}
use tanaka.Chef.Runner.Laws.{Runs}
use tanaka.Loop.{Wiring}
use tanaka.Consumer.Preferences.{ask, effective_state}
use tanaka.Consumer.Place.{
  ConsumerOutcome, ConsumerState, Approver, gate, after_cashier, consumer_place,
}
use tanaka.Consumer.Place.Gate.{IsSettled, Settles, settled, gate-IsSettled, gate-Settles}

module _ (host : Host) (w : Wiring host.Bytes host.PrivateKey) where
  open host use {Bytes, PrivateKey, public_key}

  module _ (decide : Approver) (order : Order) (readings : Readings) (hex : String)
      (s : ConsumerState Bytes) where
    abbrev verdict : Decision
    verdict = evaluate_order order w.menu w.policy_set s.store readings.rate_now

    -- An order that the cashier accepts goes to the gate, with its ticket, over the rows as they
    -- were.
    pub record IsGated (key resource : String) : Type 0 where
      pub capability : Capability
      pub on_menu : lookup order.capability_id w.menu ≡ some capability
      pub store : CashierStore
      pub gated :
          consumer_place host w decide order readings hex s
          ≡ gate host w
              (record { store = store; rows = s.rows; prefs = s.prefs })
              order
              (mint host w.private_key order capability (dict ((key, str resource) ∷ [])) readings)
              hex
              (decide order capability)
              (effective_state s.prefs capability)

    pub consumer_place-IsGated :
        (key resource : String) → verdict ≡ accept key resource → IsGated key resource
    unfolding consumer_place after_cashier run_spawn
    consumer_place-IsGated key resource e =
        let (capability, on_menu, eq) =
          after_accept host w.private_key {A = ChefResult Bytes} order w.menu w.policy_set readings
            none s.store s.rows key resource e in
        record {
          capability = capability;
          on_menu = on_menu;
          store =
              record_accept (nonce_seen s.store order.nonce).0 readings.accept_now order.principal
                order.capability_id;
          gated =
              ap
                (λ (p : Processed Bytes (ChefResult Bytes)).
                  after_cashier host w decide
                    (record { store = p.store; rows = p.rows; prefs = s.prefs }) order hex
                    p.outcome)
                eq
              ∙ rw (on_menu, after_cashier) refl;
        }

    -- Where the user has to be asked, the approver answers.
    abbrev pub Answers : Type 0
    Answers =
        (capability : Capability)
        → lookup order.capability_id w.menu ≡ some capability
        → effective_state s.prefs capability ≡ ask
        → decide order capability ≢ none

    rejected-IsSettled :
        (last : String) (reason : ReasonCode)
        → IsIntact host w.private_key s.rows last
        → verdict ≡ reject reason
        → IsSettled host w s.rows (consumer_place host w decide order readings hex s)
    unfolding consumer_place after_cashier
    rejected-IsSettled last reason h e =
        let r =
          process_order-IsRefused host w.private_key {A = ChefResult Bytes} order w.menu
            w.policy_set readings none s.store s.rows last reason h e in
        rw (r.outcome, after_cashier)
          (record {
            answer = _;
            answered = refl;
            last = r.receipt.this_hash;
            intact = r.intact;
            longer =
                rw r.appended
                  (omega (arith, length-append s.rows ((next_seq s.rows, r.text) ∷ [])));
          })

    consumer_place-IsSettled :
        (last : String)
        → Runs host w.private_key w.service order.order_id
        → Answers
        → IsIntact host w.private_key s.rows last
        → IsSettled host w s.rows (consumer_place host w decide order readings hex s)
    unfolding mint
    consumer_place-IsSettled last runs says h = by_verdict verdict refl
      where
        by_verdict :
            (d : Decision)
            → verdict ≡ d
            → IsSettled host w s.rows (consumer_place host w decide order readings hex s)
        by_verdict (reject reason) e = rejected-IsSettled last reason h e
        by_verdict (accept key resource) e =
            let g = consumer_place-IsGated key resource e in
            rw g.gated (
              gate-IsSettled host w (record { store = g.store; rows = s.rows; prefs = s.prefs })
                order _ hex _ _ last (runs _ refl) (says g.capability g.on_menu) h)

    -- Whatever raises: an answer and its receipt, or no answer and the ledger as it was.
    pub consumer_place-Settles :
        (last : String)
        → IsIntact host w.private_key s.rows last
        → Settles host w s.rows (consumer_place host w decide order readings hex s)
    consumer_place-Settles last h = by_verdict verdict refl
      where
        by_verdict :
            (d : Decision)
            → verdict ≡ d
            → Settles host w s.rows (consumer_place host w decide order readings hex s)
        by_verdict (reject reason) e = settled (rejected-IsSettled last reason h e)
        by_verdict (accept key resource) e =
            let g = consumer_place-IsGated key resource e in
            rw g.gated (
              gate-Settles host w (record { store = g.store; rows = s.rows; prefs = s.prefs }) order
                _ hex _ _ last h)

    -- If the verifier accepts the ledger with a count of `n`, the runner's process does not raise on
    -- tickets with the order's id, and the approver answers where the user is to be asked, then the
    -- action is answered, with no exception, whatever the cashier, the user's choices, the answer and
    -- the chef say, and the verifier accepts the ledger with a count of one more.
    pub consumer_place-verified :
        (n : ℕ)
        → Runs host w.private_key w.service order.order_id
        → Answers
        → verify_ledger host (public_key w.private_key) s.rows ≡ verified n
        → ((answer : ConsumerOutcome Bytes) × ((consumer_place host w decide order readings hex s).0
              ≡ some answer))
          × (verify_ledger host
                (public_key w.private_key)
                (consumer_place host w decide order readings hex s).1.rows
              ≡ verified (n + 1))
    consumer_place-verified n runs says h =
        let ((last, intact), counted) = IsIntact-of_verified host w.private_key s.rows n h in
        let settled = consumer_place-IsSettled last runs says intact in
        (
          (settled.answer, settled.answered),
          verified_of_IsIntact host w.private_key _ settled.last settled.intact
              ∙ ap verified (omega (arith, settled.longer, counted)),
        )
