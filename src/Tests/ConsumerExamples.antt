-- ===== src/Tests/ConsumerExamples.antt =====
-- The consumer's gate at an honest order.
use tanaka.Prelude.{String, ◌≡◌, refl, true, some, none, [], ◌∷◌}
use tanaka.Chain.{verified}
use tanaka.Ledger.{verify_ledger}
use tanaka.Cashier.Store.{empty_store}
use tanaka.Chef.Runner.{Service}
use tanaka.Consumer.Preferences.{Permission, allow, ask, block, effective_state}
use tanaka.Consumer.Place.{ConsumerOutcome, ConsumerState, Approver, consumer_place}
use tanaka.Consumer.Place.Laws.{consumer_place-verified}
use tanaka.Consumer.Place.Consent.{consumer_place-Withheld, consumer_place-remembers}
use tanaka.Tests.ToyHost.{Blob, toy}
use tanaka.Tests.Data.{draft_reply, honest, readings}
use tanaka.Tests.CashierExamples.{honest_accepted}
use tanaka.Tests.LoopExamples.{wiring, wiring-Runs, empty_accepted}

-- The preferences have one choice, for the capability of the order.
abbrev with_choice : Permission → ConsumerState Blob
with_choice p = record {
  store = empty_store;
  rows = [];
  prefs = record { settings = ("cap.email.draft_reply.v1", p) ∷ []; saved = none };
}

abbrev always : Approver
always order capability = some (record { allowed = true; remember = true })

abbrev other_service : Service Blob String
other_service = record {
  sandbox = record {
    containment_class = "unknown";
    run = λ stdin. some (record { returncode = 5; stderr = "no"; draft = none });
  };
  attestor_key = "other";
  measurement = "0";
  makes_window = λ order_id. true;
}

consumer_place-verified_example :
    ((answer : ConsumerOutcome Blob) × ((consumer_place toy wiring always honest readings "cc"
          (with_choice ask)).0
        ≡ some answer))
    × (verify_ledger toy "key"
          (consumer_place toy wiring always honest readings "cc" (with_choice ask)).1.rows
        ≡ verified 1)
consumer_place-verified_example =
    consumer_place-verified toy wiring always honest readings "cc" (with_choice ask) 0
      (wiring-Runs _) (λ capability on_menu asks silent. cc silent) empty_accepted

consumer_place-Withheld_example :
    consumer_place toy
      (record wiring { service = other_service })
      always
      honest
      readings
      "cc"
      (with_choice block)
    ≡ consumer_place toy wiring always honest readings "cc" (with_choice block)
unfolding effective_state
consumer_place-Withheld_example =
    consumer_place-Withheld toy wiring always honest readings "cc" (with_choice block) draft_reply
      other_service refl tt

consumer_place-remembers_example :
    effective_state
      (consumer_place toy wiring always honest readings "cc" (with_choice ask)).1.prefs
      draft_reply
    ≡ allow
unfolding effective_state
consumer_place-remembers_example =
    consumer_place-remembers toy wiring always honest readings "cc" (with_choice ask) draft_reply
      "thread_id" "user.kenji/t-001" honest_accepted refl refl refl
      (record { allowed = true; remember = true }) refl refl refl
