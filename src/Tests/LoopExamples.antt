-- ===== src/Tests/LoopExamples.antt =====
-- The chef, the loop and the gateway at concrete orders.
use tanaka.Host.{loaded, uncaught}
use tanaka.Prelude.{String, true, ◌≢◌, ◌≡◌, ◌↔◌, refl, some, none, [], ◌∷◌}
use tanaka.Json.{Fields, str, obj, dict}
use tanaka.Spine.{Ticket, genesis_prev_hash}
use tanaka.Chain.{verified, walk}
use tanaka.Ledger.{verify_ledger}
use tanaka.Cashier.Store.{empty_store}
use tanaka.Chef.Runner.{Service, chef_process, run_chef}
use tanaka.Chef.Runner.Laws.{Ran, Runs, run_chef-Ran}
use tanaka.Loop.{Wiring, LoopState, place, place_all}
use tanaka.Loop.Laws.{Ended, place-Ended, place_all-verified}
use tanaka.Gateway.Parse.{ok, parse_order}
use tanaka.Gateway.Parse.Laws.{IsOrderJson, order_json, parse_order_iff, parse_order-dumps}
use tanaka.Gateway.Place.{Intake, place_order_json}
use tanaka.Gateway.Place.Laws.{place_order_json-verified}
use tanaka.Tests.ToyHost.{Blob, raw, doc, toy, load_sig}
use tanaka.Tests.Data.{menu, policies, honest, foreign_order, readings}

-- A sandbox whose chef always leaves the same draft.
abbrev pub service : Service Blob String
service = record {
  sandbox = record {
    containment_class = "bare-subprocess";
    run = λ stdin. some (record { returncode = 0; stderr = ""; draft = some (raw "draft") });
  };
  attestor_key = "attestor";
  measurement = "feed";
  makes_window = λ order_id. true;
}

abbrev ticket : Ticket Blob
ticket = record {
  ticket_id = "tkt-1";
  order_id = "ord-1";
  capability_id = "cap.email.draft_reply.v1";
  behavior = "draft_reply";
  behavior_config = dict [];
  scoped_args = dict (("thread_id", str "user.kenji/t-001") ∷ []);
  issued_ts = "2026-06-10T12:00:01+00:00";
  cashier_sig = raw "signature";
}

abbrev pub wiring : Wiring Blob String
wiring = record { private_key = "key"; menu = menu; policy_set = policies; service = service }

-- Neither the window nor the sandbox raises.
pub wiring-Runs : (order_id : String) → Runs toy "key" service order_id
unfolding chef_process
wiring-Runs order_id t e raises = cc raises

abbrev pub opening : LoopState Blob
opening = record { store = empty_store; rows = []; last_chef = none }

abbrev intake : Intake
intake = record {
  readings = readings;
  chef_hex = "cc";
  order_hex = "dd";
  now_ts = "2026-06-10T12:00:00+00:00";
}

run_chef-Ran_example :
    Ran toy "key" service ticket none []
      (genesis_prev_hash toy)
      (run_chef toy "key" service ticket none "cc" [])
run_chef-Ran_example =
    run_chef-Ran toy "key" service ticket none "cc" [] (genesis_prev_hash toy) refl

place-Ended_example :
    Ended toy wiring honest readings "cc" opening
      (genesis_prev_hash toy)
      (place toy wiring honest readings "cc" opening).0
place-Ended_example =
    place-Ended toy wiring honest readings "cc" opening (genesis_prev_hash toy) refl

pub empty_accepted : verify_ledger toy "key" [] ≡ verified 0
unfolding verify_ledger walk
empty_accepted = refl

place_all-verified_example :
    verify_ledger toy "key"
      (place_all toy wiring
        ((honest, readings, "cc") ∷ (foreign_order, readings, "cd") ∷ [])
        opening).rows
    ≡ verified 2
place_all-verified_example =
    place_all-verified toy wiring ((honest, readings, "cc") ∷ (foreign_order, readings, "cd") ∷ [])
      opening 0 (wiring-Runs _, (wiring-Runs _, tt)) empty_accepted

abbrev honest_args : Fields
honest_args = dict (("thread_id", str "user.kenji/t-001") ∷ [])

parse_order_iff_example : (parse_order toy (doc (order_json honest honest_args)) ≡ ok honest) ↔ (
    (fs : Fields) × (toy.loads_sig (doc (order_json honest honest_args)) ≡ loaded (obj fs))
    × IsOrderJson honest fs)
parse_order_iff_example = parse_order_iff toy (doc (order_json honest honest_args)) honest

parse_order-dumps_example : parse_order toy (doc (order_json honest honest_args)) ≡ ok honest
parse_order-dumps_example = parse_order-dumps toy honest honest_args refl

abbrev honest_text : Blob
honest_text = doc (order_json honest honest_args)

honest_caught : toy.loads_sig honest_text ≢ uncaught
unfolding load_sig
honest_caught e = cc e

place_order_json-verified_example :
    ((answer : Fields) × ((place_order_json toy wiring (λ id. id) intake honest_text opening).0
        ≡ some answer))
    × (verify_ledger toy "key"
          (place_order_json toy wiring (λ id. id) intake honest_text opening).1.rows
        ≡ verified 1)
place_order_json-verified_example =
    place_order_json-verified toy wiring (λ id. id) intake honest_text opening 0 honest_caught
      (λ order e. wiring-Runs order.order_id) empty_accepted
