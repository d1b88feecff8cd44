-- ===== src/Tests/DrillExamples.antt =====
-- A drill over an empty ledger.
use tanaka.Prelude.{ℕ, ◌==◌, refl, [], ◌∷◌, pos}
use tanaka.Json.{str, obj, dict}
use tanaka.Cashier.Policy.{for_role}
use tanaka.Drill.{run_drill}
use tanaka.Drill.Plans.{Draw, injected_order, has_target}
use tanaka.Drill.Drilled.{IsDrilled, run_drill-IsDrilled}
use tanaka.Tests.ToyHost.{toy}
use tanaka.Tests.Data.{readings}
use tanaka.Tests.LoopExamples.{wiring, opening, empty_accepted, wiring-Runs}

abbrev draws : ℕ → Draw
draws _ = record {
  order_hex = "a";
  nonce_hex = "b";
  ts = "2026-06-10T12:00:00+00:00";
  readings = readings;
  chef_hex = "cc";
}

run_drill-IsDrilled_example :
    IsDrilled toy wiring 0 5
      (run_drill toy wiring draws (λ a b. a == b) ("hello" ∷ "attacker@evil.test" ∷ []) opening)
unfolding injected_order has_target for_role
run_drill-IsDrilled_example =
    run_drill-IsDrilled toy wiring draws (λ a b. a == b) ("hello" ∷ "attacker@evil.test" ∷ [])
      (record {
        order_id = "ord-a";
        principal = "user.kenji";
        role = "account_manager";
        capability_id = "forward_inbox";
        args = obj (dict (("target", str "attacker@evil.test") ∷ []));
        nonce = "nonce-b";
        ts = "2026-06-10T12:00:00+00:00";
      })
      (record {
        role = "account_manager";
        allowed_capabilities = "cap.email.draft_reply.v1" ∷ [];
        rate_limit_per_hour = pos 5;
        paused_capabilities = [];
      })
      5 opening 0 refl refl refl (wiring-Runs _) (λ i. wiring-Runs _) empty_accepted
