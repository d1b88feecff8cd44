-- ===== src/Gateway/Place/Laws.antt =====
-- `place_order_json` of gateway.py: the answer, and the ledger after it.
use tanaka.Prelude.{ℕ, ◌+◌, String, ◌≡◌, ◌≢◌, refl, ap, ◌∙◌, Option, none, some, arith, length}
use tanaka.Json.{Fields}
use tanaka.Host.{Host, uncaught}
use tanaka.Spine.{Order}
use tanaka.Chain.{verified}
use tanaka.Ledger.{append_after, verify_ledger}
use tanaka.Ledger.Laws.{
  IsIntact, verified_of_IsIntact, IsIntact-of_verified, append_after_eq, append_after-verified,
}
use tanaka.Cashier.Engine.{Outcome}
use tanaka.Chef.Runner.Laws.{Runs}
use tanaka.Loop.{Wiring, LoopState, place}
use tanaka.Loop.Laws.{Placed, refused, served, place-Placed, one_more}
use tanaka.Gateway.Parse.{Parsed, ok, malformed, raised, parse_order}
use tanaka.Gateway.Parse.Uncaught.{uncaught_of_raised}
use tanaka.Gateway.Place.{
  Intake, malformed_entry, outcome_to_dict, accepted_dict, malformed_dict, respond,
  place_order_json,
}

module _ (host : Host) (w : Wiring host.Bytes host.PrivateKey) (window_dir : String → String) where
  open host use {Bytes, PrivateKey, public_key}

  answered :
      (i : Intake) (order : Order) (s : LoopState Bytes) (last : String)
      {o : Option (Outcome Bytes)}
      → Placed host w order i.readings i.chef_hex s last o
      → (answer : Fields) × (elim o [
        | none ↦ none
        | some x ↦
            outcome_to_dict host window_dir order x
              (place host w order i.readings i.chef_hex s).1.last_chef
      ]
          ≡ some answer)
  unfolding outcome_to_dict
  answered i order s last (refused reason e none_ran r) = (_, refl)
  answered i order s last (served key resource t chef e _ _ _ _ chef_ran r) =
      (accepted_dict host window_dir order t chef, rw (chef_ran, outcome_to_dict))

  -- The bytes may be anything that `json.loads` reads or refuses with an exception that the gateway
  -- catches. If the verifier accepts the ledger with a count of `n`, and the runner's process does
  -- not raise on tickets with the id of the order that the bytes are admitted as, then the intake is
  -- answered, with no exception, and the verifier accepts the ledger with a count of one more.
  pub place_order_json-verified :
      (i : Intake) (text : Bytes) (s : LoopState Bytes) (n : ℕ)
      → host.loads_sig text ≢ uncaught
      → ((order : Order)
          → parse_order host text ≡ ok order
          → Runs host w.private_key w.service order.order_id)
      → verify_ledger host (public_key w.private_key) s.rows ≡ verified n
      → ((answer : Fields) × ((place_order_json host w window_dir i text s).0 ≡ some answer))
        × (verify_ledger host
              (public_key w.private_key)
              (place_order_json host w window_dir i text s).1.rows
            ≡ verified (n + 1))
  unfolding place_order_json respond
  place_order_json-verified i text s n caught runs h =
      let ((last, intact), counted) = IsIntact-of_verified host w.private_key s.rows n h in
      go last intact counted (parse_order host text) refl
    where
      go :
          (last : String)
          → IsIntact host w.private_key s.rows last
          → n ≡ length s.rows
          → (p : Parsed Order) → parse_order host text ≡ p
          → ((answer : Fields) × ((respond host w window_dir i s p).0 ≡ some answer))
            × (verify_ledger host
                  (public_key w.private_key)
                  (respond host w window_dir i s p).1.rows
                ≡ verified (n + 1))
      go last intact counted raised e = absurd (caught (uncaught_of_raised host text e))
      go last intact counted (malformed e) _ =
          let entry = malformed_entry i.readings.receipt_hex i.order_hex i.now_ts in
          let done = append_after_eq host w.private_key entry s.rows last intact in
          (
            (
              malformed_dict host e (append_after host w.private_key entry s.rows last).0,
              rw (done, respond),
            ),
            rw (done, respond)
                (append_after-verified host w.private_key entry s.rows last n intact counted),
          )
      go last intact counted (ok order) e =
          let placed =
            place-Placed host w order i.readings i.chef_hex s last (runs order e) intact in
          let ((last', intact'), longer) =
            one_more host w order i.readings i.chef_hex s last placed in
          (
            answered i order s last placed,
            verified_of_IsIntact host w.private_key
                  (place host w order i.readings i.chef_hex s).1.rows last' intact'
                ∙ ap verified (omega (arith, longer, counted)),
          )
