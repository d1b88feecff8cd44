-- ===== src/Tests/CashierExamples.antt =====
-- The cashier's theorems at an honest order, a foreign one and a repeated one.
use tanaka.Prelude.{ℕ, ◌≡◌, ◌↔◌, ◌≤◌, refl, some, [], Option, arith}
use tanaka.Json.{Json, str}
use tanaka.Spine.{genesis_prev_hash}
use tanaka.Cashier.Store.{empty_store, nonce_is_spent, rate_count, times_of, count_recent}
use tanaka.Cashier.Policy.{for_role}
use tanaka.Cashier.Scope.{in_scope, split_once, owned_by, local_unsafe, resource_of}
use tanaka.Cashier.Scope.Laws.{IsOwn, in_scope_iff}
use tanaka.Cashier.Engine.{
  accept, reject, replay, out_of_scope, evaluate_order, Spawn, process_order,
}
use tanaka.Cashier.Engine.Decide.{Permitted, evaluate_order_iff}
use tanaka.Cashier.Engine.Process.{IsRefused, process_order-IsRefused}
use tanaka.Cashier.Engine.Nonce.{now, processed_once}
use tanaka.Cashier.Engine.Rate.{start, order}
use tanaka.Cashier.Engine.Accepted.{log, accepted_within, accepted-IsBounded}
use tanaka.Tests.ToyHost.{Blob, toy}
use tanaka.Tests.Data.{menu, policies, honest, foreign_order, readings}

in_scope_iff_example :
    (in_scope "user.kenji" (some (str "user.kenji/t-001")) ≡ some "user.kenji/t-001") ↔ (
      (◌≡◌ {A = Option Json} (some (str "user.kenji/t-001")) (some (str "user.kenji/t-001")))
      × IsOwn "user.kenji" "user.kenji/t-001")
in_scope_iff_example = in_scope_iff "user.kenji" (some (str "user.kenji/t-001")) "user.kenji/t-001"

pub honest_accepted :
    evaluate_order honest menu policies empty_store 100 ≡ accept "thread_id" "user.kenji/t-001"
unfolding evaluate_order nonce_is_spent for_role in_scope split_once owned_by local_unsafe
    resource_of rate_count times_of count_recent
honest_accepted = refl

foreign_rejected : evaluate_order foreign_order menu policies empty_store 100 ≡ reject out_of_scope
unfolding evaluate_order nonce_is_spent for_role in_scope split_once owned_by local_unsafe
    resource_of
foreign_rejected = refl

evaluate_order_iff_example :
    (evaluate_order honest menu policies empty_store 100 ≡ accept "thread_id" "user.kenji/t-001")
    ↔ Permitted honest menu policies empty_store 100 "thread_id" "user.kenji/t-001"
evaluate_order_iff_example =
    evaluate_order_iff honest menu policies empty_store 100 (accept "thread_id" "user.kenji/t-001")

abbrev hook : Option (Spawn Blob ℕ)
hook = some (λ ticket rows. (some 7, rows))

process_order-IsRefused_example :
    IsRefused toy "key" {A = ℕ} foreign_order menu policies readings hook empty_store []
      (genesis_prev_hash toy)
      out_of_scope
process_order-IsRefused_example =
    process_order-IsRefused toy "key" foreign_order menu policies readings hook empty_store []
      (genesis_prev_hash toy) out_of_scope refl foreign_rejected

processed_once_example :
    evaluate_order honest menu policies
      (process_order toy "key" honest menu policies readings hook empty_store []).store
      5000
    ≡ reject replay
processed_once_example =
    processed_once toy "key" ℕ honest menu policies readings hook empty_store [] now honest menu
      policies 5000 refl

accepted-IsBounded_example :
    accepted_within 101 "user.kenji" "cap.email.draft_reply.v1" (
      log 5 toy "key" ℕ
        (order start honest menu policies readings hook [] (refl, tt) (omega arith) (omega arith)))
    ≤ 5
accepted-IsBounded_example =
    accepted-IsBounded 5 toy "key" ℕ
      (order start honest menu policies readings hook [] (refl, tt) (omega arith) (omega arith))
      "user.kenji" "cap.email.draft_reply.v1"
