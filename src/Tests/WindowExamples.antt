-- ===== src/Tests/WindowExamples.antt =====
-- The rate limit, an hour after an order.
use tanaka.Prelude.{ℕ, ◌≡◌, refl, Option, none, [], ◌∷◌, pos, false, ◌∙◌, arith}
use tanaka.Cashier.Engine.{accept, Spawn, evaluate_order, process_order}
use tanaka.Cashier.Engine.Window.{start, order, accepted-again}
use tanaka.Cashier.Store.{empty_store, nonce_is_spent}
use tanaka.Cashier.Scope.{resource_of}
use tanaka.Cashier.Scope.Laws.{IsOwn}
use tanaka.Cashier.Policy.{for_role}
use tanaka.Tests.ToyHost.{Blob, toy}
use tanaka.Tests.Data.{draft_reply, menu, policies, honest, order_for, readings}
use tanaka.Cashier.Engine.Decide.{evaluate_order_iff}
use tanaka.Tests.CashierExamples.{honest_accepted}
use tanaka.Cashier.Engine.Nonce.{nonce_is_spent-process_order}

abbrev no_hook : Option (Spawn Blob ℕ)
no_hook = none

fresh :
    nonce_is_spent empty_store "nonce-9" ≡ false
    → nonce_is_spent
        (process_order toy "key" honest menu policies readings no_hook empty_store []).store
        "nonce-9"
      ≡ false
fresh h =
    nonce_is_spent-process_order toy "key" ℕ honest menu policies readings no_hook empty_store []
      "nonce-9"
    ∙ h

IsOwn-thread : IsOwn "user.kenji" "user.kenji/t-001"
IsOwn-thread =
    ((evaluate_order_iff honest menu policies empty_store 100
        (accept "thread_id" "user.kenji/t-001")).0
      honest_accepted).own

accepted-again_example :
    evaluate_order
      (order_for "nonce-9" "user.kenji/t-001")
      menu
      policies
      (process_order toy "key" honest menu policies readings no_hook empty_store []).store
      3701
    ≡ accept "thread_id" "user.kenji/t-001"
unfolding for_role resource_of nonce_is_spent
accepted-again_example =
    accepted-again toy "key" ℕ 3701 (order_for "nonce-9" "user.kenji/t-001") menu policies
      draft_reply
      (record {
        role = "account_manager";
        allowed_capabilities = "cap.email.draft_reply.v1" ∷ [];
        rate_limit_per_hour = pos 5;
        paused_capabilities = [];
      })
      "user.kenji/t-001" (order start honest menu policies readings no_hook [] (omega arith))
      (omega arith) (fresh refl) refl refl refl refl refl IsOwn-thread refl
