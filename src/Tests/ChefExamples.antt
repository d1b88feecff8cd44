-- ===== src/Tests/ChefExamples.antt =====
-- The chef's program at an honest ticket, over a file system with one file.
use tanaka.Prelude.{String, ◌≡◌, ◌≢◌, ◌⊎◌, refl, some, none, true, false, [], ◌∷◌}
use tanaka.Prelude.Texts.{concat}
use tanaka.Json.{str, obj, dict}
use tanaka.Cashier.Store.{empty_store}
use tanaka.Cashier.Engine.{mint}
use tanaka.Chef.Runner.{wire}
use tanaka.Chef.Main.{check, FileSystem, ChefTicket, go, ed25519, resolve, finish, main}
use tanaka.Chef.Main.Handlers.{TextOps}
use tanaka.Chef.Main.Gate.{Admitted}
use tanaka.Chef.Main.Effects.{Ran, main-Admitted}
use tanaka.Chef.Main.EndToEnd.{chef_ticket, main-mint}
use tanaka.Tests.ToyHost.{Blob, toy, to_text}
use tanaka.Tests.Data.{draft_reply, menu, policies, honest, readings}
use tanaka.Tests.CashierExamples.{honest_accepted}

-- `str` methods that are too simple to be Python's, and enough to run a handler.
abbrev pub text_ops : TextOps
text_ops = record {
  splitlines = λ s. s ∷ [];
  strip = λ s. s;
  words = λ s. s ∷ [];
  decimal = λ n. "1";
  after_prefix = λ p s. none;
  safe_substitute = λ template fields. template;
}

abbrev one_file : FileSystem
one_file = record {
  realpath = λ p. p;
  join = λ a b. concat a (concat "/" b);
  commonpath = λ a b. some a;
  isfile = λ p. true;
  isdir = λ p. false;
  read = λ p. "Dear Kenji";
}

-- The ticket of the honest order, as the runner writes it.
abbrev honest_stdin : Blob
honest_stdin = toy.dumps_plain (
    obj (
      wire to_text (
        mint toy "key" honest draft_reply (dict (("thread_id", str "user.kenji/t-001") ∷ []))
          readings)))

main-Admitted_example :
    let exit =
      main toy text_ops one_file (ed25519 "key") ("pub" ∷ "fixtures" ∷ "out" ∷ []) honest_stdin in
    ((exit.code ≢ 0) × (exit.effects ≡ []))
    ⊎ ((t : ChefTicket) × (path : String) × Admitted toy one_file
          (ed25519 "key")
          "fixtures"
          (toy.loads honest_stdin)
          t
          path
        × Ran text_ops one_file "out" t path exit)
main-Admitted_example =
    main-Admitted toy text_ops one_file (ed25519 "key") "pub" "fixtures" "out" honest_stdin

file_found :
    resolve one_file "fixtures" ("user.kenji", "t-001") ≡ go "fixtures/user.kenji/t-001.txt"
unfolding resolve check
file_found = refl

main-mint_example :
    let t =
      mint toy "key" honest draft_reply
        (dict (("thread_id", str "user.kenji/t-001") ∷ []))
        readings in
    main toy text_ops one_file
      (ed25519 "key")
      ("pub" ∷ "fixtures" ∷ "out" ∷ [])
      (toy.dumps_plain (obj (wire to_text t)))
    ≡ finish text_ops one_file "out" "fixtures/user.kenji/t-001.txt"
        (chef_ticket to_text t "user.kenji/t-001")
main-mint_example =
    main-mint toy "key" honest menu policies empty_store 100 "thread_id" "t-001" draft_reply
      readings text_ops one_file "pub" "fixtures" "out" "fixtures/user.kenji/t-001.txt"
      honest_accepted file_found
