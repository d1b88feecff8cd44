-- ===== src/Tests/OperatorExamples.antt =====
-- The console: a simulation of one sample, and a signed request that changes what the service keeps.
use tanaka.Prelude.{ℕ, suc, String, ◌≡◌, ◌≢◌, refl, true, false, Option, some, List, [], ◌∷◌, pos}
use tanaka.Json.{Json, null, str, int, arr, obj, Items, nil, cons, dict}
use tanaka.Cashier.Policy.{Policy}
use tanaka.Console.Candidate.{valid_policy_list, valid_policies, valid_policy}
use tanaka.Console.Service.{Admin, Response, done, require_role, role_author}
use tanaka.Console.Simulate.{Simulated, candidate_policy_set, simulate}
use tanaka.Console.Simulate.Predicts.{AllPredict, simulate-AllPredict}
use tanaka.Console.SignedAuth.{
  Headers, sign_headers, signing_bytes, verify_entry, skew, verify_request,
}
use tanaka.Console.SignedAuth.Laws.{IsAuthentic}
use tanaka.Console.Server.{ConsoleApi, ConsoleServer, post_method, handle_http}
use tanaka.Console.Server.Authorised.{change-IsAuthentic}
use tanaka.Tests.ToyHost.{Blob, raw, doc, toy, verify, sign, hash, to_text, load}
use tanaka.Tests.SignedAuthExamples.{tallies, registry, written, tally, read_back, count}
use tanaka.Tests.Data.{menu}

abbrev sample : Json
sample = obj (
    dict (
      ("principal", str "user.kenji")
      ∷ ("role", str "account_manager")
      ∷ ("capability_id", str "cap.email.draft_reply.v1")
      ∷ ("args", obj (dict (("thread_id", str "user.kenji/t-001") ∷ [])))
      ∷ []))

abbrev candidate : Json
candidate = arr (
    cons
      (obj (
        dict (
          ("role", str "account_manager")
          ∷ ("allowed_capabilities", arr (cons (str "cap.email.draft_reply.v1") nil))
          ∷ ("rate_limit_per_hour", int (pos 5))
          ∷ [])))
      nil)

abbrev admin : Option Admin
admin = some (record { id = "author.aiko"; role = "author" })

abbrev reading : ℕ → String × ℕ
reading i = ("nonce", 100)

abbrev results_of : Response (List Simulated) → List Simulated
results_of (done rs) = rs
results_of _ = []

abbrev results : List Simulated
results = results_of (simulate menu admin reading candidate (arr (cons sample nil)))

simulated : simulate menu admin reading candidate (arr (cons sample nil)) ≡ done results
unfolding simulate valid_policy_list valid_policies valid_policy
simulated = refl

simulate-AllPredict_example :
    (a : Admin) × (samples : Items) × (ps : Items) × (policies : List Policy) × (require_role admin
        role_author
      ≡ done a)
    × (arr (cons sample nil) ≡ arr samples)
    × (candidate ≡ arr ps)
    × (candidate_policy_set ps ≡ done policies)
    × AllPredict menu policies samples results
simulate-AllPredict_example =
    simulate-AllPredict menu admin reading candidate (arr (cons sample nil)) results simulated

-- A service that counts what was published.
abbrev counting : ConsoleApi ℕ
counting = record {
  capabilities = λ a s. done null;
  policies = λ a s. done null;
  activity = λ a s. done null;
  receipt = λ a n s. done null;
  templates = λ a s. done null;
  menu = λ a s. done null;
  simulate = λ a c o s. done null;
  run_drill = λ a s. done null;
  publish = λ a c r s. (done null, suc s);
  rollback = λ a t r s. (done null, s);
  approve = λ a n s. (done null, s);
  create_capability = λ a f s. (done null, s);
  set_capability_enabled = λ a c e s. (done null, s);
  delete_capability = λ a c s. (done null, s);
}

abbrev console : ConsoleServer Blob String ℕ
console = record {
  service = counting;
  registry = registry;
  no_body = raw "";
  is_empty = λ b. false;
  readable = λ f. true;
}

abbrev body : Blob
body = doc (obj (dict []))

abbrev signed : Headers
signed = sign_headers toy tallies "key" "author.aiko" "POST" "/api/policies/publish" body 100

published :
    (handle_http toy tallies console post_method "/api/policies/publish" signed body 160 0).1 ≡ 1
unfolding handle_http verify_request verify_entry sign_headers signing_bytes skew verify sign hash
    to_text written tally read_back count load
published = refl

changed :
    (handle_http toy tallies console post_method "/api/policies/publish" signed body 160 0).1 ≢ 0
changed e = cc (published, e)

change-IsAuthentic_example :
    (post_method ≡ post_method)
    × ((admin : Admin) × IsAuthentic toy tallies registry "POST" "/api/policies/publish" body signed
          160 admin)
change-IsAuthentic_example =
    change-IsAuthentic toy tallies console post_method "/api/policies/publish" signed body 160 0
      changed
