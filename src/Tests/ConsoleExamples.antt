-- ===== src/Tests/ConsoleExamples.antt =====
-- The version history and the console at concrete requests.
use tanaka.Prelude.{ℕ, String, ◌≡◌, ◌≤◌, refl, true, some, none, List, [], ◌∷◌}
use tanaka.Json.{Json, str, int, arr, obj, nil, cons, dict}
use tanaka.Prelude.{pos}
use tanaka.Json.Sort.{sort_keys}
use tanaka.Spine.{Capability}
use tanaka.Chain.{verified, walk, head_hash, next_seq}
use tanaka.PolicyStore.{
  Draft, Version, append_version, append_version_after, version_row, materialize_active,
  active_version, read_all, latest_active, active_here, verify_policy_history,
}
use tanaka.PolicyStore.Laws.{append_version-verified}
use tanaka.PolicyStore.Active.{materialize_active-append}
use tanaka.Console.Candidate.{needs_second_admin, flag_policies, flag_grant, flag_capability}
use tanaka.Console.Service.{
  Admin, done, approved, ConsoleState, Console, find_version, find_seq, require_role, require_that,
  value_at, approve_request, approve_draft, approve, materialize, publish,
}
use tanaka.Console.Service.Duties.{IsDutiful, approve-IsDutiful, publish_waits}
use tanaka.Console.Service.History.{Request, publish_of, serve_all, serve_all-verified}
use tanaka.Tests.ToyHost.{Blob, doc, toy, load}
use tanaka.Tests.Data.{draft_reply}

abbrev grant : String → Json
grant id = arr (
    cons
      (obj (
        dict (
          ("role", str "account_manager")
          ∷ ("allowed_capabilities", arr (cons (str id) nil))
          ∷ ("rate_limit_per_hour", int (pos 5))
          ∷ [])))
      nil)

abbrev draft : Draft
draft = record {
  version_hex = "aa";
  policies = grant "cap.email.draft_reply.v1";
  author = str "author.aiko";
  reason = "first";
  status = "active";
  approved_by = none;
}

empty_history : verify_policy_history toy "key" [] ≡ verified 0
unfolding verify_policy_history walk
empty_history = refl

append_version-verified_example :
    (prev_hash : String) × (append_version toy "key" draft []
      ≡ some (append_version_after toy "key" draft [] prev_hash))
    × (verify_policy_history toy "key" (append_version_after toy "key" draft [] prev_hash).1
        ≡ verified 1)
append_version-verified_example = append_version-verified toy "key" draft [] 0 refl empty_history

materialize_active-append_example :
    materialize_active toy (append_version_after toy "key" draft [] "genesis").1 none
    ≡ some (some (obj (dict (("policies", sort_keys (grant "cap.email.draft_reply.v1")) ∷ []))))
materialize_active-append_example =
    materialize_active-append toy "key" draft [] "genesis" 0 none refl empty_history

abbrev payment : Capability
payment = record draft_reply { id = "cap.payment.initiate.v1"; requires_second_admin = true }

abbrev console : Console String
console = record {
  private_key = "key";
  catalog = ("cap.payment.initiate.v1", payment) ∷ [];
  strip = λ s. s;
  decimal = λ n. "1";
}

-- A store that holds one proposal.
abbrev proposed : ConsoleState Blob
proposed = record {
  rows =
      (
        1,
        doc (
            obj (
              dict (
                ("author", str "author.aiko")
                ∷ ("policies", grant "cap.payment.initiate.v1")
                ∷ ("status", str "pending")
                ∷ ("this_hash", str "feed")
                ∷ []))),
      )
      ∷ [];
  file = none;
}

abbrev reviewer : Admin
reviewer = record { id = "reviewer.ken"; role = "reviewer" }

proposal_approved :
    (approve toy console (some reviewer) 1 "bb" proposed).0
    ≡ done (approved 2 "pv-bb" "reviewer.ken" 1)
unfolding approve approve_request approve_draft require_role require_that value_at find_version
    find_seq read_all append_version append_version_after head_hash next_seq version_row materialize
    materialize_active active_version latest_active active_here sort_keys load
proposal_approved = refl

approve-IsDutiful_example :
    (draft : Draft) × (v : Version) × IsDutiful toy console (some reviewer) 1 proposed draft
    × (append_version toy "key" draft proposed.rows
        ≡ some (v, (approve toy console (some reviewer) 1 "bb" proposed).1.rows))
approve-IsDutiful_example =
    approve-IsDutiful toy console (some reviewer) 1 "bb" proposed _ proposal_approved

payment_flagged :
    needs_second_admin console.catalog (grant "cap.payment.initiate.v1")
    ≡ some ("cap.payment.initiate.v1" ∷ [])
unfolding needs_second_admin flag_policies flag_grant flag_capability
payment_flagged = refl

author_admin : Admin
author_admin = record { id = "author.aiko"; role = "author" }

publish_waits_example :
    (publish toy console
      (some author_admin)
      (grant "cap.payment.initiate.v1")
      (str "needed")
      "bb"
      proposed).1.file
    ≡ none
publish_waits_example =
    publish_waits toy console (some author_admin) (grant "cap.payment.initiate.v1") (str "needed")
      "bb" "cap.payment.initiate.v1" [] proposed payment_flagged

abbrev requests : List Request
requests = publish_of (some reviewer) (grant "cap.payment.initiate.v1") (str "needed") "bb" ∷ []

serve_all-verified_example :
    (m : ℕ) × (0 ≤ m)
    × (m ≤ 1)
    × (verify_policy_history toy "key"
          (serve_all toy console requests (record { rows = []; file = none })).rows
        ≡ verified m)
serve_all-verified_example =
    serve_all-verified toy console requests (record { rows = []; file = none }) 0 empty_history
