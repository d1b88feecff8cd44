-- ===== src/Drill.antt =====
-- curriculum/drill.py: the drill, which fires its plans at the loop, and the report on what it
-- answered.
pub mod Plans
pub mod Laws
pub mod Keyless
pub mod Drilled
use tanaka.Prelude.{
  ℕ, zero, suc, ◌+◌, String, ◌==◌, Bool, true, false, ◌&&◌, ◌||◌, Option, none, some, List, [], ◌∷◌,
  ◌++◌, eqb, leb, ℤ, pos, negsuc, if◌then◌else◌,
}
use tanaka.Prelude.Texts.{concat}
use tanaka.Json.{Json, str, obj, dict}
use tanaka.Host.{Host}
use tanaka.Spine.{Order, Receipt, genesis_prev_hash}
use tanaka.Chain.{Table}
use tanaka.Cashier.Policy.{Policy, for_role}
use tanaka.Cashier.Engine.{Readings, Outcome, ticketed, rejected}
use tanaka.Chef.Runner.{ChefResult}
use tanaka.Inspector.{Inspection, valid, broken, crashed_at, read_rows, check_chain}
use tanaka.Loop.{Wiring, LoopState, place}
use tanaka.Drill.Plans.{
  flood_cap, Draw, drill_order, fresh_nonce, control_nonce, has_target, injected_order, Probe,
  resisted, Plan, all_controls, count_attacks, count_resisted, DrillReport, fixed_attacks,
  replay_plan, control_plan, injection_plan, flood_length,
}

module _ (host : Host) where
  open host use {Bytes, PrivateKey}

  -- `_observe`: the receipt of an outcome; `none` is an exception.
  unfoldable pub observe :
      Option (Outcome Bytes) → Option (ChefResult Bytes) → Option (Receipt Bytes)
  observe none chef = none
  observe (some (rejected reason receipt)) chef = some receipt
  observe (some (ticketed t)) none = none
  observe (some (ticketed t)) (some chef) = some chef.receipt

  unfoldable pub probe_of : String → Bool → String → Receipt Bytes → Probe
  probe_of name is_attack expected receipt = record {
    name = name;
    is_attack = is_attack;
    expected = expected;
    observed = if receipt.status == "REJECTED" then receipt.reason_code else some receipt.status;
    order_id = receipt.order_id;
    receipt_id = receipt.receipt_id;
  }

  -- `record`
  unfoldable pub recorded :
      String
      → Bool
      → String
      → Option (Outcome Bytes) × LoopState Bytes
      → Option Probe × LoopState Bytes
  unfolding observe probe_of
  recorded name is_attack expected (outcome, s) = (
    elim (observe outcome s.last_chef) [
      | none ↦ none
      | some receipt ↦ some (probe_of name is_attack expected receipt)
    ],
    s,
  )

  unfoldable pub fire :
      Wiring Bytes PrivateKey → Plan → LoopState Bytes → Option Probe × LoopState Bytes
  unfolding recorded
  fire w p s =
      recorded p.name p.is_attack p.expected
        (place host w p.order p.draw.readings p.draw.chef_hex s)

  unfoldable pub fire_all :
      Wiring Bytes PrivateKey → List Plan → LoopState Bytes → Option (List Probe) × LoopState Bytes
  unfolding fire
  fire_all w [] s = (some [], s)
  fire_all w (p ∷ ps) s =
      let (fired, s') = fire w p s in
      let later = fire_all w ps s' in
      elim fired [
        | none ↦ (none, s')
        | some probe ↦ (elim later.0 [ none ↦ none | some probes ↦ some (probe ∷ probes) ], later.1)
      ]

  -- `count` orders, of which the last outcome is kept; `none` where there is none, or after an exception.
  unfoldable pub flood :
      Wiring Bytes PrivateKey
      → (ℕ → Draw)
      → ℕ
      → ℕ
      → Option (Outcome Bytes)
      → LoopState Bytes
      → Option (Outcome Bytes) × LoopState Bytes
  unfolding drill_order
  flood w draws i zero last s = (last, s)
  flood w draws i (suc count) last s =
      let d = draws i in
      let order = drill_order d "user.kenji" "account_manager" "user.kenji/t-001" (fresh_nonce d) in
      let (outcome, s') = place host w order d.readings d.chef_hex s in
      let later = flood w draws (suc i) count outcome s' in
      elim outcome [ none ↦ (none, s') | some _ ↦ later ]

  -- The last probe: a role without a policy is an `AttributeError`.
  unfoldable pub fire_flood :
      Wiring Bytes PrivateKey
      → (ℕ → Draw)
      → Option Policy
      → LoopState Bytes
      → Option Probe × LoopState Bytes
  unfolding flood recorded flood_length
  fire_flood w draws none s = (none, s)
  fire_flood w draws (some policy) s =
      recorded "rate_flood" true "RATE_LIMITED"
        (flood w draws 6 (flood_length policy.rate_limit_per_hour) none s)

  -- `check_chain(loop.ledger.read_all_raw())`, which has no key; `none` is an exception.
  unfoldable pub chain_is_valid : Table Bytes → Option Bool
  chain_is_valid rows = elim (read_rows host rows) [
    | none ↦ none
    | some parsed ↦ elim (check_chain host none parsed (genesis_prev_hash host)) [
      | valid ↦ some true
      | broken seq reason ↦ some false
      | crashed_at seq ↦ none
    ]
  ]

  unfoldable pub drill_report : List Probe → Bool → DrillReport
  unfolding all_controls count_attacks count_resisted
  drill_report probes chain_valid =
      let total = count_attacks probes in
      let held = count_resisted probes in
      let control_ok = all_controls probes in
      record {
        probes = probes;
        attacks_total = total;
        attacks_resisted = held;
        control_fulfilled = control_ok;
        chain_valid = chain_valid;
        passed = control_ok && eqb held total && chain_valid;
      }

  -- The report, where all the probes were fired.
  unfoldable pub drill_end :
      Option (List Probe) × LoopState Bytes
      → Option Probe × LoopState Bytes
      → Option DrillReport × LoopState Bytes
  unfolding chain_is_valid drill_report
  drill_end (none, s₁) last = (none, s₁)
  drill_end (some probes, _) (none, s₂) = (none, s₂)
  drill_end (some probes, _) (some probe, s₂) = elim (chain_is_valid s₂.rows) [
    | none ↦ (none, s₂)
    | some chain_valid ↦ (some (drill_report (probes ++ probe ∷ []) chain_valid), s₂)
  ]

  unfoldable pub fire_plans :
      Wiring Bytes PrivateKey
      → (ℕ → Draw)
      → List Plan
      → LoopState Bytes
      → Option DrillReport × LoopState Bytes
  unfolding fire_all fire_flood drill_end
  fire_plans w draws plans s =
      let fired = fire_all w plans s in
      drill_end fired (fire_flood w draws (for_role w.policy_set "account_manager") fired.1)

  -- `run_drill`: the control is placed before the email is read.
  unfoldable pub run_drill :
      Wiring Bytes PrivateKey
      → (ℕ → Draw)
      → (String → String → Bool)
      → List String
      → LoopState Bytes
      → Option DrillReport × LoopState Bytes
  unfolding injected_order fire_plans control_plan injection_plan fixed_attacks replay_plan
  run_drill w draws contains words s = elim (injected_order contains (draws 1) words) [
    | none ↦ (none, (fire w (control_plan draws) s).1)
    | some injected ↦
        fire_plans w draws
          (control_plan draws ∷ injection_plan draws injected ∷ fixed_attacks draws
            ++ replay_plan draws ∷ [])
          s
  ]
