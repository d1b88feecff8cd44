-- ===== src/Drill/Drilled.antt =====
-- curriculum/drill.py: that the drill ends with a report, and what the report and the ledger have.
use tanaka.Prelude.{
  All, ℕ, suc, ◌+◌, String, ◌≡◌, refl, sym, subst, ap, ◌∙◌, eq_refl, Bool, true, false, Option,
  none, some, List, [], ◌∷◌, ◌++◌, length, pos, arith,
}
use tanaka.Host.{Host}
use tanaka.Spine.{Order}
use tanaka.Chain.{verified}
use tanaka.Cashier.Store.{nonce_is_spent}
use tanaka.Cashier.Policy.{Policy, for_role}
use tanaka.Loop.{Wiring, LoopState}
use tanaka.Drill.{
  probe_of, recorded, fire, fire_all, fire_flood, chain_is_valid, drill_report, fire_plans,
  run_drill, drill_end,
}
use tanaka.Drill.Plans.{
  Draw, Plan, Probe, DrillReport, injected_order, control_plan, injection_plan, fixed_attacks,
  replay_plan, control_nonce, drill_order, flood_length, count_attacks,
}
use tanaka.Chef.Runner.Laws.{Runs}
use tanaka.Prelude.Texts.{concat}
use tanaka.Drill.Laws.{
  Runnable, flood_plan, Receipts, fire-Fired, Observed, fire_all-AllFired, flood-Flooded,
}
use tanaka.Drill.Keyless.{chain_is_valid-Receipts}

-- Every plan is an attack.
AreAttacks : List Plan → Type 0
AreAttacks [] = Unit
AreAttacks (p ∷ ps) = (p.is_attack ≡ true) × AreAttacks ps

shift : (n k : ℕ) → n + 1 + k ≡ n + suc k
shift n k = omega arith

module _ (host : Host) (w : Wiring host.Bytes host.PrivateKey) where
  open host use {Bytes, PrivateKey, PublicKey, public_key}

  count_attacks-Observed :
      (c : String) (ps : List Plan) (qs : List Probe) (last : Probe)
      → Observed host w c ps qs
      → AreAttacks ps
      → last.is_attack ≡ true
      → count_attacks (qs ++ last ∷ []) ≡ suc (length ps)
  unfolding Observed AreAttacks count_attacks
  count_attacks-Observed c [] [] last o a h = rw h refl
  count_attacks-Observed c (p ∷ ps) (q ∷ qs) last (same, (_, o)) (attack, a) h =
      rw (same, attack) (omega (arith, count_attacks-Observed c ps qs last o a h))
  count_attacks-Observed c [] (q ∷ qs) last o a h = absurd o
  count_attacks-Observed c (p ∷ ps) [] last o a h = absurd o

  -- The answer to the last plan, which spends the nonce again.
  record LastReplayed (ps : List Plan) (qs : List Probe) : Type 0 where
    before : List Probe
    replayed : Probe
    ends : qs ≡ before ++ replayed ∷ []
    long : length before ≡ length ps
    seen : replayed.observed ≡ some "REPLAY"

  Observed-LastReplayed :
      (c : String) (ps : List Plan) (p : Plan) (qs : List Probe)
      → Observed host w c (ps ++ p ∷ []) qs
      → p.order.nonce ≡ c
      → LastReplayed ps qs
  unfolding Observed
  Observed-LastReplayed c [] p (q ∷ []) (_, (seen, _)) h = record {
    before = [];
    replayed = q;
    ends = refl;
    long = refl;
    seen = seen h;
  }
  Observed-LastReplayed c [] p (q ∷ (q' ∷ qs)) (_, (_, o)) h = absurd o
  Observed-LastReplayed c (p' ∷ ps) p (q ∷ qs) (_, (_, o)) h =
      let later = Observed-LastReplayed c ps p qs o h in
      record {
        before = q ∷ later.before;
        replayed = later.replayed;
        ends = ap (λ l. q ∷ l) later.ends;
        long = ap suc later.long;
        seen = later.seen;
      }
  Observed-LastReplayed c [] p [] o h = absurd o
  Observed-LastReplayed c (p' ∷ ps) p [] o h = absurd o

  -- The control first, whose nonce is spent from then on.
  record Opened (c : String) (ps : List Plan) (n : ℕ) (r : Option (List Probe) × LoopState Bytes)
      : Type 0 where
    control : Probe
    probes : List Probe
    fired : r.0 ≡ some (control ∷ probes)
    is_control : control.is_attack ≡ false
    counted : Receipts host w (n + suc (length ps)) r.1
    observed : Observed host w c ps probes

  fire_all-Opened :
      (p : Plan) (ps : List Plan) (s : LoopState Bytes) (n : ℕ)
      → p.is_attack ≡ false
      → All (Runnable host w) (p ∷ ps)
      → Receipts host w n s
      → Opened p.order.nonce ps n (fire_all host w (p ∷ ps) s)
  unfolding fire_all
  fire_all-Opened p ps s n honest (runs, all) h =
      let f = fire-Fired host w p s n runs h in
      let s' = (fire host w p s).1 in
      let old : nonce_is_spent s'.store p.order.nonce ≡ true =
        f.spends p.order.nonce ∙ rw (eq_refl p.order.nonce) refl in
      let later = fire_all-AllFired host w p.order.nonce ps s' (n + 1) all f.counted old in
      record {
        control = f.probe;
        probes = later.probes;
        fired = rw (f.fired, fire_all, later.fired) refl;
        is_control = f.is_attack ∙ honest;
        counted = rw (f.fired, fire_all) (later.counted ∙ ap verified (shift n (length ps)));
        observed = later.observed;
      }

  -- The last probe of the drill.
  record Closed (n : ℕ) (r : Option Probe × LoopState Bytes) : Type 0 where
    probe : Probe
    fired : r.0 ≡ some probe
    is_attack : probe.is_attack ≡ true
    counted : Receipts host w n r.1

  fire_flood-Closed :
      (draws : ℕ → Draw) (policy : Policy) (m : ℕ) (s : LoopState Bytes) (n : ℕ)
      → policy.rate_limit_per_hour ≡ pos m
      → ((i : ℕ) → Runnable host w (flood_plan host w draws i))
      → Receipts host w n s
      → Closed (n + flood_length (pos m)) (fire_flood host w draws (some policy) s)
  unfolding fire_flood recorded flood_length probe_of
  fire_flood-Closed draws policy m s n limit runs h =
      let f = flood-Flooded host w draws 6 (flood_length (pos m)) none s n runs (λ e. cc e) h in
      rw (limit, flood_length)
        record {
          probe = probe_of host "rate_flood" true "RATE_LIMITED" f.receipt;
          fired = rw (f.seen, recorded) refl;
          is_attack = refl;
          counted = f.counted;
        }

  count_attacks-control :
      (c : Probe) (qs : List Probe)
      → c.is_attack ≡ false
      → count_attacks (c ∷ qs) ≡ count_attacks qs
  unfolding count_attacks
  count_attacks-control c qs h = rw (h) omega arith

  two_last :
      {A : Type 0} (before : List A) (q last : A)
      → (before ++ q ∷ []) ++ last ∷ [] ≡ before ++ q ∷ last ∷ []
  two_last [] q last = refl
  two_last (x ∷ before) q last = ap (λ l. x ∷ l) (two_last before q last)

  -- What a drill leaves, over a ledger of `n` receipts.
  pub record IsDrilled (n m : ℕ) (r : Option DrillReport × LoopState Bytes) : Type 0 where
    pub report : DrillReport
    pub ended : r.0 ≡ some report
    pub counted : Receipts host w (n + 6 + flood_length (pos m)) r.1
    pub chain_holds : report.chain_valid ≡ true
    pub all_attacks : report.attacks_total ≡ 6
    pub control : Probe
    pub probes : List Probe
    pub replayed : Probe
    pub last : Probe
    pub in_order : report.probes ≡ control ∷ probes ++ replayed ∷ last ∷ []
    pub attacks : length probes ≡ 4
    pub replay_seen : replayed.observed ≡ some "REPLAY"

  drill_end-reported :
      (a : Option (List Probe) × LoopState Bytes) (b : Option Probe × LoopState Bytes)
      (probes : List Probe) (probe : Probe)
      → a.0 ≡ some probes
      → b.0 ≡ some probe
      → chain_is_valid host b.1.rows ≡ some true
      → drill_end host a b ≡ (some (drill_report host (probes ++ probe ∷ []) true), b.1)
  unfolding drill_end
  drill_end-reported (none, s₁) b probes probe all last fine = cc all
  drill_end-reported (some qs, s₁) (none, s₂) probes probe all last fine = cc last
  drill_end-reported (some qs, s₁) (some q, s₂) probes probe all last fine =
      rw (fine, drill_end) cc (all, last)

  fire_plans-IsDrilled :
      (draws : ℕ → Draw) (injected : Order) (policy : Policy) (m : ℕ) (s : LoopState Bytes) (n : ℕ)
      → for_role w.policy_set "account_manager" ≡ some policy
      → policy.rate_limit_per_hour ≡ pos m
      → Runs host w.private_key w.service injected.order_id
      → ((i : ℕ) → Runs host w.private_key w.service (concat "ord-drill-" (draws i).order_hex))
      → Receipts host w n s
      → IsDrilled n m (
          fire_plans host w draws
            (control_plan draws ∷ (injection_plan draws injected ∷ fixed_attacks draws)
              ++ replay_plan draws ∷ [])
            s)
  unfolding fire_plans control_plan injection_plan fixed_attacks replay_plan drill_order
      drill_report AreAttacks
  fire_plans-IsDrilled draws injected policy m s n named limit injected_runs runs h =
      let attacks = injection_plan draws injected ∷ fixed_attacks draws in
      let o =
        fire_all-Opened (control_plan draws) (attacks ++ replay_plan draws ∷ []) s n refl
          (runs 0, (injected_runs, (runs 2, (runs 3, (runs 4, (runs 5, tt)))))) h in
      let s₁ = (fire_all host w (control_plan draws ∷ attacks ++ replay_plan draws ∷ []) s).1 in
      let c = fire_flood-Closed draws policy m s₁ (n + 6) limit runs o.counted in
      let s₂ = (fire_flood host w draws (some policy) s₁).1 in
      let found =
        Observed-LastReplayed (control_nonce (draws 0)) attacks (replay_plan draws) o.probes
          o.observed refl in
      let total =
        count_attacks-Observed (control_nonce (draws 0)) (attacks ++ replay_plan draws ∷ [])
          o.probes c.probe o.observed (refl, (refl, (refl, (refl, (refl, tt))))) c.is_attack in
      let fine = chain_is_valid-Receipts host w (n + 6 + flood_length (pos m)) s₂ c.counted in
      let plans = control_plan draws ∷ attacks ++ replay_plan draws ∷ [] in
      let ended =
        drill_end-reported (fire_all host w plans s) (fire_flood host w draws (some policy) s₁)
          (o.control ∷ o.probes) c.probe o.fired c.fired fine in
      rw (fire_plans, named)
        (subst (IsDrilled n m) (sym ended) record {
          report = drill_report host (o.control ∷ o.probes ++ c.probe ∷ []) true;
          ended = refl;
          counted = c.counted;
          chain_holds = refl;
          all_attacks =
              count_attacks-control o.control (o.probes ++ c.probe ∷ []) o.is_control ∙ total;
          control = o.control;
          probes = found.before;
          replayed = found.replayed;
          last = c.probe;
          in_order =
              ap (λ l. o.control ∷ l)
                (ap (λ l. l ++ c.probe ∷ []) found.ends
                  ∙ two_last found.before found.replayed c.probe);
          attacks = found.long;
          replay_seen = found.seen;
        })

  -- A drill over a ledger of `n` receipts that verifies ends with a report, if the email names the
  -- attacker, account managers have a policy whose limit `m` is not negative, and the runner's process
  -- does not raise on tickets with the ids of the drill's orders. The ledger still
  -- verifies, with 6 and then min(m, 10) + 1 more receipts; the report says that the chain holds,
  -- counts six attacks, and has seen REPLAY where the control's nonce is spent again.
  pub run_drill-IsDrilled :
      (draws : ℕ → Draw) (contains : String → String → Bool) (words : List String)
      (injected : Order) (policy : Policy) (m : ℕ) (s : LoopState Bytes) (n : ℕ)
      → injected_order contains (draws 1) words ≡ some injected
      → for_role w.policy_set "account_manager" ≡ some policy
      → policy.rate_limit_per_hour ≡ pos m
      → Runs host w.private_key w.service injected.order_id
      → ((i : ℕ) → Runs host w.private_key w.service (concat "ord-drill-" (draws i).order_hex))
      → Receipts host w n s
      → IsDrilled n m (run_drill host w draws contains words s)
  unfolding run_drill
  run_drill-IsDrilled draws contains words injected policy m s n found named limit injected_runs
        runs h =
      rw (found, run_drill)
        (fire_plans-IsDrilled draws injected policy m s n named limit injected_runs runs h)
