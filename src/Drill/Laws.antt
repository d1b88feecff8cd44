-- ===== src/Drill/Laws.antt =====
-- curriculum/drill.py: what each probe and the flood leave.
use tanaka.Prelude.{
  All, ℕ, zero, suc, ◌+◌, String, ◌==◌, ◌≡◌, refl, sym, subst, ap, ◌∙◌, true, ◌||◌, Option, none,
  some, List, [], ◌∷◌, length, arith, if◌then◌else◌,
}
use tanaka.Host.{Host}
use tanaka.Spine.{Receipt, order_meta_from_order}
use tanaka.Chain.{verified}
use tanaka.Ledger.{verify_ledger}
use tanaka.Ledger.Laws.{verified_of_IsIntact, IsIntact-of_verified}
use tanaka.Cashier.Store.{nonce_is_spent}
use tanaka.Cashier.Engine.{Outcome, reject, replay, reason_text}
use tanaka.Cashier.Engine.Decide.{evaluate_order_iff, spent}
use tanaka.Cashier.Engine.Nonce.{nonce_is_spent-process_order}
use tanaka.Chef.Runner.{ChefResult}
use tanaka.Chef.Runner.Laws.{Runs}
use tanaka.Loop.{Wiring, LoopState, spawn, place}
use tanaka.Loop.Laws.{Placed, refused, served, place-Placed, one_more}
use tanaka.Drill.{observe, probe_of, recorded, fire, fire_all, flood}
use tanaka.Drill.Plans.{Draw, Plan, Probe, fresh_nonce, drill_order}

module _ (host : Host) (w : Wiring host.Bytes host.PrivateKey) where
  open host use {Bytes, PrivateKey, PublicKey, public_key}

  -- The verifier counts `n` receipts.
  abbrev pub Receipts : ℕ → LoopState Bytes → Type 0
  Receipts n s = verify_ledger host (public_key w.private_key) s.rows ≡ verified n

  observe-Placed :
      (p : Plan) (s : LoopState Bytes) (last : String) {o : Option (Outcome Bytes)}
      → Placed host w p.order p.draw.readings p.draw.chef_hex s last o
      → (r : Receipt Bytes) × (observe host o
            (place host w p.order p.draw.readings p.draw.chef_hex s).1.last_chef
          ≡ some r)
        × (nonce_is_spent s.store p.order.nonce ≡ true
            → (if r.status == "REJECTED" then r.reason_code else some r.status) ≡ some "REPLAY")
  unfolding observe reason_text
  observe-Placed p s last (refused reason e none_ran r) = (
    r.receipt,
    refl,
    λ h.
        let again =
          (evaluate_order_iff p.order w.menu w.policy_set s.store p.draw.readings.rate_now
              (reject replay)).1
            (spent h) in
        let same : reason ≡ replay = cc (sym e ∙ again) in rw (r.status, r.code, same) refl,
  )
  observe-Placed p s last (served key resource t chef e _ _ _ _ ran r) = (
    chef.receipt,
    rw (ran, observe) refl,
    λ h.
        let again =
          (evaluate_order_iff p.order w.menu w.policy_set s.store p.draw.readings.rate_now
              (reject replay)).1
            (spent h) in
        cc (sym e ∙ again),
  )

  -- The runner's process does not raise on tickets with the id of a plan's order.
  abbrev pub Runnable : Plan → Type 0
  Runnable p = Runs host w.private_key w.service p.order.order_id

  -- One probe that was fired.
  pub record Fired (p : Plan) (n : ℕ) (s : LoopState Bytes) (r : Option Probe × LoopState Bytes)
      : Type 0 where
    pub probe : Probe
    pub fired : r.0 ≡ some probe
    pub counted : Receipts (n + 1) r.1
    pub is_attack : probe.is_attack ≡ p.is_attack
    pub replayed : nonce_is_spent s.store p.order.nonce ≡ true → probe.observed ≡ some "REPLAY"
    pub spends :
        (nonce : String)
        → nonce_is_spent r.1.store nonce ≡ (nonce == p.order.nonce || nonce_is_spent s.store nonce)

  pub fire-Fired :
      (p : Plan) (s : LoopState Bytes) (n : ℕ)
      → Runnable p
      → Receipts n s
      → Fired p n s (fire host w p s)
  unfolding fire recorded probe_of place
  fire-Fired p s n runs h =
      let ((last, intact), counted) = IsIntact-of_verified host w.private_key s.rows n h in
      let placed = place-Placed host w p.order p.draw.readings p.draw.chef_hex s last runs intact in
      let ((last', intact'), longer) =
        one_more host w p.order p.draw.readings p.draw.chef_hex s last placed in
      let (r, seen, again) = observe-Placed p s last placed in
      record {
        probe = probe_of host p.name p.is_attack p.expected r;
        fired = rw (seen, recorded) refl;
        counted =
            verified_of_IsIntact host w.private_key
              (place host w p.order p.draw.readings p.draw.chef_hex s).1.rows last' intact'
            ∙ ap verified (omega (arith, longer, counted));
        is_attack = refl;
        replayed = again;
        spends =
            nonce_is_spent-process_order host w.private_key (ChefResult Bytes) p.order w.menu
              w.policy_set p.draw.readings
              (some (spawn host w (some (order_meta_from_order p.order)) p.draw.chef_hex)) s.store
              s.rows;
      }

  -- Each probe answers its plan; a plan with the nonce `spent_nonce` is seen as a replay.
  unfoldable pub Observed : String → List Plan → List Probe → Type 0
  Observed spent_nonce [] [] = Unit
  Observed spent_nonce (p ∷ ps) (q ∷ qs) =
      (q.is_attack ≡ p.is_attack)
      × ((p.order.nonce ≡ spent_nonce → q.observed ≡ some "REPLAY") × Observed spent_nonce ps qs)
  Observed spent_nonce _ _ = ⊥

  pub record AllFired (spent_nonce : String) (ps : List Plan) (n : ℕ)
      (r : Option (List Probe) × LoopState Bytes) : Type 0 where
    pub probes : List Probe
    pub fired : r.0 ≡ some probes
    pub counted : Receipts (n + length ps) r.1
    pub observed : Observed spent_nonce ps probes

  pub fire_all-AllFired :
      (spent_nonce : String) (ps : List Plan) (s : LoopState Bytes) (n : ℕ)
      → All Runnable ps
      → Receipts n s
      → nonce_is_spent s.store spent_nonce ≡ true
      → AllFired spent_nonce ps n (fire_all host w ps s)
  unfolding fire_all Observed
  fire_all-AllFired c [] s n runs h old = record {
    probes = [];
    fired = refl;
    counted = h ∙ ap verified (omega arith);
    observed = tt;
  }
  fire_all-AllFired c (p ∷ ps) s n (runs, all) h old =
      let f = fire-Fired p s n runs h in
      let s' = (fire host w p s).1 in
      let later =
        fire_all-AllFired c ps s' (n + 1) all f.counted (f.spends c ∙ rw old (ground arith)) in
      record {
        probes = f.probe ∷ later.probes;
        fired = rw (f.fired, fire_all, later.fired) refl;
        counted = rw (f.fired, fire_all) (later.counted ∙ ap verified (omega arith));
        observed = (f.is_attack, (λ same. f.replayed (rw same old), later.observed));
      }

  abbrev pub flood_plan : (ℕ → Draw) → ℕ → Plan
  flood_plan draws i = record {
    name = "rate_flood";
    is_attack = true;
    expected = "RATE_LIMITED";
    order =
        drill_order (draws i) "user.kenji" "account_manager" "user.kenji/t-001"
          (fresh_nonce (draws i));
    draw = draws i;
  }

  -- The outcome that is kept has a receipt.
  pub record Flooded (n : ℕ) (r : Option (Outcome Bytes) × LoopState Bytes) : Type 0 where
    pub receipt : Receipt Bytes
    pub seen : observe host r.0 r.1.last_chef ≡ some receipt
    pub counted : Receipts n r.1

  outcome_of_observe :
      (o : Option (Outcome Bytes)) (chef : Option (ChefResult Bytes)) (r : Receipt Bytes)
      → observe host o chef ≡ some r
      → (x : Outcome Bytes) × (o ≡ some x)
  unfolding observe
  outcome_of_observe none chef r h = cc h
  outcome_of_observe (some x) chef r h = (x, refl)

  goes_on :
      {A : Type 0} (o : Option (Outcome Bytes)) (x : Outcome Bytes)
      → o ≡ some x
      → (a b : A) → elim o [ none ↦ a | some _ ↦ b ] ≡ b
  goes_on o x h a b = rw h refl

  pub flood-Flooded :
      (draws : ℕ → Draw) (i count : ℕ) (last : Option (Outcome Bytes)) (s : LoopState Bytes) (n : ℕ)
      → ((j : ℕ) → Runnable (flood_plan draws j))
      → (count ≡ 0 → (r : Receipt Bytes) × (observe host last s.last_chef ≡ some r))
      → Receipts n s
      → Flooded (n + count) (flood host w draws i count last s)
  unfolding flood
  flood-Flooded draws i zero last s n runs kept h =
      let (r, seen) = kept refl in
      record { receipt = r; seen = seen; counted = h ∙ ap verified (omega arith) }
  flood-Flooded draws i (suc count) last s n runs kept h =
      let p = flood_plan draws i in
      let ((head, intact), counted) = IsIntact-of_verified host w.private_key s.rows n h in
      let placed =
        place-Placed host w p.order p.draw.readings p.draw.chef_hex s head (runs i) intact in
      let ((head', intact'), longer) =
        one_more host w p.order p.draw.readings p.draw.chef_hex s head placed in
      let (r', seen', _) = observe-Placed p s head placed in
      let (outcome, s') = place host w p.order p.draw.readings p.draw.chef_hex s in
      let (x, is_some) = outcome_of_observe outcome s'.last_chef r' seen' in
      let h' : Receipts (n + 1) s' =
        verified_of_IsIntact host w.private_key s'.rows head' intact'
        ∙ ap verified (omega (arith, longer, counted)) in
      let later = flood-Flooded draws (suc i) count outcome s' (n + 1) runs (λ _. (r', seen')) h' in
      let longer_flood : Flooded (n + suc count) (flood host w draws (suc i) count outcome s') =
        record {
          receipt = later.receipt;
          seen = later.seen;
          counted = later.counted ∙ ap verified (omega arith);
        } in
      subst (λ r. Flooded (n + suc count) r)
        (sym (goes_on outcome x is_some (none, s') (flood host w draws (suc i) count outcome s')))
        longer_flood
