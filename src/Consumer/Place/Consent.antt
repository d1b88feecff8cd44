-- ===== src/Consumer/Place/Consent.antt =====
-- consumer/loop.py: the user's consent to what runs.
use tanaka.Prelude.{
  String, ◌≡◌, refl, Bool, true, false, Option, none, some, [], ◌∷◌, lookup, lookup-insert, eq_refl,
  arith,
}
use tanaka.Json.{str, dict}
use tanaka.Host.{Host}
use tanaka.Spine.{Capability, Order, Ticket}
use tanaka.Cashier.Engine.{accept, Readings, Outcome, ticketed, rejected, evaluate_order, mint}
use tanaka.Chef.Runner.{Service}
use tanaka.Loop.{Wiring}
use tanaka.Consumer.Preferences.{
  Permission, allow, ask, block, Preferences, effective_state, set_preference, save_if_persistent,
  ApprovalDecision,
}
use tanaka.Consumer.Place.{
  ConsumerState, Approver, remember_choice, refuse, execute, gate, after_cashier, consumer_place,
}
use tanaka.Consumer.Place.Laws.{consumer_place-IsGated}

-- The user has blocked the capability, or was asked and said no, or gave no answer.
abbrev pub Withheld : Option ApprovalDecision → Permission → Type 0
Withheld d block = Unit
Withheld none ask = Unit
Withheld (some d) ask = d.allowed ≡ false
Withheld d allow = ⊥

abbrev with_service : {B K : Type 0} → Wiring B K → Service B K → Wiring B K
with_service w other = record w { service = other }

module _ (host : Host) (w : Wiring host.Bytes host.PrivateKey) where
  open host use {Bytes, PrivateKey}

  gate-Withheld :
      (other : Service Bytes PrivateKey) (s : ConsumerState Bytes) (order : Order)
      (t : Ticket Bytes) (hex : String) (d : Option ApprovalDecision) (p : Permission)
      → Withheld d p
      → gate host (with_service w other) s order t hex d p ≡ gate host w s order t hex d p
  unfolding gate refuse
  gate-Withheld other s order t hex d block h = refl
  gate-Withheld other s order t hex none ask h = refl
  gate-Withheld other s order t hex (some d) ask h = rw (h, gate) refl
  gate-Withheld other s order t hex d allow h = elim h [ ]

  module _ (decide : Approver) (order : Order) (readings : Readings) (hex : String)
      (s : ConsumerState Bytes) (capability : Capability) where
    -- Where the user has blocked the capability of an order, or is asked and says no, or the question
    -- raises, the chef does not run: the outcome, the ledger and the rest of the state are the same with any other
    -- sandbox, attestor and measurement.
    pub consumer_place-Withheld :
        (other : Service Bytes PrivateKey)
        → lookup order.capability_id w.menu ≡ some capability
        → Withheld (decide order capability) (effective_state s.prefs capability)
        → consumer_place host (record w { service = other }) decide order readings hex s
          ≡ consumer_place host w decide order readings hex s
    unfolding consumer_place after_cashier
    consumer_place-Withheld other on_menu h = by_outcome _ _ _
      where
        by_outcome :
            (store : _) (rows : _) (o : Option (Outcome Bytes))
            → after_cashier host
                (with_service w other)
                decide
                (record { store = store; rows = rows; prefs = s.prefs })
                order
                hex
                o
              ≡ after_cashier host w decide
                  (record { store = store; rows = rows; prefs = s.prefs })
                  order
                  hex
                  o
        by_outcome store rows none = refl
        by_outcome store rows (some (rejected reason receipt)) = refl
        by_outcome store rows (some (ticketed t)) =
            rw (on_menu, after_cashier)
              (gate-Withheld other _ order t hex (decide order capability) _ h)

    remembered_choice :
        (prefs : Preferences) (d : ApprovalDecision)
        → d.allowed ≡ true
        → d.remember ≡ true
        → capability.id ≡ order.capability_id
        → effective_state (remember_choice d order.capability_id prefs) capability ≡ allow
    unfolding remember_choice effective_state set_preference save_if_persistent
    remembered_choice prefs d yes_said kept named = ground (
      arith,
      lookup-insert order.capability_id capability.id allow prefs.settings,
      named,
      eq_refl order.capability_id,
    )

    prefs-execute :
        (s' : ConsumerState Bytes) (t : Ticket Bytes) (asked : Bool)
        → (execute host w s' order t hex asked).1.prefs ≡ s'.prefs
    unfolding execute
    prefs-execute s' t asked = refl

    gate_remembers :
        (s' : ConsumerState Bytes) (t : Ticket Bytes) (d : ApprovalDecision) (p : Permission)
        → p ≡ ask
        → d.allowed ≡ true
        → d.remember ≡ true
        → capability.id ≡ order.capability_id
        → effective_state (gate host w s' order t hex (some d) p).1.prefs capability ≡ allow
    unfolding gate
    gate_remembers s' t d p asks yes_said kept named =
        rw (asks, gate, yes_said, prefs-execute)
          (remembered_choice s'.prefs (record { allowed = true; remember = d.remember }) refl kept
            named)

    -- If the cashier accepts the order, the user is asked, and the answer is to allow the capability
    -- and to remember it, then from that action on the capability is allowed without a question.
    pub consumer_place-remembers :
        (key resource : String)
        → evaluate_order order w.menu w.policy_set s.store readings.rate_now ≡ accept key resource
        → lookup order.capability_id w.menu ≡ some capability
        → capability.id ≡ order.capability_id
        → effective_state s.prefs capability ≡ ask
        → (d : ApprovalDecision) → decide order capability ≡ some d
        → d.allowed ≡ true
        → d.remember ≡ true
        → effective_state (consumer_place host w decide order readings hex s).1.prefs capability
          ≡ allow
    consumer_place-remembers key resource e on_menu named asks d answer yes_said kept =
        let g = consumer_place-IsGated host w decide order readings hex s key resource e in
        let same : capability ≡ g.capability = cc (g.on_menu, on_menu) in
        rw (g.gated, ← same, answer)
          (gate_remembers (record { store = g.store; rows = s.rows; prefs = s.prefs })
            (mint host w.private_key order capability (dict ((key, str resource) ∷ [])) readings) d
            (effective_state s.prefs capability) asks yes_said kept named)
