-- ===== src/Cashier/Engine/Decide.antt =====
-- The verdict of `evaluate_order` against the rule that it implements.
use tanaka.Prelude.{
  ℕ, String, ◌≡◌, ◌↔◌, refl, true, false, Option, none, some, List, lookup, elem, reaches,
  Bool-cases, Option-cases, inl, inr,
}
use tanaka.Spine.{Capability, Order}
use tanaka.Json.{Json, str}
use tanaka.Cashier.Store.{CashierStore, nonce_is_spent, rate_count}
use tanaka.Cashier.Policy.{Policy, for_role}
use tanaka.Cashier.Scope.{resource_of, in_scope}
use tanaka.Cashier.Scope.Laws.{IsOwn, in_scope_iff}
use tanaka.Cashier.Engine.{
  Decision, accept, reject, ReasonCode, replay, off_menu, role_not_permitted, capability_paused,
  out_of_scope, rate_limited, Menu, check_args, evaluate_order,
}

module _ (order : Order) (menu : Menu) (policy_set : List Policy) (store : CashierStore)
    (now : ℕ) where
  -- All that has to hold for an order to be accepted with `resource` under `key`.
  pub record Permitted (key resource : String) : Type 0 where
    pub capability : Capability
    pub policy : Policy
    pub fresh : nonce_is_spent store order.nonce ≡ false
    pub on_menu : lookup order.capability_id menu ≡ some capability
    pub has_policy : for_role policy_set order.role ≡ some policy
    pub granted : elem order.capability_id policy.allowed_capabilities ≡ true
    pub running : elem order.capability_id policy.paused_capabilities ≡ false
    pub scoped_key : key ≡ capability.scoped_input
    pub given : resource_of key order.args ≡ some (str resource)
    pub own : IsOwn order.principal resource
    pub below_limit :
        reaches
          (rate_count store now order.principal order.capability_id)
          policy.rate_limit_per_hour
        ≡ false

  -- The first step that fails, for each code.
  pub data Refused : ReasonCode → Type 0 where
    spent : nonce_is_spent store order.nonce ≡ true → Refused replay
    unlisted :
        nonce_is_spent store order.nonce ≡ false
        → lookup order.capability_id menu ≡ none
        → Refused off_menu
    no_role :
        {capability : Capability}
        → nonce_is_spent store order.nonce ≡ false
        → lookup order.capability_id menu ≡ some capability
        → for_role policy_set order.role ≡ none
        → Refused role_not_permitted
    no_grant :
        {capability : Capability} {policy : Policy}
        → nonce_is_spent store order.nonce ≡ false
        → lookup order.capability_id menu ≡ some capability
        → for_role policy_set order.role ≡ some policy
        → elem order.capability_id policy.allowed_capabilities ≡ false
        → Refused role_not_permitted
    paused :
        {capability : Capability} {policy : Policy}
        → nonce_is_spent store order.nonce ≡ false
        → lookup order.capability_id menu ≡ some capability
        → for_role policy_set order.role ≡ some policy
        → elem order.capability_id policy.allowed_capabilities ≡ true
        → elem order.capability_id policy.paused_capabilities ≡ true
        → Refused capability_paused
    foreign :
        {capability : Capability} {policy : Policy}
        → nonce_is_spent store order.nonce ≡ false
        → lookup order.capability_id menu ≡ some capability
        → for_role policy_set order.role ≡ some policy
        → elem order.capability_id policy.allowed_capabilities ≡ true
        → elem order.capability_id policy.paused_capabilities ≡ false
        → ((resource : String)
            → resource_of capability.scoped_input order.args ≡ some (str resource)
            → ¬ IsOwn order.principal resource)
        → Refused out_of_scope
    too_many :
        (resource : String) {capability : Capability} {policy : Policy}
        → nonce_is_spent store order.nonce ≡ false
        → lookup order.capability_id menu ≡ some capability
        → for_role policy_set order.role ≡ some policy
        → elem order.capability_id policy.allowed_capabilities ≡ true
        → elem order.capability_id policy.paused_capabilities ≡ false
        → resource_of capability.scoped_input order.args ≡ some (str resource)
        → IsOwn order.principal resource
        → reaches
            (rate_count store now order.principal order.capability_id)
            policy.rate_limit_per_hour
          ≡ true
        → Refused rate_limited

  -- What a decision has to mean.
  abbrev pub Justified : Decision → Type 0
  Justified (accept key resource) = Permitted key resource
  Justified (reject reason) = Refused reason

  module _ (capability : Capability) (policy : Policy)
      (fresh : nonce_is_spent store order.nonce ≡ false)
      (on_menu : lookup order.capability_id menu ≡ some capability)
      (has_policy : for_role policy_set order.role ≡ some policy)
      (granted : elem order.capability_id policy.allowed_capabilities ≡ true)
      (running : elem order.capability_id policy.paused_capabilities ≡ false) where
    check_args-Justified : Justified (check_args order capability policy store now)
    unfolding check_args
    check_args-Justified =
        let value = resource_of capability.scoped_input order.args in
        elim (Option-cases (in_scope order.principal value)) [
          | inl outside ↦
              rw (outside, check_args)
                (foreign fresh on_menu has_policy granted running (λ resource given own.
                  cc ((in_scope_iff order.principal value resource).1 (given, own), outside)))
          | inr (resource, inside) ↦
              let (given, own) = (in_scope_iff order.principal value resource).0 inside in
              elim (Bool-cases (
                reaches (rate_count store now order.principal order.capability_id)
                  policy.rate_limit_per_hour)) [
                    | inl full ↦
                        rw (inside, check_args, full)
                          (too_many resource fresh on_menu has_policy granted running given own
                            full)
                    | inr free ↦
                        rw (inside, check_args, free)
                          (record {
                            capability = capability;
                            policy = policy;
                            fresh = fresh;
                            on_menu = on_menu;
                            has_policy = has_policy;
                            granted = granted;
                            running = running;
                            scoped_key = refl;
                            given = given;
                            own = own;
                            below_limit = free;
                          })
                  ]
        ]

  evaluate_order-Justified : Justified (evaluate_order order menu policy_set store now)
  unfolding evaluate_order
  evaluate_order-Justified = elim (Bool-cases (nonce_is_spent store order.nonce)) [
    | inl old ↦ rw old (spent old)
    | inr fresh ↦ rw fresh (elim (Option-cases (lookup order.capability_id menu)) [
      | inl unlisted_id ↦ rw unlisted_id (unlisted fresh unlisted_id)
      | inr (capability, on_menu) ↦
          rw on_menu (elim (Option-cases (for_role policy_set order.role)) [
            | inl no_policy ↦ rw no_policy (no_role fresh on_menu no_policy)
            | inr (policy, has_policy) ↦
                rw has_policy
                  (elim (Bool-cases (elem order.capability_id policy.allowed_capabilities)) [
                    | inr missing ↦ rw missing (no_grant fresh on_menu has_policy missing)
                    | inl granted ↦
                        rw granted
                          (elim (Bool-cases (elem order.capability_id policy.paused_capabilities)) [
                            | inl off ↦ rw off (paused fresh on_menu has_policy granted off)
                            | inr running ↦ rw running (
                                check_args-Justified capability policy fresh on_menu has_policy
                                  granted running)
                          ])
                  ])
          ])
    ])
  ]

  in_scope-none :
      (value : Option Json)
      → ((resource : String) → value ≡ some (str resource) → ¬ IsOwn order.principal resource)
      → in_scope order.principal value ≡ none
  in_scope-none value h = elim (Option-cases (in_scope order.principal value)) [
    | inl outside ↦ outside
    | inr (resource, inside) ↦
        let (given, own) = (in_scope_iff order.principal value resource).0 inside in
        absurd (h resource given own)
  ]

  evaluate_order_of_Refused :
      (reason : ReasonCode)
      → Refused reason
      → evaluate_order order menu policy_set store now ≡ reject reason
  unfolding evaluate_order
  evaluate_order_of_Refused _ (spent old) = rw old
  evaluate_order_of_Refused _ (unlisted fresh unlisted_id) = rw (fresh, unlisted_id)
  evaluate_order_of_Refused _ (no_role fresh on_menu no_policy) = rw (fresh, on_menu, no_policy)
  evaluate_order_of_Refused _ (no_grant fresh on_menu has_policy missing) =
      rw (fresh, on_menu, has_policy, missing)
  evaluate_order_of_Refused _ (paused fresh on_menu has_policy granted off) =
      rw (fresh, on_menu, has_policy, granted, off)
  evaluate_order_of_Refused _
        (foreign {capability = capability} fresh on_menu has_policy granted running outside) =
      rw (fresh, on_menu, has_policy, granted, running)
        (rw (in_scope-none (resource_of capability.scoped_input order.args) outside, check_args))
  evaluate_order_of_Refused _
        (too_many resource {capability = capability} fresh on_menu has_policy granted running given
          own full) =
      rw (fresh, on_menu, has_policy, granted, running)
        (rw (
          (in_scope_iff order.principal (resource_of capability.scoped_input order.args) resource).1
              (given, own),
          check_args,
          full,
        ))

  evaluate_order_of_Permitted :
      (key resource : String)
      → Permitted key resource
      → evaluate_order order menu policy_set store now ≡ accept key resource
  unfolding evaluate_order
  evaluate_order_of_Permitted key resource h =
      rw (h.fresh, h.on_menu, h.has_policy, h.granted, h.running)
        (rw
          (
            (in_scope_iff order.principal (resource_of h.capability.scoped_input order.args)
                  resource).1
                (rw h.scoped_key at h.given, h.own),
            check_args,
            h.below_limit,
          )
          (rw h.scoped_key))

  -- Whatever the order, the menu, the policies and the state, the verdict is `accept` with a key
  -- and a resource exactly when the order is permitted with them, and `reject` with a code exactly
  -- when that code's step is the first of the six that fails.
  pub evaluate_order_iff :
      (d : Decision) → (evaluate_order order menu policy_set store now ≡ d) ↔ Justified d
  evaluate_order_iff d = (λ e. rw e at evaluate_order-Justified, exact d)
    where
      exact : (d : Decision) → Justified d → evaluate_order order menu policy_set store now ≡ d
      exact (reject reason) h = evaluate_order_of_Refused reason h
      exact (accept key resource) h = evaluate_order_of_Permitted key resource h
