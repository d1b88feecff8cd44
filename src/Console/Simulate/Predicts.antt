-- ===== src/Console/Simulate/Predicts.antt =====
-- console/service.py: what a simulated verdict says of a real order.
use tanaka.Prelude.{
  ℕ, suc, String, ◌≡◌, refl, subst, ap, ◌∙◌, false, Option, none, some, List, [], ◌∷◌, lookup,
  Option-cases, inl, inr, if◌then◌else◌,
}
use tanaka.Json.{Json, null, bool, int, float, str, arr, obj, Items, nil, cons, Fields, get}
use tanaka.Spine.{Order, Capability}
use tanaka.Cashier.Scope.{in_scope, resource_of}
use tanaka.Cashier.Policy.{Policy, for_role}
use tanaka.Cashier.Store.{
  CashierStore, empty_store, nonce_is_spent, rate_count, count_recent, times_of,
}
use tanaka.Cashier.Engine.{Menu, Decision, reject, replay, check_args, check_policy, evaluate_order}
use tanaka.Console.Candidate.{valid_policy_list}
use tanaka.Console.Service.{
  Admin, role_author, Response, done, auth_error, bad_request, not_found, conflict, raised, ◌>>=◌,
  require_role, require_that,
}
use tanaka.Console.Simulate.{
  candidate_policy_set, sample_order, sample_verdict, Simulated, simulate_sample, simulate_one,
  simulate_items, simulate, policy_items, sample_items,
}

module _ (o p : Order) (menu : Menu) (policies : List Policy) (s t : CashierStore) (now later : ℕ)
    (e : o.principal ≡ p.principal) (f : o.role ≡ p.role) (g : o.capability_id ≡ p.capability_id)
    (h : o.args ≡ p.args) (i : nonce_is_spent s o.nonce ≡ nonce_is_spent t p.nonce)
    (j : rate_count s now o.principal o.capability_id
      ≡ rate_count t later p.principal p.capability_id) where
  check_args-agree :
      (c : Capability) (policy : Policy)
      → check_args o c policy s now ≡ check_args p c policy t later
  unfolding check_args
  check_args-agree c policy =
      let same : in_scope o.principal (resource_of c.scoped_input o.args)
          ≡ in_scope p.principal (resource_of c.scoped_input p.args) =
        rw (e, h) refl in
      elim (Option-cases (in_scope p.principal (resource_of c.scoped_input p.args))) [
        | inl x ↦ rw (same ∙ x, check_args, x) refl
        | inr (r, x) ↦ rw (same ∙ x, check_args, x, j) refl
      ]

  check_policy-agree :
      (c : Capability) (found : Option Policy)
      → check_policy o c found s now ≡ check_policy p c found t later
  unfolding check_policy
  check_policy-agree c none = refl
  check_policy-agree c (some policy) = rw (check_args-agree c policy, g) refl

  -- Of an order, the verdict takes the principal, the role, the capability's id and the arguments; of the store,
  -- whether the nonce is spent and how many orders count.
  pub evaluate_order-agree :
      evaluate_order o menu policies s now ≡ evaluate_order p menu policies t later
  unfolding evaluate_order
  evaluate_order-agree =
      let same : lookup o.capability_id menu ≡ lookup p.capability_id menu = rw g refl in
      elim (Option-cases (lookup p.capability_id menu)) [
        | inl x ↦ rw (same ∙ x, evaluate_order, x, i) refl
        | inr (c, x) ↦
            rw (same ∙ x, evaluate_order, x, i, f)
              (ap (λ d. if nonce_is_spent t p.nonce then reject replay else d)
                (check_policy-agree c (for_role policies p.role)))
      ]

-- A real order like a sample: the same principal, role, capability and arguments.
pub record IsLike (sample : Fields) (o : Order) : Type 0 where
  pub principal : get "principal" sample ≡ some (str o.principal)
  pub role : get "role" sample ≡ some (str o.role)
  pub capability_id : get "capability_id" sample ≡ some (str o.capability_id)
  pub args : get "args" sample ≡ some o.args

-- What the verdict on a sample predicts: the pipeline's verdict on a real order like the sample whose
-- nonce is unspent, where no order of the principal for the capability counts.
pub Predicts : Menu → List Policy → Json → Simulated → Type 0
Predicts menu policies (obj sample) r =
    (o : Order) (s : CashierStore) (now : ℕ)
    → IsLike sample o
    → nonce_is_spent s o.nonce ≡ false
    → rate_count s now o.principal o.capability_id ≡ 0
    → evaluate_order o menu policies s now ≡ r.verdict
Predicts menu policies _ r = Unit

pub AllPredict : Menu → List Policy → Items → List Simulated → Type 0
unfolding Predicts
AllPredict menu policies nil [] = Unit
AllPredict menu policies (cons s samples) (r ∷ rs) =
    Predicts menu policies s r × AllPredict menu policies samples rs
AllPredict menu policies _ _ = ⊥

done_inj :
    {r : Simulated} {d : Decision} {p q c : Json}
    → done (record { principal = p; role = q; capability_id = c; verdict = d }) ≡ done r
    → d ≡ r.verdict
done_inj h = cc h

simulate_one-Predicts :
    (menu : Menu) (policies : List Policy) (hex : String) (now : ℕ) (sample : Json) (r : Simulated)
    → simulate_one menu policies hex now sample ≡ done r
    → Predicts menu policies sample r
unfolding simulate_one simulate_sample sample_verdict Predicts sample_order nonce_is_spent
    rate_count times_of count_recent
simulate_one-Predicts menu policies hex now (obj sample) r e = λ o s real like fresh idle.
    let given : simulate_sample menu policies hex now (str o.principal) (str o.role)
          (str o.capability_id) (some o.args)
        ≡ done r =
      rw (like.principal, simulate_one, like.role, like.capability_id, like.args) at e in
    evaluate_order-agree o (sample_order hex (str o.principal) o.role o.capability_id (some o.args))
      menu policies s empty_store real now refl refl refl refl fresh idle
    ∙ done_inj given
simulate_one-Predicts menu policies hex now null r e = tt
simulate_one-Predicts menu policies hex now (bool _) r e = tt
simulate_one-Predicts menu policies hex now (int _) r e = tt
simulate_one-Predicts menu policies hex now (float _) r e = tt
simulate_one-Predicts menu policies hex now (str _) r e = tt
simulate_one-Predicts menu policies hex now (arr _) r e = tt

done-bind :
    {A B : Type 0} (x : Response A) (f : A → Response B) (b : B)
    → (x >>= f) ≡ done b
    → (a : A) × (x ≡ done a) × (f a ≡ done b)
done-bind (done a) f b h = (a, refl, h)
done-bind auth_error f b h = cc h
done-bind bad_request f b h = cc h
done-bind not_found f b h = cc h
done-bind conflict f b h = cc h
done-bind raised f b h = cc h

list_inj : {xs ys : List Simulated} → done xs ≡ done ys → xs ≡ ys
list_inj h = cc h

simulate_items-AllPredict :
    (menu : Menu) (policies : List Policy) (reading : ℕ → String × ℕ) (i : ℕ) (samples : Items)
    (rs : List Simulated)
    → simulate_items menu policies reading i samples ≡ done rs
    → AllPredict menu policies samples rs
unfolding simulate_items AllPredict
simulate_items-AllPredict menu policies reading i nil rs e =
    subst (λ rs. AllPredict menu policies nil rs) (list_inj e) tt
simulate_items-AllPredict menu policies reading i (cons s samples) rs e =
    let (r, e1, h1) = done-bind (simulate_one menu policies (reading i).0 (reading i).1 s) _ rs e in
    let (later, e2, h2) =
      done-bind (simulate_items menu policies reading (suc i) samples) _ rs h1 in
    subst (λ rs. AllPredict menu policies (cons s samples) rs) (list_inj h2)
      (
        simulate_one-Predicts menu policies (reading i).0 (reading i).1 s r e1,
        simulate_items-AllPredict menu policies reading (suc i) samples later e2,
      )

sample_items-arr : (v : Json) (xs : Items) → sample_items v ≡ done xs → v ≡ arr xs
unfolding sample_items
sample_items-arr (arr (cons x ys)) xs h =
    let same : cons x ys ≡ xs = cc h in ap (λ (zs : Items). arr zs) same
sample_items-arr (arr nil) xs h = cc h
sample_items-arr null xs h = cc h
sample_items-arr (bool _) xs h = cc h
sample_items-arr (int _) xs h = cc h
sample_items-arr (float _) xs h = cc h
sample_items-arr (str _) xs h = cc h
sample_items-arr (obj _) xs h = cc h

policy_items-arr : (v : Json) (xs : Items) → policy_items v ≡ done xs → v ≡ arr xs
unfolding policy_items
policy_items-arr (arr ys) xs h = let same : ys ≡ xs = cc h in ap (λ (zs : Items). arr zs) same
policy_items-arr null xs h = cc h
policy_items-arr (bool _) xs h = cc h
policy_items-arr (int _) xs h = cc h
policy_items-arr (float _) xs h = cc h
policy_items-arr (str _) xs h = cc h
policy_items-arr (obj _) xs h = cc h

-- The simulation is honest: if `simulate` answers, then the caller is an author, and the answer has one verdict for
-- each sample, which is the one that the pipeline gives, under the candidate's policies, on every
-- real order like the sample whose nonce is unspent and whose principal has no counted order for
-- the capability, whatever else the store holds and whatever the time.
pub simulate-AllPredict :
    (menu : Menu) (admin : Option Admin) (reading : ℕ → String × ℕ) (candidate sample_orders : Json)
    (rs : List Simulated)
    → simulate menu admin reading candidate sample_orders ≡ done rs
    → (a : Admin) × (samples : Items) × (ps : Items) × (policies : List Policy) × (require_role
          admin role_author
        ≡ done a)
      × (sample_orders ≡ arr samples)
      × (candidate ≡ arr ps)
      × (candidate_policy_set ps ≡ done policies)
      × AllPredict menu policies samples rs
unfolding simulate
simulate-AllPredict menu admin reading candidate sample_orders rs e =
    let (a, e1, h1) = done-bind (require_role admin role_author) _ rs e in
    let (_, e2, h2) =
      done-bind (require_that (valid_policy_list candidate) bad_request tt) _ rs h1 in
    let (samples, e3, h3) = done-bind (sample_items sample_orders) _ rs h2 in
    let (ps, e4, h4) = done-bind (policy_items candidate) _ rs h3 in
    let (policies, e5, h5) = done-bind (candidate_policy_set ps) _ rs h4 in
    (
      a,
      samples,
      ps,
      policies,
      e1,
      sample_items-arr sample_orders samples e3,
      policy_items-arr candidate ps e4,
      e5,
      simulate_items-AllPredict menu policies reading 0 samples rs h5,
    )
