-- ===== src/Cashier/Policy.antt =====
-- cashier/policy.py: what a role may order.
use tanaka.Prelude.{String, ◌==◌, ℤ, Option, none, some, List, [], ◌∷◌, if◌then◌else◌}

pub record Policy : Type 0 where
  pub role : String
  pub allowed_capabilities : List String
  pub rate_limit_per_hour : ℤ
  pub paused_capabilities : List String

-- `PolicySet.for_role`: the first policy of the role
unfoldable pub for_role : List Policy → String → Option Policy
for_role [] role = none
for_role (p ∷ ps) role = if p.role == role then some p else for_role ps role
