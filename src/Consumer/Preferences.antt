-- ===== src/Consumer/Preferences.antt =====
-- consumer/preferences.py and the verdict of consumer/approval.py: what the user has chosen for
-- each capability.
use tanaka.Prelude.{String, Bool, Option, none, some, List, lookup, insert, if◌then◌else◌}
use tanaka.Spine.{Capability}

pub data Permission : Type 0 where
  allow ask block : Permission

-- `saved` is what the preferences' file holds, where there is a file.
pub record Preferences : Type 0 where
  pub settings : List (String × Permission)
  pub saved : Option (List (String × Permission))

unfoldable pub effective_state : Preferences → Capability → Permission
effective_state p capability = elim (lookup capability.id p.settings) [
  | some explicit ↦ explicit
  | none ↦ if capability.requires_user_confirmation then ask else allow
]

unfoldable pub set_preference : Preferences → String → Permission → Preferences
set_preference p capability_id state = record p { settings = insert capability_id state p.settings }

unfoldable pub save_if_persistent : Preferences → Preferences
save_if_persistent p = elim p.saved [ none ↦ p | some _ ↦ record p { saved = some p.settings } ]

pub record ApprovalDecision : Type 0 where
  pub allowed : Bool
  pub remember : Bool
