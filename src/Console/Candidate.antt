-- ===== src/Console/Candidate.antt =====
-- console/service.py: the tests on a list of policies that an operator sends.
use tanaka.Prelude.{
  String, ◌==◌, Bool, true, false, ◌&&◌, Option, none, some, List, [], ◌∷◌, lookup, if◌then◌else◌,
}
use tanaka.Prelude.Texts.{str_leb}
use tanaka.Json.{Json, int, str, arr, obj, Items, nil, cons, Fields, end, field, get}
use tanaka.Cashier.Engine.{Menu}

is_text_value : Option Json → Bool
is_text_value (some (str _)) = true
is_text_value _ = false

is_list : Option Json → Bool
is_list (some (arr _)) = true
is_list _ = false

-- `isinstance(v, int) and not isinstance(v, bool)`
is_int : Option Json → Bool
is_int (some (int _)) = true
is_int _ = false

-- `p.get("paused_capabilities", [])` is a list
absent_or_list : Option Json → Bool
absent_or_list none = true
absent_or_list v = is_list v

unfoldable pub valid_policy : Json → Bool
unfolding is_text_value is_list is_int absent_or_list
valid_policy (obj p) =
    is_text_value (get "role" p)
    && is_list (get "allowed_capabilities" p)
    && is_int (get "rate_limit_per_hour" p)
    && absent_or_list (get "paused_capabilities" p)
valid_policy _ = false

unfoldable pub valid_policies : Items → Bool
valid_policies nil = true
valid_policies (cons p ps) = valid_policy p && valid_policies ps

-- `_validate_policy_list` does not raise `BadRequestError`.
unfoldable pub valid_policy_list : Json → Bool
valid_policy_list (arr (cons p ps)) = valid_policies (cons p ps)
valid_policy_list _ = false

characters : String → Items
characters String.[] = nil
characters (String.◌∷◌ c s) = cons (str (String.◌∷◌ c String.[])) (characters s)

key_items : Fields → Items
key_items end = nil
key_items (field k v fs) = cons (str k) (key_items fs)

-- What a `for` loop goes through; `none` is a `TypeError`.
iterated : Json → Option Items
unfolding characters key_items
iterated (arr xs) = some xs
iterated (obj fs) = some (key_items fs)
iterated (str s) = some (characters s)
iterated _ = none

-- A set of texts in the order of `sorted`.
add_sorted : String → List String → List String
add_sorted s [] = s ∷ []
add_sorted s (t ∷ ts) =
    let rest = add_sorted s ts in
    if s == t then t ∷ ts else if str_leb s t then s ∷ t ∷ ts else t ∷ rest

-- The catalog's answer on one id of a grant: an id that cannot be hashed is a `TypeError`.
unfoldable pub flag_capability : Menu → Json → List String → Option (List String)
unfolding add_sorted
flag_capability catalog (str id) flagged = elim (lookup id catalog) [
  | none ↦ some flagged
  | some capability ↦
      some (if capability.requires_second_admin then add_sorted id flagged else flagged)
]
flag_capability catalog (arr _) flagged = none
flag_capability catalog (obj _) flagged = none
flag_capability catalog _ flagged = some flagged

unfoldable pub flag_grant : Menu → Items → List String → Option (List String)
flag_grant catalog nil flagged = some flagged
flag_grant catalog (cons id ids) flagged = elim (flag_capability catalog id flagged) [
  | none ↦ none
  | some flagged' ↦ flag_grant catalog ids flagged'
]

-- `p.get("allowed_capabilities", [])`, to go through
granted_by : Fields → Option Items
unfolding iterated
granted_by p = elim (get "allowed_capabilities" p) [ none ↦ some nil | some v ↦ iterated v ]

unfoldable pub flag_policies : Menu → Items → List String → Option (List String)
unfolding granted_by
flag_policies catalog nil flagged = some flagged
flag_policies catalog (cons (obj p) ps) flagged = elim (granted_by p) [
  | none ↦ none
  | some ids ↦ elim (flag_grant catalog ids flagged) [
    | none ↦ none
    | some flagged' ↦ flag_policies catalog ps flagged'
  ]
]
flag_policies catalog (cons _ ps) flagged = none

-- `_needs_second_admin`, with `none` for an exception
unfoldable pub needs_second_admin : Menu → Json → Option (List String)
unfolding iterated
needs_second_admin catalog policies = elim (iterated policies) [
  | none ↦ none
  | some ps ↦ flag_policies catalog ps []
]
