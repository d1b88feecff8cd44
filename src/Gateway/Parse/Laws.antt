-- ===== src/Gateway/Parse/Laws.antt =====
-- `parse_order` of gateway.py beside a description of the wire format.
use tanaka.Prelude.{
  String, ◌≡◌, ◌↔◌, refl, true, Option, none, some, List, [], ◌∷◌, elem, arith, Bool-cases, inl,
  inr,
}
use tanaka.Json.{Json, null, str, obj, Fields, end, field, dict, get, has_key}
use tanaka.Host.{Host, Loaded, loaded, undecodable, uncaught}
use tanaka.Spine.{Order}
use tanaka.Gateway.Parse.{
  order_keys, Parsed, ok, malformed, raised, first_missing, least_unknown, require_none, text_at,
  object_at, parse_fields, parse_object, parse_order, ◌>>=◌, MalformedOrder, missing_key,
  unknown_key,
}

-- The order as the wire format has it.
abbrev pub order_json : Order → Fields → Json
order_json o args = obj (
    dict (
      ("order_id", str o.order_id)
      ∷ ("principal", str o.principal)
      ∷ ("role", str o.role)
      ∷ ("capability_id", str o.capability_id)
      ∷ ("args", obj args)
      ∷ ("nonce", str o.nonce)
      ∷ ("ts", str o.ts)
      ∷ []))

-- Every key of the fields is one of `keys`.
abbrev pub OnlyKeys : List String → Fields → Type 0
OnlyKeys keys end = Unit
OnlyKeys keys (field k v fs) = (elem k keys ≡ true) × OnlyKeys keys fs

-- The fields of an object that is the order `o`: the seven keys with these values, and no other.
pub record IsOrderJson (o : Order) (fs : Fields) : Type 0 where
  pub only : OnlyKeys order_keys fs
  pub order_id : get "order_id" fs ≡ some (str o.order_id)
  pub principal : get "principal" fs ≡ some (str o.principal)
  pub role : get "role" fs ≡ some (str o.role)
  pub capability_id : get "capability_id" fs ≡ some (str o.capability_id)
  pub nonce : get "nonce" fs ≡ some (str o.nonce)
  pub ts : get "ts" fs ≡ some (str o.ts)
  pub args_fields : Fields
  pub args_are : o.args ≡ obj args_fields
  pub args : get "args" fs ≡ some (obj args_fields)

least_unknown_iff :
    (keys : List String) (fs : Fields) → (least_unknown keys fs ≡ none) ↔ OnlyKeys keys fs
unfolding least_unknown
least_unknown_iff keys end = (λ _. tt, λ _. refl)
least_unknown_iff keys (field k v fs) = elim (Bool-cases (elem k keys)) [
  | inl known ↦ (
    λ h. (known, (least_unknown_iff keys fs).0 (rw (known, least_unknown) at h)),
    λ (_, rest). rw (known, least_unknown) ((least_unknown_iff keys fs).1 rest),
  )
  | inr unknown ↦ (λ h. ground (arith), λ (known, _). cc (known, unknown))
]

has_key_of_get : (k : String) (fs : Fields) (v : Json) → get k fs ≡ some v → has_key k fs ≡ true
has_key_of_get k end v h = cc
has_key_of_get k (field j w fs) v h = ground (arith, has_key_of_get k fs v)

text_at_inv : (k : String) (v : Option Json) {s : String} → text_at k v ≡ ok s → v ≡ some (str s)
unfolding text_at
text_at_inv k v h = ground arith

object_at_inv :
    (v : Option Json) {j : Json}
    → object_at v ≡ ok j
    → (fs : Fields) × (j ≡ obj fs) × (v ≡ some (obj fs))
unfolding object_at
object_at_inv v h = ground arith

bind_inv :
    {A B : Type 0} (m : Parsed A) (f : A → Parsed B) {b : B}
    → (m >>= f) ≡ ok b
    → (a : A) × (m ≡ ok a) × (f a ≡ ok b)
bind_inv (ok a) f h = (a, refl, h)
bind_inv (malformed e) f h = cc
bind_inv raised f h = cc h

require_none_inv :
    (o : Option String) (e : String → MalformedOrder) {u : Unit {0}}
    → require_none o e ≡ ok u
    → o ≡ none
unfolding require_none
require_none_inv none e h = refl
require_none_inv (some k) e h = cc

parse_fields_sound : (fs : Fields) (o : Order) → parse_fields fs ≡ ok o → IsOrderJson o fs
unfolding parse_fields
parse_fields_sound fs o h =
    let (_, _, h₁) = bind_inv (require_none (first_missing order_keys fs) missing_key) _ h in
    let (_, known, h₂) = bind_inv (require_none (least_unknown order_keys fs) unknown_key) _ h₁ in
    let (order_id, e₁, h₃) = bind_inv (text_at "order_id" (get "order_id" fs)) _ h₂ in
    let (principal, e₂, h₄) = bind_inv (text_at "principal" (get "principal" fs)) _ h₃ in
    let (role, e₃, h₅) = bind_inv (text_at "role" (get "role" fs)) _ h₄ in
    let (capability_id, e₄, h₆) =
      bind_inv (text_at "capability_id" (get "capability_id" fs)) _ h₅ in
    let (nonce, e₅, h₇) = bind_inv (text_at "nonce" (get "nonce" fs)) _ h₆ in
    let (ts, e₆, h₈) = bind_inv (text_at "ts" (get "ts" fs)) _ h₇ in
    let (args, e₇, h₉) = bind_inv (object_at (get "args" fs)) _ h₈ in
    let (inner, args_are, given) = object_at_inv (get "args" fs) e₇ in
    let built : record {
      order_id = order_id;
      principal = principal;
      role = role;
      capability_id = capability_id;
      args = args;
      nonce = nonce;
      ts = ts;
    }
        ≡ o =
      cc h₉ in
    rw (← built) (record {
      only =
          (least_unknown_iff order_keys fs).0
            (require_none_inv (least_unknown order_keys fs) unknown_key known);
      order_id = text_at_inv "order_id" (get "order_id" fs) e₁;
      principal = text_at_inv "principal" (get "principal" fs) e₂;
      role = text_at_inv "role" (get "role" fs) e₃;
      capability_id = text_at_inv "capability_id" (get "capability_id" fs) e₄;
      nonce = text_at_inv "nonce" (get "nonce" fs) e₅;
      ts = text_at_inv "ts" (get "ts" fs) e₆;
      args_fields = inner;
      args_are = args_are;
      args = given;
    })

nothing_missing : (o : Order) (fs : Fields) → IsOrderJson o fs → first_missing order_keys fs ≡ none
unfolding first_missing
nothing_missing o fs h = rw (
  has_key_of_get "order_id" fs _ h.order_id,
  has_key_of_get "principal" fs _ h.principal,
  has_key_of_get "role" fs _ h.role,
  has_key_of_get "capability_id" fs _ h.capability_id,
  has_key_of_get "args" fs _ h.args,
  has_key_of_get "nonce" fs _ h.nonce,
  has_key_of_get "ts" fs _ h.ts,
)

parse_fields_complete : (fs : Fields) (o : Order) → IsOrderJson o fs → parse_fields fs ≡ ok o
unfolding parse_fields
parse_fields_complete fs o h =
    rw
      (
        nothing_missing o fs h,
        (least_unknown_iff order_keys fs).1 h.only,
        h.order_id,
        h.principal,
        h.role,
        h.capability_id,
        h.nonce,
        h.ts,
        h.args,
      )
      (rw (← h.args_are))

-- The bytes of an intake are admitted as the order `o` exactly when they are the JSON of an object
-- that has the seven keys with the values of `o`, texts and an object under `args`, and no other
-- key.
pub parse_order_iff :
    (host : Host) (text : host.Bytes) (o : Order)
    → (parse_order host text ≡ ok o)
      ↔ ((fs : Fields) × (host.loads_sig text ≡ loaded (obj fs)) × IsOrderJson o fs)
unfolding parse_order parse_object
parse_order_iff host text o = (
  λ h. sound (host.loads_sig text) refl h,
  λ (fs, e, is). rw (e, parse_object) (parse_fields_complete fs o is),
)
  where
    sound :
        (v : Loaded)
        → host.loads_sig text ≡ v
        → parse_object v ≡ ok o
        → (fs : Fields) × (host.loads_sig text ≡ loaded (obj fs)) × IsOrderJson o fs
    sound (loaded (obj fs)) e h = (fs, e, parse_fields_sound fs o h)
    sound undecodable e h = cc
    sound uncaught e h = cc
    sound (loaded null) e h = cc
    sound (loaded _) e h = cc

-- An order whose arguments are an object, written out as JSON, is read back as it was.
pub parse_order-dumps :
    (host : Host) (o : Order) (args : Fields)
    → o.args ≡ obj args
    → parse_order host (host.dumps_plain (order_json o args)) ≡ ok o
parse_order-dumps host o args e = (parse_order_iff host _ o).1 (
  _,
  host.loads_sig-dumps_plain (order_json o args),
  record {
    only = (refl, (refl, (refl, (refl, (refl, (refl, (refl, tt)))))));
    order_id = refl;
    principal = refl;
    role = refl;
    capability_id = refl;
    nonce = refl;
    ts = refl;
    args_fields = args;
    args_are = e;
    args = refl;
  },
)
