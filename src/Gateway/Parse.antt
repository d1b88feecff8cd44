-- ===== src/Gateway/Parse.antt =====
-- `parse_order`: an object with exactly the seven keys, texts under six of them and an object
-- under `args`.
pub mod Laws
pub mod Uncaught
use tanaka.Prelude.{
  ℕ, String, ◌==◌, Bool, true, false, ◌||◌, Option, none, some, List, [], ◌∷◌, elem, if◌then◌else◌,
}
use tanaka.Prelude.Texts.{str_leb, concat}
use tanaka.Json.{
  Json, null, bool, int, float, str, arr, obj, Fields, end, field, dict, get, has_key,
}
use tanaka.Host.{Host, Loaded, loaded, undecodable, uncaught}
use tanaka.Spine.{Order}

abbrev pub order_keys : List String
order_keys = "order_id" ∷ "principal" ∷ "role" ∷ "capability_id" ∷ "args" ∷ "nonce" ∷ "ts" ∷ []

-- Why an intake is no order.
pub data MalformedOrder : Type 0 where
  unparseable not_an_object args_not_object : MalformedOrder
  missing_key unknown_key key_not_string : String → MalformedOrder

unfoldable pub detail : MalformedOrder → String
detail unparseable = "unparseable JSON"
detail not_an_object = "order JSON is not an object"
detail (missing_key k) = concat "missing required key: " k
detail (unknown_key k) = concat "unknown key: " k
detail (key_not_string k) = concat "key must be a string: " k
detail args_not_object = "args must be an object"

-- An order, a `MalformedOrder`, or an exception that nothing catches.
pub data Parsed (A : Type 0) : Type 0 where
  ok : A → Parsed A
  malformed : MalformedOrder → Parsed A
  raised : Parsed A

infixl 5 ◌>>=◌
abbrev pub ◌>>=◌ : {A B : Type 0} → Parsed A → (A → Parsed B) → Parsed B
ok a >>= f = f a
malformed e >>= f = malformed e
raised >>= f = raised

-- `[k for k in ORDER_KEYS if k not in obj]`, its first
unfoldable pub first_missing : List String → Fields → Option String
first_missing [] fs = none
first_missing (k ∷ ks) fs = let rest = first_missing ks fs in if has_key k fs then rest else some k

-- `sorted(set(obj) - set(ORDER_KEYS))`, its first
unfoldable pub least_unknown : List String → Fields → Option String
least_unknown keys end = none
least_unknown keys (field k v fs) =
    let rest = least_unknown keys fs in
    if elem k keys
    then rest
    else elim rest [ none ↦ some k | some j ↦ some (if str_leb k j then k else j) ]

unfoldable pub require_none : Option String → (String → MalformedOrder) → Parsed Unit
require_none none e = ok tt
require_none (some k) e = malformed (e k)

-- `obj[key]`, where the key is there and must hold a text
unfoldable pub text_at : String → Option Json → Parsed String
text_at k (some (str s)) = ok s
text_at k _ = malformed (key_not_string k)

unfoldable pub object_at : Option Json → Parsed Json
object_at (some (obj fs)) = ok (obj fs)
object_at _ = malformed args_not_object

unfoldable pub parse_fields : Fields → Parsed Order
unfolding require_none text_at object_at
parse_fields fs = do
  _ ← require_none (first_missing order_keys fs) missing_key
  _ ← require_none (least_unknown order_keys fs) unknown_key
  order_id ← text_at "order_id" (get "order_id" fs)
  principal ← text_at "principal" (get "principal" fs)
  role ← text_at "role" (get "role" fs)
  capability_id ← text_at "capability_id" (get "capability_id" fs)
  nonce ← text_at "nonce" (get "nonce" fs)
  ts ← text_at "ts" (get "ts" fs)
  args ← object_at (get "args" fs)
  ok (record {
    order_id = order_id;
    principal = principal;
    role = role;
    capability_id = capability_id;
    args = args;
    nonce = nonce;
    ts = ts;
  })

unfoldable pub parse_object : Loaded → Parsed Order
parse_object undecodable = malformed unparseable
parse_object uncaught = raised
parse_object (loaded (obj fs)) = parse_fields fs
parse_object (loaded _) = malformed not_an_object

-- For bytes, as they arrive on stdin.
unfoldable pub parse_order : (host : Host) → host.Bytes → Parsed Order
parse_order host text = parse_object (host.loads_sig text)
