-- ===== src/Gateway/Parse/Uncaught.antt =====
-- `parse_order`: the only exception besides `MalformedOrder` is that of `json.loads`.
use tanaka.Prelude.{String, ◌≡◌, refl, subst, Option, none, some}
use tanaka.Json.{Json, null, bool, int, float, str, arr, obj, Fields, get}
use tanaka.Host.{Host, Loaded, loaded, undecodable, uncaught}
use tanaka.Gateway.Parse.{
  MalformedOrder, missing_key, unknown_key, Parsed, ok, malformed, raised, ◌>>=◌, order_keys,
  first_missing, least_unknown, require_none, text_at, object_at, parse_fields, parse_object,
  parse_order,
}

-- An order or a `MalformedOrder`.
IsCaught : {A : Type 0} → Parsed A → Type 0
IsCaught raised = ⊥
IsCaught _ = Unit

bind-IsCaught :
    {A B : Type 0} (x : Parsed A) (f : A → Parsed B)
    → IsCaught x
    → ((a : A) → IsCaught (f a))
    → IsCaught (x >>= f)
unfolding IsCaught
bind-IsCaught (ok a) f h k = k a
bind-IsCaught (malformed e) f h k = tt
bind-IsCaught raised f h k = h

require_none-IsCaught :
    (o : Option String) (e : String → MalformedOrder) → IsCaught (require_none o e)
unfolding require_none IsCaught
require_none-IsCaught none e = tt
require_none-IsCaught (some k) e = tt

text_at-IsCaught : (k : String) (v : Option Json) → IsCaught (text_at k v)
unfolding text_at IsCaught
text_at-IsCaught k (some (str s)) = tt
text_at-IsCaught k none = tt
text_at-IsCaught k (some null) = tt
text_at-IsCaught k (some (bool _)) = tt
text_at-IsCaught k (some (int _)) = tt
text_at-IsCaught k (some (float _)) = tt
text_at-IsCaught k (some (arr _)) = tt
text_at-IsCaught k (some (obj _)) = tt

object_at-IsCaught : (v : Option Json) → IsCaught (object_at v)
unfolding object_at IsCaught
object_at-IsCaught (some (str s)) = tt
object_at-IsCaught none = tt
object_at-IsCaught (some null) = tt
object_at-IsCaught (some (bool _)) = tt
object_at-IsCaught (some (int _)) = tt
object_at-IsCaught (some (float _)) = tt
object_at-IsCaught (some (arr _)) = tt
object_at-IsCaught (some (obj _)) = tt

text-IsCaught :
    {B : Type 0} (k : String) (fs : Fields) (f : String → Parsed B)
    → ((s : String) → IsCaught (f s))
    → IsCaught (text_at k (get k fs) >>= f)
text-IsCaught k fs f h = bind-IsCaught (text_at k (get k fs)) f (text_at-IsCaught k (get k fs)) h

parse_fields-IsCaught : (fs : Fields) → IsCaught (parse_fields fs)
unfolding parse_fields IsCaught
parse_fields-IsCaught fs =
    bind-IsCaught _ _ (require_none-IsCaught (first_missing order_keys fs) missing_key) (λ _.
      bind-IsCaught _ _ (require_none-IsCaught (least_unknown order_keys fs) unknown_key) (λ _.
        text-IsCaught "order_id" fs _ (λ _. text-IsCaught "principal" fs _ (λ _.
          text-IsCaught "role" fs _ (λ _. text-IsCaught "capability_id" fs _ (λ _.
            text-IsCaught "nonce" fs _ (λ _.
              text-IsCaught "ts" fs _
                (λ _. bind-IsCaught _ _ (object_at-IsCaught (get "args" fs)) (λ _. tt)))))))))

parse_object-raised : (v : Loaded) → parse_object v ≡ raised → v ≡ uncaught
unfolding parse_object IsCaught
parse_object-raised uncaught e = refl
parse_object-raised undecodable e = cc e
parse_object-raised (loaded (obj fs)) e =
    absurd (subst (λ x. IsCaught x) e (parse_fields-IsCaught fs))
parse_object-raised (loaded null) e = cc e
parse_object-raised (loaded (bool _)) e = cc e
parse_object-raised (loaded (int _)) e = cc e
parse_object-raised (loaded (float _)) e = cc e
parse_object-raised (loaded (str _)) e = cc e
parse_object-raised (loaded (arr _)) e = cc e

pub uncaught_of_raised :
    (host : Host) (text : host.Bytes)
    → parse_order host text ≡ raised
    → host.loads_sig text ≡ uncaught
unfolding parse_order
uncaught_of_raised host text e = parse_object-raised (host.loads_sig text) e
