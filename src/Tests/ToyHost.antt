-- ===== src/Tests/ToyHost.antt =====
-- A host that shows that the assumptions on the libraries can hold together: a text is kept as
-- the value that it was written from, the hash of a text is a rendering of it, and a signature is
-- the key followed by the hash. It stands for no real library.
use tanaka.Prelude.{
  String, ◌≡◌, refl, ap, Bool, true, false, Option, none, some, ◌==◌, eq_refl, eq_iff, Bool-cases,
  inl, inr, sym, ◌∙◌,
}
use mathlib.Core.Bool.{false≢true}
use tanaka.Prelude.Texts.{concat}
use tanaka.Json.{Json, null, bool, int, float, str, arr, obj, Items, nil, cons, Fields, end, field}
use tanaka.Json.Sort.{sort_keys}
use tanaka.Json.Sort.Laws.{sort_keys_idem}
use tanaka.Host.{Host, Loaded, loaded, undecodable}
use native.Mathlib.Decide.{ℕ_discrete}

pub data Blob : Type 0 where
  doc : Json → Blob
  raw : String → Blob

unfoldable mutual
  pub show : Json → String
  show null = "n"
  show (bool true) = "t"
  show (bool false) = "f"
  show (int _) = "i"
  show (float x) = concat "~" x
  show (str s) = concat "'" s
  show (arr xs) = concat "[" (show_items xs)
  show (obj fs) = concat "{" (show_fields fs)

  pub show_items : Items → String
  show_items nil = "]"
  show_items (cons x xs) = concat (show x) (show_items xs)

  pub show_fields : Fields → String
  show_fields end = "}"
  show_fields (field k v fs) = concat k (concat (show v) (show_fields fs))

String-discrete : Discrete String
String-discrete s t = elim (Bool-cases (s == t)) [
  | inl p ↦ yes ((eq_iff s t).0 p)
  | inr q ↦ no (λ e. false≢true (sym q ∙ (eq_iff s t).1 e))
]

Json-discrete : Discrete Json
Json-discrete = hlevel (ℕ_discrete, String-discrete)

pub Blob-discrete : Discrete Blob
Blob-discrete = hlevel (Json-discrete, String-discrete)

unfoldable pub hash : Blob → String
unfolding show
hash (doc v) = show v
hash (raw s) = s

unfoldable pub load : Blob → Option Json
load (doc v) = some v
load (raw _) = none

unfoldable pub load_sig : Blob → Loaded
load_sig (doc v) = loaded v
load_sig (raw _) = undecodable

pub load_sig_lem : (v : Json) → load_sig (doc v) ≡ loaded v
unfolding load_sig
load_sig_lem v = refl

unfoldable pub to_text : Blob → String
to_text (doc _) = ""
to_text (raw s) = s

unfoldable pub sign : String → Blob → Blob
unfolding hash
sign key m = raw (concat key (hash m))

unfoldable pub verify : String → Blob → Blob → Bool
unfolding hash
verify key (doc _) m = false
verify key (raw s) m = s == concat key (hash m)

pub load_lem : (v : Json) → load (doc v) ≡ some v
unfolding load
load_lem v = refl

pub decode_lem : (k : String) (m : Blob) → some (raw (to_text (sign k m))) ≡ some (sign k m)
unfolding sign to_text
decode_lem k m = refl

pub verify-sign : (k : String) (m : Blob) → verify k (sign k m) m ≡ true
unfolding verify sign
verify-sign k m = eq_refl (concat k (hash m))

abbrev pub toy : Host
toy = record {
  Bytes = Blob;
  bytes_discrete = Blob-discrete;
  PrivateKey = String;
  PublicKey = String;
  dumps = λ v. doc (sort_keys v);
  loads = load;
  dumps_plain = λ v. doc v;
  loads_sig = load_sig;
  encode = λ s. raw s;
  sha256 = hash;
  b64encode = to_text;
  b64decode = λ s. some (raw s);
  b64decode_strict = λ s. some (raw s);
  public_key = λ k. k;
  sign = sign;
  verify = verify;
  loads-dumps = λ v. load_lem (sort_keys v);
  loads-dumps_plain = load_lem;
  loads_sig-dumps_plain = load_sig_lem;
  dumps-sort_keys = λ v. ap doc (sort_keys_idem v);
  b64decode-b64encode = decode_lem;
  verify-sign = verify-sign;
  b64decode_strict-b64encode = decode_lem;
}
