-- ===== src/Host.antt =====
-- What the program takes from Python's standard library and from `cryptography`: `json`,
-- `hashlib`, `base64` and Ed25519 keys. None of it is the program's own code, so it is a
-- parameter of every definition that uses it, with the documented behaviour that is relied on.
use tanaka.Prelude.{String, ◌≡◌, Bool, true, Option, some}
use tanaka.Json.{Json}
use tanaka.Json.Sort.{sort_keys}

-- A reading of bytes as JSON: a value, a `JSONDecodeError` or `UnicodeDecodeError`, or another
-- exception, as the `ValueError` of an integer with more digits than Python converts.
pub data Loaded : Type 0 where
  loaded : Json → Loaded
  undecodable uncaught : Loaded

pub record Host : Type 1 where
  pub Bytes : Type 0
  pub bytes_discrete : Discrete Bytes
  pub PrivateKey : Type 0
  pub PublicKey : Type 0
  -- `json.dumps(v, sort_keys=True, separators=(",", ":")).encode("utf-8")`; a TEXT column holds
  -- the same bytes
  pub dumps : Json → Bytes
  -- `json.loads`; `none` is `JSONDecodeError`
  pub loads : Bytes → Option Json
  -- `json.dumps(v)`, with the fields of a dict in their own order
  pub dumps_plain : Json → Bytes
  -- `json.loads(b.decode("utf-8-sig"))`
  pub loads_sig : Bytes → Loaded
  -- `text.encode("utf-8")`
  pub encode : String → Bytes
  -- `hashlib.sha256(b).hexdigest()`
  pub sha256 : Bytes → String
  -- `base64.b64encode(b).decode("ascii")`, and `base64.b64decode`, with `none` for `binascii.Error`
  pub b64encode : Bytes → String
  pub b64decode : String → Option Bytes
  -- `base64.b64decode(s, validate=True)`
  pub b64decode_strict : String → Option Bytes
  pub public_key : PrivateKey → PublicKey
  pub sign : PrivateKey → Bytes → Bytes
  -- `key.verify(sig, msg)`; `false` is `InvalidSignature`
  pub verify : PublicKey → Bytes → Bytes → Bool
  -- what was dumped is read back, its fields in the order in which they were written
  pub loads-dumps : (v : Json) → loads (dumps v) ≡ some (sort_keys v)
  pub loads-dumps_plain : (v : Json) → loads (dumps_plain v) ≡ some v
  pub loads_sig-dumps_plain : (v : Json) → loads_sig (dumps_plain v) ≡ loaded v
  -- the order of a dict's fields does not show in what is written
  pub dumps-sort_keys : (v : Json) → dumps (sort_keys v) ≡ dumps v
  -- a signature survives base64, and verifies under the key's own public half
  pub b64decode-b64encode :
      (k : PrivateKey) (m : Bytes) → b64decode (b64encode (sign k m)) ≡ some (sign k m)
  pub verify-sign : (k : PrivateKey) (m : Bytes) → verify (public_key k) (sign k m) m ≡ true
  pub b64decode_strict-b64encode :
      (k : PrivateKey) (m : Bytes) → b64decode_strict (b64encode (sign k m)) ≡ some (sign k m)
