-- ===== src/Console/SignedAuth.antt =====
-- console/signed_auth.py: the headers that prove who sends a request, and the server's test.
pub mod Laws
use tanaka.Prelude.{
  ◌≡◌, ℕ, ◌+◌, ◌-◌, String, ◌==◌, Bool, true, false, ◌||◌, not, Option, none, some, List, [], ◌∷◌,
  lookup, ltb, ℤ, pos, negsuc, if◌then◌else◌,
}
use tanaka.Prelude.Texts.{concat}
use tanaka.Host.{Host}
use tanaka.Console.Service.{Admin}

abbrev pub default_max_skew_seconds : ℕ
default_max_skew_seconds = 300

-- `method.upper()`, `str(ts)`, and `int(text)` with `none` for `ValueError`.
pub record Numerals : Type 0 where
  pub upper : String → String
  pub decimal : ℤ → String
  pub int_of : String → Option ℤ
  pub int_of-decimal : (n : ℤ) → int_of (decimal n) ≡ some n
  pub decimal-nonempty : (n : ℤ) → (decimal n == "") ≡ false

pub record KeyEntry (K : Type 0) : Type 0 where
  pub public_key : K
  pub role : String

-- The three headers, each `none` where it is missing.
pub record Headers : Type 0 where
  pub admin_id : Option String
  pub timestamp : Option String
  pub signature : Option String

-- `header(…)`, where a missing one and an empty one count alike
unfoldable pub present : Option String → Option String
present none = none
present (some s) = if s == "" then none else some s

-- `abs(int(now) - ts)`
unfoldable pub skew : ℕ → ℤ → ℕ
skew now (pos ts) = (now - ts) + (ts - now)
skew now (negsuc n) = now + n + 1

module _ (host : Host) (numerals : Numerals) where
  open host use {
    Bytes, PrivateKey, PublicKey, encode, sha256, sign, verify, b64encode, b64decode_strict,
  }
  open numerals use {upper, decimal, int_of}

  unfoldable pub signing_bytes : String → String → String → ℤ → Bytes → Bytes
  signing_bytes method path admin_id ts body = encode (
      concat "sentinel-console-auth-1\n" (
        concat (upper method) (
          concat "\n" (
            concat path (
              concat "\n" (
                concat admin_id
                  (concat "\n" (concat (decimal ts) (concat "\n" (sha256 body))))))))))

  unfoldable pub sign_headers : PrivateKey → String → String → String → Bytes → ℕ → Headers
  sign_headers private_key admin_id method path body now = record {
    admin_id = some admin_id;
    timestamp = some (decimal (pos now));
    signature =
        some (b64encode (sign private_key (signing_bytes method path admin_id (pos now) body)));
  }

  -- The tests from the timestamp on, for an admin who is known.
  unfoldable pub verify_entry :
      KeyEntry PublicKey → String → String → String → Bytes → String → String → ℕ → Option Admin
  verify_entry entry admin_id method path body ts_raw sig_b64 now = elim (int_of ts_raw) [
    | none ↦ none
    | some ts ↦
        if ltb default_max_skew_seconds (skew now ts)
        then none
        else elim (b64decode_strict sig_b64) [
          | none ↦ none
          | some sig ↦
              if verify entry.public_key sig (signing_bytes method path admin_id ts body)
              then some (record { id = admin_id; role = entry.role })
              else none
        ]
  ]

  -- `verify`; `none` is the answer 401.
  unfoldable pub verify_request :
      List (String × KeyEntry PublicKey) → String → String → Bytes → Headers → ℕ → Option Admin
  unfolding present
  verify_request registry method path body headers now = elim (present headers.admin_id) [
    | none ↦ none
    | some admin_id ↦ elim (present headers.timestamp) [
      | none ↦ none
      | some ts_raw ↦ elim (present headers.signature) [
        | none ↦ none
        | some sig_b64 ↦ elim (lookup admin_id registry) [
          | none ↦ none
          | some entry ↦ verify_entry entry admin_id method path body ts_raw sig_b64 now
        ]
      ]
    ]
  ]
