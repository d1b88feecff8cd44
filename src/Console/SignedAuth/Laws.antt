-- ===== src/Console/SignedAuth/Laws.antt =====
-- Whom the server takes a request to come from.
use tanaka.Prelude.{
  ℕ, ◌≤◌, String, ◌==◌, ◌≡◌, refl, true, false, Option, none, some, List, lookup, ltb, ℤ, pos,
  arith, Bool-cases, Option-cases, inl, inr,
}
use tanaka.Host.{Host}
use tanaka.Console.Service.{Admin}
use tanaka.Console.SignedAuth.{
  Numerals, KeyEntry, Headers, present, skew, signing_bytes, sign_headers, verify_entry,
  verify_request,
}

module _ (host : Host) (numerals : Numerals) where
  open host use {
    Bytes, PrivateKey, PublicKey, sign, verify, public_key, b64encode, b64decode_strict,
    verify-sign, b64decode_strict-b64encode,
  }
  open numerals use {int_of, int_of-decimal, decimal-nonempty}

  -- A request that is signed, at a time near `now`, by the key that the registry has for the admin.
  pub record IsAuthentic (registry : List (String × KeyEntry PublicKey)) (method path : String)
      (body : Bytes) (headers : Headers) (now : ℕ) (admin : Admin) : Type 0 where
    pub named : headers.admin_id ≡ some admin.id
    pub entry : KeyEntry PublicKey
    pub registered : lookup admin.id registry ≡ some entry
    pub role : admin.role ≡ entry.role
    pub ts_raw : String
    pub dated : headers.timestamp ≡ some ts_raw
    pub ts : ℤ
    pub ts_is : int_of ts_raw ≡ some ts
    pub fresh : skew now ts ≤ 300
    pub sig_b64 : String
    pub signature : headers.signature ≡ some sig_b64
    pub sig : Bytes
    pub sig_is : b64decode_strict sig_b64 ≡ some sig
    pub signed :
        verify entry.public_key sig (signing_bytes host numerals method path admin.id ts body)
        ≡ true

  present_inv : (h : Option String) {s : String} → present h ≡ some s → h ≡ some s
  unfolding present
  present_inv none e = cc
  present_inv (some t) e = ground arith

  -- What a successful `verify_entry` has found.
  record Verified (entry : KeyEntry PublicKey) (admin_id method path : String) (body : Bytes)
      (ts_raw sig_b64 : String) (now : ℕ) (admin : Admin) : Type 0 where
    admin_is : admin ≡ record { id = admin_id; role = entry.role }
    ts : ℤ
    ts_is : int_of ts_raw ≡ some ts
    fresh : skew now ts ≤ 300
    sig : Bytes
    sig_is : b64decode_strict sig_b64 ≡ some sig
    signed :
        verify entry.public_key sig (signing_bytes host numerals method path admin_id ts body)
        ≡ true

  verify_entry_inv :
      (entry : KeyEntry PublicKey) (admin_id method path : String) (body : Bytes)
      (ts_raw sig_b64 : String) (now : ℕ) {admin : Admin}
      → verify_entry host numerals entry admin_id method path body ts_raw sig_b64 now ≡ some admin
      → Verified entry admin_id method path body ts_raw sig_b64 now admin
  unfolding verify_entry
  verify_entry_inv entry admin_id method path body ts_raw sig_b64 now h =
      elim (Option-cases (int_of ts_raw)) [
        | inl no_number ↦ cc (rw (no_number, verify_entry) at h)
        | inr (ts, ts_is) ↦ elim (Bool-cases (ltb 300 (skew now ts))) [
          | inl stale ↦ cc (rw (ts_is, verify_entry, stale) at h)
          | inr fresh ↦ elim (Option-cases (b64decode_strict sig_b64)) [
            | inl no_sig ↦ cc (rw (ts_is, verify_entry, fresh, no_sig) at h)
            | inr (sig, sig_is) ↦
                elim (Bool-cases (
                  verify entry.public_key sig
                    (signing_bytes host numerals method path admin_id ts body))) [
                      | inl signed ↦ record {
                        admin_is = cc (rw (ts_is, verify_entry, fresh, sig_is, signed) at h);
                        ts = ts;
                        ts_is = ts_is;
                        fresh = ground (arith, fresh);
                        sig = sig;
                        sig_is = sig_is;
                        signed = signed;
                      }
                      | inr forged ↦ cc (rw (ts_is, verify_entry, fresh, sig_is, forged) at h)
                    ]
          ]
        ]
      ]

  -- A request is taken to come from an admin only if it names that admin, the registry has a key for
  -- them with their role, its timestamp is at most 300 seconds from now, and its signature verifies
  -- under that key over the method, the path, the admin, the timestamp and the body.
  pub verify_request-IsAuthentic :
      (registry : List (String × KeyEntry PublicKey)) (method path : String) (body : Bytes)
      (headers : Headers) (now : ℕ) (admin : Admin)
      → verify_request host numerals registry method path body headers now ≡ some admin
      → IsAuthentic registry method path body headers now admin
  unfolding verify_request
  verify_request-IsAuthentic registry method path body headers now admin h =
      elim (Option-cases (present headers.admin_id)) [
        | inl gone ↦ cc (rw (gone, verify_request) at h)
        | inr (admin_id, e₁) ↦ elim (Option-cases (present headers.timestamp)) [
          | inl gone ↦ cc (rw (e₁, verify_request, gone) at h)
          | inr (ts_raw, e₂) ↦ elim (Option-cases (present headers.signature)) [
            | inl gone ↦ cc (rw (e₁, verify_request, e₂, gone) at h)
            | inr (sig_b64, e₃) ↦ elim (Option-cases (lookup admin_id registry)) [
              | inl gone ↦ cc (rw (e₁, verify_request, e₂, e₃, gone) at h)
              | inr (entry, e₄) ↦
                  let v =
                    verify_entry_inv entry admin_id method path body ts_raw sig_b64 now
                      (rw (e₁, verify_request, e₂, e₃, e₄) at h) in
                  rw v.admin_is (record {
                    named = present_inv headers.admin_id e₁;
                    entry = entry;
                    registered = e₄;
                    role = refl;
                    ts_raw = ts_raw;
                    dated = present_inv headers.timestamp e₂;
                    ts = v.ts;
                    ts_is = v.ts_is;
                    fresh = v.fresh;
                    sig_b64 = sig_b64;
                    signature = present_inv headers.signature e₃;
                    sig = v.sig;
                    sig_is = v.sig_is;
                    signed = v.signed;
                  })
            ]
          ]
        ]
      ]

  present-some : (s : String) → (s == "") ≡ false → present (some s) ≡ some s
  unfolding present
  present-some s h = rw (h, present) refl

  -- A request that an admin signs with their own key, under a name that is not empty, is taken to
  -- come from them as long as it arrives within 300 seconds of its timestamp, before or after.
  pub verify_request-sign_headers :
      (registry : List (String × KeyEntry PublicKey)) (private_key : PrivateKey)
      (admin_id role method path : String) (body : Bytes) (signed_at now : ℕ)
      → (admin_id == "") ≡ false
      → (b64encode (
            sign private_key
              (signing_bytes host numerals method path admin_id (pos signed_at) body))
          == "")
        ≡ false
      → lookup admin_id registry
        ≡ some (record { public_key = public_key private_key; role = role })
      → skew now (pos signed_at) ≤ 300
      → verify_request host numerals registry method path body
          (sign_headers host numerals private_key admin_id method path body signed_at)
          now
        ≡ some (record { id = admin_id; role = role })
  unfolding verify_request verify_entry sign_headers
  verify_request-sign_headers registry private_key admin_id role method path body signed_at now
        named signature registered fresh =
      let near : ltb 300 (skew now (pos signed_at)) ≡ false = ground (arith, fresh) in
      rw
        (
          present-some admin_id named,
          verify_request,
          present-some (numerals.decimal (pos signed_at)) (decimal-nonempty (pos signed_at)),
          present-some _ signature,
          registered,
          int_of-decimal (pos signed_at),
          verify_entry,
          near,
          b64decode_strict-b64encode private_key _,
          verify-sign private_key _,
        )
        refl
