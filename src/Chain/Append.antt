-- ===== src/Chain/Append.antt =====
-- The rows of a chain: what a row that passes holds, and the rows that a signer writes.
use text.Mathlib.TextPositions.{eq_refl}
use tanaka.Prelude.{
  ℕ, String, ◌≡◌, refl, ap, true, ◌&&◌, Option, none, some, List, [], ◌∷◌, arith, Bool-cases, inl,
  inr,
}
use tanaka.Json.{Json, obj, str, get, without, has_keys, is_text, is_text-eq, Fields}
use tanaka.Json.Sort.{sort_keys, sort_fields}
use tanaka.Host.{Host}
use tanaka.Chain.{
  Table, passes, check_row, check_parsed, decode_sig, check_content, check_signature, excluded_keys,
  head_hash, last_row, stored_hash,
}
use tanaka.Chain.Spec.{Chained}

-- What a row that passes has shown.
pub record Passed (host : Host) (keys : List String) (key : host.PublicKey) (prev : String)
    (text : host.Bytes) (this_hash : String) : Type 0 where
  pub row : Fields
  pub parsed : host.loads text ≡ some (obj row)
  pub complete : (has_keys keys row && has_keys excluded_keys row) ≡ true
  pub hashed : this_hash ≡ host.sha256 (host.dumps (obj (without excluded_keys row)))
  pub names_itself : is_text (get "this_hash" row) this_hash ≡ true
  pub names_prev : is_text (get "prev_hash" row) prev ≡ true

module _ (host : Host) (keys : List String) (key : host.PublicKey) where
  open host use {Bytes, loads, dumps, sha256}

  check_signature_inv :
      (recomputed : String) (sig : Option Bytes) {h : String}
      → check_signature host key recomputed sig ≡ passes h
      → h ≡ recomputed
  unfolding check_signature
  check_signature_inv recomputed none e = cc
  check_signature_inv recomputed (some sig) e = ground arith

  check_content_inv :
      (prev : String) (row rest : Fields) {h : String}
      → check_content host key prev row rest ≡ passes h
      → (h ≡ sha256 (dumps (obj rest)))
        × (is_text (get "this_hash" row) (sha256 (dumps (obj rest))) ≡ true)
        × (is_text (get "prev_hash" row) prev ≡ true)
  unfolding check_content
  check_content_inv prev row rest e =
      let recomputed = sha256 (dumps (obj rest)) in
      elim (Bool-cases (is_text (get "this_hash" row) recomputed)) [
        | inl p ↦ elim (Bool-cases (is_text (get "prev_hash" row) prev)) [
          | inl q ↦ (
            check_signature_inv recomputed (decode_sig host (get "sig" row)) (rw (p, q) at e),
            p,
            q,
          )
          | inr q ↦ cc (rw (p, q) at e)
        ]
        | inr p ↦ cc (rw p at e)
      ]

  check_parsed_inv :
      (prev : String) (text : Bytes) (v : Option Json) {h : String}
      → loads text ≡ v
      → check_parsed host keys key prev v ≡ passes h
      → Passed host keys key prev text h
  unfolding check_parsed
  check_parsed_inv prev text (some (obj row)) e p =
      elim (Bool-cases (has_keys keys row && has_keys excluded_keys row)) [
        | inl c ↦
            let (hashed, itself, before) =
              check_content_inv prev row (without excluded_keys row) (rw (c, check_parsed) at p) in
            record {
              row = row;
              parsed = e;
              complete = c;
              hashed = hashed;
              names_itself = rw hashed itself;
              names_prev = before;
            }
        | inr c ↦ cc (rw (c, check_parsed) at p)
      ]
  check_parsed_inv prev text none e p = cc
  check_parsed_inv prev text _ e p = ground arith

  -- A row that passes is an object that holds every key, the hash of its own content, and the
  -- hash that the row before it has.
  pub check_row-Passed :
      (prev : String) (text : Bytes) {h : String}
      → check_row host keys key prev text ≡ passes h
      → Passed host keys key prev text h
  unfolding check_row
  check_row-Passed prev text p = check_parsed_inv prev text (loads text) refl p

  stored_hash_of_Passed :
      {prev : String} {text : Bytes} {h : String}
      → Passed host keys key prev text h
      → stored_hash host (loads text) ≡ some h
  unfolding stored_hash
  stored_hash_of_Passed {h = h} q =
      rw (q.parsed, stored_hash) (rw (is_text-eq (get "this_hash" q.row) h q.names_itself))

  last_row_of_Chained :
      (start : String) (seq : ℕ) (text : Bytes) (rows : Table Bytes) (last : String)
      → Chained host keys key ((seq, text) ∷ rows) start last
      → (final : Bytes) × (last_row host ((seq, text) ∷ rows) ≡ some final)
        × (stored_hash host (loads final) ≡ some last)
  last_row_of_Chained start seq text [] last (this_hash, pass, e) =
      (text, refl, rw (← e) (stored_hash_of_Passed (check_row-Passed start text pass)))
  last_row_of_Chained start seq text ((seq', text') ∷ rows) last (this_hash, pass, rest) =
      let (final, is_last, stored) = last_row_of_Chained this_hash seq' text' rows last rest in
      (final, ground (arith, is_last), stored)

  -- The head of a chain that checks is the hash that the last row has shown.
  pub head_hash_of_Chained :
      (genesis : String) (rows : Table Bytes) (last : String)
      → Chained host keys key rows genesis last
      → head_hash host genesis rows ≡ some last
  unfolding head_hash
  head_hash_of_Chained genesis [] last h = ap some h
  head_hash_of_Chained genesis ((seq, text) ∷ rows) last h =
      let (final, is_last, stored) = last_row_of_Chained genesis seq text rows last h in
      rw (is_last, head_hash) stored

-- A row that is written with the hash of its own content and the signer's signature passes.
module _ (host : Host) (keys : List String) (private_key : host.PrivateKey) where
  open host use {
    Bytes, dumps, sha256, encode, sign, public_key, b64encode, verify-sign, b64decode-b64encode,
    loads-dumps,
  }

  pub signed_row_passes :
      (row sorted : Fields) (prev this_hash : String)
      → sort_fields row ≡ sorted
      → (has_keys keys sorted && has_keys excluded_keys sorted) ≡ true
      → sha256 (dumps (obj (without excluded_keys sorted))) ≡ this_hash
      → get "this_hash" sorted ≡ some (str this_hash)
      → get "prev_hash" sorted ≡ some (str prev)
      → get "sig" sorted ≡ some (str (b64encode (sign private_key (encode this_hash))))
      → check_row host keys (public_key private_key) prev (dumps (obj row)) ≡ passes this_hash
  unfolding check_row sort_keys
  signed_row_passes row sorted prev this_hash order complete hashed itself before signed = rw (
    loads-dumps (obj row),
    order,
    check_parsed,
    complete,
    check_content,
    hashed,
    itself,
    before,
    signed,
    eq_refl this_hash,
    eq_refl prev,
    b64decode-b64encode,
    verify-sign,
  )
