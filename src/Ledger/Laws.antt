-- ===== src/Ledger/Laws.antt =====
-- `Ledger.append` beside verify_ledger.py.
use tanaka.Prelude.{
  ℕ, ◌+◌, String, ◌≡◌, refl, ap, ◌∙◌, some, [], ◌∷◌, ◌++◌, length, length-append, arith,
}
use tanaka.Json.{obj, without}
use tanaka.Json.Sort.{sort_keys, sort_fields}
use tanaka.Host.{Host}
use tanaka.Spine.{Receipt, receipt_content_hash, genesis_prev_hash}
use tanaka.Chain.{Table, verified, passes, check_row, next_seq, excluded_keys}
use tanaka.Chain.Spec.{Chained, walk-of_Chained, Chained-of_walk, Chained-append}
use tanaka.Chain.Append.{head_hash_of_Chained, signed_row_passes}
use tanaka.Ledger.{
  Entry, entry_content, entry_row, append, append_after, content_keys, verify_ledger,
}

pub Chained-of_verified :
    (host : Host) (key : host.PublicKey) (rows : Table host.Bytes) (n : ℕ)
    → verify_ledger host key rows ≡ verified n
    → ((last : String) × Chained host content_keys key rows (genesis_prev_hash host) last)
      × (n ≡ length rows)
unfolding verify_ledger
Chained-of_verified host key rows n h =
    let (chain, counted) = Chained-of_walk host content_keys key rows _ 0 n h in
    (chain, omega (arith, counted))

module _ (host : Host) (private_key : host.PrivateKey) where
  open host use {Bytes, public_key, dumps, encode, sign, b64encode, dumps-sort_keys, sha256}

  -- The chain of a ledger that `private_key` signs, from the genesis hash to `last`.
  abbrev pub IsIntact : Table Bytes → String → Type 0
  IsIntact rows last =
      Chained host content_keys (public_key private_key) rows (genesis_prev_hash host) last

  -- Without the hash and the signature, the stored row is the content that was hashed.
  stored_content :
      (e : Entry) (prev_hash this_hash sig : String)
      → without excluded_keys (sort_fields (entry_row e prev_hash this_hash sig))
        ≡ sort_fields (entry_content e prev_hash)
  unfolding sort_keys entry_row entry_content
  stored_content e prev_hash this_hash sig = refl

  appended_row_passes :
      (e : Entry) (prev_hash : String)
      → let this_hash = receipt_content_hash host (entry_content e prev_hash) in
        check_row host content_keys (public_key private_key) prev_hash (
          dumps (
            obj
              (entry_row e prev_hash this_hash (b64encode (sign private_key (encode this_hash))))))
        ≡ passes this_hash
  unfolding sort_keys entry_row receipt_content_hash
  appended_row_passes e prev_hash =
      let this_hash = sha256 (dumps (obj (entry_content e prev_hash))) in
      let sig = b64encode (sign private_key (encode this_hash)) in
      let row = entry_row e prev_hash this_hash sig in
      signed_row_passes host content_keys private_key row (sort_fields row) prev_hash this_hash refl
        refl
        (ap sha256 (
          ap (λ c. dumps (obj c)) (stored_content e prev_hash this_hash sig)
          ∙ dumps-sort_keys (obj (entry_content e prev_hash))))
        refl refl refl

  abbrev pub rows_after : Entry → Table Bytes → String → Table Bytes
  rows_after e rows last = (append_after host private_key e rows last).1

  pub append_after-IsIntact :
      (e : Entry) (rows : Table Bytes) (last : String)
      → IsIntact rows last
      → IsIntact (rows_after e rows last) (append_after host private_key e rows last).0.this_hash
  unfolding append_after
  append_after-IsIntact e rows last h =
      Chained-append host content_keys (public_key private_key) rows _ (genesis_prev_hash host) last
        _ h (_, appended_row_passes e last, refl)

  -- The text of the row that an append stores.
  abbrev pub appended_text : Entry → String → Bytes
  appended_text e last =
      let this_hash = receipt_content_hash host (entry_content e last) in
      dumps (obj (entry_row e last this_hash (b64encode (sign private_key (encode this_hash)))))

  pub rows_after_eq :
      (e : Entry) (rows : Table Bytes) (last : String)
      → rows_after e rows last ≡ rows ++ (next_seq rows, appended_text e last) ∷ []
  unfolding append_after
  rows_after_eq e rows last = refl

  pub append_after_eq :
      (e : Entry) (rows : Table Bytes) (last : String)
      → IsIntact rows last
      → append host private_key e rows ≡ some (append_after host private_key e rows last)
  unfolding append
  append_after_eq e rows last h =
      rw (head_hash_of_Chained host content_keys (public_key private_key) _ rows last h, append)

  -- An append to an intact ledger succeeds: it leaves the rows as they are, adds one at the end
  -- that names the head it found, and the ledger is intact up to the hash of the new receipt.
  pub append-IsIntact :
      (e : Entry) (rows : Table Bytes) (last : String)
      → IsIntact rows last
      → (r : Receipt Bytes) × (text : Bytes) × (append host private_key e rows
          ≡ some (r, rows ++ (next_seq rows, text) ∷ []))
        × (r.prev_hash ≡ last)
        × IsIntact (rows ++ (next_seq rows, text) ∷ []) r.this_hash
  unfolding append append_after
  append-IsIntact e rows last h = (
    (append_after host private_key e rows last).0,
    _,
    rw (head_hash_of_Chained host content_keys (public_key private_key) _ rows last h, append),
    refl,
    append_after-IsIntact e rows last h,
  )

  pub verified_of_IsIntact :
      (rows : Table Bytes) (last : String)
      → IsIntact rows last
      → verify_ledger host (public_key private_key) rows ≡ verified (length rows)
  unfolding verify_ledger
  verified_of_IsIntact rows last h =
      walk-of_Chained host content_keys (public_key private_key) rows _ last 0 h
      ∙ ap verified (omega arith)

  pub IsIntact-of_verified :
      (rows : Table Bytes) (n : ℕ)
      → verify_ledger host (public_key private_key) rows ≡ verified n
      → ((last : String) × IsIntact rows last) × (n ≡ length rows)
  IsIntact-of_verified = Chained-of_verified host (public_key private_key)

  pub append_after-verified :
      (e : Entry) (rows : Table Bytes) (last : String) (n : ℕ)
      → IsIntact rows last
      → n ≡ length rows
      → verify_ledger host (public_key private_key) (rows_after e rows last) ≡ verified (n + 1)
  append_after-verified e rows last n h counted =
      verified_of_IsIntact (rows_after e rows last) _ (append_after-IsIntact e rows last h)
      ∙ ap verified (
          ap (λ (t : Table Bytes). length t) (rows_after_eq e rows last)
          ∙ omega (arith, counted, length-append rows ((next_seq rows, appended_text e last) ∷ [])))

  -- If the verifier accepts a ledger under the public half of the signing key, then an append to
  -- it succeeds, whatever is appended, and the verifier accepts the longer ledger with a count of
  -- one more. The rows that were there are left as they are.
  pub append-verified :
      (e : Entry) (rows : Table Bytes) (n : ℕ)
      → verify_ledger host (public_key private_key) rows ≡ verified n
      → (r : Receipt Bytes) × (text : Bytes) × (append host private_key e rows
          ≡ some (r, rows ++ (next_seq rows, text) ∷ []))
        × (verify_ledger host (public_key private_key) (rows ++ (next_seq rows, text) ∷ [])
            ≡ verified (n + 1))
  unfolding append_after
  append-verified e rows n h =
      let ((last, intact), counted) = IsIntact-of_verified rows n h in
      (
        (append_after host private_key e rows last).0,
        appended_text e last,
        append_after_eq e rows last intact,
        append_after-verified e rows last n intact counted,
      )
