-- ===== src/PolicyStore/Laws.antt =====
-- `append_version` beside verify_policy_history.py.
use tanaka.Prelude.{
  ℕ, ◌+◌, String, ◌==◌, ◌||◌, ◌≡◌, refl, ap, ◌∙◌, true, some, [], ◌∷◌, ◌++◌, length, length-append,
  arith,
}
use tanaka.Json.{obj, without}
use tanaka.Json.Sort.{sort_keys, sort_fields}
use tanaka.Host.{Host}
use tanaka.Chain.{Table, verified, passes, check_row, next_seq, excluded_keys}
use tanaka.Chain.Spec.{walk-of_Chained, Chained-of_walk, Chained-append}
use tanaka.Chain.Append.{head_hash_of_Chained, signed_row_passes}
use tanaka.PolicyStore.{
  Draft, version_content, version_row, policy_content_keys, policy_genesis_prev_hash,
  policy_content_hash, append_version_after, append_version, verify_policy_history,
}

module _ (host : Host) (private_key : host.PrivateKey) where
  open host use {Bytes, public_key, dumps, encode, sign, b64encode, dumps-sort_keys, sha256}

  stored_version :
      (d : Draft) (prev_hash this_hash sig : String)
      → without excluded_keys (sort_fields (version_row d prev_hash this_hash sig))
        ≡ sort_fields (version_content d prev_hash)
  unfolding sort_keys version_row version_content
  stored_version d prev_hash this_hash sig = refl

  version_row_passes :
      (d : Draft) (prev_hash : String)
      → let this_hash = policy_content_hash host (version_content d prev_hash) in
        check_row host policy_content_keys (public_key private_key) prev_hash (
          dumps (
            obj (
              version_row d prev_hash this_hash (b64encode (sign private_key (encode this_hash))))))
        ≡ passes this_hash
  unfolding sort_keys version_row policy_content_hash
  version_row_passes d prev_hash =
      let this_hash = sha256 (dumps (obj (version_content d prev_hash))) in
      let sig = b64encode (sign private_key (encode this_hash)) in
      let row = version_row d prev_hash this_hash sig in
      signed_row_passes host policy_content_keys private_key row (sort_fields row) prev_hash
        this_hash refl refl
        (ap sha256 (
          ap (λ c. dumps (obj c)) (stored_version d prev_hash this_hash sig)
          ∙ dumps-sort_keys (obj (version_content d prev_hash))))
        refl refl refl

  -- The text of the row that is stored.
  abbrev pub version_text : Draft → String → Bytes
  version_text d prev_hash =
      let this_hash = policy_content_hash host (version_content d prev_hash) in
      dumps
        (obj (version_row d prev_hash this_hash (b64encode (sign private_key (encode this_hash)))))

  -- A version with one of the two statuses, appended to a history that the verifier accepts with a
  -- count of `n`, is stored after the head of the chain, and the verifier accepts the longer history
  -- with a count of one more.
  pub append_version-verified :
      (d : Draft) (rows : Table Bytes) (n : ℕ)
      → (d.status == "active" || d.status == "pending") ≡ true
      → verify_policy_history host (public_key private_key) rows ≡ verified n
      → (prev_hash : String) × (append_version host private_key d rows
          ≡ some (append_version_after host private_key d rows prev_hash))
        × (verify_policy_history host
              (public_key private_key)
              (append_version_after host private_key d rows prev_hash).1
            ≡ verified (n + 1))
  unfolding append_version verify_policy_history append_version_after
  append_version-verified d rows n valid h =
      let key = public_key private_key in
      let genesis = policy_genesis_prev_hash host in
      let ((last, chain), counted) =
        Chained-of_walk host policy_content_keys key rows genesis 0 n h in
      let total : 0 + length (rows ++ (next_seq rows, version_text d last) ∷ []) ≡ n + 1 =
        omega (arith, counted, length-append rows ((next_seq rows, version_text d last) ∷ [])) in
      (
        last,
        rw
            (
              valid,
              head_hash_of_Chained host policy_content_keys key genesis rows last chain,
              append_version,
            )
            refl,
        walk-of_Chained host policy_content_keys key _ genesis _ 0 (
              Chained-append host policy_content_keys key rows _ genesis last _ chain
                (_, version_row_passes d last, refl))
            ∙ ap verified total,
      )
