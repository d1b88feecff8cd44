-- ===== src/Inspector.antt =====
-- inspector.py: the walk over the parsed rows of a ledger, with or without a public key.
pub mod Laws
pub mod Report
use tanaka.Prelude.{
  ℕ, String, Bool, true, false, not, Option, none, some, List, [], ◌∷◌, if◌then◌else◌,
}
use tanaka.Json.{Json, obj, Fields, get, without, is_text}
use tanaka.Host.{Host}
use tanaka.Chain.{
  Table, Reason, hash_mismatch, prev_hash_mismatch, RowCheck, passes, fails, crashes, excluded_keys,
  decode_sig, check_signature,
}

-- `(True, None, None)`, `(False, seq, reason)`, or an exception that nothing catches.
pub data Inspection : Type 0 where
  valid : Inspection
  broken : ℕ → Reason → Inspection
  crashed_at : ℕ → Inspection

module _ (host : Host) where
  open host use {Bytes, PublicKey, dumps, loads, sha256}

  -- `none` is the `ValueError` of a row that is no JSON.
  unfoldable pub read_rows : Table Bytes → Option (List (ℕ × Json))
  read_rows [] = some []
  read_rows ((seq, text) ∷ rows) = elim (loads text) [
    | none ↦ none
    | some parsed ↦ elim (read_rows rows) [
      | none ↦ none
      | some later ↦ some ((seq, parsed) ∷ later)
    ]
  ]

  -- The hash and the link, and the signature where there is a key. No key of the row is required.
  unfoldable pub inspect_row : Option PublicKey → String → Json → RowCheck
  unfolding check_signature decode_sig
  inspect_row key expected_prev (obj row) =
      let recomputed = sha256 (dumps (obj (without excluded_keys row))) in
      if not (is_text (get "this_hash" row) recomputed)
      then fails hash_mismatch
      else if not (is_text (get "prev_hash" row) expected_prev)
      then fails prev_hash_mismatch
      else elim key [
        | none ↦ passes recomputed
        | some k ↦ check_signature host k recomputed (decode_sig host (get "sig" row))
      ]
  inspect_row key expected_prev _ = crashes

  unfoldable pub check_chain : Option PublicKey → List (ℕ × Json) → String → Inspection
  check_chain key [] expected_prev = valid
  check_chain key ((seq, row) ∷ rows) expected_prev = elim (inspect_row key expected_prev row) [
    | passes this_hash ↦ check_chain key rows this_hash
    | fails reason ↦ broken seq reason
    | crashes ↦ crashed_at seq
  ]
