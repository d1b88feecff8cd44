-- ===== src/Chain.antt =====
-- The walk over a hash chain of signed rows, which verify_ledger.py and verify_policy_history.py
-- hold in one copy each: they differ in the keys that a row must have and in the hash that the
-- chain starts from. A row is its `seq` and its JSON text; a table is in the order of `seq`.
pub mod Spec
pub mod Append
pub mod Tamper
use Prim.Native.Nat.{max}
use text.Mathlib.Text.{find?}
use tanaka.Prelude.{
  ℕ, ◌+◌, String, ◌==◌, Bool, true, false, ◌&&◌, ◌||◌, not, Option, none, some, List, [], ◌∷◌,
  is_some, if◌then◌else◌,
}
use tanaka.Json.{
  Json, null, bool, int, float, str, arr, obj, Items, nil, cons, Fields, get, has_keys, without,
  is_text,
}
use tanaka.Host.{Host}

abbrev pub Table : Type 0 → Type 0
Table B = List (ℕ × B)

pub data Reason : Type 0 where
  json_parse hash_mismatch prev_hash_mismatch bad_signature : Reason

-- What a run of a verifier prints; `crashed` is a Python exception that nothing catches.
pub data Verdict : Type 0 where
  verified : ℕ → Verdict
  failed : ℕ → Reason → Verdict
  crashed : ℕ → Verdict

abbrev pub excluded_keys : List String
excluded_keys = "this_hash" ∷ "sig" ∷ []

-- The `seq` that sqlite gives to an inserted row: one more than the largest.
unfoldable pub next_seq : {B : Type 0} → Table B → ℕ
next_seq [] = 1
next_seq ((seq, _) ∷ rows) = max (seq + 1) (next_seq rows)

-- How `content_dict_from_row` ends: with the row's fields and its content, or with one of the
-- exceptions `KeyError`, `TypeError` and `AttributeError`.
pub data Content : Type 0 where
  content : Fields → Fields → Content
  key_error type_error attribute_error : Content

-- `key in [...]` and `key in "..."`
abbrev item_in : String → Items → Bool
item_in k nil = false
item_in k (cons (str s) xs) = s == k || item_in k xs
item_in k (cons _ xs) = item_in k xs

abbrev items_have : List String → Items → Bool
items_have [] xs = true
items_have (k ∷ ks) xs = item_in k xs && items_have ks xs

abbrev text_has : List String → String → Bool
text_has [] s = true
text_has (k ∷ ks) s = is_some (find? s k) && text_has ks s

-- The keys are looked for in whatever `json.loads` returned. A list or a text may hold them all
-- and still has no `items`; a number, a Boolean and `null` take no `in`.
unfoldable pub content_dict_from_row : List String → Json → Content
content_dict_from_row keys (obj row) =
    if has_keys keys row && has_keys excluded_keys row
    then content row (without excluded_keys row)
    else key_error
content_dict_from_row keys (arr xs) =
    if items_have keys xs && items_have excluded_keys xs then attribute_error else key_error
content_dict_from_row keys (str s) =
    if text_has keys s && text_has excluded_keys s then attribute_error else key_error
content_dict_from_row keys null = type_error
content_dict_from_row keys (bool _) = type_error
content_dict_from_row keys (int _) = type_error
content_dict_from_row keys (float _) = type_error

-- One row: it passes, with its hash, or it ends the run.
pub data RowCheck : Type 0 where
  passes : String → RowCheck
  fails : Reason → RowCheck
  crashes : RowCheck

module _ (host : Host) where
  open host use {Bytes, PublicKey, dumps, loads, encode, sha256, b64decode, verify}

  -- `json.loads(row[0])["this_hash"]`; `none` is an exception, or a hash that is no text
  stored_hash : Option Json → Option String
  stored_hash (some (obj row)) = elim (get "this_hash" row) [ some (str h) ↦ some h | _ ↦ none ]
  stored_hash _ = none

  -- `ORDER BY seq DESC LIMIT 1`
  abbrev pub last_row : Table Bytes → Option Bytes
  last_row [] = none
  last_row ((seq, text) ∷ rows) = elim (last_row rows) [
    | none ↦ some text
    | some later ↦ some later
  ]

  unfoldable pub head_hash : String → Table Bytes → Option String
  unfolding stored_hash
  head_hash genesis rows = elim (last_row rows) [
    | none ↦ some genesis
    | some text ↦ stored_hash (loads text)
  ]

  -- `base64.b64decode(parsed["sig"])`: anything but a text is a `TypeError`
  unfoldable pub decode_sig : Option Json → Option Bytes
  decode_sig (some (str s)) = b64decode s
  decode_sig _ = none

  unfoldable pub check_signature : PublicKey → String → Option Bytes → RowCheck
  check_signature key recomputed none = fails bad_signature
  check_signature key recomputed (some sig) =
      if verify key sig (encode recomputed) then passes recomputed else fails bad_signature

  unfoldable pub check_content : PublicKey → String → Fields → Fields → RowCheck
  unfolding check_signature decode_sig
  check_content key expected_prev row rest =
      let recomputed = sha256 (dumps (obj rest)) in
      if not (is_text (get "this_hash" row) recomputed)
      then fails hash_mismatch
      else if not (is_text (get "prev_hash" row) expected_prev)
      then fails prev_hash_mismatch
      else check_signature key recomputed (decode_sig (get "sig" row))

  unfoldable pub check_parsed : List String → PublicKey → String → Option Json → RowCheck
  unfolding check_content content_dict_from_row
  check_parsed keys key expected_prev none = fails json_parse
  check_parsed keys key expected_prev (some parsed) = elim (content_dict_from_row keys parsed) [
    | content row rest ↦ check_content key expected_prev row rest
    | key_error ↦ fails json_parse
    | type_error ↦ fails json_parse
    | attribute_error ↦ crashes
  ]

  unfoldable pub check_row : List String → PublicKey → String → Bytes → RowCheck
  unfolding check_parsed
  check_row keys key expected_prev text = check_parsed keys key expected_prev (loads text)

  -- The loop over the rows. A row that passes has its recomputed hash in `this_hash`, and the
  -- next row has to name it.
  unfoldable pub walk : List String → PublicKey → Table Bytes → String → ℕ → Verdict
  walk keys key [] expected_prev count = verified count
  walk keys key ((seq, text) ∷ rows) expected_prev count =
      elim (check_row keys key expected_prev text) [
        | passes this_hash ↦ walk keys key rows this_hash (count + 1)
        | fails reason ↦ failed seq reason
        | crashes ↦ crashed seq
      ]
