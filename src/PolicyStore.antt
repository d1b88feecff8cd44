-- ===== src/PolicyStore.antt =====
-- authoring/policy_store.py and verify_policy_history.py: the append-only chain of signed policy
-- versions. The verifier walks it as verify_ledger.py walks a ledger, from another genesis hash
-- and with other keys.
pub mod Laws
pub mod Active
use tanaka.Prelude.{
  ℕ, String, ◌==◌, Bool, true, false, ◌||◌, Option, none, some, List, [], ◌∷◌, ◌++◌, if◌then◌else◌,
}
use tanaka.Prelude.Texts.{concat}
use tanaka.Json.{Json, null, str, obj, Fields, dict, get, opt_text, is_text}
use tanaka.Host.{Host}
use tanaka.Chain.{Table, Verdict, next_seq, head_hash, walk}

-- The arguments of `append_version`, and the fresh id.
pub record Draft : Type 0 where
  pub version_hex : String
  pub policies : Json
  pub author : Json
  pub reason : String
  pub status : String
  pub approved_by : Option String

unfoldable pub version_content : Draft → String → Fields
version_content d prev_hash = dict (
    ("version_id", str (concat "pv-" d.version_hex))
    ∷ ("policies", d.policies)
    ∷ ("author", d.author)
    ∷ ("reason", str d.reason)
    ∷ ("status", str d.status)
    ∷ ("approved_by", opt_text d.approved_by)
    ∷ ("prev_hash", str prev_hash)
    ∷ [])

-- `dict(content, this_hash=this_hash, sig=sig_b64)`
unfoldable pub version_row : Draft → String → String → String → Fields
version_row d prev_hash this_hash sig_b64 = dict (
    ("version_id", str (concat "pv-" d.version_hex))
    ∷ ("policies", d.policies)
    ∷ ("author", d.author)
    ∷ ("reason", str d.reason)
    ∷ ("status", str d.status)
    ∷ ("approved_by", opt_text d.approved_by)
    ∷ ("prev_hash", str prev_hash)
    ∷ ("this_hash", str this_hash)
    ∷ ("sig", str sig_b64)
    ∷ [])

-- A version as it is read: its `seq` and the other fields of its row.
abbrev pub Version : Type 0
Version = ℕ × Fields

-- How the search for the active version ends; `raised` is a row without a status.
pub data Search : Type 0 where
  raised nothing : Search
  found : Version → Search

unfoldable pub active_here : Version → Search
active_here (seq, row) = elim (get "status" row) [
  | none ↦ raised
  | some status ↦ if is_text (some status) "active" then found (seq, row) else nothing
]

-- `for row in reversed(rows)`
unfoldable pub latest_active : List Version → Search
latest_active [] = nothing
latest_active (v ∷ vs) = elim (latest_active vs) [
  | raised ↦ raised
  | nothing ↦ active_here v
  | found later ↦ found later
]

abbrev pub policy_content_keys : List String
policy_content_keys =
    "version_id" ∷ "policies" ∷ "author" ∷ "reason" ∷ "status" ∷ "approved_by" ∷ "prev_hash" ∷ []

module _ (host : Host) where
  open host use {Bytes, PrivateKey, PublicKey, dumps, loads, encode, sha256, b64encode, sign}

  unfoldable pub policy_genesis_prev_hash : String
  policy_genesis_prev_hash = sha256 (encode "POLICY-GENESIS")

  unfoldable pub policy_content_hash : Fields → String
  policy_content_hash content = sha256 (dumps (obj content))

  -- The version that is returned, and the table after it, where the head is `prev_hash`.
  unfoldable pub append_version_after :
      PrivateKey → Draft → Table Bytes → String → Version × Table Bytes
  append_version_after private_key d rows prev_hash =
      let this_hash = policy_content_hash (version_content d prev_hash) in
      let sig = b64encode (sign private_key (encode this_hash)) in
      let row = version_row d prev_hash this_hash sig in
      ((next_seq rows, row), rows ++ (next_seq rows, dumps (obj row)) ∷ [])

  -- `none` is the `ValueError` of another status, or an exception while the head is read.
  unfoldable pub append_version : PrivateKey → Draft → Table Bytes → Option (Version × Table Bytes)
  append_version private_key d rows =
      if d.status == "active" || d.status == "pending"
      then elim (head_hash host policy_genesis_prev_hash rows) [
        | none ↦ none
        | some prev_hash ↦ some (append_version_after private_key d rows prev_hash)
      ]
      else none

  -- `none` where a row is no JSON object
  unfoldable pub read_all : Table Bytes → Option (List Version)
  read_all [] = some []
  read_all ((seq, text) ∷ rows) = elim (loads text) [
    | some (obj row) ↦ elim (read_all rows) [ none ↦ none | some later ↦ some ((seq, row) ∷ later) ]
    | _ ↦ none
  ]

  unfoldable pub active_version : Table Bytes → Search
  active_version rows = elim (read_all rows) [
    | none ↦ raised
    | some versions ↦ latest_active versions
  ]

  -- The file that the engine loads its policies from, after the call; `none` for an exception.
  unfoldable pub materialize_active : Table Bytes → Option Json → Option (Option Json)
  materialize_active rows file = elim (active_version rows) [
    | raised ↦ none
    | nothing ↦ some file
    | found (seq, row) ↦ elim (get "policies" row) [
      | none ↦ none
      | some policies ↦ some (some (obj (dict (("policies", policies) ∷ []))))
    ]
  ]

  -- The loop of verify_policy_history.py.
  unfoldable pub verify_policy_history : PublicKey → Table Bytes → Verdict
  verify_policy_history key rows = walk host policy_content_keys key rows policy_genesis_prev_hash 0
