-- ===== src/PolicyStore/Active.antt =====
-- authoring/policy_store.py: the version in force.
use tanaka.Prelude.{
  ℕ, String, ◌≡◌, refl, ◌==◌, ◌||◌, true, false, Bool-cases, inl, inr, if◌then◌else◌, Option, some,
  List, [], ◌∷◌, ◌++◌,
}
use tanaka.Json.{Json, str, obj, Fields, dict, get}
use tanaka.Json.Sort.{sort_keys, sort_fields}
use tanaka.Json.Sort.Lookup.{get-sort_fields}
use tanaka.Host.{Host}
use tanaka.Chain.{Table, verified, next_seq}
use tanaka.Chain.Spec.{Chained, Chained-of_walk}
use tanaka.Chain.Append.{check_row-Passed}
use tanaka.PolicyStore.{
  Draft, Version, version_content, policy_content_hash, version_row, nothing, found, active_here,
  latest_active, policy_content_keys, append_version_after, read_all, active_version,
  materialize_active, verify_policy_history,
}
use tanaka.PolicyStore.Laws.{version_text}

latest_active-last :
    (vs : List Version) (v w : Version)
    → active_here v ≡ found w
    → latest_active (vs ++ v ∷ []) ≡ found w
unfolding latest_active
latest_active-last [] v w h = rw h refl
latest_active-last (u ∷ vs) v w h = rw (latest_active-last vs v w h) refl

latest_active-skip :
    (vs : List Version) (v : Version)
    → active_here v ≡ nothing
    → latest_active (vs ++ v ∷ []) ≡ latest_active vs
unfolding latest_active
latest_active-skip [] v h = rw h refl
latest_active-skip (u ∷ vs) v h = rw (latest_active-skip vs v h) refl

active_here-active :
    (seq : ℕ) (row : Fields) (status : String)
    → get "status" row ≡ some (str status)
    → (status == "active") ≡ true
    → active_here (seq, row) ≡ found (seq, row)
unfolding active_here
active_here-active seq row status e h = rw (e, active_here, h) refl

active_here-other :
    (seq : ℕ) (row : Fields) (status : String)
    → get "status" row ≡ some (str status)
    → (status == "active") ≡ false
    → active_here (seq, row) ≡ nothing
unfolding active_here
active_here-other seq row status e h = rw (e, active_here, h) refl

module _ (host : Host) where
  open host use {Bytes, PublicKey, loads}

  materialized :
      (rows : Table Bytes) (file : Option Json) {vs : List Version} {seq : ℕ} {row : Fields}
      {policies : Json}
      → read_all host rows ≡ some vs
      → latest_active vs ≡ found (seq, row)
      → get "policies" row ≡ some policies
      → materialize_active host rows file ≡ some (some (obj (dict (("policies", policies) ∷ []))))
  unfolding materialize_active active_version
  materialized rows file e h p = rw (e, materialize_active, active_version, h, p) refl

  materialized_alike :
      (rows rows' : Table Bytes) (file : Option Json) {vs vs' : List Version}
      → read_all host rows ≡ some vs
      → read_all host rows' ≡ some vs'
      → latest_active vs' ≡ latest_active vs
      → materialize_active host rows' file ≡ materialize_active host rows file
  unfolding materialize_active active_version
  materialized_alike rows rows' file e e' h = rw (e, e', materialize_active, active_version, h) refl

  -- A chain that checks can be read, and a readable row after it adds its version at the end.
  read_all_of_Chained :
      (key : PublicKey) (rows : Table Bytes) (start last : String) (seq : ℕ) (text : Bytes)
      (row : Fields)
      → Chained host policy_content_keys key rows start last
      → loads text ≡ some (obj row)
      → (vs : List Version) × (read_all host rows ≡ some vs)
        × (read_all host (rows ++ (seq, text) ∷ []) ≡ some (vs ++ (seq, row) ∷ []))
  unfolding read_all
  read_all_of_Chained key [] start last seq text row h e = ([], refl, rw (e, read_all) refl)
  read_all_of_Chained key ((s, t) ∷ rows) start last seq text row (this_hash, pass, rest) e =
      let p = check_row-Passed host policy_content_keys key start t pass in
      let (vs, before, later) = read_all_of_Chained key rows this_hash last seq text row rest e in
      ((s, p.row) ∷ vs, rw (p.parsed, read_all, before) refl, rw (p.parsed, read_all, later) refl)

module _ (host : Host) (private_key : host.PrivateKey) where
  open host use {Bytes, public_key, loads, loads-dumps, b64encode, sign, encode}

  -- The fields of the version that is stored after the head, and as they are read back.
  abbrev written_row : Draft → String → Fields
  written_row d prev_hash =
      let this_hash = policy_content_hash host (version_content d prev_hash) in
      version_row d prev_hash this_hash (b64encode (sign private_key (encode this_hash)))

  abbrev stored_row : Draft → String → Fields
  stored_row d prev_hash = sort_fields (written_row d prev_hash)

  loads-version_text :
      (d : Draft) (prev_hash : String)
      → loads (version_text host private_key d prev_hash) ≡ some (obj (stored_row d prev_hash))
  unfolding sort_keys
  loads-version_text d prev_hash = loads-dumps _

  status_of_stored :
      (d : Draft) (prev_hash : String) → get "status" (stored_row d prev_hash) ≡ some (str d.status)
  unfolding version_row sort_keys
  status_of_stored d prev_hash = get-sort_fields "status" (written_row d prev_hash)

  policies_of_stored :
      (d : Draft) (prev_hash : String)
      → get "policies" (stored_row d prev_hash) ≡ some (sort_keys d.policies)
  unfolding version_row
  policies_of_stored d prev_hash = get-sort_fields "policies" (written_row d prev_hash)

  -- Over a history that the verifier accepts, and for any policies file: appending an active
  -- version and materializing puts the policies of that version in the file; appending a pending
  -- one and materializing gives what materializing gave before.
  pub materialize_active-append :
      (d : Draft) (rows : Table Bytes) (prev_hash : String) (n : ℕ) (file : Option Json)
      → (d.status == "active" || d.status == "pending") ≡ true
      → verify_policy_history host (public_key private_key) rows ≡ verified n
      → materialize_active host (append_version_after host private_key d rows prev_hash).1 file ≡ (
          if d.status == "active"
          then some (some (obj (dict (("policies", sort_keys d.policies) ∷ []))))
          else materialize_active host rows file)
  unfolding verify_policy_history append_version_after
  materialize_active-append d rows prev_hash n file valid h =
      let key = public_key private_key in
      let ((last, chain), _) = Chained-of_walk host policy_content_keys key rows _ 0 n h in
      let (vs, before, after) =
        read_all_of_Chained host key rows _ last (next_seq rows)
          (version_text host private_key d prev_hash) (stored_row d prev_hash) chain
          (loads-version_text d prev_hash) in
      let rows' = (append_version_after host private_key d rows prev_hash).1 in
      let status = status_of_stored d prev_hash in
      elim (Bool-cases (d.status == "active")) [
        | inl active ↦ rw active (
            materialized host rows' file after
              (latest_active-last vs _ _ (
                active_here-active (next_seq rows) (stored_row d prev_hash) d.status status active))
              (policies_of_stored d prev_hash))
        | inr other ↦ rw other (
            materialized_alike host rows rows' file before after (
              latest_active-skip vs _
                (active_here-other (next_seq rows) (stored_row d prev_hash) d.status status other)))
      ]
