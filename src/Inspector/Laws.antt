-- ===== src/Inspector/Laws.antt =====
-- `check_chain` of inspector.py beside verify_ledger.py.
use tanaka.Prelude.{
  true, ℕ, String, ◌≡◌, refl, ◌&&◌, Option, none, some, List, [], ◌∷◌, arith, Bool-cases,
  Option-cases, inl, inr, ◌↔◌, subst, ap, ◌∙◌, All, length,
}
use tanaka.Json.{Json, null, bool, int, float, str, arr, obj, Fields, has_keys, without}
use tanaka.Host.{Host}
use tanaka.Spine.{genesis_prev_hash}
use tanaka.Chain.{
  Table, verified, RowCheck, passes, fails, crashes, check_row, check_parsed, check_content,
  excluded_keys,
}
use tanaka.Chain.Spec.{Chained, walk-of_Chained}
use tanaka.Ledger.{content_keys, verify_ledger}
use tanaka.Ledger.Laws.{Chained-of_verified}
use tanaka.Inspector.{valid, broken, crashed_at, read_rows, inspect_row, check_chain}

module _ (host : Host) (key : host.PublicKey) where
  open host use {Bytes, loads}

  -- With a key, the inspector's test of an object is the verifier's, less the required keys.
  inspect_row-check_content :
      (prev : String) (row : Fields)
      → inspect_row host (some key) prev (obj row)
        ≡ check_content host key prev row (without excluded_keys row)
  unfolding inspect_row check_content
  inspect_row-check_content prev row = refl

  -- A row that is an object with the keys that the verifier requires.
  pub HasKeys : ℕ × Json → Type 0
  HasKeys (seq, obj row) = (has_keys content_keys row && has_keys excluded_keys row) ≡ true
  HasKeys _ = ⊥

  check_parsed_passes :
      (seq : ℕ) (prev : String) (v : Option Json) {h : String}
      → check_parsed host content_keys key prev v ≡ passes h
      → (row : Json) × (v ≡ some row)
        × (inspect_row host (some key) prev row ≡ passes h)
        × HasKeys (seq, row)
  unfolding check_parsed HasKeys
  check_parsed_passes seq prev (some (obj row)) p =
      elim (Bool-cases (has_keys content_keys row && has_keys excluded_keys row)) [
        | inl c ↦ (obj row, refl, rw inspect_row-check_content (rw (c, check_parsed) at p), c)
        | inr c ↦ cc (rw (c, check_parsed) at p)
      ]
  check_parsed_passes seq prev none p = cc
  check_parsed_passes seq prev _ p = ground arith

  -- The conditions under which the inspector's walk agrees with the verifier's.
  pub Inspected : Table Bytes → String → Type 0
  Inspected rows start =
      (parsed : List (ℕ × Json)) × (read_rows host rows ≡ some parsed)
      × (check_chain host (some key) parsed start ≡ valid)
      × All HasKeys parsed

  Inspected-of_Chained :
      (rows : Table Bytes) (start last : String)
      → Chained host content_keys key rows start last
      → Inspected rows start
  unfolding read_rows check_chain check_row Inspected
  Inspected-of_Chained [] start last h = ([], refl, refl, tt)
  Inspected-of_Chained ((seq, text) ∷ rows) start last (this_hash, pass, rest) =
      let (row, read, ok, keys) = check_parsed_passes seq start (loads text) pass in
      let (parsed, later, fine, all) = Inspected-of_Chained rows this_hash last rest in
      (
        (seq, row) ∷ parsed,
        rw (read, read_rows, later) refl,
        rw (ok, check_chain) fine,
        (keys, all),
      )

  check_parsed_of_inspected :
      (seq : ℕ) (prev : String) (row : Json) (h : String)
      → HasKeys (seq, row)
      → inspect_row host (some key) prev row ≡ passes h
      → check_parsed host content_keys key prev (some row) ≡ passes h
  unfolding check_parsed HasKeys
  check_parsed_of_inspected seq prev (obj row) h c e =
      rw (c, check_parsed) (rw inspect_row-check_content at e)
  check_parsed_of_inspected seq prev null h c e = absurd c
  check_parsed_of_inspected seq prev (bool _) h c e = absurd c
  check_parsed_of_inspected seq prev (int _) h c e = absurd c
  check_parsed_of_inspected seq prev (float _) h c e = absurd c
  check_parsed_of_inspected seq prev (str _) h c e = absurd c
  check_parsed_of_inspected seq prev (arr _) h c e = absurd c

  -- A walk that finds the chain valid got past its first row.
  inspected_next :
      (seq : ℕ) (rows : List (ℕ × Json)) (c : RowCheck)
      → elim c [
        | passes this_hash ↦ check_chain host (some key) rows this_hash
        | fails reason ↦ broken seq reason
        | crashes ↦ crashed_at seq
      ]
        ≡ valid
      → (this_hash : String) × (c ≡ passes this_hash)
        × (check_chain host (some key) rows this_hash ≡ valid)
  inspected_next seq rows (passes this_hash) h = (this_hash, refl, h)
  inspected_next seq rows (fails reason) h = cc
  inspected_next seq rows crashes h = cc

  Chained-of_Inspected :
      (rows : Table Bytes) (start : String) (parsed : List (ℕ × Json))
      → read_rows host rows ≡ some parsed
      → check_chain host (some key) parsed start ≡ valid
      → All HasKeys parsed
      → (last : String) × Chained host content_keys key rows start last
  unfolding read_rows check_chain check_row
  Chained-of_Inspected [] start parsed read ok all = (start, refl)
  Chained-of_Inspected ((seq, text) ∷ rows) start parsed read ok all =
      elim (Option-cases (loads text)) [
        | inl bad ↦ cc (rw (bad, read_rows) at read)
        | inr (row, e) ↦ elim (Option-cases (read_rows host rows)) [
          | inl bad ↦ cc (rw (e, read_rows, bad) at read)
          | inr (later, f) ↦
              let same : parsed ≡ (seq, row) ∷ later = cc (rw (e, read_rows, f) at read) in
              let (keys, all') : All HasKeys ((seq, row) ∷ later) = subst (All HasKeys) same all in
              let ok' : check_chain host (some key) ((seq, row) ∷ later) start ≡ valid =
                rw same at ok in
              let (h, pass, fine) =
                inspected_next seq later (inspect_row host (some key) start row) ok' in
              let (last, chain) = Chained-of_Inspected rows h later f fine all' in
              (last, (h, rw e (check_parsed_of_inspected seq start row h keys pass), chain))
        ]
      ]

  -- The verifier accepts a ledger under a public key exactly if the inspector can read every row of
  -- it, its walk with that key reports the chain as valid, and every row has the required keys.
  pub verify_ledger_iff :
      (rows : Table Bytes)
      → (verify_ledger host key rows ≡ verified (length rows))
        ↔ Inspected rows (genesis_prev_hash host)
  unfolding verify_ledger Inspected
  verify_ledger_iff rows = (
    λ h.
        let ((last, chain), _) = Chained-of_verified host key rows (length rows) h in
        Inspected-of_Chained rows (genesis_prev_hash host) last chain,
    λ (parsed, read, ok, all).
        let (last, chain) = Chained-of_Inspected rows (genesis_prev_hash host) parsed read ok all in
        walk-of_Chained host content_keys key rows (genesis_prev_hash host) last 0 chain
        ∙ ap verified (omega arith),
  )

  pub check_chain-verified :
      (rows : Table Bytes) (n : ℕ)
      → verify_ledger host key rows ≡ verified n
      → (parsed : List (ℕ × Json)) × (read_rows host rows ≡ some parsed)
        × (check_chain host (some key) parsed (genesis_prev_hash host) ≡ valid)
  unfolding Inspected
  check_chain-verified rows n h =
      let ((last, chain), _) = Chained-of_verified host key rows n h in
      let (parsed, read, ok, _) = Inspected-of_Chained rows (genesis_prev_hash host) last chain in
      (parsed, read, ok)
