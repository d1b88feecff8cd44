-- ===== src/Drill/Keyless.antt =====
-- curriculum/drill.py: the drill's own test of the chain, which has no key.
use tanaka.Prelude.{
  ℕ, String, ◌≡◌, ◌⊎◌, refl, true, Option, none, some, List, [], ◌∷◌, arith, Bool-cases, inl, inr,
}
use tanaka.Json.{Json, null, bool, int, float, str, arr, obj, get, without, is_text}
use tanaka.Host.{Host}
use tanaka.Spine.{genesis_prev_hash}
use tanaka.Chain.{
  RowCheck, passes, fails, crashes, check_signature, decode_sig, excluded_keys, Reason,
}
use tanaka.Inspector.{valid, inspect_row, check_chain}
use tanaka.Inspector.Laws.{check_chain-verified}
use tanaka.Loop.{Wiring, LoopState}
use tanaka.Drill.{chain_is_valid}
use tanaka.Drill.Laws.{Receipts}

module _ (host : Host) (w : Wiring host.Bytes host.PrivateKey) where
  open host use {Bytes, PrivateKey, PublicKey, public_key}

  -- Without a key the inspector tests less.
  signature_passes :
      (key : PublicKey) (recomputed : String) (sig : Option Bytes) (h : String)
      → check_signature host key recomputed sig ≡ passes h
      → passes recomputed ≡ passes h
  unfolding check_signature
  signature_passes key recomputed none h e = cc e
  signature_passes key recomputed (some sig) h e = ground (arith, e)

  inspect_row_keyless :
      (key : PublicKey) (prev : String) (row : Json) (h : String)
      → inspect_row host (some key) prev row ≡ passes h
      → inspect_row host none prev row ≡ passes h
  unfolding inspect_row check_signature
  inspect_row_keyless key prev (obj row) h e =
      let recomputed = host.sha256 (host.dumps (obj (without excluded_keys row))) in
      elim (Bool-cases (is_text (get "this_hash" row) recomputed)) [
        | inr bad ↦ cc (rw (bad, inspect_row) at e)
        | inl same ↦ elim (Bool-cases (is_text (get "prev_hash" row) prev)) [
          | inr unlinked ↦ cc (rw (same, inspect_row, unlinked) at e)
          | inl linked ↦
              rw (same, linked)
                (signature_passes key recomputed (decode_sig host (get "sig" row)) h
                  (rw (same, inspect_row, linked) at e))
        ]
      ]
  inspect_row_keyless key prev null h e = cc e
  inspect_row_keyless key prev (bool _) h e = cc e
  inspect_row_keyless key prev (int _) h e = cc e
  inspect_row_keyless key prev (float _) h e = cc e
  inspect_row_keyless key prev (str _) h e = cc e
  inspect_row_keyless key prev (arr _) h e = cc e

  RowCheck-cases :
      (c : RowCheck)
      → ((h : String) × (c ≡ passes h)) ⊎ (((r : Reason) × (c ≡ fails r)) ⊎ (c ≡ crashes))
  RowCheck-cases (passes h) = inl (h, refl)
  RowCheck-cases (fails r) = inr (inl (r, refl))
  RowCheck-cases crashes = inr (inr refl)

  check_chain_keyless :
      (key : PublicKey) (rows : List (ℕ × Json)) (prev : String)
      → check_chain host (some key) rows prev ≡ valid
      → check_chain host none rows prev ≡ valid
  unfolding check_chain
  check_chain_keyless key [] prev e = refl
  check_chain_keyless key ((seq, row) ∷ rows) prev e =
      elim (RowCheck-cases (inspect_row host (some key) prev row)) [
        | inl (h, pass) ↦
            rw (inspect_row_keyless key prev row h pass, check_chain)
              (check_chain_keyless key rows h (rw (pass, check_chain) at e))
        | inr (inl (r, fail)) ↦ cc (rw (fail, check_chain) at e)
        | inr (inr crash) ↦ cc (rw (crash, check_chain) at e)
      ]

  pub chain_is_valid-Receipts :
      (n : ℕ) (s : LoopState Bytes) → Receipts host w n s → chain_is_valid host s.rows ≡ some true
  unfolding chain_is_valid
  chain_is_valid-Receipts n s h =
      let (parsed, read, fine) = check_chain-verified host (public_key w.private_key) s.rows n h in
      let keyless =
        check_chain_keyless (public_key w.private_key) parsed (genesis_prev_hash host) fine in
      rw (read, chain_is_valid, keyless) refl
