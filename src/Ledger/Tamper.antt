-- ===== src/Ledger/Tamper.antt =====
-- What the head of a ledger says about the rows below it.
use tanaka.Prelude.{ℕ, ◌≡◌, sym, ◌∙◌, ◌⊎◌, inl, inr}
use tanaka.Host.{Host}
use tanaka.Spine.{genesis_prev_hash}
use tanaka.Chain.{Table, verified, head_hash}
use tanaka.Chain.Append.{head_hash_of_Chained}
use tanaka.Chain.Tamper.{SameContents, HasCollision, same_head-SameContents}
use tanaka.Ledger.{content_keys, verify_ledger}
use tanaka.Ledger.Laws.{Chained-of_verified}

module _ (host : Host) (key : host.PublicKey) where
  open host use {Bytes}

  -- If the verifier accepts two ledgers under one public key, with one count and one head hash,
  -- then their rows hold the same content, row by row, or at one place of
  -- both two different contents have one SHA-256 hash.
  pub verified_same_head :
      (rows rows' : Table Bytes) (n : ℕ)
      → verify_ledger host key rows ≡ verified n
      → verify_ledger host key rows' ≡ verified n
      → head_hash host (genesis_prev_hash host) rows ≡ head_hash host (genesis_prev_hash host) rows'
      → SameContents host rows rows' ⊎ HasCollision host rows rows'
  verified_same_head rows rows' n h h' e =
      let ((last, chain), counted) = Chained-of_verified host key rows n h in
      let ((last', chain'), counted') = Chained-of_verified host key rows' n h' in
      let head =
        head_hash_of_Chained host content_keys key (genesis_prev_hash host) rows last chain in
      let head' =
        head_hash_of_Chained host content_keys key (genesis_prev_hash host) rows' last' chain' in
      let same : last' ≡ last = cc (head, head', e) in
      elim (same_head-SameContents host content_keys key rows rows' _ _ last
        (sym counted ∙ counted') chain (rw same at chain')) [
          | inl (_, contents) ↦ inl contents
          | inr collision ↦ inr collision
        ]
