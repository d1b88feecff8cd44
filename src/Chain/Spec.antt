-- ===== src/Chain/Spec.antt =====
-- What a chain is, apart from the loop that checks it.
use tanaka.Prelude.{ℕ, ◌+◌, String, ◌≡◌, refl, List, [], ◌∷◌, ◌++◌, arith, length}
use tanaka.Host.{Host}
use tanaka.Chain.{
  Table, RowCheck, passes, fails, crashes, verified, failed, crashed, check_row, walk,
}

module _ (host : Host) (keys : List String) (key : host.PublicKey) where
  open host use {Bytes}

  -- Each row passes against the hash of the row before it, from the hash `start` to the hash `end`.
  abbrev pub Chained : Table Bytes → String → String → Type 0
  Chained [] start last = start ≡ last
  Chained ((seq, text) ∷ rows) start last =
      (this_hash : String) × (check_row host keys key start text ≡ passes this_hash)
      × Chained rows this_hash last

  pub walk-of_Chained :
      (rows : Table Bytes) (start last : String) (count : ℕ)
      → Chained rows start last
      → walk host keys key rows start count ≡ verified (count + length rows)
  unfolding walk
  walk-of_Chained [] start last count h = ground arith
  walk-of_Chained ((seq, text) ∷ rows) start last count (this_hash, pass, rest) =
      ground (arith, walk-of_Chained rows this_hash last (count + 1) rest)

  -- A walk that gets past a row found that it passes.
  walk_next :
      (seq : ℕ) (rows : Table Bytes) (count n : ℕ) (c : RowCheck)
      → elim c [
        | passes this_hash ↦ walk host keys key rows this_hash (count + 1)
        | fails reason ↦ failed seq reason
        | crashes ↦ crashed seq
      ]
        ≡ verified n
      → (this_hash : String) × (c ≡ passes this_hash)
        × (walk host keys key rows this_hash (count + 1) ≡ verified n)
  walk_next seq rows count n (passes this_hash) h = (this_hash, refl, h)
  walk_next seq rows count n (fails reason) h = cc
  walk_next seq rows count n crashes h = cc

  pub Chained-of_walk :
      (rows : Table Bytes) (start : String) (count n : ℕ)
      → walk host keys key rows start count ≡ verified n
      → ((last : String) × Chained rows start last) × (n ≡ count + length rows)
  unfolding walk
  Chained-of_walk [] start count n h = ((start, refl), ground arith)
  Chained-of_walk ((seq, text) ∷ rows) start count n h =
      let (this_hash, pass, more) =
        walk_next seq rows count n (check_row host keys key start text) h in
      let (rest, counted) = Chained-of_walk rows this_hash (count + 1) n more in
      ((rest.0, (this_hash, pass, rest.1)), omega (arith, counted))

  pub Chained-append :
      (rows more : Table Bytes) (start middle last : String)
      → Chained rows start middle
      → Chained more middle last
      → Chained (rows ++ more) start last
  Chained-append [] more start middle last h k = rw h k
  Chained-append ((seq, text) ∷ rows) more start middle last (this_hash, pass, rest) k =
      (this_hash, pass, Chained-append rows more this_hash middle last rest k)
