-- ===== src/Tests/LedgerExamples.antt =====
-- The ledger's theorems over the toy host.
use tanaka.Prelude.{◌≡◌, refl, some, [], ◌∷◌, ◌++◌, ◌⊎◌, ◌↔◌}
use tanaka.Inspector.Laws.{Inspected, verify_ledger_iff}
use tanaka.Spine.{genesis_prev_hash, Receipt}
use tanaka.Chain.{Table, verified, next_seq, walk}
use tanaka.Chain.Tamper.{SameContents, HasCollision}
use tanaka.Ledger.{append, verify_ledger}
use tanaka.Ledger.Laws.{append-verified}
use tanaka.Ledger.Tamper.{verified_same_head}
use tanaka.Tests.ToyHost.{Blob, toy}
use tanaka.Tests.Data.{entry}

empty_verified : verify_ledger toy "key" [] ≡ verified 0
unfolding verify_ledger walk
empty_verified = refl

append-verified_example :
    (r : Receipt Blob) × (text : Blob) × (append toy "key" entry [] ≡ some (r, (1, text) ∷ []))
    × (verify_ledger toy "key" ((1, text) ∷ []) ≡ verified 1)
unfolding next_seq
append-verified_example = append-verified toy "key" entry [] 0 empty_verified

-- The ledger after one append.
first_row :
    (r : Receipt Blob) × (text : Blob) × (append toy "key" entry [] ≡ some (r, (1, text) ∷ []))
    × (verify_ledger toy "key" ((1, text) ∷ []) ≡ verified 1)
unfolding next_seq
first_row = append-verified toy "key" entry [] 0 empty_verified

abbrev one_row : Table Blob
one_row = [] ++ (1, first_row.1) ∷ []

one_row_verified : verify_ledger toy "key" one_row ≡ verified 1
one_row_verified = first_row.3

verified_same_head_example : SameContents toy one_row one_row ⊎ HasCollision toy one_row one_row
verified_same_head_example =
    verified_same_head toy "key" one_row one_row 1 one_row_verified one_row_verified refl

verify_ledger_iff_example :
    (verify_ledger toy "key" one_row ≡ verified 1)
    ↔ Inspected toy "key" one_row (genesis_prev_hash toy)
verify_ledger_iff_example = verify_ledger_iff toy "key" one_row
