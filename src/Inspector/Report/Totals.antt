-- ===== src/Inspector/Report/Totals.antt =====
-- `build_report` of inspector.py: how its numbers add up.
use tanaka.Prelude.{
  is_some, ℕ, suc, ◌+◌, String, ◌==◌, ◌≡◌, refl, ap, sym, subst, ◌∙◌, Bool, true, false, Option,
  none, some, List, [], ◌∷◌, ◌++◌, All, length, length-append, arith, Bool-cases, Option-cases, inl,
  inr,
}
use tanaka.Prelude.Texts.{str_leb}
use tanaka.Json.{Json, null, obj}
use tanaka.Host.{Host}
use tanaka.Spine.{genesis_prev_hash}
use tanaka.Inspector.{Inspection, check_chain}
use tanaka.Inspector.Report.{
  ReportRow, report_row, Activity, no_activity, Tally, empty_tally, change_at, count_order,
  tally_status, tally_mock, tally_meta, tally_row, tally_rows, Finding, chain_findings,
  insert_sorted, sorted_entries, lengths, Report, report_rows, report_of, build_report,
}

-- The sum of a measure over the values of a dict.
module _ {V : Type 0} (measure : V → ℕ) where
  abbrev pub sum_of : List (String × V) → ℕ
  sum_of [] = 0
  sum_of ((k, v) ∷ d) = measure v + sum_of d

  sum_of-change_at :
      (k : String) (default : V) (f : V → V)
      → measure default ≡ 0
      → ((v : V) → measure (f v) ≡ measure v + 1)
      → (d : List (String × V)) → sum_of (change_at k default f d) ≡ sum_of d + 1
  unfolding change_at
  sum_of-change_at k default f zero one [] = omega (arith, zero, one default)
  sum_of-change_at k default f zero one ((j, v) ∷ d) =
      ground (arith, one v, sum_of-change_at k default f zero one d)

  sum_of-insert_sorted :
      (k : String) (v : V) (d : List (String × V))
      → sum_of (insert_sorted k v d) ≡ measure v + sum_of d
  unfolding insert_sorted
  sum_of-insert_sorted k v [] = refl
  sum_of-insert_sorted k v ((j, w) ∷ d) = ground (arith, sum_of-insert_sorted k v d)

  sum_of-sorted_entries : (d : List (String × V)) → sum_of (sorted_entries d) ≡ sum_of d
  unfolding sorted_entries
  sum_of-sorted_entries [] = refl
  sum_of-sorted_entries ((k, v) ∷ d) =
      sum_of-insert_sorted k v (sorted_entries d) ∙ omega (arith, sum_of-sorted_entries d)

-- The entry of a principal counts each order once.
abbrev IsSplit : Activity → Type 0
IsSplit a = a.orders ≡ a.fulfilled + a.rejected

abbrev AllSplit : List (String × Activity) → Type 0
AllSplit = All (λ (e : String × Activity). IsSplit e.1)

count_order-IsSplit :
    (fulfilled : Bool) (capability : Option String) (a : Activity)
    → IsSplit a
    → IsSplit (count_order fulfilled capability a)
unfolding count_order
count_order-IsSplit true capability a h = omega (arith, h)
count_order-IsSplit false capability a h = omega (arith, h)

AllSplit-change_at :
    (k : String) (fulfilled : Bool) (capability : Option String) (d : List (String × Activity))
    → AllSplit d
    → AllSplit (change_at k no_activity (count_order fulfilled capability) d)
unfolding change_at
AllSplit-change_at k fulfilled capability [] h =
    (count_order-IsSplit fulfilled capability no_activity refl, tt)
AllSplit-change_at k fulfilled capability ((j, a) ∷ d) h = elim (Bool-cases (j == k)) [
  | inl same ↦ rw (same, change_at) (count_order-IsSplit fulfilled capability a h.0, h.1)
  | inr other ↦ rw (other, change_at) (h.0, AllSplit-change_at k fulfilled capability d h.1)
]

AllSplit-insert_sorted :
    (k : String) (a : Activity) (d : List (String × Activity))
    → IsSplit a
    → AllSplit d
    → AllSplit (insert_sorted k a d)
unfolding insert_sorted
AllSplit-insert_sorted k a [] h hs = (h, tt)
AllSplit-insert_sorted k a ((j, b) ∷ d) h hs = elim (Bool-cases (str_leb k j)) [
  | inl before ↦ rw (before, insert_sorted) (h, hs)
  | inr after ↦ rw (after, insert_sorted) (hs.0, AllSplit-insert_sorted k a d h hs.1)
]

AllSplit-sorted_entries : (d : List (String × Activity)) → AllSplit d → AllSplit (sorted_entries d)
unfolding sorted_entries
AllSplit-sorted_entries [] h = tt
AllSplit-sorted_entries ((k, a) ∷ d) h =
    AllSplit-insert_sorted k a (sorted_entries d) h.0 (AllSplit-sorted_entries d h.1)

-- The tally after the statuses of `n` rows and the metadata of `m`.
record IsBalanced (n m : ℕ) (t : Tally) : Type 0 where
  total : t.fulfilled + t.rejected ≡ n
  reasons : sum_of (λ (seqs : List ℕ). length seqs) t.by_reason ≡ t.rejected
  principals : sum_of (λ (a : Activity). a.orders) t.by_principal + t.legacy_rows ≡ m
  split : AllSplit t.by_principal

tally_status-IsBalanced :
    (seq n m : ℕ) (row : ReportRow) (t : Tally)
    → IsBalanced n m t
    → IsBalanced (n + 1) m (tally_status seq row t)
unfolding tally_status
tally_status-IsBalanced seq n m row t b = elim (Bool-cases row.fulfilled) [
  | inl yes_it ↦
      rw (yes_it, tally_status)
        (record {
          total = omega (arith, b.total);
          reasons = b.reasons;
          principals = b.principals;
          split = b.split;
        })
  | inr no_it ↦
      rw (no_it, tally_status)
        (record {
          total = omega (arith, b.total);
          reasons =
              sum_of-change_at (λ (seqs : List ℕ). length seqs) row.reason []
                (λ seqs. seqs ++ seq ∷ []) refl (λ v. length-append v (seq ∷ [])) t.by_reason
              ∙ omega (arith, b.reasons);
          principals = b.principals;
          split = b.split;
        })
]

tally_mock-IsBalanced :
    (n m : ℕ) (row : ReportRow) (t : Tally) → IsBalanced n m t → IsBalanced n m (tally_mock row t)
unfolding tally_mock
tally_mock-IsBalanced n m row t b = elim (Bool-cases row.mock) [
  | inl yes_it ↦
      rw (yes_it, tally_mock)
        (record {
          total = b.total;
          reasons = b.reasons;
          principals = b.principals;
          split = b.split;
        })
  | inr no_it ↦ rw (no_it, tally_mock) b
]

tally_meta-IsBalanced :
    (n m : ℕ) (row : ReportRow) (t : Tally)
    → IsBalanced n m t
    → IsBalanced n (m + 1) (tally_meta row t)
unfolding tally_meta count_order
tally_meta-IsBalanced n m row t b = elim (Option-cases row.meta) [
  | inl legacy ↦
      rw (legacy, tally_meta)
        (record {
          total = b.total;
          reasons = b.reasons;
          principals = omega (arith, b.principals);
          split = b.split;
        })
  | inr ((principal, capability), known) ↦
      rw (known, tally_meta)
        (record {
          total = b.total;
          reasons = b.reasons;
          principals = omega (
            arith,
            b.principals,
            sum_of-change_at (λ (a : Activity). a.orders) principal no_activity
                (count_order row.fulfilled capability) refl (λ v. omega arith) t.by_principal,
          );
          split = AllSplit-change_at principal row.fulfilled capability t.by_principal b.split;
        })
]

tally_rows-IsBalanced :
    (rows : List (ℕ × ReportRow)) (n : ℕ) (t : Tally)
    → IsBalanced n n t
    → IsBalanced (n + length rows) (n + length rows) (tally_rows rows t)
unfolding tally_rows tally_row
tally_rows-IsBalanced [] n t b =
    let e : n ≡ n + 0 = omega arith in subst (λ k. IsBalanced k k t) e b
tally_rows-IsBalanced ((seq, row) ∷ rows) n t b =
    let next = tally_rows-IsBalanced rows (n + 1) (tally_row seq row t) (
      tally_meta-IsBalanced (n + 1) n row (tally_mock row (tally_status seq row t)) (
        tally_mock-IsBalanced (n + 1) n row (tally_status seq row t)
          (tally_status-IsBalanced seq n n row t b))) in
    let e : n + 1 + length rows ≡ n + length ((seq, row) ∷ rows) = omega arith in
    subst (λ k. IsBalanced k k (tally_rows rows (tally_row seq row t))) e next

length-report_rows :
    (rows : List (ℕ × Json)) {read : List (ℕ × ReportRow)}
    → report_rows rows ≡ some read
    → length read ≡ length rows
unfolding report_rows
length-report_rows [] h =
    ap (λ (o : Option (List (ℕ × ReportRow))). elim o [ none ↦ 0 | some l ↦ length l ]) (sym h)
length-report_rows ((seq, obj row) ∷ rows) {read} h = elim (Option-cases (report_row row)) [
  | inl odd ↦ cc (rw (odd, report_rows) at h)
  | inr (r, is_row) ↦ elim (Option-cases (report_rows rows)) [
    | inl odd ↦ cc (rw (is_row, report_rows, odd) at h)
    | inr (rs, later) ↦
        let it : (seq, r) ∷ rs ≡ read = cc (rw (is_row, report_rows, later) at h) in
        rw (← it) (ap suc (length-report_rows rows later))
  ]
]
length-report_rows ((seq, null) ∷ rows) h = cc
length-report_rows ((seq, _) ∷ rows) h = cc

sum_of-lengths :
    (d : List (String × List ℕ))
    → sum_of (λ n. n) (lengths d) ≡ sum_of (λ (seqs : List ℕ). length seqs) d
unfolding lengths
sum_of-lengths [] = refl
sum_of-lengths ((k, seqs) ∷ d) = ap (λ n. length seqs + n) (sum_of-lengths d)

-- The numbers of a report agree with each other and with the number of the rows.
pub record AddsUp (total : ℕ) (r : Report) : Type 0 where
  pub counted : r.receipts_total ≡ total
  pub statuses : r.fulfilled + r.rejected ≡ total
  pub reasons : sum_of (λ n. n) r.by_reason ≡ r.rejected
  pub principals : sum_of (λ (a : Activity). a.orders) r.by_principal + r.legacy_rows ≡ total
  pub split : AllSplit r.by_principal

report_of-AddsUp :
    (chain : Inspection) (checked : Bool) (chain_broken : List Finding)
    (rows : List (ℕ × ReportRow))
    → AddsUp
        (length rows)
        (report_of chain checked chain_broken (length rows) (tally_rows rows empty_tally))
unfolding report_of
report_of-AddsUp chain checked chain_broken rows =
    let t = tally_rows rows empty_tally in
    let b =
      tally_rows-IsBalanced rows 0 empty_tally
        (record { total = refl; reasons = refl; principals = refl; split = tt }) in
    record {
      counted = refl;
      statuses = omega (arith, b.total);
      reasons =
          sum_of-lengths (sorted_entries t.by_reason)
          ∙ sum_of-sorted_entries (λ (seqs : List ℕ). length seqs) t.by_reason
          ∙ b.reasons;
      principals =
          omega (
            arith,
            b.principals,
            sum_of-sorted_entries (λ (a : Activity). a.orders) t.by_principal,
          );
      split = AllSplit-sorted_entries t.by_principal b.split;
    }

module _ (host : Host) where
  -- Every report adds up: the fulfilled and the rejected receipts are all receipts, the reasons
  -- count the rejected ones, each order with metadata is counted under one principal, the others
  -- are the legacy rows, and each principal's orders are their fulfilled and their rejected ones.
  pub build_report-AddsUp :
      (rows : List (ℕ × Json)) (key : Option host.PublicKey) (r : Report)
      → build_report host rows key ≡ some r
      → AddsUp (length rows) r
  unfolding build_report
  build_report-AddsUp rows key r h =
      let chain = check_chain host key rows (genesis_prev_hash host) in
      elim (Option-cases (chain_findings chain)) [
        | inl crash ↦ cc (rw (crash, build_report) at h)
        | inr (chain_broken, checked) ↦ elim (Option-cases (report_rows rows)) [
          | inl odd ↦ cc (rw (checked, build_report, odd) at h)
          | inr (read, are_rows) ↦
              let same = length-report_rows rows are_rows in
              let built : report_of chain (is_some key) chain_broken (length rows)
                    (tally_rows read empty_tally)
                  ≡ r =
                cc (rw (checked, build_report, are_rows) at h) in
              rw (← built) (
                subst
                  (λ k.
                    AddsUp k
                      (report_of chain (is_some key) chain_broken k (tally_rows read empty_tally)))
                  same (report_of-AddsUp chain (is_some key) chain_broken read))
        ]
      ]
