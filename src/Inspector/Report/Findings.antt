-- ===== src/Inspector/Report/Findings.antt =====
-- `build_report` of inspector.py: the place of a broken chain among the findings.
use tanaka.Prelude.{
  ℕ, ◌<◌, String, ◌==◌, ◌≡◌, refl, Bool, true, ◌||◌, Option, some, List, [], ◌∷◌, ◌++◌, All,
  All-append, lookup, is_some, length, eqb, arith, Bool-cases, Option-cases, inl, inr,
}
use tanaka.Json.{Json}
use tanaka.Host.{Host}
use tanaka.Spine.{genesis_prev_hash}
use tanaka.Chain.{Reason}
use tanaka.Inspector.{Inspection, broken, check_chain}
use tanaka.Inspector.Report.{
  Severity, critical, severity_rank, Finding, reason_rules, chain_findings, rule_findings,
  unknown_findings, mock_findings, finding_leb, insert_finding, sort_findings, sorted_entries,
  Tally, empty_tally, tally_rows, Report, report_rows, report_of, build_report,
}

-- Not of the severity of a broken chain.
abbrev IsLesser : Finding → Type 0
IsLesser f = 0 < severity_rank f.severity

AllLesser-insert_finding :
    (f : Finding) (fs : List Finding)
    → IsLesser f
    → All IsLesser fs
    → All IsLesser (insert_finding f fs)
unfolding insert_finding
AllLesser-insert_finding f [] h hs = (h, tt)
AllLesser-insert_finding f (g ∷ gs) h hs = elim (Bool-cases (finding_leb f g)) [
  | inl before ↦ rw (before, insert_finding) (h, hs)
  | inr after ↦ rw (after, insert_finding) (hs.0, AllLesser-insert_finding f gs h hs.1)
]

AllLesser-sort_findings : (fs : List Finding) → All IsLesser fs → All IsLesser (sort_findings fs)
unfolding sort_findings
AllLesser-sort_findings [] h = tt
AllLesser-sort_findings (f ∷ fs) h =
    AllLesser-insert_finding f (sort_findings fs) h.0 (AllLesser-sort_findings fs h.1)

rule_findings-AllLesser :
    (rules : List (String × (Severity × String))) (by_reason : List (String × List ℕ))
    → All (λ (r : String × (Severity × String)). 0 < severity_rank r.1.0) rules
    → All IsLesser (rule_findings rules by_reason)
unfolding rule_findings
rule_findings-AllLesser [] by_reason h = tt
rule_findings-AllLesser ((reason, (severity, code)) ∷ rules) by_reason h =
    let rest = rule_findings-AllLesser rules by_reason h.1 in
    elim (Option-cases (lookup reason by_reason)) [
      | inl absent ↦ rw (absent, rule_findings) rest
      | inr ([], there) ↦ rw (there, rule_findings) rest
      | inr (seq ∷ seqs, there) ↦ rw (there, rule_findings) (h.0, rest)
    ]

unknown_findings-AllLesser : (d : List (String × List ℕ)) → All IsLesser (unknown_findings d)
unfolding unknown_findings severity_rank
unknown_findings-AllLesser [] = tt
unknown_findings-AllLesser ((reason, seqs) ∷ d) =
    let rest = unknown_findings-AllLesser d in
    elim (Bool-cases
      (is_some (lookup {V = Severity × String} reason reason_rules) || reason == "UNSPECIFIED")) [
        | inl known ↦ rw (known, unknown_findings) rest
        | inr unknown ↦ rw (unknown, unknown_findings) (omega arith, rest)
      ]

mock_findings-AllLesser : (n : ℕ) → All IsLesser (mock_findings n)
unfolding mock_findings severity_rank
mock_findings-AllLesser n = elim (Bool-cases (eqb n 0)) [
  | inl none_seen ↦ rw (none_seen, mock_findings) tt
  | inr some_seen ↦ rw (some_seen, mock_findings) (omega arith, tt)
]

-- A critical finding goes before lesser ones.
insert_finding-critical :
    (f : Finding) (fs : List Finding)
    → severity_rank f.severity ≡ 0
    → All IsLesser fs
    → insert_finding f fs ≡ f ∷ fs
unfolding insert_finding finding_leb
insert_finding-critical f [] h hs = refl
insert_finding-critical f (g ∷ gs) h hs =
    let first : finding_leb f g ≡ true = ground (arith, h, hs.0) in rw (first, insert_finding) refl

reason_rules-AllLesser :
    All (λ (r : String × (Severity × String)). 0 < severity_rank r.1.0) reason_rules
unfolding severity_rank
reason_rules-AllLesser = (
  omega arith,
  (
    omega arith,
    (
      omega arith,
      (
        omega arith,
        (
          omega arith,
          (omega arith, (omega arith, (omega arith, (omega arith, (omega arith, tt))))),
        ),
      ),
    ),
  ),
)

abbrev pub broken_chain : ℕ → Finding
broken_chain seq = record {
  severity = critical;
  code = "CHAIN_BROKEN";
  count = 1;
  receipts = seq ∷ [];
}

findings-report_of :
    (chain : Inspection) (checked : Bool) (seq total : ℕ) (t : Tally)
    → (rest : List Finding) × ((report_of chain checked (broken_chain seq ∷ []) total t).findings
        ≡ broken_chain seq ∷ rest)
      × All IsLesser rest
unfolding report_of sort_findings severity_rank
findings-report_of chain checked seq total t =
    let later =
      rule_findings reason_rules t.by_reason
      ++ unknown_findings (sorted_entries t.by_reason)
      ++ mock_findings t.mock_attestations in
    let lesser = AllLesser-sort_findings later (
      All-append IsLesser
        (rule_findings reason_rules t.by_reason ++ unknown_findings (sorted_entries t.by_reason)) _
        (All-append IsLesser (rule_findings reason_rules t.by_reason) _
          (rule_findings-AllLesser reason_rules t.by_reason reason_rules-AllLesser)
          (unknown_findings-AllLesser (sorted_entries t.by_reason)))
        (mock_findings-AllLesser t.mock_attestations)) in
    (
      sort_findings later,
      insert_finding-critical (broken_chain seq) (sort_findings later) refl lesser,
      lesser,
    )

module _ (host : Host) where
  -- Where the walk finds the chain broken at a row, every report has that as its first finding, and
  -- the only critical one.
  pub broken-first :
      (rows : List (ℕ × Json)) (key : Option host.PublicKey) (seq : ℕ) (reason : Reason)
      (r : Report)
      → check_chain host key rows (genesis_prev_hash host) ≡ broken seq reason
      → build_report host rows key ≡ some r
      → (rest : List Finding) × (r.findings ≡ broken_chain seq ∷ rest)
        × All (λ f. 0 < severity_rank f.severity) rest
  unfolding build_report chain_findings
  broken-first rows key seq reason r e h = elim (Option-cases (report_rows rows)) [
    | inl odd ↦ cc (rw (e, build_report, odd) at h)
    | inr (read, are_rows) ↦
        let built : report_of (broken seq reason) (is_some key) (broken_chain seq ∷ [])
              (length rows) (tally_rows read empty_tally)
            ≡ r =
          cc (rw (e, build_report, are_rows) at h) in
        rw (← built) (
          findings-report_of (broken seq reason) (is_some key) seq (length rows)
            (tally_rows read empty_tally))
  ]
