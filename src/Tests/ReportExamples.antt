-- ===== src/Tests/ReportExamples.antt =====
-- The inspector's report on a ledger with one altered row.
use tanaka.Prelude.{ℕ, ◌≡◌, ◌<◌, refl, false, some, none, List, [], ◌∷◌, All}
use tanaka.Json.{Json, str, null, obj, dict}
use tanaka.Json.Sort.{sort_keys}
use tanaka.Spine.{genesis_prev_hash}
use tanaka.Chain.{hash_mismatch}
use tanaka.Inspector.{check_chain, inspect_row, broken}
use tanaka.Inspector.Report.{
  Report, ReportRow, Finding, severity_rank, report_rows, report_row, reason_of, meta_of,
  chain_findings, report_of, tally_rows, empty_tally, build_report,
}
use tanaka.Inspector.Report.Totals.{AddsUp, build_report-AddsUp}
use tanaka.Inspector.Report.Findings.{broken_chain, broken-first}
use tanaka.Tests.ToyHost.{toy, hash}

abbrev altered : List (ℕ × Json)
altered =
    (
      1,
      obj (
          dict (
            ("receipt_id", str "rcpt-1")
            ∷ ("status", str "REJECTED")
            ∷ ("reason_code", str "OUT_OF_SCOPE")
            ∷ ("attestation", null)
            ∷ ("this_hash", str "altered")
            ∷ [])),
    )
    ∷ []

abbrev read : List (ℕ × ReportRow)
read = elim (report_rows altered) [ some rows ↦ rows | none ↦ [] ]

abbrev report : Report
report =
    report_of (broken 1 hash_mismatch) false (broken_chain 1 ∷ []) 1 (tally_rows read empty_tally)

altered_broken : check_chain toy none altered (genesis_prev_hash toy) ≡ broken 1 hash_mismatch
unfolding check_chain inspect_row hash sort_keys
altered_broken = refl

altered_reported : build_report toy altered none ≡ some report
unfolding build_report report_rows report_row chain_findings check_chain inspect_row hash sort_keys
    reason_of meta_of
altered_reported = refl

build_report-AddsUp_example : AddsUp 1 report
build_report-AddsUp_example = build_report-AddsUp toy altered none report altered_reported

broken-first_example :
    (rest : List Finding) × (report.findings ≡ broken_chain 1 ∷ rest)
    × All (λ f. 0 < severity_rank f.severity) rest
broken-first_example =
    broken-first toy altered none 1 hash_mismatch report altered_broken altered_reported
