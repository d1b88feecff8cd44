-- ===== src/Inspector/Report.antt =====
-- `build_report` of inspector.py: the tally over the rows, and the findings that follow from it.
pub mod Totals
pub mod Findings
use tanaka.Prelude.{
  ℕ, suc, ◌+◌, String, ◌==◌, Bool, true, false, ◌||◌, not, Option, none, some, List, [], ◌∷◌, ◌++◌,
  elem, lookup, insert, length, is_some, ltb, eqb, if◌then◌else◌,
}
use tanaka.Prelude.Texts.{str_leb}
use tanaka.Json.{Json, null, bool, int, str, obj, Fields, get, is_text}
use tanaka.Host.{Host}
use tanaka.Spine.{genesis_prev_hash}
use tanaka.Inspector.{Inspection, valid, broken, crashed_at, check_chain}

-- What the loop reads of a row.
pub record ReportRow : Type 0 where
  pub fulfilled : Bool
  pub reason : String
  pub mock : Bool
  pub meta : Option (String × Option String)

-- `row.get("reason_code") or "UNSPECIFIED"`
unfoldable pub reason_of : Option Json → Option String
reason_of none = some "UNSPECIFIED"
reason_of (some null) = some "UNSPECIFIED"
reason_of (some (str s)) = some (if s == "" then "UNSPECIFIED" else s)
reason_of (some _) = none

-- `isinstance(attestation, dict) and attestation.get("mock") is True`
unfoldable pub is_mock : Option Json → Bool
is_mock (some (obj a)) = elim (get "mock" a) [ some (bool b) ↦ b | _ ↦ false ]
is_mock _ = false

-- `meta.get("principal", "(unknown)")`
unfoldable pub principal_of : Option Json → Option String
principal_of none = some "(unknown)"
principal_of (some (str s)) = some s
principal_of (some _) = none

-- `cap = meta.get("capability_id")`, where an empty one counts as none
unfoldable pub capability_of : Option Json → Option (Option String)
capability_of none = some none
capability_of (some null) = some none
capability_of (some (str s)) = some (if s == "" then none else some s)
capability_of (some _) = none

unfoldable pub meta_of : Option Json → Option (Option (String × Option String))
meta_of (some (obj m)) = elim (principal_of (get "principal" m)) [
  | none ↦ none
  | some principal ↦ elim (capability_of (get "capability_id" m)) [
    | none ↦ none
    | some capability ↦ some (some (principal, capability))
  ]
]
meta_of _ = some none

-- `none` for a row whose reason, principal or capability is neither a text nor null: the ledger
-- writes no such row, and the report on one is not modelled.
unfoldable pub report_row : Fields → Option ReportRow
report_row row = elim (reason_of (get "reason_code" row)) [
  | none ↦ none
  | some reason ↦ elim (meta_of (get "order_meta" row)) [
    | none ↦ none
    | some meta ↦ some (record {
      fulfilled = is_text (get "status" row) "FULFILLED";
      reason = reason;
      mock = is_mock (get "attestation" row);
      meta = meta;
    })
  ]
]

-- The entry of one principal.
pub record Activity : Type 0 where
  pub orders : ℕ
  pub fulfilled : ℕ
  pub rejected : ℕ
  pub capabilities : List String

abbrev pub no_activity : Activity
no_activity = record { orders = 0; fulfilled = 0; rejected = 0; capabilities = [] }

pub record Tally : Type 0 where
  pub fulfilled : ℕ
  pub rejected : ℕ
  pub by_reason : List (String × List ℕ)
  pub by_principal : List (String × Activity)
  pub mock_attestations : ℕ
  pub legacy_rows : ℕ

abbrev pub empty_tally : Tally
empty_tally = record {
  fulfilled = 0;
  rejected = 0;
  by_reason = [];
  by_principal = [];
  mock_attestations = 0;
  legacy_rows = 0;
}

-- `d.setdefault(k, default)`, and the entry that is then changed in place
unfoldable pub change_at :
    {V : Type 0} → String → V → (V → V) → List (String × V) → List (String × V)
change_at k default f [] = (k, f default) ∷ []
change_at k default f ((j, v) ∷ d) =
    if j == k then (j, f v) ∷ d else (j, v) ∷ change_at k default f d

unfoldable pub count_order : Bool → Option String → Activity → Activity
count_order fulfilled capability a = record {
  orders = suc a.orders;
  fulfilled = if fulfilled then suc a.fulfilled else a.fulfilled;
  rejected = if fulfilled then a.rejected else suc a.rejected;
  capabilities = elim capability [
    | none ↦ a.capabilities
    | some c ↦ if elem c a.capabilities then a.capabilities else a.capabilities ++ c ∷ []
  ];
}

-- The three parts of the loop's body, in the order of the source.
unfoldable pub tally_status : ℕ → ReportRow → Tally → Tally
tally_status seq row t =
    if row.fulfilled then record t { fulfilled = suc t.fulfilled } else record t {
      rejected = suc t.rejected;
      by_reason = change_at row.reason [] (λ seqs. seqs ++ seq ∷ []) t.by_reason;
    }

unfoldable pub tally_mock : ReportRow → Tally → Tally
tally_mock row t = if row.mock then record t { mock_attestations = suc t.mock_attestations } else t

unfoldable pub tally_meta : ReportRow → Tally → Tally
tally_meta row t = elim row.meta [
  | none ↦ record t { legacy_rows = suc t.legacy_rows }
  | some (principal, capability) ↦ record t {
    by_principal =
        change_at principal no_activity (count_order row.fulfilled capability) t.by_principal;
  }
]

unfoldable pub tally_row : ℕ → ReportRow → Tally → Tally
tally_row seq row t = tally_meta row (tally_mock row (tally_status seq row t))

unfoldable pub tally_rows : List (ℕ × ReportRow) → Tally → Tally
tally_rows [] t = t
tally_rows ((seq, row) ∷ rows) t = tally_rows rows (tally_row seq row t)

pub data Severity : Type 0 where
  critical high medium low info : Severity

-- `severity_rank`
unfoldable pub severity_rank : Severity → ℕ
severity_rank critical = 0
severity_rank high = 1
severity_rank medium = 2
severity_rank low = 3
severity_rank info = 4

-- The wording of a finding is left out: `count` is the number that it names.
pub record Finding : Type 0 where
  pub severity : Severity
  pub code : String
  pub count : ℕ
  pub receipts : List ℕ

abbrev pub reason_rules : List (String × (Severity × String))
reason_rules =
    ("OFF_MENU", (high, "OFF_MENU_ATTEMPTS"))
    ∷ ("REPLAY", (high, "REPLAY_ATTEMPTS"))
    ∷ ("OUT_OF_SCOPE", (medium, "SCOPE_VIOLATIONS"))
    ∷ ("ROLE_NOT_PERMITTED", (medium, "ROLE_VIOLATIONS"))
    ∷ ("RATE_LIMITED", (low, "RATE_PRESSURE"))
    ∷ ("EXECUTION_FAILED", (medium, "EXECUTION_FAILURES"))
    ∷ ("CAPABILITY_PAUSED", (low, "PAUSED_CAPABILITY_HITS"))
    ∷ ("USER_DENIED", (medium, "USER_DENIALS"))
    ∷ ("USER_BLOCKED", (medium, "BLOCKED_CAPABILITY_HITS"))
    ∷ ("MALFORMED_ORDER", (medium, "MALFORMED_INTAKE"))
    ∷ []

-- Where the check of the chain ends in an exception, no report is made.
unfoldable pub chain_findings : Inspection → Option (List Finding)
chain_findings valid = some []
chain_findings (broken seq reason) =
    some
      (record { severity = critical; code = "CHAIN_BROKEN"; count = 1; receipts = seq ∷ [] } ∷ [])
chain_findings (crashed_at seq) = none

unfoldable pub rule_findings :
    List (String × (Severity × String)) → List (String × List ℕ) → List Finding
rule_findings [] by_reason = []
rule_findings ((reason, (severity, code)) ∷ rules) by_reason =
    let rest = rule_findings rules by_reason in
    elim (lookup reason by_reason) [
      | none ↦ rest
      | some [] ↦ rest
      | some (seq ∷ seqs) ↦
          record {
            severity = severity;
            code = code;
            count = length (seq ∷ seqs);
            receipts = seq ∷ seqs;
          }
          ∷ rest
    ]

-- A list of distinct texts in the order of `sorted`.
unfoldable pub insert_sorted : {V : Type 0} → String → V → List (String × V) → List (String × V)
insert_sorted k v [] = (k, v) ∷ []
insert_sorted k v ((j, w) ∷ d) =
    if str_leb k j then (k, v) ∷ (j, w) ∷ d else (j, w) ∷ insert_sorted k v d

unfoldable pub sorted_entries : {V : Type 0} → List (String × V) → List (String × V)
unfolding insert_sorted
sorted_entries [] = []
sorted_entries ((k, v) ∷ d) = insert_sorted k v (sorted_entries d)

unfoldable pub unknown_findings : List (String × List ℕ) → List Finding
unknown_findings [] = []
unknown_findings ((reason, seqs) ∷ d) =
    let rest = unknown_findings d in
    if is_some (lookup {V = Severity × String} reason reason_rules) || reason == "UNSPECIFIED"
    then rest
    else record {
      severity = medium;
      code = "UNRECOGNIZED_REASON";
      count = length seqs;
      receipts = seqs;
    }
      ∷ rest

unfoldable pub mock_findings : ℕ → List Finding
mock_findings n =
    if eqb n 0
    then []
    else record { severity = info; code = "ATTESTATION_IS_MOCK"; count = n; receipts = [] } ∷ []

-- `(severity_rank[f["severity"]], f["code"])`, compared
unfoldable pub finding_leb : Finding → Finding → Bool
unfolding severity_rank
finding_leb f g =
    if eqb (severity_rank f.severity) (severity_rank g.severity)
    then str_leb f.code g.code
    else ltb (severity_rank f.severity) (severity_rank g.severity)

-- `findings.sort(...)`, which leaves equal findings in their order
unfoldable pub insert_finding : Finding → List Finding → List Finding
insert_finding f [] = f ∷ []
insert_finding f (g ∷ gs) = if finding_leb f g then f ∷ g ∷ gs else g ∷ insert_finding f gs

unfoldable pub sort_findings : List Finding → List Finding
unfolding insert_finding
sort_findings [] = []
sort_findings (f ∷ fs) = insert_finding f (sort_findings fs)

pub record Report : Type 0 where
  pub receipts_total : ℕ
  pub chain : Inspection
  pub signatures_checked : Bool
  pub fulfilled : ℕ
  pub rejected : ℕ
  pub by_reason : List (String × ℕ)
  pub by_principal : List (String × Activity)
  pub legacy_rows : ℕ
  pub findings : List Finding

-- `len(v)` of every value
unfoldable pub lengths : List (String × List ℕ) → List (String × ℕ)
lengths [] = []
lengths ((k, seqs) ∷ d) = (k, length seqs) ∷ lengths d

unfoldable pub report_rows : List (ℕ × Json) → Option (List (ℕ × ReportRow))
report_rows [] = some []
report_rows ((seq, obj row) ∷ rows) = elim (report_row row) [
  | none ↦ none
  | some r ↦ elim (report_rows rows) [ none ↦ none | some rs ↦ some ((seq, r) ∷ rs) ]
]
report_rows ((seq, _) ∷ rows) = none

unfoldable pub report_of : Inspection → Bool → List Finding → ℕ → Tally → Report
unfolding rule_findings unknown_findings mock_findings sort_findings sorted_entries lengths
report_of chain checked chain_broken total t = record {
  receipts_total = total;
  chain = chain;
  signatures_checked = checked;
  fulfilled = t.fulfilled;
  rejected = t.rejected;
  by_reason = lengths (sorted_entries t.by_reason);
  by_principal = sorted_entries t.by_principal;
  legacy_rows = t.legacy_rows;
  findings = sort_findings (
      chain_broken
      ++ rule_findings reason_rules t.by_reason
      ++ unknown_findings (sorted_entries t.by_reason)
      ++ mock_findings t.mock_attestations);
}

module _ (host : Host) where
  open host use {PublicKey}

  unfoldable pub build_report : List (ℕ × Json) → Option PublicKey → Option Report
  build_report rows key =
      let chain = check_chain host key rows (genesis_prev_hash host) in
      elim (chain_findings chain) [
        | none ↦ none
        | some chain_broken ↦ elim (report_rows rows) [
          | none ↦ none
          | some read ↦ some (
              report_of chain (is_some key) chain_broken (length rows)
                (tally_rows read empty_tally))
        ]
      ]
