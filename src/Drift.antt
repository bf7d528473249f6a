-- ===== src/Drift.antt =====
-- evaluation/claim_drift: the deterministic checks of a claim against the recorded evidence.
pub mod Support
use super_scientist_orchestr.Prelude.{
  ℕ, String, ◌≡◌, Bool, true, false, not, Option, none, some, List, [], ◌∷◌, arith, if◌then◌else◌,
  Eq, ◌==◌, nat_eq, string_eq, option_eq, list_eq, indexed_eq, is_empty, lookup, occurs,
}
use super_scientist_orchestr.Claim.{EvidenceLink, AtomicClaim}
use super_scientist_orchestr.Evidence.{EvidenceSpan, EvidenceRecord}

pub data CheckOutcome : Type 0 where
  pass_deterministic fail_deterministic requires_independent_review not_applicable : CheckOutcome

abbrev pub outcome_index : CheckOutcome → ℕ
outcome_index CheckOutcome.pass_deterministic = 0
outcome_index CheckOutcome.fail_deterministic = 1
outcome_index CheckOutcome.requires_independent_review = 2
outcome_index CheckOutcome.not_applicable = 3

pub outcome_index_inj : (a b : CheckOutcome) → outcome_index a ≡ outcome_index b → a ≡ b
outcome_index_inj a b h = ground arith

instance abbrev pub outcome_eq : Eq CheckOutcome
outcome_eq = indexed_eq outcome_index outcome_index_inj

pub record CheckResult : Type 0 where
  pub code : String
  pub outcome : CheckOutcome
  pub reason : String
  pub validator_version : String

-- A result with the default `validator_version`.
abbrev pub check : String → CheckOutcome → String → CheckResult
check code outcome reason = record {
  code = code;
  outcome = outcome;
  reason = reason;
  validator_version = "1";
}

-- The mapping from evidence identifiers to records.
abbrev pub EvidenceById : Type 0
EvidenceById = List (String × EvidenceRecord)

abbrev pub source_result : Bool → CheckResult
source_result true = check "source_exists" CheckOutcome.pass_deterministic "linked evidence exists"
source_result false =
    check "source_exists" CheckOutcome.fail_deterministic "linked evidence does not exist"

-- The evidence is found, and carries the identifier that it is filed under.
abbrev pub is_filed : EvidenceLink → Option EvidenceRecord → Bool
is_filed link none = false
is_filed link (some evidence) = evidence.evidence_id == link.evidence_id

unfoldable pub check_source_exists : EvidenceLink → EvidenceById → CheckResult
check_source_exists link evidence_by_id =
    source_result (is_filed link (lookup link.evidence_id evidence_by_id))

abbrev pub span_result : Bool → CheckResult
span_result true =
    check "evidence_span_exists" CheckOutcome.pass_deterministic
      "supporting span exists in linked evidence"
span_result false =
    check "evidence_span_exists" CheckOutcome.fail_deterministic
      "supporting span is unavailable in linked evidence"

abbrev pub holds_span : EvidenceLink → Option EvidenceSpan → Bool
holds_span link none = false
holds_span link (some span) = occurs link.supporting_span span.text

-- `evidence_by_id[link.evidence_id]`: the mapping has the key, since the source check passed.
abbrev pub record_holds_span : EvidenceLink → Option EvidenceRecord → Bool
record_holds_span link none = false
record_holds_span link (some evidence) = holds_span link evidence.extracted_span

unfoldable pub check_evidence_span_exists : EvidenceLink → EvidenceById → CheckResult → CheckResult
check_evidence_span_exists link evidence_by_id source_check =
    if not (source_check.outcome == CheckOutcome.pass_deterministic)
    then check "evidence_span_exists" CheckOutcome.not_applicable
        "supporting span cannot be checked without linked evidence"
    else span_result (record_holds_span link (lookup link.evidence_id evidence_by_id))

unfoldable pub check_evidence_link : EvidenceLink → EvidenceById → CheckResult
unfolding check_source_exists check_evidence_span_exists
check_evidence_link link evidence_by_id =
    let source_check = check_source_exists link evidence_by_id in
    let span_check = check_evidence_span_exists link evidence_by_id source_check in
    if not (source_check.outcome == CheckOutcome.pass_deterministic)
    then source_check
    else if not (span_check.outcome == CheckOutcome.pass_deterministic)
    then span_check
    else check "evidence_link" CheckOutcome.pass_deterministic
        "linked evidence and exact span exist"

-- The loop over the links of `run_deterministic_checks`.
unfoldable pub link_checks : List EvidenceLink → EvidenceById → List CheckResult
unfolding check_source_exists check_evidence_span_exists
link_checks [] evidence_by_id = []
link_checks (link ∷ links) evidence_by_id =
    let source_check = check_source_exists link evidence_by_id in
    source_check
    ∷ check_evidence_span_exists link evidence_by_id source_check
    ∷ link_checks links evidence_by_id

unfoldable pub run_deterministic_checks : AtomicClaim → EvidenceById → List CheckResult
unfolding link_checks
run_deterministic_checks claim evidence_by_id =
    if is_empty claim.evidence_links
    then check "source_exists" CheckOutcome.fail_deterministic "claim has no evidence links"
      ∷ check "evidence_span_exists" CheckOutcome.not_applicable
          "supporting span cannot be checked without evidence links"
      ∷ []
    else link_checks claim.evidence_links evidence_by_id
