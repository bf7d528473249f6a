-- ===== src/Cognition/Assessment.antt =====
-- How a profile is assessed against a requirement: `CapabilityAssessment` with its validators in
-- domain/cognition/models.py, and `_assess_capability_validated` of domain/cognition/grounding.py.
use super_scientist_orchestr.Prelude.{
  String, Bool, not, ◌&&◌, ◌||◌, Option, none, some, List, [], ◌∷◌, ◌++◌, if◌then◌else◌, ◌==◌,
  nat_eq, string_eq, option_eq, list_eq, any, select, is_empty, contains, subset, is_canonical,
  sorted_texts, distinct,
}
use super_scientist_orchestr.Cognition.{
  CapabilityEvidenceStatus, status_eq, CapabilityDisposition, disposition_eq, CapabilityAssertion,
  CapabilityProfile, CapabilityRequirement, CapabilityAssessment, assertion_ids,
}

-- `require_canonical_collections`.
unfoldable pub has_canonical_collections : CapabilityAssessment → Bool
has_canonical_collections a =
    is_canonical a.matched_assertion_ids
    && is_canonical a.verified_assertion_ids
    && is_canonical a.missing_dimensions
    && is_canonical a.failed_dimensions

-- The last part of `require_consistent_semantics`, for each disposition.
abbrev pub is_disposed : CapabilityDisposition → CapabilityAssessment → Bool
is_disposed CapabilityDisposition.satisfied a =
    a.evidence_status == CapabilityEvidenceStatus.verified
    && not (is_empty a.verified_assertion_ids)
    && is_empty a.missing_dimensions
    && is_empty a.failed_dimensions
is_disposed CapabilityDisposition.unsatisfied a =
    not (is_empty a.failed_dimensions)
    && not (a.evidence_status == CapabilityEvidenceStatus.self_reported)
    && not (a.evidence_status == CapabilityEvidenceStatus.unknown)
    && not (
        a.evidence_status == CapabilityEvidenceStatus.verified && is_empty a.verified_assertion_ids)
is_disposed CapabilityDisposition.unknown a =
    not (is_empty a.missing_dimensions && is_empty a.failed_dimensions)
    && not (a.evidence_status == CapabilityEvidenceStatus.unsupported)

-- `require_consistent_semantics`.
unfoldable pub has_consistent_semantics : CapabilityAssessment → Bool
has_consistent_semantics a =
    subset a.verified_assertion_ids a.matched_assertion_ids
    && (is_empty a.verified_assertion_ids || a.evidence_status == CapabilityEvidenceStatus.verified)
    && (not (is_empty a.matched_assertion_ids)
        || a.evidence_status == CapabilityEvidenceStatus.unknown)
    && is_disposed a.disposition a

-- The constructor of the model: `none` is the error of a validator.
abbrev pub validated : CapabilityAssessment → Option CapabilityAssessment
validated a = if has_canonical_collections a && has_consistent_semantics a then some a else none

abbrev pub has_status : CapabilityEvidenceStatus → List CapabilityAssertion → Bool
has_status status = any (λ a. a.status == status)

-- The first of the statuses in the order of `from_matches`; each assertion has one of the four.
unfoldable pub evidence_status_of : List CapabilityAssertion → CapabilityEvidenceStatus
evidence_status_of matching =
    if has_status CapabilityEvidenceStatus.verified matching
    then CapabilityEvidenceStatus.verified
    else if has_status CapabilityEvidenceStatus.unsupported matching
    then CapabilityEvidenceStatus.unsupported
    else if has_status CapabilityEvidenceStatus.self_reported matching
    then CapabilityEvidenceStatus.self_reported
    else CapabilityEvidenceStatus.unknown

-- One of the `dimensions`: its name, if something required is not available.
abbrev pub missing_dimension : String → List String → List String → List String
missing_dimension name required available = if subset required available then [] else name ∷ []

unfoldable pub missing_of : CapabilityProfile → CapabilityRequirement → List String
missing_of profile r =
    missing_dimension "required_tools" r.required_tools profile.allowed_tools
    ++ missing_dimension "required_modalities" r.required_modalities profile.modalities
    ++ missing_dimension "required_schema_ids" r.required_schema_ids profile.supported_schemas
    ++ missing_dimension "required_execution_constraints" r.required_execution_constraints
        profile.execution_constraints

-- `set(xs) & set(ys)` is not empty.
abbrev pub meets : List String → List String → Bool
meets xs ys = any (contains ys) xs

unfoldable pub failed_of : CapabilityProfile → CapabilityRequirement → List String
failed_of profile r =
    if meets r.disqualifying_failure_categories profile.known_failure_categories
    then "known_failure_categories" ∷ []
    else []

-- The disposition, and the dimensions that are missing and that failed.
pub record Verdict : Type 0 where
  pub disposition : CapabilityDisposition
  pub missing : List String
  pub failed : List String

unfoldable pub verdict_of :
    List CapabilityAssertion → List CapabilityAssertion → List String → List String → Verdict
verdict_of matching verified missing failed =
    if not (is_empty verified)
    then record {
      disposition =
          if not (is_empty failed)
          then CapabilityDisposition.unsatisfied
          else if not (is_empty missing)
          then CapabilityDisposition.unknown
          else CapabilityDisposition.satisfied;
      missing = missing;
      failed = failed;
    }
    else if has_status CapabilityEvidenceStatus.unsupported matching
    then record {
      disposition = CapabilityDisposition.unsatisfied;
      missing = missing;
      failed = failed ++ "capability_support" ∷ [];
    }
    else if has_status CapabilityEvidenceStatus.verified matching
    then record {
      disposition = CapabilityDisposition.unknown;
      missing = missing;
      failed = failed ++ "evidence_snapshot_hash" ∷ [];
    }
    else record {
      disposition = CapabilityDisposition.unknown;
      missing = missing ++ "verified_evidence" ∷ [];
      failed = failed;
    }

-- The assessment where no assertion matches, and where some do.
unfoldable pub unmatched : CapabilityProfile → CapabilityRequirement → CapabilityAssessment
unmatched profile requirement = record {
  profile_id = profile.profile_id;
  actor_id = profile.actor.actor_id;
  requirement = requirement;
  matched_assertion_ids = [];
  verified_assertion_ids = [];
  disposition = CapabilityDisposition.unknown;
  evidence_status = CapabilityEvidenceStatus.unknown;
  missing_dimensions = "capability_evidence" ∷ [];
  failed_dimensions = [];
}

unfoldable pub matched :
    CapabilityProfile
    → CapabilityRequirement
    → List CapabilityAssertion
    → List CapabilityAssertion
    → Verdict
    → CapabilityAssessment
matched profile requirement matching verified verdict = record {
  profile_id = profile.profile_id;
  actor_id = profile.actor.actor_id;
  requirement = requirement;
  matched_assertion_ids = sorted_texts (assertion_ids matching);
  verified_assertion_ids = sorted_texts (assertion_ids verified);
  disposition = verdict.disposition;
  evidence_status = evidence_status_of matching;
  missing_dimensions = sorted_texts (distinct verdict.missing);
  failed_dimensions = sorted_texts (distinct verdict.failed);
}

unfoldable pub from_matches :
    CapabilityProfile
    → CapabilityRequirement
    → List CapabilityAssertion
    → List CapabilityAssertion
    → Option CapabilityAssessment
unfolding has_canonical_collections has_consistent_semantics
from_matches profile requirement matching verified =
    if is_empty matching
    then validated (unmatched profile requirement)
    else validated (
        matched profile requirement matching verified (
          verdict_of matching verified (missing_of profile requirement)
            (failed_of profile requirement)))

-- The two filters of `_assess_capability_validated`.
abbrev pub is_matching : CapabilityRequirement → CapabilityAssertion → Bool
is_matching r a = a.capability_id == r.capability_id && a.task_family_id == r.task_family_id

abbrev pub is_verified_for : CapabilityRequirement → CapabilityAssertion → Bool
is_verified_for r a =
    a.status == CapabilityEvidenceStatus.verified
    && a.evidence_snapshot_hash == r.evidence_snapshot_hash

unfoldable pub assess_capability_validated :
    CapabilityProfile → CapabilityRequirement → Option CapabilityAssessment
assess_capability_validated profile requirement =
    let matching = select (is_matching requirement) profile.assertions in
    from_matches profile requirement matching (select (is_verified_for requirement) matching)
