-- ===== src/Samples/Cohorts.antt =====
-- Two actors with profiles, a request for a cohort of them, and the theorems at these.
use super_scientist_orchestr.Prelude.{
  String, ◌≡◌, refl, ◌↔◌, Option, none, some, List, [], ◌∷◌, map, true, is_some, is_some-inv,
  decide, is_canonical, sorted,
}
use super_scientist_orchestr.Identity.{ActorIdentity}
use super_scientist_orchestr.Json.{Value, text}
use super_scientist_orchestr.Cognition.{
  CapabilityEvidenceStatus, CapabilityDisposition, CapabilityAssertion, CapabilityProfile,
  CapabilityRequirement, CapabilityAssessment, CohortRequest, has_sorted_assertions,
  CapabilityAssertion-discrete,
}
use super_scientist_orchestr.Cognition.Assessment.{
  assess_capability_validated, evidence_status_of, failed_of, from_matches, matched, missing_of,
  unmatched, verdict_of,
}
use super_scientist_orchestr.Cognition.Grounding.{IsMet, assess_capability_validated_iff}
use super_scientist_orchestr.Cognition.Cohort.{
  CohortDerivation, derive_cohort_validated, derivation_of,
}
use super_scientist_orchestr.Cognition.Candidates.{rank, score, score_all, select_from}
use super_scientist_orchestr.Cognition.Cohort.Greedy.{IsGreedy, derive_cohort_validated-IsGreedy}
use super_scientist_orchestr.Samples.{person, machine}
use super_scientist_orchestr.Samples.Audits.{digests_example}

abbrev proof_search : CapabilityEvidenceStatus → CapabilityAssertion
proof_search status = record {
  assertion_id = "assertion-1";
  capability_id = "proof-search";
  task_family_id = "algebra";
  status = status;
  evidence_ids = "evidence-1" ∷ [];
  validator_id = some "validator-1";
  validator_version = some "1";
  evidence_snapshot_hash = "00";
}

abbrev pub profile_of : ActorIdentity → List String → List CapabilityAssertion → CapabilityProfile
profile_of actor failures assertions = record {
  profile_id = actor.actor_id;
  actor = actor;
  diversity_fingerprint = record {
    fingerprint_id = actor.actor_id;
    model_family = none;
    model_version = none;
    scale_class = none;
    provider = none;
    adapter_hash = none;
    configuration_hash = none;
    prompt_strategy = none;
    methodological_prior = none;
    tools = none;
    evidence_partitions = none;
    modalities = none;
    previous_error_clusters = none;
    prior_task_specializations = none;
    assigned_role = none;
    procedure_family = none;
  };
  allowed_tools = "prover" ∷ [];
  modalities = [];
  supported_schemas = [];
  execution_constraints = [];
  known_failure_categories = failures;
  assertions = assertions;
  governing_policy_hash = "policy";
  content_hash = actor.actor_id;
}

abbrev skilled : CapabilityProfile
skilled =
    profile_of (machine "model-1" "m") [] (proof_search CapabilityEvidenceStatus.verified ∷ [])

abbrev failing : CapabilityProfile
failing =
    profile_of (machine "model-2" "m") ("sign-errors" ∷ [])
      (proof_search CapabilityEvidenceStatus.verified ∷ [])

abbrev novice : CapabilityProfile
novice = profile_of (person "alice") [] []

abbrev pub requirement_example : CapabilityRequirement
requirement_example = record {
  requirement_id = "requirement-1";
  capability_id = "proof-search";
  task_family_id = "algebra";
  evidence_snapshot_hash = "00";
  required_tools = "prover" ∷ [];
  required_modalities = [];
  required_schema_ids = [];
  required_execution_constraints = [];
  disqualifying_failure_categories = "sign-errors" ∷ [];
}

abbrev pub request_example : CohortRequest
request_example = record {
  request_id = "request-1";
  task_id = "task-1";
  required_capabilities = requirement_example ∷ [];
  preferred_capabilities = [];
  min_members = 1;
  max_members = 2;
  candidate_actor_ids = "alice" ∷ "model-1" ∷ "model-2" ∷ [];
  prohibited_combinations = ("alice", "model-1") ∷ [];
  governing_policy_hash = "policy";
  content_hash = "request";
}

abbrev disposition_of : CapabilityProfile → Option CapabilityDisposition
disposition_of p = elim (assess_capability_validated p requirement_example) [
  | none ↦ none
  | some a ↦ some a.disposition
]

skilled_run : disposition_of skilled ≡ some CapabilityDisposition.satisfied
unfolding assess_capability_validated from_matches is_canonical matched sorted verdict_of missing_of
    failed_of evidence_status_of
skilled_run = refl

failing_run : disposition_of failing ≡ some CapabilityDisposition.unsatisfied
unfolding assess_capability_validated from_matches is_canonical matched sorted verdict_of missing_of
    failed_of evidence_status_of
failing_run = refl

novice_run : disposition_of novice ≡ some CapabilityDisposition.unknown
unfolding assess_capability_validated from_matches is_canonical unmatched sorted
novice_run = refl

skilled-has_sorted_assertions : has_sorted_assertions skilled.assertions ≡ true
unfolding has_sorted_assertions sorted decide CapabilityAssertion-discrete
skilled-has_sorted_assertions = refl

assess_capability_example :
    (a : CapabilityAssessment) × (assess_capability_validated skilled requirement_example ≡ some a)
    × ((a.disposition ≡ CapabilityDisposition.satisfied) ↔ IsMet skilled requirement_example)
assess_capability_example =
    assess_capability_validated_iff skilled requirement_example skilled-has_sorted_assertions

abbrev dump_example : CapabilityAssessment → Value
dump_example a = text a.profile_id

abbrev cohort_example : Option CohortDerivation
cohort_example =
    derive_cohort_validated digests_example dump_example request_example
      (novice ∷ skilled ∷ failing ∷ [])

cohort_run : is_some cohort_example ≡ true
unfolding derive_cohort_validated score_all score assess_capability_validated from_matches
    is_canonical unmatched sorted matched verdict_of missing_of failed_of evidence_status_of
cohort_run = refl

abbrev members_of : Option CohortDerivation → List String
members_of none = []
members_of (some d) = map (λ m. m.actor_id) d.members

-- The person comes behind the skilled model, and must not be combined with it.
members_run : members_of cohort_example ≡ "model-1" ∷ "model-2" ∷ []
unfolding derive_cohort_validated score_all score assess_capability_validated from_matches
    is_canonical unmatched sorted matched verdict_of missing_of failed_of evidence_status_of
    derivation_of select_from rank
members_run = refl

derive_cohort_example : IsGreedy request_example (is_some-inv cohort_example cohort_run).0
derive_cohort_example =
    derive_cohort_validated-IsGreedy digests_example dump_example request_example
      (novice ∷ skilled ∷ failing ∷ []) (is_some-inv cohort_example cohort_run).0
      (is_some-inv cohort_example cohort_run).1
