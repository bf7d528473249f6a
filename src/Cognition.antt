-- ===== src/Cognition.antt =====
-- domain/cognition/models.py: the capabilities that actors assert, and the requirements, requests
-- and scores of a cohort. The field `schema_version`, which is always 1, is left out.
pub mod Assessment
pub mod Grounding
pub mod Candidates
pub mod Cohort
use super_scientist_orchestr.Prelude.{
  ℕ, ◌+◌, String, ◌≡◌, Bool, not, ◌&&◌, ◌||◌, Option, none, List, map, leb, is_empty, arith,
  indexed_eq, Eq, ◌==◌, nat_eq, string_eq, option_eq, list_eq, length, all, any, contains, unique,
  is_canonical, text_lt, if◌then◌else◌, is_canonical_pairs, sorted, pair_eq, discrete_eq,
  eq→discrete, String-discrete, decide,
}
use super_scientist_orchestr.Identity.{ActorIdentity}

pub data CapabilityEvidenceStatus : Type 0 where
  verified self_reported unsupported unknown : CapabilityEvidenceStatus

abbrev pub status_index : CapabilityEvidenceStatus → ℕ
status_index CapabilityEvidenceStatus.verified = 0
status_index CapabilityEvidenceStatus.self_reported = 1
status_index CapabilityEvidenceStatus.unsupported = 2
status_index CapabilityEvidenceStatus.unknown = 3

pub status_index_inj : (a b : CapabilityEvidenceStatus) → status_index a ≡ status_index b → a ≡ b
status_index_inj a b h = ground arith

instance abbrev pub status_eq : Eq CapabilityEvidenceStatus
status_eq = indexed_eq status_index status_index_inj

pub data CapabilityDisposition : Type 0 where
  satisfied unsatisfied unknown : CapabilityDisposition

abbrev pub disposition_index : CapabilityDisposition → ℕ
disposition_index CapabilityDisposition.satisfied = 0
disposition_index CapabilityDisposition.unsatisfied = 1
disposition_index CapabilityDisposition.unknown = 2

pub disposition_index_inj :
    (a b : CapabilityDisposition) → disposition_index a ≡ disposition_index b → a ≡ b
disposition_index_inj a b h = ground arith

instance abbrev pub disposition_eq : Eq CapabilityDisposition
disposition_eq = indexed_eq disposition_index disposition_index_inj

pub record CapabilityAssertion : Type 0 where
  pub assertion_id : String
  pub capability_id : String
  pub task_family_id : String
  pub status : CapabilityEvidenceStatus
  pub evidence_ids : List String
  pub validator_id : Option String
  pub validator_version : Option String
  pub evidence_snapshot_hash : String

-- `require_canonical_evidence_ids` and `require_grounded_verification`.
unfoldable pub is_grounded : CapabilityAssertion → Bool
is_grounded a =
    is_canonical a.evidence_ids
    && (if a.status == CapabilityEvidenceStatus.verified
        then not (is_empty a.evidence_ids || a.validator_id == none || a.validator_version == none)
        else a.validator_id == none && a.validator_version == none)

pub record DiversityFingerprint : Type 0 where
  pub fingerprint_id : String
  pub model_family : Option String
  pub model_version : Option String
  pub scale_class : Option String
  pub provider : Option String
  pub adapter_hash : Option String
  pub configuration_hash : Option String
  pub prompt_strategy : Option String
  pub methodological_prior : Option String
  pub tools : Option (List String)
  pub evidence_partitions : Option (List String)
  pub modalities : Option (List String)
  pub previous_error_clusters : Option (List String)
  pub prior_task_specializations : Option (List String)
  pub assigned_role : Option String
  pub procedure_family : Option String

pub record CapabilityProfile : Type 0 where
  pub profile_id : String
  pub actor : ActorIdentity
  pub diversity_fingerprint : DiversityFingerprint
  pub allowed_tools : List String
  pub modalities : List String
  pub supported_schemas : List String
  pub execution_constraints : List String
  pub known_failure_categories : List String
  pub assertions : List CapabilityAssertion
  pub governing_policy_hash : String
  pub content_hash : String

abbrev pub assertion_ids : List CapabilityAssertion → List String
assertion_ids = map (λ a. a.assertion_id)

-- The order of `require_sorted_assertions`: by capability, task family and identifier.
abbrev pub assertion_lt : CapabilityAssertion → CapabilityAssertion → Bool
assertion_lt a b =
    text_lt a.capability_id b.capability_id
    || a.capability_id == b.capability_id
      && (text_lt a.task_family_id b.task_family_id
          || a.task_family_id == b.task_family_id && text_lt a.assertion_id b.assertion_id)

unfoldable pub CapabilityAssertion-discrete : Discrete CapabilityAssertion
unfolding decide String-discrete eq→discrete
CapabilityAssertion-discrete = hlevel (String-discrete, eq→discrete status_eq)

instance abbrev pub assertion_eq : Eq CapabilityAssertion
assertion_eq = discrete_eq CapabilityAssertion-discrete

abbrev pub logical_keys : List CapabilityAssertion → List (String × String)
logical_keys = map (λ a. (a.capability_id, a.task_family_id))

-- `require_sorted_assertions`; the sort is stable.
unfoldable pub has_sorted_assertions : List CapabilityAssertion → Bool
has_sorted_assertions assertions =
    unique (assertion_ids assertions)
    && unique (logical_keys assertions)
    && assertions == sorted (λ a b. not (assertion_lt b a)) assertions

-- `require_canonical_collections` and `require_fingerprint_identity_alignment`.
unfoldable pub has_aligned_identity : CapabilityProfile → Bool
has_aligned_identity p =
    is_canonical p.allowed_tools
    && is_canonical p.modalities
    && is_canonical p.supported_schemas
    && is_canonical p.execution_constraints
    && is_canonical p.known_failure_categories
    && (p.diversity_fingerprint.provider == none
        || p.diversity_fingerprint.provider == p.actor.provider_id)
    && (p.diversity_fingerprint.configuration_hash == none
        || p.diversity_fingerprint.configuration_hash == p.actor.configuration_hash)

pub record CapabilityRequirement : Type 0 where
  pub requirement_id : String
  pub capability_id : String
  pub task_family_id : String
  pub evidence_snapshot_hash : String
  pub required_tools : List String
  pub required_modalities : List String
  pub required_schema_ids : List String
  pub required_execution_constraints : List String
  pub disqualifying_failure_categories : List String

pub record CapabilityAssessment : Type 0 where
  pub profile_id : String
  pub actor_id : String
  pub requirement : CapabilityRequirement
  pub matched_assertion_ids : List String
  pub verified_assertion_ids : List String
  pub disposition : CapabilityDisposition
  pub evidence_status : CapabilityEvidenceStatus
  pub missing_dimensions : List String
  pub failed_dimensions : List String

pub record CohortRequest : Type 0 where
  pub request_id : String
  pub task_id : String
  pub required_capabilities : List CapabilityRequirement
  pub preferred_capabilities : List CapabilityRequirement
  pub min_members : ℕ
  pub max_members : ℕ
  pub candidate_actor_ids : List String
  pub prohibited_combinations : List (String × String)
  pub governing_policy_hash : String
  pub content_hash : String

abbrev pub requirement_ids : List CapabilityRequirement → List String
requirement_ids = map (λ r. r.requirement_id)

-- The validators of `_CohortRequestPayload`.
unfoldable pub is_coherent_request : CohortRequest → Bool
unfolding is_canonical
is_coherent_request r =
    is_canonical (requirement_ids r.required_capabilities)
    && is_canonical (requirement_ids r.preferred_capabilities)
    && is_canonical r.candidate_actor_ids
    && all (λ pair. text_lt pair.0 pair.1) r.prohibited_combinations
    && is_canonical_pairs r.prohibited_combinations
    && leb r.min_members r.max_members
    && not (
        any (contains (requirement_ids r.preferred_capabilities))
          (requirement_ids r.required_capabilities))
    && leb (length r.required_capabilities + length r.preferred_capabilities) 64

pub record CohortMember : Type 0 where
  pub actor_id : String
  pub profile_id : String
  pub profile_content_hash : String
  pub required_satisfied : ℕ
  pub preferred_satisfied : ℕ

pub record CohortRankedCandidate : Type 0 where
  pub actor_id : String
  pub profile_id : String
  pub profile_content_hash : String
  pub required_satisfied : ℕ
  pub preferred_satisfied : ℕ
  pub assessment_hashes : List String

pub record CapabilityCoverage : Type 0 where
  pub requirement_id : String
  pub satisfying_actor_indexes : List ℕ

pub record CohortTieRank : Type 0 where
  pub required_satisfied : ℕ
  pub preferred_satisfied : ℕ

pub record CohortPlan : Type 0 where
  pub cohort_plan_id : String
  pub request_id : String
  pub request_content_hash : String
  pub request_snapshot : CohortRequest
  pub task_id : String
  pub resolved_candidate_profiles : List CapabilityProfile
  pub members : List CohortMember
  pub excluded_actor_ids : List String
  pub coverage : List CapabilityCoverage
  pub unresolved_requirement_ids : List String
  pub unresolved_candidate_actor_ids : List String
  pub ranked_candidates : List CohortRankedCandidate
  pub tie_sets : List (List String)
  pub tie_group_ranks : List CohortTieRank
  pub evidence_snapshot_hashes : List String
  pub profile_content_hashes : List String
  pub minimum_size_met : Bool
  pub governing_policy_hash : String
  pub content_hash : String
