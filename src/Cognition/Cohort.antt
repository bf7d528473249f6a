-- ===== src/Cognition/Cohort.antt =====
-- `_derive_cohort_validated` of domain/cognition/grounding.py: the profiles that a request names, and
-- what a cohort records of its ranked and of its selected candidates.
pub mod Ranking
pub mod Selection
pub mod Greedy
use super_scientist_orchestr.Prelude.{
  ℕ, zero, suc, String, Bool, false, not, Option, none, some, List, [], ◌∷◌, ◌++◌, map, ltb, leb,
  if◌then◌else◌, ◌==◌, ◌!=◌, nat_eq, string_eq, option_eq, list_eq, pair_eq, length, any, select,
  is_empty, contains, sorted, ◌>>=◌, sorted_texts, distinct,
}
use super_scientist_orchestr.Audit.{Digests}
use super_scientist_orchestr.Json.{Value}
use super_scientist_orchestr.Cognition.{
  disposition_eq, CapabilityProfile, CapabilityRequirement, CapabilityAssessment, CohortRequest,
  CohortMember, CohortRankedCandidate, CapabilityCoverage, CohortTieRank,
}
use super_scientist_orchestr.Cognition.Candidates.{
  Candidate, is_satisfied, score_all, actor_of, rank, select_from,
}

-- `by_actor`: of two profiles of one actor, the later one counts.
abbrev pub by_actor : String → List CapabilityProfile → Option CapabilityProfile
by_actor id [] = none
by_actor id (p ∷ ps) = elim (by_actor id ps) [
  | some q ↦ some q
  | none ↦ if p.actor.actor_id == id then some p else none
]

abbrev pub resolve : List String → List CapabilityProfile → List CapabilityProfile
resolve [] profiles = []
resolve (id ∷ ids) profiles = elim (by_actor id profiles) [
  | some p ↦ p ∷ resolve ids profiles
  | none ↦ resolve ids profiles
]

abbrev pub unresolved : List String → List CapabilityProfile → List String
unresolved [] profiles = []
unresolved (id ∷ ids) profiles = elim (by_actor id profiles) [
  | some p ↦ unresolved ids profiles
  | none ↦ id ∷ unresolved ids profiles
]

-- `score_groups` in `score_order`: the actors of each score, the best score first.
abbrev pub add_to_group :
    ℕ × ℕ → String → List ((ℕ × ℕ) × List String) → List ((ℕ × ℕ) × List String)
add_to_group key id [] = (key, id ∷ []) ∷ []
add_to_group key id ((k, ids) ∷ groups) =
    let rest = add_to_group key id groups in
    if k == key then (k, ids ++ id ∷ []) ∷ groups else (k, ids) ∷ rest

abbrev pub group_from : List ((ℕ × ℕ) × List String) → List Candidate → List ((ℕ × ℕ) × List String)
group_from groups [] = groups
group_from groups (c ∷ cs) =
    group_from (add_to_group (c.required_count, c.preferred_count) (actor_of c) groups) cs

-- The groups of more than one actor.
unfoldable pub tied_groups : List Candidate → List ((ℕ × ℕ) × List String)
tied_groups ranked = select (λ group. ltb 1 (length group.1)) (group_from [] ranked)

-- `candidate_index_by_actor[id]`; the identifiers of a request are distinct.
abbrev pub index_of : String → List String → ℕ
index_of id [] = 0
index_of id (x ∷ xs) = let rest = index_of id xs in if x == id then 0 else suc rest

-- `assessments[index].disposition is SATISFIED`; there is an assessment for each requirement.
abbrev pub is_satisfied_at : ℕ → List CapabilityAssessment → Bool
is_satisfied_at index [] = false
is_satisfied_at zero (a ∷ as') = is_satisfied a
is_satisfied_at (suc index) (a ∷ as') = is_satisfied_at index as'

abbrev pub covering : CohortRequest → ℕ → List Candidate → List ℕ
covering request index selected =
    map (λ c. index_of (actor_of c) request.candidate_actor_ids)
      (select (λ c. is_satisfied_at index c.assessments) selected)

abbrev pub coverage_from :
    CohortRequest → List Candidate → ℕ → List CapabilityRequirement → List CapabilityCoverage
coverage_from request selected index [] = []
coverage_from request selected index (r ∷ rs) =
    record {
      requirement_id = r.requirement_id;
      satisfying_actor_indexes = sorted ltb (covering request index selected);
    }
    ∷ coverage_from request selected (suc index) rs

unfoldable pub coverage_of : CohortRequest → List Candidate → List CapabilityCoverage
coverage_of request selected = coverage_from request selected 0 request.required_capabilities

unfoldable pub member_of : Candidate → CohortMember
member_of c = record {
  actor_id = actor_of c;
  profile_id = c.profile.profile_id;
  profile_content_hash = c.profile.content_hash;
  required_satisfied = c.required_count;
  preferred_satisfied = c.preferred_count;
}

pub record CohortDerivation : Type 0 where
  pub resolved_candidate_profiles : List CapabilityProfile
  pub members : List CohortMember
  pub excluded_actor_ids : List String
  pub coverage : List CapabilityCoverage
  pub unresolved_requirement_ids : List String
  pub unresolved_candidate_actor_ids : List String
  pub ranked_candidates : List CohortRankedCandidate
  pub tie_sets : List (List String)
  pub tie_group_ranks : List CohortTieRank
  pub evidence_snapshot_hashes : List String
  pub profile_content_hashes : List String
  pub minimum_size_met : Bool

-- `dump` is what `model_dump` makes of an assessment.
module _ (digests : Digests) (dump : CapabilityAssessment → Value) where
  abbrev pub assessment_hash : CapabilityAssessment → String
  assessment_hash a = digests.sha256_hex (digests.canonical_json (dump a))

  unfoldable pub ranked_candidate : Candidate → CohortRankedCandidate
  ranked_candidate c = record {
    actor_id = actor_of c;
    profile_id = c.profile.profile_id;
    profile_content_hash = c.profile.content_hash;
    required_satisfied = c.required_count;
    preferred_satisfied = c.preferred_count;
    assessment_hashes = map assessment_hash c.assessments;
  }

  -- The derivation from the ranked candidates and from the items selected of them.
  unfoldable pub derivation_of :
      CohortRequest
      → List CapabilityProfile
      → List CapabilityProfile
      → List Candidate
      → List Candidate
      → CohortDerivation
  unfolding member_of ranked_candidate coverage_of tied_groups
  derivation_of request declared candidates ranked selected =
      let members = map member_of selected in
      let coverage = coverage_of request selected in
      record {
        resolved_candidate_profiles = candidates;
        members = members;
        excluded_actor_ids = sorted_texts (
            map (λ p. p.actor.actor_id)
              (select (λ p. not (contains (map actor_of selected) p.actor.actor_id)) candidates));
        coverage = coverage;
        unresolved_requirement_ids =
            map (λ c. c.requirement_id)
              (select (λ c. is_empty c.satisfying_actor_indexes) coverage);
        unresolved_candidate_actor_ids = unresolved request.candidate_actor_ids declared;
        ranked_candidates = map ranked_candidate ranked;
        tie_sets = map (λ group. sorted_texts group.1) (tied_groups ranked);
        tie_group_ranks =
            map
              (λ group. record { required_satisfied = group.0.0; preferred_satisfied = group.0.1 })
              (tied_groups ranked);
        evidence_snapshot_hashes = sorted_texts (
            distinct (
              map (λ r. r.evidence_snapshot_hash)
                (request.required_capabilities ++ request.preferred_capabilities)));
        profile_content_hashes = sorted_texts (map (λ p. p.content_hash) candidates);
        minimum_size_met = leb request.min_members (length members);
      }

  -- `none` is the `ValueError` on a profile under another policy, or of a validator.
  unfoldable pub derive_cohort_validated :
      CohortRequest → List CapabilityProfile → Option CohortDerivation
  derive_cohort_validated request profiles =
      let declared = select (λ p. contains request.candidate_actor_ids p.actor.actor_id) profiles in
      let candidates = resolve request.candidate_actor_ids declared in
      if any (λ p. p.governing_policy_hash != request.governing_policy_hash) declared
      then none
      else (score_all request candidates >>= (λ scored.
          let ranked = rank scored in
          some (derivation_of request declared candidates ranked (select_from request [] ranked))))
