-- ===== src/Cognition/Candidates.antt =====
-- The candidates for a cohort: how `_derive_cohort_validated` of domain/cognition/grounding.py ranks
-- them and selects from them.
use super_scientist_orchestr.Prelude.{
  ℕ, ◌+◌, String, Bool, false, not, ◌&&◌, ◌||◌, Option, some, List, [], ◌∷◌, ◌++◌, ltb, leb,
  if◌then◌else◌, ◌==◌, nat_eq, string_eq, option_eq, list_eq, pair_eq, length, any, sorted, text_lt,
  ◌>>=◌,
}
use super_scientist_orchestr.Cognition.{
  CapabilityDisposition, disposition_eq, CapabilityProfile, CapabilityRequirement,
  CapabilityAssessment, CohortRequest,
}
use super_scientist_orchestr.Cognition.Assessment.{assess_capability_validated}

-- An item of the list `ranked`: a score, a profile and its assessments.
pub record Candidate : Type 0 where
  pub required_count : ℕ
  pub preferred_count : ℕ
  pub profile : CapabilityProfile
  pub assessments : List CapabilityAssessment

abbrev pub is_satisfied : CapabilityAssessment → Bool
is_satisfied a = a.disposition == CapabilityDisposition.satisfied

-- `sum(assessment.disposition is SATISFIED for ...)`
abbrev pub count_satisfied : List CapabilityAssessment → ℕ
count_satisfied [] = 0
count_satisfied (a ∷ as') = (if is_satisfied a then 1 else 0) + count_satisfied as'

-- The assessments of a profile against each requirement, in order; `none` if one of them raises.
abbrev pub assess_all :
    CapabilityProfile → List CapabilityRequirement → Option (List CapabilityAssessment)
assess_all profile [] = some []
assess_all profile (r ∷ rs) =
    assess_capability_validated profile r
    >>= (λ a. assess_all profile rs >>= (λ rest. some (a ∷ rest)))

unfoldable pub score : CohortRequest → CapabilityProfile → Option Candidate
score request profile = assess_all profile request.required_capabilities >>= (λ required.
    assess_all profile request.preferred_capabilities >>= (λ preferred. some (record {
      required_count = count_satisfied required;
      preferred_count = count_satisfied preferred;
      profile = profile;
      assessments = required ++ preferred;
    })))

unfoldable pub score_all : CohortRequest → List CapabilityProfile → Option (List Candidate)
score_all request [] = some []
score_all request (p ∷ ps) =
    score request p >>= (λ c. score_all request ps >>= (λ rest. some (c ∷ rest)))

abbrev pub actor_of : Candidate → String
actor_of c = c.profile.actor.actor_id

-- The order of the keys `(-required, -preferred, actor_id)`.
abbrev pub ranks_before : Candidate → Candidate → Bool
ranks_before a b =
    ltb b.required_count a.required_count
    || a.required_count == b.required_count
      && (ltb b.preferred_count a.preferred_count
          || a.preferred_count == b.preferred_count && text_lt (actor_of a) (actor_of b))

-- `ranked.sort(...)`, which is stable.
unfoldable pub rank : List Candidate → List Candidate
rank = sorted (λ a b. not (ranks_before b a))

-- `frozenset((a, b)) in prohibited`
abbrev pub is_prohibited : List (String × String) → String → String → Bool
is_prohibited [] a b = false
is_prohibited ((l, r) ∷ pairs) a b =
    (l == a && r == b || l == b && r == a) || is_prohibited pairs a b

abbrev pub clashes : CohortRequest → Candidate → List Candidate → Bool
clashes request c =
    any (λ s. is_prohibited request.prohibited_combinations (actor_of c) (actor_of s))

-- The loop over `ranked`, from the items selected so far.
unfoldable pub select_from : CohortRequest → List Candidate → List Candidate → List Candidate
select_from request selected [] = selected
select_from request selected (c ∷ cs) =
    let skipped = select_from request selected cs in
    let taken = select_from request (selected ++ c ∷ []) cs in
    if leb request.max_members (length selected)
    then selected
    else if clashes request c selected
    then skipped
    else taken
