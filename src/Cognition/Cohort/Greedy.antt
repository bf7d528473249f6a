-- ===== src/Cognition/Cohort/Greedy.antt =====
-- What the derivation of a cohort selects, in the words of its result.
use super_scientist_orchestr.Prelude.{
  suc, ◌≤◌, ◌≡◌, refl, sym, ap, ◌∙◌, subst, ◌⊎◌, inl, inr, Bool, true, not, ◌&&◌, ◌||◌, some, List,
  [], ◌∷◌, map, arith, ltb, ◌==◌, ◌!=◌, nat_eq, string_eq, option_eq, list_eq, pair_eq, length, any,
  select, contains, text_lt, bind_inv, some_inj, guard_inv,
}
use super_scientist_orchestr.Audit.{Digests}
use super_scientist_orchestr.Json.{Value}
use super_scientist_orchestr.Cognition.{
  CapabilityProfile, CapabilityAssessment, CohortRequest, CohortMember, CohortRankedCandidate,
}
use super_scientist_orchestr.Cognition.Cohort.{
  CohortDerivation, member_of, ranked_candidate, derivation_of, derive_cohort_validated, resolve,
}
use super_scientist_orchestr.Cognition.Candidates.{
  Candidate, actor_of, is_prohibited, assess_all, score, score_all, rank, select_from,
}
use super_scientist_orchestr.Cognition.Cohort.Ranking.{may_precede, rank-IsOrdered, rank-mem}
use super_scientist_orchestr.Cognition.Cohort.Selection.{
  compatible, IsBlocked, length-select_from, compatible-select_from, select_from-IsBlocked,
}
use mathlib.Core.List.{Memᴰ}

-- The score of a member is no lower than that of a candidate, and of equal scores the identifier of
-- the member is not the greater.
abbrev pub ranks_no_lower : CohortMember → CohortRankedCandidate → Bool
ranks_no_lower m c = not (
    ltb m.required_satisfied c.required_satisfied
    || c.required_satisfied == m.required_satisfied
      && (ltb m.preferred_satisfied c.preferred_satisfied
          || c.preferred_satisfied == m.preferred_satisfied && text_lt c.actor_id m.actor_id))

abbrev pub combine : CohortRequest → List CohortMember → Bool
combine request [] = true
combine request (m ∷ ms) =
    not (any (λ n. is_prohibited request.prohibited_combinations n.actor_id m.actor_id) ms)
    && combine request ms

-- What may become of a ranked candidate.
abbrev pub IsSettledFor : CohortRequest → List CohortMember → CohortRankedCandidate → Type 0
IsSettledFor request members c =
    ((m : CohortMember) × Memᴰ m members × (m.actor_id ≡ c.actor_id))
    ⊎ (((length members ≡ request.max_members)
          × ((m : CohortMember) → Memᴰ m members → ranks_no_lower m c ≡ true))
        ⊎ ((m : CohortMember) × Memᴰ m members
            × (is_prohibited request.prohibited_combinations c.actor_id m.actor_id ≡ true)
            × (ranks_no_lower m c ≡ true)))

pub record IsGreedy (request : CohortRequest) (d : CohortDerivation) : Type 0 where
  pub within : length d.members ≤ request.max_members
  pub combined : combine request d.members ≡ true
  pub settled :
      (p : CapabilityProfile)
      → Memᴰ p d.resolved_candidate_profiles
      → (c : CohortRankedCandidate) × Memᴰ c d.ranked_candidates
        × (c.actor_id ≡ p.actor.actor_id)
        × IsSettledFor request d.members c

module _ {A B : Type 0} (f : A → B) where
  map-mem : (xs : List A) {x : A} → Memᴰ x xs → Memᴰ (f x) (map f xs)
  map-mem [] m = elim m [ ]
  map-mem (x ∷ xs) (Memᴰ.head e) = Memᴰ.head (ap f e)
  map-mem (x ∷ xs) (Memᴰ.tail m) = Memᴰ.tail (map-mem xs m)

  mem-mapped : (xs : List A) {y : B} → Memᴰ y (map f xs) → (x : A) × Memᴰ x xs × (y ≡ f x)
  mem-mapped [] m = elim m [ ]
  mem-mapped (x ∷ xs) (Memᴰ.head e) = (x, Memᴰ.head refl, e)
  mem-mapped (x ∷ xs) (Memᴰ.tail m) = let (z, k, e) = mem-mapped xs m in (z, Memᴰ.tail k, e)

  length-mapped : (xs : List A) → length (map f xs) ≡ length xs
  length-mapped [] = refl
  length-mapped (x ∷ xs) = ap suc (length-mapped xs)

any-members :
    (request : CohortRequest) (c : Candidate) (cs : List Candidate)
    → any
        (λ n. is_prohibited request.prohibited_combinations n.actor_id (actor_of c))
        (map member_of cs)
      ≡ any (λ s. is_prohibited request.prohibited_combinations (actor_of s) (actor_of c)) cs
unfolding member_of
any-members request c [] = refl
any-members request c (s ∷ cs) = ground (arith, any-members request c cs)

combine-members :
    (request : CohortRequest) (cs : List Candidate)
    → combine request (map member_of cs) ≡ compatible request cs
unfolding member_of
combine-members request [] = refl
combine-members request (c ∷ cs) =
    ground (arith, any-members request c cs, combine-members request cs)

score-profile :
    (request : CohortRequest) (p : CapabilityProfile) (c : Candidate)
    → score request p ≡ some c
    → c.profile ≡ p
unfolding score
score-profile request p c h =
    let (required, _, rest) = bind_inv (assess_all p request.required_capabilities) _ h in
    let (preferred, _, last) = bind_inv (assess_all p request.preferred_capabilities) _ rest in
    sym (ap (λ (c : Candidate). c.profile) (some_inj last))

-- Each profile is scored.
score_all-mem :
    (request : CohortRequest) (ps : List CapabilityProfile) (cs : List Candidate)
    (p : CapabilityProfile)
    → score_all request ps ≡ some cs
    → Memᴰ p ps
    → (c : Candidate) × Memᴰ c cs × (c.profile ≡ p)
unfolding score_all
score_all-mem request [] cs p h m = elim m [ ]
score_all-mem request (q ∷ ps) cs p h (Memᴰ.head e) =
    let (c, first, rest) = bind_inv (score request q) _ h in
    let (ds, others, last) = bind_inv (score_all request ps) _ rest in
    (
      c,
      subst (λ l. Memᴰ c l) (some_inj last) (Memᴰ.head refl),
      score-profile request q c first ∙ sym e,
    )
score_all-mem request (q ∷ ps) cs p h (Memᴰ.tail m) =
    let (c, first, rest) = bind_inv (score request q) _ h in
    let (ds, others, last) = bind_inv (score_all request ps) _ rest in
    let (d, k, e) = score_all-mem request ps ds p others m in
    (d, subst (λ l. Memᴰ d l) (some_inj last) (Memᴰ.tail k), e)

module _ (digests : Digests) (dump : CapabilityAssessment → Value) (request : CohortRequest) where
  ranks_no_lower-may_precede :
      (s c : Candidate)
      → ranks_no_lower (member_of s) (ranked_candidate digests dump c) ≡ may_precede s c
  unfolding member_of ranked_candidate
  ranks_no_lower-may_precede s c = refl

  settled_for :
      (cohort : List Candidate) (c : Candidate)
      → Memᴰ c cohort ⊎ IsBlocked request cohort c
      → IsSettledFor request (map member_of cohort) (ranked_candidate digests dump c)
  unfolding member_of ranked_candidate
  settled_for cohort c (inl m) = inl (member_of c, map-mem member_of cohort m, refl)
  settled_for cohort c (inr (inl (full, all_before))) = inr (
      inl (
        length-mapped member_of cohort ∙ full,
        λ m k.
            let (s, l, e) = mem-mapped member_of cohort k in
            ap (λ n. ranks_no_lower n (ranked_candidate digests dump c)) e ∙ all_before s l,
      ))
  settled_for cohort c (inr (inr (s, m, clash, before))) =
      inr (inr (member_of s, map-mem member_of cohort m, clash, before))

  derivation_of-IsGreedy :
      (declared candidates : List CapabilityProfile) (scored : List Candidate)
      → score_all request candidates ≡ some scored
      → IsGreedy request (
          derivation_of digests dump request declared candidates
            (rank scored)
            (select_from request [] (rank scored)))
  unfolding derivation_of
  derivation_of-IsGreedy declared candidates scored h = record {
    within =
        let bound = length-select_from request [] (rank scored) (omega arith) in
        let same = length-mapped member_of (select_from request [] (rank scored)) in omega arith;
    combined =
        combine-members request (select_from request [] (rank scored))
        ∙ compatible-select_from request [] (rank scored) refl;
    settled = λ p m.
        let (c, k, e) = score_all-mem request candidates scored p h m in
        let ranked = rank-mem scored k in
        (
          ranked_candidate digests dump c,
          map-mem (ranked_candidate digests dump) (rank scored) ranked,
          ap (λ q. q.actor.actor_id) e,
          settled_for (select_from request [] (rank scored)) c (
              select_from-IsBlocked request [] (rank scored) c (omega arith) (rank-IsOrdered scored)
                (λ s d k l. elim k [ ]) ranked),
        );
  }

  -- A derived cohort has at most `max_members` members, no two of which are a prohibited
  -- combination; and each resolved candidate is ranked and is a member, or the cohort is full, or a
  -- member must not be combined with it. The members that keep a candidate out rank no lower.
  pub derive_cohort_validated-IsGreedy :
      (profiles : List CapabilityProfile) (d : CohortDerivation)
      → derive_cohort_validated digests dump request profiles ≡ some d
      → IsGreedy request d
  unfolding derive_cohort_validated
  derive_cohort_validated-IsGreedy profiles d h =
      let declared = select (λ p. contains request.candidate_actor_ids p.actor.actor_id) profiles in
      let (_, derived) =
        guard_inv (any (λ p. p.governing_policy_hash != request.governing_policy_hash) declared) _
          h in
      let candidates = resolve request.candidate_actor_ids declared in
      let (scored, e, made) = bind_inv (score_all request candidates) _ derived in
      subst (λ r. IsGreedy request r) (some_inj made)
        (derivation_of-IsGreedy declared candidates scored e)
