-- ===== src/Cognition/Grounding.antt =====
-- `_assess_capability_validated` of domain/cognition/grounding.py beside the validators of an
-- assessment and beside what a requirement asks for.
use super_scientist_orchestr.Prelude.{
  String, ◌≡◌, refl, sym, ap, subst, ◌↔◌, ◌⊎◌, inl, inr, true, false, some, List, [], ◌∷◌, ◌++◌,
  arith, Bool-cases, ◌==◌, ==_iff, ==_refl, ==_comm, nat_eq, string_eq, option_eq, list_eq, pair_eq,
  select, is_empty, contains, subset, unique, sorted, mem-select, select-mem, insert_sorted,
  is_empty-sorted, is_empty-distinct, is_canonical, distinct, sorted-distinct-is_canonical,
  sorted-is_canonical,
}
use super_scientist_orchestr.Cognition.{
  CapabilityEvidenceStatus, status_eq, CapabilityDisposition, disposition_eq, CapabilityAssertion,
  CapabilityProfile, CapabilityRequirement, CapabilityAssessment, logical_keys,
  has_sorted_assertions,
}
use super_scientist_orchestr.Cognition.Assessment.{
  has_canonical_collections, has_consistent_semantics, validated, evidence_status_of, missing_of,
  meets, failed_of, Verdict, verdict_of, unmatched, matched, from_matches, is_matching,
  is_verified_for, assess_capability_validated,
}
use mathlib.Core.List.{Memᴰ}

no_matching :
    (r : CapabilityRequirement) (xs : List CapabilityAssertion)
    → contains (logical_keys xs) (r.capability_id, r.task_family_id) ≡ false
    → select (is_matching r) xs ≡ []
no_matching r [] h = refl
no_matching r (a ∷ xs) h = ground (
  arith,
  ==_comm r.capability_id a.capability_id,
  ==_comm r.task_family_id a.task_family_id,
  no_matching r xs,
)

-- At most one assertion has the capability and the task family of a requirement.
matching_cases :
    (r : CapabilityRequirement) (xs : List CapabilityAssertion)
    → unique (logical_keys xs) ≡ true
    → (select (is_matching r) xs ≡ [])
      ⊎ ((a : CapabilityAssertion) × (select (is_matching r) xs ≡ a ∷ []))
matching_cases r [] h = inl refl
matching_cases r (a ∷ xs) h = elim (Bool-cases (is_matching r a)) [
  | inl match ↦ inr (
    a,
    rw match (
        ap (λ (l : List CapabilityAssertion). a ∷ l)
          (no_matching r xs (
            ground (
              arith,
              ==_iff a.capability_id r.capability_id,
              ==_iff a.task_family_id r.task_family_id,
            )))),
  )
  | inr other ↦ rw other (matching_cases r xs (ground arith))
]

-- What satisfies a requirement: an assertion of the same capability, task family and evidence that
-- is verified, all that is required, and no disqualifying failure.
pub record IsMet (p : CapabilityProfile) (r : CapabilityRequirement) : Type 0 where
  pub evidence :
      (a : CapabilityAssertion) × Memᴰ a p.assertions
      × (a.capability_id ≡ r.capability_id)
      × (a.task_family_id ≡ r.task_family_id)
      × (a.status ≡ CapabilityEvidenceStatus.verified)
      × (a.evidence_snapshot_hash ≡ r.evidence_snapshot_hash)
  pub tools : subset r.required_tools p.allowed_tools ≡ true
  pub modalities : subset r.required_modalities p.modalities ≡ true
  pub schemas : subset r.required_schema_ids p.supported_schemas ≡ true
  pub constraints : subset r.required_execution_constraints p.execution_constraints ≡ true
  pub failures : meets r.disqualifying_failure_categories p.known_failure_categories ≡ false

is_empty-append : (xs : List String) (x : String) → is_empty (xs ++ x ∷ []) ≡ false
is_empty-append [] x = refl
is_empty-append (y ∷ ys) x = refl

-- A single assertion that matches: the verdict on it.
abbrev single_verdict : CapabilityProfile → CapabilityRequirement → CapabilityAssertion → Verdict
single_verdict p r a =
    verdict_of (a ∷ []) (select (is_verified_for r) (a ∷ [])) (missing_of p r) (failed_of p r)

abbrev single_match :
    CapabilityProfile → CapabilityRequirement → CapabilityAssertion → CapabilityAssessment
single_match p r a =
    matched p r (a ∷ []) (select (is_verified_for r) (a ∷ [])) (single_verdict p r a)

single-has_canonical :
    (p : CapabilityProfile) (r : CapabilityRequirement) (a : CapabilityAssertion)
    → has_canonical_collections (single_match p r a) ≡ true
unfolding has_canonical_collections matched
single-has_canonical p r a = ground (
  arith,
  sorted-is_canonical (a.assertion_id ∷ []),
  sorted-is_canonical [],
  sorted-distinct-is_canonical (single_verdict p r a).missing,
  sorted-distinct-is_canonical (single_verdict p r a).failed,
)

single-has_consistent :
    (p : CapabilityProfile) (r : CapabilityRequirement) (a : CapabilityAssertion)
    → has_consistent_semantics (single_match p r a) ≡ true
unfolding has_consistent_semantics matched verdict_of evidence_status_of sorted insert_sorted
single-has_consistent p r a = ground (
  arith,
  ==_refl a.assertion_id,
  is_empty-sorted (distinct (missing_of p r)),
  is_empty-distinct (missing_of p r),
  is_empty-sorted (distinct (failed_of p r)),
  is_empty-distinct (failed_of p r),
  is_empty-sorted (distinct (failed_of p r ++ "capability_support" ∷ [])),
  is_empty-distinct (failed_of p r ++ "capability_support" ∷ []),
  is_empty-sorted (distinct (failed_of p r ++ "evidence_snapshot_hash" ∷ [])),
  is_empty-distinct (failed_of p r ++ "evidence_snapshot_hash" ∷ []),
  is_empty-sorted (distinct (missing_of p r ++ "verified_evidence" ∷ [])),
  is_empty-distinct (missing_of p r ++ "verified_evidence" ∷ []),
  is_empty-append (failed_of p r) "capability_support",
  is_empty-append (failed_of p r) "evidence_snapshot_hash",
  is_empty-append (missing_of p r) "verified_evidence",
)

-- Nothing is missing and nothing failed, in the words of `IsMet`.
missing_of-nil :
    (p : CapabilityProfile) (r : CapabilityRequirement)
    → (is_empty (missing_of p r) ≡ true) ↔ (
        (subset r.required_tools p.allowed_tools ≡ true)
        × (subset r.required_modalities p.modalities ≡ true)
        × (subset r.required_schema_ids p.supported_schemas ≡ true)
        × (subset r.required_execution_constraints p.execution_constraints ≡ true))
unfolding missing_of
missing_of-nil p r = (λ h. ground arith, λ h. ground arith)

failed_of-nil :
    (p : CapabilityProfile) (r : CapabilityRequirement)
    → (is_empty (failed_of p r) ≡ true)
      ↔ (meets r.disqualifying_failure_categories p.known_failure_categories ≡ false)
unfolding failed_of
failed_of-nil p r = (λ h. ground arith, λ h. ground arith)

single-satisfied :
    (p : CapabilityProfile) (r : CapabilityRequirement) (a : CapabilityAssertion)
    → ((single_match p r a).disposition ≡ CapabilityDisposition.satisfied) ↔ (
        (is_verified_for r a ≡ true)
        × (is_empty (missing_of p r) ≡ true)
        × (is_empty (failed_of p r) ≡ true))
unfolding matched verdict_of
single-satisfied p r a = (λ h. ground arith, λ h. ground arith)

mem-single : {a b : CapabilityAssertion} → Memᴰ b (a ∷ []) → b ≡ a
mem-single (Memᴰ.head e) = e
mem-single (Memᴰ.tail m) = elim m [ ]

status_iff : (a b : CapabilityEvidenceStatus) → ((a == b) ≡ true) ↔ (a ≡ b)
status_iff a b = ==_iff a b

-- Where one assertion matches, the requirement is met exactly if that assertion is verified and
-- nothing is missing and nothing failed.
single-IsMet :
    (p : CapabilityProfile) (r : CapabilityRequirement) (a : CapabilityAssertion)
    → select (is_matching r) p.assertions ≡ a ∷ []
    → IsMet p r ↔ (
        (is_verified_for r a ≡ true)
        × (is_empty (missing_of p r) ≡ true)
        × (is_empty (failed_of p r) ≡ true))
single-IsMet p r a h = (
  λ met.
      let (b, m, c, t, s, e) = met.evidence in
      let same : Memᴰ b (a ∷ []) =
        subst (λ l. Memᴰ b l) h
          (select-mem (is_matching r) p.assertions m (
            ground (
              arith,
              ==_iff b.capability_id r.capability_id,
              ==_iff b.task_family_id r.task_family_id,
            ))) in
      let equal : b ≡ a = mem-single same in
      (
        ground (
          arith,
          equal,
          status_iff b.status CapabilityEvidenceStatus.verified,
          ==_iff b.evidence_snapshot_hash r.evidence_snapshot_hash,
        ),
        (missing_of-nil p r).1 (met.tools, met.modalities, met.schemas, met.constraints),
        (failed_of-nil p r).1 met.failures,
      ),
  λ (v, missing, failed).
      let (tools, modalities, schemas, constraints) = (missing_of-nil p r).0 missing in
      let (m, k) =
        mem-select (is_matching r) p.assertions (subst (λ l. Memᴰ a l) (sym h) (Memᴰ.head refl)) in
      record {
        evidence = (
          a,
          m,
          ground (arith, ==_iff a.capability_id r.capability_id),
          ground (arith, ==_iff a.task_family_id r.task_family_id),
          ground (arith, status_iff a.status CapabilityEvidenceStatus.verified),
          ground (arith, ==_iff a.evidence_snapshot_hash r.evidence_snapshot_hash),
        );
        tools = tools;
        modalities = modalities;
        schemas = schemas;
        constraints = constraints;
        failures = (failed_of-nil p r).0 failed;
      },
)

not-IsMet :
    (p : CapabilityProfile) (r : CapabilityRequirement)
    → select (is_matching r) p.assertions ≡ []
    → IsMet p r
    → ⊥
not-IsMet p r h met =
    let (b, m, c, t, s, e) = met.evidence in
    let kept : Memᴰ b [] =
      subst (λ l. Memᴰ b l) h
        (select-mem (is_matching r) p.assertions m (
          ground (
            arith,
            ==_iff b.capability_id r.capability_id,
            ==_iff b.task_family_id r.task_family_id,
          ))) in
    elim kept [ ]

validated-unmatched :
    (p : CapabilityProfile) (r : CapabilityRequirement)
    → validated (unmatched p r) ≡ some (unmatched p r)
unfolding unmatched has_canonical_collections has_consistent_semantics is_canonical sorted
    insert_sorted
validated-unmatched p r = refl

unmatched-satisfied :
    (p : CapabilityProfile) (r : CapabilityRequirement)
    → select (is_matching r) p.assertions ≡ []
    → ((unmatched p r).disposition ≡ CapabilityDisposition.satisfied) ↔ IsMet p r
unfolding unmatched
unmatched-satisfied p r h = (λ e. absurd (ground arith), λ met. absurd (not-IsMet p r h met))

validated-single :
    (p : CapabilityProfile) (r : CapabilityRequirement) (a : CapabilityAssertion)
    → validated (single_match p r a) ≡ some (single_match p r a)
validated-single p r a = rw (single-has_canonical p r a, single-has_consistent p r a)

-- On a profile whose assertions pass their validator, every assessment passes its own validators,
-- and it finds the capability satisfied exactly if the requirement is met.
pub assess_capability_validated_iff :
    (p : CapabilityProfile) (r : CapabilityRequirement)
    → has_sorted_assertions p.assertions ≡ true
    → (a : CapabilityAssessment) × (assess_capability_validated p r ≡ some a)
      × ((a.disposition ≡ CapabilityDisposition.satisfied) ↔ IsMet p r)
unfolding has_sorted_assertions assess_capability_validated from_matches
assess_capability_validated_iff p r h = elim (matching_cases r p.assertions (ground arith)) [
  | inl none_match ↦
      (unmatched p r, rw none_match (validated-unmatched p r), unmatched-satisfied p r none_match)
  | inr (a, one) ↦ (
    single_match p r a,
    rw one (validated-single p r a),
    (
      λ e. (single-IsMet p r a one).1 ((single-satisfied p r a).0 e),
      λ met. (single-satisfied p r a).1 ((single-IsMet p r a one).0 met),
    ),
  )
]
