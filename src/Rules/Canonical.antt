-- ===== src/Rules/Canonical.antt =====
-- The canonical classification is the least one, whatever the order of the active rules.
use super_scientist_orchestr.Prelude.{
  some_inj, ◌≤◌, String, ◌≡◌, refl, sym, ap, ◌∙◌, ◌⊎◌, inl, inr, some, List, [], ◌∷◌, map, arith,
  ltb, if◌then◌else◌,
}
use mathlib.Core.List.{Memᴰ}
use super_scientist_orchestr.Rules.{
  OverlapClassification, BehavioralRuleVersion, canonical_overlap_priority, least, classify_overlap,
  canonical_overlap_classification,
}

priority_inj :
    (a b : OverlapClassification)
    → canonical_overlap_priority a ≡ canonical_overlap_priority b
    → a ≡ b
priority_inj a b h = ground arith

-- The better of two classifications, as `least` keeps it.
abbrev better : OverlapClassification → OverlapClassification → OverlapClassification
better c best =
    if ltb (canonical_overlap_priority c) (canonical_overlap_priority best) then c else best

better-le :
    (c best : OverlapClassification)
    → (canonical_overlap_priority (better c best) ≤ canonical_overlap_priority best)
      × (canonical_overlap_priority (better c best) ≤ canonical_overlap_priority c)
better-le c best = ground arith

better_cases : (c best : OverlapClassification) → (better c best ≡ best) ⊎ (better c best ≡ c)
better_cases c best = ground arith

module _ (f : BehavioralRuleVersion → OverlapClassification) where
  least-le :
      (best : OverlapClassification) (rules : List BehavioralRuleVersion)
      → canonical_overlap_priority (least best (map f rules)) ≤ canonical_overlap_priority best
  unfolding least
  least-le best [] = omega arith
  least-le best (q ∷ qs) = omega (arith, least-le (better (f q) best) qs, (better-le (f q) best).0)

  least-mem-le :
      (best : OverlapClassification) (rules : List BehavioralRuleVersion)
      (r : BehavioralRuleVersion)
      → Memᴰ r rules
      → canonical_overlap_priority (least best (map f rules)) ≤ canonical_overlap_priority (f r)
  unfolding least
  least-mem-le best [] r m = elim m [ ]
  least-mem-le best (q ∷ qs) r (Memᴰ.head e) = omega (
    arith,
    least-le (better (f q) best) qs,
    (better-le (f q) best).1,
    ap (λ x. canonical_overlap_priority (f x)) e,
  )
  least-mem-le best (q ∷ qs) r (Memᴰ.tail m) = least-mem-le (better (f q) best) qs r m

  least_cases :
      (best : OverlapClassification) (rules : List BehavioralRuleVersion)
      → (least best (map f rules) ≡ best)
        ⊎ ((r : BehavioralRuleVersion) × Memᴰ r rules × (least best (map f rules) ≡ f r))
  unfolding least
  least_cases best [] = inl refl
  least_cases best (q ∷ qs) = elim (least_cases (better (f q) best) qs) [
    | inl kept ↦ elim (better_cases (f q) best) [
      | inl old ↦ inl (kept ∙ old)
      | inr new ↦ inr (q, Memᴰ.head refl, kept ∙ new)
    ]
    | inr (r, m, e) ↦ inr (r, Memᴰ.tail m, e)
  ]

  -- The least classification belongs to one of the rules.
  least-of :
      (q : BehavioralRuleVersion) (qs : List BehavioralRuleVersion)
      → (r : BehavioralRuleVersion) × Memᴰ r (q ∷ qs) × (least (f q) (map f qs) ≡ f r)
  least-of q qs = elim (least_cases (f q) qs) [
    | inl own ↦ (q, Memᴰ.head refl, own)
    | inr (r, m, e) ↦ (r, Memᴰ.tail m, e)
  ]

  least-below :
      (q : BehavioralRuleVersion) (qs : List BehavioralRuleVersion) (r : BehavioralRuleVersion)
      → Memᴰ r (q ∷ qs)
      → canonical_overlap_priority (least (f q) (map f qs)) ≤ canonical_overlap_priority (f r)
  least-below q qs r (Memᴰ.head e) =
      omega (arith, least-le (f q) qs, ap (λ x. canonical_overlap_priority (f x)) e)
  least-below q qs r (Memᴰ.tail m) = least-mem-le (f q) qs r m

  least-within :
      (p q : BehavioralRuleVersion) (ps qs : List BehavioralRuleVersion)
      → ((r : BehavioralRuleVersion) → Memᴰ r (q ∷ qs) → Memᴰ r (p ∷ ps))
      → canonical_overlap_priority (least (f p) (map f ps))
        ≤ canonical_overlap_priority (least (f q) (map f qs))
  least-within p q ps qs h =
      let (r, m, e) = least-of q qs in
      omega (arith, least-below p ps r (h r m), ap canonical_overlap_priority e)

-- The canonical classification of a candidate depends only on which rules are active: not on their
-- order, and not on how often one is listed.
pub canonical_overlap_classification-set :
    (casefold : String → String) (candidate : BehavioralRuleVersion)
    (rules rules' : List BehavioralRuleVersion)
    → ((r : BehavioralRuleVersion) → Memᴰ r rules → Memᴰ r rules')
    → ((r : BehavioralRuleVersion) → Memᴰ r rules' → Memᴰ r rules)
    → canonical_overlap_classification casefold candidate rules
      ≡ canonical_overlap_classification casefold candidate rules'
unfolding canonical_overlap_classification
canonical_overlap_classification-set casefold candidate [] [] h k = refl
canonical_overlap_classification-set casefold candidate [] (q ∷ qs) h k =
    elim (k q (Memᴰ.head refl)) [ ]
canonical_overlap_classification-set casefold candidate (p ∷ ps) [] h k =
    elim (h p (Memᴰ.head refl)) [ ]
canonical_overlap_classification-set casefold candidate (p ∷ ps) (q ∷ qs) h k = ap some (
    priority_inj
      (least (classify_overlap casefold candidate p) (map (classify_overlap casefold candidate) ps))
      (least (classify_overlap casefold candidate q) (map (classify_overlap casefold candidate) qs))
      (omega (
        arith,
        least-within (classify_overlap casefold candidate) p q ps qs k,
        least-within (classify_overlap casefold candidate) q p qs ps h,
      )))

-- The canonical classification of a candidate is that of one of the active rules, and comes at or
-- before that of every active rule in the order of priority.
pub canonical_overlap_classification-least :
    (casefold : String → String) (candidate : BehavioralRuleVersion)
    (rules : List BehavioralRuleVersion) (c : OverlapClassification)
    → canonical_overlap_classification casefold candidate rules ≡ some c
    → ((r : BehavioralRuleVersion) × Memᴰ r rules × (c ≡ classify_overlap casefold candidate r))
      × ((r : BehavioralRuleVersion)
          → Memᴰ r rules
          → canonical_overlap_priority c
            ≤ canonical_overlap_priority (classify_overlap casefold candidate r))
unfolding canonical_overlap_classification
canonical_overlap_classification-least casefold candidate [] c h = cc
canonical_overlap_classification-least casefold candidate (q ∷ qs) c h =
    let (r, m, e) = least-of (classify_overlap casefold candidate) q qs in
    (
      (r, m, sym (some_inj h) ∙ e),
      λ s n. omega (
        arith,
        least-below (classify_overlap casefold candidate) q qs s n,
        ap canonical_overlap_priority (some_inj h),
      ),
    )
