-- ===== src/Rules/Overlap.antt =====
-- What a classification says of two rules, and that the order of the active rules does not matter.
use super_scientist_orchestr.Prelude.{
  String, ◌≡◌, ap, ◌↔◌, inl, inr, true, false, List, [], ◌∷◌, arith, Bool-cases, Bool-ext, ◌==◌,
  ==_iff, ==_refl, ==_comm, nat_eq, string_eq, option_eq, list_eq, contains,
}
use super_scientist_orchestr.Rules.{
  OverlapClassification, BehavioralRuleVersion, intersects, normalize, normalized, action_signature,
  same_exact_signature, classify_overlap,
}

intersects-mem :
    (xs ys : List String)
    → intersects xs ys ≡ true
    → (a : String) × (contains xs a ≡ true) × (contains ys a ≡ true)
intersects-mem [] ys h = cc
intersects-mem (x ∷ xs) ys h = elim (Bool-cases (contains ys x)) [
  | inl here ↦ (x, ground (arith, ==_refl x), here)
  | inr there ↦ let (a, p, q) = intersects-mem xs ys (ground arith) in (a, ground arith, q)
]

mem-intersects :
    (xs ys : List String) (a : String)
    → contains xs a ≡ true
    → contains ys a ≡ true
    → intersects xs ys ≡ true
mem-intersects [] ys a p q = cc
mem-intersects (x ∷ xs) ys a p q = elim (Bool-cases (a == x)) [
  | inl same ↦ ground (arith, ap (contains ys) ((==_iff a x).0 same))
  | inr other ↦ ground (arith, mem-intersects xs ys a)
]

intersects_comm : (xs ys : List String) → intersects xs ys ≡ intersects ys xs
intersects_comm xs ys = Bool-ext (intersects xs ys) (intersects ys xs) (flip xs ys) (flip ys xs)
  where
    flip : (us vs : List String) → intersects us vs ≡ true → intersects vs us ≡ true
    flip us vs h = let (a, p, q) = intersects-mem us vs h in mem-intersects vs us a q p

-- The classification of the two rules in the other order.
abbrev pub mirrored : OverlapClassification → OverlapClassification
mirrored OverlapClassification.narrower_instance = OverlapClassification.broader_reformulation
mirrored OverlapClassification.broader_reformulation = OverlapClassification.narrower_instance
mirrored c = c

-- Two rules in the other order have the mirrored classification: one is narrower exactly when the
-- other is broader, and every other classification is symmetric.
pub classify_overlap-mirrored :
    (casefold : String → String) (a b : BehavioralRuleVersion)
    → classify_overlap casefold b a ≡ mirrored (classify_overlap casefold a b)
unfolding classify_overlap same_exact_signature
classify_overlap-mirrored casefold a b = ground (
  arith,
  intersects_comm (normalized casefold a.scope) (normalized casefold b.scope),
  intersects_comm (normalized casefold a.triggers) (normalized casefold b.triggers),
  intersects_comm (action_signature casefold a) (action_signature casefold b),
  ==_comm (action_signature casefold a) (action_signature casefold b),
  ==_comm (normalize casefold a.canonical_statement) (normalize casefold b.canonical_statement),
  ==_comm (normalize casefold a.decision_boundary) (normalize casefold b.decision_boundary),
)

-- A candidate counts as non-redundant beside a rule exactly when their normalized scopes have no
-- member in common and they differ in their exact signature.
pub classify_overlap_iff :
    (casefold : String → String) (a b : BehavioralRuleVersion)
    → (classify_overlap casefold a b ≡ OverlapClassification.non_redundant) ↔ (
        (intersects (normalized casefold a.scope) (normalized casefold b.scope) ≡ false)
        × (same_exact_signature casefold a b ≡ false))
unfolding classify_overlap
classify_overlap_iff casefold a b = ground arith
