-- ===== src/Progress/Counting.antt =====
-- How often a value stands in a list, and how many of a list stand outside another.
use super_scientist_orchestr.Prelude.{
  ℕ, suc, ◌+◌, String, ◌≡◌, refl, ap, ◌∙◌, ◌↔◌, inl, inr, Bool, true, false, List, [], ◌∷◌, ◌++◌,
  arith, if◌then◌else◌, Bool-cases, ◌==◌, ==_iff, ==_comm, nat_eq, string_eq, option_eq, list_eq,
  length, select, all-intro, contains, subset, contains→mem, mem→contains, subset-mem, sorted,
  insert_sorted,
}

abbrev pub count : List String → String → ℕ
count [] a = 0
count (x ∷ xs) a = let rest = count xs a in if a == x then suc rest else rest

-- How many members of the second list the first one lacks.
abbrev pub missing : List String → List String → ℕ
missing known [] = 0
missing known (x ∷ xs) = let rest = missing known xs in if contains known x then rest else suc rest

pub count-contains : (xs : List String) (a : String) → (contains xs a ≡ false) ↔ (count xs a ≡ 0)
count-contains [] a = ground arith
count-contains (x ∷ xs) a = ground (arith, count-contains xs a)

pub count-append : (xs ys : List String) (a : String) → count (xs ++ ys) a ≡ count xs a + count ys a
count-append [] ys a = omega arith
count-append (x ∷ xs) ys a = ground (arith, count-append xs ys a)

count-insert_sorted :
    (le : String → String → Bool) (x : String) (xs : List String) (a : String)
    → count (insert_sorted le x xs) a ≡ count (x ∷ xs) a
unfolding insert_sorted
count-insert_sorted le x [] a = refl
count-insert_sorted le x (y ∷ ys) a = ground (arith, count-insert_sorted le x ys a)

pub count-sorted :
    (le : String → String → Bool) (xs : List String) (a : String)
    → count (sorted le xs) a ≡ count xs a
unfolding sorted
count-sorted le [] a = refl
count-sorted le (x ∷ xs) a =
    count-insert_sorted le x (sorted le xs) a ∙ ground (arith, count-sorted le xs a)

pub count-select :
    (p : String → Bool) (xs : List String) (a : String)
    → count (select p xs) a ≡ (if p a then count xs a else 0)
count-select p [] a = ground arith
count-select p (x ∷ xs) a = elim (Bool-cases (a == x)) [
  | inl same ↦ ground (arith, count-select p xs a, ap p ((==_iff a x).0 same))
  | inr other ↦ ground (arith, count-select p xs a)
]

pub missing-nil : (xs : List String) → missing [] xs ≡ length xs
missing-nil [] = refl
missing-nil (x ∷ xs) = omega (arith, missing-nil xs)

-- A value that the first list gets anew is missing no more, wherever it stands in the second.
pub missing-cons :
    (known xs : List String) (a : String)
    → contains known a ≡ false
    → missing (a ∷ known) xs + count xs a ≡ missing known xs
missing-cons known [] a h = refl
missing-cons known (x ∷ xs) a h = elim (Bool-cases (x == a)) [
  | inl same ↦
      ground
        (arith, missing-cons known xs a h, ==_comm x a, ap (contains known) ((==_iff x a).0 same))
  | inr other ↦ ground (arith, missing-cons known xs a h, ==_comm x a)
]

pub missing-subset : (known xs : List String) → missing known xs ≡ 0 → subset xs known ≡ true
missing-subset known [] h = refl
missing-subset known (x ∷ xs) h = ground (arith, missing-subset known xs)

pub subset-missing : (known xs : List String) → subset xs known ≡ true → missing known xs ≡ 0
subset-missing known [] h = refl
subset-missing known (x ∷ xs) h = ground (arith, subset-missing known xs)

pub missing-count :
    (known xs : List String) (a : String)
    → missing known xs ≡ 0
    → count known a ≡ 0
    → count xs a ≡ 0
missing-count known [] a h absent = refl
missing-count known (x ∷ xs) a h absent = elim (Bool-cases (a == x)) [
  | inl same ↦
      absurd (ground (arith, count-contains known a, ap (contains known) ((==_iff a x).0 same)))
  | inr other ↦ ground (arith, missing-count known xs a)
]

pub subset-counts :
    (xs ys known : List String)
    → ((a : String) → count xs a ≡ count ys a)
    → subset xs known ≡ true
    → missing known ys ≡ 0
subset-counts xs ys known same h =
    subset-missing known ys (all-intro (contains known) ys (λ a m. stands a (mem→contains ys a m)))
  where
    stands : (a : String) → contains ys a ≡ true → contains known a ≡ true
    stands a in_ys = mem→contains known a (
        subset-mem xs known a h
          (contains→mem xs a (ground (arith, same a, count-contains xs a, count-contains ys a))))
