-- ===== src/Prelude/Canonical.antt =====
-- Texts in canonical order: sorted, and none of them twice. The models of the source keep their
-- sets of identifiers in this form.
use Prim.Native.String.{String}
use mathlib.Core.Path.{◌≡◌, refl, ap, ◌∙◌, sym}
use mathlib.Core.Logic.{inl, inr}
use mathlib.Core.Bool.{Bool, true, false, not, ◌&&◌, ◌||◌}
use mathlib.Core.List.{List, [], ◌∷◌}
use native.Mathlib.Omega.{arith}
use super_scientist_orchestr.Prelude.Tests.{if◌then◌else◌, Bool-cases, Bool-ext}
use super_scientist_orchestr.Prelude.Equality.{
  ◌==◌, ==_iff, string_eq, nat_eq, option_eq, list_eq, pair_eq,
}
use super_scientist_orchestr.Prelude.Lists.{all, contains, unique, is_empty, sorted, insert_sorted}
use super_scientist_orchestr.Prelude.Text.{text_lt, text_lt_asym, text_lt_trans, text_lt_total}

-- The texts of a tuple, sorted: `tuple(sorted(values))`.
abbrev pub sorted_texts : List String → List String
sorted_texts = sorted text_lt

-- `set(values)` as a list without repetition.
abbrev pub distinct : List String → List String
distinct [] = []
distinct (x ∷ xs) = let rest = distinct xs in if contains xs x then rest else x ∷ rest

-- `_canonical_unique` and `_require_canonical_unique`, which raise where this is false.
unfoldable pub is_canonical : List String → Bool
is_canonical values = unique values && values == sorted_texts values

-- Pairs of texts are ordered by their first, then by their second.
abbrev pub pair_lt : String × String → String × String → Bool
pair_lt (a, b) (c, d) = text_lt a c || a == c && text_lt b d

abbrev pub sorted_pairs : List (String × String) → List (String × String)
sorted_pairs = sorted (λ p q. not (pair_lt q p))

abbrev pub is_canonical_pairs : List (String × String) → Bool
is_canonical_pairs pairs = unique pairs && pairs == sorted_pairs pairs

-- The order of the texts, stated without sorting.
abbrev pub increasing : List String → Bool
increasing [] = true
increasing (x ∷ xs) = all (text_lt x) xs && increasing xs

contains-insert_sorted :
    (a x : String) (xs : List String)
    → contains (insert_sorted text_lt a xs) x ≡ (x == a || contains xs x)
unfolding insert_sorted
contains-insert_sorted a x [] = refl
contains-insert_sorted a x (y ∷ ys) = ground (arith, contains-insert_sorted a x ys)

pub contains-sorted : (xs : List String) (x : String) → contains (sorted_texts xs) x ≡ contains xs x
unfolding sorted
contains-sorted [] x = refl
contains-sorted (y ∷ ys) x =
    ground (arith, contains-insert_sorted y x (sorted_texts ys), contains-sorted ys x)

pub contains-distinct : (xs : List String) (x : String) → contains (distinct xs) x ≡ contains xs x
contains-distinct [] x = refl
contains-distinct (y ∷ ys) x =
    ground (arith, ==_iff x y, contains-distinct ys x, contains-distinct ys y)

unique-distinct : (xs : List String) → unique (distinct xs) ≡ true
unique-distinct [] = refl
unique-distinct (x ∷ xs) = ground (arith, unique-distinct xs, contains-distinct xs x)

all-insert_sorted :
    (p : String → Bool) (a : String) (xs : List String)
    → p a ≡ true
    → all p xs ≡ true
    → all p (insert_sorted text_lt a xs) ≡ true
unfolding insert_sorted
all-insert_sorted p a [] h k = ground arith
all-insert_sorted p a (x ∷ xs) h k = ground (arith, all-insert_sorted p a xs)

all-text_lt_trans :
    (a x : String) (xs : List String)
    → text_lt a x ≡ true
    → all (text_lt x) xs ≡ true
    → all (text_lt a) xs ≡ true
all-text_lt_trans a x [] h k = refl
all-text_lt_trans a x (y ∷ ys) h k = ground (arith, text_lt_trans a x y, all-text_lt_trans a x ys)

insert_sorted-increasing :
    (a : String) (xs : List String)
    → contains xs a ≡ false
    → increasing xs ≡ true
    → increasing (insert_sorted text_lt a xs) ≡ true
unfolding insert_sorted
insert_sorted-increasing a [] h k = refl
insert_sorted-increasing a (x ∷ xs) h k = elim (Bool-cases (text_lt a x)) [
  | inl less ↦ ground (arith, all-text_lt_trans a x xs)
  | inr more ↦
      let less : text_lt x a ≡ true = elim (Bool-cases (text_lt x a)) [
        | inl less ↦ less
        | inr same ↦ ground (arith, ==_iff a x, text_lt_total a x)
      ] in
      ground (arith, all-insert_sorted (text_lt x) a xs, insert_sorted-increasing a xs)
]

sorted-increasing : (xs : List String) → unique xs ≡ true → increasing (sorted_texts xs) ≡ true
unfolding sorted
sorted-increasing [] h = refl
sorted-increasing (x ∷ xs) h =
    insert_sorted-increasing x (sorted_texts xs) (ground (arith, contains-sorted xs x))
      (sorted-increasing xs (ground arith))

pub sorted-distinct-increasing : (xs : List String) → increasing (sorted_texts (distinct xs)) ≡ true
sorted-distinct-increasing xs = sorted-increasing (distinct xs) (unique-distinct xs)

insert_sorted-front :
    (x : String) (xs : List String)
    → all (text_lt x) xs ≡ true
    → insert_sorted text_lt x xs ≡ x ∷ xs
unfolding insert_sorted
insert_sorted-front x [] h = refl
insert_sorted-front x (y ∷ ys) h = ground arith

pub increasing-sorted : (xs : List String) → increasing xs ≡ true → sorted_texts xs ≡ xs
unfolding sorted
increasing-sorted [] h = refl
increasing-sorted (x ∷ xs) h =
    ap (insert_sorted text_lt x) (increasing-sorted xs (ground arith))
    ∙ insert_sorted-front x xs (ground arith)

not_behind : (x : String) (xs : List String) → all (text_lt x) xs ≡ true → contains xs x ≡ false
not_behind x [] h = refl
not_behind x (y ∷ ys) h = ground (arith, ==_iff x y, text_lt_asym x y, not_behind x ys)

pub increasing-unique : (xs : List String) → increasing xs ≡ true → unique xs ≡ true
increasing-unique [] h = refl
increasing-unique (x ∷ xs) h = ground (arith, not_behind x xs, increasing-unique xs)

pub is_canonical-eq-increasing : (xs : List String) → is_canonical xs ≡ increasing xs
unfolding is_canonical
is_canonical-eq-increasing xs =
    Bool-ext (is_canonical xs) (increasing xs)
      (λ h.
        let fixed : xs ≡ sorted_texts xs = (==_iff xs (sorted_texts xs)).0 (ground arith) in
        ap increasing fixed ∙ sorted-increasing xs (ground arith))
      (λ h.
        ground (
          arith,
          increasing-unique xs h,
          ==_iff xs (sorted_texts xs),
          sym (increasing-sorted xs h),
        ))

-- What the source builds by sorting a set is canonical.
pub sorted-distinct-is_canonical :
    (xs : List String) → is_canonical (sorted_texts (distinct xs)) ≡ true
sorted-distinct-is_canonical xs =
    is_canonical-eq-increasing (sorted_texts (distinct xs)) ∙ sorted-distinct-increasing xs

pub sorted-is_canonical :
    (xs : List String) → unique xs ≡ true → is_canonical (sorted_texts xs) ≡ true
sorted-is_canonical xs h = is_canonical-eq-increasing (sorted_texts xs) ∙ sorted-increasing xs h

is_empty-insert_sorted :
    (a : String) (xs : List String) → is_empty (insert_sorted text_lt a xs) ≡ false
unfolding insert_sorted
is_empty-insert_sorted a [] = refl
is_empty-insert_sorted a (x ∷ xs) = ground arith

pub is_empty-sorted : (xs : List String) → is_empty (sorted_texts xs) ≡ is_empty xs
unfolding sorted
is_empty-sorted [] = refl
is_empty-sorted (x ∷ xs) = is_empty-insert_sorted x (sorted_texts xs)

pub is_empty-distinct : (xs : List String) → is_empty (distinct xs) ≡ is_empty xs
is_empty-distinct [] = refl
is_empty-distinct (x ∷ []) = refl
is_empty-distinct (x ∷ y ∷ xs) = ground (arith, is_empty-distinct (y ∷ xs))
