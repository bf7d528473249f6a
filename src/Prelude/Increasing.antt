-- ===== src/Prelude/Increasing.antt =====
-- The tuples of sorted identifiers of the source as sets: their members, and adding and removing one.
use Prim.Native.String.{String}
use mathlib.Core.Path.{◌≡◌, refl, ap, ◌∙◌, sym}
use mathlib.Core.Logic.{inl, inr}
use mathlib.Core.Bool.{Bool, true, false, ◌&&◌, ◌||◌}
use mathlib.Core.List.{List, [], ◌∷◌, ◌++◌}
use native.Mathlib.Omega.{arith}
use super_scientist_orchestr.Prelude.Tests.{Bool-cases}
use super_scientist_orchestr.Prelude.Equality.{◌==◌, ◌!=◌, ==_iff, ==_refl, ==_comm, string_eq}
use super_scientist_orchestr.Prelude.Lists.{all, contains, select, unique}
use super_scientist_orchestr.Prelude.Text.{text_lt, text_lt_asym}
use super_scientist_orchestr.Prelude.Canonical.{
  increasing, increasing-unique, increasing-sorted, sorted_texts, contains-sorted, is_canonical,
  is_canonical-eq-increasing, sorted-is_canonical,
}

all-contains :
    (p : String → Bool) (xs : List String) (x : String)
    → all p xs ≡ true
    → contains xs x ≡ true
    → p x ≡ true
all-contains p [] x h m = absurd (ground arith)
all-contains p (y ∷ ys) x h m = elim (Bool-cases (x == y)) [
  | inl same ↦ ap p ((==_iff x y).0 same) ∙ ground arith
  | inr other ↦ all-contains p ys x (ground arith) (ground arith)
]

-- The first of two increasing lists with the same texts.
same_first :
    (x y : String) (xs ys : List String)
    → increasing (x ∷ xs) ≡ true
    → increasing (y ∷ ys) ≡ true
    → ((z : String) → contains (x ∷ xs) z ≡ contains (y ∷ ys) z)
    → x ≡ y
same_first x y xs ys h k same = elim (Bool-cases (x == y)) [
  | inl e ↦ (==_iff x y).0 e
  | inr other ↦
      let back = ==_comm x y in
      let m : contains ys x ≡ true = ground (arith, same x, ==_refl x) in
      let m' : contains xs y ≡ true = ground (arith, same y, ==_refl y) in
      let less = all-contains (text_lt x) xs y (ground arith) m' in
      let less' = all-contains (text_lt y) ys x (ground arith) m in
      absurd (ground (arith, text_lt_asym x y less))
]

pub increasing-ext :
    (xs ys : List String)
    → increasing xs ≡ true
    → increasing ys ≡ true
    → ((z : String) → contains xs z ≡ contains ys z)
    → xs ≡ ys
increasing-ext [] [] h k same = refl
increasing-ext [] (y ∷ ys) h k same = absurd (ground (arith, same y, ==_refl y))
increasing-ext (x ∷ xs) [] h k same = absurd (ground (arith, same x, ==_refl x))
increasing-ext (x ∷ xs) (y ∷ ys) h k same =
    let first = same_first x y xs ys h k same in
    let once = increasing-unique (x ∷ xs) h in
    let once' = increasing-unique (y ∷ ys) k in
    let rest = increasing-ext xs ys (ground arith) (ground arith) (λ z. elim (Bool-cases (z == x)) [
      | inl e ↦
          let here = (==_iff z x).0 e in
          let absent : contains xs z ≡ false = ap (contains xs) here ∙ ground arith in
          let absent' : contains ys z ≡ false = ap (contains ys) (here ∙ first) ∙ ground arith in
          absent ∙ sym absent'
      | inr other ↦
          let other' = ap (λ w. z == w) (sym first) ∙ other in let both = same z in ground arith
    ]) in
    ap (λ w. w ∷ xs) first ∙ ap (λ w. y ∷ w) rest

all-select : (p q : String → Bool) (xs : List String) → all q xs ≡ true → all q (select p xs) ≡ true
all-select p q [] h = refl
all-select p q (x ∷ xs) h = ground (arith, all-select p q xs)

select-increasing :
    (p : String → Bool) (xs : List String) → increasing xs ≡ true → increasing (select p xs) ≡ true
select-increasing p [] h = refl
select-increasing p (x ∷ xs) h = ground (arith, all-select p (text_lt x) xs, select-increasing p xs)

contains-without :
    (x z : String) (xs : List String)
    → contains (select (λ p. p != x) xs) z ≡ (contains xs z && z != x)
contains-without x z [] = refl
contains-without x z (y ∷ ys) = elim (Bool-cases (z == y)) [
  | inl e ↦
      let k : (z == x) ≡ (y == x) = ap (λ w. w == x) ((==_iff z y).0 e) in
      ground (arith, contains-without x z ys)
  | inr other ↦ ground (arith, contains-without x z ys)
]

pub contains-behind :
    (x z : String) (xs : List String) → contains (xs ++ x ∷ []) z ≡ (z == x || contains xs z)
contains-behind x z [] = refl
contains-behind x z (y ∷ ys) = ground (arith, contains-behind x z ys)

unique-behind :
    (x : String) (xs : List String)
    → contains xs x ≡ false
    → unique xs ≡ true
    → unique (xs ++ x ∷ []) ≡ true
unique-behind x [] h k = refl
unique-behind x (y ∷ ys) h k =
    ground (arith, ==_comm x y, contains-behind x y ys, unique-behind x ys)

-- To add a new text to a canonical list and to take it out again changes nothing.
pub sorted-without :
    (x : String) (xs : List String)
    → contains xs x ≡ false
    → is_canonical xs ≡ true
    → sorted_texts (select (λ p. p != x) (sorted_texts (xs ++ x ∷ []))) ≡ xs
sorted-without x xs fresh h =
    let grown = sorted_texts (xs ++ x ∷ []) in
    let up = sym (is_canonical-eq-increasing xs) ∙ h in
    let once = unique-behind x xs fresh (increasing-unique xs up) in
    let up' =
      select-increasing (λ p. p != x) grown
        (sym (is_canonical-eq-increasing grown) ∙ sorted-is_canonical (xs ++ x ∷ []) once) in
    increasing-sorted (select (λ p. p != x) grown) up'
    ∙ increasing-ext (select (λ p. p != x) grown) xs up' up (λ z.
      let e =
        contains-without x z grown
        ∙ ap (λ b. b && z != x) (contains-sorted (xs ++ x ∷ []) z ∙ contains-behind x z xs) in
      elim (Bool-cases (z == x)) [
        | inl same ↦
            let absent : contains xs z ≡ false = ap (contains xs) ((==_iff z x).0 same) ∙ fresh in
            e ∙ ground arith
        | inr other ↦ e ∙ ground arith
      ])
