-- ===== src/Prelude/Lists.antt =====
-- Lists measured by native numbers, the tests that Python makes on its sequences and sets, and
-- mappings as association lists.
mod Sorting
pub use Sorting.*
unfoldable pub use Sorting.{sorted, insert_sorted}
use Prim.Native.Nat.{ℕ, zero, suc, ◌+◌}
use mathlib.Core.Path.{◌≡◌, refl, sym, ap, ◌∙◌}
use mathlib.Core.Logic.{inl, inr}
use mathlib.Core.Bool.{Bool, true, false, ◌&&◌, ◌||◌, not}
use mathlib.Core.Option.{Option, none, some}
use mathlib.Core.List.{List, [], ◌∷◌, ◌++◌, Memᴰ}
use native.Mathlib.Omega.{arith}
use super_scientist_orchestr.Prelude.Tests.{if◌then◌else◌, Bool-cases}
use super_scientist_orchestr.Prelude.Equality.{Eq, ◌==◌, ==_iff}

module _ {ℓ} {A : Type ℓ} where
  abbrev pub length : List A → ℕ
  length [] = 0
  length (x ∷ xs) = suc (length xs)

  -- `all(p(x) for x in xs)` and `any(...)`.
  abbrev pub all : (A → Bool) → List A → Bool
  all p [] = true
  all p (x ∷ xs) = p x && all p xs

  abbrev pub any : (A → Bool) → List A → Bool
  any p [] = false
  any p (x ∷ xs) = p x || any p xs

  -- `[x for x in xs if p(x)]`.
  abbrev pub select : (A → Bool) → List A → List A
  select p [] = []
  select p (x ∷ xs) = let rest = select p xs in if p x then x ∷ rest else rest

  abbrev pub is_empty : List A → Bool
  is_empty [] = true
  is_empty (x ∷ xs) = false

  abbrev pub All {κ} : (A → Type κ) → List A → Type κ
  All P [] = Unit
  All P (x ∷ xs) = P x × All P xs

  -- `xs[i]`, with `none` for an index out of range.
  abbrev pub get_elem? : List A → ℕ → Option A
  get_elem? [] i = none
  get_elem? (x ∷ xs) zero = some x
  get_elem? (x ∷ xs) (suc i) = get_elem? xs i

  -- `xs[-1]` and `xs[-2]`, with `none` where there is no such element.
  abbrev pub last : List A → Option A
  last [] = none
  last (x ∷ []) = some x
  last (x ∷ y ∷ ys) = last (y ∷ ys)

  abbrev pub before_last : List A → Option A
  before_last [] = none
  before_last (x ∷ []) = none
  before_last (x ∷ y ∷ []) = some x
  before_last (x ∷ y ∷ z ∷ zs) = before_last (y ∷ z ∷ zs)

  pub last-append : (xs : List A) (x : A) → last (xs ++ x ∷ []) ≡ some x
  last-append [] x = refl
  last-append (y ∷ []) x = refl
  last-append (y ∷ z ∷ zs) x = last-append (z ∷ zs) x

  pub before_last-append : (xs : List A) (x : A) → before_last (xs ++ x ∷ []) ≡ last xs
  before_last-append [] x = refl
  before_last-append (y ∷ []) x = refl
  before_last-append (y ∷ z ∷ []) x = refl
  before_last-append (y ∷ z ∷ w ∷ ws) x = before_last-append (z ∷ w ∷ ws) x

  pub get_elem?-append :
      (xs ys : List A) (i : ℕ) {x : A} → get_elem? xs i ≡ some x → get_elem? (xs ++ ys) i ≡ some x
  get_elem?-append [] ys i h = cc
  get_elem?-append (x ∷ xs) ys zero h = h
  get_elem?-append (x ∷ xs) ys (suc i) h = get_elem?-append xs ys i h

  pub get_elem?-length : (xs ys : List A) (y : A) → get_elem? (xs ++ y ∷ ys) (length xs) ≡ some y
  get_elem?-length [] ys y = refl
  get_elem?-length (x ∷ xs) ys y = get_elem?-length xs ys y

  pub length-append : (xs ys : List A) → length (xs ++ ys) ≡ length xs + length ys
  length-append [] ys = omega arith
  length-append (x ∷ xs) ys = omega (arith, length-append xs ys)

  pub all-mem : (p : A → Bool) (xs : List A) {a : A} → all p xs ≡ true → Memᴰ a xs → p a ≡ true
  all-mem p [] h m = elim m [ ]
  all-mem p (x ∷ xs) h (Memᴰ.head e) = ground (arith, e)
  all-mem p (x ∷ xs) h (Memᴰ.tail m) = all-mem p xs (ground arith) m

  pub all-intro :
      (p : A → Bool) (xs : List A) → ((a : A) → Memᴰ a xs → p a ≡ true) → all p xs ≡ true
  all-intro p [] h = refl
  all-intro p (x ∷ xs) h =
      ground (arith, h x (Memᴰ.head refl), all-intro p xs (λ a m. h a (Memᴰ.tail m)))

  -- What a filter keeps: one step, on the value of its test.
  mem-keep :
      (p : A → Bool) (x a : A) (xs rest : List A)
      → (Memᴰ a rest → Memᴰ a xs × (p a ≡ true))
      → (b : Bool) → p x ≡ b
      → Memᴰ a (if b then x ∷ rest else rest)
      → Memᴰ a (x ∷ xs) × (p a ≡ true)
  mem-keep p x a xs rest ih true h (Memᴰ.head e) = (Memᴰ.head e, ap p e ∙ h)
  mem-keep p x a xs rest ih true h (Memᴰ.tail m) = (Memᴰ.tail (ih m).0, (ih m).1)
  mem-keep p x a xs rest ih false h m = (Memᴰ.tail (ih m).0, (ih m).1)

  pub mem-select :
      (p : A → Bool) (xs : List A) {a : A} → Memᴰ a (select p xs) → Memᴰ a xs × (p a ≡ true)
  mem-select p [] m = elim m [ ]
  mem-select p (x ∷ xs) {a} m =
      mem-keep p x a xs (select p xs) (λ m. mem-select p xs m) (p x) refl m

  mem-kept :
      (p : A → Bool) (x a : A) (rest : List A)
      → Memᴰ a rest
      → (b : Bool) → Memᴰ a (if b then x ∷ rest else rest)
  mem-kept p x a rest m true = Memᴰ.tail m
  mem-kept p x a rest m false = m

  pub select-mem :
      (p : A → Bool) (xs : List A) {a : A} → Memᴰ a xs → p a ≡ true → Memᴰ a (select p xs)
  select-mem p [] m h = elim m [ ]
  select-mem p (x ∷ xs) {a} (Memᴰ.head e) h =
      let t : p x ≡ true = sym (ap p e) ∙ h in rw t (Memᴰ.head e)
  select-mem p (x ∷ xs) {a} (Memᴰ.tail m) h =
      mem-kept p x a (select p xs) (select-mem p xs m h) (p x)

module _ {ℓ} {A : Type ℓ} ⦃e : Eq A⦄ where
  -- `a in xs`
  abbrev pub contains : List A → A → Bool
  contains [] a = false
  contains (x ∷ xs) a = a == x || contains xs a

  -- `set(xs) <= set(ys)`
  abbrev pub subset : List A → List A → Bool
  subset xs ys = all (contains ys) xs

  -- `set(xs) == set(ys)`
  abbrev pub same_set : List A → List A → Bool
  same_set xs ys = subset xs ys && subset ys xs

  -- `len(set(xs)) == len(xs)`
  abbrev pub unique : List A → Bool
  unique [] = true
  unique (x ∷ xs) = not (contains xs x) && unique xs

  pub contains→mem : (xs : List A) (a : A) → contains xs a ≡ true → Memᴰ a xs
  contains→mem [] a h = absurd (ground arith)
  contains→mem (x ∷ xs) a h = elim (Bool-cases (a == x)) [
    | inl same ↦ Memᴰ.head ((==_iff a x).0 same)
    | inr other ↦ Memᴰ.tail (contains→mem xs a (ground arith))
  ]

  pub mem→contains : (xs : List A) (a : A) → Memᴰ a xs → contains xs a ≡ true
  mem→contains [] a m = elim m [ ]
  mem→contains (x ∷ xs) a (Memᴰ.head p) = ground (arith, (==_iff a x).1 p)
  mem→contains (x ∷ xs) a (Memᴰ.tail m) = ground (arith, mem→contains xs a m)

  pub subset-mem : (xs ys : List A) (a : A) → subset xs ys ≡ true → Memᴰ a xs → Memᴰ a ys
  subset-mem xs ys a h m = contains→mem ys a (all-mem (contains ys) xs h m)

  pub subset_refl : (xs : List A) → subset xs xs ≡ true
  subset_refl xs = all-intro (contains xs) xs (mem→contains xs)

  pub subset_trans :
      (xs ys zs : List A) → subset xs ys ≡ true → subset ys zs ≡ true → subset xs zs ≡ true
  subset_trans xs ys zs h k =
      all-intro (contains zs) xs
        (λ a m. mem→contains zs a (subset-mem ys zs a k (subset-mem xs ys a h m)))

  -- `mapping.get(key)`, on a mapping as a list of its items.
  abbrev pub lookup {κ} : {V : Type κ} → A → List (A × V) → Option V
  lookup k [] = none
  lookup k ((j, v) ∷ m) = if k == j then some v else lookup k m

  pub lookup-mem {κ} :
      {V : Type κ} (k : A) (m : List (A × V)) {v : V} → lookup k m ≡ some v → Memᴰ (k, v) m
  lookup-mem k [] h = absurd (ground arith)
  lookup-mem k ((j, w) ∷ m) h = elim (Bool-cases (k == j)) [
    | inl same ↦ Memᴰ.head (ground (arith, ==_iff k j))
    | inr other ↦ Memᴰ.tail (lookup-mem k m (ground arith))
  ]
