-- ===== src/Prelude/Lists/Sorting.antt =====
-- `sorted(xs, key=...)`: a stable insertion sort by a Boolean order on the keys.
use mathlib.Core.Path.{◌≡◌, ap, ◌∙◌}
use mathlib.Core.Logic.{◌⊎◌, inl, inr}
use mathlib.Core.Bool.{Bool, true, false}
use mathlib.Core.List.{List, [], ◌∷◌, Perm, Memᴰ}
use mathlib.Core.List.Perm
use native.Mathlib.Omega.{arith}
use super_scientist_orchestr.Prelude.Tests.{if◌then◌else◌, Bool-cases}

module _ {ℓ} {A : Type ℓ} (before : A → A → Bool) where
  -- Behind every element that does not stand strictly after it.
  unfoldable pub insert_sorted : A → List A → List A
  insert_sorted a [] = a ∷ []
  insert_sorted a (x ∷ xs) =
      let rest = insert_sorted a xs in if before a x then a ∷ x ∷ xs else x ∷ rest

  unfoldable pub sorted : List A → List A
  unfolding insert_sorted
  sorted [] = []
  sorted (x ∷ xs) = insert_sorted x (sorted xs)

  insert_sorted-perm : (a : A) (xs : List A) → Perm (insert_sorted a xs) (a ∷ xs)
  unfolding insert_sorted
  insert_sorted-perm a [] = Perm.rfl
  insert_sorted-perm a (x ∷ xs) = ground (
    arith,
    Perm.rfl {l = a ∷ x ∷ xs},
    Perm.trans (Perm.cons x (insert_sorted-perm a xs)) (Perm.swap a x xs),
  )

  pub sorted-perm : (xs : List A) → Perm (sorted xs) xs
  unfolding sorted
  sorted-perm [] = Perm.rfl
  sorted-perm (x ∷ xs) =
      Perm.trans (insert_sorted-perm x (sorted xs)) (Perm.cons x (sorted-perm xs))

  -- Every element stands before all that are behind it.
  abbrev pub IsOrdered : List A → Type ℓ
  IsOrdered [] = Unit
  IsOrdered (x ∷ xs) = ((y : A) → Memᴰ y xs → before x y ≡ true) × IsOrdered xs

  mem-inserted :
      (a x : A) (xs rest : List A) {y : A}
      → (Memᴰ y rest → (y ≡ a) ⊎ Memᴰ y xs)
      → (b : Bool) → Memᴰ y (if b then a ∷ x ∷ xs else x ∷ rest)
      → (y ≡ a) ⊎ Memᴰ y (x ∷ xs)
  mem-inserted a x xs rest ih true (Memᴰ.head e) = inl e
  mem-inserted a x xs rest ih true (Memᴰ.tail m) = inr m
  mem-inserted a x xs rest ih false (Memᴰ.head e) = inr (Memᴰ.head e)
  mem-inserted a x xs rest ih false (Memᴰ.tail m) = elim (ih m) [
    | inl e ↦ inl e
    | inr m' ↦ inr (Memᴰ.tail m')
  ]

  mem-insert_sorted :
      (a : A) (xs : List A) {y : A} → Memᴰ y (insert_sorted a xs) → (y ≡ a) ⊎ Memᴰ y xs
  unfolding insert_sorted
  mem-insert_sorted a [] (Memᴰ.head e) = inl e
  mem-insert_sorted a [] (Memᴰ.tail m) = elim m [ ]
  mem-insert_sorted a (x ∷ xs) m =
      mem-inserted a x xs (insert_sorted a xs) (λ k. mem-insert_sorted a xs k) (before a x) m

  inserted-mem :
      (a x : A) (xs rest : List A) {y : A}
      → (Memᴰ y (a ∷ xs) → Memᴰ y rest)
      → (b : Bool) → Memᴰ y (a ∷ x ∷ xs)
      → Memᴰ y (if b then a ∷ x ∷ xs else x ∷ rest)
  inserted-mem a x xs rest ih true m = m
  inserted-mem a x xs rest ih false (Memᴰ.head e) = Memᴰ.tail (ih (Memᴰ.head e))
  inserted-mem a x xs rest ih false (Memᴰ.tail (Memᴰ.head e)) = Memᴰ.head e
  inserted-mem a x xs rest ih false (Memᴰ.tail (Memᴰ.tail m)) = Memᴰ.tail (ih (Memᴰ.tail m))

  insert_sorted-mem : (a : A) (xs : List A) {y : A} → Memᴰ y (a ∷ xs) → Memᴰ y (insert_sorted a xs)
  unfolding insert_sorted
  insert_sorted-mem a [] m = m
  insert_sorted-mem a (x ∷ xs) m =
      inserted-mem a x xs (insert_sorted a xs) (λ k. insert_sorted-mem a xs k) (before a x) m

  pub mem-sorted : (xs : List A) {y : A} → Memᴰ y (sorted xs) → Memᴰ y xs
  unfolding sorted
  mem-sorted [] m = m
  mem-sorted (x ∷ xs) m = elim (mem-insert_sorted x (sorted xs) m) [
    | inl e ↦ Memᴰ.head e
    | inr k ↦ Memᴰ.tail (mem-sorted xs k)
  ]

  pub sorted-mem : (xs : List A) {y : A} → Memᴰ y xs → Memᴰ y (sorted xs)
  unfolding sorted
  sorted-mem [] m = m
  sorted-mem (x ∷ xs) (Memᴰ.head e) = insert_sorted-mem x (sorted xs) (Memᴰ.head e)
  sorted-mem (x ∷ xs) (Memᴰ.tail m) = insert_sorted-mem x (sorted xs) (Memᴰ.tail (sorted-mem xs m))

  -- For a total and transitive order.
  module _ (total : (x y : A) → before x y ≡ false → before y x ≡ true)
      (trans : (x y z : A) → before x y ≡ true → before y z ≡ true → before x z ≡ true) where
    behind_both :
        (a x y : A) (xs : List A)
        → before a x ≡ true
        → ((y : A) → Memᴰ y xs → before x y ≡ true)
        → Memᴰ y (x ∷ xs)
        → before a y ≡ true
    behind_both a x y xs h k (Memᴰ.head e) = ap (before a) e ∙ h
    behind_both a x y xs h k (Memᴰ.tail m) = trans a x y h (k y m)

    insert_sorted-IsOrdered : (a : A) (xs : List A) → IsOrdered xs → IsOrdered (insert_sorted a xs)
    unfolding insert_sorted
    insert_sorted-IsOrdered a [] h = (λ y m. elim m [ ], tt)
    insert_sorted-IsOrdered a (x ∷ xs) h = elim (Bool-cases (before a x)) [
      | inl first ↦ rw first ((λ y m. behind_both a x y xs first h.0 m, h))
      | inr behind ↦ rw behind (
          (
            λ y m. elim (mem-insert_sorted a xs m) [
              | inl e ↦ ap (before x) e ∙ total a x behind
              | inr k ↦ h.0 y k
            ],
            insert_sorted-IsOrdered a xs h.1,
          ))
    ]

    pub sorted-IsOrdered : (xs : List A) → IsOrdered (sorted xs)
    unfolding sorted
    sorted-IsOrdered [] = tt
    sorted-IsOrdered (x ∷ xs) = insert_sorted-IsOrdered x (sorted xs) (sorted-IsOrdered xs)
