-- ===== src/Cognition/Cohort/Selection.antt =====
-- The greedy selection of a cohort.
use super_scientist_orchestr.Prelude.{
  ◌≤◌, ◌≡◌, refl, sym, ap, ◌∙◌, subst, ◌⊎◌, inl, inr, Bool, true, false, not, ◌&&◌, ◌||◌, List, [],
  ◌∷◌, ◌++◌, arith, leb, leb→le, Bool-cases, length, any, length-append, IsOrdered,
}
use super_scientist_orchestr.Cognition.{CohortRequest}
use super_scientist_orchestr.Cognition.Candidates.{
  Candidate, actor_of, is_prohibited, clashes, select_from,
}
use super_scientist_orchestr.Cognition.Cohort.Ranking.{may_precede}
use mathlib.Core.List.{Memᴰ}

module _ (request : CohortRequest) where
  abbrev pub is_prohibited_pair : Candidate → Candidate → Bool
  is_prohibited_pair a b = is_prohibited request.prohibited_combinations (actor_of a) (actor_of b)

  mem-append_left : {c : Candidate} (xs ys : List Candidate) → Memᴰ c xs → Memᴰ c (xs ++ ys)
  mem-append_left [] ys m = elim m [ ]
  mem-append_left (x ∷ xs) ys (Memᴰ.head e) = Memᴰ.head e
  mem-append_left (x ∷ xs) ys (Memᴰ.tail m) = Memᴰ.tail (mem-append_left xs ys m)

  mem-append_last : (c : Candidate) (xs : List Candidate) → Memᴰ c (xs ++ c ∷ [])
  mem-append_last c [] = Memᴰ.head refl
  mem-append_last c (x ∷ xs) = Memᴰ.tail (mem-append_last c xs)

  mem-append_cases :
      {c : Candidate} (x : Candidate) (xs : List Candidate)
      → Memᴰ c (xs ++ x ∷ [])
      → Memᴰ c xs ⊎ (c ≡ x)
  mem-append_cases x [] (Memᴰ.head e) = inr e
  mem-append_cases x [] (Memᴰ.tail m) = elim m [ ]
  mem-append_cases x (y ∷ ys) (Memᴰ.head e) = inl (Memᴰ.head e)
  mem-append_cases x (y ∷ ys) (Memᴰ.tail m) = elim (mem-append_cases x ys m) [
    | inl k ↦ inl (Memᴰ.tail k)
    | inr e ↦ inr e
  ]

  -- What is selected stays selected.
  pub select_from-keeps :
      (selected rest : List Candidate) {c : Candidate}
      → Memᴰ c selected
      → Memᴰ c (select_from request selected rest)
  unfolding select_from
  select_from-keeps selected [] m = m
  select_from-keeps selected (x ∷ rest) {c} m =
      elim (Bool-cases (leb request.max_members (length selected))) [
        | inl full ↦ rw full m
        | inr more ↦ rw more (elim (Bool-cases (clashes request x selected)) [
          | inl clash ↦ rw clash (select_from-keeps selected rest m)
          | inr free ↦
              rw free
                (select_from-keeps (selected ++ x ∷ []) rest (mem-append_left selected (x ∷ []) m))
        ])
      ]

  pub length-select_from :
      (selected rest : List Candidate)
      → length selected ≤ request.max_members
      → length (select_from request selected rest) ≤ request.max_members
  unfolding select_from
  length-select_from selected [] h = h
  length-select_from selected (x ∷ rest) h = ground (
    arith,
    length-select_from selected rest,
    length-select_from (selected ++ x ∷ []) rest,
    length-append selected (x ∷ []),
  )

  -- No two of them are a prohibited combination.
  abbrev pub compatible : List Candidate → Bool
  compatible [] = true
  compatible (c ∷ cs) = not (any (λ s. is_prohibited_pair s c) cs) && compatible cs

  any-append :
      (p : Candidate → Bool) (xs : List Candidate) (x : Candidate)
      → any p (xs ++ x ∷ []) ≡ (any p xs || p x)
  any-append p [] x = ground arith
  any-append p (y ∷ ys) x = ground (arith, any-append p ys x)

  compatible-append :
      (selected : List Candidate) (x : Candidate)
      → compatible selected ≡ true
      → clashes request x selected ≡ false
      → compatible (selected ++ x ∷ []) ≡ true
  compatible-append [] x h k = refl
  compatible-append (s ∷ selected) x h k =
      ground
        (arith, any-append (λ t. is_prohibited_pair t s) selected x, compatible-append selected x)

  pub compatible-select_from :
      (selected rest : List Candidate)
      → compatible selected ≡ true
      → compatible (select_from request selected rest) ≡ true
  unfolding select_from
  compatible-select_from selected [] h = h
  compatible-select_from selected (x ∷ rest) h = ground (
    arith,
    compatible-append selected x,
    compatible-select_from selected rest,
    compatible-select_from (selected ++ x ∷ []) rest,
  )

  -- Why a candidate is left out of a cohort: it is full, or has a member that the candidate must not
  -- be combined with; and those members rank no lower than the candidate.
  abbrev pub IsBlocked : List Candidate → Candidate → Type 0
  IsBlocked cohort c =
      ((length cohort ≡ request.max_members)
        × ((s : Candidate) → Memᴰ s cohort → may_precede s c ≡ true))
      ⊎ ((s : Candidate) × Memᴰ s cohort
          × (is_prohibited_pair c s ≡ true)
          × (may_precede s c ≡ true))

  any-mem :
      (p : Candidate → Bool) (xs : List Candidate)
      → any p xs ≡ true
      → (s : Candidate) × Memᴰ s xs × (p s ≡ true)
  any-mem p [] h = absurd (ground arith)
  any-mem p (x ∷ xs) h = elim (Bool-cases (p x)) [
    | inl here ↦ (x, Memᴰ.head refl, here)
    | inr there ↦ let (s, m, e) = any-mem p xs (ground arith) in (s, Memᴰ.tail m, e)
  ]

  full_blocks :
      (selected : List Candidate) (c : Candidate)
      → length selected ≤ request.max_members
      → leb request.max_members (length selected) ≡ true
      → ((s : Candidate) → Memᴰ s selected → may_precede s c ≡ true)
      → IsBlocked selected c
  full_blocks selected c h full b =
      let full' : request.max_members ≤ length selected =
        leb→le request.max_members (length selected) full in
      inl (omega arith, b)

  clash_blocks :
      (selected rest : List Candidate) (c : Candidate)
      → clashes request c selected ≡ true
      → ((s : Candidate) → Memᴰ s selected → may_precede s c ≡ true)
      → IsBlocked (select_from request selected rest) c
  clash_blocks selected rest c clash b =
      let (s, m, e) = any-mem (λ s. is_prohibited_pair c s) selected clash in
      inr (s, select_from-keeps selected rest m, e, b s m)

  -- Every candidate behind the selected ones is selected, or is blocked.
  pub select_from-IsBlocked :
      (selected rest : List Candidate) (c : Candidate)
      → length selected ≤ request.max_members
      → IsOrdered may_precede rest
      → ((s d : Candidate) → Memᴰ s selected → Memᴰ d rest → may_precede s d ≡ true)
      → Memᴰ c rest
      → Memᴰ c (select_from request selected rest) ⊎ IsBlocked (select_from request selected rest) c
  unfolding select_from
  select_from-IsBlocked selected [] c h o b m = elim m [ ]
  select_from-IsBlocked selected (x ∷ rest) c h o b (Memᴰ.head e) =
      elim (Bool-cases (leb request.max_members (length selected))) [
        | inl full ↦ rw full (inr (full_blocks selected c h full (λ s k. b s c k (Memᴰ.head e))))
        | inr more ↦ rw more (elim (Bool-cases (clashes request x selected)) [
          | inl clash ↦ rw clash (
              inr (
                clash_blocks selected rest c (ap (λ y. clashes request y selected) e ∙ clash)
                  (λ s k. b s c k (Memᴰ.head e))))
          | inr free ↦ rw free (
              inl (
                select_from-keeps (selected ++ x ∷ []) rest
                  (subst (λ y. Memᴰ y (selected ++ x ∷ [])) (sym e) (mem-append_last x selected))))
        ])
      ]
  select_from-IsBlocked selected (x ∷ rest) c h o b (Memᴰ.tail m) =
      elim (Bool-cases (leb request.max_members (length selected))) [
        | inl full ↦ rw full (inr (full_blocks selected c h full (λ s k. b s c k (Memᴰ.tail m))))
        | inr more ↦ rw more (elim (Bool-cases (clashes request x selected)) [
          | inl clash ↦
              rw clash
                (select_from-IsBlocked selected rest c h o.1 (λ s d k l. b s d k (Memᴰ.tail l)) m)
          | inr free ↦ rw free (
              select_from-IsBlocked (selected ++ x ∷ []) rest c
                (ground (arith, length-append selected (x ∷ []))) o.1
                (λ s d k l. elim (mem-append_cases x selected k) [
                  | inl old ↦ b s d old (Memᴰ.tail l)
                  | inr new ↦ ap (λ t. may_precede t d) new ∙ o.0 d l
                ])
                m)
        ])
      ]
