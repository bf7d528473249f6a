-- ===== src/Progress/Order.antt =====
-- The loop of `_topological_subtasks` ends, and lists every subtask behind its dependencies.
use super_scientist_orchestr.Prelude.{
  ℕ, zero, suc, ◌+◌, ◌≤◌, String, ◌≡◌, refl, ap, ◌⊎◌, inl, inr, false, Option, some, List, [], ◌∷◌,
  arith, if◌then◌else◌, Bool-cases, ◌==◌, ==_refl, nat_eq, string_eq, option_eq, list_eq, length,
  select, contains, sorted,
}
use super_scientist_orchestr.Progress.{ProgressSubtask}
use super_scientist_orchestr.Progress.Topology.{
  ids, indegree, dependents, Queue, release, key_le, drain, initial_ready, append_to,
}
use super_scientist_orchestr.Progress.Counting.{
  count, missing, count-contains, count-sorted, count-select, missing-nil, missing-cons,
}
use super_scientist_orchestr.Progress.Release.{
  remaining, indegree-remaining, remaining-dependents, IsReleased, release-IsReleased,
}

-- The list, newest first, behind the names that are done.
abbrev pub onto : List String → List String → List String
onto [] done = done
onto (x ∷ xs) done = onto xs (x ∷ done)

-- Each name comes when no dependency of its subtasks is open.
abbrev pub IsOrdered : List ProgressSubtask → List String → List String → Type 0
IsOrdered subtasks done [] = Unit
IsOrdered subtasks done (x ∷ xs) =
    (remaining subtasks done x ≡ 0) × IsOrdered subtasks (x ∷ done) xs

pub remaining-absent :
    (ss : List ProgressSubtask) (done : List String) (i : String)
    → count (ids ss) i ≡ 0
    → remaining ss done i ≡ 0
remaining-absent [] done i h = refl
remaining-absent (s ∷ ss) done i h = ground (arith, remaining-absent ss done i)

module _ (subtasks : List ProgressSubtask) (once : (i : String) → count (ids subtasks) i ≤ 1) where
  -- What holds before each round: the counters are right, and the names without open dependencies
  -- are done or in the queue, each once.
  record IsKept (done : List String) (degrees : String → ℕ) (ready : List String) : Type 0 where
    counters : (i : String) → degrees i ≡ remaining subtasks done i
    places :
        (i : String)
        → count done i + count ready i
          ≡ (if remaining subtasks done i == 0 then count (ids subtasks) i else 0)

  id_cases :
      (done : List String) (i : String)
      → (count (ids subtasks) i ≡ 1) ⊎ (remaining subtasks done i ≡ 0)
  id_cases done i = elim (Bool-cases (count (ids subtasks) i == 0)) [
    | inl absent ↦ inr (remaining-absent subtasks done i (ground arith))
    | inr present ↦ inl (ground (arith, once i))
  ]

  module _ (done : List String) (degrees : String → ℕ) (current : String) (ready : List String)
      (kept : IsKept done degrees (current ∷ ready)) where
    is_new : contains done current ≡ false
    is_new =
        ground
          (arith, count-contains done current, kept.places current, once current, ==_refl current)

    is_open : remaining subtasks done current ≡ 0
    is_open = ground (arith, kept.places current, ==_refl current)

    is_id : count (ids subtasks) current ≡ 1
    is_id = ground (arith, kept.places current, once current, ==_refl current)

    abbrev released : Queue
    released =
        release subtasks (sorted (key_le subtasks) (dependents subtasks current))
          (record { degrees = degrees; ready = ready })

    dependents-count :
        (i : String)
        → count (sorted (key_le subtasks) (dependents subtasks current)) i
            + remaining subtasks (current ∷ done) i
          ≡ degrees i
    dependents-count i = omega (
      arith,
      count-sorted (key_le subtasks) (dependents subtasks current) i,
      kept.counters i,
      remaining-dependents subtasks done current i is_new,
    )

    is_released :
        (i : String)
        → IsReleased subtasks
            (sorted (key_le subtasks) (dependents subtasks current))
            (record { degrees = degrees; ready = ready })
            i
    is_released i =
        release-IsReleased subtasks (sorted (key_le subtasks) (dependents subtasks current))
          (record { degrees = degrees; ready = ready }) (λ j. omega (arith, dependents-count j)) i

    IsKept-next : IsKept (current ∷ done) released.degrees released.ready
    IsKept-next = record {
      counters = λ i. omega (arith, (is_released i).degrees, dependents-count i);
      places = λ i. ground (
        arith,
        (is_released i).degrees,
        (is_released i).ready,
        dependents-count i,
        kept.counters i,
        kept.places i,
        once i,
        id_cases done i,
      );
    }

    missing-next : missing (current ∷ done) (ids subtasks) + 1 ≡ missing done (ids subtasks)
    missing-next = omega (arith, missing-cons done (ids subtasks) current is_new, is_id)

  -- What the loop leaves behind.
  pub record IsDrained (done : List String) (result : Option (List String)) : Type 0 where
    pub ordered : List String
    pub found : result ≡ some ordered
    pub order : IsOrdered subtasks done ordered
    pub places :
        (i : String)
        → count (onto ordered done) i
          ≡ (if remaining subtasks (onto ordered done) i == 0 then count (ids subtasks) i else 0)
    pub total :
        length ordered + missing (onto ordered done) (ids subtasks) ≡ missing done (ids subtasks)

  IsDrained-cons :
      (done : List String) (current : String) (result : Option (List String))
      → remaining subtasks done current ≡ 0
      → missing (current ∷ done) (ids subtasks) + 1 ≡ missing done (ids subtasks)
      → IsDrained (current ∷ done) result
      → IsDrained done (append_to current result)
  IsDrained-cons done current result open' fewer d = record {
    ordered = current ∷ d.ordered;
    found = ap (append_to current) d.found;
    order = (open', d.order);
    places = d.places;
    total = omega (arith, d.total, fewer);
  }

  drain-IsDrained :
      (rounds : ℕ) (done : List String) (degrees : String → ℕ) (ready : List String)
      → IsKept done degrees ready
      → missing done (ids subtasks) ≤ rounds
      → IsDrained done (drain subtasks rounds degrees ready)
  unfolding drain
  drain-IsDrained rounds done degrees [] kept enough = record {
    ordered = [];
    found = refl;
    order = tt;
    places = λ i. ground (arith, kept.places i);
    total = omega arith;
  }
  drain-IsDrained zero done degrees (current ∷ ready) kept enough =
      absurd (omega (arith, missing-next done degrees current ready kept))
  drain-IsDrained (suc rounds) done degrees (current ∷ ready) kept enough =
      IsDrained-cons done current _ (is_open done degrees current ready kept)
        (missing-next done degrees current ready kept)
        (drain-IsDrained rounds (current ∷ done) _ _ (IsKept-next done degrees current ready kept)
          (omega (arith, missing-next done degrees current ready kept)))

  IsKept-start : IsKept [] (indegree subtasks) (initial_ready subtasks)
  unfolding initial_ready
  IsKept-start = record {
    counters = indegree-remaining subtasks;
    places = λ i. ground (
      arith,
      count-sorted (key_le subtasks) (select (λ id. indegree subtasks id == 0) (ids subtasks)) i,
      count-select (λ id. indegree subtasks id == 0) (ids subtasks) i,
      indegree-remaining subtasks i,
    );
  }

  -- With a round for each name, the loop ends.
  pub drained :
      IsDrained []
        (drain subtasks (length (ids subtasks)) (indegree subtasks) (initial_ready subtasks))
  drained =
      drain-IsDrained (length (ids subtasks)) [] (indegree subtasks) (initial_ready subtasks)
        IsKept-start (omega (arith, missing-nil (ids subtasks)))
