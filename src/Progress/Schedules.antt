-- ===== src/Progress/Schedules.antt =====
-- Orders of a plan, and the subtasks that are picked by a list of names.
use super_scientist_orchestr.Prelude.{
  ◌+◌, ◌≤◌, String, ◌≡◌, refl, sym, ap, ◌∙◌, subst, ◌⊎◌, inl, inr, true, false, some, List, [], ◌∷◌,
  arith, Bool-cases, ◌==◌, ==_iff, ==_refl, nat_eq, string_eq, option_eq, list_eq, All, contains,
  subset, lookup,
}
use super_scientist_orchestr.Progress.{ProgressSubtask, ProgressPlan}
use super_scientist_orchestr.Progress.Topology.{
  Outcome, returned, raised, ◌>>=◌, ids, by_id, index_subtasks, check_plan, pick,
}
use super_scientist_orchestr.Progress.Counting.{count, missing, count-contains, missing-subset}
use super_scientist_orchestr.Progress.Release.{remaining}
use super_scientist_orchestr.Progress.Order.{onto, IsOrdered, remaining-absent}

-- Every subtask stands behind its dependencies.
abbrev pub DependenciesFirst : List String → List ProgressSubtask → Type 0
DependenciesFirst done [] = Unit
DependenciesFirst done (subtask ∷ subtasks) =
    (subset subtask.dependency_ids done ≡ true)
    × DependenciesFirst (subtask.subtask_id ∷ done) subtasks

-- An order in which the plan can be carried out: each subtask of the plan once, behind its
-- dependencies.
pub record IsSchedule (plan : ProgressPlan) (ordered : List ProgressSubtask) : Type 0 where
  pub own : All (λ s. lookup s.subtask_id (by_id plan.subtasks) ≡ some s) ordered
  pub each_once : (id : String) → count (ids ordered) id ≡ count (ids plan.subtasks) id
  pub dependencies_first : DependenciesFirst [] ordered

pub returned_inj {ℓ} : {A : Type ℓ} {a b : A} → returned a ≡ returned b → a ≡ b
returned_inj h = cc

-- A sequence that returns has two parts that return.
pub bind_inv {ℓ κ} :
    {A : Type ℓ} {B : Type κ} (o : Outcome A) (f : A → Outcome B) {b : B}
    → (o >>= f) ≡ returned b
    → (a : A) × (o ≡ returned a) × (f a ≡ returned b)
bind_inv (returned a) f h = (a, refl, h)
bind_inv (raised e) f h = cc

-- The names of a plan whose index is built are different.
index_subtasks-once :
    (version : String) (seen : List String) (subtasks : List ProgressSubtask)
    → ((i : String) → count seen i ≤ 1)
    → index_subtasks version seen subtasks ≡ returned tt
    → (i : String) → count seen i + count (ids subtasks) i ≤ 1
unfolding index_subtasks
index_subtasks-once version seen [] h r i = ground (arith, h i)
index_subtasks-once version seen (s ∷ ss) h r i = ground (
  arith,
  index_subtasks-once version (s.subtask_id ∷ seen) ss
      (λ j. seen-once j (Bool-cases (j == s.subtask_id))) (ground arith) i,
)
  where
    new : contains seen s.subtask_id ≡ false
    new = ground arith

    seen-once :
        (j : String)
        → ((j == s.subtask_id) ≡ true) ⊎ ((j == s.subtask_id) ≡ false)
        → count (s.subtask_id ∷ seen) j ≤ 1
    seen-once j (inl same) = ground (
      arith,
      new,
      count-contains seen s.subtask_id,
      ap (count seen) ((==_iff j s.subtask_id).0 same),
    )
    seen-once j (inr other) = ground (arith, h j)

pub check_plan-once :
    (plan : ProgressPlan)
    → check_plan plan ≡ returned tt
    → (i : String) → count (ids plan.subtasks) i ≤ 1
unfolding check_plan
check_plan-once plan h i =
    let (_, first, _) = bind_inv _ _ h in
    let (_, indexed, _) = bind_inv _ _ first in
    omega (
      arith,
      index_subtasks-once plan.plan_version_id [] plan.subtasks (λ j. omega arith) indexed i,
    )

pub remaining-lookup :
    (ss : List ProgressSubtask) (done : List String) (id : String) {s : ProgressSubtask}
    → count (ids ss) id ≤ 1
    → lookup id (by_id ss) ≡ some s
    → remaining ss done id ≡ missing done s.dependency_ids
remaining-lookup [] done id h found = cc
remaining-lookup (s' ∷ ss) done id {s} h found = elim (Bool-cases (id == s'.subtask_id)) [
  | inl same ↦ ground (arith, remaining-absent ss done id)
  | inr other ↦ ground (arith, remaining-lookup ss done id {s = s} (ground arith) (ground arith))
]

pub lookup-count :
    (ss : List ProgressSubtask) (id : String) {s : ProgressSubtask}
    → lookup id (by_id ss) ≡ some s
    → 1 ≤ count (ids ss) id
lookup-count [] id h = cc
lookup-count (s' ∷ ss) id {s} h = ground (arith, lookup-count ss id {s = s})

pub lookup-found :
    (ss : List ProgressSubtask) (id : String)
    → 1 ≤ count (ids ss) id
    → (s : ProgressSubtask) × (lookup id (by_id ss) ≡ some s) × (s.subtask_id ≡ id)
lookup-found [] id h = absurd (omega (arith, h))
lookup-found (s ∷ ss) id h = elim (Bool-cases (id == s.subtask_id)) [
  | inl same ↦ (s, ground arith, sym ((==_iff id s.subtask_id).0 same))
  | inr other ↦
      let (t, found, named) = lookup-found ss id (ground arith) in (t, ground arith, named)
]

-- The names that are picked are those that were asked for, with their own subtasks.
pub record IsPicked (subtasks : List ProgressSubtask) (done names : List String) : Type 0 where
  pub picked : List ProgressSubtask
  pub found : pick subtasks names ≡ returned picked
  pub named : ids picked ≡ names
  pub own : All (λ s. lookup s.subtask_id (by_id subtasks) ≡ some s) picked
  pub dependencies : IsOrdered subtasks done names → DependenciesFirst done picked

module _ (subtasks : List ProgressSubtask) (once : (i : String) → count (ids subtasks) i ≤ 1) where
  IsPicked-cons :
      (done : List String) (name : String) (names : List String) (s : ProgressSubtask)
      → lookup name (by_id subtasks) ≡ some s
      → s.subtask_id ≡ name
      → IsPicked subtasks (name ∷ done) names
      → IsPicked subtasks done (name ∷ names)
  unfolding pick
  IsPicked-cons done name names s found named rest = record {
    picked = s ∷ rest.picked;
    found = ground (arith, found, rest.found);
    named = rw (named, rest.named);
    own = (ap (λ n. lookup n (by_id subtasks)) named ∙ found, rest.own);
    dependencies = λ h. (
      missing-subset done s.dependency_ids
          (sym (remaining-lookup subtasks done name (once name) found) ∙ h.0),
      subst (λ n. DependenciesFirst (n ∷ done) rest.picked) (sym named) (rest.dependencies h.1),
    );
  }

  pub pick-IsPicked :
      (done names : List String)
      → ((i : String) → contains names i ≡ true → 1 ≤ count (ids subtasks) i)
      → IsPicked subtasks done names
  unfolding pick
  pick-IsPicked done [] known = record {
    picked = [];
    found = refl;
    named = refl;
    own = tt;
    dependencies = λ h. tt;
  }
  pick-IsPicked done (name ∷ names) known =
      let (s, found, named) =
        lookup-found subtasks name (known name (ground (arith, ==_refl name))) in
      IsPicked-cons done name names s found named
        (pick-IsPicked (name ∷ done) names (λ i h. known i (ground arith)))

pub count-onto :
    (xs done : List String) (i : String) → count (onto xs done) i ≡ count xs i + count done i
count-onto [] done i = omega arith
count-onto (x ∷ xs) done i = ground (arith, count-onto xs (x ∷ done) i)
