-- ===== src/Progress/Cycles.antt =====
-- What `_topological_subtasks` returns, and when it finds a cycle.
use super_scientist_orchestr.Prelude.{
  ◌≤◌, String, ◌≡◌, refl, sym, ap, ◌∙◌, subst, ◌⊎◌, inl, inr, true, Option, some, List, [], ◌∷◌,
  arith, Bool-cases, ◌==◌, nat_eq, string_eq, option_eq, list_eq, length, All, contains, subset,
  subset_trans, lookup,
}
use super_scientist_orchestr.Progress.{ProgressSubtask, ProgressPlan}
use super_scientist_orchestr.Progress.Topology.{
  PlanError, returned, raised, ids, by_id, check_plan, drain, initial_ready, indegree, schedule,
  topological_subtasks,
}
use super_scientist_orchestr.Progress.Counting.{
  count, count-contains, missing-nil, subset-missing, missing-count, subset-counts,
}
use super_scientist_orchestr.Progress.Release.{remaining}
use super_scientist_orchestr.Progress.Order.{onto, IsDrained, drained}
use super_scientist_orchestr.Progress.Schedules.{
  DependenciesFirst, IsSchedule, bind_inv, returned_inj, check_plan-once, remaining-lookup,
  lookup-count, IsPicked, pick-IsPicked, count-onto,
}

module _ (subtasks : List ProgressSubtask) (once : (i : String) → count (ids subtasks) i ≤ 1) where
  abbrev drained_loop : Option (List String)
  drained_loop = drain subtasks (length (ids subtasks)) (indegree subtasks) (initial_ready subtasks)

  -- A loop that lists as many names as there are lists each name once.
  all_listed :
      (d : IsDrained subtasks once [] drained_loop)
      → length d.ordered ≡ length (ids subtasks)
      → (i : String) → count d.ordered i ≡ count (ids subtasks) i
  all_listed d same i = ground (
    arith,
    d.places i,
    count-onto d.ordered [] i,
    missing-count (onto d.ordered []) (ids subtasks) i
        (omega (arith, d.total, same, missing-nil (ids subtasks))),
  )

  -- The names of a schedule are all done when the loop ends.
  every_done :
      (d : IsDrained subtasks once [] drained_loop) (done : List String) (ss : List ProgressSubtask)
      → All (λ s. lookup s.subtask_id (by_id subtasks) ≡ some s) ss
      → DependenciesFirst done ss
      → subset done (onto d.ordered []) ≡ true
      → subset (ids ss) (onto d.ordered []) ≡ true
  every_done d done [] own first h = refl
  every_done d done (s ∷ ss) own first h =
      rw (here, every_done d (s.subtask_id ∷ done) ss own.1 first.1 (rw (here, h)))
    where
      closed : remaining subtasks (onto d.ordered []) s.subtask_id ≡ 0
      closed =
          remaining-lookup subtasks (onto d.ordered []) s.subtask_id (once s.subtask_id) own.0
          ∙ subset-missing (onto d.ordered []) s.dependency_ids
              (subset_trans s.dependency_ids done (onto d.ordered []) first.0 h)

      here : contains (onto d.ordered []) s.subtask_id ≡ true
      here = ground (
        arith,
        d.places s.subtask_id,
        closed,
        lookup-count subtasks s.subtask_id own.0,
        count-contains (onto d.ordered []) s.subtask_id,
      )

module _ (plan : ProgressPlan) (once : (i : String) → count (ids plan.subtasks) i ≤ 1) where
  abbrev loop_end : IsDrained plan.subtasks once [] (drained_loop plan.subtasks once)
  loop_end = drained plan.subtasks once

  -- The loop listed every name: the subtasks are picked in that order.
  scheduled :
      length loop_end.ordered ≡ length (ids plan.subtasks)
      → (ordered : List ProgressSubtask) × (schedule plan.subtasks ≡ returned ordered)
        × IsSchedule plan ordered
  scheduled same = (
    picks.picked,
    unfold schedule in ground (arith, loop_end.found, picks.found, same),
    record {
      own = picks.own;
      each_once = λ id.
          ap (λ names. count names id) picks.named ∙ all_listed plan.subtasks once loop_end same id;
      dependencies_first = picks.dependencies loop_end.order;
    },
  )
    where
      known : (i : String) → contains loop_end.ordered i ≡ true → 1 ≤ count (ids plan.subtasks) i
      known i h =
          ground (
            arith,
            all_listed plan.subtasks once loop_end same i,
            count-contains loop_end.ordered i,
          )

      picks : IsPicked plan.subtasks [] loop_end.ordered
      picks = pick-IsPicked plan.subtasks once [] loop_end.ordered known

  -- A schedule lets the loop list every name.
  IsSchedule-all :
      (ordered : List ProgressSubtask)
      → IsSchedule plan ordered
      → length loop_end.ordered ≡ length (ids plan.subtasks)
  IsSchedule-all ordered s = omega (
    arith,
    loop_end.total,
    missing-nil (ids plan.subtasks),
    subset-counts (ids ordered) (ids plan.subtasks) (onto loop_end.ordered []) s.each_once
        (every_done plan.subtasks once loop_end [] ordered s.own s.dependencies_first refl),
  )

  pub schedule_cases :
      ((ordered : List ProgressSubtask) × (schedule plan.subtasks ≡ returned ordered)
        × IsSchedule plan ordered)
      ⊎ ((schedule plan.subtasks ≡ raised PlanError.dependency_cycle)
          × ((ordered : List ProgressSubtask) → ¬ IsSchedule plan ordered))
  schedule_cases = elim (Bool-cases (length loop_end.ordered == length (ids plan.subtasks))) [
    | inl same ↦ inl (scheduled (ground arith))
    | inr fewer ↦ inr (
      unfold schedule in ground (arith, loop_end.found),
      λ ordered s. ground (arith, IsSchedule-all ordered s),
    )
  ]

-- A plan that passes the checks gets an order of all its subtasks, each once and behind its
-- dependencies, or else the cycle error, and then no such order exists: the loop always ends.
pub topological_subtasks_cases :
    (plan : ProgressPlan)
    → check_plan plan ≡ returned tt
    → ((ordered : List ProgressSubtask) × (topological_subtasks plan ≡ returned ordered)
        × IsSchedule plan ordered)
      ⊎ ((topological_subtasks plan ≡ raised PlanError.dependency_cycle)
          × ((ordered : List ProgressSubtask) → ¬ IsSchedule plan ordered))
unfolding topological_subtasks
topological_subtasks_cases plan h = rw h (schedule_cases plan (check_plan-once plan h))

pub topological_subtasks-IsSchedule :
    (plan : ProgressPlan) (ordered : List ProgressSubtask)
    → topological_subtasks plan ≡ returned ordered
    → IsSchedule plan ordered
unfolding topological_subtasks
topological_subtasks-IsSchedule plan ordered h =
    let (_, checked, made) = bind_inv _ _ h in
    elim (schedule_cases plan (check_plan-once plan checked)) [
      | inl (other, found, s) ↦ subst (IsSchedule plan) (returned_inj (sym found ∙ made)) s
      | inr (cycle, _) ↦ absurd (ground arith)
    ]
