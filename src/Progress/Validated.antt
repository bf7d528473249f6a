-- ===== src/Progress/Validated.antt =====
-- Which subtasks `calculate_progress` counts as officially done.
use super_scientist_orchestr.Prelude.{
  ◌≤◌, String, ◌≡◌, refl, sym, ap, ◌∙◌, subst, inl, inr, ◌&&◌, Option, none, some, List, [], ◌∷◌,
  arith, Bool-cases, ◌==◌, ==_iff, nat_eq, string_eq, option_eq, list_eq, All, contains, subset,
  subset_refl, lookup, sorted,
}
use super_scientist_orchestr.Progress.{
  ProgressSubtask, ProgressPlan, ProgressValidationEvent, ProgressSummary,
}
use super_scientist_orchestr.Progress.Topology.{
  returned, ids, by_id, topological_subtasks, check_plan,
}
use super_scientist_orchestr.Progress.Counting.{count}
use super_scientist_orchestr.Progress.Schedules.{
  IsSchedule, bind_inv, returned_inj, check_plan-once, lookup-count,
}
use super_scientist_orchestr.Progress.Cycles.{topological_subtasks-IsSchedule}
use super_scientist_orchestr.Progress.Calculation.{
  Latest, event_le, record_events, Tally, no_tally, count_subtasks, calculate_progress,
}
use super_scientist_orchestr.Progress.Eligible.{
  last_of, accepts, lookup-record_events, official-count_subtasks, IsExact, count_subtasks-IsExact,
  subset-agree,
}

-- The event that decides on a subtask: its last one in order of time and identifier.
abbrev pub deciding_event : List ProgressValidationEvent → String → Option ProgressValidationEvent
deciding_event events id = last_of id none (sorted event_le events)

-- What holds of all members of a schedule holds of the subtask that the plan has for a name.
All-lookup :
    (P : ProgressSubtask → Type 0) (plan ss : List ProgressSubtask) (id : String)
    {s : ProgressSubtask}
    → All (λ t. lookup t.subtask_id (by_id plan) ≡ some t) ss
    → All P ss
    → 1 ≤ count (ids ss) id
    → lookup id (by_id plan) ≡ some s
    → P s
All-lookup P plan [] id own h k found = absurd (omega (arith, k))
All-lookup P plan (t ∷ ts) id own h k found = elim (Bool-cases (id == t.subtask_id)) [
  | inl same ↦
      subst P
        (some_inj (
          sym own.0
          ∙ ap (λ n. lookup n (by_id plan)) (sym ((==_iff id t.subtask_id).0 same))
          ∙ found))
        h.0
  | inr other ↦ All-lookup P plan ts id own.1 h.1 (ground arith) found
]
  where
    some_inj : {a b : ProgressSubtask} → some a ≡ some b → a ≡ b
    some_inj e = cc

module _ (plan : ProgressPlan) (ordered : List ProgressSubtask) (latest : Latest)
    (schedule : IsSchedule plan ordered)
    (once : (i : String) → count (ids plan.subtasks) i ≤ 1) where
  abbrev tally_end : Tally
  tally_end = count_subtasks latest no_tally ordered

  All-IsExact : All (IsExact latest tally_end.eligible) ordered
  All-IsExact =
      count_subtasks-IsExact latest ordered [] no_tally
        (λ i. omega (arith, schedule.each_once i, once i)) (λ i h. ground arith)
        schedule.dependencies_first

  same_official :
      (id : String) → contains tally_end.official_ids id ≡ contains tally_end.eligible id
  same_official id = official-count_subtasks latest ordered no_tally id refl

  exact_at :
      (id : String) (s : ProgressSubtask)
      → lookup id (by_id plan.subtasks) ≡ some s
      → contains tally_end.official_ids s.subtask_id
        ≡ (accepts s (lookup s.subtask_id latest) && subset s.dependency_ids tally_end.official_ids)
  exact_at id s found =
      same_official s.subtask_id
      ∙ All-lookup (IsExact latest tally_end.eligible) plan.subtasks ordered id schedule.own
          All-IsExact (omega (arith, schedule.each_once id, lookup-count plan.subtasks id found))
          found
      ∙ ap (λ b. accepts s (lookup s.subtask_id latest) && b)
          (subset-agree tally_end.eligible tally_end.official_ids s.dependency_ids
            (λ a h. sym (same_official a)) s.dependency_ids (subset_refl s.dependency_ids))

topological_subtasks-once :
    (plan : ProgressPlan) {ordered : List ProgressSubtask}
    → topological_subtasks plan ≡ returned ordered
    → (i : String) → count (ids plan.subtasks) i ≤ 1
unfolding topological_subtasks
topological_subtasks-once plan h i =
    let (_, checked, _) = bind_inv (check_plan plan) _ h in check_plan-once plan checked i

-- A subtask counts as officially done exactly if its latest event, in order of time and identifier,
-- requests VALIDATED and is independently accepted, and all its dependencies count as officially
-- done.
pub calculate_progress-validated :
    (plan : ProgressPlan) (events : List ProgressValidationEvent) (summary : ProgressSummary)
    (id : String) (s : ProgressSubtask)
    → calculate_progress plan events ≡ returned summary
    → lookup id (by_id plan.subtasks) ≡ some s
    → contains summary.validated_subtask_ids s.subtask_id ≡ (
        accepts s (deciding_event events s.subtask_id)
        && subset s.dependency_ids summary.validated_subtask_ids)
unfolding calculate_progress
calculate_progress-validated plan events summary id s h found =
    let (ordered, scheduled, rest) = bind_inv (topological_subtasks plan) _ h in
    let (latest, recorded, made) =
      bind_inv (record_events plan [] (sorted event_le events)) _ rest in
    let e = returned_inj made in
    subst
      (λ (r : ProgressSummary). contains r.validated_subtask_ids s.subtask_id ≡ (
        accepts s (deciding_event events s.subtask_id)
        && subset s.dependency_ids r.validated_subtask_ids))
      e
      (subst
        (λ o. contains (count_subtasks latest no_tally ordered).official_ids s.subtask_id ≡ (
          accepts s o
          && subset s.dependency_ids (count_subtasks latest no_tally ordered).official_ids))
        (lookup-record_events plan [] latest (sorted event_le events) s.subtask_id recorded)
        (exact_at plan ordered latest (topological_subtasks-IsSchedule plan ordered scheduled)
          (topological_subtasks-once plan scheduled) id s found))
