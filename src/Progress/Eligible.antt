-- ===== src/Progress/Eligible.antt =====
-- Which subtasks the loop of `calculate_progress` makes eligible.
use super_scientist_orchestr.Prelude.{
  ◌+◌, ◌≤◌, String, ◌≡◌, refl, sym, ap, Bool, true, false, ◌&&◌, ◌||◌, Option, none, some, List, [],
  ◌∷◌, ◌++◌, arith, if◌then◌else◌, ◌==◌, ==_refl, nat_eq, string_eq, option_eq, list_eq, All,
  contains, subset, lookup,
}
use super_scientist_orchestr.Progress.{
  ProgressSubtask, ProgressPlan, ProgressValidationEvent, is_validated,
}
use super_scientist_orchestr.Progress.Topology.{returned, ids}
use super_scientist_orchestr.Progress.Counting.{count, count-contains}
use super_scientist_orchestr.Progress.Schedules.{DependenciesFirst, returned_inj}
use super_scientist_orchestr.Progress.Calculation.{
  Latest, record_events, is_independently_accepted, Tally, count_event, count_subtasks,
}

-- The last event of a subtask in a list.
abbrev pub last_of :
    String
    → Option ProgressValidationEvent
    → List ProgressValidationEvent
    → Option ProgressValidationEvent
last_of id last [] = last
last_of id last (event ∷ events) =
    let here = last_of id (some event) events in
    let there = last_of id last events in if id == event.subtask_id then here else there

-- The loop keeps the last event of each subtask.
pub lookup-record_events :
    (plan : ProgressPlan) (before latest : Latest) (events : List ProgressValidationEvent)
    (id : String)
    → record_events plan before events ≡ returned latest
    → lookup id latest ≡ last_of id (lookup id before) events
unfolding record_events
lookup-record_events plan before latest [] id h = ap (lookup id) (sym (returned_inj h))
lookup-record_events plan before latest (event ∷ events) id h = ground (
  arith,
  lookup-record_events plan ((event.subtask_id, event) ∷ before) latest events id (ground arith),
)

-- The subtask is accepted by its own latest event, whatever its dependencies are.
abbrev pub accepts : ProgressSubtask → Option ProgressValidationEvent → Bool
accepts subtask none = false
accepts subtask (some event) =
    is_validated event.requested_status && is_independently_accepted event subtask

eligible-count_event :
    (subtask : ProgressSubtask) (tally : Tally) (event : Option ProgressValidationEvent)
    (id : String)
    → contains (count_event subtask tally event).eligible id ≡ (
        contains tally.eligible id
        || id == subtask.subtask_id
          && (accepts subtask event && subset subtask.dependency_ids tally.eligible))
unfolding count_event
eligible-count_event subtask tally none id = ground arith
eligible-count_event subtask tally (some event) id = ground arith

contains-append :
    (xs : List String) (a id : String) → contains (xs ++ (a ∷ [])) id ≡ (contains xs id || id == a)
contains-append [] a id = ground arith
contains-append (x ∷ xs) a id = ground (arith, contains-append xs a id)

-- The names that are reported are the eligible ones.
official-count_event :
    (subtask : ProgressSubtask) (tally : Tally) (event : Option ProgressValidationEvent)
    (id : String)
    → contains tally.official_ids id ≡ contains tally.eligible id
    → contains (count_event subtask tally event).official_ids id
      ≡ contains (count_event subtask tally event).eligible id
unfolding count_event
official-count_event subtask tally none id h = h
official-count_event subtask tally (some event) id h =
    ground (arith, contains-append tally.official_ids subtask.subtask_id id)

pub subset-agree :
    (xs ys known : List String)
    → ((a : String) → contains known a ≡ true → contains xs a ≡ contains ys a)
    → (ds : List String) → subset ds known ≡ true
    → subset ds xs ≡ subset ds ys
subset-agree xs ys known h [] k = refl
subset-agree xs ys known h (d ∷ ds) k =
    ground (arith, h d (ground arith), subset-agree xs ys known h ds (ground arith))

module _ (latest : Latest) where
  pub official-count_subtasks :
      (subtasks : List ProgressSubtask) (tally : Tally) (id : String)
      → contains tally.official_ids id ≡ contains tally.eligible id
      → contains (count_subtasks latest tally subtasks).official_ids id
        ≡ contains (count_subtasks latest tally subtasks).eligible id
  unfolding count_subtasks
  official-count_subtasks [] tally id h = h
  official-count_subtasks (s ∷ ss) tally id h =
      official-count_subtasks ss (count_event s tally (lookup s.subtask_id latest)) id
        (official-count_event s tally (lookup s.subtask_id latest) id h)

  -- Later subtasks do not change whether a name is eligible.
  eligible-other :
      (subtasks : List ProgressSubtask) (tally : Tally) (id : String)
      → count (ids subtasks) id ≡ 0
      → contains (count_subtasks latest tally subtasks).eligible id ≡ contains tally.eligible id
  unfolding count_subtasks
  eligible-other [] tally id h = refl
  eligible-other (s ∷ ss) tally id h = ground (
    arith,
    eligible-other ss (count_event s tally (lookup s.subtask_id latest)) id (ground arith),
    eligible-count_event s tally (lookup s.subtask_id latest) id,
  )

  -- A subtask is eligible exactly if its event accepts it and its dependencies are eligible.
  abbrev pub IsExact : List String → ProgressSubtask → Type 0
  IsExact eligible s =
      contains eligible s.subtask_id
      ≡ (accepts s (lookup s.subtask_id latest) && subset s.dependency_ids eligible)

  module _ (s : ProgressSubtask) (ss : List ProgressSubtask) (done : List String) (tally : Tally)
      (apart : (id : String) → count done id + count (ids (s ∷ ss)) id ≤ 1)
      (within : (id : String) → contains tally.eligible id ≡ true → contains done id ≡ true) where
    abbrev next : Tally
    next = count_event s tally (lookup s.subtask_id latest)

    abbrev end_names : List String
    end_names = (count_subtasks latest next ss).eligible

    is_new : contains done s.subtask_id ≡ false
    is_new =
        ground (arith, apart s.subtask_id, count-contains done s.subtask_id, ==_refl s.subtask_id)

    not_yet : contains tally.eligible s.subtask_id ≡ false
    not_yet = ground (arith, is_new, within s.subtask_id)

    same_names :
        (id : String) → contains done id ≡ true → contains end_names id ≡ contains tally.eligible id
    same_names id h = ground (
      arith,
      apart id,
      count-contains done id,
      eligible-other ss next id,
      eligible-count_event s tally (lookup s.subtask_id latest) id,
    )

    IsExact-here : subset s.dependency_ids done ≡ true → IsExact end_names s
    IsExact-here first = ground (
      arith,
      apart s.subtask_id,
      not_yet,
      ==_refl s.subtask_id,
      eligible-other ss next s.subtask_id,
      eligible-count_event s tally (lookup s.subtask_id latest) s.subtask_id,
      subset-agree end_names tally.eligible done same_names s.dependency_ids first,
    )

    apart-next : (id : String) → count (s.subtask_id ∷ done) id + count (ids ss) id ≤ 1
    apart-next id = ground (arith, apart id)

    within-next :
        (id : String) → contains next.eligible id ≡ true → contains (s.subtask_id ∷ done) id ≡ true
    within-next id h =
        ground (arith, within id, eligible-count_event s tally (lookup s.subtask_id latest) id)

  pub count_subtasks-IsExact :
      (subtasks : List ProgressSubtask) (done : List String) (tally : Tally)
      → ((id : String) → count done id + count (ids subtasks) id ≤ 1)
      → ((id : String) → contains tally.eligible id ≡ true → contains done id ≡ true)
      → DependenciesFirst done subtasks
      → All (IsExact (count_subtasks latest tally subtasks).eligible) subtasks
  unfolding count_subtasks
  count_subtasks-IsExact [] done tally apart within first = tt
  count_subtasks-IsExact (s ∷ ss) done tally apart within first = (
    IsExact-here s ss done tally apart within first.0,
    count_subtasks-IsExact ss (s.subtask_id ∷ done)
        (count_event s tally (lookup s.subtask_id latest)) (apart-next s ss done tally apart within)
        (within-next s ss done tally apart within) first.1,
  )
