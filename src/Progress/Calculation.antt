-- ===== src/Progress/Calculation.antt =====
-- `calculate_progress` of domain/progress/calculations.py: which subtasks of a plan count as done.
use super_scientist_orchestr.Prelude.{
  ℕ, ◌+◌, String, Bool, not, ◌&&◌, ◌||◌, Option, none, some, List, [], ◌∷◌, ◌++◌, ltb,
  if◌then◌else◌, ◌==◌, ◌!=◌, nat_eq, string_eq, option_eq, list_eq, subset, lookup, sorted, text_lt,
}
use super_scientist_orchestr.Identity.{actor_eq}
use super_scientist_orchestr.Improvement.{is_authoritative_verification, is_independent, is_passed}
use super_scientist_orchestr.Progress.{
  ProgressSubtask, ProgressPlan, ProgressValidationEvent, ProgressSummary, is_validated,
  is_provisional, progress_actors_are_independent,
}
use super_scientist_orchestr.Progress.Topology.{
  PlanError, Outcome, returned, raised, ◌>>=◌, sum_decimals, topological_subtasks,
}

-- The key `(item.occurred_at, item.event_id)`.
unfoldable pub event_le : ProgressValidationEvent → ProgressValidationEvent → Bool
event_le left right =
    ltb left.occurred_at right.occurred_at
    || left.occurred_at == right.occurred_at && not (text_lt right.event_id left.event_id)

-- A dictionary, the newest item first.
abbrev pub Latest : Type 0
Latest = List (String × ProgressValidationEvent)

-- The loop that fills `latest_by_subtask`.
unfoldable pub record_events : ProgressPlan → Latest → List ProgressValidationEvent → Outcome Latest
record_events plan latest [] = returned latest
record_events plan latest (event ∷ events) =
    let rest = record_events plan ((event.subtask_id, event) ∷ latest) events in
    if event.run_id != plan.run_id || event.plan_version_id != plan.plan_version_id
    then raised PlanError.foreign_event
    else rest

unfoldable pub is_independently_accepted : ProgressValidationEvent → ProgressSubtask → Bool
is_independently_accepted event subtask =
    event.validator == subtask.validator
    && event.validator_version == subtask.validator_version
    && is_passed event.result
    && is_authoritative_verification event.validator_category
    && is_independent event.relationship_to_run_creator
    && is_independent event.relationship_to_completion_proposer
    && event.independent
    && progress_actors_are_independent event.validator event.completion_proposer

-- The names and weights that the loop over the subtasks collects.
pub record Tally : Type 0 where
  pub eligible : List String
  pub provisional_ids : List String
  pub official_ids : List String
  pub provisional_weights : List ℕ
  pub official_weights : List ℕ

abbrev pub no_tally : Tally
no_tally = record {
  eligible = [];
  provisional_ids = [];
  official_ids = [];
  provisional_weights = [];
  official_weights = [];
}

abbrev pub with_provisional : ProgressSubtask → Tally → Tally
with_provisional subtask tally = record tally {
  provisional_ids = tally.provisional_ids ++ (subtask.subtask_id ∷ []);
  provisional_weights = tally.provisional_weights ++ (subtask.weight ∷ []);
}

abbrev pub with_official : ProgressSubtask → Tally → Tally
with_official subtask tally = record tally {
  eligible = subtask.subtask_id ∷ tally.eligible;
  official_ids = tally.official_ids ++ (subtask.subtask_id ∷ []);
  official_weights = tally.official_weights ++ (subtask.weight ∷ []);
}

-- The two tests of the loop on the latest event of a subtask, one after the other.
unfoldable pub count_event : ProgressSubtask → Tally → Option ProgressValidationEvent → Tally
unfolding is_independently_accepted
count_event subtask tally none = tally
count_event subtask tally (some event) =
    let first =
      if is_provisional event.requested_status then with_provisional subtask tally else tally in
    if is_validated event.requested_status
      && is_independently_accepted event subtask
      && subset subtask.dependency_ids first.eligible
    then with_official subtask first
    else first

unfoldable pub count_subtasks : Latest → Tally → List ProgressSubtask → Tally
unfolding count_event
count_subtasks latest tally [] = tally
count_subtasks latest tally (subtask ∷ subtasks) =
    count_subtasks latest (count_event subtask tally (lookup subtask.subtask_id latest)) subtasks

abbrev pub sum : List ℕ → ℕ
sum [] = 0
sum (w ∷ ws) = w + sum ws

abbrev pub summary_of : ProgressPlan → List ProgressSubtask → Tally → ProgressSummary
summary_of plan ordered tally = record {
  plan_version_id = plan.plan_version_id;
  total_weight = sum_decimals ordered;
  provisional_weight = sum tally.provisional_weights;
  official_weight = sum tally.official_weights;
  provisional_subtask_ids = tally.provisional_ids;
  validated_subtask_ids = tally.official_ids;
}

unfoldable pub calculate_progress :
    ProgressPlan → List ProgressValidationEvent → Outcome ProgressSummary
unfolding record_events count_subtasks
calculate_progress plan events = topological_subtasks plan >>= (λ ordered.
    record_events plan [] (sorted event_le events)
    >>= (λ latest. returned (summary_of plan ordered (count_subtasks latest no_tally ordered))))
