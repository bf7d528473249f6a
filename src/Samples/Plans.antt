-- ===== src/Samples/Plans.antt =====
-- A plan of three subtasks, its events, and the theorems on progress at them.
use super_scientist_orchestr.Prelude.{
  ℕ, ◌+◌, ◌*◌, ◌^◌, ◌≤◌, String, ◌≡◌, refl, ◌↔◌, ◌⊎◌, true, false, ◌&&◌, some, List, [], ◌∷◌,
  leb→le, nat_eq, string_eq, option_eq, list_eq, decide, is_empty, contains, subset, sorted,
  insert_sorted,
}
use super_scientist_orchestr.Identity.{are_independent, ActorIdentity-discrete, actor_eq}
use super_scientist_orchestr.Improvement.{
  VerificationLevel, ActorRelationship, AssessmentOutcome, is_passed,
}
use super_scientist_orchestr.Progress.{
  ProgressStatus, ProgressSubtask, ProgressPlan, ProgressValidationEvent, ProgressSummary,
  progress_actors_are_independent, recompute_completion_proposer_independence,
}
use super_scientist_orchestr.Progress.Topology.{
  PlanError, returned, raised, topological_subtasks, check_plan, index_subtasks, check_dependencies,
  schedule, drain, initial_ready, indegree, dependents, add_dependent, release, release_one, key_le,
  pick,
}
use super_scientist_orchestr.Progress.Schedules.{IsSchedule}
use super_scientist_orchestr.Progress.Cycles.{topological_subtasks_cases}
use super_scientist_orchestr.Progress.Calculation.{
  calculate_progress, record_events, count_subtasks, count_event, is_independently_accepted,
  event_le,
}
use super_scientist_orchestr.Progress.Eligible.{accepts}
use super_scientist_orchestr.Progress.Validated.{deciding_event, calculate_progress-validated}
use super_scientist_orchestr.Progress.Finish.{
  FalseFinishResult, FalseFinishFinding, detect_false_finish, detect_from_derived_weight,
  event_advances_progress_head, current_progress_plan, greatest, plan_lt,
}
use super_scientist_orchestr.Progress.Heads.{event_advances_progress_head_asym}
use super_scientist_orchestr.Progress.Weights.{calculate_progress-weights, detect_false_finish_iff}
use super_scientist_orchestr.Samples.{person}

abbrev subtask : String → List String → ℕ → ℕ → ProgressSubtask
subtask name dependencies weight order = record {
  subtask_id = name;
  plan_version_id = "plan-1";
  description = name;
  dependency_ids = dependencies;
  completion_criteria = "done" ∷ [];
  validator = person "vera";
  validator_version = "v1";
  weight = weight;
  evidence_requirements = "a record" ∷ [];
  order = order;
}

-- The report needs the measurement and the review, and the review needs the measurement.
abbrev report : ProgressSubtask
report = subtask "report" ("measure" ∷ "review" ∷ []) (10 ^ 383) 1

abbrev review : ProgressSubtask
review = subtask "review" ("measure" ∷ []) (4 * 10 ^ 383) 2

abbrev measure : ProgressSubtask
measure = subtask "measure" [] (5 * 10 ^ 383) 3

abbrev plan_of : List ProgressSubtask → ProgressPlan
plan_of subtasks = record {
  plan_version_id = "plan-1";
  run_id = "run-1";
  version = 1;
  subtasks = subtasks;
  created_at = 1;
  governing_policy_hash = "00";
}

abbrev plan_example : ProgressPlan
plan_example = plan_of (report ∷ review ∷ measure ∷ [])

abbrev event : String → String → ProgressStatus → ℕ → ProgressValidationEvent
event name subtask_name status time = record {
  event_id = name;
  run_id = "run-1";
  plan_version_id = "plan-1";
  subtask_id = subtask_name;
  requested_status = status;
  completion_proposer = person "paul";
  validator = person "vera";
  validator_version = "v1";
  validator_category = VerificationLevel.formal_verifier;
  relationship_to_run_creator = ActorRelationship.independent;
  relationship_to_completion_proposer = ActorRelationship.independent;
  independent = true;
  evidence_ids = "evidence-1" ∷ [];
  checks_run = "replay" ∷ [];
  assumptions = [];
  limitations = [];
  result = AssessmentOutcome.passed;
  occurred_at = time;
  governing_policy_hash = "00";
}

abbrev measured : ProgressValidationEvent
measured = event "event-1" "measure" ProgressStatus.validated 5

abbrev reported : ProgressValidationEvent
reported = event "event-2" "report" ProgressStatus.validated 6

abbrev reviewed : ProgressValidationEvent
reviewed = event "event-3" "review" ProgressStatus.provisionally_complete 4

abbrev events_example : List ProgressValidationEvent
events_example = reported ∷ measured ∷ reviewed ∷ []

event_run : recompute_completion_proposer_independence measured ≡ some measured
unfolding recompute_completion_proposer_independence progress_actors_are_independent are_independent
event_run = refl

checked : check_plan plan_example ≡ returned tt
unfolding check_plan index_subtasks check_dependencies
checked = refl

order_run : topological_subtasks plan_example ≡ returned (measure ∷ review ∷ report ∷ [])
unfolding topological_subtasks check_plan index_subtasks check_dependencies schedule drain
    initial_ready indegree dependents add_dependent release release_one key_le pick sorted
    insert_sorted
order_run = refl

-- Two subtasks that wait for one another.
cycle_run :
    topological_subtasks (
      plan_of
        (subtask "a" ("b" ∷ []) (5 * 10 ^ 383) 1 ∷ subtask "b" ("a" ∷ []) (5 * 10 ^ 383) 2 ∷ []))
    ≡ raised PlanError.dependency_cycle
unfolding topological_subtasks check_plan index_subtasks check_dependencies schedule drain
    initial_ready indegree dependents add_dependent release release_one key_le pick sorted
    insert_sorted
cycle_run = refl

abbrev summary_example : ProgressSummary
summary_example = record {
  plan_version_id = "plan-1";
  total_weight = 10 ^ 384;
  provisional_weight = 4 * 10 ^ 383;
  official_weight = 5 * 10 ^ 383;
  provisional_subtask_ids = "review" ∷ [];
  validated_subtask_ids = "measure" ∷ [];
}

-- The report is not done: the review that it needs is only provisional.
progress_run : calculate_progress plan_example events_example ≡ returned summary_example
unfolding calculate_progress topological_subtasks check_plan index_subtasks check_dependencies
    schedule drain initial_ready indegree dependents add_dependent release release_one key_le pick
    sorted insert_sorted record_events count_subtasks count_event is_independently_accepted event_le
    progress_actors_are_independent are_independent ActorIdentity-discrete decide
progress_run = refl

topological_subtasks_cases_example :
    ((ordered : List ProgressSubtask) × (topological_subtasks plan_example ≡ returned ordered)
      × IsSchedule plan_example ordered)
    ⊎ ((topological_subtasks plan_example ≡ raised PlanError.dependency_cycle)
        × ((ordered : List ProgressSubtask) → ¬ IsSchedule plan_example ordered))
topological_subtasks_cases_example = topological_subtasks_cases plan_example checked

validated_example : contains summary_example.validated_subtask_ids "report" ≡ (
    accepts report (deciding_event events_example "report")
    && subset report.dependency_ids summary_example.validated_subtask_ids)
validated_example =
    calculate_progress-validated plan_example events_example summary_example "report" report
      progress_run refl

weights_example :
    summary_example.provisional_weight + summary_example.official_weight
    ≤ summary_example.total_weight
weights_example =
    calculate_progress-weights plan_example events_example summary_example progress_run

abbrev finding_example : FalseFinishFinding
finding_example = record {
  result = FalseFinishResult.false_finish;
  voluntary_termination = true;
  claims_completion = true;
  final_validator_failed = true;
  meaningful_validated_progress = true;
  unused_budget = true;
  reasons =
      "voluntary completion followed meaningful validated progress but failed final validation while budget remained"
      ∷ [];
}

finish_run :
    detect_false_finish true true AssessmentOutcome.failed plan_example events_example true
    ≡ returned finding_example
unfolding detect_false_finish detect_from_derived_weight
finish_run = rw progress_run

false_finish_example : (finding_example.result ≡ FalseFinishResult.false_finish) ↔ (
    (true ≡ true)
    × (true ≡ true)
    × (is_passed AssessmentOutcome.failed ≡ false)
    × (is_empty summary_example.validated_subtask_ids ≡ false)
    × (true ≡ true))
false_finish_example =
    detect_false_finish_iff true true AssessmentOutcome.failed plan_example events_example true
      summary_example finding_example
      (leb→le 1 (10 ^ 383) refl, (leb→le 1 (4 * 10 ^ 383) refl, (leb→le 1 (5 * 10 ^ 383) refl, tt)))
      progress_run finish_run

advances_run : event_advances_progress_head reported (plan_example ∷ []) (some measured) ≡ true
unfolding event_advances_progress_head current_progress_plan greatest plan_lt
advances_run = refl

advances_example : event_advances_progress_head measured (plan_example ∷ []) (some reported) ≡ false
advances_example =
    event_advances_progress_head_asym reported measured (plan_example ∷ []) advances_run
