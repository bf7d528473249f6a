-- ===== src/Progress.antt =====
-- domain/progress/models.py: the plans of a run, their subtasks and the events that validate them.
pub mod Counting
pub mod Topology
pub mod Release
pub mod Order
pub mod Schedules
pub mod Cycles
pub mod Calculation
pub mod Eligible
pub mod Validated
pub mod Finish
pub mod Heads
pub mod Weights
use super_scientist_orchestr.Prelude.{
  ℕ, String, Bool, true, false, not, ◌&&◌, ◌||◌, Option, none, some, List, if◌then◌else◌, is_empty,
}
use super_scientist_orchestr.Identity.{ActorIdentity, are_independent, correlated}
use super_scientist_orchestr.Improvement.{
  VerificationLevel, ActorRelationship, is_independent, AssessmentOutcome, is_passed,
}

pub data ProgressStatus : Type 0 where
  not_started in_progress blocked provisionally_complete validated invalidated abandoned :
      ProgressStatus

abbrev pub is_validated : ProgressStatus → Bool
is_validated ProgressStatus.validated = true
is_validated _ = false

abbrev pub is_provisional : ProgressStatus → Bool
is_provisional ProgressStatus.provisionally_complete = true
is_provisional _ = false

-- A weight is a natural number of units of 10^-384, the least exponent that a bounded decimal has.
-- The sums of the source are exact: their context has a digit for each place between the least
-- exponent and the greatest.
pub record ProgressSubtask : Type 0 where
  pub subtask_id : String
  pub plan_version_id : String
  pub description : String
  pub dependency_ids : List String
  pub completion_criteria : List String
  pub validator : ActorIdentity
  pub validator_version : String
  pub weight : ℕ
  pub evidence_requirements : List String
  pub order : ℕ

pub record ProgressPlan : Type 0 where
  pub plan_version_id : String
  pub run_id : String
  pub version : ℕ
  pub subtasks : List ProgressSubtask
  pub created_at : ℕ
  pub governing_policy_hash : String

pub record ProgressValidationEvent : Type 0 where
  pub event_id : String
  pub run_id : String
  pub plan_version_id : String
  pub subtask_id : String
  pub requested_status : ProgressStatus
  pub completion_proposer : ActorIdentity
  pub validator : ActorIdentity
  pub validator_version : String
  pub validator_category : VerificationLevel
  pub relationship_to_run_creator : ActorRelationship
  pub relationship_to_completion_proposer : ActorRelationship
  pub independent : Bool
  pub evidence_ids : List String
  pub checks_run : List String
  pub assumptions : List String
  pub limitations : List String
  pub result : AssessmentOutcome
  pub occurred_at : ℕ
  pub governing_policy_hash : String

pub record ProgressSummary : Type 0 where
  pub plan_version_id : String
  pub total_weight : ℕ
  pub provisional_weight : ℕ
  pub official_weight : ℕ
  pub provisional_subtask_ids : List String
  pub validated_subtask_ids : List String

unfoldable pub progress_actors_are_independent : ActorIdentity → ActorIdentity → Bool
progress_actors_are_independent left right =
    if not (are_independent left right)
    then false
    else not (correlated left.configuration_hash right.configuration_hash)

-- The validator `recompute_completion_proposer_independence`: `none` is the `ValueError`.
unfoldable pub recompute_completion_proposer_independence :
    ProgressValidationEvent → Option ProgressValidationEvent
unfolding progress_actors_are_independent
recompute_completion_proposer_independence event =
    let computed = progress_actors_are_independent event.validator event.completion_proposer in
    if event.independent && not computed || not event.independent && computed
    then none
    else if not computed && is_independent event.relationship_to_completion_proposer
    then none
    else if is_validated event.requested_status
        && (not computed
            || not (is_independent event.relationship_to_run_creator)
            || not (is_independent event.relationship_to_completion_proposer)
            || not (is_passed event.result))
    then none
    else if is_validated event.requested_status && is_empty event.evidence_ids
    then none
    else some event
