-- ===== src/Progress/Finish.antt =====
-- `detect_false_finish` and the head of progress, of domain/progress/calculations.py.
use super_scientist_orchestr.Prelude.{
  ℕ, String, Bool, true, false, not, ◌&&◌, ◌||◌, Option, none, some, List, [], ◌∷◌, ltb,
  if◌then◌else◌, ◌==◌, ◌!=◌, nat_eq, string_eq, option_eq, list_eq, select, text_lt,
}
use super_scientist_orchestr.Improvement.{AssessmentOutcome, is_passed}
use super_scientist_orchestr.Progress.{ProgressPlan, ProgressValidationEvent}
use super_scientist_orchestr.Progress.Topology.{Outcome, returned, ◌>>=◌}
use super_scientist_orchestr.Progress.Calculation.{calculate_progress}

pub data FalseFinishResult : Type 0 where
  false_finish not_false_finish : FalseFinishResult

pub record FalseFinishFinding : Type 0 where
  pub result : FalseFinishResult
  pub voluntary_termination : Bool
  pub claims_completion : Bool
  pub final_validator_failed : Bool
  pub meaningful_validated_progress : Bool
  pub unused_budget : Bool
  pub reasons : List String

unfoldable pub detect_from_derived_weight :
    Bool → Bool → AssessmentOutcome → ℕ → Bool → FalseFinishFinding
detect_from_derived_weight voluntary claims final weight unused =
    if voluntary && claims && not (is_passed final) && ltb 0 weight && unused
    then record {
      result = FalseFinishResult.false_finish;
      voluntary_termination = voluntary;
      claims_completion = claims;
      final_validator_failed = true;
      meaningful_validated_progress = true;
      unused_budget = unused;
      reasons =
          "voluntary completion followed meaningful validated progress but failed final validation while budget remained"
          ∷ [];
    }
    else record {
      result = FalseFinishResult.not_false_finish;
      voluntary_termination = voluntary;
      claims_completion = claims;
      final_validator_failed = not (is_passed final);
      meaningful_validated_progress = ltb 0 weight;
      unused_budget = unused;
      reasons = [];
    }

-- On inputs that pass `_strict_progress_inputs`, which validates them a second time.
unfoldable pub detect_false_finish :
    Bool
    → Bool
    → AssessmentOutcome
    → ProgressPlan
    → List ProgressValidationEvent
    → Bool
    → Outcome FalseFinishFinding
unfolding detect_from_derived_weight
detect_false_finish voluntary claims final plan events unused =
    calculate_progress plan events >>= (λ summary.
      returned (detect_from_derived_weight voluntary claims final summary.official_weight unused))

-- `(plan.version, plan.plan_version_id)` is greater on the right.
unfoldable pub plan_lt : ProgressPlan → ProgressPlan → Bool
plan_lt left right =
    ltb left.version right.version
    || left.version == right.version && text_lt left.plan_version_id right.plan_version_id

-- `max`, which keeps the first of several greatest.
unfoldable pub greatest : ProgressPlan → List ProgressPlan → ProgressPlan
unfolding plan_lt
greatest best [] = best
greatest best (plan ∷ plans) = greatest (if plan_lt best plan then plan else best) plans

abbrev pub greatest_of : List ProgressPlan → Option ProgressPlan
greatest_of [] = none
greatest_of (plan ∷ plans) = some (greatest plan plans)

unfoldable pub current_progress_plan : List ProgressPlan → String → Option ProgressPlan
unfolding greatest
current_progress_plan plans run_id = greatest_of (select (λ plan. plan.run_id == run_id) plans)

-- The comparison with the head, once the event belongs to the highest plan.
abbrev pub advances_over : ProgressValidationEvent → Option ProgressValidationEvent → Bool
advances_over event none = true
advances_over event (some head) =
    if head.run_id != event.run_id
    then false
    else if head.plan_version_id != event.plan_version_id
    then true
    else ltb head.occurred_at event.occurred_at
      || head.occurred_at == event.occurred_at && text_lt head.event_id event.event_id

abbrev pub advances_in :
    Option ProgressPlan → ProgressValidationEvent → Option ProgressValidationEvent → Bool
advances_in none event head = false
advances_in (some highest) event head =
    if event.plan_version_id != highest.plan_version_id then false else advances_over event head

unfoldable pub event_advances_progress_head :
    ProgressValidationEvent → List ProgressPlan → Option ProgressValidationEvent → Bool
unfolding current_progress_plan
event_advances_progress_head event plans head =
    advances_in (current_progress_plan plans event.run_id) event head
