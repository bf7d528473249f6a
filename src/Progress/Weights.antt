-- ===== src/Progress/Weights.antt =====
-- The weights that `calculate_progress` reports, and the false finish that rests on them.
use super_scientist_orchestr.Prelude.{
  ℕ, ◌+◌, ◌≤◌, String, ◌≡◌, refl, sym, ap, ◌∙◌, subst, ◌↔◌, Bool, true, false, not, Option, none,
  some, List, [], ◌∷◌, ◌++◌, arith, ltb, nat_eq, string_eq, option_eq, list_eq, is_empty, All,
  lookup, sorted,
}
use super_scientist_orchestr.Improvement.{AssessmentOutcome, is_passed}
use super_scientist_orchestr.Progress.{
  ProgressSubtask, ProgressPlan, ProgressValidationEvent, ProgressSummary,
}
use super_scientist_orchestr.Progress.Topology.{
  returned, ◌>>=◌, by_id, sum_decimals, topological_subtasks,
}
use super_scientist_orchestr.Progress.Schedules.{bind_inv, returned_inj}
use super_scientist_orchestr.Progress.Cycles.{topological_subtasks-IsSchedule}
use super_scientist_orchestr.Progress.Calculation.{
  Latest, event_le, record_events, Tally, no_tally, count_event, count_subtasks, sum,
  calculate_progress,
}
use super_scientist_orchestr.Progress.Finish.{
  FalseFinishResult, FalseFinishFinding, detect_from_derived_weight, detect_false_finish,
}

sum-append : (ws : List ℕ) (w : ℕ) → sum (ws ++ (w ∷ [])) ≡ sum ws + w
sum-append [] w = omega arith
sum-append (v ∷ ws) w = omega (arith, sum-append ws w)

abbrev weights : Tally → ℕ
weights tally = sum tally.provisional_weights + sum tally.official_weights

weights-count_event :
    (s : ProgressSubtask) (tally : Tally) (event : Option ProgressValidationEvent)
    → weights (count_event s tally event) ≤ weights tally + s.weight
unfolding count_event
weights-count_event s tally none = omega arith
weights-count_event s tally (some event) = ground (
  arith,
  sum-append tally.provisional_weights s.weight,
  sum-append tally.official_weights s.weight,
)

module _ (latest : Latest) where
  weights-count_subtasks :
      (subtasks : List ProgressSubtask) (tally : Tally)
      → weights (count_subtasks latest tally subtasks) ≤ weights tally + sum_decimals subtasks
  unfolding count_subtasks
  weights-count_subtasks [] tally = omega arith
  weights-count_subtasks (s ∷ ss) tally = omega (
    arith,
    weights-count_event s tally (lookup s.subtask_id latest),
    weights-count_subtasks ss (count_event s tally (lookup s.subtask_id latest)),
  )

-- What is provisionally and what is officially done never add up to more than the whole plan.
pub calculate_progress-weights :
    (plan : ProgressPlan) (events : List ProgressValidationEvent) (summary : ProgressSummary)
    → calculate_progress plan events ≡ returned summary
    → summary.provisional_weight + summary.official_weight ≤ summary.total_weight
unfolding calculate_progress
calculate_progress-weights plan events summary h =
    let (ordered, scheduled, rest) = bind_inv (topological_subtasks plan) _ h in
    let (latest, recorded, made) =
      bind_inv (record_events plan [] (sorted event_le events)) _ rest in
    subst (λ (r : ProgressSummary). r.provisional_weight + r.official_weight ≤ r.total_weight)
      (returned_inj made) (omega (arith, weights-count_subtasks latest ordered no_tally))

-- Names and weights of the officially done subtasks are there together.
IsMatched : Tally → Type 0
IsMatched tally = is_empty tally.official_ids ≡ not (ltb 0 (sum tally.official_weights))

is_empty-append : {A : Type 0} (xs : List A) (x : A) → is_empty (xs ++ (x ∷ [])) ≡ false
is_empty-append [] x = refl
is_empty-append (y ∷ ys) x = refl

IsMatched-count_event :
    (s : ProgressSubtask) (tally : Tally) (event : Option ProgressValidationEvent)
    → 1 ≤ s.weight
    → IsMatched tally
    → IsMatched (count_event s tally event)
unfolding count_event IsMatched
IsMatched-count_event s tally none positive h = h
IsMatched-count_event s tally (some event) positive h = ground (
  arith,
  sum-append tally.official_weights s.weight,
  is_empty-append tally.official_ids s.subtask_id,
)

IsMatched-count_subtasks :
    (latest : Latest) (subtasks : List ProgressSubtask) (tally : Tally)
    → All (λ s. 1 ≤ s.weight) subtasks
    → IsMatched tally
    → IsMatched (count_subtasks latest tally subtasks)
unfolding count_subtasks
IsMatched-count_subtasks latest [] tally positive h = h
IsMatched-count_subtasks latest (s ∷ ss) tally positive h =
    IsMatched-count_subtasks latest ss (count_event s tally (lookup s.subtask_id latest)) positive.1
      (IsMatched-count_event s tally (lookup s.subtask_id latest) positive.0 h)

positive-lookup :
    (plan : List ProgressSubtask) (id : String) {s : ProgressSubtask}
    → All (λ s. 1 ≤ s.weight) plan
    → lookup id (by_id plan) ≡ some s
    → 1 ≤ s.weight
positive-lookup [] id h found = cc
positive-lookup (t ∷ ts) id {s} h found = ground (arith, h.0, positive-lookup ts id {s = s} h.1)

positive-own :
    (plan ss : List ProgressSubtask)
    → All (λ s. 1 ≤ s.weight) plan
    → All (λ s. lookup s.subtask_id (by_id plan) ≡ some s) ss
    → All (λ s. 1 ≤ s.weight) ss
positive-own plan [] h own = tt
positive-own plan (s ∷ ss) h own =
    (positive-lookup plan s.subtask_id h own.0, positive-own plan ss h own.1)

-- The official weight is positive exactly if a subtask counts as officially done.
official_weight_pos :
    (plan : ProgressPlan) (events : List ProgressValidationEvent) (summary : ProgressSummary)
    → All (λ s. 1 ≤ s.weight) plan.subtasks
    → calculate_progress plan events ≡ returned summary
    → ltb 0 summary.official_weight ≡ not (is_empty summary.validated_subtask_ids)
unfolding calculate_progress IsMatched
official_weight_pos plan events summary positive h =
    let (ordered, scheduled, rest) = bind_inv (topological_subtasks plan) _ h in
    let (latest, recorded, made) =
      bind_inv (record_events plan [] (sorted event_le events)) _ rest in
    let own = (topological_subtasks-IsSchedule plan ordered scheduled).own in
    let matched =
      IsMatched-count_subtasks latest ordered no_tally
        (positive-own plan.subtasks ordered positive own) refl in
    subst
      (λ (r : ProgressSummary). ltb 0 r.official_weight ≡ not (is_empty r.validated_subtask_ids))
      (returned_inj made) (ground (arith, matched))

detected_iff :
    (voluntary claims : Bool) (final : AssessmentOutcome) (weight : ℕ) (unused empty : Bool)
    → ltb 0 weight ≡ not empty
    → ((detect_from_derived_weight voluntary claims final weight unused).result
        ≡ FalseFinishResult.false_finish)
      ↔ ((voluntary ≡ true)
          × (claims ≡ true)
          × (is_passed final ≡ false)
          × (empty ≡ false)
          × (unused ≡ true))
unfolding detect_from_derived_weight
detected_iff voluntary claims final weight unused empty h = ground arith

-- A false finish is found exactly when a run that ended on its own claims completion and has budget
-- left, its final validator did not pass, and some subtask counts as officially done; the weights
-- of the plan are positive.
pub detect_false_finish_iff :
    (voluntary claims : Bool) (final : AssessmentOutcome) (plan : ProgressPlan)
    (events : List ProgressValidationEvent) (unused : Bool) (summary : ProgressSummary)
    (finding : FalseFinishFinding)
    → All (λ s. 1 ≤ s.weight) plan.subtasks
    → calculate_progress plan events ≡ returned summary
    → detect_false_finish voluntary claims final plan events unused ≡ returned finding
    → (finding.result ≡ FalseFinishResult.false_finish) ↔ (
        (voluntary ≡ true)
        × (claims ≡ true)
        × (is_passed final ≡ false)
        × (is_empty summary.validated_subtask_ids ≡ false)
        × (unused ≡ true))
unfolding detect_false_finish
detect_false_finish_iff voluntary claims final plan events unused summary finding positive h found =
    subst
      (λ (f : FalseFinishFinding). (f.result ≡ FalseFinishResult.false_finish) ↔ (
        (voluntary ≡ true)
        × (claims ≡ true)
        × (is_passed final ≡ false)
        × (is_empty summary.validated_subtask_ids ≡ false)
        × (unused ≡ true)))
      (returned_inj (
        sym (
          ap
            (λ o. o >>= (λ r.
              returned
                (detect_from_derived_weight voluntary claims final r.official_weight unused)))
            h)
        ∙ found))
      (detected_iff voluntary claims final summary.official_weight unused
        (is_empty summary.validated_subtask_ids)
        (official_weight_pos plan events summary positive h))
