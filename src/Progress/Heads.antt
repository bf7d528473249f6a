-- ===== src/Progress/Heads.antt =====
-- The head of progress only moves on.
use super_scientist_orchestr.Prelude.{
  text_lt_asym, ◌≡◌, refl, ap, ◌∙◌, inl, inr, true, false, Option, none, some, List, arith,
  Bool-cases, Option-cases, ◌==◌, ==_iff, ==_comm, nat_eq, string_eq, option_eq, list_eq,
}
use super_scientist_orchestr.Progress.{ProgressPlan, ProgressValidationEvent}
use super_scientist_orchestr.Progress.Finish.{
  current_progress_plan, advances_in, event_advances_progress_head,
}

-- On one plan, of two events of one run and plan at most one advances over the other.
advances_asym :
    (highest : Option ProgressPlan) (a b : ProgressValidationEvent)
    → advances_in highest a (some b) ≡ true
    → advances_in highest b (some a) ≡ false
advances_asym none a b h = refl
advances_asym (some p) a b h = ground (
  arith,
  ==_iff a.plan_version_id p.plan_version_id,
  ==_iff b.plan_version_id p.plan_version_id,
  ==_iff b.plan_version_id a.plan_version_id,
  ==_comm a.run_id b.run_id,
  text_lt_asym b.event_id a.event_id,
  text_lt_asym a.event_id b.event_id,
)

-- The head of progress only moves on: of two events, at most one advances over the other as the
-- head.
pub event_advances_progress_head_asym :
    (a b : ProgressValidationEvent) (plans : List ProgressPlan)
    → event_advances_progress_head a plans (some b) ≡ true
    → event_advances_progress_head b plans (some a) ≡ false
unfolding event_advances_progress_head
event_advances_progress_head_asym a b plans h = elim (Bool-cases (b.run_id == a.run_id)) [
  | inl same ↦
      ap (λ r. advances_in (current_progress_plan plans r) b (some a))
        ((==_iff b.run_id a.run_id).0 same)
      ∙ advances_asym (current_progress_plan plans a.run_id) a b h
  | inr other ↦ absurd (elim (Option-cases (current_progress_plan plans a.run_id)) [
    | inl absent ↦ ground arith
    | inr (p, found) ↦ ground arith
  ])
]
