-- ===== src/Progress/Topology.antt =====
-- `_topological_subtasks` of domain/progress/calculations.py: the order in which the subtasks of a
-- plan can be done.
use super_scientist_orchestr.Prelude.{
  ℕ, zero, suc, ◌+◌, ◌-◌, ◌^◌, String, Bool, not, ◌&&◌, ◌||◌, Option, none, some, List, [], ◌∷◌,
  ◌++◌, ltb, if◌then◌else◌, ◌==◌, ◌!=◌, nat_eq, string_eq, option_eq, list_eq, length, select,
  contains, subset, unique, lookup, sorted, text_lt,
}
use super_scientist_orchestr.Progress.{ProgressSubtask, ProgressPlan}

-- The exceptions. The last two are a `KeyError` and a loop that goes on: neither comes up.
pub data PlanError : Type 0 where
  duplicate_subtask foreign_subtask duplicate_dependency unknown_dependency weights_not_one
        dependency_cycle foreign_event missing_key out_of_rounds :
      PlanError

pub data Outcome {ℓ} (A : Type ℓ) : Type ℓ where
  returned : A → Outcome A
  raised : PlanError → Outcome A

infixl 5 ◌>>=◌
abbrev pub ◌>>=◌ {ℓ κ} : {A : Type ℓ} {B : Type κ} → Outcome A → (A → Outcome B) → Outcome B
returned a >>= f = f a
raised e >>= f = raised e

abbrev pub ids : List ProgressSubtask → List String
ids [] = []
ids (subtask ∷ subtasks) = subtask.subtask_id ∷ ids subtasks

-- The loop that fills `subtasks_by_id`, whose keys are `seen`.
unfoldable pub index_subtasks : String → List String → List ProgressSubtask → Outcome (Unit {0})
index_subtasks version seen [] = returned tt
index_subtasks version seen (subtask ∷ subtasks) =
    let rest = index_subtasks version (subtask.subtask_id ∷ seen) subtasks in
    if contains seen subtask.subtask_id
    then raised PlanError.duplicate_subtask
    else if subtask.plan_version_id != version
    then raised PlanError.foreign_subtask
    else rest

-- The loop over the dependencies raises on an unknown one.
unfoldable pub check_dependencies : List String → List ProgressSubtask → Outcome (Unit {0})
check_dependencies known [] = returned tt
check_dependencies known (subtask ∷ subtasks) =
    let rest = check_dependencies known subtasks in
    if not (unique subtask.dependency_ids)
    then raised PlanError.duplicate_dependency
    else if not (subset subtask.dependency_ids known)
    then raised PlanError.unknown_dependency
    else rest

-- `indegree[subtask_id]`, which the loop raises by one for each dependency.
unfoldable pub indegree : List ProgressSubtask → String → ℕ
indegree [] id = 0
indegree (subtask ∷ subtasks) id =
    let rest = indegree subtasks id in
    if id == subtask.subtask_id then length subtask.dependency_ids + rest else rest

-- A subtask that has the dependency adds itself, as often as it names it.
unfoldable pub add_dependent : String → String → List String → List String → List String
add_dependent dependency_id id [] rest = rest
add_dependent dependency_id id (d ∷ ds) rest =
    let more = add_dependent dependency_id id ds rest in
    if dependency_id == d then id ∷ more else more

-- `dependents[dependency_id]`
unfoldable pub dependents : List ProgressSubtask → String → List String
unfolding add_dependent
dependents [] dependency_id = []
dependents (subtask ∷ subtasks) dependency_id =
    add_dependent dependency_id subtask.subtask_id subtask.dependency_ids
      (dependents subtasks dependency_id)

abbrev pub sum_decimals : List ProgressSubtask → ℕ
sum_decimals [] = 0
sum_decimals (subtask ∷ subtasks) = subtask.weight + sum_decimals subtasks

-- `Decimal("1")`
abbrev pub one : ℕ
one = 10 ^ 384

abbrev pub by_id : List ProgressSubtask → List (String × ProgressSubtask)
by_id [] = []
by_id (subtask ∷ subtasks) = (subtask.subtask_id, subtask) ∷ by_id subtasks

-- `order_key`; every identifier that is compared is a key.
abbrev pub order_of : Option ProgressSubtask → ℕ
order_of none = 0
order_of (some subtask) = subtask.order

unfoldable pub key_le : List ProgressSubtask → String → String → Bool
key_le subtasks left right =
    let l = order_of (lookup left (by_id subtasks)) in
    let r = order_of (lookup right (by_id subtasks)) in
    ltb l r || l == r && not (text_lt right left)

abbrev pub append_to : String → Option (List String) → Option (List String)
append_to current none = none
append_to current (some ordered) = some (current ∷ ordered)

-- The counters and the queue of the loop.
pub record Queue : Type 0 where
  pub degrees : String → ℕ
  pub ready : List String

module _ (subtasks : List ProgressSubtask) where
  -- One round of the inner loop, for one dependent. Its counter is never 0 before.
  unfoldable pub release_one : String → Queue → Queue
  unfolding key_le
  release_one dependent_id queue =
      let degree = queue.degrees dependent_id - 1 in
      record {
        degrees = λ id. if id == dependent_id then degree else queue.degrees id;
        ready =
            if degree == 0
            then sorted (key_le subtasks) (queue.ready ++ (dependent_id ∷ []))
            else queue.ready;
      }

  unfoldable pub release : List String → Queue → Queue
  unfolding release_one
  release [] queue = queue
  release (dependent_id ∷ dependent_ids) queue =
      release dependent_ids (release_one dependent_id queue)

  -- The outer loop, as the list of the identifiers that it appends. `none` is more rounds than the
  -- bound.
  unfoldable pub drain : ℕ → (String → ℕ) → List String → Option (List String)
  unfolding release dependents
  drain rounds degrees [] = some []
  drain zero degrees (current ∷ ready) = none
  drain (suc rounds) degrees (current ∷ ready) =
      let queue =
        release (sorted (key_le subtasks) (dependents subtasks current))
          (record { degrees = degrees; ready = ready }) in
      append_to current (drain rounds queue.degrees queue.ready)

  unfoldable pub initial_ready : List String
  unfolding indegree
  initial_ready = sorted (key_le subtasks) (select (λ id. indegree subtasks id == 0) (ids subtasks))

  -- `tuple(subtasks_by_id[subtask_id] for subtask_id in ordered_ids)`
  unfoldable pub pick : List String → Outcome (List ProgressSubtask)
  pick [] = returned []
  pick (id ∷ ordered) =
      let rest = pick ordered in
      elim (lookup id (by_id subtasks)) [
        | none ↦ raised PlanError.missing_key
        | some subtask ↦ rest >>= (λ picked. returned (subtask ∷ picked))
      ]

  -- The end of the function, once the loop is done.
  abbrev pub finish : Option (List String) → Outcome (List ProgressSubtask)
  finish none = raised PlanError.out_of_rounds
  finish (some ordered) =
      if length ordered != length (ids subtasks)
      then raised PlanError.dependency_cycle
      else pick ordered

  -- Every identifier is taken from the queue at most once, and so one round for each is enough.
  unfoldable pub schedule : Outcome (List ProgressSubtask)
  unfolding drain initial_ready pick
  schedule = finish (drain (length (ids subtasks)) (indegree subtasks) initial_ready)

-- The checks that come before the loop.
unfoldable pub check_plan : ProgressPlan → Outcome (Unit {0})
unfolding index_subtasks check_dependencies
check_plan plan =
    index_subtasks plan.plan_version_id [] plan.subtasks
    >>= (λ _. check_dependencies (ids plan.subtasks) plan.subtasks)
    >>= (λ _.
        if sum_decimals plan.subtasks != one then raised PlanError.weights_not_one else returned tt)

unfoldable pub topological_subtasks : ProgressPlan → Outcome (List ProgressSubtask)
unfolding check_plan schedule
topological_subtasks plan = check_plan plan >>= (λ _. schedule plan.subtasks)
