-- ===== src/Progress/Release.antt =====
-- What one round of the loop of `_topological_subtasks` does to the counters and to the queue.
use super_scientist_orchestr.Prelude.{
  ℕ, ◌+◌, ◌-◌, ◌≤◌, String, ◌≡◌, refl, ap, inl, inr, false, ◌&&◌, List, [], ◌∷◌, ◌++◌, arith,
  if◌then◌else◌, Bool-cases, ◌==◌, ==_iff, nat_eq, string_eq, option_eq, list_eq, contains,
}
use super_scientist_orchestr.Progress.{ProgressSubtask}
use super_scientist_orchestr.Progress.Topology.{
  indegree, add_dependent, dependents, Queue, release_one, release, key_le,
}
use super_scientist_orchestr.Progress.Counting.{
  count, missing, count-append, count-sorted, missing-nil, missing-cons,
}

-- How many dependencies of the subtasks of that name are not done.
abbrev pub remaining : List ProgressSubtask → List String → String → ℕ
remaining [] done id = 0
remaining (subtask ∷ subtasks) done id =
    let rest = remaining subtasks done id in
    if id == subtask.subtask_id then missing done subtask.dependency_ids + rest else rest

pub indegree-remaining :
    (subtasks : List ProgressSubtask) (id : String)
    → indegree subtasks id ≡ remaining subtasks [] id
unfolding indegree
indegree-remaining [] id = refl
indegree-remaining (subtask ∷ subtasks) id =
    ground (arith, indegree-remaining subtasks id, missing-nil subtask.dependency_ids)

count-add_dependent :
    (dependency_id id : String) (ds rest : List String) (i : String)
    → count (add_dependent dependency_id id ds rest) i
      ≡ (if i == id then count ds dependency_id else 0) + count rest i
unfolding add_dependent
count-add_dependent dependency_id id [] rest i = ground arith
count-add_dependent dependency_id id (d ∷ ds) rest i =
    ground (arith, count-add_dependent dependency_id id ds rest i)

-- Once a subtask is done, each other one lacks fewer dependencies by the number of times that it
-- stands among the dependents.
pub remaining-dependents :
    (subtasks : List ProgressSubtask) (done : List String) (current i : String)
    → contains done current ≡ false
    → remaining subtasks (current ∷ done) i + count (dependents subtasks current) i
      ≡ remaining subtasks done i
unfolding dependents
remaining-dependents [] done current i h = refl
remaining-dependents (subtask ∷ subtasks) done current i h = ground (
  arith,
  remaining-dependents subtasks done current i h,
  missing-cons done subtask.dependency_ids current h,
  count-add_dependent current subtask.subtask_id subtask.dependency_ids
      (dependents subtasks current) i,
)

module _ (subtasks : List ProgressSubtask) where
  degrees-release_one :
      (d : String) (queue : Queue) (i : String)
      → (release_one subtasks d queue).degrees i
        ≡ (if i == d then queue.degrees i - 1 else queue.degrees i)
  unfolding release_one
  degrees-release_one d queue i = elim (Bool-cases (i == d)) [
    | inl same ↦ ground (arith, ap queue.degrees ((==_iff i d).0 same))
    | inr other ↦ ground arith
  ]

  ready-release_one :
      (d : String) (queue : Queue) (i : String)
      → count (release_one subtasks d queue).ready i
        ≡ count queue.ready i + (if i == d && queue.degrees d - 1 == 0 then 1 else 0)
  unfolding release_one
  ready-release_one d queue i = ground (
    arith,
    count-sorted (key_le subtasks) (queue.ready ++ (d ∷ [])) i,
    count-append queue.ready (d ∷ []) i,
  )

  -- What a round of the inner loop leaves of a counter, and what it adds to the queue.
  pub record IsReleased (ds : List String) (queue : Queue) (i : String) : Type 0 where
    pub degrees : (release subtasks ds queue).degrees i + count ds i ≡ queue.degrees i
    pub ready :
        count (release subtasks ds queue).ready i
        ≡ count queue.ready i
          + (if count ds i == 0
              then 0
              else if (release subtasks ds queue).degrees i == 0
              then 1
              else 0)

  fewer :
      (d : String) (ds : List String) (queue : Queue)
      → ((j : String) → count (d ∷ ds) j ≤ queue.degrees j)
      → (j : String) → count ds j ≤ (release_one subtasks d queue).degrees j
  fewer d ds queue h j = ground (arith, h j, degrees-release_one d queue j)

  IsReleased-step :
      (d : String) (ds : List String) (queue : Queue) (i : String)
      → count (d ∷ ds) i ≤ queue.degrees i
      → IsReleased ds (release_one subtasks d queue) i
      → IsReleased (d ∷ ds) queue i
  unfolding release
  IsReleased-step d ds queue i h rest = record {
    degrees = ground (arith, rest.degrees, degrees-release_one d queue i, h);
    ready = elim (Bool-cases (i == d)) [
      | inl same ↦ ground (
        arith,
        rest.degrees,
        rest.ready,
        degrees-release_one d queue i,
        ready-release_one d queue i,
        h,
        ap queue.degrees ((==_iff i d).0 same),
      )
      | inr other ↦ ground (
        arith,
        rest.degrees,
        rest.ready,
        degrees-release_one d queue i,
        ready-release_one d queue i,
      )
    ];
  }

  pub release-IsReleased :
      (ds : List String) (queue : Queue)
      → ((j : String) → count ds j ≤ queue.degrees j)
      → (i : String) → IsReleased ds queue i
  unfolding release
  release-IsReleased [] queue h i = record { degrees = omega arith; ready = ground arith }
  release-IsReleased (d ∷ ds) queue h i =
      IsReleased-step d ds queue i (h i)
        (release-IsReleased ds (release_one subtasks d queue) (fewer d ds queue h) i)
