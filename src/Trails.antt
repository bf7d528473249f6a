-- ===== src/Trails.antt =====
-- The orders of evidence trails: `_has_cycle` of domain/evidence_trails/validation.py.
pub mod Reachability
pub mod Search
pub mod Heights
pub mod Work
pub mod Steps
pub mod Ends
pub mod Visits
pub mod Cycles
use super_scientist_orchestr.Prelude.{
  ℕ, zero, suc, ◌+◌, String, Bool, true, false, ◌&&◌, Option, none, some, List, [], ◌∷◌, map,
  if◌then◌else◌, ◌==◌, string_eq, length, select, contains, sorted_texts, distinct,
}

-- The values 0, 1 and 2 of `state`.
pub data Mark : Type 0 where
  unseen on_stack finished : Mark

-- `state`, whose keys are the nodes.
abbrev pub State : Type 0
State = String → Mark

unfoldable pub set_mark : State → String → Mark → State
set_mark state node mark = λ x. if x == node then mark else state x

-- How the search from a root ends: on a node of the stack, or with an empty stack.
pub data Outcome : Type 0 where
  cycle : Outcome
  emptied : State → Outcome

-- `sorted(adjacency[node])`, where both ends of the edges of `adjacency` are nodes.
unfoldable pub targets : List String → List (String × String) → String → List String
targets nodes edges node = sorted_texts (
    distinct (
      map (λ e. e.1)
        (select (λ e. e.0 == node && (contains nodes e.0 && contains nodes e.1)) edges)))

-- The steps that the nodes that are still unseen take: one for each of their targets, and one more.
abbrev pub work : (String → List String) → State → List String → ℕ
work adjacency state [] = 0
work adjacency state (node ∷ nodes) =
    elim (state node) [
      | Mark.unseen ↦ suc (length (adjacency node))
      | Mark.on_stack ↦ 0
      | Mark.finished ↦ 0
    ]
    + work adjacency state nodes

module _ (adjacency : String → List String) where
  -- The loop `while stack`, on fuel; an iterator is the list of what it still yields.
  unfoldable pub search : ℕ → State → List (String × List String) → Option Outcome
  search n state [] = some (Outcome.emptied state)
  search zero state (frame ∷ stack) = none
  search (suc n) state ((node, []) ∷ stack) = search n (set_mark state node Mark.finished) stack
  search (suc n) state ((node, target ∷ rest) ∷ stack) = elim (state target) [
    | Mark.unseen ↦
        search n (set_mark state target Mark.on_stack)
          ((target, adjacency target) ∷ (node, rest) ∷ stack)
    | Mark.on_stack ↦ some Outcome.cycle
    | Mark.finished ↦ search n state ((node, rest) ∷ stack)
  ]

  -- One root, which is skipped unless it is unseen.
  unfoldable pub visit : List String → State → String → Option Outcome
  visit nodes state root = elim (state root) [
    | Mark.unseen ↦
        search (work adjacency state nodes) (set_mark state root Mark.on_stack)
          ((root, adjacency root) ∷ [])
    | Mark.on_stack ↦ some (Outcome.emptied state)
    | Mark.finished ↦ some (Outcome.emptied state)
  ]

  -- The loop over the roots: `none` if the fuel of a search does not suffice.
  unfoldable pub visit_all : List String → State → List String → Option Bool
  visit_all nodes state [] = some false
  visit_all nodes state (root ∷ roots) = elim (visit nodes state root) [
    | none ↦ none
    | some Outcome.cycle ↦ some true
    | some (Outcome.emptied next) ↦ visit_all nodes next roots
  ]

unfoldable pub has_cycle : List String → List (String × String) → Option Bool
has_cycle nodes edges =
    visit_all (targets nodes edges) nodes (λ node. Mark.unseen) (sorted_texts nodes)
