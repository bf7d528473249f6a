-- ===== src/Trails/Search.antt =====
-- The invariant of the depth-first search behind `_has_cycle`: what a stack and the marks say.
use super_scientist_orchestr.Prelude.{
  String, ◌≡◌, refl, sym, ap, ◌∙◌, subst, ◌≢◌, ◌⊎◌, inl, inr, true, false, Option, some, List, [],
  ◌∷◌, map, arith, Bool-cases, ◌==◌, ==_iff, ==_refl, nat_eq, string_eq, option_eq, list_eq,
  pair_eq, bool_eq, contains,
}
use super_scientist_orchestr.Trails.{Mark, State, set_mark}
use super_scientist_orchestr.Trails.Reachability.{Walk, Walk-append}

pub mark_cases : (m : Mark) → (m ≡ Mark.unseen) ⊎ (m ≡ Mark.on_stack) ⊎ (m ≡ Mark.finished)
mark_cases Mark.unseen = inl refl
mark_cases Mark.on_stack = inr (inl refl)
mark_cases Mark.finished = inr (inr refl)

pub set_mark-at : (s : State) (k : String) (m : Mark) → set_mark s k m k ≡ m
unfolding set_mark
set_mark-at s k m = rw (==_refl k) refl

pub set_mark-off :
    (s : State) (k : String) (m : Mark) (x : String) → (x == k) ≡ false → set_mark s k m x ≡ s x
unfolding set_mark
set_mark-off s k m x h = rw h refl

-- A node with one mark is not a node with another.
pub set_mark-keeps :
    (s : State) (k : String) (m : Mark) (x : String) → s k ≢ s x → set_mark s k m x ≡ s x
set_mark-keeps s k m x differ = elim (Bool-cases (x == k)) [
  | inl same ↦ absurd (differ (ap s (sym ((==_iff x k).0 same))))
  | inr other ↦ set_mark-off s k m x other
]

abbrev pub nodes_of : List (String × List String) → List String
nodes_of = map (λ frame. frame.0)

module _ (adjacency : String → List String) where
  abbrev pub Edge : String → String → Type 0
  Edge u v = contains (adjacency u) v ≡ true

  -- The frame below leads to a node.
  abbrev pub IsBelow : String → List (String × List String) → Type 0
  IsBelow v [] = true ≡ true
  IsBelow v ((u, us) ∷ stack) = Edge u v

  -- A frame of a node that is on the stack once: of the targets of the node, each is still to come or
  -- finished, or is the node of the frame above.
  pub record IsFrame (s : State) (above : Option String) (v : String) (rest : List String)
      (stack : List (String × List String)) : Type 0 where
    pub marked : s v ≡ Mark.on_stack
    pub once : contains (nodes_of stack) v ≡ false
    pub covered :
        (t : String)
        → Edge v t
        → (contains rest t ≡ true) ⊎ (s t ≡ Mark.finished) ⊎ (above ≡ some t)
    pub drawn : (t : String) → contains rest t ≡ true → Edge v t
    pub entered : IsBelow v stack

  abbrev pub IsStack : State → Option String → List (String × List String) → Type 0
  IsStack s above [] = true ≡ true
  IsStack s above ((v, rest) ∷ stack) = IsFrame s above v rest stack × IsStack s (some v) stack

  pub IsStack-marked :
      (s : State) (above : Option String) (stack : List (String × List String))
      → IsStack s above stack
      → (x : String) → contains (nodes_of stack) x ≡ true
      → s x ≡ Mark.on_stack
  IsStack-marked s above [] frames x m = absurd (ground arith)
  IsStack-marked s above ((v, rest) ∷ stack) (frame, frames) x m = elim (Bool-cases (x == v)) [
    | inl same ↦ ap s ((==_iff x v).0 same) ∙ frame.marked
    | inr other ↦ IsStack-marked s (some v) stack frames x (ground arith)
  ]

  -- New marks outside of the stack that unmark no finished node.
  pub IsStack-map :
      (s s' : State) (above : Option String) (stack : List (String × List String))
      → ((x : String) → s x ≡ Mark.finished → s' x ≡ Mark.finished)
      → ((x : String) → contains (nodes_of stack) x ≡ true → s' x ≡ s x)
      → IsStack s above stack
      → IsStack s' above stack
  IsStack-map s s' above [] ends keeps frames = refl
  IsStack-map s s' above ((v, rest) ∷ stack) ends keeps (frame, frames) = (
    record {
      marked = keeps v (ground (arith, ==_refl v)) ∙ frame.marked;
      once = frame.once;
      covered = λ t e. elim (frame.covered t e) [
        | inl k ↦ inl k
        | inr (inl f) ↦ inr (inl (ends t f))
        | inr (inr up) ↦ inr (inr up)
      ];
      drawn = frame.drawn;
      entered = frame.entered;
    },
    IsStack-map s s' (some v) stack ends (λ x m. keeps x (ground arith)) frames,
  )

  -- Any node on the stack leads to the top one, if it is not that one itself.
  pub IsStack-Walk :
      (s : State) (above : Option String) (v : String) (rest : List String)
      (stack : List (String × List String))
      → IsStack s above ((v, rest) ∷ stack)
      → (x : String) → contains (nodes_of stack) x ≡ true
      → Walk Edge x v
  IsStack-Walk s above v rest [] frames x m = absurd (ground arith)
  IsStack-Walk s above v rest ((u, us) ∷ stack) (frame, frames) x m = elim (Bool-cases (x == u)) [
    | inl same ↦ Walk.last_edge (subst (λ y. Edge y v) (sym ((==_iff x u).0 same)) frame.entered)
    | inr other ↦
        Walk-append (IsStack-Walk s (some v) u us stack frames x (ground arith)) frame.entered
  ]
