-- ===== src/Trails/Ends.antt =====
-- How the depth-first search of `_has_cycle` ends, on the fuel of its work.
use super_scientist_orchestr.Prelude.{
  ℕ, zero, suc, ◌+◌, ◌≤◌, String, ◌≡◌, refl, sym, ap, ◌∙◌, subst, ◌≢◌, ◌⊎◌, inl, inr, true, Option,
  none, some, List, [], ◌∷◌, arith, Bool-cases, ◌==◌, ==_iff, ==_refl, nat_eq, string_eq, option_eq,
  list_eq, pair_eq, bool_eq, contains,
}
use super_scientist_orchestr.Trails.{Mark, State, set_mark, work, Outcome, search}
use super_scientist_orchestr.Trails.Reachability.{Walk}
use super_scientist_orchestr.Trails.Search.{
  mark_cases, set_mark-at, set_mark-off, Edge, IsStack-Walk,
}
use super_scientist_orchestr.Trails.Steps.{IsSearch, finish, pass, push}
use super_scientist_orchestr.Trails.Work.{frames_work, work_le, work_see}

module _ (adjacency : String → List String) (nodes : List String)
    (closed : (v t : String) → Edge adjacency v t → contains nodes t ≡ true) where
  -- The search finds a cycle, or it ends with an empty stack and no node unseen that was seen.
  abbrev pub Ends : State → Option Outcome → Type 0
  Ends s o =
      ((o ≡ some Outcome.cycle) × ((v : String) × Walk (Edge adjacency) v v))
      ⊎ ((s' : State) × (o ≡ some (Outcome.emptied s'))
          × IsSearch adjacency s' []
          × ((x : String) → s' x ≡ Mark.unseen → s x ≡ Mark.unseen))

  pub Ends-before :
      (s s1 : State) (o : Option Outcome)
      → ((x : String) → s1 x ≡ Mark.unseen → s x ≡ Mark.unseen)
      → Ends s1 o
      → Ends s o
  Ends-before s s1 o back (inl found) = inl found
  Ends-before s s1 o back (inr (s', e, inv, seen)) = inr (s', e, inv, λ x h. back x (seen x h))

  pub set_mark-seen :
      (s : State) (k : String) (m : Mark)
      → m ≢ Mark.unseen
      → (x : String) → set_mark s k m x ≡ Mark.unseen
      → s x ≡ Mark.unseen
  set_mark-seen s k m seen x h = elim (Bool-cases (x == k)) [
    | inl same ↦
        absurd
          (seen (sym (set_mark-at s k m) ∙ ap (set_mark s k m) (sym ((==_iff x k).0 same)) ∙ h))
    | inr other ↦ sym (set_mark-off s k m x other) ∙ h
  ]

  found_cycle :
      (s : State) (v t : String) (rest : List String) (stack : List (String × List String))
      → s t ≡ Mark.on_stack
      → IsSearch adjacency s ((v, t ∷ rest) ∷ stack)
      → (u : String) × Walk (Edge adjacency) u u
  found_cycle s v t rest stack h inv =
      let back = inv.frames.0.drawn t (ground (arith, ==_refl t)) in
      let on = inv.stacked t h in
      elim (Bool-cases (t == v)) [
        | inl same ↦
            (v, Walk.last_edge (subst (λ w. Edge adjacency v w) ((==_iff t v).0 same) back))
        | inr other ↦ (
          v,
          Walk.then_walk back
              (IsStack-Walk adjacency s none v (t ∷ rest) stack inv.frames t (ground arith)),
        )
      ]

  pub search-Ends :
      (n : ℕ) (s : State) (stack : List (String × List String))
      → IsSearch adjacency s stack
      → work adjacency s nodes + frames_work stack ≤ n
      → Ends s (search adjacency n s stack)
  unfolding search
  search-Ends n s [] inv fuel = inr (s, refl, inv, λ x h. h)
  search-Ends zero s (frame ∷ stack) inv fuel = absurd (omega (arith, fuel))
  search-Ends (suc n) s ((v, []) ∷ stack) inv fuel =
      let s' = set_mark s v Mark.finished in
      let seen = set_mark-seen s v Mark.finished (λ e. absurd (ground arith)) in
      let w = work_le adjacency s s' seen nodes in
      Ends-before s s' (search adjacency n s' stack) seen
        (search-Ends n s' stack (finish adjacency s v stack inv) (omega arith))
  search-Ends (suc n) s ((v, t ∷ rest) ∷ stack) inv fuel = elim (mark_cases (s t)) [
    | inl h ↦
        let s' = set_mark s t Mark.on_stack in
        let seen = set_mark-seen s t Mark.on_stack (λ e. absurd (ground arith)) in
        let drawn = inv.frames.0.drawn t (ground (arith, ==_refl t)) in
        let w = work_see adjacency s t h nodes (closed v t drawn) in
        rw (search, h)
          (Ends-before s s' (search adjacency n s' ((t, adjacency t) ∷ (v, rest) ∷ stack)) seen (
            search-Ends n s' ((t, adjacency t) ∷ (v, rest) ∷ stack)
              (push adjacency s v t rest stack h inv) (omega arith)))
    | inr (inl h) ↦ rw (search, h) (inl (refl, found_cycle s v t rest stack h inv))
    | inr (inr h) ↦
        rw (search, h)
          (search-Ends n s ((v, rest) ∷ stack) (pass adjacency s v t rest stack h inv)
            (omega arith))
  ]
