-- ===== src/Trails/Visits.antt =====
-- What the loop over the roots of `_has_cycle` has seen.
use super_scientist_orchestr.Prelude.{
  String, ◌≡◌, refl, sym, ap, ◌∙◌, ◌≢◌, ◌⊎◌, inl, inr, Bool, true, false, Option, some, List, [],
  ◌∷◌, arith, Bool-cases, ◌==◌, ==_iff, ==_refl, nat_eq, string_eq, option_eq, list_eq, pair_eq,
  bool_eq, contains,
}
use super_scientist_orchestr.Trails.{Mark, State, set_mark, work, Outcome, search, visit, visit_all}
use super_scientist_orchestr.Trails.Reachability.{Walk, Walk-descends}
use super_scientist_orchestr.Trails.Search.{mark_cases, set_mark-at, set_mark-off, Edge}
use super_scientist_orchestr.Trails.Heights.{IsRanked-map}
use super_scientist_orchestr.Trails.Work.{work_see}
use super_scientist_orchestr.Trails.Steps.{IsSearch}
use super_scientist_orchestr.Trails.Ends.{Ends, set_mark-seen, search-Ends}

module _ (adjacency : String → List String) (nodes : List String)
    (closed : (v t : String) → Edge adjacency v t → contains nodes t ≡ true) where
  abbrev pub IsSeen : State → String → Type 0
  IsSeen s x = s x ≢ Mark.unseen

  start :
      (s : State) (root : String)
      → s root ≡ Mark.unseen
      → IsSearch adjacency s []
      → IsSearch adjacency (set_mark s root Mark.on_stack) ((root, adjacency root) ∷ [])
  start s root h inv = record {
    frames = (
      record {
        marked = set_mark-at s root Mark.on_stack;
        once = refl;
        covered = λ t e. inl e;
        drawn = λ t m. m;
        entered = refl;
      },
      refl,
    );
    stacked = λ x m. elim (Bool-cases (x == root)) [
      | inl same ↦ ground arith
      | inr other ↦ absurd (
          let k = inv.stacked x (sym (set_mark-off s root Mark.on_stack x other) ∙ m) in
          ground arith)
    ];
    ranked =
        IsRanked-map adjacency s (set_mark s root Mark.on_stack)
          (λ x f. elim (Bool-cases (x == root)) [
            | inl same ↦ absurd (let e = ap s ((==_iff x root).0 same) ∙ h in ground (arith, e, f))
            | inr other ↦ set_mark-off s root Mark.on_stack x other ∙ f
          ])
          (λ x f. elim (Bool-cases (x == root)) [
            | inl same ↦ absurd (
                let e =
                  ap (set_mark s root Mark.on_stack) ((==_iff x root).0 same)
                  ∙ set_mark-at s root Mark.on_stack in
                ground (arith, e, f))
            | inr other ↦ sym (set_mark-off s root Mark.on_stack x other) ∙ f
          ])
          inv.ranked;
  }

  -- A root leads to a cycle, or it is seen and the stack is empty again.
  abbrev pub Visited : State → String → Option Outcome → Type 0
  Visited s root o =
      ((o ≡ some Outcome.cycle) × ((v : String) × Walk (Edge adjacency) v v))
      ⊎ ((s' : State) × (o ≡ some (Outcome.emptied s'))
          × IsSearch adjacency s' []
          × ((x : String) → s' x ≡ Mark.unseen → s x ≡ Mark.unseen)
          × IsSeen s' root)

  visited :
      (s : State) (root : String) (o : Option Outcome)
      → Ends adjacency nodes closed (set_mark s root Mark.on_stack) o
      → Visited s root o
  visited s root o (inl found) = inl found
  visited s root o (inr (s', e, inv, seen)) = inr (
    s',
    e,
    inv,
    λ x h.
        set_mark-seen adjacency nodes closed s root Mark.on_stack (λ e. absurd (ground arith)) x
          (seen x h),
    λ h. absurd (let k = seen root h in let l = set_mark-at s root Mark.on_stack in ground arith),
  )

  skipped :
      (s : State) (root : String)
      → IsSearch adjacency s []
      → IsSeen s root
      → Visited s root (some (Outcome.emptied s))
  skipped s root inv seen = inr (s, refl, inv, λ x h. h, seen)

  visit-Visited :
      (s : State) (root : String)
      → contains nodes root ≡ true
      → IsSearch adjacency s []
      → Visited s root (visit adjacency nodes s root)
  unfolding visit
  visit-Visited s root m inv = elim (mark_cases (s root)) [
    | inl h ↦
        let w = work_see adjacency s root h nodes m in
        rw (visit, h)
          (visited s root
            (search adjacency (work adjacency s nodes) (set_mark s root Mark.on_stack)
              ((root, adjacency root) ∷ []))
            (search-Ends adjacency nodes closed (work adjacency s nodes)
              (set_mark s root Mark.on_stack) ((root, adjacency root) ∷ []) (start s root h inv)
              (omega arith)))
    | inr (inl h) ↦ rw (visit, h) (skipped s root inv (λ k. absurd (ground arith)))
    | inr (inr h) ↦ rw (visit, h) (skipped s root inv (λ k. absurd (ground arith)))
  ]

  -- The search finds a cycle, or it has seen all roots.
  abbrev pub Decided : State → List String → Option Bool → Type 0
  Decided s roots o =
      ((o ≡ some true) × ((v : String) × Walk (Edge adjacency) v v))
      ⊎ ((s' : State) × (o ≡ some false)
          × IsSearch adjacency s' []
          × ((x : String) → s' x ≡ Mark.unseen → s x ≡ Mark.unseen)
          × ((x : String) → contains roots x ≡ true → IsSeen s' x))

  Decided-before :
      (s s1 : State) (root : String) (roots : List String) (o : Option Bool)
      → ((x : String) → s1 x ≡ Mark.unseen → s x ≡ Mark.unseen)
      → IsSeen s1 root
      → Decided s1 roots o
      → Decided s (root ∷ roots) o
  Decided-before s s1 root roots o back seen (inl found) = inl found
  Decided-before s s1 root roots o back seen (inr (s', e, inv, back', all_seen)) = inr (
    s',
    e,
    inv,
    λ x h. back x (back' x h),
    λ x m h. elim (Bool-cases (x == root)) [
      | inl same ↦ seen (back' root (ap s' (sym ((==_iff x root).0 same)) ∙ h))
      | inr other ↦ all_seen x (ground arith) h
    ],
  )

  pub visit_all-Decided :
      (s : State) (roots : List String)
      → ((x : String) → contains roots x ≡ true → contains nodes x ≡ true)
      → IsSearch adjacency s []
      → Decided s roots (visit_all adjacency nodes s roots)
  unfolding visit_all
  visit_all-Decided s [] among inv = inr (s, refl, inv, λ x h. h, λ x m. absurd (ground arith))
  visit_all-Decided s (root ∷ roots) among inv =
      elim (visit-Visited s root (among root (ground (arith, ==_refl root))) inv) [
        | inl (e, walk) ↦ rw (visit_all, e) (inl (refl, walk))
        | inr (s1, e, inv', back, seen) ↦
            rw (visit_all, e)
              (Decided-before s s1 root roots (visit_all adjacency nodes s1 roots) back seen
                (visit_all-Decided s1 roots (λ x m. among x (ground arith)) inv'))
      ]

  -- Where all nodes are seen and the stack is empty, every edge of a node descends.
  pub no-Walk :
      (s : State)
      → IsSearch adjacency s []
      → ((x : String) → contains nodes x ≡ true → IsSeen s x)
      → ((u t : String) → Edge adjacency u t → contains nodes u ≡ true)
      → (v : String) → ¬ (Walk (Edge adjacency) v v)
  no-Walk s inv seen from v walk =
      let down =
        Walk-descends inv.ranked.height
          (λ u t e.
            (inv.ranked.descends u t
              (elim (mark_cases (s u)) [
                | inl h ↦ absurd (seen u (from u t e) h)
                | inr (inl h) ↦ absurd (let k = inv.stacked u h in ground arith)
                | inr (inr h) ↦ h
              ])
              e).1)
          walk in
      absurd (omega arith)
