-- ===== src/Trails/Steps.antt =====
-- The steps of the depth-first search behind `_has_cycle`, and its invariant.
use super_scientist_orchestr.Prelude.{
  String, ◌≡◌, refl, sym, ap, ◌∙◌, subst, inl, inr, true, none, some, List, [], ◌∷◌, arith,
  Bool-cases, ◌==◌, ==_iff, ==_refl, nat_eq, string_eq, option_eq, list_eq, pair_eq, bool_eq,
  contains, some_inj,
}
use super_scientist_orchestr.Trails.{Mark, State, set_mark}
use super_scientist_orchestr.Trails.Search.{
  set_mark-at, set_mark-off, set_mark-keeps, nodes_of, IsStack, IsStack-marked, IsStack-map,
}
use super_scientist_orchestr.Trails.Heights.{IsRanked, IsRanked-map, IsRanked-finish}

module _ (adjacency : String → List String) where
  pub record IsSearch (s : State) (stack : List (String × List String)) : Type 0 where
    pub frames : IsStack adjacency s none stack
    pub stacked : (x : String) → s x ≡ Mark.on_stack → contains (nodes_of stack) x ≡ true
    pub ranked : IsRanked adjacency s

  -- The frame under a finished one counts the finished node as finished.
  uncovered :
      (s : State) (v : String) (stack : List (String × List String))
      → s v ≡ Mark.finished
      → IsStack adjacency s (some v) stack
      → IsStack adjacency s none stack
  uncovered s v [] f frames = refl
  uncovered s v ((u, us) ∷ stack) f (frame, frames) = (
    record {
      marked = frame.marked;
      once = frame.once;
      covered = λ t e. elim (frame.covered t e) [
        | inl k ↦ inl k
        | inr (inl g) ↦ inr (inl g)
        | inr (inr up) ↦ inr (inl (subst (λ w. s w ≡ Mark.finished) (some_inj up) f))
      ];
      drawn = frame.drawn;
      entered = frame.entered;
    },
    frames,
  )

  pub finish :
      (s : State) (v : String) (stack : List (String × List String))
      → IsSearch s ((v, []) ∷ stack)
      → IsSearch (set_mark s v Mark.finished) stack
  finish s v stack inv =
      let s' = set_mark s v Mark.finished in
      let (frame, frames) = inv.frames in
      let off = λ (x : String) (m : contains (nodes_of stack) x ≡ true).
        set_mark-off s v Mark.finished x (elim (Bool-cases (x == v)) [
          | inl same ↦
              let k = subst (λ w. contains (nodes_of stack) w ≡ true) ((==_iff x v).0 same) m in
              let once = frame.once in absurd (ground arith)
          | inr other ↦ other
        ]) in
      let ends = λ (x : String) (f : s x ≡ Mark.finished).
        set_mark-keeps s v Mark.finished x (λ e. absurd (ground (arith, frame.marked, f, e))) ∙ f in
      record {
        frames =
            uncovered s' v stack (set_mark-at s v Mark.finished)
              (IsStack-map adjacency s s' (some v) stack ends off frames);
        stacked = λ x m. elim (Bool-cases (x == v)) [
          | inl same ↦
              let f = ap s' ((==_iff x v).0 same) ∙ set_mark-at s v Mark.finished in
              absurd (ground (arith, m, f))
          | inr other ↦
              let k = inv.stacked x (sym (set_mark-off s v Mark.finished x other) ∙ m) in
              ground arith
        ];
        ranked =
            IsRanked-finish adjacency s v (λ f. absurd (ground (arith, frame.marked, f)))
              (λ t e. elim (frame.covered t e) [
                | inl k ↦ absurd (ground arith)
                | inr (inl f) ↦ f
                | inr (inr up) ↦ absurd (ground arith)
              ])
              inv.ranked;
      }

  -- A target that is finished is passed over.
  pub pass :
      (s : State) (v t : String) (rest : List String) (stack : List (String × List String))
      → s t ≡ Mark.finished
      → IsSearch s ((v, t ∷ rest) ∷ stack)
      → IsSearch s ((v, rest) ∷ stack)
  pass s v t rest stack f inv =
      let (frame, frames) = inv.frames in
      record {
        frames = (
          record {
            marked = frame.marked;
            once = frame.once;
            covered = λ x e. elim (frame.covered x e) [
              | inl k ↦ elim (Bool-cases (x == t)) [
                | inl same ↦ inr (inl (ap s ((==_iff x t).0 same) ∙ f))
                | inr other ↦ inl (ground arith)
              ]
              | inr g ↦ inr g
            ];
            drawn = λ x m. frame.drawn x (ground arith);
            entered = frame.entered;
          },
          frames,
        );
        stacked = inv.stacked;
        ranked = inv.ranked;
      }

  -- A target that is unseen comes on top of the stack.
  pub push :
      (s : State) (v t : String) (rest : List String) (stack : List (String × List String))
      → s t ≡ Mark.unseen
      → IsSearch s ((v, t ∷ rest) ∷ stack)
      → IsSearch (set_mark s t Mark.on_stack) ((t, adjacency t) ∷ (v, rest) ∷ stack)
  push s v t rest stack h inv =
      let s' = set_mark s t Mark.on_stack in
      let (frame, frames) = inv.frames in
      let marked_off = λ (x : String) (m : s x ≡ Mark.on_stack).
        set_mark-keeps s t Mark.on_stack x (λ e. absurd (ground (arith, h, m, e))) in
      let ends = λ (x : String) (f : s x ≡ Mark.finished).
        set_mark-keeps s t Mark.on_stack x (λ e. absurd (ground (arith, h, f, e))) ∙ f in
      let kept = λ (x : String) (m : contains (nodes_of stack) x ≡ true).
        marked_off x (IsStack-marked adjacency s (some v) stack frames x m) in
      record {
        frames = (
          record {
            marked = set_mark-at s t Mark.on_stack;
            once = elim (Bool-cases (contains (nodes_of ((v, rest) ∷ stack)) t)) [
              | inl m ↦
                  let on = IsStack-marked adjacency s none ((v, t ∷ rest) ∷ stack) inv.frames t m in
                  absurd (ground (arith, h, on))
              | inr other ↦ other
            ];
            covered = λ x e. inl e;
            drawn = λ x m. m;
            entered = frame.drawn t (ground (arith, ==_refl t));
          },
          (
            record {
              marked = marked_off v frame.marked ∙ frame.marked;
              once = frame.once;
              covered = λ x e. elim (frame.covered x e) [
                | inl k ↦ elim (Bool-cases (x == t)) [
                  | inl same ↦ inr (inr (ap some (sym ((==_iff x t).0 same))))
                  | inr other ↦ inl (ground arith)
                ]
                | inr (inl f) ↦ inr (inl (ends x f))
                | inr (inr up) ↦ absurd (ground arith)
              ];
              drawn = λ x m. frame.drawn x (ground arith);
              entered = frame.entered;
            },
            IsStack-map adjacency s s' (some v) stack ends kept frames,
          ),
        );
        stacked = λ x m. elim (Bool-cases (x == t)) [
          | inl same ↦ ground arith
          | inr other ↦
              let k = inv.stacked x (sym (set_mark-off s t Mark.on_stack x other) ∙ m) in
              ground arith
        ];
        ranked =
            IsRanked-map adjacency s s' ends
              (λ x f. elim (Bool-cases (x == t)) [
                | inl same ↦
                    let on = ap s' ((==_iff x t).0 same) ∙ set_mark-at s t Mark.on_stack in
                    absurd (ground (arith, f, on))
                | inr other ↦ sym (set_mark-off s t Mark.on_stack x other) ∙ f
              ])
              inv.ranked;
      }
