-- ===== src/Trails/Work.antt =====
-- The steps that the depth-first search of `_has_cycle` has still to take.
use super_scientist_orchestr.Prelude.{
  ℕ, suc, ◌+◌, ◌≤◌, String, ◌≡◌, refl, subst, inl, inr, true, List, [], ◌∷◌, arith, Bool-cases,
  ◌==◌, ==_iff, nat_eq, string_eq, option_eq, list_eq, pair_eq, bool_eq, length, contains,
}
use super_scientist_orchestr.Trails.{Mark, State, set_mark, work}
use super_scientist_orchestr.Trails.Search.{mark_cases, set_mark-at}

-- The steps that the frames of a stack take.
abbrev pub frames_work : List (String × List String) → ℕ
frames_work [] = 0
frames_work ((v, rest) ∷ stack) = suc (length rest) + frames_work stack

module _ (adjacency : String → List String) where
  abbrev pub node_work : Mark → String → ℕ
  node_work Mark.unseen v = suc (length (adjacency v))
  node_work Mark.on_stack v = 0
  node_work Mark.finished v = 0

  node_work_le :
      (m m' : Mark) (v : String)
      → (m' ≡ Mark.unseen → m ≡ Mark.unseen)
      → node_work m' v ≤ node_work m v
  node_work_le m Mark.unseen v back = rw (back refl) (omega arith)
  node_work_le m Mark.on_stack v back = omega arith
  node_work_le m Mark.finished v back = omega arith

  work_cons :
      (s : State) (v : String) (vs : List String)
      → work adjacency s (v ∷ vs) ≡ node_work (s v) v + work adjacency s vs
  work_cons s v vs = elim (mark_cases (s v)) [
    | inl e ↦ rw e refl
    | inr (inl e) ↦ rw e refl
    | inr (inr e) ↦ rw e refl
  ]

  -- Where no node becomes unseen, the work does not grow.
  pub work_le :
      (s s' : State)
      → ((x : String) → s' x ≡ Mark.unseen → s x ≡ Mark.unseen)
      → (nodes : List String) → work adjacency s' nodes ≤ work adjacency s nodes
  work_le s s' back [] = omega arith
  work_le s s' back (v ∷ vs) =
      let first = node_work_le (s v) (s' v) v (back v) in
      let rest = work_le s s' back vs in
      let e = work_cons s v vs in let e' = work_cons s' v vs in omega arith

  set_mark-back :
      (s : State) (k : String) (x : String)
      → set_mark s k Mark.on_stack x ≡ Mark.unseen
      → s x ≡ Mark.unseen
  unfolding set_mark
  set_mark-back s k x h = ground arith

  -- To see a node moves its work to its frame.
  pub work_see :
      (s : State) (k : String)
      → s k ≡ Mark.unseen
      → (nodes : List String) → contains nodes k ≡ true
      → work adjacency (set_mark s k Mark.on_stack) nodes + suc (length (adjacency k))
        ≤ work adjacency s nodes
  work_see s k h [] m = absurd (ground arith)
  work_see s k h (v ∷ vs) m =
      let s' = set_mark s k Mark.on_stack in
      let e = work_cons s v vs in
      let e' = work_cons s' v vs in
      elim (Bool-cases (k == v)) [
        | inl same ↦
            let eq = (==_iff k v).0 same in
            let fresh : node_work (s v) v ≡ suc (length (adjacency k)) =
              subst (λ w. node_work (s w) w ≡ suc (length (adjacency k))) eq (rw h refl) in
            let seen : node_work (s' v) v ≡ 0 =
              subst (λ w. node_work (s' w) w ≡ 0) eq (rw (set_mark-at s k Mark.on_stack) refl) in
            let rest = work_le s s' (set_mark-back s k) vs in omega arith
        | inr other ↦
            let first = node_work_le (s v) (s' v) v (set_mark-back s k v) in
            let rest = work_see s k h vs (ground arith) in omega arith
      ]
