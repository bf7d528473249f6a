-- ===== src/Trails/Cycles.antt =====
-- The graph that `_has_cycle` of domain/evidence_trails/validation.py searches, and its answer.
use super_scientist_orchestr.Prelude.{
  String, ◌≡◌, refl, sym, ap, ◌∙◌, ◌↔◌, inl, inr, Bool, true, false, ◌&&◌, some, List, [], ◌∷◌, map,
  arith, Bool-cases, ◌==◌, ==_iff, ==_comm, nat_eq, string_eq, option_eq, list_eq, pair_eq, bool_eq,
  select, contains, sorted_texts, distinct, contains-sorted, contains-distinct,
}
use super_scientist_orchestr.Trails.{Mark, targets, has_cycle}
use super_scientist_orchestr.Trails.Reachability.{Walk, Walk-map}
use super_scientist_orchestr.Trails.Search.{Edge}
use super_scientist_orchestr.Trails.Steps.{IsSearch}
use super_scientist_orchestr.Trails.Visits.{visit_all-Decided, no-Walk}

-- An edge between two nodes.
pub record IsEdge (nodes : List String) (edges : List (String × String)) (u v : String)
    : Type 0 where
  pub source : contains nodes u ≡ true
  pub target : contains nodes v ≡ true
  pub listed : contains edges (u, v) ≡ true

selected_targets :
    (nodes : List String) (u v : String) (edges : List (String × String))
    → contains
        (map
          (λ (e : String × String). e.1)
          (select (λ e. e.0 == u && (contains nodes e.0 && contains nodes e.1)) edges))
        v
      ≡ (contains edges (u, v) && (contains nodes u && contains nodes v))
selected_targets nodes u v [] = refl
selected_targets nodes u v ((a, b) ∷ edges) =
    let rest = selected_targets nodes u v edges in
    elim (Bool-cases (a == u)) [
      | inl same ↦
          let k = ap (contains nodes) ((==_iff a u).0 same) in
          let back = ==_comm a u in
          elim (Bool-cases (v == b)) [
            | inl same' ↦ let k' = ap (contains nodes) ((==_iff v b).0 same') in ground arith
            | inr other ↦ ground arith
          ]
      | inr other ↦ let back = ==_comm a u in ground arith
    ]

targets-IsEdge :
    (nodes : List String) (edges : List (String × String)) (u v : String)
    → Edge (targets nodes edges) u v ↔ IsEdge nodes edges u v
unfolding targets
targets-IsEdge nodes edges u v =
    let ends =
      map (λ (e : String × String). e.1)
        (select (λ e. e.0 == u && (contains nodes e.0 && contains nodes e.1)) edges) in
    let e =
      contains-sorted (distinct ends) v
      ∙ contains-distinct ends v
      ∙ selected_targets nodes u v edges in
    (
      λ h.
          let k = sym e ∙ h in
          let edge : IsEdge nodes edges u v = record {
            source = ground arith;
            target = ground arith;
            listed = ground arith;
          } in
          edge,
      λ edge. let a = edge.source in let b = edge.target in let c = edge.listed in e ∙ ground arith,
    )

unseen-IsSearch : (adjacency : String → List String) → IsSearch adjacency (λ x. Mark.unseen) []
unseen-IsSearch adjacency = record {
  frames = refl;
  stacked = λ x m. absurd (ground arith);
  ranked = record {
    height = λ x. 0;
    bound = 0;
    below = λ u f. absurd (ground arith);
    descends = λ u t f e. absurd (ground arith);
  };
}

-- The search always ends within its fuel, and it reports a cycle exactly if some node leads back to
-- itself along edges between the nodes.
pub has_cycle_iff :
    (nodes : List String) (edges : List (String × String))
    → (b : Bool) × (has_cycle nodes edges ≡ some b)
      × ((b ≡ true) ↔ ((v : String) × Walk (IsEdge nodes edges) v v))
unfolding has_cycle
has_cycle_iff nodes edges =
    let adjacency = targets nodes edges in
    let edge_of = λ (u v : String). (targets-IsEdge nodes edges u v).0 in
    let closed = λ (u v : String) (e : Edge adjacency u v). (edge_of u v e).target in
    let decided =
      visit_all-Decided adjacency nodes closed (λ x. Mark.unseen) (sorted_texts nodes)
        (λ x m. sym (contains-sorted nodes x) ∙ m) (unseen-IsSearch adjacency) in
    elim decided [
      | inl (e, (v, walk)) ↦ (true, e, (λ h. (v, Walk-map edge_of walk), λ found. refl))
      | inr (s, e, inv, back, seen) ↦ (
        false,
        e,
        (
          λ h. absurd (ground arith),
          λ (v, walk). absurd (
              no-Walk adjacency nodes closed s inv (λ x m. seen x (contains-sorted nodes x ∙ m))
                (λ u t k. (edge_of u t k).source) v
                (Walk-map (λ u t. (targets-IsEdge nodes edges u t).1) walk)),
        ),
      )
    ]
