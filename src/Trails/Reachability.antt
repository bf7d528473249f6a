-- ===== src/Trails/Reachability.antt =====
-- Walks along the edges of a graph, and an order of the nodes that forbids cycles.
use super_scientist_orchestr.Prelude.{ℕ, ◌<◌, String, arith}

-- A walk of at least one edge.
pub data Walk (edge : String → String → Type 0) : String → String → Type 0 where
  last_edge : {u v : String} → edge u v → Walk edge u v
  then_walk : {u v w : String} → edge u v → Walk edge v w → Walk edge u w

pub Walk-append :
    {edge : String → String → Type 0} {u v w : String} → Walk edge u v → edge v w → Walk edge u w
Walk-append (last_edge e) f = then_walk e (last_edge f)
Walk-append (then_walk e walk) f = then_walk e (Walk-append walk f)

pub Walk-map :
    {edge edge' : String → String → Type 0}
    → ((u v : String) → edge u v → edge' u v)
    → {u v : String} → Walk edge u v
    → Walk edge' u v
Walk-map f (last_edge e) = last_edge (f _ _ e)
Walk-map f (then_walk e walk) = then_walk (f _ _ e) (Walk-map f walk)

-- Where every edge goes down, so does every walk.
pub Walk-descends :
    {edge : String → String → Type 0} (height : String → ℕ)
    → ((u v : String) → edge u v → height v < height u)
    → {u v : String} → Walk edge u v
    → height v < height u
Walk-descends height down (last_edge e) = down _ _ e
Walk-descends height down (then_walk e walk) =
    let first = down _ _ e in let rest = Walk-descends height down walk in omega arith
