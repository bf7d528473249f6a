-- ===== src/Samples/Graphs.antt =====
-- Small graphs, and the search for cycles in them.
use super_scientist_orchestr.Prelude.{
  String, ◌≡◌, refl, ◌↔◌, Bool, true, false, some, List, [], ◌∷◌, sorted,
}
use super_scientist_orchestr.Trails.{has_cycle, search, set_mark, targets, visit, visit_all}
use super_scientist_orchestr.Trails.Reachability.{Walk}
use super_scientist_orchestr.Trails.Cycles.{IsEdge, has_cycle_iff}

abbrev nodes_example : List String
nodes_example = "c" ∷ "a" ∷ "b" ∷ "d" ∷ []

abbrev diamond : List (String × String)
diamond = ("a", "b") ∷ ("a", "c") ∷ ("b", "d") ∷ ("c", "d") ∷ []

-- One edge leads back, and another one out of the graph.
abbrev looping : List (String × String)
looping = ("d", "a") ∷ ("d", "e") ∷ diamond

diamond_run : has_cycle nodes_example diamond ≡ some false
unfolding has_cycle visit_all sorted visit search targets set_mark
diamond_run = refl

looping_run : has_cycle nodes_example looping ≡ some true
unfolding has_cycle visit_all sorted visit search targets set_mark
looping_run = refl

has_cycle_example :
    (b : Bool) × (has_cycle nodes_example looping ≡ some b)
    × ((b ≡ true) ↔ ((v : String) × Walk (IsEdge nodes_example looping) v v))
has_cycle_example = has_cycle_iff nodes_example looping
