-- ===== src/Collaboration/Topology.antt =====
-- The topology of a collaboration: `TopologySnapshot.build`, `_apply_topology_operation` and
-- `eligible_peer_ids` of domain/collaboration/models.py.
pub mod Undo
use super_scientist_orchestr.Prelude.{
  ℕ, ◌+◌, String, Bool, true, not, ◌&&◌, ◌||◌, Option, none, some, List, [], ◌∷◌, ◌++◌, map, ltb,
  if◌then◌else◌, ◌==◌, ◌!=◌, nat_eq, string_eq, option_eq, list_eq, pair_eq, bool_eq, all, select,
  contains, sorted_pairs, is_canonical_pairs, ◌>>=◌, is_canonical, sorted_texts, distinct,
}
use super_scientist_orchestr.Json.{
  Value, Values, text, sequence, integer, mapping, nil, cons, item, end, Integer,
}
use super_scientist_orchestr.Collaboration.{
  TopologySnapshot, TopologyOperation, TopologyEvent, CollaborationSession, Platform, hash_of,
}

abbrev pub texts : List String → Values
texts [] = nil
texts (t ∷ ts) = cons (text t) (texts ts)

abbrev pub edges_json : List (String × String) → Values
edges_json [] = nil
edges_json ((s, t) ∷ edges) = cons (sequence (cons (text s) (cons (text t) nil))) (edges_json edges)

-- `model_dump` of `_TopologySnapshotPayload`.
abbrev pub topology_json : List String → List (String × String) → Value
topology_json peers edges = mapping (
    item (text "schema_version") (integer (Integer.natural 1)) (
      item (text "active_peer_ids") (sequence (texts peers))
        (item (text "enabled_edges") (sequence (edges_json edges)) end)))

-- `_canonical_edges`
abbrev pub is_canonical_edges : List (String × String) → Bool
is_canonical_edges edges = all (λ e. e.0 != e.1) edges && is_canonical_pairs edges

-- The validators of a snapshot.
unfoldable pub is_snapshot : List String → List (String × String) → Bool
unfolding is_canonical
is_snapshot peers edges =
    is_canonical peers
    && is_canonical_edges edges
    && all (λ e. contains peers e.0 && contains peers e.1) edges

-- `TopologySnapshot.build`
unfoldable pub build_topology :
    Platform → List String → List (String × String) → Option TopologySnapshot
build_topology platform peers edges =
    if is_snapshot peers edges
    then some (record {
      active_peer_ids = peers;
      enabled_edges = edges;
      content_hash = hash_of platform (topology_json peers edges);
    })
    else none

abbrev pub peer_ids : CollaborationSession → List String
peer_ids session = map (λ p. p.actor_id) session.peers

-- The peers and the edges after an operation, before they are sorted.
unfoldable pub change_peers :
    CollaborationSession
    → TopologySnapshot
    → TopologyOperation
    → String
    → Option (List String × List (String × String))
change_peers session before TopologyOperation.activate_peer peer =
    if contains (peer_ids session) peer && not (contains before.active_peer_ids peer)
    then some (before.active_peer_ids ++ peer ∷ [], before.enabled_edges)
    else none
change_peers session before TopologyOperation.deactivate_peer peer =
    if contains (peer_ids session) peer && contains before.active_peer_ids peer
    then some (
      select (λ p. p != peer) before.active_peer_ids,
      select (λ e. not (peer == e.0 || peer == e.1)) before.enabled_edges,
    )
    else none
change_peers session before operation peer = none

unfoldable pub change_edges :
    CollaborationSession
    → TopologySnapshot
    → TopologyOperation
    → String × String
    → Option (List String × List (String × String))
change_edges session before TopologyOperation.enable_edge edge =
    if contains session.declared_edges edge
      && (contains before.active_peer_ids edge.0 && contains before.active_peer_ids edge.1)
      && not (contains before.enabled_edges edge)
    then some (before.active_peer_ids, before.enabled_edges ++ edge ∷ [])
    else none
change_edges session before TopologyOperation.disable_edge edge =
    if contains session.declared_edges edge
      && (contains before.active_peer_ids edge.0 && contains before.active_peer_ids edge.1)
      && contains before.enabled_edges edge
    then some (before.active_peer_ids, select (λ e. e != edge) before.enabled_edges)
    else none
change_edges session before operation edge = none

-- The operations on peers read `peer_id` and those on edges read `edge`.
abbrev pub change_topology :
    CollaborationSession
    → TopologySnapshot
    → TopologyOperation
    → Option String
    → Option (String × String)
    → Option (List String × List (String × String))
change_topology session before TopologyOperation.activate_peer peer edge =
    peer >>= change_peers session before TopologyOperation.activate_peer
change_topology session before TopologyOperation.deactivate_peer peer edge =
    peer >>= change_peers session before TopologyOperation.deactivate_peer
change_topology session before TopologyOperation.enable_edge peer edge =
    edge >>= change_edges session before TopologyOperation.enable_edge
change_topology session before TopologyOperation.disable_edge peer edge =
    edge >>= change_edges session before TopologyOperation.disable_edge

-- `_apply_topology_operation`
unfoldable pub apply_topology_operation :
    Platform → CollaborationSession → TopologySnapshot → TopologyEvent → Option TopologySnapshot
unfolding change_peers change_edges build_topology is_snapshot
apply_topology_operation platform session before event =
    change_topology session before event.operation event.peer_id event.edge
    >>= (λ after. build_topology platform (sorted_texts after.0) (sorted_pairs after.1))

-- How often a value was counted. A `Counter` is the list of what it has counted.
abbrev pub count : String → List String → ℕ
count k [] = 0
count k (x ∷ xs) = (if k == x then 1 else 0) + count k xs

abbrev pub targets_of : String → List (String × String) → List String
targets_of source edges = map (λ e. e.1) (select (λ e. e.0 == source) edges)

abbrev pub is_target : Option String → TopologySnapshot → String → Bool
is_target none topology peer = true
is_target (some last_peer) topology peer =
    contains (targets_of last_peer topology.enabled_edges) peer

-- `_eligible_peer_ids_from_summary`
unfoldable pub eligible_peer_ids :
    CollaborationSession → TopologySnapshot → List String → Option String → List String
eligible_peer_ids session topology counts last_peer = sorted_texts (
    distinct (
      select
        (λ p.
          contains topology.active_peer_ids p
          && ltb (count p counts) session.budget.max_contributions_per_peer
          && is_target last_peer topology p)
        (peer_ids session)))

-- The first of the eligible peers.
abbrev pub first : List String → Option String
first [] = none
first (p ∷ ps) = some p
