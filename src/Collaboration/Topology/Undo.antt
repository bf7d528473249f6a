-- ===== src/Collaboration/Topology/Undo.antt =====
-- How a peer that is activated is deactivated again.
use super_scientist_orchestr.Prelude.{
  String, ◌≡◌, refl, sym, ap, ◌∙◌, inl, inr, true, false, not, ◌&&◌, ◌||◌, none, some, List, [],
  ◌∷◌, ◌++◌, arith, if◌then◌else◌, Bool-cases, ◌==◌, ◌!=◌, ==_iff, ==_refl, nat_eq, string_eq,
  option_eq, list_eq, pair_eq, bool_eq, all, select, contains, sorted_pairs, some_inj, sorted_texts,
  contains-sorted,
}
use super_scientist_orchestr.Prelude.{contains-behind, sorted-without}
use super_scientist_orchestr.Collaboration.{
  TopologySnapshot, topology_eq, TopologyOperation, TopologyEvent, CollaborationSession, Platform,
  hash_of,
}
use super_scientist_orchestr.Collaboration.Topology.{
  topology_json, is_snapshot, build_topology, peer_ids, change_peers, apply_topology_operation,
}

-- What the validators of a snapshot establish.
pub record IsSnapshot (platform : Platform) (t : TopologySnapshot) : Type 0 where
  pub valid : is_snapshot t.active_peer_ids t.enabled_edges ≡ true
  pub addressed :
      t.content_hash ≡ hash_of platform (topology_json t.active_peer_ids t.enabled_edges)

untouched_edges :
    (peers : List String) (x : String) (edges : List (String × String))
    → contains peers x ≡ false
    → all (λ e. contains peers e.0 && contains peers e.1) edges ≡ true
    → select (λ e. not (x == e.0 || x == e.1)) edges ≡ edges
untouched_edges peers x [] h k = refl
untouched_edges peers x ((a, b) ∷ edges) h k =
    let apart = λ (y : String) (m : contains peers y ≡ true).
      let e : (x == y) ≡ false = elim (Bool-cases (x == y)) [
        | inl same ↦ let m' = ap (contains peers) ((==_iff x y).0 same) in absurd (ground arith)
        | inr other ↦ other
      ] in
      e in
    let first = apart a (ground arith) in
    let second = apart b (ground arith) in
    let rest = untouched_edges peers x edges h (ground arith) in
    rw (first, second) (ap (λ es. (a, b) ∷ es) rest)

module _ (platform : Platform) (session : CollaborationSession) where
  activated :
      (before : TopologySnapshot) (event : TopologyEvent) (x : String)
      → event.operation ≡ TopologyOperation.activate_peer
      → event.peer_id ≡ some x
      → apply_topology_operation platform session before event ≡ (
          if contains (peer_ids session) x && not (contains before.active_peer_ids x)
          then build_topology platform
              (sorted_texts (before.active_peer_ids ++ x ∷ []))
              (sorted_pairs before.enabled_edges)
          else none)
  unfolding apply_topology_operation change_peers
  activated before event x p q =
      rw (p, q)
        (elim (Bool-cases
          (contains (peer_ids session) x && not (contains before.active_peer_ids x))) [
            | inl c ↦ rw c refl
            | inr c ↦ rw c refl
          ])

  deactivated :
      (before : TopologySnapshot) (event : TopologyEvent) (x : String)
      → event.operation ≡ TopologyOperation.deactivate_peer
      → event.peer_id ≡ some x
      → apply_topology_operation platform session before event ≡ (
          if contains (peer_ids session) x && contains before.active_peer_ids x
          then build_topology platform
              (sorted_texts (select (λ p. p != x) before.active_peer_ids))
              (sorted_pairs (select (λ e. not (x == e.0 || x == e.1)) before.enabled_edges))
          else none)
  unfolding apply_topology_operation change_peers
  deactivated before event x p q =
      rw (p, q)
        (elim (Bool-cases (contains (peer_ids session) x && contains before.active_peer_ids x)) [
          | inl c ↦ rw c refl
          | inr c ↦ rw c refl
        ])

  build_topology-inv :
      (peers : List String) (edges : List (String × String)) (t : TopologySnapshot)
      → build_topology platform peers edges ≡ some t
      → (t.active_peer_ids ≡ peers) × (t.enabled_edges ≡ edges)
  unfolding build_topology
  build_topology-inv peers edges t h = elim (Bool-cases (is_snapshot peers edges)) [
    | inl ok ↦
        let built : TopologySnapshot = record {
          active_peer_ids = peers;
          enabled_edges = edges;
          content_hash = hash_of platform (topology_json peers edges);
        } in
        let made : build_topology platform peers edges ≡ some built = rw ok refl in
        let e = some_inj (sym h ∙ made) in
        (
          ap (λ (s : TopologySnapshot). s.active_peer_ids) e,
          ap (λ (s : TopologySnapshot). s.enabled_edges) e,
        )
    | inr bad ↦ absurd (ground (arith, bad, h))
  ]

  rebuilt :
      (t : TopologySnapshot)
      → IsSnapshot platform t
      → build_topology platform t.active_peer_ids t.enabled_edges ≡ some t
  unfolding build_topology
  rebuilt t built =
      let valid = built.valid in
      rw valid (ap (λ h. some (record t { content_hash = h })) (sym built.addressed))

  -- After a peer was activated, to deactivate it gives back the snapshot from before, hash included.
  pub apply_topology_operation-undone :
      (before after : TopologySnapshot) (event undo : TopologyEvent) (x : String)
      → IsSnapshot platform before
      → (event.operation ≡ TopologyOperation.activate_peer) × (event.peer_id ≡ some x)
      → (undo.operation ≡ TopologyOperation.deactivate_peer) × (undo.peer_id ≡ some x)
      → apply_topology_operation platform session before event ≡ some after
      → apply_topology_operation platform session after undo ≡ some before
  unfolding is_snapshot
  apply_topology_operation-undone before after event undo x built (p, q) (p', q') h =
      let peers = before.active_peer_ids in
      let edges = before.enabled_edges in
      let valid = built.valid in
      let made = sym (activated before event x p q) ∙ h in
      elim (Bool-cases (contains (peer_ids session) x && not (contains peers x))) [
        | inl c ↦
            let fresh : contains peers x ≡ false = ground arith in
            let (of_peers, of_edges) =
              build_topology-inv (sorted_texts (peers ++ x ∷ [])) (sorted_pairs edges) after
                (sym (rw c refl) ∙ made) in
            let same : sorted_pairs edges ≡ edges =
              sym ((==_iff edges (sorted_pairs edges)).0 (ground arith)) in
            let there : contains after.active_peer_ids x ≡ true =
              ap (λ ps. contains ps x) of_peers
              ∙ contains-sorted (peers ++ x ∷ []) x
              ∙ contains-behind x x peers
              ∙ ground (arith, ==_refl x) in
            let shrunk =
              ap (λ ps. sorted_texts (select (λ p. p != x) ps)) of_peers
              ∙ sorted-without x peers fresh (ground arith) in
            let kept =
              ap (λ es. sorted_pairs (select (λ e. not (x == e.0 || x == e.1)) es))
                (of_edges ∙ same)
              ∙ ap sorted_pairs (untouched_edges peers x edges fresh (ground arith))
              ∙ same in
            let guard : (contains (peer_ids session) x && contains after.active_peer_ids x) ≡ true =
              ground arith in
            deactivated after undo x p' q' ∙ rw (guard, shrunk, kept) (rebuilt before built)
        | inr c ↦ absurd (ground (arith, c, made))
      ]
