-- ===== src/Collaboration/Observation.antt =====
-- How a state is built with its hashes, in domain/collaboration/engine.py and models.py.
use super_scientist_orchestr.Prelude.{
  ℕ, String, not, Option, none, some, List, [], ◌∷◌, ◌++◌, map, if◌then◌else◌, length, last, ◌>>=◌,
}
use super_scientist_orchestr.Collaboration.{PeerRequest, CollaborationState, Platform, hash_of}
use super_scientist_orchestr.Collaboration.Usage.{accumulate}
use super_scientist_orchestr.Collaboration.Termination.{
  Semantics, peers_of, kinds_of, cycle_projection_hash, semantic_state_hash, contribution_depths,
}
use super_scientist_orchestr.Collaboration.Integrity.Replay.{has_integrity}

module _ (platform : Platform) where
  -- `CollaborationState.build`, on a state whose hash is still to be set.
  unfoldable pub build_state : CollaborationState → Option CollaborationState
  build_state payload =
      if not (has_integrity platform payload)
      then none
      else some (record payload { state_hash = hash_of platform (platform.dump_state payload) })

  abbrev pub request_ids_of : List PeerRequest → List String
  request_ids_of = map (λ r. r.request_id)

  -- The two hashes of a state: its cycle, and its semantics with the cycles before it.
  unfoldable pub cycle_of : CollaborationState → String
  cycle_of state =
      cycle_projection_hash platform state.session state.topology (peers_of state.contributions)
        (kinds_of state.contributions) (last (peers_of state.contributions))
        (accumulate state.usage_history) state.completed

  unfoldable pub semantics :
      CollaborationState → Option String → ℕ → List (String × ℕ) → List String → Semantics
  semantics state prior churn depths cycles = record {
    topology = state.topology;
    prior_topology_hash = prior;
    topology_event_count = length state.topology_events;
    topology_churn_count = churn;
    peer_counts = peers_of state.contributions;
    kind_counts = kinds_of state.contributions;
    last_peer_id = last (peers_of state.contributions);
    usage = accumulate state.usage_history;
    request_ids = request_ids_of state.requests;
    depths = depths;
    cycle_counts = cycles;
    completed = state.completed;
  }

  -- A state with its two hashes appended to those before it, from the hash of the topology before and
  -- the number of returns to a topology.
  unfoldable pub with_hashes :
      CollaborationState → Option String → ℕ → List (String × ℕ) → CollaborationState
  unfolding cycle_of semantics
  with_hashes state prior churn depths =
      let cycles = state.cycle_projection_hashes ++ cycle_of state ∷ [] in
      record state {
        observed_state_hashes =
            state.observed_state_hashes
            ++ semantic_state_hash platform state.session
                (semantics state prior churn depths cycles)
              ∷ [];
        cycle_projection_hashes = cycles;
      }

  unfoldable pub observed : CollaborationState → Option String → ℕ → Option CollaborationState
  unfolding with_hashes
  observed state prior churn =
      contribution_depths [] state.contributions
      >>= (λ depths. some (with_hashes state prior churn depths))
