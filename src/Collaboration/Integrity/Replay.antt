-- ===== src/Collaboration/Integrity/Replay.antt =====
-- `_require_deterministic_transition_replay` of domain/collaboration/models.py, and the validator as
-- a whole.
use super_scientist_orchestr.Prelude.{
  ℕ, suc, ◌+◌, String, Bool, false, not, ◌&&◌, Option, none, some, List, [], ◌∷◌, ◌++◌,
  if◌then◌else◌, ◌==◌, ◌!=◌, nat_eq, string_eq, option_eq, list_eq, pair_eq, bool_eq, length,
  contains, get_elem?, last, before_last, ◌>>=◌, is_some,
}
use super_scientist_orchestr.Collaboration.{
  Resources, TopologySnapshot, topology_eq, TopologyEvent, CollaborationTransitionKind,
  CollaborationTransition, CollaborationSession, PeerRequest, PeerContribution, CollaborationState,
  Platform,
}
use super_scientist_orchestr.Collaboration.Usage.{zero_usage, add_usage, within_budget}
use super_scientist_orchestr.Collaboration.Topology.{eligible_peer_ids, first}
use super_scientist_orchestr.Collaboration.Termination.{
  Summary, Semantics, add_depth, completion_satisfied, completion_from_summary, termination_reason,
  cycle_projection_hash, semantic_state_hash,
}
use super_scientist_orchestr.Collaboration.Integrity.{
  nothing_retained, history_binds, exchanges_bind, counts_bind,
}

-- The local variables of the replay, its counters and its set as lists.
pub record Progress : Type 0 where
  pub topology_index : ℕ
  pub peer_index : ℕ
  pub last_peer_id : Option String
  pub topology : TopologySnapshot
  pub peer_counts : List String
  pub kind_counts : List String
  pub cycle_counts : List String
  pub topology_hashes : List String
  pub churn_count : ℕ
  pub prior_topology_hash : Option String
  pub used : Resources
  pub request_ids : List String
  pub depths : List (String × ℕ)
  pub completed : Bool

-- `values.add(value)`
abbrev pub add_to_set : List String → String → List String
add_to_set values value = if contains values value then values else values ++ value ∷ []

unfoldable pub summary_of : Progress → Summary
summary_of p = record {
  topology = p.topology;
  topology_event_count = p.topology_index;
  contribution_count = p.peer_index;
  peer_counts = p.peer_counts;
  last_peer_id = p.last_peer_id;
  cycle_counts = p.cycle_counts;
  churn_count = p.churn_count;
  completed = p.completed;
}

-- The arguments of the semantic hash, with the cycles counted so far.
unfoldable pub semantics_of : Progress → List String → Semantics
semantics_of p cycles = record {
  topology = p.topology;
  prior_topology_hash = p.prior_topology_hash;
  topology_event_count = p.topology_index;
  topology_churn_count = p.churn_count;
  peer_counts = p.peer_counts;
  kind_counts = p.kind_counts;
  last_peer_id = p.last_peer_id;
  usage = p.used;
  request_ids = p.request_ids;
  depths = p.depths;
  cycle_counts = cycles;
  completed = p.completed;
}

module _ (platform : Platform) where
  module _ (session : CollaborationSession) where
    abbrev pub cycle_hash_of : Progress → String
    cycle_hash_of p =
        cycle_projection_hash platform session p.topology p.peer_counts p.kind_counts p.last_peer_id
          p.used p.completed

    -- The end of a round, the `position`th: both hashes that the state retains are the derived ones.
    unfoldable pub observe : List String → List String → ℕ → Progress → Option Progress
    observe observed cycles position p =
        let cycle = cycle_hash_of p in
        let counts = p.cycle_counts ++ cycle ∷ [] in
        if get_elem? observed position
            == some (semantic_state_hash platform session (semantics_of p counts))
          && get_elem? cycles position == some cycle
        then some (record p { cycle_counts = counts })
        else none

    unfoldable pub replay_start : TopologySnapshot → Progress
    replay_start topology = record {
      topology_index = 0;
      peer_index = 0;
      last_peer_id = none;
      topology = topology;
      peer_counts = [];
      kind_counts = [];
      cycle_counts = [];
      topology_hashes = topology.content_hash ∷ [];
      churn_count = 0;
      prior_topology_hash = none;
      used = zero_usage;
      request_ids = [];
      depths = [];
      completed = false;
    }

    -- One topology event, with the snapshot behind it.
    unfoldable pub replay_event :
        CollaborationTransition → Progress → TopologyEvent → TopologySnapshot → Option Progress
    replay_event t p event topology =
        if t.topology_event_id != some event.event_id
        then none
        else some (record p {
          topology_index = p.topology_index + 1;
          prior_topology_hash = some p.topology.content_hash;
          topology = topology;
          churn_count =
              p.churn_count
              + (if before_last p.topology_hashes == some topology.content_hash then 1 else 0);
          topology_hashes = p.topology_hashes ++ topology.content_hash ∷ [];
        })

    -- One exchange.
    unfoldable pub replay_exchange :
        CollaborationTransition
        → Progress
        → PeerRequest
        → PeerContribution
        → Resources
        → Option Progress
    replay_exchange t p request contribution usage =
        if not (
          t.request_id == some request.request_id
          && t.contribution_id == some contribution.contribution_id
          && request.sender_id == p.last_peer_id
          && first (eligible_peer_ids session p.topology p.peer_counts p.last_peer_id)
            == some request.recipient_id
          && within_budget (add_usage p.used usage) session.budget.resources)
        then none
        else (add_depth p.depths contribution >>= (λ depths.
            let kinds = p.kind_counts ++ contribution.contribution_kind ∷ [] in
            some (record p {
              used = add_usage p.used usage;
              peer_counts = p.peer_counts ++ contribution.peer_id ∷ [];
              kind_counts = kinds;
              last_peer_id = some contribution.peer_id;
              request_ids = add_to_set p.request_ids request.request_id;
              depths = depths;
              peer_index = p.peer_index + 1;
              completed = completion_from_summary session (p.peer_index + 1) kinds;
            })))

  abbrev pub replay_kind :
      CollaborationState
      → CollaborationTransition
      → CollaborationTransitionKind
      → Progress
      → Option Progress
  replay_kind state t CollaborationTransitionKind.topology_event p =
      get_elem? state.topology_events p.topology_index >>= (λ event.
        get_elem? state.topology_history (p.topology_index + 1)
        >>= (λ topology. replay_event state.session t p event topology))
  replay_kind state t CollaborationTransitionKind.peer_exchange p =
      get_elem? state.requests p.peer_index >>= (λ request.
        get_elem? state.contributions p.peer_index >>= (λ contribution.
          get_elem? state.usage_history p.peer_index
          >>= (λ usage. replay_exchange state.session t p request contribution usage)))

  -- One round of the loop over the transitions.
  unfoldable pub replay_step :
      CollaborationState → ℕ → CollaborationTransition → Progress → Option Progress
  unfolding observe replay_event replay_exchange summary_of
  replay_step state position t p =
      if not (
        t.position == position
        && not (is_some (termination_reason platform state.session (summary_of p))))
      then none
      else (replay_kind state t t.kind p
          >>= observe state.session state.observed_state_hashes state.cycle_projection_hashes
              position)

  unfoldable pub replay_loop :
      CollaborationState → ℕ → List CollaborationTransition → Progress → Option Progress
  replay_loop state position [] p = some p
  replay_loop state position (t ∷ ts) p =
      replay_step state position t p >>= replay_loop state (suc position) ts

  -- The replay up to the end of the loop.
  unfoldable pub replay : CollaborationState → Option Progress
  unfolding replay_start observe
  replay state = get_elem? state.topology_history 0 >>= (λ topology.
      observe state.session state.observed_state_hashes state.cycle_projection_hashes 0
        (replay_start state.session topology)
      >>= replay_loop state 1 state.transitions)

  -- The end of the replay: every checked transition is retained.
  abbrev pub is_complete : CollaborationState → Option Progress → Bool
  is_complete state none = false
  is_complete state (some p) =
      p.topology_index == length state.topology_events
      && p.peer_index == length state.requests
      && p.topology == state.topology

  unfoldable pub replays : CollaborationState → Bool
  unfolding replay
  replays state =
      length state.observed_state_hashes == length state.transitions + 1
      && length state.cycle_projection_hashes == length state.transitions + 1
      && is_complete state (replay state)

  -- `require_semantic_integrity`
  unfoldable pub has_integrity : CollaborationState → Bool
  unfolding history_binds exchanges_bind counts_bind replays
  has_integrity state =
      history_binds platform state.session state.topology_history state.topology_events
      && last state.topology_history == some state.topology
      && is_some (
          exchanges_bind platform state.session nothing_retained 1 state.requests
            state.contributions state.usage_history)
      && counts_bind platform state.session state
      && state.completed == completion_satisfied state.session state.contributions
      && replays state
