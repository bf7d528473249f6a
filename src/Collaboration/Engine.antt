-- ===== src/Collaboration/Engine.antt =====
-- domain/collaboration/engine.py: how a collaboration starts and advances. A `ValueError` is `none`.
-- A caller's session that equals the one of the state is taken to be that session.
pub mod Progressed
pub mod Retained
pub mod Exchanged
pub mod Counted
pub mod Replayed
pub mod Exchange
pub mod Rearrangement
pub mod Start
pub mod Advances
pub mod Changes
pub mod Runs
pub mod Monopoly
use super_scientist_orchestr.Prelude.{
  ℕ, ◌+◌, String, Bool, false, not, ◌&&◌, Option, none, some, List, [], ◌∷◌, ◌++◌, map, ltb,
  if◌then◌else◌, ◌==◌, ◌!=◌, nat_eq, string_eq, option_eq, list_eq, pair_eq, bool_eq, length,
  contains, subset, last, before_last, ◌>>=◌, is_some,
}
use super_scientist_orchestr.Audit.{value_beq}
use super_scientist_orchestr.Collaboration.{
  Resources, TopologySnapshot, topology_eq, TopologyEvent, CollaborationTransitionKind,
  CollaborationSession, artifact_eq, PeerRequest, PeerContribution, CollaborationState, Platform,
}
use super_scientist_orchestr.Collaboration.Usage.{
  zero_usage, accumulate, within_budget, usage_matches, sum_usage, remaining,
}
use super_scientist_orchestr.Collaboration.Topology.{
  build_topology, apply_topology_operation, eligible_peer_ids, first,
}
use super_scientist_orchestr.Collaboration.Termination.{
  CollaborationTerminationReason, completion_satisfied, termination_reason, summarize,
  topology_hashes, churn_count, peers_of, parent_depth, contribution_depths,
}
use super_scientist_orchestr.Collaboration.Observation.{build_state, observed}
use super_scientist_orchestr.Collaboration.Integrity.{capability_ids, initial_edges, parent_binds}

module _ (platform : Platform) where
  unfoldable pub start_state : CollaborationSession → TopologySnapshot → CollaborationState
  start_state session topology = record {
    session = session;
    topology = topology;
    topology_history = topology ∷ [];
    topology_events = [];
    requests = [];
    contributions = [];
    usage_history = [];
    usage = zero_usage;
    hop_count = 0;
    scheduling_position = 0;
    transitions = [];
    observed_state_hashes = [];
    cycle_projection_hashes = [];
    completed = false;
    state_hash = "";
  }

  unfoldable pub initial_collaboration_state : CollaborationSession → Option CollaborationState
  unfolding build_state observed start_state
  initial_collaboration_state session =
      build_topology platform session.initial_active_peer_ids (initial_edges session)
      >>= (λ topology.
          observed platform (start_state session topology) none 0 >>= build_state platform)

  -- `evaluate_termination(state).reason`
  unfoldable pub evaluate_termination : CollaborationState → Option CollaborationTerminationReason
  evaluate_termination state = termination_reason platform state.session (summarize state)

  -- On a session that matches.
  unfoldable pub next_peer : CollaborationSession → CollaborationState → Option String
  unfolding evaluate_termination
  next_peer session state =
      if is_some (evaluate_termination state)
      then none
      else first (
          eligible_peer_ids session state.topology (peers_of state.contributions)
            (last (peers_of state.contributions)))

  -- `_require_matching_session`; models are compared by what they dump.
  abbrev pub matches_session : CollaborationSession → CollaborationState → Bool
  matches_session session state =
      value_beq (platform.dump_session state.session) (platform.dump_session session)

  -- `_require_artifacts_and_tools`
  unfoldable pub has_declared_uses : CollaborationSession → PeerRequest → PeerContribution → Bool
  has_declared_uses session request contribution =
      subset request.artifact_refs session.allowed_artifacts
      && subset contribution.artifact_refs session.allowed_artifacts
      && subset request.tool_ids session.budget.allowed_tool_ids
      && subset contribution.tool_ids session.budget.allowed_tool_ids

  abbrev pub contribution_ids_of : List PeerContribution → List String
  contribution_ids_of = map (λ c. c.contribution_id)

  -- `_require_parents`: the depth of the contribution.
  unfoldable pub require_parents :
      CollaborationSession → CollaborationState → PeerRequest → PeerContribution → Option ℕ
  require_parents session state request contribution =
      let known = contribution_ids_of state.contributions in
      if not (
        parent_binds request.parent_contribution_id known contribution.parent_contribution_ids
        && subset contribution.parent_contribution_ids known)
      then none
      else (contribution_depths [] state.contributions >>= (λ depths.
          parent_depth depths contribution.parent_contribution_ids
          >>= (λ depth. if ltb session.budget.max_parent_depth depth then none else some depth)))

  -- The checks of `advance_collaboration` from the one of the recipient to the one of the kind.
  unfoldable pub is_expected :
      CollaborationSession → CollaborationState → PeerRequest → PeerContribution → Bool
  unfolding next_peer
  is_expected session state request contribution =
      next_peer session state == some request.recipient_id
      && request.session_id == session.session_id
      && request.sequence == length state.requests + 1
      && request.sender_id == last (peers_of state.contributions)
      && contribution.session_id == session.session_id
      && contribution.request_id == request.request_id
      && contribution.peer_id == request.recipient_id
      && not (contains (contribution_ids_of state.contributions) contribution.contribution_id)
      && contains (capability_ids session) request.requested_capability_id
      && contains session.allowed_contribution_kinds contribution.contribution_kind

  -- The state behind an exchange, without its hashes.
  unfoldable pub exchanged :
      CollaborationSession
      → CollaborationState
      → PeerRequest
      → PeerContribution
      → Resources
      → CollaborationState
  exchanged session state request contribution usage =
      let contributions = state.contributions ++ contribution ∷ [] in
      let usages = state.usage_history ++ usage ∷ [] in
      record state {
        session = session;
        requests = state.requests ++ request ∷ [];
        contributions = contributions;
        usage_history = usages;
        usage = sum_usage platform usages;
        hop_count = state.hop_count + 1;
        scheduling_position = state.scheduling_position + 1;
        transitions =
            state.transitions
            ++ (record {
              position = state.scheduling_position + 1;
              kind = CollaborationTransitionKind.peer_exchange;
              request_id = some request.request_id;
              contribution_id = some contribution.contribution_id;
              topology_event_id = none;
            }
                ∷ []);
        completed = completion_satisfied session contributions;
        state_hash = "";
      }

  -- The checks of `advance_collaboration` on the budget: what the request says is left, and the total.
  unfoldable pub is_affordable :
      CollaborationSession → CollaborationState → PeerRequest → Resources → Bool
  is_affordable session state request usage =
      elim (remaining platform (accumulate state.usage_history) session.budget.resources) [
        | none ↦ false
        | some expected ↦
            usage_matches request.remaining_budget expected
            && within_budget (accumulate (state.usage_history ++ usage ∷ []))
                session.budget.resources
      ]

  unfoldable pub advance_collaboration :
      CollaborationSession
      → CollaborationState
      → PeerRequest
      → PeerContribution
      → Resources
      → Option CollaborationState
  unfolding is_expected has_declared_uses require_parents is_affordable exchanged observed
      build_state
  advance_collaboration session state request contribution usage =
      if not (
        matches_session session state
        && not (is_some (evaluate_termination state))
        && is_expected session state request contribution
        && has_declared_uses session request contribution
        && is_some (require_parents session state request contribution)
        && is_affordable session state request usage)
      then none
      else (observed platform (exchanged session state request contribution usage)
            (before_last (topology_hashes state.topology_history))
            (churn_count (topology_hashes state.topology_history))
          >>= build_state platform)

  unfoldable pub rearranged :
      CollaborationSession
      → CollaborationState
      → TopologyEvent
      → TopologySnapshot
      → CollaborationState
  rearranged session state event after = record state {
    session = session;
    topology = after;
    topology_history = state.topology_history ++ after ∷ [];
    topology_events = state.topology_events ++ event ∷ [];
    scheduling_position = state.scheduling_position + 1;
    transitions =
        state.transitions
        ++ (record {
          position = state.scheduling_position + 1;
          kind = CollaborationTransitionKind.topology_event;
          request_id = none;
          contribution_id = none;
          topology_event_id = some event.event_id;
        }
            ∷ []);
    state_hash = "";
  }

  unfoldable pub is_next_event : CollaborationSession → CollaborationState → TopologyEvent → Bool
  is_next_event session state event =
      ltb (length state.topology_events) session.budget.max_topology_changes
      && event.session_id == session.session_id
      && event.sequence == length state.topology_events + 1
      && event.before_topology_hash == state.topology.content_hash

  unfoldable pub apply_topology_event :
      CollaborationSession → CollaborationState → TopologyEvent → Option CollaborationState
  unfolding is_next_event rearranged observed build_state
  apply_topology_event session state event =
      if not (
        matches_session session state
        && not (is_some (evaluate_termination state))
        && is_next_event session state event)
      then none
      else (apply_topology_operation platform session state.topology event >>= (λ after.
          if event.after_topology_hash != after.content_hash
          then none
          else (observed platform (rearranged session state event after)
                (some state.topology.content_hash)
                (churn_count (topology_hashes state.topology_history)
                  + (if before_last (topology_hashes state.topology_history)
                        == some after.content_hash
                      then 1
                      else 0))
              >>= build_state platform)))
