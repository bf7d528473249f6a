-- ===== src/Collaboration/Integrity.antt =====
-- The validator `require_semantic_integrity` of a collaboration state, all but the replay of its
-- transitions, of domain/collaboration/models.py.
pub mod Replay
pub mod Extension
use super_scientist_orchestr.Prelude.{
  ℕ, suc, ◌+◌, String, Bool, true, false, not, ◌&&◌, Option, none, some, List, [], ◌∷◌, ◌++◌, map,
  ltb, leb, if◌then◌else◌, ◌==◌, nat_eq, string_eq, option_eq, list_eq, pair_eq, bool_eq, length,
  select, contains, subset, ◌>>=◌,
}
use super_scientist_orchestr.Collaboration.{
  Resources, TopologySnapshot, topology_eq, TopologyEvent, CollaborationSession, artifact_eq,
  PeerRequest, PeerContribution, CollaborationState, Platform,
}
use super_scientist_orchestr.Collaboration.Usage.{
  zero_usage, add_usage, within_budget, usage_matches, sum_usage, remaining,
}
use super_scientist_orchestr.Collaboration.Topology.{apply_topology_operation, peer_ids}
use super_scientist_orchestr.Collaboration.Termination.{
  parent_depth, set_depth, peers_of, any_count,
}

-- The capabilities that a session's cohort was requested for.
abbrev pub capability_ids : CollaborationSession → List String
capability_ids session =
    map (λ r. r.capability_id)
      (session.cohort_plan.request_snapshot.required_capabilities
        ++ session.cohort_plan.request_snapshot.preferred_capabilities)

abbrev pub initial_edges : CollaborationSession → List (String × String)
initial_edges session =
    select
      (λ e.
        contains session.initial_active_peer_ids e.0
        && contains session.initial_active_peer_ids e.1)
      session.declared_edges

-- What the loop over the exchanges keeps; the sets and the dictionary in the order of insertion.
pub record Retained : Type 0 where
  pub known_ids : List String
  pub known_depths : List (String × ℕ)
  pub request_ids : List String
  pub used : Resources

abbrev pub nothing_retained : Retained
nothing_retained = record { known_ids = []; known_depths = []; request_ids = []; used = zero_usage }

-- A parent that a request names is known, and is a parent of the contribution.
abbrev pub parent_binds : Option String → List String → List String → Bool
parent_binds none known parents = true
parent_binds (some parent) known parents = contains known parent && contains parents parent

abbrev pub is_declared_sender : CollaborationSession → Option String → Bool
is_declared_sender session none = true
is_declared_sender session (some sender) = contains (peer_ids session) sender

module _ (platform : Platform) (session : CollaborationSession) where
  -- One event between two snapshots, the `index`th from 0.
  unfoldable pub event_binds : ℕ → TopologySnapshot → TopologySnapshot → TopologyEvent → Bool
  event_binds index before after event =
      event.sequence == index + 1
      && event.session_id == session.session_id
      && event.before_topology_hash == before.content_hash
      && event.after_topology_hash == after.content_hash
      && apply_topology_operation platform session before event == some after

  -- The loop over the events, with the snapshots behind the first one.
  unfoldable pub events_bind :
      ℕ → TopologySnapshot → List TopologySnapshot → List TopologyEvent → Bool
  events_bind index before [] [] = true
  events_bind index before (after ∷ history) (event ∷ events) =
      event_binds index before after event && events_bind (suc index) after history events
  events_bind index before _ _ = false

  -- The checks of the history of topologies; its length is checked by `events_bind`.
  unfoldable pub history_binds : List TopologySnapshot → List TopologyEvent → Bool
  history_binds [] events = false
  history_binds (start ∷ history) events =
      start.active_peer_ids == session.initial_active_peer_ids
      && start.enabled_edges == initial_edges session
      && events_bind 0 start history events

  -- The checks on one exchange, the `index`th from 1, that read nothing but the two models and the
  -- identifiers that are known.
  unfoldable pub exchange_binds : Retained → ℕ → PeerRequest → PeerContribution → Bool
  exchange_binds known index request contribution =
      request.sequence == index
      && request.session_id == session.session_id
      && contribution.session_id == session.session_id
      && contribution.request_id == request.request_id
      && not (contains known.request_ids request.request_id)
      && request.recipient_id == contribution.peer_id
      && contains (peer_ids session) request.recipient_id
      && is_declared_sender session request.sender_id
      && contains (capability_ids session) request.requested_capability_id
      && subset request.tool_ids session.budget.allowed_tool_ids
      && subset contribution.tool_ids session.budget.allowed_tool_ids
      && subset request.artifact_refs session.allowed_artifacts
      && subset contribution.artifact_refs session.allowed_artifacts
      && parent_binds request.parent_contribution_id known.known_ids
          contribution.parent_contribution_ids
      && subset contribution.parent_contribution_ids known.known_ids
      && contains session.allowed_contribution_kinds contribution.contribution_kind
      && not (contains known.known_ids contribution.contribution_id)

  -- The rest of the round: the depth and the budget, and what is kept for the next one.
  unfoldable pub exchange_step :
      Retained → ℕ → PeerRequest → PeerContribution → Resources → Option Retained
  unfolding exchange_binds
  exchange_step known index request contribution usage =
      if not (exchange_binds known index request contribution)
      then none
      else (parent_depth known.known_depths contribution.parent_contribution_ids >>= (λ depth.
          remaining platform known.used session.budget.resources >>= (λ expected.
            if not (
              leb depth session.budget.max_parent_depth
              && usage_matches request.remaining_budget expected
              && within_budget (add_usage known.used usage) session.budget.resources)
            then none
            else some (record {
              known_ids = known.known_ids ++ contribution.contribution_id ∷ [];
              known_depths = set_depth contribution.contribution_id depth known.known_depths;
              request_ids = known.request_ids ++ request.request_id ∷ [];
              used = add_usage known.used usage;
            }))))

  -- The loop over `zip(requests, contributions, usage_history)`, which must be one-to-one.
  unfoldable pub exchanges_bind :
      Retained → ℕ → List PeerRequest → List PeerContribution → List Resources → Option Retained
  unfolding exchange_step
  exchanges_bind known index [] [] [] = some known
  exchanges_bind known index (r ∷ rs) (c ∷ cs) (u ∷ us) =
      exchange_step known index r c u >>= (λ known'. exchanges_bind known' (suc index) rs cs us)
  exchanges_bind known index _ _ _ = none

  -- The counts of a state, and the bounds of its session on them.
  unfoldable pub counts_bind : CollaborationState → Bool
  counts_bind state =
      state.hop_count == length state.contributions
      && state.scheduling_position == length state.contributions + length state.topology_events
      && length state.transitions == state.scheduling_position
      && leb state.hop_count session.budget.max_hops
      && leb (length state.contributions) session.budget.max_contributions
      && leb (length state.topology_events) session.budget.max_topology_changes
      && not (
          any_count (λ n. ltb session.budget.max_contributions_per_peer n)
            (peers_of state.contributions))
      && usage_matches state.usage (sum_usage platform state.usage_history)
