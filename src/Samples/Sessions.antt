-- ===== src/Samples/Sessions.antt =====
-- A collaboration of two peers, and the theorems on runs at its first exchange.
use super_scientist_orchestr.Prelude.{
  length, arith, ℕ, ◌≤◌, ◌≡◌, refl, ◌↔◌, none, some, [], ◌∷◌, true, false, is_some, decide, sorted,
}
use super_scientist_orchestr.Json.{null}
use super_scientist_orchestr.Cognition.{CohortPlan}
use super_scientist_orchestr.Collaboration.{
  TopologyOperation, hash_of, Resources, Platform, CollaborationSession, CollaborationState,
  PeerRequest, PeerContribution, TopologyEvent, TopologySnapshot, TopologySnapshot-discrete,
}
use super_scientist_orchestr.Collaboration.Topology.{
  apply_topology_operation, eligible_peer_ids, topology_json,
}
use super_scientist_orchestr.Collaboration.Topology.Undo.{
  IsSnapshot, apply_topology_operation-undone,
}
use super_scientist_orchestr.Collaboration.Usage.{
  zero_usage, sum_usage, usage_matches, accumulate, add_usage, remaining,
}
use super_scientist_orchestr.Collaboration.Integrity.Replay.{
  has_integrity, replay_loop, semantics_of,
}
use super_scientist_orchestr.Collaboration.Engine.{
  next_peer, start_state, evaluate_termination, is_expected, initial_collaboration_state,
  advance_collaboration, apply_topology_event, has_declared_uses, is_affordable, require_parents,
}
use super_scientist_orchestr.Collaboration.Observation.{cycle_of, with_hashes}
use super_scientist_orchestr.Collaboration.Engine.Exchange.{MayExchange}
use super_scientist_orchestr.Collaboration.Engine.Rearrangement.{MayRearrange}
use super_scientist_orchestr.Collaboration.Engine.Monopoly.{Run-single}
use super_scientist_orchestr.Collaboration.Engine.Runs.{Run, Run-steps_iff, Run-bounded}
use super_scientist_orchestr.Samples.{person}
use super_scientist_orchestr.Samples.Audits.{digests_example}
use super_scientist_orchestr.Samples.Cohorts.{request_example}
use super_scientist_orchestr.Collaboration.Topology.{build_topology, is_snapshot}
use super_scientist_orchestr.Collaboration.Termination.{
  termination_reason, summarize, completion_satisfied, contribution_depths, cycle_projection_hash,
  semantic_state_hash,
}
use super_scientist_orchestr.Collaboration.Integrity.{events_bind}

-- Shares are in halves here, and no float needs rounding.
abbrev platform_example : Platform
platform_example = record {
  digests = digests_example;
  dump_session = λ s. null;
  dump_state = λ s. null;
  one = 2;
  nearest = λ n. n;
  decimal_text = λ n. "";
}

abbrev plan_example : CohortPlan
plan_example = record {
  cohort_plan_id = "plan-1";
  request_id = request_example.request_id;
  request_content_hash = request_example.content_hash;
  request_snapshot = request_example;
  task_id = "task-1";
  resolved_candidate_profiles = [];
  members = [];
  excluded_actor_ids = [];
  coverage = [];
  unresolved_requirement_ids = [];
  unresolved_candidate_actor_ids = [];
  ranked_candidates = [];
  tie_sets = [];
  tie_group_ranks = [];
  evidence_snapshot_hashes = [];
  profile_content_hashes = [];
  minimum_size_met = false;
  governing_policy_hash = "policy";
  content_hash = "plan";
}

abbrev hundred_tokens : Resources
hundred_tokens = record zero_usage { tokens = 100 }

abbrev session_example : CollaborationSession
session_example = record {
  session_id = "session-1";
  task_id = "task-1";
  cohort_plan = plan_example;
  peers = person "alice" ∷ person "bob" ∷ [];
  role_assignments = [];
  tools = [];
  allowed_artifacts = [];
  budget = record {
    max_peers = 2;
    max_hops = 4;
    max_contributions = 4;
    max_contributions_per_peer = 2;
    max_topology_changes = 1;
    max_parent_depth = 4;
    max_state_repetitions = 1;
    max_topology_churn = 1;
    max_peer_contribution_share = 1;
    resources = hundred_tokens;
    allowed_tool_ids = [];
  };
  allowed_contribution_kinds = "conjecture" ∷ [];
  declared_edges = ("alice", "bob") ∷ ("bob", "alice") ∷ [];
  initial_active_peer_ids = "alice" ∷ "bob" ∷ [];
  scheduling_policy_version = "1";
  topology_policy_version = "1";
  completion_predicate = record { min_contributions = 4; required_contribution_kind = none };
  governing_policy_hash = "policy";
  content_hash = "session";
}

abbrev first_request : PeerRequest
first_request = record {
  request_id = "request-1";
  session_id = "session-1";
  sequence = 1;
  sender_id = none;
  recipient_id = "alice";
  requested_capability_id = "proof-search";
  question = "what is true?";
  artifact_refs = [];
  parent_contribution_id = none;
  tool_ids = [];
  remaining_budget = hundred_tokens;
  content_hash = "r1";
}

abbrev first_contribution : PeerContribution
first_contribution = record {
  contribution_id = "contribution-1";
  session_id = "session-1";
  request_id = "request-1";
  peer_id = "alice";
  parent_contribution_ids = [];
  contribution_kind = "conjecture";
  rationale_summary = "a guess";
  candidate_content = "everything";
  artifact_refs = [];
  tool_ids = [];
  content_hash = "c1";
}

abbrev topology_example : TopologySnapshot
topology_example = record {
  active_peer_ids = "alice" ∷ "bob" ∷ [];
  enabled_edges = ("alice", "bob") ∷ ("bob", "alice") ∷ [];
  content_hash =
      hash_of platform_example
        (topology_json ("alice" ∷ "bob" ∷ []) (("alice", "bob") ∷ ("bob", "alice") ∷ []));
}

abbrev start_example : CollaborationState
start_example =
    with_hashes platform_example (start_state platform_example session_example topology_example)
      none 0 []

start_run : initial_collaboration_state platform_example session_example ≡ some start_example
unfolding initial_collaboration_state build_topology is_snapshot sorted contribution_depths
    has_integrity events_bind decide TopologySnapshot-discrete usage_matches sum_usage
    completion_satisfied semantic_state_hash semantics_of cycle_projection_hash replay_loop
start_run = refl

Run-start : Run platform_example session_example 0 start_example
Run-start = Run.start start_run

abbrev usage_example : Resources
usage_example = record zero_usage { tokens = 10 }

start-going : is_some (evaluate_termination platform_example start_example) ≡ false
unfolding evaluate_termination termination_reason summarize with_hashes start_state cycle_of
    cycle_projection_hash accumulate sorted eligible_peer_ids
start-going = refl

start-expected :
    is_expected platform_example session_example start_example first_request first_contribution
    ≡ true
unfolding is_expected next_peer evaluate_termination termination_reason summarize with_hashes
    start_state cycle_of cycle_projection_hash accumulate sorted eligible_peer_ids
start-expected = refl

may_exchange :
    MayExchange platform_example start_example first_request first_contribution usage_example 0
unfolding with_hashes is_expected start_state has_declared_uses require_parents contribution_depths
    is_affordable remaining accumulate usage_matches add_usage
may_exchange = record {
  going = start-going;
  expected = start-expected;
  uses = refl;
  parents = refl;
  affordable = refl;
  fresh = refl;
}

advanced :
    (s : CollaborationState) × (advance_collaboration platform_example session_example start_example
        first_request first_contribution usage_example
      ≡ some s)
advanced =
    ((Run-steps_iff platform_example session_example Run-start).0 first_request first_contribution
        usage_example).1
      (0, may_exchange)

abbrev after_example : CollaborationState
after_example = advanced.0

Run-exchange : Run platform_example session_example 1 after_example
Run-exchange = Run.exchange first_request first_contribution usage_example Run-start advanced.1

Run-bounded_example : (1 ≤ 5) × (has_integrity platform_example after_example ≡ true)
Run-bounded_example = Run-bounded platform_example session_example Run-exchange

-- No peer may contribute more than half, and so there is no second contribution.
Run-single_example : length after_example.contributions ≤ 1
Run-single_example = Run-single platform_example session_example (omega arith) Run-exchange

Run-steps_example :
    ((r : PeerRequest) (c : PeerContribution) (u : Resources)
      → ((s' : CollaborationState) × (advance_collaboration platform_example session_example
              after_example r c u
            ≡ some s'))
        ↔ ((depth : ℕ) × MayExchange platform_example after_example r c u depth))
    × ((event : TopologyEvent)
        → ((s' : CollaborationState) × (apply_topology_event platform_example session_example
                after_example event
              ≡ some s'))
          ↔ ((after : TopologySnapshot) × MayRearrange platform_example after_example event after))
Run-steps_example = Run-steps_iff platform_example session_example Run-exchange

-- The third peer is active only between the two events.
abbrev trio : CollaborationSession
trio = record session_example { peers = person "alice" ∷ person "bob" ∷ person "carol" ∷ [] }

abbrev carol_event : TopologyOperation → TopologyEvent
carol_event operation = record {
  event_id = "event";
  session_id = "session-1";
  sequence = 1;
  before_topology_hash = "";
  operation = operation;
  peer_id = some "carol";
  edge = none;
  reason_code = "review";
  after_topology_hash = "";
  content_hash = "";
}

abbrev with_carol : TopologySnapshot
with_carol = record {
  active_peer_ids = "alice" ∷ "bob" ∷ "carol" ∷ [];
  enabled_edges = topology_example.enabled_edges;
  content_hash =
      hash_of platform_example
        (topology_json ("alice" ∷ "bob" ∷ "carol" ∷ []) topology_example.enabled_edges);
}

activation_run :
    apply_topology_operation platform_example trio topology_example
      (carol_event TopologyOperation.activate_peer)
    ≡ some with_carol
unfolding apply_topology_operation sorted
activation_run = refl

topology-IsSnapshot : IsSnapshot platform_example topology_example
unfolding is_snapshot sorted
topology-IsSnapshot = record { valid = refl; addressed = refl }

apply_topology_operation-undone_example :
    apply_topology_operation platform_example trio with_carol
      (carol_event TopologyOperation.deactivate_peer)
    ≡ some topology_example
apply_topology_operation-undone_example =
    apply_topology_operation-undone platform_example trio topology_example with_carol
      (carol_event TopologyOperation.activate_peer) (carol_event TopologyOperation.deactivate_peer)
      "carol" topology-IsSnapshot (refl, refl) (refl, refl) activation_run
