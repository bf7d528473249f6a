-- ===== src/Collaboration.antt =====
-- domain/collaboration/models.py: the records of a collaboration. The field `schema_version`, which
-- is always 1, and the literal `authority` are left out.
pub mod Usage
pub mod Topology
pub mod Termination
pub mod Integrity
pub mod Observation
pub mod Engine
use super_scientist_orchestr.Prelude.{
  ℕ, String, Bool, Option, List, Eq, discrete_eq, eq→discrete, String-discrete, ℕ_discrete, decide,
}
use super_scientist_orchestr.Identity.{ActorIdentity}
use super_scientist_orchestr.Evidence.{ArtifactRef}
use super_scientist_orchestr.Json.{Value}
use super_scientist_orchestr.Audit.{Digests}
use super_scientist_orchestr.Cognition.{CohortPlan}

-- `ResourceBudget` and `ResourceUsage`, which have the same fields, and the fields of
-- `_UsageAccumulator`. A scalar is a number of units of 10^-384, which every float that the models
-- accept is a multiple of.
pub record Resources : Type 0 where
  pub cost_usd : ℕ
  pub compute_units : ℕ
  pub tokens : ℕ
  pub elapsed_seconds : ℕ
  pub tool_calls : ℕ
  pub human_interventions : ℕ

pub record CollaborationCompletionPredicate : Type 0 where
  pub min_contributions : ℕ
  pub required_contribution_kind : Option String

-- `max_peer_contribution_share` is a number of units.
pub record CollaborationBudget : Type 0 where
  pub max_peers : ℕ
  pub max_hops : ℕ
  pub max_contributions : ℕ
  pub max_contributions_per_peer : ℕ
  pub max_topology_changes : ℕ
  pub max_parent_depth : ℕ
  pub max_state_repetitions : ℕ
  pub max_topology_churn : ℕ
  pub max_peer_contribution_share : ℕ
  pub resources : Resources
  pub allowed_tool_ids : List String

pub record TopologySnapshot : Type 0 where
  pub active_peer_ids : List String
  pub enabled_edges : List (String × String)
  pub content_hash : String

unfoldable pub TopologySnapshot-discrete : Discrete TopologySnapshot
unfolding decide String-discrete eq→discrete
TopologySnapshot-discrete = hlevel (String-discrete)

instance abbrev pub topology_eq : Eq TopologySnapshot
topology_eq = discrete_eq TopologySnapshot-discrete

pub data TopologyOperation : Type 0 where
  enable_edge disable_edge activate_peer deactivate_peer : TopologyOperation

pub record TopologyEvent : Type 0 where
  pub event_id : String
  pub session_id : String
  pub sequence : ℕ
  pub before_topology_hash : String
  pub operation : TopologyOperation
  pub peer_id : Option String
  pub edge : Option (String × String)
  pub reason_code : String
  pub after_topology_hash : String
  pub content_hash : String

pub data CollaborationTransitionKind : Type 0 where
  peer_exchange topology_event : CollaborationTransitionKind

pub record CollaborationTransition : Type 0 where
  pub position : ℕ
  pub kind : CollaborationTransitionKind
  pub request_id : Option String
  pub contribution_id : Option String
  pub topology_event_id : Option String

pub record PeerRoleAssignment : Type 0 where
  pub peer_id : String
  pub role_id : String

pub record CollaborationSession : Type 0 where
  pub session_id : String
  pub task_id : String
  pub cohort_plan : CohortPlan
  pub peers : List ActorIdentity
  pub role_assignments : List PeerRoleAssignment
  pub tools : List ActorIdentity
  pub allowed_artifacts : List ArtifactRef
  pub budget : CollaborationBudget
  pub allowed_contribution_kinds : List String
  pub declared_edges : List (String × String)
  pub initial_active_peer_ids : List String
  pub scheduling_policy_version : String
  pub topology_policy_version : String
  pub completion_predicate : CollaborationCompletionPredicate
  pub governing_policy_hash : String
  pub content_hash : String

unfoldable pub ArtifactRef-discrete : Discrete ArtifactRef
unfolding decide String-discrete ℕ_discrete
ArtifactRef-discrete = hlevel (String-discrete, ℕ_discrete)

instance abbrev pub artifact_eq : Eq ArtifactRef
artifact_eq = discrete_eq ArtifactRef-discrete

pub record PeerRequest : Type 0 where
  pub request_id : String
  pub session_id : String
  pub sequence : ℕ
  pub sender_id : Option String
  pub recipient_id : String
  pub requested_capability_id : String
  pub question : String
  pub artifact_refs : List ArtifactRef
  pub parent_contribution_id : Option String
  pub tool_ids : List String
  pub remaining_budget : Resources
  pub content_hash : String

pub record PeerContribution : Type 0 where
  pub contribution_id : String
  pub session_id : String
  pub request_id : String
  pub peer_id : String
  pub parent_contribution_ids : List String
  pub contribution_kind : String
  pub rationale_summary : String
  pub candidate_content : String
  pub artifact_refs : List ArtifactRef
  pub tool_ids : List String
  pub content_hash : String

pub record CollaborationState : Type 0 where
  pub session : CollaborationSession
  pub topology : TopologySnapshot
  pub topology_history : List TopologySnapshot
  pub topology_events : List TopologyEvent
  pub requests : List PeerRequest
  pub contributions : List PeerContribution
  pub usage_history : List Resources
  pub usage : Resources
  pub hop_count : ℕ
  pub scheduling_position : ℕ
  pub transitions : List CollaborationTransition
  pub observed_state_hashes : List String
  pub cycle_projection_hashes : List String
  pub completed : Bool
  pub state_hash : String

-- What lies outside of the models: the digests, `model_dump` of Pydantic without the hash of a state,
-- how many units there are in 1, the float next to a decimal, and the text of a decimal.
pub record Platform : Type 0 where
  pub digests : Digests
  pub dump_session : CollaborationSession → Value
  pub dump_state : CollaborationState → Value
  pub one : ℕ
  pub nearest : ℕ → ℕ
  pub decimal_text : ℕ → String

-- `sha256_hex(canonical_json_bytes(payload))`
abbrev pub hash_of : Platform → Value → String
hash_of platform payload = platform.digests.sha256_hex (platform.digests.canonical_json payload)
