-- ===== src/Admission/Proposals.antt =====
-- kernel/transactions/models.py: proposals and the decisions on them.
use super_scientist_orchestr.Prelude.{
  ℕ, String, Bool, not, ◌&&◌, Option, List, nat_eq, string_eq, option_eq, list_eq, is_empty,
}
use super_scientist_orchestr.Identity.{ActorIdentity}
use super_scientist_orchestr.Claim.{AtomicClaim}
use super_scientist_orchestr.Evidence.{EvidenceRecord}

pub data RejectionCode : Type 0 where
  invalid_proposal entity_id_mismatch entity_already_exists self_approval missing_evidence
        evidence_hash_mismatch invalid_status_transition independent_review_required
        permission_denied idempotency_conflict policy_hash_mismatch missing_entity invalid_lineage
        insufficient_grounding prohibited_closed_loop unmatched_budgets protected_data_access
        stale_handbook_mapping invalid_dependency false_finish circular_evaluator_approval
        benchmark_specific_admission duplicate_rule unresolved_rule_conflict
        experimental_primitive_quarantined derivation_mismatch stale_reference
        collaboration_bound_exceeded invalid_procedure unmatched_evaluation invalid_reward :
      RejectionCode

pub record RejectionReason : Type 0 where
  pub code : RejectionCode
  pub message : String

pub record TransactionDecision : Type 0 where
  pub proposal_id : String
  pub accepted : Bool
  pub replayed : Bool
  pub reasons : List RejectionReason

-- The validator `validate_reason_state`: a decision is accepted exactly if it has no reasons.
unfoldable pub has_valid_reasons : TransactionDecision → Bool
has_valid_reasons decision =
    not (decision.accepted && not (is_empty decision.reasons))
    && not (not decision.accepted && is_empty decision.reasons)

pub record Approval : Type 0 where
  pub approver : ActorIdentity
  pub approved_at : ℕ

-- `ProposalBase`.
pub record Envelope : Type 0 where
  pub proposal_id : String
  pub idempotency_key : String
  pub proposer : ActorIdentity
  pub approval : Option Approval

pub record InvalidProposal : Type 0 where
  pub proposal_id : String
  pub idempotency_key : String
  pub validation_error : String
  pub proposer : Option ActorIdentity
  pub attempted_proposal_kind : Option String

-- The proposals that the admission engine tells apart. `unsupported` is one of any other kind, by
-- the name of its kind: the engine reads nothing of it but its envelope.
pub data Proposal : Type 0 where
  add_evidence : Envelope → EvidenceRecord → Proposal
  propose_claim : Envelope → AtomicClaim → Proposal
  transition_claim : Envelope → AtomicClaim → Proposal
  unsupported : Envelope → String → Proposal
  invalid : InvalidProposal → Proposal

abbrev pub proposal_id : Proposal → String
proposal_id (add_evidence e _) = e.proposal_id
proposal_id (propose_claim e _) = e.proposal_id
proposal_id (transition_claim e _) = e.proposal_id
proposal_id (unsupported e _) = e.proposal_id
proposal_id (invalid p) = p.proposal_id

abbrev pub idempotency_key : Proposal → String
idempotency_key (add_evidence e _) = e.idempotency_key
idempotency_key (propose_claim e _) = e.idempotency_key
idempotency_key (transition_claim e _) = e.idempotency_key
idempotency_key (unsupported e _) = e.idempotency_key
idempotency_key (invalid p) = p.idempotency_key
