-- ===== src/Admission.antt =====
-- kernel/admission/engine.py: how the admission engine decides a proposal.
pub mod Proposals
pub mod Checks
pub mod Transitions
pub mod Moves
pub mod Decisions
use super_scientist_orchestr.Prelude.{
  if◌then◌else◌, ◌+◌, String, Bool, true, false, not, ◌&&◌, ◌||◌, Option, none, some, List, [], ◌∷◌,
  map, ◌==◌, ◌!=◌, nat_eq, string_eq, option_eq, list_eq, all, any, select, is_empty, contains,
  subset, lookup, join,
}
use super_scientist_orchestr.Identity.{ActorIdentity, are_independent}
use super_scientist_orchestr.Claim.{
  ClaimStatus, status_eq, link_eq, AtomicClaim, version_id, validate_transition,
}
use super_scientist_orchestr.Evidence.{EvidenceRecord}
use super_scientist_orchestr.Drift.{
  CheckOutcome, outcome_eq, CheckResult, EvidenceById, run_deterministic_checks,
}
use super_scientist_orchestr.Admission.Proposals.{
  RejectionCode, TransactionDecision, Approval, Envelope, Proposal, proposal_id, idempotency_key,
}

-- `AdmissionContext`, with the `required_claim_checks` of its policy in place of the policy.
pub record AdmissionContext : Type 0 where
  pub required_claim_checks : List String
  pub evidence_by_id : EvidenceById
  pub claim_by_id : List (String × AtomicClaim)
  pub prior_decision_by_idempotency_key : List (String × TransactionDecision)

unfoldable pub rejected : String → RejectionCode → String → TransactionDecision
rejected id code message = record {
  proposal_id = id;
  accepted = false;
  replayed = false;
  reasons = record { code = code; message = message } ∷ [];
}

-- `TransactionDecision(proposal_id=..., accepted=True)`.
unfoldable pub admitted : String → TransactionDecision
admitted id = record { proposal_id = id; accepted = true; replayed = false; reasons = [] }

unfoldable pub mapping_entity_ids_match : AdmissionContext → Bool
mapping_entity_ids_match context =
    all (λ entry. entry.0 == entry.1.evidence_id) context.evidence_by_id
    && all (λ entry. entry.0 == entry.1.claim_id) context.claim_by_id

unfoldable pub required_checks_pass : List CheckResult → List String → Bool
required_checks_pass checks [] = true
required_checks_pass checks (required_code ∷ required_codes) =
    let matching_checks = select (λ check. check.code == required_code) checks in
    let rest = required_checks_pass checks required_codes in
    if is_empty matching_checks
    then false
    else if any (λ check. not (check.outcome == CheckOutcome.pass_deterministic)) matching_checks
    then false
    else rest

-- The value of a status, for messages.
abbrev pub status_value : ClaimStatus → String
status_value ClaimStatus.proposed = "PROPOSED"
status_value ClaimStatus.evidence_linked = "EVIDENCE_LINKED"
status_value ClaimStatus.testable = "TESTABLE"
status_value ClaimStatus.reproduced = "REPRODUCED"
status_value ClaimStatus.corroborated = "CORROBORATED"
status_value ClaimStatus.constraint_validated = "CONSTRAINT_VALIDATED"
status_value ClaimStatus.falsified = "FALSIFIED"
status_value ClaimStatus.superseded = "SUPERSEDED"
status_value ClaimStatus.withdrawn = "WITHDRAWN"

-- The statuses whose proof is not implemented.
abbrev pub unproved_statuses : List ClaimStatus
unproved_statuses =
    ClaimStatus.reproduced ∷ ClaimStatus.corroborated ∷ ClaimStatus.constraint_validated
    ∷ ClaimStatus.falsified ∷ ClaimStatus.superseded ∷ []

-- `any(getattr(next_claim, field) != getattr(current, field) ...)` over the immutable fields.
abbrev pub content_differs : AtomicClaim → AtomicClaim → Bool
content_differs next current =
    next.proposition != current.proposition
    || next.scope != current.scope
    || next.population_or_system != current.population_or_system
    || next.epistemic_modality != current.epistemic_modality

abbrev pub reason_or : Option String → String → String
reason_or none default = default
reason_or (some reason) default = if reason == "" then default else reason

-- The checks of a move that neither withdraws the claim nor needs a proof.
unfoldable pub decide_evidence :
    String → AtomicClaim → AtomicClaim → AdmissionContext → TransactionDecision
unfolding rejected admitted
decide_evidence id next current context =
    let checks = run_deterministic_checks next context.evidence_by_id in
    if next.status == ClaimStatus.evidence_linked
      && subset next.evidence_links current.evidence_links
    then rejected id RejectionCode.missing_evidence
        "EVIDENCE_LINKED requires at least one new evidence link"
    else if any (λ check. check.outcome == CheckOutcome.fail_deterministic) checks
    then rejected id RejectionCode.missing_evidence "claim evidence checks failed"
    else if any (λ check. check.outcome == CheckOutcome.requires_independent_review) checks
    then rejected id RejectionCode.independent_review_required
        "claim checks require independent review"
    else if not (required_checks_pass checks context.required_claim_checks)
    then rejected id RejectionCode.independent_review_required
        "required policy checks are unresolved"
    else admitted id

-- The rest of `_decide_transition`, once the current version of the claim is found.
unfoldable pub decide_move :
    Envelope → AtomicClaim → AtomicClaim → AdmissionContext → TransactionDecision
unfolding rejected admitted
decide_move envelope next current context =
    let id = envelope.proposal_id in
    let transition = validate_transition current.status next.status in
    if next.version != current.version + 1
    then rejected id RejectionCode.invalid_status_transition
        "next claim version must exactly succeed the current version"
    else if next.parent_version_id != some (version_id current.claim_id current.version)
    then rejected id RejectionCode.invalid_status_transition
        "next claim parent must reference the current version"
    else if next.created_by != envelope.proposer.actor_id
    then rejected id RejectionCode.entity_id_mismatch
        "next claim creator must match the transition proposer"
    else if content_differs next current
    then rejected id RejectionCode.invalid_status_transition
        "claim identity content cannot change during a status transition"
    else if not transition.is_allowed
    then rejected id RejectionCode.invalid_status_transition
        (reason_or transition.reason "invalid transition")
    else if next.status == ClaimStatus.withdrawn
    then (if next.assumptions != current.assumptions
          || next.evidence_links != current.evidence_links
        then rejected id RejectionCode.invalid_status_transition
            "withdrawal may change only status and required lineage metadata"
        else admitted id)
    else if contains unproved_statuses next.status
    then rejected id RejectionCode.independent_review_required
        (join (status_value next.status ∷ " proof is not implemented" ∷ []))
    else decide_evidence id next current context

unfoldable pub decide_transition : Envelope → AtomicClaim → AdmissionContext → TransactionDecision
unfolding rejected
decide_transition envelope next context = elim (lookup next.claim_id context.claim_by_id) [
  | none ↦
      rejected envelope.proposal_id RejectionCode.invalid_status_transition "claim does not exist"
  | some current ↦ decide_move envelope next current context
]

unfoldable pub decide_add_evidence :
    Envelope → EvidenceRecord → AdmissionContext → TransactionDecision
unfolding rejected admitted
decide_add_evidence envelope evidence context =
    if evidence.ingestion_actor_id != envelope.proposer.actor_id
    then rejected envelope.proposal_id RejectionCode.entity_id_mismatch
        "evidence ingestion actor must match the proposal proposer"
    else if contains (map (λ entry. entry.0) context.evidence_by_id) evidence.evidence_id
    then rejected envelope.proposal_id RejectionCode.entity_already_exists "evidence already exists"
    else admitted envelope.proposal_id

unfoldable pub decide_propose_claim :
    Envelope → AtomicClaim → AdmissionContext → TransactionDecision
unfolding rejected admitted
decide_propose_claim envelope claim context =
    if claim.created_by != envelope.proposer.actor_id
    then rejected envelope.proposal_id RejectionCode.entity_id_mismatch
        "claim creator must match the proposal proposer"
    else if contains (map (λ entry. entry.0) context.claim_by_id) claim.claim_id
    then rejected envelope.proposal_id RejectionCode.entity_already_exists "claim already exists"
    else if not (claim.status == ClaimStatus.proposed)
    then rejected envelope.proposal_id RejectionCode.invalid_status_transition
        "new claims must begin in PROPOSED"
    else admitted envelope.proposal_id

abbrev pub depends_on : ActorIdentity → Option Approval → Bool
depends_on proposer none = false
depends_on proposer (some approval) = not (are_independent proposer approval.approver)

-- `proposal.approval and not are_independent(proposal.proposer, proposal.approval.approver)`.
abbrev pub is_self_approved : Envelope → Bool
is_self_approved envelope = depends_on envelope.proposer envelope.approval

-- A proposal that passed the approval check, by its type.
unfoldable pub decide_approved : Envelope → TransactionDecision → TransactionDecision
decide_approved envelope decision =
    if is_self_approved envelope
    then rejected envelope.proposal_id RejectionCode.self_approval
        "proposer and approver must be independent"
    else decision

-- A proposal with no prior decision.
unfoldable pub decide_new : Proposal → AdmissionContext → TransactionDecision
unfolding decide_approved rejected
decide_new (Proposal.invalid p) context =
    rejected p.proposal_id RejectionCode.invalid_proposal p.validation_error
decide_new (Proposal.add_evidence e evidence) context =
    decide_approved e (decide_add_evidence e evidence context)
decide_new (Proposal.propose_claim e claim) context =
    decide_approved e (decide_propose_claim e claim context)
decide_new (Proposal.transition_claim e next) context =
    decide_approved e (decide_transition e next context)
decide_new (Proposal.unsupported e kind) context =
    decide_approved e
      (rejected e.proposal_id RejectionCode.invalid_proposal "unsupported proposal type")

-- `decide` on a proposal and a context that the models accept.
unfoldable pub decide_valid : Proposal → AdmissionContext → TransactionDecision
unfolding decide_new mapping_entity_ids_match
decide_valid proposal context =
    if not (mapping_entity_ids_match context)
    then rejected (proposal_id proposal) RejectionCode.entity_id_mismatch
        "context mapping key does not match contained entity id"
    else elim (lookup (idempotency_key proposal) context.prior_decision_by_idempotency_key) [
      | some prior ↦ record prior { replayed = true }
      | none ↦ decide_new proposal context
    ]

-- `_proposal_id`: the identifier that a value carries, if it is a text with a character in it.
abbrev pub fallback_id : Option String → String
fallback_id none = "invalid-proposal"
fallback_id (some id) = if id == "" then "invalid-proposal" else id

-- `decide`. `none` stands for a value that the models refuse, and `carried` is what reading
-- `proposal_id` off the value gives, where that is a text.
unfoldable pub decide_proposal :
    (carried : Option String) → Option Proposal → Option AdmissionContext → TransactionDecision
unfolding decide_valid rejected
decide_proposal carried (some proposal) (some context) = decide_valid proposal context
decide_proposal carried _ _ =
    rejected (fallback_id carried) RejectionCode.invalid_proposal
      "proposal or admission context is invalid"
