-- ===== src/Admission/Transitions.antt =====
-- Which moves of a claim the admission engine lets through.
use super_scientist_orchestr.Prelude.{
  ◌+◌, ◌≡◌, ◌≢◌, ◌⊎◌, true, some, arith, ==_iff, nat_eq, string_eq, option_eq, list_eq,
}
use super_scientist_orchestr.Claim.{
  ClaimStatus, status_eq, link_eq, AtomicClaim, version_id, validate_transition,
}
use super_scientist_orchestr.Drift.{outcome_eq}
use super_scientist_orchestr.Admission.Proposals.{Envelope}
use super_scientist_orchestr.Admission.{AdmissionContext, decide_evidence, decide_move}

-- What every admitted move keeps: the version goes up by one from the recorded head, the proposer
-- signs it, and the content of the claim stays.
pub record IsSuccession (envelope : Envelope) (next current : AtomicClaim) : Type 0 where
  pub version : next.version ≡ current.version + 1
  pub parent : next.parent_version_id ≡ some (version_id current.claim_id current.version)
  pub creator : next.created_by ≡ envelope.proposer.actor_id
  pub proposition : next.proposition ≡ current.proposition
  pub scope : next.scope ≡ current.scope
  pub population : next.population_or_system ≡ current.population_or_system
  pub modality : next.epistemic_modality ≡ current.epistemic_modality
  pub allowed : (validate_transition current.status next.status).is_allowed ≡ true

allowed-ne-proposed :
    (s t : ClaimStatus) → (validate_transition s t).is_allowed ≡ true → t ≢ ClaimStatus.proposed
unfolding validate_transition
allowed-ne-proposed s t h e = ground arith

module _ (envelope : Envelope) (next current : AtomicClaim) (context : AdmissionContext)
    (accepted : (decide_move envelope next current context).accepted ≡ true) where
  pub decide_move-IsSuccession : IsSuccession envelope next current
  unfolding decide_move
  decide_move-IsSuccession = ground (
    arith,
    ==_iff next.created_by envelope.proposer.actor_id,
    ==_iff next.parent_version_id (some (version_id current.claim_id current.version)),
    ==_iff next.proposition current.proposition,
    ==_iff next.scope current.scope,
    ==_iff next.population_or_system current.population_or_system,
    ==_iff next.epistemic_modality current.epistemic_modality,
  )

  -- The two ways in which a move is let through: a withdrawal that changes nothing else, or a move
  -- to a status that rests on the evidence.
  pub decide_move_cases :
      ((next.status ≡ ClaimStatus.withdrawn)
        × (next.assumptions ≡ current.assumptions)
        × (next.evidence_links ≡ current.evidence_links))
      ⊎ (((next.status ≡ ClaimStatus.evidence_linked) ⊎ (next.status ≡ ClaimStatus.testable))
          × ((decide_evidence envelope.proposal_id next current context).accepted ≡ true))
  unfolding decide_move
  decide_move_cases = ground (
    arith,
    ==_iff next.assumptions current.assumptions,
    ==_iff next.evidence_links current.evidence_links,
    allowed-ne-proposed current.status next.status,
  )
