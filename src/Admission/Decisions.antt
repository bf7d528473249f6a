-- ===== src/Admission/Decisions.antt =====
-- What holds of every decision of the admission engine.
use super_scientist_orchestr.Prelude.{
  String, ◌≡◌, refl, inl, inr, true, false, Option, none, some, List, [], ◌∷◌, arith, Bool-cases,
  Option-cases, ◌==◌, nat_eq, string_eq, option_eq, list_eq, All, lookup,
}
use super_scientist_orchestr.Claim.{AtomicClaim}
use super_scientist_orchestr.Admission.Proposals.{
  TransactionDecision, has_valid_reasons, Envelope, Proposal, idempotency_key,
}
use super_scientist_orchestr.Admission.{
  AdmissionContext, mapping_entity_ids_match, decide_evidence, decide_move, decide_transition,
  decide_add_evidence, decide_propose_claim, decide_new, decide_proposal,
}

-- A fresh decision: not replayed, and accepted exactly if it has no reasons.
abbrev IsFresh : TransactionDecision → Type 0
IsFresh d = (has_valid_reasons d ≡ true) × (d.replayed ≡ false)

decide_evidence-IsFresh :
    (id : String) (next current : AtomicClaim) (context : AdmissionContext)
    → IsFresh (decide_evidence id next current context)
unfolding decide_evidence has_valid_reasons
decide_evidence-IsFresh id next current context = ground arith

decide_move-IsFresh :
    (e : Envelope) (next current : AtomicClaim) (context : AdmissionContext)
    → IsFresh (decide_move e next current context)
unfolding decide_move has_valid_reasons
decide_move-IsFresh e next current context =
    ground (arith, decide_evidence-IsFresh e.proposal_id next current context)

decide_transition-IsFresh :
    (e : Envelope) (next : AtomicClaim) (context : AdmissionContext)
    → IsFresh (decide_transition e next context)
unfolding decide_transition has_valid_reasons
decide_transition-IsFresh e next context =
    elim (Option-cases (lookup next.claim_id context.claim_by_id)) [
      | inl absent ↦ rw (absent, decide_transition) (refl, refl)
      | inr (current, found) ↦
          rw (found, decide_transition) (decide_move-IsFresh e next current context)
    ]

decide_new-IsFresh :
    (proposal : Proposal) (context : AdmissionContext) → IsFresh (decide_new proposal context)
unfolding decide_new decide_add_evidence decide_propose_claim has_valid_reasons
decide_new-IsFresh (Proposal.transition_claim e next) context =
    ground (arith, decide_transition-IsFresh e next context)
decide_new-IsFresh (Proposal.invalid p) context = (refl, refl)
decide_new-IsFresh (Proposal.unsupported e k) context = ground arith
decide_new-IsFresh (Proposal.add_evidence e v) context = ground arith
decide_new-IsFresh (Proposal.propose_claim e c) context = ground arith

prior-has_valid_reasons :
    (key : String) (priors : List (String × TransactionDecision)) {prior : TransactionDecision}
    → All (λ entry. has_valid_reasons entry.1 ≡ true) priors
    → lookup key priors ≡ some prior
    → has_valid_reasons prior ≡ true
prior-has_valid_reasons key [] h found = cc
prior-has_valid_reasons key ((k, d) ∷ priors) h found = elim (Bool-cases (key == k)) [
  | inl here ↦ ground arith
  | inr there ↦ prior-has_valid_reasons key priors h.1 (ground arith)
]

-- Every decision of the engine, on any input, is accepted exactly if it has no rejection reason,
-- when the prior decisions that it may replay are.
pub decide_proposal-has_valid_reasons :
    (carried : Option String) (proposal : Option Proposal) (context : Option AdmissionContext)
    → ((c : AdmissionContext)
        → context ≡ some c
        → All (λ entry. has_valid_reasons entry.1 ≡ true) c.prior_decision_by_idempotency_key)
    → has_valid_reasons (decide_proposal carried proposal context) ≡ true
unfolding decide_proposal
decide_proposal-has_valid_reasons carried (some p) (some c) h =
    elim (Bool-cases (mapping_entity_ids_match c)) [
      | inl ids ↦
          elim (Option-cases (lookup (idempotency_key p) c.prior_decision_by_idempotency_key)) [
            | inl fresh ↦ rw (ids, fresh) (decide_new-IsFresh p c).0
            | inr (prior, found) ↦
                rw (ids, found)
                  (unfold has_valid_reasons in
                    prior-has_valid_reasons (idempotency_key p) c.prior_decision_by_idempotency_key
                      (h c refl) found)
          ]
      | inr mismatch ↦ rw mismatch (unfold has_valid_reasons in refl)
    ]
decide_proposal-has_valid_reasons carried none c h = unfold has_valid_reasons in refl
decide_proposal-has_valid_reasons carried (some p) none h = unfold has_valid_reasons in refl

-- The envelope of a proposal, if it has one.
abbrev pub envelope_of : Proposal → Option Envelope
envelope_of (Proposal.add_evidence e _) = some e
envelope_of (Proposal.propose_claim e _) = some e
envelope_of (Proposal.transition_claim e _) = some e
envelope_of (Proposal.unsupported e _) = some e
envelope_of (Proposal.invalid p) = none
