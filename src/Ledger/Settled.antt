-- ===== src/Ledger/Settled.antt =====
-- The claims of a ledger stand in the statuses that the engine can admit.
use super_scientist_orchestr.Prelude.{
  some_inj, ℕ, String, ◌≡◌, sym, subst, ◌⊎◌, inl, inr, true, Option, some, List, [], ◌∷◌, arith,
  nat_eq, string_eq, option_eq, list_eq, All, contains,
}
use super_scientist_orchestr.Claim.{ClaimStatus, status_eq, AtomicClaim}
use super_scientist_orchestr.Admission.Proposals.{TransactionDecision, Proposal, Envelope}
use super_scientist_orchestr.Admission.{
  AdmissionContext, decide_valid, decide_new, decide_approved, decide_propose_claim,
}
use super_scientist_orchestr.Admission.Moves.{decide_transition_iff}
use super_scientist_orchestr.Ledger.{
  PolicySnapshot, Ledger, Environment, build_context, add_version, project,
}
use super_scientist_orchestr.Ledger.Submission.{submit_locked}
use super_scientist_orchestr.Ledger.Writes.{
  versions-add_version, add_transaction-same, versions-audit_decision,
}
use super_scientist_orchestr.Ledger.Preserved.{IsKept, submit_locked-kept}

-- The statuses that a claim can have without a proof by other means.
abbrev pub settled_statuses : List ClaimStatus
settled_statuses =
    ClaimStatus.proposed ∷ ClaimStatus.evidence_linked ∷ ClaimStatus.testable
    ∷ ClaimStatus.withdrawn ∷ []

abbrev pub IsSettled : Ledger → Type 0
IsSettled ledger = All (λ c. contains settled_statuses c.status ≡ true) ledger.versions

-- A proposal that the engine accepts brings a claim in a settled status, if it brings one.
decide_new-settled :
    (e : Envelope) (c : AtomicClaim) (context : AdmissionContext)
    → ((decide_new (Proposal.propose_claim e c) context).accepted ≡ true)
      ⊎ ((decide_new (Proposal.transition_claim e c) context).accepted ≡ true)
    → contains settled_statuses c.status ≡ true
unfolding decide_new decide_approved decide_propose_claim
decide_new-settled e c context (inl h) = ground arith
decide_new-settled e c context (inr h) =
    let (current, found, s, moved) = (decide_transition_iff e c context).0 (ground arith) in
    elim moved [ inl w ↦ ground (arith, w.status) | inr t ↦ ground (arith, t.status) ]

-- In the context that the coordinator builds there is no prior decision.
pub decide_valid-new :
    (p : Proposal) (policy : PolicySnapshot) (ledger : Ledger)
    → (decide_valid p (build_context policy ledger)).accepted ≡ true
    → (decide_new p (build_context policy ledger)).accepted ≡ true
unfolding decide_valid build_context
decide_valid-new p policy ledger h = ground arith

add_version-IsSettled :
    (c : AtomicClaim) (before after : Ledger)
    → contains settled_statuses c.status ≡ true
    → add_version c before ≡ some after
    → IsSettled before
    → IsSettled after
add_version-IsSettled c before after settled e h =
    subst (All (λ c. contains settled_statuses c.status ≡ true))
      (sym (versions-add_version c before after e)) (settled, h)

project-IsSettled :
    (p : Proposal) (policy : PolicySnapshot) (before after : Ledger)
    → (decide_valid p (build_context policy before)).accepted ≡ true
    → project p before ≡ some after
    → IsSettled before
    → IsSettled after
unfolding project
project-IsSettled (Proposal.add_evidence e v) policy before after accepted made h =
    subst IsSettled (some_inj made) h
project-IsSettled (Proposal.propose_claim e c) policy before after accepted made h =
    add_version-IsSettled c before after
      (decide_new-settled e c (build_context policy before)
        (inl (decide_valid-new (Proposal.propose_claim e c) policy before accepted)))
      made h
project-IsSettled (Proposal.transition_claim e c) policy before after accepted made h =
    add_version-IsSettled c before after
      (decide_new-settled e c (build_context policy before)
        (inr (decide_valid-new (Proposal.transition_claim e c) policy before accepted)))
      made h
project-IsSettled (Proposal.unsupported e k) policy before after accepted made h = cc
project-IsSettled (Proposal.invalid p) policy before after accepted made h = cc

IsSettled-IsKept : (env : Environment) → IsKept env IsSettled
IsSettled-IsKept env = record {
  audited = λ p d policy fp now before after e h.
      subst (All (λ c. contains settled_statuses c.status ≡ true))
        (sym (versions-audit_decision env p d policy fp now before after e)) h;
  added = λ p d fp at before after e h.
      subst (All (λ c. contains settled_statuses c.status ≡ true))
        (sym (add_transaction-same env p d fp at before after e).1) h;
  projected = project-IsSettled;
}

-- No submission brings a version of a claim in a status other than PROPOSED, EVIDENCE_LINKED,
-- TESTABLE or WITHDRAWN into a ledger that has none.
pub submit_locked-IsSettled :
    (env : Environment) (ledger after : Ledger) (p : Proposal) (fingerprint : Option String)
    (created_at now : ℕ) (decision : TransactionDecision)
    → IsSettled ledger
    → submit_locked env p fingerprint created_at now ledger ≡ some (decision, after)
    → IsSettled after
submit_locked-IsSettled env ledger after p fingerprint created_at now decision h e =
    submit_locked-kept env IsSettled (IsSettled-IsKept env) fingerprint created_at now ledger h p
      decision after e
