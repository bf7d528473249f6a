-- ===== src/Ledger/Writes.antt =====
-- What each write to the ledger changes.
use super_scientist_orchestr.Prelude.{
  bind_inv, some_inj, ℕ, String, ◌≡◌, sym, ap, inl, inr, Option, some, ◌∷◌, arith, Bool-cases, ◌!=◌,
  nat_eq, string_eq, option_eq, list_eq, lookup,
}
use super_scientist_orchestr.Admission.Proposals.{TransactionDecision, Proposal, proposal_id}
use super_scientist_orchestr.Claim.{AtomicClaim}
use super_scientist_orchestr.Ledger.{
  PolicySnapshot, Ledger, Environment, add_version, project, may_follow, by_claim_id,
  add_transaction, audit_payload, audit_decision,
}
use super_scientist_orchestr.Audit.{append_event}
use super_scientist_orchestr.Audit.Growth.{latest}

pub versions-add_version :
    (c : AtomicClaim) (before after : Ledger)
    → add_version c before ≡ some after
    → after.versions ≡ c ∷ before.versions
unfolding add_version
versions-add_version c before after e =
    elim (Bool-cases (may_follow c (lookup c.claim_id (by_claim_id before.versions)))) [
      | inl follows ↦ ground arith
      | inr breaks ↦ absurd (ground arith)
    ]

audit-add_version :
    (c : AtomicClaim) (before after : Ledger)
    → add_version c before ≡ some after
    → after.audit ≡ before.audit
unfolding add_version
audit-add_version c before after e =
    elim (Bool-cases (may_follow c (lookup c.claim_id (by_claim_id before.versions)))) [
      | inl follows ↦ ground arith
      | inr breaks ↦ absurd (ground arith)
    ]

pub audit-project :
    (p : Proposal) (before after : Ledger)
    → project p before ≡ some after
    → after.audit ≡ before.audit
unfolding project
audit-project (Proposal.add_evidence e v) before after h =
    ap (λ (l : Ledger). l.audit) (sym (some_inj h))
audit-project (Proposal.propose_claim e c) before after h = audit-add_version c before after h
audit-project (Proposal.transition_claim e c) before after h = audit-add_version c before after h
audit-project (Proposal.unsupported e k) before after h = cc
audit-project (Proposal.invalid p) before after h = cc

pub add_transaction-same :
    (env : Environment) (p : Proposal) (d : TransactionDecision) (fp : Option String) (at : ℕ)
    (before after : Ledger)
    → add_transaction env p d fp at before ≡ some after
    → (after.audit ≡ before.audit) × (after.versions ≡ before.versions)
unfolding add_transaction
add_transaction-same env p d fp at before after e =
    elim (Bool-cases (d.proposal_id != proposal_id p)) [
      | inl other ↦ absurd (ground arith)
      | inr own ↦ ground arith
    ]

pub versions-audit_decision :
    (env : Environment) (p : Proposal) (d : TransactionDecision) (policy : PolicySnapshot)
    (fp : Option String) (now : ℕ) (before after : Ledger)
    → audit_decision env p d policy fp now before ≡ some after
    → after.versions ≡ before.versions
unfolding audit_decision
versions-audit_decision env p d policy fp now before after e =
    let (event, made, same) =
      bind_inv
        (append_event env.digests (latest before.audit) "transaction_decision"
          (audit_payload env p d policy fp before) now)
        _ e in
    ap (λ (l : Ledger). l.versions) (sym (some_inj same))
