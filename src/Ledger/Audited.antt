-- ===== src/Ledger/Audited.antt =====
-- The audit log of a ledger, as the coordinator appends to it.
use super_scientist_orchestr.Prelude.{
  bind_inv, some_inj, ℕ, String, ◌≡◌, refl, sym, subst, true, Option, some, strip,
}
use super_scientist_orchestr.Admission.Proposals.{TransactionDecision, Proposal}
use super_scientist_orchestr.Audit.{append_event, verify_chain}
use super_scientist_orchestr.Audit.Growth.{latest, append_event-verify_chain}
use super_scientist_orchestr.Ledger.{
  PolicySnapshot, Ledger, Environment, add_transaction, audit_payload, audit_decision,
}
use super_scientist_orchestr.Ledger.Submission.{submit_locked}
use super_scientist_orchestr.Ledger.Writes.{audit-project, add_transaction-same}
use super_scientist_orchestr.Ledger.Preserved.{IsKept, submit_locked-kept}

module _ (env : Environment) where
  abbrev IsVerified : Ledger → Type 0
  IsVerified ledger = (verify_chain env.digests ledger.audit).valid ≡ true

  audit_decision-IsVerified :
      (p : Proposal) (d : TransactionDecision) (policy : PolicySnapshot) (fp : Option String)
      (now : ℕ) (before after : Ledger)
      → audit_decision env p d policy fp now before ≡ some after
      → IsVerified before
      → IsVerified after
  unfolding audit_decision strip
  audit_decision-IsVerified p d policy fp now before after e h =
      let (event, made, same) =
        bind_inv
          (append_event env.digests (latest before.audit) "transaction_decision"
            (audit_payload env p d policy fp before) now)
          _ e in
      subst IsVerified (some_inj same) (
        append_event-verify_chain env.digests before.audit "transaction_decision"
          (audit_payload env p d policy fp before) now {event = event} refl h made)

  add_transaction-IsVerified :
      (p : Proposal) (d : TransactionDecision) (fp : Option String) (at : ℕ) (before after : Ledger)
      → add_transaction env p d fp at before ≡ some after
      → IsVerified before
      → IsVerified after
  add_transaction-IsVerified p d fp at before after e h =
      subst (λ a. (verify_chain env.digests a).valid ≡ true)
        (sym (add_transaction-same env p d fp at before after e).0) h

  IsVerified-IsKept : IsKept env IsVerified
  IsVerified-IsKept = record {
    audited = audit_decision-IsVerified;
    added = add_transaction-IsVerified;
    projected = λ p policy before after yes' e h.
        subst (λ a. (verify_chain env.digests a).valid ≡ true)
          (sym (audit-project p before after e)) h;
  }

-- For a proposal of the kernel (evidence, a claim or a transition) or an invalid one: if its
-- submission returns, on whichever path, a ledger whose audit log verifies is left with an audit log
-- that verifies. The routing of proposals of other kinds, where the model returns nothing, is not
-- covered.
pub submit_locked-verify_chain :
    (env : Environment) (ledger after : Ledger) (p : Proposal) (fingerprint : Option String)
    (created_at now : ℕ) (decision : TransactionDecision)
    → (verify_chain env.digests ledger.audit).valid ≡ true
    → submit_locked env p fingerprint created_at now ledger ≡ some (decision, after)
    → (verify_chain env.digests after.audit).valid ≡ true
submit_locked-verify_chain env ledger after p fingerprint created_at now decision h e =
    submit_locked-kept env (IsVerified env) (IsVerified-IsKept env) fingerprint created_at now
      ledger h p decision after e
