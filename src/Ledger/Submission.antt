-- ===== src/Ledger/Submission.antt =====
-- `TransactionCoordinator._submit_locked`, for the proposals of the kernel and for invalid ones. The
-- kinds of proposal that other handlers carry through are not modelled: where the coordinator would
-- route one of them, `submit_locked` is `none`, as on an exception, which leaves the ledger as it was.
use super_scientist_orchestr.Prelude.{
  ◌>>=◌, ℕ, String, ◌⊎◌, inl, inr, true, ◌||◌, Option, none, some, [], ◌∷◌, if◌then◌else◌, ◌!=◌,
  nat_eq, string_eq, option_eq, list_eq, join,
}
use super_scientist_orchestr.Evidence.{VerificationState, EvidenceRecord}
use super_scientist_orchestr.Admission.Proposals.{
  RejectionCode, TransactionDecision, Proposal, proposal_id, idempotency_key,
}
use super_scientist_orchestr.Admission.{rejected, decide_valid}
use super_scientist_orchestr.Ledger.Governed.{
  attempted_governed_kind, governed_handler_failure_decision,
}
use super_scientist_orchestr.Ledger.{
  PolicySnapshot, StoredTransaction, Ledger, Environment, get_by_idempotency_key,
  get_by_proposal_id, build_context, project, hash_proposal, add_transaction, audit_decision,
}

-- What a submission gives: the decision, and the ledger after it.
abbrev pub Result : Type 0
Result = Option (TransactionDecision × Ledger)

-- `expected_hash_verified_evidence`
abbrev pub verified_state : VerificationState → EvidenceRecord → EvidenceRecord ⊎ String
verified_state VerificationState.unverified evidence =
    inl (record evidence { verification_state = VerificationState.hash_verified })
verified_state _ evidence = inr "submitted evidence must be unverified"

-- `_verified_evidence_proposal`: the proposal that is admitted, or the error.
abbrev pub verified_evidence : Option String → EvidenceRecord → EvidenceRecord ⊎ String
verified_evidence (some error) evidence = inr error
verified_evidence none evidence = verified_state evidence.verification_state evidence

module _ (env : Environment) where
  open env use {configured, artifact_error}

  -- `repositories.transactions.add` and `_audit`, behind the writes of the handler.
  unfoldable pub store :
      Proposal
      → TransactionDecision
      → PolicySnapshot
      → Option String
      → ℕ
      → ℕ
      → Option Ledger
      → Result
  store proposal decision policy fingerprint created_at now ledger =
      ledger
      >>= add_transaction env proposal decision fingerprint created_at
      >>= audit_decision env proposal decision policy fingerprint now
      >>= (λ after. some (decision, after))

  -- `_audit` alone.
  unfoldable pub audit_only :
      Proposal → TransactionDecision → PolicySnapshot → Option String → ℕ → Ledger → Result
  audit_only proposal decision policy fingerprint now ledger =
      audit_decision env proposal decision policy fingerprint now ledger
      >>= (λ after. some (decision, after))

  -- The idempotency key is known.
  unfoldable pub resubmit :
      Proposal → Option String → StoredTransaction → ℕ → Ledger → Option PolicySnapshot → Result
  unfolding audit_only hash_proposal rejected
  resubmit proposal fingerprint prior now ledger stored_policy =
      let conflict =
        rejected (proposal_id proposal) RejectionCode.idempotency_conflict
          "idempotency key was reused with different proposal content" in
      if prior.proposal_hash != hash_proposal env proposal
        || prior.intent_fingerprint != fingerprint
      then elim stored_policy [
        | none ↦ some (conflict, ledger)
        | some policy ↦ audit_only proposal conflict policy fingerprint now ledger
      ]
      else some (record prior.decision { replayed = true }, ledger)

  -- The stored policy is not the configured one.
  unfoldable pub refuse_policy :
      Proposal → Option String → ℕ → ℕ → Ledger → Option PolicySnapshot → Result
  unfolding store audit_only rejected
  refuse_policy proposal fingerprint created_at now ledger stored_policy =
      let decision =
        rejected (proposal_id proposal) RejectionCode.policy_hash_mismatch
          "stored active policy does not match the configured policy snapshot" in
      elim stored_policy [
        | none ↦ some (decision, ledger)
        | some policy ↦ elim (get_by_proposal_id (proposal_id proposal) ledger) [
          | none ↦ store proposal decision policy fingerprint created_at now (some ledger)
          | some existing ↦ audit_only proposal decision policy fingerprint now ledger
        ]
      ]

  -- The engine decides on the proposal that is admitted, and the handler writes what it accepts.
  unfoldable pub carry_through :
      (stored admitted : Proposal) → PolicySnapshot → Option String → ℕ → ℕ → Ledger → Result
  unfolding store build_context decide_valid
  carry_through stored admitted policy fingerprint created_at now ledger =
      let decision = decide_valid admitted (build_context policy ledger) in
      store stored decision policy fingerprint created_at now
        (if decision.accepted then project admitted ledger else some ledger)

  -- The evidence of a proposal is verified before the engine sees it. An invalid proposal reaches the
  -- engine unless it was meant to be of a governed kind, which is refused outright.
  unfoldable pub admit : Proposal → PolicySnapshot → Option String → ℕ → ℕ → Ledger → Result
  unfolding carry_through store rejected attempted_governed_kind governed_handler_failure_decision
  admit (Proposal.add_evidence e evidence) policy fingerprint created_at now ledger =
      elim (verified_evidence (artifact_error evidence) evidence) [
        | inl verified ↦
            carry_through (Proposal.add_evidence e evidence) (Proposal.add_evidence e verified)
              policy fingerprint created_at now ledger
        | inr error ↦
            store (Proposal.add_evidence e evidence)
              (rejected e.proposal_id RejectionCode.evidence_hash_mismatch
                (join ("evidence artifact verification failed: " ∷ error ∷ [])))
              policy fingerprint created_at now (some ledger)
      ]
  admit (Proposal.unsupported e kind) policy fingerprint created_at now ledger = none
  admit (Proposal.propose_claim e c) policy fingerprint created_at now ledger =
      carry_through (Proposal.propose_claim e c) (Proposal.propose_claim e c) policy fingerprint
        created_at now ledger
  admit (Proposal.transition_claim e c) policy fingerprint created_at now ledger =
      carry_through (Proposal.transition_claim e c) (Proposal.transition_claim e c) policy
        fingerprint created_at now ledger
  admit (Proposal.invalid p) policy fingerprint created_at now ledger =
      elim (attempted_governed_kind p) [
        | none ↦
            carry_through (Proposal.invalid p) (Proposal.invalid p) policy fingerprint created_at
              now ledger
        | some kind ↦
            store (Proposal.invalid p) (governed_handler_failure_decision p.proposal_id kind) policy
              fingerprint created_at now (some ledger)
      ]

  -- The checks of a new idempotency key.
  unfoldable pub submit_new :
      Proposal → Option String → ℕ → ℕ → Ledger → Option PolicySnapshot → Result
  unfolding refuse_policy audit_only admit rejected
  submit_new proposal fingerprint created_at now ledger none =
      refuse_policy proposal fingerprint created_at now ledger none
  submit_new proposal fingerprint created_at now ledger (some policy) =
      if policy.policy_hash != configured.policy_hash
      then refuse_policy proposal fingerprint created_at now ledger (some policy)
      else elim (get_by_proposal_id (proposal_id proposal) ledger) [
        | some existing ↦
            audit_only proposal
              (rejected (proposal_id proposal) RejectionCode.entity_already_exists
                "proposal id already exists")
              policy fingerprint now ledger
        | none ↦ admit proposal policy fingerprint created_at now ledger
      ]

  -- `created_at` and `now` are what the clock says when the transaction and the event are made.
  unfoldable pub submit_locked : Proposal → Option String → ℕ → ℕ → Ledger → Result
  unfolding resubmit submit_new
  submit_locked proposal fingerprint created_at now ledger =
      elim (get_by_idempotency_key (idempotency_key proposal) ledger) [
        | some prior ↦ resubmit proposal fingerprint prior now ledger ledger.active
        | none ↦ submit_new proposal fingerprint created_at now ledger ledger.active
      ]
