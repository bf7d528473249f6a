-- ===== src/Ledger/Returns.antt =====
-- When `_submit_locked` returns a decision and raises no error.
use super_scientist_orchestr.Prelude.{
  ℕ, String, ◌≡◌, refl, ◌∙◌, inl, inr, true, ◌||◌, Option, none, some, arith, Bool-cases, ◌!=◌,
  nat_eq, string_eq, option_eq, list_eq, pair_eq, bool_eq, is_some, pair_eq,
}
use super_scientist_orchestr.Admission.Proposals.{
  RejectionCode, Proposal, proposal_id, idempotency_key,
}
use super_scientist_orchestr.Admission.{rejected, decide_valid}
use super_scientist_orchestr.Ledger.{
  PolicySnapshot, StoredTransaction, Ledger, Environment, get_by_idempotency_key,
  get_by_proposal_id, build_context, hash_proposal,
}
use super_scientist_orchestr.Ledger.Storable.{IsStorable, decide_valid-proposal_id, project-returns}
use super_scientist_orchestr.Ledger.Recorded.{
  IsDumped, returns_if, returns_option, returns_sum, store-returns, audit_only-returns,
}
use super_scientist_orchestr.Ledger.Settled.{decide_valid-new}
use super_scientist_orchestr.Ledger.Governed.{
  attempted_governed_kind, governed_handler_failure_decision,
}
use super_scientist_orchestr.Ledger.Submission.{
  verified_evidence, resubmit, refuse_policy, carry_through, admit, submit_new, submit_locked,
}

module _ (env : Environment) (dumped : IsDumped env) (fp : Option String) (at now : ℕ)
    (ledger : Ledger) where
  resubmit-returns :
      (p : Proposal) (prior : StoredTransaction) (policy : Option PolicySnapshot)
      → is_some (resubmit env p fp prior now ledger policy) ≡ true
  unfolding resubmit rejected
  resubmit-returns p prior policy =
      let conflict =
        rejected (proposal_id p) RejectionCode.idempotency_conflict
          "idempotency key was reused with different proposal content" in
      elim (Bool-cases
        (prior.proposal_hash != hash_proposal env p || prior.intent_fingerprint != fp)) [
          | inl other ↦ rw other (
              returns_option policy _ _ refl
                (λ stored. audit_only-returns env dumped p conflict stored fp now ledger))
          | inr same ↦ rw same refl
        ]

  refuse_policy-returns :
      (p : Proposal) (policy : Option PolicySnapshot)
      → is_some (refuse_policy env p fp at now ledger policy) ≡ true
  unfolding refuse_policy rejected
  refuse_policy-returns p policy = returns_option policy _ _ refl (λ stored.
      returns_option (get_by_proposal_id (proposal_id p) ledger) _ _
        (store-returns env dumped p _ stored fp at now (some ledger) refl refl)
        (λ existing. audit_only-returns env dumped p _ stored fp now ledger))

  carry_through-returns :
      (p q : Proposal) (policy : PolicySnapshot)
      → proposal_id q ≡ proposal_id p
      → IsStorable q
      → is_some (carry_through env p q policy fp at now ledger) ≡ true
  unfolding carry_through
  carry_through-returns p q policy own storable =
      store-returns env dumped p _ policy fp at now _
        (decide_valid-proposal_id q policy ledger ∙ own)
        (elim (Bool-cases (decide_valid q (build_context policy ledger)).accepted) [
          | inl yes' ↦
              rw yes'
                (project-returns q policy ledger storable (decide_valid-new q policy ledger yes'))
          | inr no' ↦ rw no' refl
        ])

  failure-proposal_id :
      (id kind : String) → (governed_handler_failure_decision id kind).proposal_id ≡ id
  unfolding governed_handler_failure_decision rejected
  failure-proposal_id id kind = ground arith

  admit-returns :
      (p : Proposal) (policy : PolicySnapshot)
      → IsStorable p
      → is_some (admit env p policy fp at now ledger) ≡ true
  unfolding admit rejected
  admit-returns (Proposal.add_evidence e evidence) policy storable =
      returns_sum (verified_evidence (env.artifact_error evidence) evidence) _ _
        (λ verified.
          carry_through-returns (Proposal.add_evidence e evidence)
            (Proposal.add_evidence e verified) policy refl tt)
        (λ error.
          store-returns env dumped (Proposal.add_evidence e evidence) _ policy fp at now
            (some ledger) refl refl)
  admit-returns (Proposal.propose_claim e c) policy storable =
      carry_through-returns (Proposal.propose_claim e c) (Proposal.propose_claim e c) policy refl
        storable
  admit-returns (Proposal.transition_claim e c) policy storable =
      carry_through-returns (Proposal.transition_claim e c) (Proposal.transition_claim e c) policy
        refl tt
  admit-returns (Proposal.unsupported e kind) policy storable = elim storable [ ]
  admit-returns (Proposal.invalid p) policy storable =
      returns_option (attempted_governed_kind p) _ _
        (carry_through-returns (Proposal.invalid p) (Proposal.invalid p) policy refl tt)
        (λ kind.
          store-returns env dumped (Proposal.invalid p) _ policy fp at now (some ledger)
            (failure-proposal_id p.proposal_id kind) refl)

  submit_new-returns :
      (p : Proposal) (policy : Option PolicySnapshot)
      → IsStorable p
      → is_some (submit_new env p fp at now ledger policy) ≡ true
  unfolding submit_new
  submit_new-returns p none storable = refuse_policy-returns p none
  submit_new-returns p (some policy) storable =
      returns_if (policy.policy_hash != env.configured.policy_hash) _ _
        (refuse_policy-returns p (some policy))
        (returns_option (get_by_proposal_id (proposal_id p) ledger) _ _
          (admit-returns p policy storable)
          (λ existing. audit_only-returns env dumped p _ policy fp now ledger))

  -- If `model_dump` gives values of JSON, and so do the snapshots of sources, `submit_locked` returns
  -- a decision on every proposal of the kernel and on every invalid one, on any ledger, where a claim
  -- that the proposal introduces has version 1 and no parent. The checks of stored rows, which can
  -- raise errors of their own, are not part of the model.
  pub submit_locked-returns :
      (p : Proposal) → IsStorable p → is_some (submit_locked env p fp at now ledger) ≡ true
  unfolding submit_locked
  submit_locked-returns p storable =
      returns_option (get_by_idempotency_key (idempotency_key p) ledger) _ _
        (submit_new-returns p ledger.active storable)
        (λ prior. resubmit-returns p prior ledger.active)
