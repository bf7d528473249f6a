-- ===== src/Ledger/Preserved.antt =====
-- A property of ledgers that every write keeps is kept by every submission.
use super_scientist_orchestr.Prelude.{
  bind_inv, some_inj, ◌>>=◌, ℕ, String, ◌≡◌, refl, ap, subst, ◌⊎◌, inl, inr, Bool, true, false,
  ◌||◌, Option, none, some, [], ◌∷◌, if◌then◌else◌, ◌!=◌, nat_eq, string_eq, option_eq, list_eq,
  join,
}
use super_scientist_orchestr.Evidence.{EvidenceRecord}
use super_scientist_orchestr.Admission.Proposals.{
  RejectionCode, TransactionDecision, Proposal, proposal_id, idempotency_key,
}
use super_scientist_orchestr.Admission.{decide_valid, rejected}
use super_scientist_orchestr.Ledger.{
  PolicySnapshot, StoredTransaction, Ledger, Environment, get_by_idempotency_key,
  get_by_proposal_id, build_context, project, hash_proposal, add_transaction, audit_decision,
}
use super_scientist_orchestr.Ledger.Governed.{attempted_governed_kind}
use super_scientist_orchestr.Ledger.Submission.{
  Result, verified_evidence, store, audit_only, resubmit, refuse_policy, carry_through, admit,
  submit_new, submit_locked,
}

-- Each of the three kinds of write keeps the property; the handler writes only what the engine
-- accepts.
pub record IsKept (env : Environment) (P : Ledger → Type 0) : Type 0 where
  pub audited :
      (p : Proposal) (d : TransactionDecision) (policy : PolicySnapshot) (fp : Option String)
      (now : ℕ) (before after : Ledger)
      → audit_decision env p d policy fp now before ≡ some after
      → P before
      → P after
  pub added :
      (p : Proposal) (d : TransactionDecision) (fp : Option String) (at : ℕ) (before after : Ledger)
      → add_transaction env p d fp at before ≡ some after
      → P before
      → P after
  pub projected :
      (p : Proposal) (policy : PolicySnapshot) (before after : Ledger)
      → (decide_valid p (build_context policy before)).accepted ≡ true
      → project p before ≡ some after
      → P before
      → P after

module _ (env : Environment) (P : Ledger → Type 0) (kept : IsKept env P) where
  -- The property holds of the ledger that a result leaves.
  abbrev Leaves : Result → Type 0
  Leaves result = (d : TransactionDecision) (after : Ledger) → result ≡ some (d, after) → P after

  Leaves-same : (d : TransactionDecision) (ledger : Ledger) → P ledger → Leaves (some (d, ledger))
  Leaves-same d ledger h e after same = subst P (ap (λ r. r.1) (some_inj same)) h

  Leaves-audit_only :
      (p : Proposal) (d : TransactionDecision) (policy : PolicySnapshot) (fp : Option String)
      (now : ℕ) (ledger : Ledger)
      → P ledger
      → Leaves (audit_only env p d policy fp now ledger)
  unfolding audit_only
  Leaves-audit_only p d policy fp now ledger h e after made =
      let (l, first, last) = bind_inv (audit_decision env p d policy fp now ledger) _ made in
      Leaves-same d l (kept.audited p d policy fp now ledger l first h) e after last

  Leaves-store :
      (p : Proposal) (d : TransactionDecision) (policy : PolicySnapshot) (fp : Option String)
      (at now : ℕ) (ledger : Option Ledger)
      → ((l : Ledger) → ledger ≡ some l → P l)
      → Leaves (store env p d policy fp at now ledger)
  unfolding store
  Leaves-store p d policy fp at now none h e after made = cc
  Leaves-store p d policy fp at now (some start) h e after made =
      let (l, first, rest) =
        bind_inv (add_transaction env p d fp at start >>= audit_decision env p d policy fp now) _
          made in
      let (m, one, two) = bind_inv (add_transaction env p d fp at start) _ first in
      Leaves-same d l
        (kept.audited p d policy fp now m l two (kept.added p d fp at start m one (h start refl))) e
        after rest

  -- A branch on a test or on a value that may be missing.
  Leaves-if : (t : Bool) (x y : Result) → Leaves x → Leaves y → Leaves (if t then x else y)
  Leaves-if true x y hx hy = hx
  Leaves-if false x y hx hy = hy

  Leaves-option :
      {A : Type 0} (o : Option A) (x : Result) (y : A → Result)
      → Leaves x
      → ((a : A) → Leaves (y a))
      → Leaves (elim o [ none ↦ x | some a ↦ y a ])
  Leaves-option none x y hx hy = hx
  Leaves-option (some a) x y hx hy = hy a

  module _ (fp : Option String) (at now : ℕ) (ledger : Ledger) (h : P ledger) where
    Leaves-start :
        (p : Proposal) (d : TransactionDecision) (policy : PolicySnapshot)
        → Leaves (store env p d policy fp at now (some ledger))
    Leaves-start p d policy =
        Leaves-store p d policy fp at now (some ledger) (λ l e. subst P (some_inj e) h)

    Leaves-resubmit :
        (p : Proposal) (prior : StoredTransaction) (policy : Option PolicySnapshot)
        → Leaves (resubmit env p fp prior now ledger policy)
    unfolding resubmit
    Leaves-resubmit p prior policy =
        Leaves-if (prior.proposal_hash != hash_proposal env p || prior.intent_fingerprint != fp) _ _
          (Leaves-option policy _ _ (Leaves-same _ ledger h)
            (λ stored. Leaves-audit_only p _ stored fp now ledger h))
          (Leaves-same _ ledger h)

    Leaves-refuse_policy :
        (p : Proposal) (policy : Option PolicySnapshot)
        → Leaves (refuse_policy env p fp at now ledger policy)
    unfolding refuse_policy
    Leaves-refuse_policy p policy = Leaves-option policy _ _ (Leaves-same _ ledger h) (λ stored.
        Leaves-option (get_by_proposal_id (proposal_id p) ledger) _ _ (Leaves-start p _ stored)
          (λ existing. Leaves-audit_only p _ stored fp now ledger h))

    Leaves-carry_through :
        (p admitted : Proposal) (policy : PolicySnapshot)
        → Leaves (carry_through env p admitted policy fp at now ledger)
    unfolding carry_through
    Leaves-carry_through p admitted policy =
        Leaves-store p _ policy fp at now _
          (written (decide_valid admitted (build_context policy ledger)).accepted refl)
      where
        written :
            (accepted : Bool)
            → (decide_valid admitted (build_context policy ledger)).accepted ≡ accepted
            → (l : Ledger) → (if accepted then project admitted ledger else some ledger) ≡ some l
            → P l
        written true yes' l e = kept.projected admitted policy ledger l yes' e h
        written false no' l e = subst P (some_inj e) h

    Leaves-admit :
        (p : Proposal) (policy : PolicySnapshot) → Leaves (admit env p policy fp at now ledger)
    unfolding admit
    Leaves-admit (Proposal.add_evidence e evidence) policy =
        verified (verified_evidence (env.artifact_error evidence) evidence)
      where
        verified :
            (v : EvidenceRecord ⊎ String)
            → Leaves (elim v [
              | inl record' ↦
                  carry_through env
                    (Proposal.add_evidence e evidence)
                    (Proposal.add_evidence e record')
                    policy
                    fp
                    at
                    now
                    ledger
              | inr error ↦
                  store env
                    (Proposal.add_evidence e evidence)
                    (rejected e.proposal_id RejectionCode.evidence_hash_mismatch
                      (join ("evidence artifact verification failed: " ∷ error ∷ [])))
                    policy
                    fp
                    at
                    now
                    (some ledger)
            ])
        verified (inl record') =
            Leaves-carry_through (Proposal.add_evidence e evidence)
              (Proposal.add_evidence e record') policy
        verified (inr error) = Leaves-start (Proposal.add_evidence e evidence) _ policy
    Leaves-admit (Proposal.unsupported e kind) policy = λ d after made. cc
    Leaves-admit (Proposal.propose_claim e c) policy =
        Leaves-carry_through (Proposal.propose_claim e c) (Proposal.propose_claim e c) policy
    Leaves-admit (Proposal.transition_claim e c) policy =
        Leaves-carry_through (Proposal.transition_claim e c) (Proposal.transition_claim e c) policy
    Leaves-admit (Proposal.invalid p) policy =
        Leaves-option (attempted_governed_kind p) _ _
          (Leaves-carry_through (Proposal.invalid p) (Proposal.invalid p) policy)
          (λ kind. Leaves-start (Proposal.invalid p) _ policy)

    Leaves-submit_new :
        (p : Proposal) (policy : Option PolicySnapshot)
        → Leaves (submit_new env p fp at now ledger policy)
    unfolding submit_new
    Leaves-submit_new p none = Leaves-refuse_policy p none
    Leaves-submit_new p (some policy) =
        Leaves-if (policy.policy_hash != env.configured.policy_hash) _ _
          (Leaves-refuse_policy p (some policy))
          (Leaves-option (get_by_proposal_id (proposal_id p) ledger) _ _ (Leaves-admit p policy)
            (λ existing. Leaves-audit_only p _ policy fp now ledger h))

    pub submit_locked-kept : (p : Proposal) → Leaves (submit_locked env p fp at now ledger)
    unfolding submit_locked
    submit_locked-kept p =
        Leaves-option (get_by_idempotency_key (idempotency_key p) ledger) _ _
          (Leaves-submit_new p ledger.active) (λ prior. Leaves-resubmit p prior ledger.active)
