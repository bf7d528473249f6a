-- ===== src/Ledger/Rows.antt =====
-- The row that the submission of a new proposal adds to the transactions.
use super_scientist_orchestr.Prelude.{
  bind_inv, some_inj, ◌>>=◌, ℕ, String, ◌≡◌, refl, sym, ap, ◌∙◌, subst, ◌⊎◌, inl, inr, Bool, true,
  false, Option, none, some, List, [], ◌∷◌, ◌++◌, arith, if◌then◌else◌, Bool-cases, ◌!=◌, nat_eq,
  string_eq, option_eq, list_eq, lookup, join,
}
use super_scientist_orchestr.Claim.{AtomicClaim}
use super_scientist_orchestr.Evidence.{EvidenceRecord}
use super_scientist_orchestr.Admission.Proposals.{
  RejectionCode, TransactionDecision, Proposal, proposal_id,
}
use super_scientist_orchestr.Admission.{rejected, decide_valid}
use super_scientist_orchestr.Audit.{append_event}
use super_scientist_orchestr.Audit.Growth.{latest}
use super_scientist_orchestr.Ledger.{
  PolicySnapshot, StoredTransaction, Ledger, Environment, find, build_context, add_version, project,
  may_follow, by_claim_id, hash_proposal, add_transaction, audit_payload, audit_decision,
}
use super_scientist_orchestr.Ledger.Governed.{
  attempted_governed_kind, governed_handler_failure_decision,
}
use super_scientist_orchestr.Ledger.Submission.{
  Result, verified_evidence, store, carry_through, admit,
}

pub find-append :
    (p : StoredTransaction → Bool) (ts : List StoredTransaction) (t : StoredTransaction)
    → find p ts ≡ none
    → p t ≡ true
    → find p (ts ++ (t ∷ [])) ≡ some t
find-append p [] t h yes' = ground arith
find-append p (s ∷ ss) t h yes' = elim (Bool-cases (p s)) [
  | inl here ↦ absurd (ground arith)
  | inr there ↦ ground (arith, find-append p ss t)
]

transactions-add_version :
    (c : AtomicClaim) (before after : Ledger)
    → add_version c before ≡ some after
    → after.transactions ≡ before.transactions
unfolding add_version
transactions-add_version c before after e =
    elim (Bool-cases (may_follow c (lookup c.claim_id (by_claim_id before.versions)))) [
      | inl follows ↦ ground arith
      | inr breaks ↦ absurd (ground arith)
    ]

transactions-project :
    (p : Proposal) (before after : Ledger)
    → project p before ≡ some after
    → after.transactions ≡ before.transactions
unfolding project
transactions-project (Proposal.add_evidence e v) before after h =
    ap (λ (l : Ledger). l.transactions) (sym (some_inj h))
transactions-project (Proposal.propose_claim e c) before after h =
    transactions-add_version c before after h
transactions-project (Proposal.transition_claim e c) before after h =
    transactions-add_version c before after h
transactions-project (Proposal.unsupported e k) before after h = cc
transactions-project (Proposal.invalid p) before after h = cc

module _ (env : Environment) (p : Proposal) (fp : Option String) (at now : ℕ)
    (ledger : Ledger) where
  -- The row that a submission adds.
  abbrev pub row : TransactionDecision → StoredTransaction
  row d = record {
    proposal = p;
    proposal_hash = hash_proposal env p;
    intent_fingerprint = fp;
    decision = d;
    created_at = at;
  }

  -- The result, if there is one, has the row of its decision.
  abbrev pub Stores : Result → Type 0
  Stores result =
      (d : TransactionDecision) (after : Ledger)
      → result ≡ some (d, after)
      → after.transactions ≡ ledger.transactions ++ (row d ∷ [])

  transactions-add_transaction :
      (d : TransactionDecision) (before after : Ledger)
      → add_transaction env p d fp at before ≡ some after
      → after.transactions ≡ before.transactions ++ (row d ∷ [])
  unfolding add_transaction
  transactions-add_transaction d before after e =
      elim (Bool-cases (d.proposal_id != proposal_id p)) [
        | inl other ↦ absurd (ground arith)
        | inr own ↦ ground arith
      ]

  transactions-audit_decision :
      (d : TransactionDecision) (policy : PolicySnapshot) (before after : Ledger)
      → audit_decision env p d policy fp now before ≡ some after
      → after.transactions ≡ before.transactions
  unfolding audit_decision
  transactions-audit_decision d policy before after e =
      let (event, made, same) =
        bind_inv
          (append_event env.digests (latest before.audit) "transaction_decision"
            (audit_payload env p d policy fp before) now)
          _ e in
      ap (λ (l : Ledger). l.transactions) (sym (some_inj same))

  Stores-store :
      (d : TransactionDecision) (policy : PolicySnapshot) (start : Option Ledger)
      → ((l : Ledger) → start ≡ some l → l.transactions ≡ ledger.transactions)
      → Stores (store env p d policy fp at now start)
  unfolding store
  Stores-store d policy none h e after made = cc
  Stores-store d policy (some start) h e after made =
      let (l, first, rest) =
        bind_inv (add_transaction env p d fp at start >>= audit_decision env p d policy fp now) _
          made in
      let (m, one, two) = bind_inv (add_transaction env p d fp at start) _ first in
      subst
        (λ (r : TransactionDecision × Ledger).
          r.1.transactions ≡ ledger.transactions ++ (row r.0 ∷ []))
        (some_inj rest)
        (transactions-audit_decision d policy m l two
          ∙ transactions-add_transaction d start m one
          ∙ ap (λ ts. ts ++ (row d ∷ [])) (h start refl))

  pub Stores-start :
      (d : TransactionDecision) (policy : PolicySnapshot)
      → Stores (store env p d policy fp at now (some ledger))
  Stores-start d policy =
      Stores-store d policy (some ledger)
        (λ l e. ap (λ (l : Ledger). l.transactions) (sym (some_inj e)))

  Stores-carry_through :
      (admitted : Proposal) (policy : PolicySnapshot)
      → Stores (carry_through env p admitted policy fp at now ledger)
  unfolding carry_through
  Stores-carry_through admitted policy =
      Stores-store _ policy _
        (written (decide_valid admitted (build_context policy ledger)).accepted)
    where
      written :
          (accepted : Bool) (l : Ledger)
          → (if accepted then project admitted ledger else some ledger) ≡ some l
          → l.transactions ≡ ledger.transactions
      written true l e = transactions-project admitted ledger l e
      written false l e = ap (λ (l : Ledger). l.transactions) (sym (some_inj e))

pub Stores-admit :
    (env : Environment) (p : Proposal) (fp : Option String) (at now : ℕ) (ledger : Ledger)
    (policy : PolicySnapshot)
    → Stores env p fp at now ledger (admit env p policy fp at now ledger)
unfolding admit
Stores-admit env (Proposal.add_evidence e evidence) fp at now ledger policy =
    verified (verified_evidence (env.artifact_error evidence) evidence)
  where
    verified :
        (v : EvidenceRecord ⊎ String)
        → Stores env (Proposal.add_evidence e evidence) fp at now ledger (elim v [
          | inl record' ↦
              carry_through env
                (Proposal.add_evidence e evidence)
                (Proposal.add_evidence e record')
                policy
                fp
                at
                now
                ledger
          | inr error ↦
              store env
                (Proposal.add_evidence e evidence)
                (rejected e.proposal_id RejectionCode.evidence_hash_mismatch
                  (join ("evidence artifact verification failed: " ∷ error ∷ [])))
                policy
                fp
                at
                now
                (some ledger)
        ])
    verified (inl record') =
        Stores-carry_through env (Proposal.add_evidence e evidence) fp at now ledger
          (Proposal.add_evidence e record') policy
    verified (inr error) =
        Stores-start env (Proposal.add_evidence e evidence) fp at now ledger _ policy
Stores-admit env (Proposal.unsupported e kind) fp at now ledger policy = λ d after made. cc
Stores-admit env (Proposal.propose_claim e c) fp at now ledger policy =
    Stores-carry_through env (Proposal.propose_claim e c) fp at now ledger
      (Proposal.propose_claim e c) policy
Stores-admit env (Proposal.transition_claim e c) fp at now ledger policy =
    Stores-carry_through env (Proposal.transition_claim e c) fp at now ledger
      (Proposal.transition_claim e c) policy
Stores-admit env (Proposal.invalid q) fp at now ledger policy = answered (attempted_governed_kind q)
  where
    answered :
        (kind : Option String)
        → Stores env (Proposal.invalid q) fp at now ledger (elim kind [
          | none ↦
              carry_through env (Proposal.invalid q) (Proposal.invalid q) policy fp at now ledger
          | some kind ↦
              store env
                (Proposal.invalid q)
                (governed_handler_failure_decision q.proposal_id kind)
                policy
                fp
                at
                now
                (some ledger)
        ])
    answered none =
        Stores-carry_through env (Proposal.invalid q) fp at now ledger (Proposal.invalid q) policy
    answered (some kind) = Stores-start env (Proposal.invalid q) fp at now ledger _ policy
