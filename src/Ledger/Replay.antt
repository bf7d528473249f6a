-- ===== src/Ledger/Replay.antt =====
-- The coordinator on a proposal that is submitted a second time.
use super_scientist_orchestr.Prelude.{
  ℕ, String, ◌≡◌, ap, ◌∙◌, inl, inr, true, Option, none, some, [], ◌∷◌, ◌++◌, arith, Bool-cases,
  ◌==◌, ◌!=◌, ==_refl, nat_eq, string_eq, option_eq, list_eq,
}
use super_scientist_orchestr.Admission.Proposals.{
  TransactionDecision, Proposal, proposal_id, idempotency_key,
}
use super_scientist_orchestr.Ledger.{
  PolicySnapshot, Ledger, Environment, find, get_by_idempotency_key, get_by_proposal_id,
  hash_proposal,
}
use super_scientist_orchestr.Ledger.Submission.{resubmit, refuse_policy, submit_new, submit_locked}
use super_scientist_orchestr.Ledger.Rows.{find-append, row, Stores, Stores-start, Stores-admit}

module _ (env : Environment) (p : Proposal) (fp : Option String) (at now : ℕ) (ledger : Ledger)
    (policy : PolicySnapshot) (new_key : get_by_idempotency_key (idempotency_key p) ledger ≡ none)
    (new_id : get_by_proposal_id (proposal_id p) ledger ≡ none) where
  -- A new proposal adds its row, whether or not the stored policy is the configured one.
  Stores-submit_new :
      Stores env p fp at now ledger (submit_new env p fp at now ledger (some policy))
  unfolding submit_new refuse_policy
  Stores-submit_new = elim (Bool-cases (policy.policy_hash != env.configured.policy_hash)) [
    | inl other ↦ rw (other, refuse_policy, new_id) (Stores-start env p fp at now ledger _ policy)
    | inr same ↦ rw (same, new_id) (Stores-admit env p fp at now ledger policy)
  ]

  -- The row is found by the key afterwards.
  found_row :
      (d : TransactionDecision) (after : Ledger)
      → after.transactions ≡ ledger.transactions ++ (row env p fp at now ledger d ∷ [])
      → get_by_idempotency_key (idempotency_key p) after ≡ some (row env p fp at now ledger d)
  found_row d after e =
      ap (find (λ t. idempotency_key t.proposal == idempotency_key p)) e
      ∙ find-append (λ t. idempotency_key t.proposal == idempotency_key p) ledger.transactions
          (row env p fp at now ledger d) new_key (==_refl (idempotency_key p))

resubmit-row :
    (env : Environment) (p : Proposal) (fp : Option String) (at now now' : ℕ)
    (ledger after : Ledger) (d : TransactionDecision) (policy : Option PolicySnapshot)
    → resubmit env p fp (row env p fp at now ledger d) now' after policy
      ≡ some (record d { replayed = true }, after)
unfolding resubmit
resubmit-row env p fp at now now' ledger after d policy =
    rw (==_refl (hash_proposal env p), ==_refl fp)

-- If the submission of a proposal of the kernel, or of an invalid one, returns, where its key and its
-- identifier are new to the ledger and a policy is active, then a later submission of it with the same
-- intent gets the same decision, marked as replayed, and the ledger stays as the first one left it.
-- The routing of proposals of other kinds, where the model returns nothing, is not covered.
pub submit_locked-replays :
    (env : Environment) (ledger after : Ledger) (p : Proposal) (fingerprint : Option String)
    (created_at now created_at' now' : ℕ) (decision : TransactionDecision) (policy : PolicySnapshot)
    → get_by_idempotency_key (idempotency_key p) ledger ≡ none
    → get_by_proposal_id (proposal_id p) ledger ≡ none
    → ledger.active ≡ some policy
    → submit_locked env p fingerprint created_at now ledger ≡ some (decision, after)
    → submit_locked env p fingerprint created_at' now' after
      ≡ some (record decision { replayed = true }, after)
unfolding submit_locked
submit_locked-replays env ledger after p fp at now at' now' d policy new_key new_id active made =
    rw (submit_locked, found) (resubmit-row env p fp at now now' ledger after d after.active)
  where
    first : submit_new env p fp at now ledger (some policy) ≡ some (d, after)
    first = ground (arith, new_key, active, made)

    found : get_by_idempotency_key (idempotency_key p) after ≡ some (row env p fp at now ledger d)
    found =
        found_row env p fp at now ledger policy new_key new_id d after
          (Stores-submit_new env p fp at now ledger policy new_key new_id d after first)
