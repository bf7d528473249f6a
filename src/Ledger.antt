-- ===== src/Ledger.antt =====
-- application/transactions/coordinator.py: how the coordinator carries a proposal through admission
-- into the ledger, for the proposals of the kernel; and the parts of
-- providers/storage/repositories.py that it writes to.
pub mod Governed
pub mod Submission
pub mod Preserved
pub mod Writes
pub mod Audited
pub mod Settled
pub mod Rows
pub mod Replay
pub mod Storable
pub mod Recorded
pub mod Returns
use super_scientist_orchestr.Prelude.{
  ◌>>=◌, ℕ, ◌+◌, String, Bool, true, false, ◌&&◌, Option, none, some, List, [], ◌∷◌, ◌++◌,
  if◌then◌else◌, ◌==◌, ◌!=◌, nat_eq, string_eq, option_eq, list_eq, any, lookup,
}
use super_scientist_orchestr.Json.{Value, text, mapping, boolean, Items, item, end}
use super_scientist_orchestr.Claim.{AtomicClaim, version_id}
use super_scientist_orchestr.Evidence.{EvidenceRecord}
use super_scientist_orchestr.Admission.Proposals.{
  TransactionDecision, Proposal, proposal_id, idempotency_key,
}
use super_scientist_orchestr.Admission.{AdmissionContext}
use super_scientist_orchestr.Audit.{Digests, AuditEvent, append_event, value_beq}
use super_scientist_orchestr.Audit.Growth.{latest}

-- `PolicySnapshot`, with the `required_claim_checks` of its policy in place of the policy.
pub record PolicySnapshot : Type 0 where
  pub policy_hash : String
  pub required_claim_checks : List String

pub record StoredTransaction : Type 0 where
  pub proposal : Proposal
  pub proposal_hash : String
  pub intent_fingerprint : Option String
  pub decision : TransactionDecision
  pub created_at : ℕ

-- The rows behind the repositories. Claim versions stand newest first, and so the first version of a
-- claim is its head.
pub record Ledger : Type 0 where
  pub policies : List PolicySnapshot
  pub active : Option PolicySnapshot
  pub evidence : List EvidenceRecord
  pub versions : List AtomicClaim
  pub transactions : List StoredTransaction
  pub audit : List AuditEvent

-- What lies outside of the ledger: the digests, `model_dump` of Pydantic, the configured policy, and
-- what the artifact store answers, an error for a binding that fails, and the metadata of the
-- snapshot behind a procedure source.
pub record Environment : Type 0 where
  pub digests : Digests
  pub dump : Proposal → Value
  pub dump_decision : TransactionDecision → Value
  pub configured : PolicySnapshot
  pub artifact_error : EvidenceRecord → Option String
  pub source_snapshot : EvidenceRecord → Option Value

abbrev pub find : (StoredTransaction → Bool) → List StoredTransaction → Option StoredTransaction
find p [] = none
find p (t ∷ ts) = if p t then some t else find p ts

abbrev pub get_by_idempotency_key : String → Ledger → Option StoredTransaction
get_by_idempotency_key key ledger =
    find (λ t. idempotency_key t.proposal == key) ledger.transactions

abbrev pub get_by_proposal_id : String → Ledger → Option StoredTransaction
get_by_proposal_id id ledger = find (λ t. proposal_id t.proposal == id) ledger.transactions

abbrev pub by_claim_id : List AtomicClaim → List (String × AtomicClaim)
by_claim_id [] = []
by_claim_id (c ∷ cs) = (c.claim_id, c) ∷ by_claim_id cs

abbrev pub by_evidence_id : List EvidenceRecord → List (String × EvidenceRecord)
by_evidence_id [] = []
by_evidence_id (e ∷ es) = (e.evidence_id, e) ∷ by_evidence_id es

-- `build_context`. An older version of a claim stands behind its head and is never looked up.
unfoldable pub build_context : PolicySnapshot → Ledger → AdmissionContext
build_context policy ledger = record {
  required_claim_checks = policy.required_claim_checks;
  evidence_by_id = by_evidence_id ledger.evidence;
  claim_by_id = by_claim_id ledger.versions;
  prior_decision_by_idempotency_key = [];
}

abbrev pub may_follow : AtomicClaim → Option AtomicClaim → Bool
may_follow claim none = claim.version == 1 && claim.parent_version_id == none
may_follow claim (some head) =
    claim.version == head.version + 1
    && claim.parent_version_id == some (version_id head.claim_id head.version)

-- `ClaimRepository.add_version`: `none` is the integrity error.
unfoldable pub add_version : AtomicClaim → Ledger → Option Ledger
add_version claim ledger =
    if may_follow claim (lookup claim.claim_id (by_claim_id ledger.versions))
    then some (record ledger { versions = claim ∷ ledger.versions })
    else none

-- `project` of the compatibility handler, on an accepted decision.
unfoldable pub project : Proposal → Ledger → Option Ledger
unfolding add_version
project (Proposal.add_evidence e evidence) ledger =
    some (record ledger { evidence = ledger.evidence ++ (evidence ∷ []) })
project (Proposal.propose_claim e claim) ledger = add_version claim ledger
project (Proposal.transition_claim e next) ledger = add_version next ledger
project (Proposal.unsupported e kind) ledger = none
project (Proposal.invalid p) ledger = none

module _ (env : Environment) where
  open env use {digests, dump, dump_decision, configured, artifact_error, source_snapshot}

  unfoldable pub hash_proposal : Proposal → String
  hash_proposal proposal = digests.sha256_hex (digests.canonical_json (dump proposal))

  -- `TransactionRepository.add`
  unfoldable pub add_transaction :
      Proposal → TransactionDecision → Option String → ℕ → Ledger → Option Ledger
  unfolding hash_proposal
  add_transaction proposal decision fingerprint created_at ledger =
      if decision.proposal_id != proposal_id proposal
      then none
      else some (record ledger {
        transactions =
            ledger.transactions
            ++ (record {
              proposal = proposal;
              proposal_hash = hash_proposal proposal;
              intent_fingerprint = fingerprint;
              decision = decision;
              created_at = created_at;
            }
                ∷ []);
      })

  -- `transaction_persisted`; models are compared by what they dump.
  abbrev pub is_persisted :
      Proposal → TransactionDecision → Option String → Option StoredTransaction → Bool
  is_persisted proposal decision fingerprint none = false
  is_persisted proposal decision fingerprint (some t) =
      value_beq (dump t.proposal) (dump proposal)
      && value_beq (dump_decision t.decision) (dump_decision decision)
      && t.intent_fingerprint == fingerprint

  -- A member that is there if its value is.
  abbrev pub optional : String → Option Value → Items → Items
  optional name none rest = rest
  optional name (some value) rest = item (text name) value rest

  abbrev pub as_text : Option String → Option Value
  as_text none = none
  as_text (some t) = some (text t)

  abbrev pub snapshot_of : Proposal → Bool → Option Value
  snapshot_of (Proposal.add_evidence e evidence) true =
      if evidence.evidence_type == "procedure-source" then source_snapshot evidence else none
  snapshot_of _ _ = none

  unfoldable pub audit_payload :
      Proposal → TransactionDecision → PolicySnapshot → Option String → Ledger → Value
  audit_payload proposal decision policy fingerprint ledger =
      let persisted =
        is_persisted proposal decision fingerprint
          (get_by_idempotency_key (idempotency_key proposal) ledger) in
      mapping (
        item (text "proposal") (dump proposal) (
          item (text "decision") (dump_decision decision) (
            item (text "policy_hash") (text policy.policy_hash) (
              item (text "stored_policy_hash") (text policy.policy_hash) (
                item (text "transaction_persisted") (boolean persisted) (
                  optional "configured_policy_hash"
                    (if any (λ p. p.policy_hash == configured.policy_hash) ledger.policies
                      then some (text configured.policy_hash)
                      else none)
                    (optional "intent_fingerprint" (as_text fingerprint) (
                      optional "procedure_source_snapshot"
                        (snapshot_of proposal (decision.accepted && persisted)) end))))))))

  -- `_audit`
  unfoldable pub audit_decision :
      Proposal → TransactionDecision → PolicySnapshot → Option String → ℕ → Ledger → Option Ledger
  unfolding audit_payload
  audit_decision proposal decision policy fingerprint now ledger =
      append_event digests (latest ledger.audit) "transaction_decision"
        (audit_payload proposal decision policy fingerprint ledger) now
      >>= (λ event. some (record ledger { audit = ledger.audit ++ (event ∷ []) }))
