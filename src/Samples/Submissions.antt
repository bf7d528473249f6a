-- ===== src/Samples/Submissions.antt =====
-- A proposal carried through an empty ledger, and the theorems on submissions at it.
use super_scientist_orchestr.Prelude.{
  ◌≡◌, refl, true, false, none, some, [], ◌∷◌, length, strip, is_some, arith,
}
use super_scientist_orchestr.Json.{text, freeze_json_value}
use super_scientist_orchestr.Json.Freezing.{is_json}
use super_scientist_orchestr.Admission.Proposals.{TransactionDecision, Proposal, proposal_id}
use super_scientist_orchestr.Admission.{
  admitted, decide_valid, decide_new, decide_approved, decide_propose_claim,
  mapping_entity_ids_match,
}
use super_scientist_orchestr.Audit.{
  verify_chain, verify_from, append_event, event_after, freeze_json_mapping,
}
use super_scientist_orchestr.Ledger.{
  PolicySnapshot, Ledger, Environment, build_context, add_version, project, add_transaction,
  audit_payload, audit_decision,
}
use super_scientist_orchestr.Ledger.Submission.{
  Result, store, carry_through, admit, submit_new, submit_locked,
}
use super_scientist_orchestr.Ledger.Audited.{submit_locked-verify_chain}
use super_scientist_orchestr.Ledger.Settled.{IsSettled, submit_locked-IsSettled}
use super_scientist_orchestr.Ledger.Replay.{submit_locked-replays}
use super_scientist_orchestr.Ledger.Recorded.{IsDumped}
use super_scientist_orchestr.Ledger.Returns.{submit_locked-returns}
use super_scientist_orchestr.Samples.{person, first_version}
use super_scientist_orchestr.Samples.Audits.{digests_example}

abbrev policy_example : PolicySnapshot
policy_example = record { policy_hash = "policy-1"; required_claim_checks = "source_exists" ∷ [] }

-- A proposal and a decision are dumped as their identifiers.
abbrev world : Environment
world = record {
  digests = digests_example;
  dump = λ p. text (proposal_id p);
  dump_decision = λ d. text d.proposal_id;
  configured = policy_example;
  artifact_error = λ e. none;
  source_snapshot = λ e. none;
}

abbrev empty_ledger : Ledger
empty_ledger = record {
  policies = policy_example ∷ [];
  active = some policy_example;
  evidence = [];
  versions = [];
  transactions = [];
  audit = [];
}

abbrev proposing : Proposal
proposing =
    Proposal.propose_claim
      (record {
        proposal_id = "proposal-1";
        idempotency_key = "key-1";
        proposer = person "alice";
        approval = none;
      })
      first_version

abbrev outcome : Result → TransactionDecision × Ledger
outcome none =
    (record { proposal_id = ""; accepted = false; replayed = false; reasons = [] }, empty_ledger)
outcome (some r) = r

abbrev submitted : Result
submitted = submit_locked world proposing none 5 6 empty_ledger

submitted_run : submitted ≡ some ((outcome submitted).0, (outcome submitted).1)
unfolding submit_locked submit_new admit carry_through store decide_valid decide_new decide_approved
    decide_propose_claim mapping_entity_ids_match build_context project add_version add_transaction
    audit_decision append_event event_after freeze_json_mapping freeze_json_value audit_payload
    strip admitted
submitted_run = refl

-- The claim is in the ledger, and its decision in the audit log.
ledger_run :
    ((outcome submitted).0.accepted ≡ true)
    × ((outcome submitted).1.versions ≡ first_version ∷ [])
    × (length (outcome submitted).1.audit ≡ 1)
unfolding submit_locked submit_new admit carry_through store decide_valid decide_new decide_approved
    decide_propose_claim mapping_entity_ids_match build_context project add_version add_transaction
    audit_decision append_event event_after freeze_json_mapping freeze_json_value audit_payload
    strip admitted
ledger_run = (refl, refl, refl)

submit_verified_example : (verify_chain world.digests (outcome submitted).1.audit).valid ≡ true
unfolding verify_chain verify_from
submit_verified_example =
    submit_locked-verify_chain world empty_ledger (outcome submitted).1 proposing none 5 6
      (outcome submitted).0 refl submitted_run

submit-IsSettled_example : IsSettled (outcome submitted).1
submit-IsSettled_example =
    submit_locked-IsSettled world empty_ledger (outcome submitted).1 proposing none 5 6
      (outcome submitted).0 tt submitted_run

submit_replays_example :
    submit_locked world proposing none 8 9 (outcome submitted).1
    ≡ some (record (outcome submitted).0 { replayed = true }, (outcome submitted).1)
submit_replays_example =
    submit_locked-replays world empty_ledger (outcome submitted).1 proposing none 5 6 8 9
      (outcome submitted).0 policy_example refl refl refl submitted_run

world-IsDumped : IsDumped world
unfolding is_json
world-IsDumped = record {
  proposals = λ p. refl;
  decisions = λ d. refl;
  snapshots = λ e v h. absurd (ground arith);
}

submit_returns_example : is_some (submit_locked world proposing none 5 6 empty_ledger) ≡ true
submit_returns_example =
    submit_locked-returns world world-IsDumped none 5 6 empty_ledger proposing (refl, refl)

-- A new claim at a later version is accepted by the engine and then refused by `add_version`.
abbrev proposing_later : Proposal
proposing_later =
    Proposal.propose_claim
      (record {
        proposal_id = "proposal-1";
        idempotency_key = "key-1";
        proposer = person "alice";
        approval = none;
      })
      (record first_version { version = 2; parent_version_id = some "claim-1:1" })

later_version_run :
    ((decide_valid proposing_later (build_context policy_example empty_ledger)).accepted ≡ true)
    × (submit_locked world proposing_later none 5 6 empty_ledger ≡ none)
unfolding submit_locked submit_new admit carry_through store decide_valid decide_new decide_approved
    decide_propose_claim mapping_entity_ids_match build_context project add_version admitted
later_version_run = (refl, refl)
