-- ===== src/Ledger/Governed.antt =====
-- application/transactions/coordinator.py: how the coordinator answers an invalid proposal that was
-- meant to be of a governed kind.
use super_scientist_orchestr.Prelude.{
  String, Option, none, some, List, [], ◌∷◌, if◌then◌else◌, ◌==◌, string_eq, contains,
}
use super_scientist_orchestr.Admission.Proposals.{
  RejectionCode, TransactionDecision, InvalidProposal,
}
use super_scientist_orchestr.Admission.{rejected}

-- The kinds of the `GOVERNED_PROPOSAL_CLASSES` of kernel/transactions/models.py.
abbrev pub governed_proposal_kinds : List String
governed_proposal_kinds =
    "record_capability_profile" ∷ "record_cohort_plan" ∷ "record_diversity_assessment"
    ∷ "record_collaboration_session" ∷ "append_peer_request" ∷ "append_peer_contribution"
    ∷ "append_topology_event" ∷ "record_collaboration_termination" ∷ "record_procedure_compilation"
    ∷ "record_method_direction_outcome" ∷ "bind_compiled_progress_plan"
    ∷ "record_guidance_evaluation_protocol" ∷ "append_guidance_evaluation_cell"
    ∷ "record_model_harness_protocol" ∷ "append_model_harness_cell"
    ∷ "record_model_harness_analysis" ∷ "record_harness_execution_trace"
    ∷ "record_reward_assessment" ∷ []

-- `_attempted_governed_proposal_type`, by the name of the kind.
unfoldable pub attempted_governed_kind : InvalidProposal → Option String
attempted_governed_kind p = elim p.attempted_proposal_kind [
  | none ↦ none
  | some kind ↦ if contains governed_proposal_kinds kind then some kind else none
]

-- `_governed_handler_failure_decision`
unfoldable pub governed_handler_failure_decision : String → String → TransactionDecision
unfolding rejected
governed_handler_failure_decision id kind =
    if kind == "record_reward_assessment"
    then rejected id RejectionCode.invalid_reward "reward assessment proposal is invalid"
    else if contains
        ("record_procedure_compilation" ∷ "record_method_direction_outcome"
          ∷ "bind_compiled_progress_plan" ∷ [])
        kind
    then rejected id RejectionCode.invalid_procedure "procedure proposal is invalid"
    else if contains
        ("record_guidance_evaluation_protocol" ∷ "append_guidance_evaluation_cell"
          ∷ "record_model_harness_protocol" ∷ "append_model_harness_cell"
          ∷ "record_model_harness_analysis" ∷ "record_harness_execution_trace" ∷ [])
        kind
    then rejected id RejectionCode.unmatched_evaluation "harness evaluation proposal is invalid"
    else rejected id RejectionCode.derivation_mismatch
        "governed proposal failed fixed handler validation"
