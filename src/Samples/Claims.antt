-- ===== src/Samples/Claims.antt =====
-- Runs of the claim lifecycle, the deterministic checks, independence and freezing.
use super_scientist_orchestr.Prelude.{
  ℕ, ◌≤◌, ◌≡◌, refl, true, false, none, some, [], ◌∷◌, nat_eq, string_eq, option_eq, list_eq, any,
  contains, occurs,
}
use super_scientist_orchestr.Identity.{ActorKind, are_independent, has_model_identity}
use super_scientist_orchestr.Identity.Independence.{are_independent_comm}
use super_scientist_orchestr.Claim.{
  ClaimStatus, terminal, validate_transition, version_id, validate_lineage_and_evidence_links,
  status_eq,
}
use super_scientist_orchestr.Claim.Lifecycle.{
  Moves, stay, move, Moves-bounded, terminal_iff, Moves-terminal,
}
use super_scientist_orchestr.Json.{
  sequence, collection, cons, nil, frozen, refused, FreezeError, freeze_json_value,
}
use super_scientist_orchestr.Json.Freezing.{is_json, freeze_json_value_iff}
use super_scientist_orchestr.Evidence.{validate_bounds}
use super_scientist_orchestr.Drift.{
  CheckOutcome, EvidenceById, check_evidence_link, run_deterministic_checks, outcome_eq,
}
use super_scientist_orchestr.Drift.Support.{
  IsSupported, is_failure, run_deterministic_checks_iff, check_evidence_link_iff,
}
use super_scientist_orchestr.Admission.{required_checks_pass}
use super_scientist_orchestr.Admission.Checks.{required_checks_pass-supported}
use super_scientist_orchestr.Samples.{
  person, machine, span_example, evidence_example, link_example, second_version, payload_example,
}

abbrev recorded : EvidenceById
recorded = ("evidence-1", evidence_example) ∷ []

version_id_run : version_id "claim-1" 12 ≡ "claim-1:12"
unfolding version_id
version_id_run = refl

span_run : validate_bounds span_example ≡ some span_example
unfolding validate_bounds
span_run = refl

lineage_run : validate_lineage_and_evidence_links second_version ≡ some second_version
unfolding validate_lineage_and_evidence_links version_id
lineage_run = refl

orphan_run :
    validate_lineage_and_evidence_links
      (record second_version { parent_version_id = some "claim-1:2" })
    ≡ none
unfolding validate_lineage_and_evidence_links version_id
orphan_run = refl

nameless_run : has_model_identity (record (person "m") { kind = ActorKind.model }) ≡ false
unfolding has_model_identity
nameless_run = refl

abbrev four : ℕ
four = 4

-- A claim that is linked, tested, falsified and superseded.
long_life : Moves ClaimStatus.proposed ClaimStatus.superseded four
unfolding validate_transition
long_life =
    move {middle = ClaimStatus.falsified}
      (move {middle = ClaimStatus.testable}
        (move {middle = ClaimStatus.evidence_linked} (move stay refl) refl) refl)
      refl

Moves-bounded_example : (four ≤ 6) × (ClaimStatus.proposed ≡ ClaimStatus.superseded → four ≡ 0)
Moves-bounded_example = Moves-bounded long_life

terminal_example :
    (validate_transition ClaimStatus.withdrawn ClaimStatus.proposed).is_allowed ≡ false
terminal_example = (terminal_iff ClaimStatus.withdrawn).0 refl ClaimStatus.proposed

Moves-terminal_example :
    (t : ClaimStatus) × (n : ℕ) × (contains terminal t ≡ true)
    × (n ≤ 2)
    × Moves ClaimStatus.testable t n
Moves-terminal_example = Moves-terminal ClaimStatus.testable

are_independent_comm_example :
    are_independent (person "alice") (machine "beta" "model-2")
    ≡ are_independent (machine "beta" "model-2") (person "alice")
are_independent_comm_example = are_independent_comm (person "alice") (machine "beta" "model-2")

freeze_example : freeze_json_value payload_example ≡ frozen payload_example
unfolding is_json
freeze_example = (freeze_json_value_iff payload_example payload_example).1 (refl, refl)

freeze_run :
    freeze_json_value (sequence (cons (collection nil) nil))
    ≡ refused FreezeError.unordered_collection
unfolding freeze_json_value
freeze_run = refl

supported : IsSupported recorded link_example
unfolding occurs
supported = record {
  evidence = evidence_example;
  found = refl;
  filed = refl;
  span = span_example;
  extracted = refl;
  quoted = refl;
}

run_deterministic_checks_example :
    any is_failure (run_deterministic_checks second_version recorded) ≡ false
run_deterministic_checks_example =
    (run_deterministic_checks_iff second_version recorded).1 ((λ p. cc), (supported, tt))

check_evidence_link_example :
    (check_evidence_link link_example recorded).outcome ≡ CheckOutcome.pass_deterministic
check_evidence_link_example = (check_evidence_link_iff link_example recorded).1 supported

required_checks_pass_example :
    required_checks_pass
      (run_deterministic_checks second_version recorded)
      ("source_exists" ∷ "license" ∷ [])
    ≡ false
required_checks_pass_example =
    required_checks_pass-supported second_version recorded ("source_exists" ∷ "license" ∷ [])
      (λ p. cc) (supported, tt)
