-- ===== src/Samples/Admissions.antt =====
-- Runs of the admission engine.
use super_scientist_orchestr.Prelude.{
  String, ◌≡◌, refl, ap, subst, inl, inr, true, false, Option, none, some, List, [], ◌∷◌, All,
  occurs,
}
use super_scientist_orchestr.Claim.{version_id, validate_transition}
use super_scientist_orchestr.Admission.Proposals.{
  TransactionDecision, has_valid_reasons, Approval, Envelope, Proposal,
}
use super_scientist_orchestr.Admission.{AdmissionContext, decide_transition, decide_proposal}
use super_scientist_orchestr.Admission.Transitions.{IsSuccession}
use super_scientist_orchestr.Admission.Moves.{Substantiates, decide_transition_iff}
use super_scientist_orchestr.Admission.Decisions.{decide_proposal-has_valid_reasons}
use super_scientist_orchestr.Samples.{
  person, evidence_example, first_version, second_version, span_example,
}

abbrev by_alice : Envelope
by_alice = record {
  proposal_id = "proposal-1";
  idempotency_key = "key-1";
  proposer = person "alice";
  approval = none;
}

abbrev earlier_decision : TransactionDecision
earlier_decision = record {
  proposal_id = "proposal-0";
  accepted = true;
  replayed = false;
  reasons = [];
}

abbrev context_example : AdmissionContext
context_example = record {
  required_claim_checks = "source_exists" ∷ "evidence_span_exists" ∷ [];
  evidence_by_id = ("evidence-1", evidence_example) ∷ [];
  claim_by_id = ("claim-1", first_version) ∷ [];
  prior_decision_by_idempotency_key = ("key-0", earlier_decision) ∷ [];
}

succession : IsSuccession by_alice second_version first_version
unfolding validate_transition version_id
succession = record {
  version = refl;
  parent = refl;
  creator = refl;
  proposition = refl;
  scope = refl;
  population = refl;
  modality = refl;
  allowed = refl;
}

substantiated : Substantiates second_version first_version context_example
unfolding occurs
substantiated = record {
  status = inl refl;
  new_link = λ e. refl;
  linked = λ p. cc;
  supported = (
    record {
      evidence = evidence_example;
      found = refl;
      filed = refl;
      span = span_example;
      extracted = refl;
      quoted = refl;
    },
    tt,
  );
  known_checks = refl;
}

decide_transition_example :
    (decide_transition by_alice second_version context_example).accepted ≡ true
decide_transition_example =
    (decide_transition_iff by_alice second_version context_example).1
      (first_version, refl, succession, inr substantiated)

abbrev priors : Option AdmissionContext → List (String × TransactionDecision)
priors none = []
priors (some c) = c.prior_decision_by_idempotency_key

abbrev IsValid : List (String × TransactionDecision) → Type 0
IsValid decisions = All (λ entry. has_valid_reasons entry.1 ≡ true) decisions

priors_are_valid :
    (c : AdmissionContext)
    → some context_example ≡ some c
    → All (λ entry. has_valid_reasons entry.1 ≡ true) c.prior_decision_by_idempotency_key
unfolding has_valid_reasons
priors_are_valid c h = subst IsValid (ap priors h) (refl, tt)

has_valid_reasons_example :
    has_valid_reasons (
      decide_proposal none
        (some (Proposal.transition_claim by_alice second_version))
        (some context_example))
    ≡ true
has_valid_reasons_example =
    decide_proposal-has_valid_reasons none
      (some (Proposal.transition_claim by_alice second_version)) (some context_example)
      priors_are_valid

abbrev by_bob : Approval
by_bob = record { approver = person "bob"; approved_at = 4 }

abbrev approved : Envelope
approved = record by_alice { approval = some by_bob }
