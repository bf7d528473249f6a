-- ===== src/Improvement.antt =====
-- domain/improvement/classification.py and models.py: the levels of verification, the relationships
-- between actors and the outcomes of assessments, as far as other parts use them.
use super_scientist_orchestr.Prelude.{Bool, true, false}

pub data VerificationLevel : Type 0 where
  formal_verifier execution_feedback external_empirical_measurement independent_deterministic_check
        independent_learned_judge rubric_judge cross_model_agreement self_critique self_consistency
        model_confidence model_likelihood :
      VerificationLevel

-- `level in AUTHORITATIVE_VERIFICATION_LEVELS`
abbrev pub is_authoritative_verification : VerificationLevel → Bool
is_authoritative_verification VerificationLevel.formal_verifier = true
is_authoritative_verification VerificationLevel.execution_feedback = true
is_authoritative_verification VerificationLevel.external_empirical_measurement = true
is_authoritative_verification VerificationLevel.independent_deterministic_check = true
is_authoritative_verification VerificationLevel.independent_learned_judge = true
is_authoritative_verification _ = false

pub data ActorRelationship : Type 0 where
  same_actor shared_model_configuration organizational_dependency unknown independent :
      ActorRelationship

abbrev pub is_independent : ActorRelationship → Bool
is_independent ActorRelationship.independent = true
is_independent _ = false

pub data AssessmentOutcome : Type 0 where
  passed failed inconclusive abstained : AssessmentOutcome

abbrev pub is_passed : AssessmentOutcome → Bool
is_passed AssessmentOutcome.passed = true
is_passed _ = false
