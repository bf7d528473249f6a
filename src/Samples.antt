-- ===== src/Samples.antt =====
-- Concrete actors, claims, evidence and contexts, on which the theorems are tried.
pub mod Claims
pub mod Admissions
pub mod Audits
pub mod Plans
pub mod Rulebook
pub mod Submissions
pub mod Cohorts
pub mod Sessions
pub mod Graphs
use super_scientist_orchestr.Prelude.{String, none, some, [], ◌∷◌}
use super_scientist_orchestr.Identity.{ActorKind, ActorIdentity}
use super_scientist_orchestr.Claim.{ClaimStatus, EvidenceLink, AtomicClaim}
use super_scientist_orchestr.Json.{Value, text, mapping, item, end}
use super_scientist_orchestr.Evidence.{VerificationState, EvidenceSpan, EvidenceRecord}

abbrev pub person : String → ActorIdentity
person name = record {
  actor_id = name;
  kind = ActorKind.human;
  created_at = 1;
  provider_id = none;
  model_id = none;
  adapter_id = none;
  configuration_hash = none;
}

abbrev pub machine : String → String → ActorIdentity
machine name model = record {
  actor_id = name;
  kind = ActorKind.model;
  created_at = 1;
  provider_id = some "provider-1";
  model_id = some model;
  adapter_id = none;
  configuration_hash = none;
}

abbrev pub span_example : EvidenceSpan
span_example = record { start = 0; stop = 19; text = "the rate doubled at" }

abbrev pub evidence_example : EvidenceRecord
evidence_example = record {
  evidence_id = "evidence-1";
  evidence_type = "paper";
  source_locator = "doi:1";
  retrieved_at = 2;
  artifact = record {
    sha256 = "00";
    size_bytes = 19;
    media_type = "text/plain";
    relative_path = "a.txt";
  };
  extracted_span = some span_example;
  structured_observation = none;
  provenance = [];
  license = none;
  ingestion_actor_id = "alice";
  verification_state = VerificationState.hash_verified;
}

abbrev pub link_example : EvidenceLink
link_example = record { evidence_id = "evidence-1"; supporting_span = "rate doubled" }

abbrev pub first_version : AtomicClaim
first_version = record {
  claim_id = "claim-1";
  version = 1;
  proposition = "the rate doubles";
  scope = "laboratory";
  population_or_system = "yeast";
  epistemic_modality = "observed";
  status = ClaimStatus.proposed;
  evidence_links = [];
  assumptions = "constant temperature" ∷ [];
  parent_version_id = none;
  created_at = 1;
  created_by = "alice";
}

abbrev pub second_version : AtomicClaim
second_version = record first_version {
  version = 2;
  status = ClaimStatus.evidence_linked;
  evidence_links = link_example ∷ [];
  parent_version_id = some "claim-1:1";
  created_at = 3;
}

abbrev pub payload_example : Value
payload_example = mapping (item (text "proposal_id") (text "proposal-1") end)
