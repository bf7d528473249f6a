-- ===== src/Evidence.antt =====
-- domain/evidence/models.py: evidence records and the spans extracted from them.
use super_scientist_orchestr.Prelude.{
  ℕ, ◌-◌, String, Option, none, some, List, leb, if◌then◌else◌, ◌!=◌, nat_eq, string_eq, option_eq,
  list_eq,
}
use Prim.Native.String.{count}
use super_scientist_orchestr.Json.{Value}

pub data VerificationState : Type 0 where
  unverified hash_verified unavailable : VerificationState

pub record ArtifactRef : Type 0 where
  pub sha256 : String
  pub size_bytes : ℕ
  pub media_type : String
  pub relative_path : String

pub record EvidenceSpan : Type 0 where
  pub start : ℕ
  pub stop : ℕ
  pub text : String

-- The validator of a span, whose bounds `start` and `stop` are never negative: `none` is the
-- `ValueError`, and `len` counts characters.
unfoldable pub validate_bounds : EvidenceSpan → Option EvidenceSpan
validate_bounds span =
    if leb span.stop span.start
    then none
    else if span.stop - span.start != count span.text
    then none
    else some span

pub record EvidenceRecord : Type 0 where
  pub evidence_id : String
  pub evidence_type : String
  pub source_locator : String
  pub retrieved_at : ℕ
  pub artifact : ArtifactRef
  pub extracted_span : Option EvidenceSpan
  pub structured_observation : Option Value
  pub provenance : List (String × String)
  pub license : Option String
  pub ingestion_actor_id : String
  pub verification_state : VerificationState
