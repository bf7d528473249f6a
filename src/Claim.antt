-- ===== src/Claim.antt =====
-- domain/claims: atomic claims, their statuses and the legal moves between statuses.
pub mod Lifecycle
use super_scientist_orchestr.Prelude.{
  ℕ, ◌-◌, String, ◌≡◌, Bool, true, false, not, ◌&&◌, ◌||◌, Option, none, some, List, [], ◌∷◌, arith,
  if◌then◌else◌, Eq, ◌==◌, nat_eq, string_eq, option_eq, list_eq, discrete_eq, indexed_eq,
  String-discrete, decide, is_empty, contains, unique, decimal, join,
}

pub data ClaimStatus : Type 0 where
  proposed evidence_linked testable reproduced corroborated constraint_validated falsified
        superseded withdrawn :
      ClaimStatus

abbrev pub status_index : ClaimStatus → ℕ
status_index ClaimStatus.proposed = 0
status_index ClaimStatus.evidence_linked = 1
status_index ClaimStatus.testable = 2
status_index ClaimStatus.reproduced = 3
status_index ClaimStatus.corroborated = 4
status_index ClaimStatus.constraint_validated = 5
status_index ClaimStatus.falsified = 6
status_index ClaimStatus.superseded = 7
status_index ClaimStatus.withdrawn = 8

pub status_index_inj : (a b : ClaimStatus) → status_index a ≡ status_index b → a ≡ b
status_index_inj a b h = ground arith

instance abbrev pub status_eq : Eq ClaimStatus
status_eq = indexed_eq status_index status_index_inj

pub record EvidenceLink : Type 0 where
  pub evidence_id : String
  pub supporting_span : String

unfoldable pub EvidenceLink-discrete : Discrete EvidenceLink
unfolding decide String-discrete
EvidenceLink-discrete = hlevel String-discrete

instance abbrev pub link_eq : Eq EvidenceLink
link_eq = discrete_eq EvidenceLink-discrete

pub record AtomicClaim : Type 0 where
  pub claim_id : String
  pub version : ℕ
  pub proposition : String
  pub scope : String
  pub population_or_system : String
  pub epistemic_modality : String
  pub status : ClaimStatus
  pub evidence_links : List EvidenceLink
  pub assumptions : List String
  pub parent_version_id : Option String
  pub created_at : ℕ
  pub created_by : String

-- f"{claim_id}:{version}"
unfoldable pub version_id : String → ℕ → String
unfolding decimal
version_id claim_id version = join (claim_id ∷ ":" ∷ decimal version ∷ [])

-- The model's own validator, with the bound `ge=1` on the version. `none` is the `ValueError`.
unfoldable pub validate_lineage_and_evidence_links : AtomicClaim → Option AtomicClaim
validate_lineage_and_evidence_links c =
    if c.version == 0
    then none
    else if c.version == 1 && not (c.parent_version_id == none)
    then none
    else if not (c.version == 1)
        && not (c.parent_version_id == some (version_id c.claim_id (c.version - 1)))
    then none
    else if is_empty c.evidence_links
        && not (c.status == ClaimStatus.proposed || c.status == ClaimStatus.withdrawn)
    then none
    else if not (unique c.evidence_links)
    then none
    else some c

-- domain/claims/transitions.py
abbrev pub terminal : List ClaimStatus
terminal = ClaimStatus.superseded ∷ ClaimStatus.withdrawn ∷ []

unfoldable pub allowed : ClaimStatus → List ClaimStatus
allowed ClaimStatus.proposed =
    ClaimStatus.evidence_linked ∷ ClaimStatus.falsified ∷ ClaimStatus.withdrawn ∷ []
allowed ClaimStatus.evidence_linked =
    ClaimStatus.testable ∷ ClaimStatus.corroborated ∷ ClaimStatus.constraint_validated
    ∷ ClaimStatus.falsified ∷ ClaimStatus.withdrawn ∷ []
allowed ClaimStatus.testable =
    ClaimStatus.reproduced ∷ ClaimStatus.corroborated ∷ ClaimStatus.constraint_validated
    ∷ ClaimStatus.falsified ∷ ClaimStatus.withdrawn ∷ []
allowed ClaimStatus.reproduced =
    ClaimStatus.corroborated ∷ ClaimStatus.falsified ∷ ClaimStatus.superseded
    ∷ ClaimStatus.withdrawn ∷ []
allowed ClaimStatus.corroborated =
    ClaimStatus.falsified ∷ ClaimStatus.superseded ∷ ClaimStatus.withdrawn ∷ []
allowed ClaimStatus.constraint_validated =
    ClaimStatus.corroborated ∷ ClaimStatus.falsified ∷ ClaimStatus.superseded
    ∷ ClaimStatus.withdrawn ∷ []
allowed ClaimStatus.falsified = ClaimStatus.superseded ∷ []
allowed ClaimStatus.superseded = []
allowed ClaimStatus.withdrawn = []

pub record TransitionResult : Type 0 where
  pub is_allowed : Bool
  pub reason : Option String

unfoldable pub validate_transition : ClaimStatus → ClaimStatus → TransitionResult
unfolding allowed
validate_transition current target =
    if contains (allowed current) target
    then record { is_allowed = true; reason = none }
    else record { is_allowed = false; reason = some "illegal claim status transition" }
