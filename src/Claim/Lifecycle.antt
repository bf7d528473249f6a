-- ===== src/Claim/Lifecycle.antt =====
-- The lifecycle that domain/claims/transitions.py gives to a claim.
use super_scientist_orchestr.Prelude.{
  ℕ, suc, ◌+◌, ◌≤◌, ◌<◌, ◌≡◌, refl, ap, ◌↔◌, true, false, arith, nat_eq, string_eq, option_eq,
  list_eq, contains,
}
use super_scientist_orchestr.Claim.{ClaimStatus, status_eq, terminal, validate_transition}

-- A run of `n` allowed moves.
pub data Moves (start : ClaimStatus) : ClaimStatus → ℕ → Type 0 where
  stay : Moves start start 0
  move :
      {middle end' : ClaimStatus} {n : ℕ}
      → Moves start middle n
      → (validate_transition middle end').is_allowed ≡ true
      → Moves start end' (suc n)

-- How far along a status lies: every allowed move goes up.
abbrev pub stage : ClaimStatus → ℕ
stage ClaimStatus.proposed = 0
stage ClaimStatus.evidence_linked = 1
stage ClaimStatus.testable = 2
stage ClaimStatus.reproduced = 3
stage ClaimStatus.constraint_validated = 3
stage ClaimStatus.corroborated = 4
stage ClaimStatus.falsified = 5
stage ClaimStatus.superseded = 6
stage ClaimStatus.withdrawn = 6

stage-validate_transition :
    (s t : ClaimStatus) → (validate_transition s t).is_allowed ≡ true → stage s < stage t
unfolding validate_transition
stage-validate_transition s t h = ground arith

Moves-stage : {s t : ClaimStatus} {n : ℕ} → Moves s t n → stage s + n ≤ stage t
Moves-stage stay = omega arith
Moves-stage (move {middle = m} {end' = e} run step) =
    omega (arith, Moves-stage run, stage-validate_transition m e step)

-- A claim makes at most six moves, and no run of moves comes back to a status that it left.
pub Moves-bounded : {s t : ClaimStatus} {n : ℕ} → Moves s t n → (n ≤ 6) × (s ≡ t → n ≡ 0)
Moves-bounded {s} {t} {n} run =
    (omega (arith, Moves-stage run, stage-le s, stage-le t), λ same. back same)
  where
    stage-le : (u : ClaimStatus) → stage u ≤ 6
    stage-le u = ground arith

    back : s ≡ t → n ≡ 0
    back same = omega (arith, Moves-stage run, ap stage same)

-- The statuses with no allowed move out of them are exactly `TERMINAL`.
pub terminal_iff :
    (s : ClaimStatus)
    → (contains terminal s ≡ true)
      ↔ ((t : ClaimStatus) → (validate_transition s t).is_allowed ≡ false)
unfolding validate_transition
terminal_iff s =
    (λ h t. ground arith, λ h. ground (arith, h ClaimStatus.withdrawn, h ClaimStatus.superseded))

-- Every status reaches a terminal one by at most two moves.
pub Moves-terminal :
    (s : ClaimStatus)
    → (t : ClaimStatus) × (n : ℕ) × (contains terminal t ≡ true) × (n ≤ 2) × Moves s t n
unfolding validate_transition
Moves-terminal ClaimStatus.falsified =
    (ClaimStatus.superseded, 1, refl, omega arith, move stay refl)
Moves-terminal ClaimStatus.superseded = (ClaimStatus.superseded, 0, refl, omega arith, stay)
Moves-terminal ClaimStatus.withdrawn = (ClaimStatus.withdrawn, 0, refl, omega arith, stay)
Moves-terminal s = (ClaimStatus.withdrawn, 1, refl, omega arith, move stay refl)
