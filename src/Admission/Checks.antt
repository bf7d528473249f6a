-- ===== src/Admission/Checks.antt =====
-- The checks that a policy requires, on a claim whose links are supported.
use super_scientist_orchestr.Prelude.{
  String, ◌≡◌, refl, subst, ◌≢◌, Bool, true, false, not, ◌||◌, List, [], ◌∷◌, arith, ◌==◌, nat_eq,
  string_eq, option_eq, list_eq, all, any, select, is_empty, All,
}
use super_scientist_orchestr.Claim.{EvidenceLink, AtomicClaim}
use super_scientist_orchestr.Drift.{
  CheckOutcome, outcome_eq, CheckResult, EvidenceById, link_checks, run_deterministic_checks,
}
use super_scientist_orchestr.Drift.Support.{IsSupported, IsSupported-passes}
use super_scientist_orchestr.Admission.{required_checks_pass}

abbrev not_passed : CheckResult → Bool
not_passed check = not (check.outcome == CheckOutcome.pass_deterministic)

-- The codes that the deterministic checks carry.
abbrev pub is_known_code : String → Bool
is_known_code code = "source_exists" == code || "evidence_span_exists" == code

module _ (m : EvidenceById) (code : String) where
  abbrev with_code : List CheckResult → List CheckResult
  with_code checks = select (λ check. check.code == code) checks

  none_failed :
      (links : List EvidenceLink)
      → All (IsSupported m) links
      → any not_passed (with_code (link_checks links m)) ≡ false
  unfolding link_checks
  none_failed [] h = refl
  none_failed (link ∷ links) h =
      ground (arith, IsSupported-passes link m h.0, none_failed links h.1)

  some_checked :
      (link : EvidenceLink) (links : List EvidenceLink)
      → is_empty (with_code (link_checks (link ∷ links) m)) ≡ true
      → is_known_code code ≡ false
  unfolding link_checks
  some_checked link links h = ground arith

  none_checked :
      (links : List EvidenceLink)
      → is_known_code code ≡ false
      → is_empty (with_code (link_checks links m)) ≡ true
  unfolding link_checks
  none_checked [] h = refl
  none_checked (link ∷ links) h = ground (arith, none_checked links h)

required_checks_pass-link_checks :
    (m : EvidenceById) (link : EvidenceLink) (links : List EvidenceLink) (codes : List String)
    → All (IsSupported m) (link ∷ links)
    → required_checks_pass (link_checks (link ∷ links) m) codes ≡ all is_known_code codes
unfolding required_checks_pass
required_checks_pass-link_checks m link links [] h = refl
required_checks_pass-link_checks m link links (code ∷ codes) h = ground (
  arith,
  none_failed m code (link ∷ links) h,
  some_checked m code link links,
  none_checked m code (link ∷ links),
  required_checks_pass-link_checks m link links codes h,
)

-- On a claim with supported links, the required checks pass exactly if each of them is one of the
-- two deterministic checks: any other check that a policy names stays unresolved.
pub required_checks_pass-supported :
    (claim : AtomicClaim) (m : EvidenceById) (codes : List String)
    → claim.evidence_links ≢ []
    → All (IsSupported m) claim.evidence_links
    → required_checks_pass (run_deterministic_checks claim m) codes ≡ all is_known_code codes
unfolding run_deterministic_checks
required_checks_pass-supported claim m codes some' h = by_links claim.evidence_links refl
  where
    by_links :
        (links : List EvidenceLink)
        → claim.evidence_links ≡ links
        → required_checks_pass (run_deterministic_checks claim m) codes ≡ all is_known_code codes
    by_links [] e = absurd (some' e)
    by_links (link ∷ links) e =
        rw e (required_checks_pass-link_checks m link links codes (subst (All (IsSupported m)) e h))
