-- ===== src/Drift/Support.antt =====
-- What the deterministic checks of evaluation/claim_drift establish about a claim.
use super_scientist_orchestr.Prelude.{
  ◌≡◌, refl, ◌≢◌, ◌↔◌, inl, inr, Bool, true, false, not, ◌&&◌, ◌||◌, some, List, [], ◌∷◌, arith,
  Option-cases, ◌==◌, ==_iff, nat_eq, string_eq, option_eq, list_eq, any, All, lookup, occurs,
}
use super_scientist_orchestr.Claim.{EvidenceLink, AtomicClaim}
use super_scientist_orchestr.Evidence.{EvidenceSpan, EvidenceRecord}
use super_scientist_orchestr.Drift.{
  CheckOutcome, outcome_eq, CheckResult, EvidenceById, is_filed, record_holds_span,
  check_evidence_link, link_checks, run_deterministic_checks,
}

-- The evidence that a link names is recorded under its own identifier, and the supporting span
-- occurs in the text that was extracted from it.
pub record IsSupported (evidence_by_id : EvidenceById) (link : EvidenceLink) : Type 0 where
  pub evidence : EvidenceRecord
  pub found : lookup link.evidence_id evidence_by_id ≡ some evidence
  pub filed : evidence.evidence_id ≡ link.evidence_id
  pub span : EvidenceSpan
  pub extracted : evidence.extracted_span ≡ some span
  pub quoted : occurs link.supporting_span span.text ≡ true

abbrev pub is_failure : CheckResult → Bool
is_failure check = check.outcome == CheckOutcome.fail_deterministic

-- The two tests that a link has to pass.
abbrev pub passes : EvidenceLink → EvidenceById → Bool
passes link m =
    is_filed link (lookup link.evidence_id m) && record_holds_span link (lookup link.evidence_id m)

passes-IsSupported :
    (link : EvidenceLink) (m : EvidenceById) → passes link m ≡ true → IsSupported m link
passes-IsSupported link m h = elim (Option-cases (lookup link.evidence_id m)) [
  | inl absent ↦ absurd (ground arith)
  | inr (evidence, found) ↦ elim (Option-cases evidence.extracted_span) [
    | inl missing ↦ absurd (ground arith)
    | inr (span, extracted) ↦ record {
      evidence = evidence;
      found = found;
      filed = ground (arith, ==_iff evidence.evidence_id link.evidence_id);
      span = span;
      extracted = extracted;
      quoted = ground arith;
    }
  ]
]

pub IsSupported-passes :
    (link : EvidenceLink) (m : EvidenceById) → IsSupported m link → passes link m ≡ true
IsSupported-passes link m s = ground (arith, ==_iff s.evidence.evidence_id link.evidence_id)

module _ (m : EvidenceById) where
  -- A link adds a failure exactly if it does not pass.
  failure-link_checks :
      (link : EvidenceLink) (links : List EvidenceLink)
      → any is_failure (link_checks (link ∷ links) m)
        ≡ (not (passes link m) || any is_failure (link_checks links m))
  unfolding link_checks
  failure-link_checks link links = ground arith

  link_checks-IsSupported :
      (links : List EvidenceLink)
      → any is_failure (link_checks links m) ≡ false
      → All (IsSupported m) links
  link_checks-IsSupported [] h = tt
  link_checks-IsSupported (link ∷ links) h = (
    passes-IsSupported link m (ground (arith, failure-link_checks link links)),
    link_checks-IsSupported links (ground (arith, failure-link_checks link links)),
  )

  IsSupported-link_checks :
      (links : List EvidenceLink)
      → All (IsSupported m) links
      → any is_failure (link_checks links m) ≡ false
  unfolding link_checks
  IsSupported-link_checks [] h = refl
  IsSupported-link_checks (link ∷ links) h = rw (
    failure-link_checks link links,
    IsSupported-passes link m h.0,
    IsSupported-link_checks links h.1,
  )

-- The checks of a claim report no failure exactly when the claim has a link and every link is
-- supported by recorded evidence.
pub run_deterministic_checks_iff :
    (claim : AtomicClaim) (m : EvidenceById)
    → (any is_failure (run_deterministic_checks claim m) ≡ false)
      ↔ ((claim.evidence_links ≢ []) × All (IsSupported m) claim.evidence_links)
unfolding run_deterministic_checks
run_deterministic_checks_iff claim m = by_links claim.evidence_links refl
  where
    by_links :
        (links : List EvidenceLink)
        → claim.evidence_links ≡ links
        → (any is_failure (run_deterministic_checks claim m) ≡ false)
          ↔ ((claim.evidence_links ≢ []) × All (IsSupported m) claim.evidence_links)
    by_links [] e = (λ h. absurd (ground arith), λ (some', _). absurd (some' e))
    by_links (link ∷ links) e = (
      λ h. (λ p. cc, link_checks-IsSupported m claim.evidence_links (ground arith)),
      λ (_, supported). ground (arith, IsSupported-link_checks m claim.evidence_links supported),
    )

abbrev pub asks_review : CheckResult → Bool
asks_review check = check.outcome == CheckOutcome.requires_independent_review

link_checks-asks_review :
    (links : List EvidenceLink) (m : EvidenceById) → any asks_review (link_checks links m) ≡ false
unfolding link_checks
link_checks-asks_review [] m = refl
link_checks-asks_review (link ∷ links) m = ground (arith, link_checks-asks_review links m)

pub run_deterministic_checks-asks_review :
    (claim : AtomicClaim) (m : EvidenceById)
    → any asks_review (run_deterministic_checks claim m) ≡ false
unfolding run_deterministic_checks
run_deterministic_checks-asks_review claim m =
    ground (arith, link_checks-asks_review claim.evidence_links m)

-- The check of a single link passes exactly when the link is supported.
pub check_evidence_link_iff :
    (link : EvidenceLink) (m : EvidenceById)
    → ((check_evidence_link link m).outcome ≡ CheckOutcome.pass_deterministic) ↔ IsSupported m link
unfolding check_evidence_link
check_evidence_link_iff link m = (
  λ h. passes-IsSupported link m (ground arith),
  λ s. ground (arith, IsSupported-passes link m s),
)
