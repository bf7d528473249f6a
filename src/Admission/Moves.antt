-- ===== src/Admission/Moves.antt =====
-- Exactly which moves of a claim the admission engine lets through.
use super_scientist_orchestr.Prelude.{
  String, ◌≡◌, sym, ◌∙◌, ◌≢◌, ◌↔◌, ◌⊎◌, inl, inr, Bool, true, false, some, [], arith, Option-cases,
  ==_iff, nat_eq, string_eq, option_eq, list_eq, all, any, All, subset, lookup,
}
use super_scientist_orchestr.Claim.{ClaimStatus, status_eq, link_eq, AtomicClaim, version_id}
use super_scientist_orchestr.Drift.{run_deterministic_checks}
use super_scientist_orchestr.Drift.Support.{
  IsSupported, is_failure, run_deterministic_checks_iff, run_deterministic_checks-asks_review,
}
use super_scientist_orchestr.Admission.Checks.{is_known_code, required_checks_pass-supported}
use super_scientist_orchestr.Admission.Proposals.{Envelope}
use super_scientist_orchestr.Admission.{
  AdmissionContext, decide_evidence, decide_move, decide_transition, required_checks_pass,
}
use super_scientist_orchestr.Admission.Transitions.{
  IsSuccession, decide_move-IsSuccession, decide_move_cases,
}

-- A withdrawal changes nothing but the status and the lineage.
pub record Withdraws (next current : AtomicClaim) : Type 0 where
  pub status : next.status ≡ ClaimStatus.withdrawn
  pub assumptions : next.assumptions ≡ current.assumptions
  pub links : next.evidence_links ≡ current.evidence_links

-- A move that rests on evidence: every link is supported, linking adds a link, and the policy asks
-- for no check beyond the deterministic ones.
pub record Substantiates (next current : AtomicClaim) (context : AdmissionContext) : Type 0 where
  pub status : (next.status ≡ ClaimStatus.evidence_linked) ⊎ (next.status ≡ ClaimStatus.testable)
  pub new_link :
      next.status ≡ ClaimStatus.evidence_linked
      → subset next.evidence_links current.evidence_links ≡ false
  pub linked : next.evidence_links ≢ []
  pub supported : All (IsSupported context.evidence_by_id) next.evidence_links
  pub known_checks : all is_known_code context.required_claim_checks ≡ true

module _ (id : String) (next current : AtomicClaim) (context : AdmissionContext) where
  abbrev checks_pass : Bool
  checks_pass =
      required_checks_pass (run_deterministic_checks next context.evidence_by_id)
        context.required_claim_checks

  decide_evidence-Substantiates :
      (next.status ≡ ClaimStatus.evidence_linked) ⊎ (next.status ≡ ClaimStatus.testable)
      → (decide_evidence id next current context).accepted ≡ true
      → Substantiates next current context
  unfolding decide_evidence
  decide_evidence-Substantiates status h =
      let no_failure : any is_failure (run_deterministic_checks next context.evidence_by_id)
          ≡ false =
        ground arith in
      let passed : checks_pass ≡ true = ground arith in
      let (linked, supported) =
        (run_deterministic_checks_iff next context.evidence_by_id).0 no_failure in
      record {
        status = status;
        new_link = λ e. ground arith;
        linked = linked;
        supported = supported;
        known_checks =
            sym (
              required_checks_pass-supported next context.evidence_by_id
                context.required_claim_checks linked supported)
            ∙ passed;
      }

  Substantiates-decide_evidence :
      Substantiates next current context → (decide_evidence id next current context).accepted ≡ true
  unfolding decide_evidence
  Substantiates-decide_evidence s = ground (
    arith,
    s.new_link,
    (run_deterministic_checks_iff next context.evidence_by_id).1 (s.linked, s.supported),
    run_deterministic_checks-asks_review next context.evidence_by_id,
    required_checks_pass-supported next context.evidence_by_id context.required_claim_checks
        s.linked s.supported,
  )

module _ (envelope : Envelope) (next current : AtomicClaim) (context : AdmissionContext) where
  Substantiates-decide_move :
      IsSuccession envelope next current
      → Substantiates next current context
      → (decide_move envelope next current context).accepted ≡ true
  unfolding decide_move
  Substantiates-decide_move s t = ground (
    arith,
    (==_iff next.created_by envelope.proposer.actor_id).1 s.creator,
    (==_iff next.parent_version_id (some (version_id current.claim_id current.version))).1 s.parent,
    (==_iff next.proposition current.proposition).1 s.proposition,
    (==_iff next.scope current.scope).1 s.scope,
    (==_iff next.population_or_system current.population_or_system).1 s.population,
    (==_iff next.epistemic_modality current.epistemic_modality).1 s.modality,
    Substantiates-decide_evidence envelope.proposal_id next current context t,
  )

  Withdraws-decide_move :
      IsSuccession envelope next current
      → Withdraws next current
      → (decide_move envelope next current context).accepted ≡ true
  unfolding decide_move
  Withdraws-decide_move s t = ground (
    arith,
    (==_iff next.created_by envelope.proposer.actor_id).1 s.creator,
    (==_iff next.parent_version_id (some (version_id current.claim_id current.version))).1 s.parent,
    (==_iff next.proposition current.proposition).1 s.proposition,
    (==_iff next.scope current.scope).1 s.scope,
    (==_iff next.population_or_system current.population_or_system).1 s.population,
    (==_iff next.epistemic_modality current.epistemic_modality).1 s.modality,
    (==_iff next.assumptions current.assumptions).1 t.assumptions,
    (==_iff next.evidence_links current.evidence_links).1 t.links,
  )

  let_through :
      (decide_move envelope next current context).accepted ≡ true
      → Withdraws next current ⊎ Substantiates next current context
  let_through h = elim (decide_move_cases envelope next current context h) [
    | inl (status, assumptions, links) ↦
        inl (record { status = status; assumptions = assumptions; links = links })
    | inr (status, accepted) ↦
        inr
          (decide_evidence-Substantiates envelope.proposal_id next current context status accepted)
  ]

-- The engine accepts a transition exactly when the claim has a recorded head that it succeeds, with
-- its content, proposer, version and parent intact and by an allowed move, and it either withdraws
-- the claim and changes nothing else, or moves it to EVIDENCE_LINKED or TESTABLE on supported links
-- under a policy that requires only the deterministic checks.
pub decide_transition_iff :
    (envelope : Envelope) (next : AtomicClaim) (context : AdmissionContext)
    → ((decide_transition envelope next context).accepted ≡ true) ↔ (
        (current : AtomicClaim) × (lookup next.claim_id context.claim_by_id ≡ some current)
        × IsSuccession envelope next current
        × (Withdraws next current ⊎ Substantiates next current context))
unfolding decide_transition
decide_transition_iff envelope next context = (onwards, back)
  where
    onwards :
        (decide_transition envelope next context).accepted ≡ true
        → (current : AtomicClaim) × (lookup next.claim_id context.claim_by_id ≡ some current)
          × IsSuccession envelope next current
          × (Withdraws next current ⊎ Substantiates next current context)
    onwards h = elim (Option-cases (lookup next.claim_id context.claim_by_id)) [
      | inl absent ↦ absurd (ground arith)
      | inr (current, found) ↦
          let moved : (decide_move envelope next current context).accepted ≡ true = ground arith in
          (
            current,
            found,
            decide_move-IsSuccession envelope next current context moved,
            let_through envelope next current context moved,
          )
    ]

    back :
        ((current : AtomicClaim) × (lookup next.claim_id context.claim_by_id ≡ some current)
          × IsSuccession envelope next current
          × (Withdraws next current ⊎ Substantiates next current context))
        → (decide_transition envelope next context).accepted ≡ true
    back (current, found, s, inl t) =
        rw (found, decide_transition) (Withdraws-decide_move envelope next current context s t)
    back (current, found, s, inr t) =
        rw (found, decide_transition) (Substantiates-decide_move envelope next current context s t)
