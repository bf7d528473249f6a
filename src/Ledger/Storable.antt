-- ===== src/Ledger/Storable.antt =====
-- What the engine decides on a proposal of the kernel, beside what `project` can write of it.
use super_scientist_orchestr.Prelude.{
  ◌+◌, String, ◌≡◌, refl, inl, inr, true, false, Option, none, some, List, [], ◌∷◌, map, arith,
  Option-cases, ==_iff, nat_eq, string_eq, option_eq, list_eq, pair_eq, bool_eq, contains, lookup,
  is_some, pair_eq,
}
use super_scientist_orchestr.Claim.{AtomicClaim, version_id}
use super_scientist_orchestr.Admission.Proposals.{Proposal, Envelope, proposal_id}
use super_scientist_orchestr.Admission.{
  AdmissionContext, rejected, admitted, decide_valid, decide_new, decide_approved,
  decide_propose_claim, decide_add_evidence, decide_transition, decide_move, decide_evidence,
}
use super_scientist_orchestr.Admission.Moves.{decide_transition_iff}
use super_scientist_orchestr.Ledger.{
  PolicySnapshot, Ledger, by_claim_id, build_context, may_follow, add_version, project,
}

-- A proposal of the kernel or an invalid one; a claim that it introduces begins at version 1.
abbrev pub IsStorable : Proposal → Type 0
IsStorable (Proposal.add_evidence e v) = Unit
IsStorable (Proposal.propose_claim e c) = (c.version ≡ 1) × (c.parent_version_id ≡ none)
IsStorable (Proposal.transition_claim e c) = Unit
IsStorable (Proposal.unsupported e kind) = ⊥
IsStorable (Proposal.invalid p) = Unit

decide_move-proposal_id :
    (e : Envelope) (next current : AtomicClaim) (context : AdmissionContext)
    → (decide_move e next current context).proposal_id ≡ e.proposal_id
unfolding decide_move decide_evidence rejected admitted
decide_move-proposal_id e next current context = ground arith

decide_transition-proposal_id :
    (e : Envelope) (next : AtomicClaim) (context : AdmissionContext)
    → (decide_transition e next context).proposal_id ≡ e.proposal_id
unfolding decide_transition rejected
decide_transition-proposal_id e next context =
    elim (Option-cases (lookup next.claim_id context.claim_by_id)) [
      | inl absent ↦ rw (absent, decide_transition) refl
      | inr (current, found) ↦
          rw (found, decide_transition) (decide_move-proposal_id e next current context)
    ]

decide_new-proposal_id :
    (p : Proposal) (context : AdmissionContext) → (decide_new p context).proposal_id ≡ proposal_id p
unfolding decide_new decide_approved decide_add_evidence decide_propose_claim rejected admitted
decide_new-proposal_id (Proposal.transition_claim e next) context =
    ground (arith, decide_transition-proposal_id e next context)
decide_new-proposal_id (Proposal.invalid p) context = refl
decide_new-proposal_id (Proposal.unsupported e k) context = ground arith
decide_new-proposal_id (Proposal.add_evidence e v) context = ground arith
decide_new-proposal_id (Proposal.propose_claim e c) context = ground arith

pub decide_valid-proposal_id :
    (p : Proposal) (policy : PolicySnapshot) (ledger : Ledger)
    → (decide_valid p (build_context policy ledger)).proposal_id ≡ proposal_id p
unfolding decide_valid build_context rejected
decide_valid-proposal_id p policy ledger =
    ground (arith, decide_new-proposal_id p (build_context policy ledger))

unknown_claim :
    (id : String) (versions : List AtomicClaim)
    → contains (map (λ (entry : String × AtomicClaim). entry.0) (by_claim_id versions)) id ≡ false
    → lookup id (by_claim_id versions) ≡ none
unknown_claim id [] h = refl
unknown_claim id (c ∷ cs) h = ground (arith, unknown_claim id cs)

add_version-returns :
    (c : AtomicClaim) (ledger : Ledger) (head : Option AtomicClaim)
    → lookup c.claim_id (by_claim_id ledger.versions) ≡ head
    → may_follow c head ≡ true
    → is_some (add_version c ledger) ≡ true
unfolding add_version
add_version-returns c ledger head e follows = rw (e, follows) refl

-- What the engine accepts of a proposal that begins as it must can be written.
pub project-returns :
    (p : Proposal) (policy : PolicySnapshot) (ledger : Ledger)
    → IsStorable p
    → (decide_new p (build_context policy ledger)).accepted ≡ true
    → is_some (project p ledger) ≡ true
unfolding project decide_new decide_approved decide_propose_claim build_context rejected
project-returns (Proposal.add_evidence e v) policy ledger storable accepted = refl
project-returns (Proposal.propose_claim e c) policy ledger (first, fresh) accepted =
    let absent = unknown_claim c.claim_id ledger.versions (ground arith) in
    add_version-returns c ledger none absent
      (ground (arith, (==_iff c.version 1).1 first, (==_iff c.parent_version_id none).1 fresh))
project-returns (Proposal.transition_claim e next) policy ledger storable accepted =
    let (current, found, s, moved) =
      (decide_transition_iff e next (build_context policy ledger)).0 (ground arith) in
    add_version-returns next ledger (some current) found (
      ground (
        arith,
        (==_iff next.version (current.version + 1)).1 s.version,
        (==_iff next.parent_version_id (some (version_id current.claim_id current.version))).1
            s.parent,
      ))
project-returns (Proposal.unsupported e k) policy ledger storable accepted = elim storable [ ]
project-returns (Proposal.invalid p) policy ledger storable accepted = absurd (ground arith)
