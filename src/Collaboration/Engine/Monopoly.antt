-- ===== src/Collaboration/Engine/Monopoly.antt =====
-- What the bound on the share of a peer does to a run.
use super_scientist_orchestr.Prelude.{
  ℕ, ◌*◌, ◌≤◌, ◌<◌, String, ◌≡◌, refl, sym, ap, subst, ◌⊎◌, inl, inr, true, false, some, List, [],
  ◌∷◌, arith, ltb, lt→ltb, ==_refl, nat_eq, string_eq, option_eq, list_eq, pair_eq, bool_eq, length,
  length-append, is_some,
}
use super_scientist_orchestr.Collaboration.{
  TopologyEvent, PeerRequest, PeerContribution, Resources, CollaborationState, CollaborationSession,
  Platform,
}
use super_scientist_orchestr.Collaboration.Termination.{summarize, termination_reason, any_count}
use super_scientist_orchestr.Collaboration.Engine.{
  evaluate_termination, exchanged, rearranged, advance_collaboration, apply_topology_event,
}
use super_scientist_orchestr.Collaboration.Integrity.{counts_bind}
use super_scientist_orchestr.Collaboration.Observation.{with_hashes}
use super_scientist_orchestr.Collaboration.Engine.Advances.{advance_collaboration-inv}
use super_scientist_orchestr.Collaboration.Engine.Changes.{apply_topology_event-inv}
use super_scientist_orchestr.Collaboration.Engine.Runs.{Run, IsReached, Run-IsReached}

-- One contribution alone is above any share below 1.
lone_share :
    (p : String) (share one : ℕ)
    → share < one
    → any_count (λ n. ltb (share * 1) (n * one)) (p ∷ []) ≡ true
lone_share p share one less =
    let k = ==_refl p in
    let l = lt→ltb (share * 1) (1 * one) (omega arith) in rw k (ground (arith, l))

ended_alone :
    (platform : Platform) (s : CollaborationState) (c : PeerContribution)
    → s.contributions ≡ c ∷ []
    → s.session.budget.max_peer_contribution_share < platform.one
    → is_some (evaluate_termination platform s) ≡ true
unfolding evaluate_termination termination_reason summarize
ended_alone platform s c e less =
    let share =
      lone_share c.peer_id s.session.budget.max_peer_contribution_share platform.one less in
    rw e (ground (arith, share))

at_most_one :
    {A : Type 0} (xs : List A) → length xs ≤ 1 → (length xs ≡ 0) ⊎ ((x : A) × (xs ≡ x ∷ []))
at_most_one [] h = inl refl
at_most_one (x ∷ []) h = inr (x, refl)
at_most_one (x ∷ y ∷ xs) h = absurd (omega (arith, h))

module _ (platform : Platform) (session : CollaborationSession)
    (less : session.budget.max_peer_contribution_share < platform.one) where
  -- A state that goes on has no contribution, if it has at most one.
  going_alone :
      {n : ℕ} {s : CollaborationState}
      → IsReached platform session n s
      → length s.contributions ≤ 1
      → is_some (evaluate_termination platform s) ≡ false
      → length s.contributions ≡ 0
  going_alone {n} {s} reached few going = elim (at_most_one s.contributions few) [
    | inl none_yet ↦ none_yet
    | inr (c, one_yet) ↦
        let share =
          subst (λ (v : CollaborationSession). v.budget.max_peer_contribution_share < platform.one)
            (sym reached.of_session) less in
        let ended = ended_alone platform s c one_yet share in absurd (ground (arith, ended, going))
  ]

  exchanged_once :
      {n : ℕ} {s s' : CollaborationState} (r : PeerRequest) (c : PeerContribution) (u : Resources)
      → IsReached platform session n s
      → length s.contributions ≤ 1
      → advance_collaboration platform session s r c u ≡ some s'
      → length s'.contributions ≤ 1
  unfolding with_hashes exchanged
  exchanged_once {n} {s} {s'} r c u reached few h =
      let (depth, may, hash, e) =
        advance_collaboration-inv platform s reached.depths reached.invariant r c u (
          subst (λ (v : CollaborationSession). advance_collaboration platform v s r c u ≡ some s')
            (sym reached.of_session) h) in
      let none_yet = going_alone reached few may.going in
      let grown = ap (λ (t : CollaborationState). length t.contributions) e in
      let size = length-append s.contributions (c ∷ []) in omega arith

  rearranged_once :
      {n : ℕ} {s s' : CollaborationState} (event : TopologyEvent)
      → IsReached platform session n s
      → length s.contributions ≤ 1
      → apply_topology_event platform session s event ≡ some s'
      → length s'.contributions ≤ 1
  unfolding with_hashes rearranged
  rearranged_once {n} {s} {s'} event reached few h =
      let (after, may, hash, e) =
        apply_topology_event-inv platform s reached.depths reached.invariant event (
          subst (λ (v : CollaborationSession). apply_topology_event platform v s event ≡ some s')
            (sym reached.of_session) h) in
      let same = ap (λ (t : CollaborationState). length t.contributions) e in omega arith

  -- Where the bound on the share of a peer is below 1, a run has at most one contribution, as the
  -- first one alone is above the bound.
  pub Run-single :
      {n : ℕ} {s : CollaborationState} → Run platform session n s → length s.contributions ≤ 1
  unfolding counts_bind
  Run-single (Run.start {s} h) =
      let reached = Run-IsReached platform session (Run.start h) in
      let counts = reached.invariant.parts.counts in let position = reached.position in ground arith
  Run-single (Run.exchange {n} {s} {s'} r c u run h) =
      exchanged_once r c u (Run-IsReached platform session run) (Run-single run) h
  Run-single (Run.rearrange {n} {s} {s'} event run h) =
      rearranged_once event (Run-IsReached platform session run) (Run-single run) h
