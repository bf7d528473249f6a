-- ===== src/Collaboration/Engine/Runs.antt =====
-- The runs of a collaboration: what the engine lets pass, and how long a run can be.
use super_scientist_orchestr.Prelude.{
  ℕ, suc, ◌+◌, ◌≤◌, String, ◌≡◌, sym, ap, ◌∙◌, subst, ◌↔◌, true, none, some, List, [], arith,
  bind_inv,
}
use super_scientist_orchestr.Collaboration.{
  Resources, TopologySnapshot, TopologyEvent, PeerRequest, PeerContribution, CollaborationState,
  CollaborationSession, Platform, hash_of,
}
use super_scientist_orchestr.Collaboration.Topology.{build_topology}
use super_scientist_orchestr.Collaboration.Termination.{contribution_depths, set_depth}
use super_scientist_orchestr.Collaboration.Integrity.{initial_edges, counts_bind}
use super_scientist_orchestr.Collaboration.Integrity.Replay.{has_integrity}
use super_scientist_orchestr.Collaboration.Engine.{
  start_state, initial_collaboration_state, exchanged, advance_collaboration, rearranged,
  apply_topology_event,
}
use super_scientist_orchestr.Collaboration.Observation.{with_hashes, observed}
use super_scientist_orchestr.Collaboration.Engine.Exchange.{MayExchange, after_exchange-IsReplayed}
use super_scientist_orchestr.Collaboration.Engine.Rearrangement.{
  MayRearrange, after_event-IsReplayed,
}
use super_scientist_orchestr.Collaboration.Engine.Replayed.{
  IsReplayed, has_integrity-HasParts, sealed-HasParts, IsReplayed-has_integrity,
}
use super_scientist_orchestr.Collaboration.Engine.Start.{started-IsReplayed}
use super_scientist_orchestr.Collaboration.Engine.Advances.{
  build_state-inv, advance_collaboration-inv, advance_collaboration-total,
}
use super_scientist_orchestr.Collaboration.Engine.Changes.{
  apply_topology_event-inv, apply_topology_event-total,
}

-- The states that the engine makes of a session, in so many steps.
pub data Run (platform : Platform) (session : CollaborationSession)
    : ℕ → CollaborationState → Type 0 where
  start :
      {s : CollaborationState}
      → initial_collaboration_state platform session ≡ some s
      → Run platform session 0 s
  exchange :
      {n : ℕ} {s s' : CollaborationState} (r : PeerRequest) (c : PeerContribution) (u : Resources)
      → Run platform session n s
      → advance_collaboration platform session s r c u ≡ some s'
      → Run platform session (suc n) s'
  rearrange :
      {n : ℕ} {s s' : CollaborationState} (event : TopologyEvent)
      → Run platform session n s
      → apply_topology_event platform session s event ≡ some s'
      → Run platform session (suc n) s'

module _ (platform : Platform) (session : CollaborationSession) where
  start-IsReplayed :
      (s : CollaborationState)
      → initial_collaboration_state platform session ≡ some s
      → (s.session ≡ session) × (s.scheduling_position ≡ 0) × IsReplayed platform s []
  unfolding initial_collaboration_state observed start_state with_hashes contribution_depths
  start-IsReplayed s h =
      let (topology, built, more) =
        bind_inv (build_topology platform session.initial_active_peer_ids (initial_edges session)) _
          h in
      let payload = with_hashes platform (start_state platform session topology) none 0 [] in
      let (valid, result) = build_state-inv platform payload s more in
      let hash = hash_of platform (platform.dump_state payload) in
      (
        ap (λ (t : CollaborationState). t.session) result,
        ap (λ (t : CollaborationState). t.scheduling_position) result,
        subst (λ (t : CollaborationState). IsReplayed platform t []) (sym result)
            (started-IsReplayed platform session topology hash (
              sealed-HasParts platform payload hash
                (has_integrity-HasParts platform payload valid))),
      )

  -- What is known of a state of a run.
  pub record IsReached (n : ℕ) (s : CollaborationState) : Type 0 where
    pub of_session : s.session ≡ session
    pub position : s.scheduling_position ≡ n
    pub depths : List (String × ℕ)
    pub invariant : IsReplayed platform s depths

  exchange-IsReached :
      (n : ℕ) (s s' : CollaborationState) (r : PeerRequest) (c : PeerContribution) (u : Resources)
      → IsReached n s
      → advance_collaboration platform session s r c u ≡ some s'
      → IsReached (suc n) s'
  unfolding with_hashes exchanged
  exchange-IsReached n s s' r c u reached h =
      let inv = reached.invariant in
      let (depth, may, hash, e) = advance_collaboration-inv platform s reached.depths inv r c u (
        subst (λ (v : CollaborationSession). advance_collaboration platform v s r c u ≡ some s')
          (sym reached.of_session) h) in
      record {
        of_session = ap (λ (t : CollaborationState). t.session) e ∙ reached.of_session;
        position =
            let p = ap (λ (t : CollaborationState). t.scheduling_position) e in
            let q = reached.position in omega arith;
        depths = set_depth c.contribution_id depth reached.depths;
        invariant =
            subst
              (λ (t : CollaborationState).
                IsReplayed platform t (set_depth c.contribution_id depth reached.depths))
              (sym e)
              (after_exchange-IsReplayed platform s reached.depths inv r c u depth may hash);
      }

  rearrange-IsReached :
      (n : ℕ) (s s' : CollaborationState) (event : TopologyEvent)
      → IsReached n s
      → apply_topology_event platform session s event ≡ some s'
      → IsReached (suc n) s'
  unfolding with_hashes rearranged
  rearrange-IsReached n s s' event reached h =
      let inv = reached.invariant in
      let (after, may, hash, e) = apply_topology_event-inv platform s reached.depths inv event (
        subst (λ (v : CollaborationSession). apply_topology_event platform v s event ≡ some s')
          (sym reached.of_session) h) in
      record {
        of_session = ap (λ (t : CollaborationState). t.session) e ∙ reached.of_session;
        position =
            let p = ap (λ (t : CollaborationState). t.scheduling_position) e in
            let q = reached.position in omega arith;
        depths = reached.depths;
        invariant =
            subst (λ (t : CollaborationState). IsReplayed platform t reached.depths) (sym e)
              (after_event-IsReplayed platform s reached.depths inv event after may hash);
      }

  pub Run-IsReached : {n : ℕ} {s : CollaborationState} → Run platform session n s → IsReached n s
  Run-IsReached (start {s} h) =
      let (e, p, inv) = start-IsReplayed s h in
      record { of_session = e; position = p; depths = []; invariant = inv }
  Run-IsReached (exchange {n} {s} {s'} r c u run h) =
      exchange-IsReached n s s' r c u (Run-IsReached run) h
  Run-IsReached (rearrange {n} {s} {s'} event run h) =
      rearrange-IsReached n s s' event (Run-IsReached run) h

  -- In a run the engine makes an exchange exactly if it passes the engine's checks and its request
  -- is new, and applies a topology event exactly if that passes the engine's checks: the validator of
  -- the state, which replays all transitions, rejects nothing but a request that is used again.
  pub Run-steps_iff :
      {n : ℕ} {s : CollaborationState}
      → Run platform session n s
      → ((r : PeerRequest) (c : PeerContribution) (u : Resources)
          → ((s' : CollaborationState) × (advance_collaboration platform session s r c u ≡ some s'))
            ↔ ((depth : ℕ) × MayExchange platform s r c u depth))
        × ((event : TopologyEvent)
            → ((s' : CollaborationState) × (apply_topology_event platform session s event
                  ≡ some s'))
              ↔ ((after : TopologySnapshot) × MayRearrange platform s event after))
  Run-steps_iff {n} {s} run =
      let reached = Run-IsReached run in
      let inv = reached.invariant in
      (
        λ r c u.
            subst
              (λ (v : CollaborationSession).
                ((s' : CollaborationState) × (advance_collaboration platform v s r c u ≡ some s'))
                ↔ ((depth : ℕ) × MayExchange platform s r c u depth))
              reached.of_session
              (
                λ (s', h).
                    let (depth, may, _, _) =
                      advance_collaboration-inv platform s reached.depths inv r c u h in
                    (depth, may),
                λ (depth, may).
                    advance_collaboration-total platform s reached.depths inv r c u depth may,
              ),
        λ event.
            subst
              (λ (v : CollaborationSession).
                ((s' : CollaborationState) × (apply_topology_event platform v s event ≡ some s'))
                ↔ ((after : TopologySnapshot) × MayRearrange platform s event after))
              reached.of_session
              (
                λ (s', h).
                    let (after, may, _, _) =
                      apply_topology_event-inv platform s reached.depths inv event h in
                    (after, may),
                λ (after, may).
                    apply_topology_event-total platform s reached.depths inv event after may,
              ),
      )

  -- A run has at most as many steps as the budget has hops and topology changes, and each of its
  -- states passes the validator.
  pub Run-bounded :
      {n : ℕ} {s : CollaborationState}
      → Run platform session n s
      → (n ≤ session.budget.max_hops + session.budget.max_topology_changes)
        × (has_integrity platform s ≡ true)
  unfolding counts_bind
  Run-bounded {n} {s} run =
      let reached = Run-IsReached run in
      let counts = reached.invariant.parts.counts in
      let position = reached.position in
      let within : n ≤ s.session.budget.max_hops + s.session.budget.max_topology_changes =
        ground arith in
      (
        subst (λ (v : CollaborationSession). n ≤ v.budget.max_hops + v.budget.max_topology_changes)
            reached.of_session within,
        IsReplayed-has_integrity platform s reached.depths reached.invariant,
      )
