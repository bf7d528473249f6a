-- ===== src/Collaboration/Engine/Changes.antt =====
-- Which topology events the engine makes of a state with the invariant.
use super_scientist_orchestr.Prelude.{
  ℕ, ◌+◌, String, ◌≡◌, refl, sym, ap, ◌∙◌, not, ◌&&◌, some, List, [], arith, if◌then◌else◌, ◌==◌,
  ◌!=◌, ==_iff, nat_eq, string_eq, option_eq, list_eq, pair_eq, bool_eq, before_last, bind_inv,
  is_some, bind_intro, guard_intro, some_inj, guard_inv,
}
use super_scientist_orchestr.Audit.Chain.{value_beq_refl}
use super_scientist_orchestr.Collaboration.{
  TopologySnapshot, TopologyEvent, CollaborationState, Platform, hash_of,
}
use super_scientist_orchestr.Collaboration.Topology.{apply_topology_operation}
use super_scientist_orchestr.Collaboration.Termination.{
  topology_hashes, churn_count, contribution_depths,
}
use super_scientist_orchestr.Collaboration.Engine.{
  evaluate_termination, matches_session, is_next_event, rearranged, apply_topology_event,
}
use super_scientist_orchestr.Collaboration.Observation.{build_state, with_hashes, observed}
use super_scientist_orchestr.Collaboration.Engine.Rearrangement.{
  MayRearrange, after_event, after_event-IsReplayed,
}
use super_scientist_orchestr.Collaboration.Engine.Replayed.{
  IsReplayed, IsReplayed-has_integrity, sealed,
}
use super_scientist_orchestr.Collaboration.Engine.Advances.{build_state-inv}

module _ (platform : Platform) (s : CollaborationState) (depths : List (String × ℕ))
    (inv : IsReplayed platform s depths) where
  -- A topology event that the engine makes: it passed the checks, and the state behind it is the
  -- derived one.
  pub apply_topology_event-inv :
      (event : TopologyEvent) {s' : CollaborationState}
      → apply_topology_event platform s.session s event ≡ some s'
      → (after : TopologySnapshot) × (may : MayRearrange platform s event after) × (hash : String)
        × (s' ≡ after_event platform s depths inv event after may hash)
  unfolding apply_topology_event observed rearranged
  apply_topology_event-inv event {s'} h =
      let (checks, made) =
        guard_inv
          (not (
            matches_session platform s.session s
            && not (is_some (evaluate_termination platform s))
            && is_next_event platform s.session s event))
          _ h in
      let (after, applied, more) =
        bind_inv (apply_topology_operation platform s.session s.topology event) _ made in
      let (agree, seen) = guard_inv (event.after_topology_hash != after.content_hash) _ more in
      let s1 = rearranged platform s.session s event after in
      let (payload, noted, built) = bind_inv _ (build_state platform) seen in
      let (depths', known, same) = bind_inv (contribution_depths [] s1.contributions) _ noted in
      let (valid, result) = build_state-inv platform payload s' built in
      let hash = hash_of platform (platform.dump_state payload) in
      (
        after,
        record {
          going = ground arith;
          next = ground arith;
          applied = applied;
          hash = ground (arith, ==_iff event.after_topology_hash after.content_hash);
        },
        hash,
        result
            ∙ ap (λ (p : CollaborationState). sealed p hash) (sym (some_inj same))
            ∙ ap
                (λ (d : List (String × ℕ)).
                  sealed
                    (with_hashes platform s1 (some s.topology.content_hash)
                      (churn_count (topology_hashes s.topology_history)
                        + (if before_last (topology_hashes s.topology_history)
                              == some after.content_hash
                            then 1
                            else 0))
                      d)
                    hash)
                (some_inj (sym known ∙ inv.known)),
      )

  -- A topology event that passes the checks is made.
  pub apply_topology_event-total :
      (event : TopologyEvent) (after : TopologySnapshot)
      → MayRearrange platform s event after
      → (s' : CollaborationState) × (apply_topology_event platform s.session s event ≡ some s')
  unfolding apply_topology_event observed rearranged with_hashes build_state
  apply_topology_event-total event after may =
      let valid =
        IsReplayed-has_integrity platform (after_event platform s depths inv event after may "")
          depths (after_event-IsReplayed platform s depths inv event after may "") in
      (
        _,
        guard_intro
            {b = not (
              matches_session platform s.session s
              && not (is_some (evaluate_termination platform s))
              && is_next_event platform s.session s event)}
            (ground (arith, value_beq_refl (platform.dump_session s.session), may.going, may.next))
            (bind_intro _ may.applied (
              guard_intro {b = event.after_topology_hash != after.content_hash}
                (ground (arith, may.hash, ==_iff event.after_topology_hash after.content_hash))
                (bind_intro (build_state platform) (bind_intro _ inv.known refl)
                  (guard_intro (ap not valid) refl)))),
      )
