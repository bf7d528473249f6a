-- ===== src/Collaboration/Engine/Advances.antt =====
-- Which exchanges the engine makes of a state with the invariant.
use super_scientist_orchestr.Prelude.{
  ℕ, ◌+◌, String, ◌≡◌, refl, sym, ap, ◌∙◌, subst, true, false, not, ◌&&◌, Option, some, List, [],
  arith, nat_eq, string_eq, option_eq, list_eq, pair_eq, bool_eq, length, contains, before_last,
  bind_inv, is_some, is_some-inv, bind_intro, guard_intro, some_inj, guard_inv,
}
use super_scientist_orchestr.Audit.Chain.{value_beq_refl}
use super_scientist_orchestr.Collaboration.{
  Resources, PeerRequest, PeerContribution, CollaborationState, Platform, hash_of,
}
use super_scientist_orchestr.Collaboration.Termination.{
  topology_hashes, churn_count, contribution_depths, set_depth,
}
use super_scientist_orchestr.Collaboration.Integrity.{
  nothing_retained, exchange_binds, exchanges_bind,
}
use super_scientist_orchestr.Collaboration.Integrity.Replay.{has_integrity}
use super_scientist_orchestr.Collaboration.Engine.{
  evaluate_termination, matches_session, is_expected, has_declared_uses, require_parents,
  is_affordable, exchanged, advance_collaboration,
}
use super_scientist_orchestr.Collaboration.Observation.{
  build_state, with_hashes, observed, request_ids_of,
}
use super_scientist_orchestr.Collaboration.Engine.Retained.{
  retained_of, exchanges_bind-last, exchange_step-binds,
}
use super_scientist_orchestr.Collaboration.Engine.Exchange.{
  MayExchange, known_after, after_exchange, after_exchange-IsReplayed,
}
use super_scientist_orchestr.Collaboration.Engine.Replayed.{
  IsReplayed, IsReplayed-has_integrity, sealed,
}

module _ (platform : Platform) where
  pub build_state-inv :
      (payload s : CollaborationState)
      → build_state platform payload ≡ some s
      → (has_integrity platform payload ≡ true)
        × (s ≡ sealed payload (hash_of platform (platform.dump_state payload)))
  unfolding build_state
  build_state-inv payload s h =
      let (valid, made) = guard_inv (not (has_integrity platform payload)) _ h in
      (ground arith, sym (some_inj made))

  integrity-exchanges :
      (s : CollaborationState)
      → has_integrity platform s ≡ true
      → is_some (
          exchanges_bind platform s.session nothing_retained 1 s.requests s.contributions
            s.usage_history)
        ≡ true
  unfolding has_integrity
  integrity-exchanges s h = ground arith

  module _ (s : CollaborationState) (depths : List (String × ℕ))
      (inv : IsReplayed platform s depths) where
    -- A request whose identifier is taken does not pass the validator.
    integrity-fresh :
        (r : PeerRequest) (c : PeerContribution) (u : Resources) (prior : Option String) (churn : ℕ)
        (depths' : List (String × ℕ))
        → has_integrity platform
            (with_hashes platform (exchanged platform s.session s r c u) prior churn depths')
          ≡ true
        → contains (request_ids_of platform s.requests) r.request_id ≡ false
    unfolding with_hashes exchanged exchange_binds retained_of
    integrity-fresh r c u prior churn depths' h =
        let payload =
          with_hashes platform (exchanged platform s.session s r c u) prior churn depths' in
        let (known, bound) = is_some-inv _ (integrity-exchanges payload h) in
        let step =
          exchanges_bind-last platform s.session nothing_retained 1 (length s.requests + 1)
            s.requests s.contributions s.usage_history r c u (omega arith) inv.retained bound in
        let binds =
          exchange_step-binds platform s.session (retained_of platform s depths)
            (length s.requests + 1) r c u step in
        ground arith

    advance-checks :
        (r : PeerRequest) (c : PeerContribution) (u : Resources)
        → (matches_session platform s.session s
            && not (is_some (evaluate_termination platform s))
            && is_expected platform s.session s r c
            && has_declared_uses platform s.session r c
            && is_some (require_parents platform s.session s r c)
            && is_affordable platform s.session s r u)
          ≡ true
        → contains (request_ids_of platform s.requests) r.request_id ≡ false
        → (depth : ℕ) × MayExchange platform s r c u depth
    advance-checks r c u h fresh =
        let (depth, parents) =
          is_some-inv (require_parents platform s.session s r c) (ground arith) in
        (
          depth,
          record {
            going = ground arith;
            expected = ground arith;
            uses = ground arith;
            parents = parents;
            affordable = ground arith;
            fresh = fresh;
          },
        )

    -- An exchange that the engine makes: it passed the checks, its request was new, and the state
    -- behind it is the derived one.
    pub advance_collaboration-inv :
        (r : PeerRequest) (c : PeerContribution) (u : Resources) {s' : CollaborationState}
        → advance_collaboration platform s.session s r c u ≡ some s'
        → (depth : ℕ) × (may : MayExchange platform s r c u depth) × (hash : String) × (s'
            ≡ after_exchange platform s depths inv r c u depth may hash)
    unfolding advance_collaboration observed exchanged
    advance_collaboration-inv r c u {s'} h =
        let s1 = exchanged platform s.session s r c u in
        let prior = before_last (topology_hashes s.topology_history) in
        let churn = churn_count (topology_hashes s.topology_history) in
        let (checks, made) =
          guard_inv
            (not (
              matches_session platform s.session s
              && not (is_some (evaluate_termination platform s))
              && is_expected platform s.session s r c
              && has_declared_uses platform s.session r c
              && is_some (require_parents platform s.session s r c)
              && is_affordable platform s.session s r u))
            _ h in
        let (payload, seen, built) = bind_inv (observed platform s1 prior churn) _ made in
        let (depths', known, same) = bind_inv (contribution_depths [] s1.contributions) _ seen in
        let (valid, result) = build_state-inv payload s' built in
        let (depth, may) = advance-checks r c u (ground arith) (
          integrity-fresh r c u prior churn depths' (
            subst (λ (p : CollaborationState). has_integrity platform p ≡ true)
              (sym (some_inj same)) valid)) in
        let hash = hash_of platform (platform.dump_state payload) in
        let all_known = known_after platform s depths inv r c u depth may hash in
        (
          depth,
          may,
          hash,
          result
              ∙ ap (λ (p : CollaborationState). sealed p hash) (sym (some_inj same))
              ∙ ap (λ (d : List (String × ℕ)). sealed (with_hashes platform s1 prior churn d) hash)
                  (some_inj (sym known ∙ all_known)),
        )

    -- An exchange that passes the checks and whose request is new is made.
    pub advance_collaboration-total :
        (r : PeerRequest) (c : PeerContribution) (u : Resources) (depth : ℕ)
        → MayExchange platform s r c u depth
        → (s' : CollaborationState) × (advance_collaboration platform s.session s r c u ≡ some s')
    unfolding advance_collaboration observed exchanged with_hashes build_state
    advance_collaboration-total r c u depth may =
        let valid =
          IsReplayed-has_integrity platform
            (after_exchange platform s depths inv r c u depth may "")
            (set_depth c.contribution_id depth depths)
            (after_exchange-IsReplayed platform s depths inv r c u depth may "") in
        (
          _,
          guard_intro
              {b = not (
                matches_session platform s.session s
                && not (is_some (evaluate_termination platform s))
                && is_expected platform s.session s r c
                && has_declared_uses platform s.session r c
                && is_some (require_parents platform s.session s r c)
                && is_affordable platform s.session s r u)}
              (ground (
                arith,
                value_beq_refl (platform.dump_session s.session),
                may.going,
                may.expected,
                may.uses,
                may.parents,
                may.affordable,
              ))
              (bind_intro (build_state platform)
                (bind_intro _ (known_after platform s depths inv r c u depth may "") refl)
                (guard_intro (ap not valid) refl)),
        )
