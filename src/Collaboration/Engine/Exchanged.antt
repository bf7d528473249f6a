-- ===== src/Collaboration/Engine/Exchanged.antt =====
-- The checks of `advance_collaboration` beside those of `require_semantic_integrity` on one exchange.
use super_scientist_orchestr.Prelude.{
  ℕ, ◌+◌, String, ◌≡◌, refl, sym, ap, ◌∙◌, subst, true, false, not, ◌&&◌, Option, none, some, List,
  [], ◌∷◌, ◌++◌, arith, ltb, leb, and_left, and_right, ==_iff, ==_comm, nat_eq, string_eq,
  option_eq, list_eq, pair_eq, bool_eq, length, all, contains, subset, last, bind_inv, is_some,
  bind_intro, guard_intro, some_inj, guard_inv,
}
use super_scientist_orchestr.Collaboration.{
  Resources, artifact_eq, PeerRequest, PeerContribution, CollaborationState, Platform,
}
use super_scientist_orchestr.Collaboration.Usage.{
  accumulate, accumulate-append, add_usage, within_budget, usage_matches, remaining,
}
use super_scientist_orchestr.Collaboration.Topology.{eligible_peer_ids, first, peer_ids}
use super_scientist_orchestr.Collaboration.Termination.{
  peers_of, parent_depth, set_depth, contribution_depths,
}
use super_scientist_orchestr.Collaboration.Integrity.{
  parent_binds, is_declared_sender, exchange_binds, exchange_step,
}
use super_scientist_orchestr.Collaboration.Engine.Progressed.{map-append-last}
use super_scientist_orchestr.Collaboration.Engine.{
  contribution_ids_of, exchanged, is_expected, has_declared_uses, next_peer, evaluate_termination,
  require_parents, is_affordable,
}
use super_scientist_orchestr.Collaboration.Observation.{request_ids_of}
use super_scientist_orchestr.Collaboration.Engine.Retained.{
  retained_of, last-is_declared_sender, eligible-declared,
}

module _ (platform : Platform) (s : CollaborationState) where
  expected-next :
      (r : PeerRequest) (c : PeerContribution)
      → is_expected platform s.session s r c ≡ true
      → next_peer platform s.session s ≡ some r.recipient_id
  unfolding is_expected
  expected-next r c h =
      (==_iff (next_peer platform s.session s) (some r.recipient_id)).0 (ground arith)

  pub expected-first :
      (r : PeerRequest) (c : PeerContribution)
      → is_expected platform s.session s r c ≡ true
      → first (
          eligible_peer_ids s.session s.topology
            (peers_of s.contributions)
            (last (peers_of s.contributions)))
        ≡ some r.recipient_id
  unfolding next_peer
  expected-first r c h =
      (guard_inv (is_some (evaluate_termination platform s)) _ (expected-next r c h)).1

  exchange_binds-expected :
      (r : PeerRequest) (c : PeerContribution) (depths : List (String × ℕ))
      → is_expected platform s.session s r c ≡ true
      → has_declared_uses platform s.session r c ≡ true
      → parent_binds r.parent_contribution_id
          (contribution_ids_of platform s.contributions)
          c.parent_contribution_ids
        ≡ true
      → subset c.parent_contribution_ids (contribution_ids_of platform s.contributions) ≡ true
      → all (contains (peer_ids s.session)) (peers_of s.contributions) ≡ true
      → contains (request_ids_of platform s.requests) r.request_id ≡ false
      → exchange_binds platform s.session
          (retained_of platform s depths)
          (length s.requests + 1)
          r
          c
        ≡ true
  unfolding is_expected has_declared_uses exchange_binds retained_of
  exchange_binds-expected r c depths h uses binds parents declared fresh =
      let sender : is_declared_sender s.session r.sender_id ≡ true =
        ap (is_declared_sender s.session)
          ((==_iff r.sender_id (last (peers_of s.contributions))).0 (ground arith))
        ∙ last-is_declared_sender platform s.session s.contributions declared in
      let recipient : contains (peer_ids s.session) r.recipient_id ≡ true =
        (eligible-declared platform s.session s.topology (peers_of s.contributions)
          (last (peers_of s.contributions)) (expected-first r c h)).0 in
      ground (arith, ==_comm c.peer_id r.recipient_id)

  -- What `require_parents` checks, and the depth that it derives.
  pub require_parents-inv :
      (r : PeerRequest) (c : PeerContribution) (depths : List (String × ℕ)) {depth : ℕ}
      → contribution_depths [] s.contributions ≡ some depths
      → require_parents platform s.session s r c ≡ some depth
      → ((parent_binds r.parent_contribution_id
              (contribution_ids_of platform s.contributions)
              c.parent_contribution_ids
            ≡ true)
          × (subset c.parent_contribution_ids (contribution_ids_of platform s.contributions)
              ≡ true))
        × (parent_depth depths c.parent_contribution_ids ≡ some depth)
        × (leb depth s.session.budget.max_parent_depth ≡ true)
  unfolding require_parents
  require_parents-inv r c depths {depth} d h =
      let known = contribution_ids_of platform s.contributions in
      let (g, h1) =
        guard_inv
          (not (
            parent_binds r.parent_contribution_id known c.parent_contribution_ids
            && subset c.parent_contribution_ids known))
          _ h in
      let (depths', e, h2) = bind_inv (contribution_depths [] s.contributions) _ h1 in
      let (found, f, h3) = bind_inv (parent_depth depths' c.parent_contribution_ids) _ h2 in
      let (bound, same) = guard_inv (ltb s.session.budget.max_parent_depth found) _ h3 in
      let equal : depths' ≡ depths = some_inj (sym e ∙ d) in
      (
        (ground arith, ground arith),
        subst (λ l. parent_depth l c.parent_contribution_ids ≡ some depth) equal (f ∙ same),
        ground (arith, some_inj same),
      )

  -- What `is_affordable` checks.
  pub is_affordable-inv :
      (r : PeerRequest) (u : Resources)
      → is_affordable platform s.session s r u ≡ true
      → (expected : Resources) × (remaining platform
            (accumulate s.usage_history)
            s.session.budget.resources
          ≡ some expected)
        × (usage_matches r.remaining_budget expected ≡ true)
        × (within_budget (add_usage (accumulate s.usage_history) u) s.session.budget.resources
            ≡ true)
  unfolding is_affordable
  is_affordable-inv r u h =
      at_rest (remaining platform (accumulate s.usage_history) s.session.budget.resources) refl h
    where
      at_rest :
          (o : Option Resources)
          → remaining platform (accumulate s.usage_history) s.session.budget.resources ≡ o
          → (elim o [
            | none ↦ false
            | some expected ↦
                usage_matches r.remaining_budget expected
                && within_budget (accumulate (s.usage_history ++ u ∷ [])) s.session.budget.resources
          ])
            ≡ true
          → (expected : Resources) × (remaining platform
                (accumulate s.usage_history)
                s.session.budget.resources
              ≡ some expected)
            × (usage_matches r.remaining_budget expected ≡ true)
            × (within_budget (add_usage (accumulate s.usage_history) u) s.session.budget.resources
                ≡ true)
      at_rest none e k = absurd (ground arith)
      at_rest (some expected) e k =
          let bound =
            and_right (usage_matches r.remaining_budget expected)
              (within_budget (accumulate (s.usage_history ++ u ∷ [])) s.session.budget.resources)
              k in
          (
            expected,
            e,
            and_left (usage_matches r.remaining_budget expected) _ k,
            subst (λ t. within_budget t s.session.budget.resources ≡ true)
                (accumulate-append s.usage_history u) bound,
          )

  -- One exchange passes the checks of the validator, which keeps what the engine derives.
  pub exchange_step-retained_of :
      (r : PeerRequest) (c : PeerContribution) (u : Resources) (depths : List (String × ℕ))
      {depth : ℕ}
      → contribution_depths [] s.contributions ≡ some depths
      → is_expected platform s.session s r c ≡ true
      → has_declared_uses platform s.session r c ≡ true
      → require_parents platform s.session s r c ≡ some depth
      → is_affordable platform s.session s r u ≡ true
      → all (contains (peer_ids s.session)) (peers_of s.contributions) ≡ true
      → contains (request_ids_of platform s.requests) r.request_id ≡ false
      → exchange_step platform s.session
          (retained_of platform s depths)
          (length s.requests + 1)
          r
          c
          u
        ≡ some (
            retained_of platform
              (exchanged platform s.session s r c u)
              (set_depth c.contribution_id depth depths))
  unfolding exchange_step retained_of exchanged
  exchange_step-retained_of r c u depths {depth} d h uses p a declared fresh =
      let ((binds, parents), found, bound) = require_parents-inv r c depths d p in
      let (expected, rest, matches, within) = is_affordable-inv r u a in
      guard_intro (ap not (exchange_binds-expected r c depths h uses binds parents declared fresh))
        (bind_intro _ found (
          bind_intro _ rest (
            guard_intro
              {b = not (
                leb depth s.session.budget.max_parent_depth
                && usage_matches r.remaining_budget expected
                && within_budget (add_usage (accumulate s.usage_history) u)
                    s.session.budget.resources)}
              (ground arith)
              (ground (
                arith,
                map-append-last (λ c. c.contribution_id) s.contributions c,
                map-append-last (λ r. r.request_id) s.requests r,
                accumulate-append s.usage_history u,
              )))))
