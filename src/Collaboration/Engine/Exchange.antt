-- ===== src/Collaboration/Engine/Exchange.antt =====
-- `advance_collaboration` beside the invariant of the engine's states.
use super_scientist_orchestr.Prelude.{
  ℕ, ◌+◌, String, ◌≡◌, refl, sym, ap, ◌∙◌, true, false, none, some, List, [], ◌∷◌, ◌++◌, arith,
  ==_iff, nat_eq, string_eq, option_eq, list_eq, pair_eq, bool_eq, length, contains, get_elem?,
  last, before_last, get_elem?-length, is_some, bind_intro,
}
use super_scientist_orchestr.Collaboration.{
  Resources, PeerRequest, PeerContribution, CollaborationState, CollaborationTransitionKind,
  CollaborationTransition, Platform,
}
use super_scientist_orchestr.Collaboration.Termination.{
  peers_of, topology_hashes, churn_count, contribution_depths, add_depth, set_depth,
}
use super_scientist_orchestr.Collaboration.Integrity.{counts_bind, nothing_retained}
use super_scientist_orchestr.Collaboration.Integrity.Replay.{replay_kind, replay}
use super_scientist_orchestr.Collaboration.Integrity.Extension.{Extends, replay-append}
use super_scientist_orchestr.Collaboration.Engine.{
  evaluate_termination, exchanged, is_expected, has_declared_uses, require_parents, is_affordable,
}
use super_scientist_orchestr.Collaboration.Observation.{with_hashes, request_ids_of}
use super_scientist_orchestr.Collaboration.Engine.Progressed.{
  progress_of, exchange-progress_of, contribution_depths-append,
}
use super_scientist_orchestr.Collaboration.Engine.Retained.{
  retained_of, exchanges_bind-append, eligible-declared,
}
use super_scientist_orchestr.Collaboration.Engine.Exchanged.{
  expected-first, require_parents-inv, is_affordable-inv, exchange_step-retained_of,
}
use super_scientist_orchestr.Collaboration.Engine.Counted.{going-HasLeft, exchanged-counts_bind}
use super_scientist_orchestr.Collaboration.Engine.Replayed.{
  IsReplayed, as_many, declared, Within-refl, Within-append, length-grow, sealed, step-observed,
  observed-at,
}

-- What the engine checks before an exchange, and that its request is new.
pub record MayExchange (platform : Platform) (s : CollaborationState) (r : PeerRequest)
    (c : PeerContribution) (u : Resources) (depth : ℕ) : Type 0 where
  pub going : is_some (evaluate_termination platform s) ≡ false
  pub expected : is_expected platform s.session s r c ≡ true
  pub uses : has_declared_uses platform s.session r c ≡ true
  pub parents : require_parents platform s.session s r c ≡ some depth
  pub affordable : is_affordable platform s.session s r u ≡ true
  pub fresh : contains (request_ids_of platform s.requests) r.request_id ≡ false

pub at_length :
    {A : Type 0} (xs : List A) (x : A) {n : ℕ} → n ≡ length xs → get_elem? (xs ++ x ∷ []) n ≡ some x
at_length xs x e = ap (get_elem? (xs ++ x ∷ [])) e ∙ get_elem?-length xs [] x

module _ (platform : Platform) (s : CollaborationState) (depths : List (String × ℕ))
    (inv : IsReplayed platform s depths) (r : PeerRequest) (c : PeerContribution) (u : Resources)
    (depth : ℕ) (may : MayExchange platform s r c u depth) (hash : String) where
  abbrev depths' : List (String × ℕ)
  depths' = set_depth c.contribution_id depth depths

  abbrev s1 : CollaborationState
  s1 = exchanged platform s.session s r c u

  abbrev transition : CollaborationTransition
  transition = record {
    position = s.scheduling_position + 1;
    kind = CollaborationTransitionKind.peer_exchange;
    request_id = some r.request_id;
    contribution_id = some c.contribution_id;
    topology_event_id = none;
  }

  -- The state that the engine builds, with any hash.
  abbrev pub after_exchange : CollaborationState
  after_exchange =
      sealed
        (with_hashes platform s1 (before_last (topology_hashes s.topology_history))
          (churn_count (topology_hashes s.topology_history)) depths')
        hash

  added : add_depth depths c ≡ some depths'
  unfolding add_depth
  added = bind_intro _ (require_parents-inv platform s r c depths inv.known may.parents).1 refl

  sender : r.sender_id ≡ last (peers_of s.contributions)
  unfolding is_expected
  sender =
      let expected = may.expected in
      (==_iff r.sender_id (last (peers_of s.contributions))).0 (ground arith)

  pub known_after : contribution_depths [] (s.contributions ++ c ∷ []) ≡ some depths'
  known_after = contribution_depths-append platform [] s.contributions c inv.known added

  extends : Extends s after_exchange
  unfolding with_hashes exchanged
  extends = record {
    session = refl;
    topology_history = Within-refl s.topology_history;
    topology_events = Within-refl s.topology_events;
    requests = Within-append s.requests (r ∷ []);
    contributions = Within-append s.contributions (c ∷ []);
    usage_history = Within-append s.usage_history (u ∷ []);
    observed_state_hashes = Within-append s.observed_state_hashes _;
    cycle_projection_hashes = Within-append s.cycle_projection_hashes _;
  }

  kind_after :
      replay_kind platform after_exchange transition CollaborationTransitionKind.peer_exchange
        (progress_of platform s depths)
      ≡ some (progress_of platform s1 depths')
  unfolding with_hashes exchanged progress_of
  kind_after =
      let (requests, usages) = as_many platform s depths inv in
      bind_intro _ (at_length s.requests r (sym requests)) (
        bind_intro _ (at_length s.contributions c refl) (
          bind_intro _ (at_length s.usage_history u (sym usages)) (
            exchange-progress_of platform s transition r c u depths depths' refl refl sender
              (expected-first platform s r c may.expected)
              (is_affordable-inv platform s r u may.affordable).3 added may.fresh)))

  positioned : s.scheduling_position + 1 ≡ length s.transitions + 1
  unfolding counts_bind
  positioned = let counts = inv.parts.counts in ground arith

  replayed_after :
      replay platform after_exchange ≡ some (progress_of platform after_exchange depths')
  unfolding with_hashes exchanged
  replayed_after =
      replay-append platform s after_exchange transition (progress_of platform s depths)
        (progress_of platform after_exchange depths') extends refl inv.replayed
        (step-observed platform s depths inv may.going after_exchange transition
          (progress_of platform s1 depths') (progress_of platform after_exchange depths') refl
          positioned kind_after
          (observed-at platform s depths inv may.going s1 hash depths' refl refl))

  counts_after : counts_bind platform s.session after_exchange ≡ true
  unfolding counts_bind with_hashes
  counts_after =
      exchanged-counts_bind platform s r c u (going-HasLeft platform s may.going)
        (let below =
            (eligible-declared platform s.session s.topology (peers_of s.contributions)
              (last (peers_of s.contributions)) (expected-first platform s r c may.expected)).1 in
          omega arith)
        inv.parts.counts

  -- The exchange that the engine lets pass leaves a state that its validator lets pass.
  pub after_exchange-IsReplayed : IsReplayed platform after_exchange depths'
  unfolding with_hashes exchanged retained_of
  after_exchange-IsReplayed = record {
    parts = record {
      history = inv.parts.history;
      current = inv.parts.current;
      counts = counts_after;
      completion = refl;
      observations =
          length-grow s.observed_state_hashes s.transitions _ transition inv.parts.observations;
      cycles = length-grow s.cycle_projection_hashes s.transitions _ transition inv.parts.cycles;
    };
    known = known_after;
    replayed = replayed_after;
    retained =
        exchanges_bind-append platform s.session nothing_retained 1 (length s.requests + 1)
          s.requests s.contributions s.usage_history r c u (omega arith) inv.retained
          (exchange_step-retained_of platform s r c u depths inv.known may.expected may.uses
            may.parents may.affordable (declared platform s depths inv) may.fresh);
  }
