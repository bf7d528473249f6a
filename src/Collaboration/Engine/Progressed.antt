-- ===== src/Collaboration/Engine/Progressed.antt =====
-- The variables of `_require_deterministic_transition_replay` beside the values that the engine
-- derives from the histories of a state.
use super_scientist_orchestr.Prelude.{
  ℕ, ◌+◌, String, ◌≡◌, refl, sym, ap, ◌∙◌, true, false, Option, none, some, List, [], ◌∷◌, ◌++◌,
  map, arith, ltb, if◌then◌else◌, ◌==◌, ◌!=◌, ==_iff, ==_comm, nat_eq, string_eq, option_eq,
  list_eq, pair_eq, bool_eq, length, any, length-append, contains, get_elem?, last, before_last,
  last-append, before_last-append, get_elem?-length, bind_inv, bind_intro, guard_intro, some_inj,
}
use mathlib.Core.Option
use super_scientist_orchestr.Collaboration.{
  Resources, TopologySnapshot, TopologyEvent, CollaborationTransition, PeerRequest,
  PeerContribution, CollaborationState, CollaborationSession, Platform,
}
use super_scientist_orchestr.Collaboration.Usage.{
  accumulate, accumulate-append, add_usage, within_budget,
}
use super_scientist_orchestr.Collaboration.Topology.{count, eligible_peer_ids, first}
use super_scientist_orchestr.Collaboration.Termination.{
  completion_satisfied, completion_from_summary, summarize, topology_hashes, churn_count, peers_of,
  kinds_of, semantic_state_hash, contribution_depths, add_depth,
}
use super_scientist_orchestr.Collaboration.Integrity.Replay.{
  Progress, summary_of, semantics_of, cycle_hash_of, observe, replay_event, replay_exchange,
}
use super_scientist_orchestr.Collaboration.Engine.{exchanged, rearranged}
use super_scientist_orchestr.Collaboration.Observation.{
  cycle_of, semantics, with_hashes, request_ids_of,
}

unfoldable pub progress_of : Platform → CollaborationState → List (String × ℕ) → Progress
progress_of platform s depths = record {
  topology_index = length s.topology_events;
  peer_index = length s.contributions;
  last_peer_id = last (peers_of s.contributions);
  topology = s.topology;
  peer_counts = peers_of s.contributions;
  kind_counts = kinds_of s.contributions;
  cycle_counts = s.cycle_projection_hashes;
  topology_hashes = topology_hashes s.topology_history;
  churn_count = churn_count (topology_hashes s.topology_history);
  prior_topology_hash = before_last (topology_hashes s.topology_history);
  used = accumulate s.usage_history;
  request_ids = request_ids_of platform s.requests;
  depths = depths;
  completed = s.completed;
}

pub map-append-last :
    {A : Type 0} (f : A → String) (xs : List A) (x : A)
    → map f (xs ++ x ∷ []) ≡ map f xs ++ f x ∷ []
map-append-last f [] x = refl
map-append-last f (y ∷ xs) x = ap (λ l. f y ∷ l) (map-append-last f xs x)

module _ (platform : Platform) where
  -- The replay and the engine stop for the same reason.
  pub summary_of-progress_of :
      (s : CollaborationState) (depths : List (String × ℕ))
      → summary_of (progress_of platform s depths) ≡ summarize s
  unfolding summary_of progress_of summarize
  summary_of-progress_of s depths = refl

  observe-intro :
      (session : CollaborationSession) (hashes cycles : List String) (position : ℕ) (p : Progress)
      → get_elem? hashes position
        ≡ some (
            semantic_state_hash platform session
              (semantics_of p (p.cycle_counts ++ cycle_hash_of platform session p ∷ [])))
      → get_elem? cycles position ≡ some (cycle_hash_of platform session p)
      → observe platform session hashes cycles position p
        ≡ some (record p { cycle_counts = p.cycle_counts ++ cycle_hash_of platform session p ∷ [] })
  unfolding observe
  observe-intro session hashes cycles position p h k =
      let semantic =
        semantic_state_hash platform session
          (semantics_of p (p.cycle_counts ++ cycle_hash_of platform session p ∷ [])) in
      ground (
        arith,
        ==_iff (get_elem? hashes position) (some semantic),
        ==_iff (get_elem? cycles position) (some (cycle_hash_of platform session p)),
      )

  -- The hashes that the engine appends are those that the replay derives.
  pub observe-with_hashes :
      (s : CollaborationState) (depths : List (String × ℕ))
      → length s.cycle_projection_hashes ≡ length s.observed_state_hashes
      → observe platform s.session
          (with_hashes platform s
            (before_last (topology_hashes s.topology_history))
            (churn_count (topology_hashes s.topology_history))
            depths).observed_state_hashes
          (s.cycle_projection_hashes ++ cycle_of platform s ∷ [])
          (length s.observed_state_hashes)
          (progress_of platform s depths)
        ≡ some (
            progress_of platform
              (with_hashes platform s
                (before_last (topology_hashes s.topology_history))
                (churn_count (topology_hashes s.topology_history))
                depths)
              depths)
  unfolding with_hashes progress_of cycle_of semantics semantics_of
  observe-with_hashes s depths g =
      observe-intro s.session _ _ (length s.observed_state_hashes) (progress_of platform s depths)
        (get_elem?-length s.observed_state_hashes [] _)
        (ap (get_elem? (s.cycle_projection_hashes ++ cycle_of platform s ∷ [])) (sym g)
          ∙ get_elem?-length s.cycle_projection_hashes [] (cycle_of platform s))

  -- The completion predicate on a counter of kinds.
  count-any :
      (kind : String) (cs : List PeerContribution)
      → ltb 0 (count kind (kinds_of cs)) ≡ any (λ c. c.contribution_kind == kind) cs
  count-any kind [] = refl
  count-any kind (c ∷ cs) = ground (arith, ==_comm kind c.contribution_kind, count-any kind cs)

  pub completion-from_summary :
      (session : CollaborationSession) (cs : List PeerContribution)
      → completion_from_summary session (length cs) (kinds_of cs) ≡ completion_satisfied session cs
  unfolding completion_from_summary completion_satisfied
  completion-from_summary session cs =
      by_kind session.completion_predicate.required_contribution_kind
    where
      by_kind :
          (kind : Option String)
          → (if ltb (length cs) session.completion_predicate.min_contributions
              then false
              else elim kind [ none ↦ true | some k ↦ ltb 0 (count k (kinds_of cs)) ])
            ≡ (if ltb (length cs) session.completion_predicate.min_contributions
                then false
                else elim kind [ none ↦ true | some k ↦ any (λ c. c.contribution_kind == k) cs ])
      by_kind none = refl
      by_kind (some k) = rw (count-any k cs)

  pub churn-append :
      (hs : List String) (h : String)
      → churn_count (hs ++ h ∷ []) ≡ churn_count hs + (if before_last hs == some h then 1 else 0)
  churn-append [] h = refl
  churn-append (a ∷ []) h = refl
  churn-append (a ∷ b ∷ []) h = ground (arith, ==_comm h a)
  churn-append (a ∷ b ∷ c ∷ rest) h = ground (arith, churn-append (b ∷ c ∷ rest) h)

  pub last-map :
      {A : Type 0} (f : A → String) (xs : List A) {x : A}
      → last xs ≡ some x
      → last (map f xs) ≡ some (f x)
  last-map f [] h = cc
  last-map f (y ∷ []) h = ap (Option.map f) h
  last-map f (y ∷ z ∷ zs) h = last-map f (z ∷ zs) h

  pub contribution_depths-append :
      (depths : List (String × ℕ)) (cs : List PeerContribution) (c : PeerContribution)
      {depths' depths'' : List (String × ℕ)}
      → contribution_depths depths cs ≡ some depths'
      → add_depth depths' c ≡ some depths''
      → contribution_depths depths (cs ++ c ∷ []) ≡ some depths''
  unfolding contribution_depths
  contribution_depths-append depths [] c {depths'} {depths''} h k =
      bind_intro (λ d. contribution_depths d []) (rw (some_inj h) k) refl
  contribution_depths-append depths (x ∷ cs) c h k =
      let (d, first_added, rest) = bind_inv (add_depth depths x) _ h in
      bind_intro _ first_added (contribution_depths-append d cs c rest k)

  -- One exchange takes the replay to the state that the engine makes of it.
  pub exchange-progress_of :
      (s : CollaborationState) (t : CollaborationTransition) (request : PeerRequest)
      (contribution : PeerContribution) (usage : Resources) (depths depths' : List (String × ℕ))
      → t.request_id ≡ some request.request_id
      → t.contribution_id ≡ some contribution.contribution_id
      → request.sender_id ≡ last (peers_of s.contributions)
      → first (
          eligible_peer_ids s.session s.topology
            (peers_of s.contributions)
            (last (peers_of s.contributions)))
        ≡ some request.recipient_id
      → within_budget (add_usage (accumulate s.usage_history) usage) s.session.budget.resources
        ≡ true
      → add_depth depths contribution ≡ some depths'
      → contains (request_ids_of platform s.requests) request.request_id ≡ false
      → replay_exchange platform s.session t
          (progress_of platform s depths)
          request
          contribution
          usage
        ≡ some (
            progress_of platform
              (exchanged platform s.session s request contribution usage)
              depths')
  unfolding progress_of exchanged replay_exchange
  exchange-progress_of s t request contribution usage depths depths' e1 e2 e3 e4 e5 e6 fresh =
      let more = s.contributions ++ contribution ∷ [] in
      guard_intro
        (ground (
          arith,
          ==_iff t.request_id (some request.request_id),
          ==_iff t.contribution_id (some contribution.contribution_id),
          ==_iff request.sender_id (last (peers_of s.contributions)),
          ==_iff
              (first (
                eligible_peer_ids s.session s.topology (peers_of s.contributions)
                  (last (peers_of s.contributions))))
              (some request.recipient_id),
        ))
        (bind_intro _ e6 (
          ground (
            arith,
            map-append-last (λ c. c.peer_id) s.contributions contribution,
            map-append-last (λ c. c.contribution_kind) s.contributions contribution,
            map-append-last (λ r. r.request_id) s.requests request,
            last-append (peers_of s.contributions) contribution.peer_id,
            accumulate-append s.usage_history usage,
            length-append s.contributions (contribution ∷ []),
            completion-from_summary s.session more,
          )))

  -- One event takes the replay to the state that the engine makes of it.
  pub event-progress_of :
      (s : CollaborationState) (t : CollaborationTransition) (event : TopologyEvent)
      (after : TopologySnapshot) (depths : List (String × ℕ))
      → t.topology_event_id ≡ some event.event_id
      → last s.topology_history ≡ some s.topology
      → replay_event platform s.session t (progress_of platform s depths) event after
        ≡ some (progress_of platform (rearranged platform s.session s event after) depths)
  unfolding progress_of rearranged replay_event
  event-progress_of s t event after depths e1 e2 =
      guard_intro {b = t.topology_event_id != some event.event_id}
        (ground (arith, ==_iff t.topology_event_id (some event.event_id)))
        (ground (
          arith,
          map-append-last (λ h. h.content_hash) s.topology_history after,
          length-append s.topology_events (event ∷ []),
          before_last-append (topology_hashes s.topology_history) after.content_hash,
          churn-append (topology_hashes s.topology_history) after.content_hash,
          last-map (λ h. h.content_hash) s.topology_history e2,
        ))
