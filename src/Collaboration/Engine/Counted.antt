-- ===== src/Collaboration/Engine/Counted.antt =====
-- The counts of a state of the engine, beside the bounds of its session on them.
use super_scientist_orchestr.Prelude.{
  ℕ, ◌+◌, ◌<◌, String, ◌≡◌, refl, sym, ap, ◌∙◌, subst, inl, inr, Bool, true, false, none, some,
  List, [], ◌∷◌, ◌++◌, arith, ltb, leb, if◌then◌else◌, Bool-cases, ◌==◌, ==_iff, nat_eq, string_eq,
  option_eq, list_eq, pair_eq, bool_eq, length, any, length-append, contains, is_some,
}
use super_scientist_orchestr.Collaboration.{
  Resources, TopologySnapshot, TopologyEvent, PeerRequest, PeerContribution, CollaborationState,
  CollaborationTransitionKind, Platform,
}
use super_scientist_orchestr.Collaboration.Usage.{usage_matches_refl, sum_usage}
use super_scientist_orchestr.Collaboration.Topology.{count}
use super_scientist_orchestr.Collaboration.Termination.{
  any_count, peers_of, termination_reason, summarize,
}
use super_scientist_orchestr.Collaboration.Integrity.{counts_bind}
use super_scientist_orchestr.Collaboration.Engine.{
  evaluate_termination, exchanged, rearranged, is_next_event,
}
use super_scientist_orchestr.Collaboration.Engine.Progressed.{map-append-last}

any-false :
    (p : String → Bool) (xs : List String) (k : String)
    → any p xs ≡ false
    → contains xs k ≡ true
    → p k ≡ false
any-false p [] k h m = absurd (ground arith)
any-false p (x ∷ xs) k h m = elim (Bool-cases (k == x)) [
  | inl same ↦ ap p ((==_iff k x).0 same) ∙ ground arith
  | inr other ↦ any-false p xs k (ground arith) (ground arith)
]

any-none : (p : String → Bool) (xs : List String) → ((k : String) → p k ≡ false) → any p xs ≡ false
any-none p [] h = refl
any-none p (x ∷ xs) h = ground (arith, h x, any-none p xs h)

count-zero : (xs : List String) (k : String) → contains xs k ≡ false → count k xs ≡ 0
count-zero [] k h = refl
count-zero (x ∷ xs) k h = ground (arith, count-zero xs k)

count-append :
    (k : String) (xs : List String) (x : String)
    → count k (xs ++ x ∷ []) ≡ count k xs + (if k == x then 1 else 0)
count-append k [] x = ground arith
count-append k (y ∷ ys) x = ground (arith, count-append k ys x)

-- Where no counted value has reached the bound, one more of any value does not exceed it.
any_count-append :
    (m : ℕ) (xs : List String) (x : String)
    → 0 < m
    → any_count (λ n. leb m n) xs ≡ false
    → any_count (λ n. ltb m n) (xs ++ x ∷ []) ≡ false
any_count-append m xs x pos h =
    any-none (λ k. ltb m (count k (xs ++ x ∷ []))) (xs ++ x ∷ [])
      (λ k.
        let below : count k xs < m = elim (Bool-cases (contains xs k)) [
          | inl counted ↦ ground (arith, any-false (λ k. leb m (count k xs)) xs k h counted)
          | inr new ↦ ground (arith, count-zero xs k new)
        ] in
        ground (arith, count-append k xs x))

any_count_weaken :
    (m : ℕ) (xs : List String)
    → any_count (λ n. leb m n) xs ≡ false
    → any_count (λ n. ltb m n) xs ≡ false
any_count_weaken m xs h = weaken xs h
  where
    weaken :
        (ks : List String)
        → any (λ k. leb m (count k xs)) ks ≡ false
        → any (λ k. ltb m (count k xs)) ks ≡ false
    weaken [] h = refl
    weaken (k ∷ ks) h = ground (arith, weaken ks)

module _ (platform : Platform) (s : CollaborationState) where
  -- What a state has left that has not ended.
  pub record HasLeft : Type 0 where
    pub hops : length s.contributions < s.session.budget.max_hops
    pub contributions : length s.contributions < s.session.budget.max_contributions
    pub per_peer :
        any_count
          (λ n. leb s.session.budget.max_contributions_per_peer n)
          (peers_of s.contributions)
        ≡ false

  pub going-HasLeft : is_some (evaluate_termination platform s) ≡ false → HasLeft
  unfolding evaluate_termination termination_reason summarize
  going-HasLeft h = record {
    hops = ground arith;
    contributions = ground arith;
    per_peer = ground arith;
  }

  pub exchanged-counts_bind :
      (r : PeerRequest) (c : PeerContribution) (u : Resources)
      → HasLeft
      → 0 < s.session.budget.max_contributions_per_peer
      → counts_bind platform s.session s ≡ true
      → counts_bind platform s.session (exchanged platform s.session s r c u) ≡ true
  unfolding counts_bind exchanged
  exchanged-counts_bind r c u left pos h =
      let max = s.session.budget.max_contributions_per_peer in
      let per_peer : any_count (λ n. ltb max n) (peers_of (s.contributions ++ c ∷ [])) ≡ false =
        subst (λ (l : List String). any_count (λ n. ltb max n) l ≡ false)
          (sym (map-append-last (λ c. c.peer_id) s.contributions c))
          (any_count-append max (peers_of s.contributions) c.peer_id pos left.per_peer) in
      ground (
        arith,
        per_peer,
        length-append s.contributions (c ∷ []),
        length-append s.transitions (
            record {
              position = s.scheduling_position + 1;
              kind = CollaborationTransitionKind.peer_exchange;
              request_id = some r.request_id;
              contribution_id = some c.contribution_id;
              topology_event_id = none;
            }
            ∷ []),
        usage_matches_refl (sum_usage platform (s.usage_history ++ u ∷ [])),
      )

  pub rearranged-counts_bind :
      (event : TopologyEvent) (after : TopologySnapshot)
      → is_next_event platform s.session s event ≡ true
      → counts_bind platform s.session s ≡ true
      → counts_bind platform s.session (rearranged platform s.session s event after) ≡ true
  unfolding counts_bind rearranged is_next_event
  rearranged-counts_bind event after next h = ground (
    arith,
    length-append s.topology_events (event ∷ []),
    length-append s.transitions (
        record {
          position = s.scheduling_position + 1;
          kind = CollaborationTransitionKind.topology_event;
          request_id = none;
          contribution_id = none;
          topology_event_id = some event.event_id;
        }
        ∷ []),
  )
