-- ===== src/Collaboration/Engine/Retained.antt =====
-- The loop of `require_semantic_integrity` over the exchanges, on a state of the engine.
use super_scientist_orchestr.Prelude.{
  ℕ, suc, ◌+◌, ◌<◌, String, ◌≡◌, refl, sym, ap, ◌∙◌, subst, Bool, true, not, ◌&&◌, Option, none,
  some, List, [], ◌∷◌, ◌++◌, arith, ltb, ==_iff, nat_eq, string_eq, option_eq, list_eq, pair_eq,
  bool_eq, length, all, select, contains, contains→mem, mem→contains, last, bind_inv, bind_intro,
  some_inj, guard_inv, mem-select, sorted_texts, distinct, contains-sorted, contains-distinct,
}
use super_scientist_orchestr.Collaboration.{
  Resources, TopologySnapshot, artifact_eq, PeerRequest, PeerContribution, CollaborationState,
  CollaborationSession, Platform,
}
use super_scientist_orchestr.Collaboration.Usage.{accumulate}
use super_scientist_orchestr.Collaboration.Topology.{
  count, eligible_peer_ids, first, peer_ids, is_target,
}
use super_scientist_orchestr.Collaboration.Termination.{peers_of}
use super_scientist_orchestr.Collaboration.Integrity.{
  Retained, is_declared_sender, exchange_binds, exchange_step, exchanges_bind,
}
use super_scientist_orchestr.Collaboration.Engine.{contribution_ids_of}
use super_scientist_orchestr.Collaboration.Observation.{request_ids_of}

unfoldable pub retained_of : Platform → CollaborationState → List (String × ℕ) → Retained
retained_of platform s depths = record {
  known_ids = contribution_ids_of platform s.contributions;
  known_depths = depths;
  request_ids = request_ids_of platform s.requests;
  used = accumulate s.usage_history;
}

module _ (platform : Platform) (session : CollaborationSession) where
  pub exchanges_bind-append :
      (known : Retained) (index end_index : ℕ) (rs : List PeerRequest) (cs : List PeerContribution)
      (us : List Resources) (r : PeerRequest) (c : PeerContribution) (u : Resources)
      {known' known'' : Retained}
      → index + length rs ≡ end_index
      → exchanges_bind platform session known index rs cs us ≡ some known'
      → exchange_step platform session known' end_index r c u ≡ some known''
      → exchanges_bind platform session known index (rs ++ r ∷ []) (cs ++ c ∷ []) (us ++ u ∷ [])
        ≡ some known''
  unfolding exchanges_bind
  exchanges_bind-append known index end_index [] [] [] r c u e h step =
      let same : index ≡ end_index = omega arith in
      bind_intro (λ k. exchanges_bind platform session k (suc index) [] [] [])
        (rw (same, some_inj h) step) refl
  exchanges_bind-append known index end_index [] [] (v ∷ us) r c u e h step = cc
  exchanges_bind-append known index end_index [] (d ∷ cs) us r c u e h step = cc
  exchanges_bind-append known index end_index (q ∷ rs) [] us r c u e h step = cc
  exchanges_bind-append known index end_index (q ∷ rs) (d ∷ cs) [] r c u e h step = cc
  exchanges_bind-append known index end_index (q ∷ rs) (d ∷ cs) (v ∷ us) r c u e h step =
      let (k, first_step, rest) = bind_inv (exchange_step platform session known index q d v) _ h in
      bind_intro _ first_step
        (exchanges_bind-append k (suc index) end_index rs cs us r c u (omega arith) rest step)

  -- The last round of the loop, on what the rounds before it keep.
  pub exchanges_bind-last :
      (known : Retained) (index end_index : ℕ) (rs : List PeerRequest) (cs : List PeerContribution)
      (us : List Resources) (r : PeerRequest) (c : PeerContribution) (u : Resources)
      {known' known'' : Retained}
      → index + length rs ≡ end_index
      → exchanges_bind platform session known index rs cs us ≡ some known'
      → exchanges_bind platform session known index (rs ++ r ∷ []) (cs ++ c ∷ []) (us ++ u ∷ [])
        ≡ some known''
      → exchange_step platform session known' end_index r c u ≡ some known''
  unfolding exchanges_bind
  exchanges_bind-last known index end_index [] [] [] r c u e h k =
      let same : index ≡ end_index = omega arith in
      let (kept, step, done) = bind_inv (exchange_step platform session known index r c u) _ k in
      rw (← same, ← some_inj h) (step ∙ done)
  exchanges_bind-last known index end_index [] [] (v ∷ us) r c u e h k = cc
  exchanges_bind-last known index end_index [] (d ∷ cs) us r c u e h k = cc
  exchanges_bind-last known index end_index (q ∷ rs) [] us r c u e h k = cc
  exchanges_bind-last known index end_index (q ∷ rs) (d ∷ cs) [] r c u e h k = cc
  exchanges_bind-last known index end_index (q ∷ rs) (d ∷ cs) (v ∷ us) r c u {known'} {known''} e h
        k =
      let (kept, first_step, rest) =
        bind_inv (exchange_step platform session known index q d v) _ h in
      let (kept', first_step', rest') =
        bind_inv (exchange_step platform session known index q d v) _ k in
      exchanges_bind-last kept (suc index) end_index rs cs us r c u (omega arith) rest (
        subst
          (λ (m : Retained).
            exchanges_bind platform session m (suc index) (rs ++ r ∷ []) (cs ++ c ∷ [])
              (us ++ u ∷ [])
            ≡ some known'')
          (some_inj (sym first_step' ∙ first_step)) rest')

  -- They are as many as the contributions, and as the requests.
  pub exchanges_bind-length :
      (known : Retained) (index : ℕ) (rs : List PeerRequest) (cs : List PeerContribution)
      (us : List Resources) {known' : Retained}
      → exchanges_bind platform session known index rs cs us ≡ some known'
      → (length rs ≡ length cs) × (length us ≡ length cs)
  unfolding exchanges_bind
  exchanges_bind-length known index [] [] [] h = (refl, refl)
  exchanges_bind-length known index [] [] (v ∷ us) h = absurd (ground arith)
  exchanges_bind-length known index [] (d ∷ cs) us h = absurd (ground arith)
  exchanges_bind-length known index (q ∷ rs) [] us h = absurd (ground arith)
  exchanges_bind-length known index (q ∷ rs) (d ∷ cs) [] h = absurd (ground arith)
  exchanges_bind-length known index (q ∷ rs) (d ∷ cs) (v ∷ us) h =
      let (k, first_step, rest) = bind_inv (exchange_step platform session known index q d v) _ h in
      let (a, b) = exchanges_bind-length k (suc index) rs cs us rest in (ap suc a, ap suc b)

  pub exchange_step-binds :
      (known : Retained) (index : ℕ) (r : PeerRequest) (c : PeerContribution) (u : Resources)
      {known' : Retained}
      → exchange_step platform session known index r c u ≡ some known'
      → exchange_binds platform session known index r c ≡ true
  unfolding exchange_step
  exchange_step-binds known index r c u h =
      let (e, _) = guard_inv (not (exchange_binds platform session known index r c)) _ h in
      ground arith

  exchange_binds-declared :
      (known : Retained) (index : ℕ) (r : PeerRequest) (c : PeerContribution)
      → exchange_binds platform session known index r c ≡ true
      → contains (peer_ids session) c.peer_id ≡ true
  unfolding exchange_binds
  exchange_binds-declared known index r c h = ground (arith, ==_iff r.recipient_id c.peer_id)

  -- Each contribution is that of a peer of the session.
  pub exchanges_bind-declared :
      (known : Retained) (index : ℕ) (rs : List PeerRequest) (cs : List PeerContribution)
      (us : List Resources) {known' : Retained}
      → exchanges_bind platform session known index rs cs us ≡ some known'
      → all (contains (peer_ids session)) (peers_of cs) ≡ true
  unfolding exchanges_bind
  exchanges_bind-declared known index [] [] [] h = refl
  exchanges_bind-declared known index [] [] (v ∷ us) h = refl
  exchanges_bind-declared known index [] (d ∷ cs) us h = absurd (ground arith)
  exchanges_bind-declared known index (q ∷ rs) [] us h = refl
  exchanges_bind-declared known index (q ∷ rs) (d ∷ cs) [] h = absurd (ground arith)
  exchanges_bind-declared known index (q ∷ rs) (d ∷ cs) (v ∷ us) h =
      let (k, first_step, rest) = bind_inv (exchange_step platform session known index q d v) _ h in
      ground (
        arith,
        exchanges_bind-declared k (suc index) rs cs us rest,
        exchange_binds-declared known index q d (exchange_step-binds known index q d v first_step),
      )

  all-last :
      (p : String → Bool) (xs : List String) {x : String}
      → all p xs ≡ true
      → last xs ≡ some x
      → p x ≡ true
  all-last p [] h e = absurd (ground arith)
  all-last p (y ∷ []) h e = ground (arith, e)
  all-last p (y ∷ z ∷ zs) h e = all-last p (z ∷ zs) (ground arith) e

  pub last-is_declared_sender :
      (cs : List PeerContribution)
      → all (contains (peer_ids session)) (peers_of cs) ≡ true
      → is_declared_sender session (last (peers_of cs)) ≡ true
  last-is_declared_sender cs h = at_last (last (peers_of cs)) refl
    where
      at_last : (o : Option String) → last (peers_of cs) ≡ o → is_declared_sender session o ≡ true
      at_last none e = refl
      at_last (some x) e = all-last (contains (peer_ids session)) (peers_of cs) h e

  contains-select :
      (p : String → Bool) (xs : List String) (x : String)
      → contains (select p xs) x ≡ true
      → (contains xs x ≡ true) × (p x ≡ true)
  contains-select p xs x h =
      let (m, e) = mem-select p xs (contains→mem (select p xs) x h) in (mem→contains xs x m, e)

  first-contains : (xs : List String) {x : String} → first xs ≡ some x → contains xs x ≡ true
  first-contains [] h = absurd (ground arith)
  first-contains (y ∷ ys) {x} h = ground (arith, ==_iff x y)

  -- An eligible peer is declared, and has a contribution left to make.
  pub eligible-declared :
      (topology : TopologySnapshot) (counts : List String) (last_peer : Option String) {x : String}
      → first (eligible_peer_ids session topology counts last_peer) ≡ some x
      → (contains (peer_ids session) x ≡ true)
        × (count x counts < session.budget.max_contributions_per_peer)
  unfolding eligible_peer_ids
  eligible-declared topology counts last_peer {x} h =
      let test = λ (p : String).
        contains topology.active_peer_ids p
        && ltb (count p counts) session.budget.max_contributions_per_peer
        && is_target last_peer topology p in
      let kept = select test (peer_ids session) in
      let (declared, e) = contains-select test (peer_ids session) x (
        sym (contains-distinct kept x)
        ∙ sym (contains-sorted (distinct kept) x)
        ∙ first-contains (sorted_texts (distinct kept)) h) in
      (declared, ground arith)
