-- ===== src/Collaboration/Integrity/Extension.antt =====
-- `_require_deterministic_transition_replay` on a state that retains more than another.
use super_scientist_orchestr.Prelude.{
  ℕ, suc, ◌+◌, String, ◌≡◌, refl, sym, subst, not, ◌&&◌, some, List, [], ◌∷◌, ◌++◌, arith, ◌==◌,
  ==_iff, nat_eq, string_eq, option_eq, list_eq, pair_eq, bool_eq, length, get_elem?, bind_inv,
  is_some, bind_intro, guard_intro, some_inj, guard_inv,
}
use super_scientist_orchestr.Collaboration.{
  CollaborationTransitionKind, CollaborationTransition, CollaborationState, CollaborationSession,
  Platform,
}
use super_scientist_orchestr.Collaboration.Integrity.Replay.{
  Progress, observe, replay_kind, replay_step, replay_loop, replay, summary_of, cycle_hash_of,
  semantics_of, replay_start,
}
use super_scientist_orchestr.Collaboration.Termination.{semantic_state_hash, termination_reason}

-- What the first list holds at an index, the second one holds too.
abbrev pub Within {ℓ} : {A : Type ℓ} → List A → List A → Type ℓ
Within {A} xs ys = (i : ℕ) (x : A) → get_elem? xs i ≡ some x → get_elem? ys i ≡ some x

pub record Extends (s s' : CollaborationState) : Type 0 where
  pub session : s'.session ≡ s.session
  pub topology_history : Within s.topology_history s'.topology_history
  pub topology_events : Within s.topology_events s'.topology_events
  pub requests : Within s.requests s'.requests
  pub contributions : Within s.contributions s'.contributions
  pub usage_history : Within s.usage_history s'.usage_history
  pub observed_state_hashes : Within s.observed_state_hashes s'.observed_state_hashes
  pub cycle_projection_hashes : Within s.cycle_projection_hashes s'.cycle_projection_hashes

module _ (platform : Platform) where
  observe-Within :
      (session : CollaborationSession) (observed observed' cycles cycles' : List String)
      (position : ℕ) (p q : Progress)
      → Within observed observed'
      → Within cycles cycles'
      → observe platform session observed cycles position p ≡ some q
      → observe platform session observed' cycles' position p ≡ some q
  unfolding observe
  observe-Within session observed observed' cycles cycles' position p q wo wc h =
      let cycle = cycle_hash_of platform session p in
      let semantic =
        semantic_state_hash platform session (semantics_of p (p.cycle_counts ++ cycle ∷ [])) in
      ground (
        arith,
        ==_iff (get_elem? observed position) (some semantic),
        ==_iff (get_elem? cycles position) (some cycle),
        ==_iff (get_elem? observed' position) (some semantic),
        ==_iff (get_elem? cycles' position) (some cycle),
        wo position semantic,
        wc position cycle,
      )

  module _ (s s' : CollaborationState) (ext : Extends s s') where
    replay_kind-Extends :
        (t : CollaborationTransition) (kind : CollaborationTransitionKind) (p q : Progress)
        → replay_kind platform s t kind p ≡ some q
        → replay_kind platform s' t kind p ≡ some q
    replay_kind-Extends t CollaborationTransitionKind.topology_event p q h =
        let (event, e1, h1) = bind_inv (get_elem? s.topology_events p.topology_index) _ h in
        let (topology, e2, h2) =
          bind_inv (get_elem? s.topology_history (p.topology_index + 1)) _ h1 in
        bind_intro _ (ext.topology_events p.topology_index event e1) (
          bind_intro _ (ext.topology_history (p.topology_index + 1) topology e2)
            (rw ext.session h2))
    replay_kind-Extends t CollaborationTransitionKind.peer_exchange p q h =
        let (request, e1, h1) = bind_inv (get_elem? s.requests p.peer_index) _ h in
        let (contribution, e2, h2) = bind_inv (get_elem? s.contributions p.peer_index) _ h1 in
        let (usage, e3, h3) = bind_inv (get_elem? s.usage_history p.peer_index) _ h2 in
        bind_intro _ (ext.requests p.peer_index request e1) (
          bind_intro _ (ext.contributions p.peer_index contribution e2)
            (bind_intro _ (ext.usage_history p.peer_index usage e3) (rw ext.session h3)))

    replay_step-Extends :
        (position : ℕ) (t : CollaborationTransition) (p q : Progress)
        → replay_step platform s position t p ≡ some q
        → replay_step platform s' position t p ≡ some q
    unfolding replay_step
    replay_step-Extends position t p q h =
        let (g, h1) =
          guard_inv
            (not (
              t.position == position
              && not (is_some (termination_reason platform s.session (summary_of p)))))
            _ h in
        let (q1, k, o) = bind_inv (replay_kind platform s t t.kind p) _ h1 in
        guard_intro (rw ext.session g) (
          bind_intro _ (replay_kind-Extends t t.kind p q1 k) (
            rw ext.session (
              observe-Within s.session s.observed_state_hashes s'.observed_state_hashes
                s.cycle_projection_hashes s'.cycle_projection_hashes position q1 q
                ext.observed_state_hashes ext.cycle_projection_hashes o)))

    pub replay_loop-Extends :
        (position : ℕ) (ts : List CollaborationTransition) (p q : Progress)
        → replay_loop platform s position ts p ≡ some q
        → replay_loop platform s' position ts p ≡ some q
    unfolding replay_loop
    replay_loop-Extends position [] p q h = h
    replay_loop-Extends position (t ∷ ts) p q h =
        let (p', first, rest) = bind_inv (replay_step platform s position t p) _ h in
        bind_intro _ (replay_step-Extends position t p p' first)
          (replay_loop-Extends (suc position) ts p' q rest)

  replay_loop-append :
      (s : CollaborationState) (position end_position : ℕ) (ts : List CollaborationTransition)
      (t : CollaborationTransition) (p q r : Progress)
      → position + length ts ≡ end_position
      → replay_loop platform s position ts p ≡ some q
      → replay_step platform s end_position t q ≡ some r
      → replay_loop platform s position (ts ++ t ∷ []) p ≡ some r
  unfolding replay_loop
  replay_loop-append s position end_position [] t p q r e h step =
      let same : position ≡ end_position = omega arith in
      bind_intro (replay_loop platform s (suc position) []) (rw (same, some_inj h) step) refl
  replay_loop-append s position end_position (u ∷ ts) t p q r e h step =
      let (p', first, rest) = bind_inv (replay_step platform s position u p) _ h in
      bind_intro _ first
        (replay_loop-append s (suc position) end_position ts t p' q r (omega arith) rest step)

  -- One more transition: the replay goes on from where it ended.
  pub replay-append :
      (s s' : CollaborationState) (t : CollaborationTransition) (q r : Progress)
      → Extends s s'
      → s'.transitions ≡ s.transitions ++ t ∷ []
      → replay platform s ≡ some q
      → replay_step platform s' (length s.transitions + 1) t q ≡ some r
      → replay platform s' ≡ some r
  unfolding replay
  replay-append s s' t q r ext more h step =
      let (topology, e1, h1) = bind_inv (get_elem? s.topology_history 0) _ h in
      let (p, e2, h2) =
        bind_inv
          (observe platform s.session s.observed_state_hashes s.cycle_projection_hashes 0
            (replay_start platform s.session topology))
          _ h1 in
      bind_intro _ (ext.topology_history 0 topology e1) (
        bind_intro _
          (subst
            (λ (v : CollaborationSession).
              observe platform v s'.observed_state_hashes s'.cycle_projection_hashes 0
                (replay_start platform v topology)
              ≡ some p)
            (sym ext.session)
            (observe-Within s.session s.observed_state_hashes s'.observed_state_hashes
              s.cycle_projection_hashes s'.cycle_projection_hashes 0
              (replay_start platform s.session topology) p ext.observed_state_hashes
              ext.cycle_projection_hashes e2))
          (subst (λ (ts : List CollaborationTransition). replay_loop platform s' 1 ts p ≡ some r)
            (sym more)
            (replay_loop-append s' 1 (length s.transitions + 1) s.transitions t p q r (omega arith)
              (replay_loop-Extends s s' ext 1 s.transitions p q h2) step)))
