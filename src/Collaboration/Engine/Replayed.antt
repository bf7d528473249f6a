-- ===== src/Collaboration/Engine/Replayed.antt =====
-- The invariant of the engine's states, and what it takes to be a valid state.
use super_scientist_orchestr.Prelude.{
  ℕ, ◌+◌, String, ◌≡◌, sym, ap, ◌∙◌, true, false, not, ◌&&◌, some, List, [], ◌∷◌, ◌++◌, arith, ◌==◌,
  ==_iff, ==_refl, nat_eq, string_eq, option_eq, list_eq, pair_eq, bool_eq, length, all,
  length-append, contains, last, before_last, get_elem?-append, is_some, bind_intro, guard_intro,
}
use super_scientist_orchestr.Collaboration.{
  topology_eq, CollaborationState, CollaborationSession, CollaborationTransition, Platform,
}
use super_scientist_orchestr.Collaboration.Topology.{peer_ids}
use super_scientist_orchestr.Collaboration.Termination.{
  peers_of, topology_hashes, churn_count, contribution_depths, completion_satisfied,
  termination_reason, summarize,
}
use super_scientist_orchestr.Collaboration.Integrity.{
  nothing_retained, history_binds, exchanges_bind, counts_bind,
}
use super_scientist_orchestr.Collaboration.Integrity.Replay.{
  Progress, summary_of, observe, replay_kind, replay_step, replay, is_complete, replays,
  has_integrity,
}
use super_scientist_orchestr.Collaboration.Integrity.Extension.{Within}
use super_scientist_orchestr.Collaboration.Engine.{evaluate_termination}
use super_scientist_orchestr.Collaboration.Observation.{with_hashes}
use super_scientist_orchestr.Collaboration.Engine.Progressed.{
  progress_of, summary_of-progress_of, observe-with_hashes,
}
use super_scientist_orchestr.Collaboration.Engine.Retained.{
  retained_of, exchanges_bind-declared, exchanges_bind-length,
}

module _ (platform : Platform) where
  -- The parts of `has_integrity`.
  pub record HasParts (s : CollaborationState) : Type 0 where
    pub history : history_binds platform s.session s.topology_history s.topology_events ≡ true
    pub current : last s.topology_history ≡ some s.topology
    pub counts : counts_bind platform s.session s ≡ true
    pub completion : s.completed ≡ completion_satisfied s.session s.contributions
    pub observations : length s.observed_state_hashes ≡ length s.transitions + 1
    pub cycles : length s.cycle_projection_hashes ≡ length s.transitions + 1

  -- The invariant: the two loops of the validator end where the engine stands.
  pub record IsReplayed (s : CollaborationState) (depths : List (String × ℕ)) : Type 0 where
    pub parts : HasParts s
    pub known : contribution_depths [] s.contributions ≡ some depths
    pub replayed : replay platform s ≡ some (progress_of platform s depths)
    pub retained :
        exchanges_bind platform s.session nothing_retained 1 s.requests s.contributions
          s.usage_history
        ≡ some (retained_of platform s depths)

  module _ (s : CollaborationState) where
    pub has_integrity-HasParts : has_integrity platform s ≡ true → HasParts s
    unfolding has_integrity replays
    has_integrity-HasParts h = record {
      history = ground arith;
      current = (==_iff (last s.topology_history) (some s.topology)).0 (ground arith);
      counts = ground arith;
      completion =
          (==_iff s.completed (completion_satisfied s.session s.contributions)).0 (ground arith);
      observations = ground arith;
      cycles = ground arith;
    }

  module _ (s : CollaborationState) (depths : List (String × ℕ)) (inv : IsReplayed s depths) where
    pub as_many :
        (length s.requests ≡ length s.contributions)
        × (length s.usage_history ≡ length s.contributions)
    as_many =
        exchanges_bind-length platform s.session nothing_retained 1 s.requests s.contributions
          s.usage_history inv.retained

    pub declared : all (contains (peer_ids s.session)) (peers_of s.contributions) ≡ true
    declared =
        exchanges_bind-declared platform s.session nothing_retained 1 s.requests s.contributions
          s.usage_history inv.retained

    complete : is_complete platform s (replay platform s) ≡ true
    unfolding progress_of
    complete =
        rw inv.replayed
          (ground (arith, as_many.0, ==_refl s.topology, ==_refl (length s.topology_events)))

    -- A state with the invariant passes the validator.
    pub IsReplayed-has_integrity : has_integrity platform s ≡ true
    unfolding has_integrity replays
    IsReplayed-has_integrity = ground (
      arith,
      inv.retained,
      complete,
      inv.parts.history,
      inv.parts.counts,
      ==_iff (last s.topology_history) (some s.topology),
      ==_iff s.completed (completion_satisfied s.session s.contributions),
    )

pub Within-refl : {A : Type 0} (xs : List A) → Within xs xs
Within-refl xs i x h = h

pub Within-append : {A : Type 0} (xs ys : List A) → Within xs (xs ++ ys)
Within-append xs ys i x h = get_elem?-append xs ys i h

-- One more of each.
pub length-grow :
    {A B : Type 0} (xs : List A) (ys : List B) (x : A) (y : B)
    → length xs ≡ length ys + 1
    → length (xs ++ x ∷ []) ≡ length (ys ++ y ∷ []) + 1
length-grow xs ys x y h =
    let a = length-append xs (x ∷ []) in let b = length-append ys (y ∷ []) in omega arith

-- A state with its hash.
abbrev pub sealed : CollaborationState → String → CollaborationState
sealed s hash = record s { state_hash = hash }

-- The hash of a state takes no part in its integrity.
pub sealed-HasParts :
    (platform : Platform) (s : CollaborationState) (hash : String)
    → HasParts platform s
    → HasParts platform (sealed s hash)
unfolding counts_bind
sealed-HasParts platform s hash parts = record {
  history = parts.history;
  current = parts.current;
  counts = parts.counts;
  completion = parts.completion;
  observations = parts.observations;
  cycles = parts.cycles;
}

module _ (platform : Platform) (s : CollaborationState) (depths : List (String × ℕ))
    (inv : IsReplayed platform s depths)
    (going : is_some (evaluate_termination platform s) ≡ false) where
  -- One round of the replay, on a state that retains one more transition.
  pub step-observed :
      (s3 : CollaborationState) (t : CollaborationTransition) (q r : Progress)
      → s3.session ≡ s.session
      → t.position ≡ length s.transitions + 1
      → replay_kind platform s3 t t.kind (progress_of platform s depths) ≡ some q
      → observe platform s3.session s3.observed_state_hashes s3.cycle_projection_hashes
          (length s.transitions + 1)
          q
        ≡ some r
      → replay_step platform s3 (length s.transitions + 1) t (progress_of platform s depths)
        ≡ some r
  unfolding replay_step evaluate_termination
  step-observed s3 t q r e1 e2 kind o =
      let reason : termination_reason platform s3.session
            (summary_of (progress_of platform s depths))
          ≡ termination_reason platform s.session (summarize s) =
        ap
          (λ (v : CollaborationSession).
            termination_reason platform v (summary_of (progress_of platform s depths)))
          e1
        ∙ ap (termination_reason platform s.session) (summary_of-progress_of platform s depths) in
      guard_intro
        {b = not (
          t.position == length s.transitions + 1
          && not (
              is_some (
                termination_reason platform s3.session
                  (summary_of (progress_of platform s depths)))))}
        (ground (arith, reason)) (bind_intro _ kind o)

  -- The hashes of a state stand at the index of its last transition.
  pub observed-at :
      (s1 : CollaborationState) (hash : String) (depths' : List (String × ℕ))
      → s1.observed_state_hashes ≡ s.observed_state_hashes
      → s1.cycle_projection_hashes ≡ s.cycle_projection_hashes
      → (let s3 =
            sealed
              (with_hashes platform s1
                (before_last (topology_hashes s1.topology_history))
                (churn_count (topology_hashes s1.topology_history))
                depths')
              hash in
          observe platform s3.session s3.observed_state_hashes s3.cycle_projection_hashes
            (length s.transitions + 1)
            (progress_of platform s1 depths')
          ≡ some (progress_of platform s3 depths'))
  unfolding with_hashes progress_of
  observed-at s1 hash depths' e2 e3 =
      let at : length s1.observed_state_hashes ≡ length s.transitions + 1 =
        ap length e2 ∙ inv.parts.observations in
      let cycles : length s1.cycle_projection_hashes ≡ length s1.observed_state_hashes =
        ap length e3 ∙ inv.parts.cycles ∙ sym at in
      rw (← at) (observe-with_hashes platform s1 depths' cycles)
