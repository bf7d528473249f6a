-- ===== src/Collaboration/Engine/Start.antt =====
-- `initial_collaboration_state` beside the invariant of the engine's states.
use super_scientist_orchestr.Prelude.{String, ◌≡◌, refl, subst, none, some, [], bind_intro}
use super_scientist_orchestr.Collaboration.{
  TopologySnapshot, CollaborationState, CollaborationSession, Platform,
}
use super_scientist_orchestr.Collaboration.Usage.{accumulate}
use super_scientist_orchestr.Collaboration.Termination.{contribution_depths}
use super_scientist_orchestr.Collaboration.Integrity.{exchanges_bind}
use super_scientist_orchestr.Collaboration.Integrity.Replay.{
  Progress, observe, replay_start, replay_loop, replay,
}
use super_scientist_orchestr.Collaboration.Engine.{start_state}
use super_scientist_orchestr.Collaboration.Observation.{with_hashes}
use super_scientist_orchestr.Collaboration.Engine.Progressed.{progress_of, observe-with_hashes}
use super_scientist_orchestr.Collaboration.Engine.Retained.{retained_of}
use super_scientist_orchestr.Collaboration.Engine.Replayed.{HasParts, IsReplayed, sealed}

module _ (platform : Platform) (session : CollaborationSession) (topology : TopologySnapshot)
    (hash : String) where
  abbrev pub started : CollaborationState
  started = sealed (with_hashes platform (start_state platform session topology) none 0 []) hash

  start-progress_of :
      progress_of platform (start_state platform session topology) []
      ≡ replay_start platform session topology
  unfolding progress_of start_state replay_start accumulate
  start-progress_of = refl

  pub started-replay : replay platform started ≡ some (progress_of platform started [])
  unfolding replay with_hashes start_state replay_loop progress_of
  started-replay =
      bind_intro (replay_loop platform started 1 [])
        (subst
          (λ (p : Progress).
            observe platform session started.observed_state_hashes started.cycle_projection_hashes 0
              p
            ≡ some (progress_of platform started []))
          start-progress_of
          (observe-with_hashes platform (start_state platform session topology) [] refl))
        refl

  pub started-IsReplayed : HasParts platform started → IsReplayed platform started []
  unfolding with_hashes start_state contribution_depths exchanges_bind retained_of accumulate
  started-IsReplayed parts = record {
    parts = parts;
    known = refl;
    replayed = started-replay;
    retained = refl;
  }
