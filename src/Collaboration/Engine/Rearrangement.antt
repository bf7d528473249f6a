-- ===== src/Collaboration/Engine/Rearrangement.antt =====
-- `apply_topology_event` beside the invariant of the engine's states.
use super_scientist_orchestr.Prelude.{
  ℕ, suc, ◌+◌, String, ◌≡◌, refl, sym, ap, ◌∙◌, subst, true, false, ◌&&◌, Option, none, some, List,
  [], ◌∷◌, ◌++◌, arith, if◌then◌else◌, and_right, ◌==◌, ==_iff, nat_eq, string_eq, option_eq,
  list_eq, pair_eq, bool_eq, length, last, before_last, last-append, before_last-append, is_some,
  bind_intro, some_inj,
}
use super_scientist_orchestr.Collaboration.{
  TopologySnapshot, topology_eq, TopologyEvent, CollaborationState, CollaborationSession,
  CollaborationTransitionKind, CollaborationTransition, Platform,
}
use super_scientist_orchestr.Collaboration.Topology.{apply_topology_operation}
use super_scientist_orchestr.Collaboration.Termination.{topology_hashes, churn_count}
use super_scientist_orchestr.Collaboration.Integrity.{
  counts_bind, event_binds, events_bind, history_binds,
}
use super_scientist_orchestr.Collaboration.Integrity.Replay.{replay_kind, replay}
use super_scientist_orchestr.Collaboration.Integrity.Extension.{Extends, replay-append}
use super_scientist_orchestr.Collaboration.Engine.{evaluate_termination, rearranged, is_next_event}
use super_scientist_orchestr.Collaboration.Observation.{with_hashes}
use super_scientist_orchestr.Collaboration.Engine.Progressed.{
  progress_of, event-progress_of, map-append-last, last-map, churn-append,
}
use super_scientist_orchestr.Collaboration.Engine.Retained.{retained_of}
use super_scientist_orchestr.Collaboration.Engine.Counted.{rearranged-counts_bind}
use super_scientist_orchestr.Collaboration.Engine.Exchange.{at_length}
use super_scientist_orchestr.Collaboration.Engine.Replayed.{
  IsReplayed, Within-refl, Within-append, length-grow, sealed, step-observed, observed-at,
}

module _ (platform : Platform) (session : CollaborationSession) where
  events_bind-length :
      (index : ℕ) (before : TopologySnapshot) (history : List TopologySnapshot)
      (events : List TopologyEvent)
      → events_bind platform session index before history events ≡ true
      → length history ≡ length events
  unfolding events_bind
  events_bind-length index before [] [] h = refl
  events_bind-length index before [] (e ∷ events) h = absurd (ground arith)
  events_bind-length index before (x ∷ history) [] h = absurd (ground arith)
  events_bind-length index before (x ∷ history) (e ∷ events) h =
      ap suc (events_bind-length (suc index) x history events (ground arith))

  events_bind-append :
      (index end_index : ℕ) (before current after : TopologySnapshot)
      (history : List TopologySnapshot) (events : List TopologyEvent) (event : TopologyEvent)
      → index + length events ≡ end_index
      → events_bind platform session index before history events ≡ true
      → last (before ∷ history) ≡ some current
      → event_binds platform session end_index current after event ≡ true
      → events_bind platform session index before (history ++ after ∷ []) (events ++ event ∷ [])
        ≡ true
  unfolding events_bind
  events_bind-append index end_index before current after [] [] event e h l b =
      let same : index ≡ end_index = omega arith in rw (same, some_inj l) (ap (λ t. t && true) b)
  events_bind-append index end_index before current after [] (x ∷ events) event e h l b =
      absurd (ground arith)
  events_bind-append index end_index before current after (x ∷ history) [] event e h l b =
      absurd (ground arith)
  events_bind-append index end_index before current after (x ∷ history) (y ∷ events) event e h l b =
      ground (
        arith,
        events_bind-append (suc index) end_index x current after history events event (omega arith)
            (and_right (event_binds platform session index before x y) _ h) l b,
      )

  history_binds-append :
      (history : List TopologySnapshot) (events : List TopologyEvent)
      (current after : TopologySnapshot) (event : TopologyEvent)
      → history_binds platform session history events ≡ true
      → last history ≡ some current
      → event_binds platform session (length events) current after event ≡ true
      → history_binds platform session (history ++ after ∷ []) (events ++ event ∷ []) ≡ true
  unfolding history_binds
  history_binds-append [] events current after event h l b = absurd (ground arith)
  history_binds-append (start ∷ history) events current after event h l b = ground (
    arith,
    events_bind-append 0 (length events) start current after history events event (omega arith)
        (ground arith) l b,
  )

  history_binds-length :
      (history : List TopologySnapshot) (events : List TopologyEvent)
      → history_binds platform session history events ≡ true
      → length history ≡ length events + 1
  unfolding history_binds
  history_binds-length [] events h = absurd (ground arith)
  history_binds-length (start ∷ history) events h =
      let e = events_bind-length 0 start history events (ground arith) in omega arith

-- What the engine checks before a topology event, and the topology behind it.
pub record MayRearrange (platform : Platform) (s : CollaborationState) (event : TopologyEvent)
    (after : TopologySnapshot) : Type 0 where
  pub going : is_some (evaluate_termination platform s) ≡ false
  pub next : is_next_event platform s.session s event ≡ true
  pub applied : apply_topology_operation platform s.session s.topology event ≡ some after
  pub hash : event.after_topology_hash ≡ after.content_hash

module _ (platform : Platform) (s : CollaborationState) (depths : List (String × ℕ))
    (inv : IsReplayed platform s depths) (event : TopologyEvent) (after : TopologySnapshot)
    (may : MayRearrange platform s event after) (hash : String) where
  abbrev s1 : CollaborationState
  s1 = rearranged platform s.session s event after

  abbrev transition : CollaborationTransition
  transition = record {
    position = s.scheduling_position + 1;
    kind = CollaborationTransitionKind.topology_event;
    request_id = none;
    contribution_id = none;
    topology_event_id = some event.event_id;
  }

  abbrev derived : CollaborationState
  derived =
      sealed
        (with_hashes platform s1 (before_last (topology_hashes (s.topology_history ++ after ∷ [])))
          (churn_count (topology_hashes (s.topology_history ++ after ∷ []))) depths)
        hash

  extends : Extends s derived
  unfolding with_hashes rearranged
  extends = record {
    session = refl;
    topology_history = Within-append s.topology_history (after ∷ []);
    topology_events = Within-append s.topology_events (event ∷ []);
    requests = Within-refl s.requests;
    contributions = Within-refl s.contributions;
    usage_history = Within-refl s.usage_history;
    observed_state_hashes = Within-append s.observed_state_hashes _;
    cycle_projection_hashes = Within-append s.cycle_projection_hashes _;
  }

  kind_after :
      replay_kind platform derived transition CollaborationTransitionKind.topology_event
        (progress_of platform s depths)
      ≡ some (progress_of platform s1 depths)
  unfolding with_hashes rearranged progress_of
  kind_after = bind_intro _ (at_length s.topology_events event refl) (
      bind_intro _
        (at_length s.topology_history after (
          sym (
            history_binds-length platform s.session s.topology_history s.topology_events
              inv.parts.history)))
        (event-progress_of platform s transition event after depths refl inv.parts.current))

  positioned : s.scheduling_position + 1 ≡ length s.transitions + 1
  unfolding counts_bind
  positioned = let counts = inv.parts.counts in ground arith

  replayed_after : replay platform derived ≡ some (progress_of platform derived depths)
  unfolding with_hashes rearranged
  replayed_after =
      replay-append platform s derived transition (progress_of platform s depths)
        (progress_of platform derived depths) extends refl inv.replayed
        (step-observed platform s depths inv may.going derived transition
          (progress_of platform s1 depths) (progress_of platform derived depths) refl positioned
          kind_after (observed-at platform s depths inv may.going s1 hash depths refl refl))

  counts_after : counts_bind platform s.session derived ≡ true
  unfolding counts_bind with_hashes
  counts_after = rearranged-counts_bind platform s event after may.next inv.parts.counts

  bound : event_binds platform s.session (length s.topology_events) s.topology after event ≡ true
  unfolding event_binds is_next_event
  bound =
      let next = may.next in
      ground (
        arith,
        may.hash,
        ==_iff event.after_topology_hash after.content_hash,
        ==_iff (apply_topology_operation platform s.session s.topology event) (some after),
      )

  derived-IsReplayed : IsReplayed platform derived depths
  unfolding with_hashes rearranged retained_of
  derived-IsReplayed = record {
    parts = record {
      history =
          history_binds-append platform s.session s.topology_history s.topology_events s.topology
            after event inv.parts.history inv.parts.current bound;
      current = last-append s.topology_history after;
      counts = counts_after;
      completion = inv.parts.completion;
      observations =
          length-grow s.observed_state_hashes s.transitions _ transition inv.parts.observations;
      cycles = length-grow s.cycle_projection_hashes s.transitions _ transition inv.parts.cycles;
    };
    known = inv.known;
    replayed = replayed_after;
    retained = inv.retained;
  }

  -- The state that the engine builds, with any hash.
  abbrev pub after_event : CollaborationState
  after_event =
      sealed
        (with_hashes platform s1 (some s.topology.content_hash)
          (churn_count (topology_hashes s.topology_history)
            + (if before_last (topology_hashes s.topology_history) == some after.content_hash
                then 1
                else 0))
          depths)
        hash

  prior_hash :
      before_last (topology_hashes (s.topology_history ++ after ∷ []))
      ≡ some s.topology.content_hash
  prior_hash =
      ap before_last (map-append-last (λ h. h.content_hash) s.topology_history after)
      ∙ before_last-append (topology_hashes s.topology_history) after.content_hash
      ∙ last-map platform (λ h. h.content_hash) s.topology_history inv.parts.current

  churned :
      churn_count (topology_hashes (s.topology_history ++ after ∷ []))
      ≡ churn_count (topology_hashes s.topology_history)
        + (if before_last (topology_hashes s.topology_history) == some after.content_hash
            then 1
            else 0)
  churned =
      ap churn_count (map-append-last (λ h. h.content_hash) s.topology_history after)
      ∙ churn-append platform (topology_hashes s.topology_history) after.content_hash

  -- The event that the engine lets pass leaves a state that its validator lets pass.
  pub after_event-IsReplayed : IsReplayed platform after_event depths
  after_event-IsReplayed =
      subst
        (λ (prior : Option String).
          IsReplayed platform
            (sealed
              (with_hashes platform s1 prior
                (churn_count (topology_hashes s.topology_history)
                  + (if before_last (topology_hashes s.topology_history) == some after.content_hash
                      then 1
                      else 0))
                depths)
              hash)
            depths)
        prior_hash
        (subst
          (λ (churn : ℕ).
            IsReplayed platform
              (sealed
                (with_hashes platform s1
                  (before_last (topology_hashes (s.topology_history ++ after ∷ []))) churn depths)
                hash)
              depths)
          churned derived-IsReplayed)
