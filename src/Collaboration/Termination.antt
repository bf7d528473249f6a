-- ===== src/Collaboration/Termination.antt =====
-- When a collaboration is complete or has ended, and the hashes of its states, of
-- domain/collaboration/models.py.
use super_scientist_orchestr.Prelude.{
  ℕ, suc, ◌+◌, ◌-◌, ◌*◌, String, Bool, true, false, not, ◌&&◌, ◌||◌, Option, none, some, List, [],
  ◌∷◌, map, ltb, leb, if◌then◌else◌, ◌==◌, ◌!=◌, nat_eq, string_eq, option_eq, list_eq, pair_eq,
  bool_eq, length, any, is_empty, lookup, sorted, text_lt, last, ◌>>=◌, sorted_texts, distinct,
}
use super_scientist_orchestr.Json.{
  Value, Values, null, boolean, text, sequence, integer, mapping, nil, cons, item, end, Integer,
}
use super_scientist_orchestr.Collaboration.{
  Resources, TopologySnapshot, CollaborationSession, PeerContribution, Platform, hash_of,
  CollaborationState,
}
use super_scientist_orchestr.Collaboration.Topology.{count, eligible_peer_ids, texts}

pub data CollaborationTerminationReason : Type 0 where
  completed max_hops_reached max_contributions_reached per_peer_limit_reached :
      CollaborationTerminationReason
  topology_change_limit_reached no_eligible_peer repeated_state_loop :
      CollaborationTerminationReason
  topology_churn contribution_monopoly : CollaborationTerminationReason

-- `_completion_satisfied`
unfoldable pub completion_satisfied : CollaborationSession → List PeerContribution → Bool
completion_satisfied session contributions =
    if ltb (length contributions) session.completion_predicate.min_contributions
    then false
    else elim session.completion_predicate.required_contribution_kind [
      | none ↦ true
      | some kind ↦ any (λ c. c.contribution_kind == kind) contributions
    ]

-- `_completion_satisfied_from_summary`, with the kinds of the contributions as a counter.
unfoldable pub completion_from_summary : CollaborationSession → ℕ → List String → Bool
completion_from_summary session contribution_count kinds =
    if ltb contribution_count session.completion_predicate.min_contributions
    then false
    else elim session.completion_predicate.required_contribution_kind [
      | none ↦ true
      | some kind ↦ ltb 0 (count kind kinds)
    ]

-- `any(p(count) for count in counter.values())`
abbrev pub any_count : (ℕ → Bool) → List String → Bool
any_count p counter = any (λ k. p (count k counter)) counter

-- What `_termination_reason_from_summary` is called with.
pub record Summary : Type 0 where
  pub topology : TopologySnapshot
  pub topology_event_count : ℕ
  pub contribution_count : ℕ
  pub peer_counts : List String
  pub last_peer_id : Option String
  pub cycle_counts : List String
  pub churn_count : ℕ
  pub completed : Bool

-- `_termination_reason_from_summary`
unfoldable pub termination_reason :
    Platform → CollaborationSession → Summary → Option CollaborationTerminationReason
termination_reason platform session s =
    let budget = session.budget in
    if s.completed
    then some CollaborationTerminationReason.completed
    else if leb budget.max_hops s.contribution_count
    then some CollaborationTerminationReason.max_hops_reached
    else if leb budget.max_contributions s.contribution_count
    then some CollaborationTerminationReason.max_contributions_reached
    else if any_count (λ n. leb budget.max_contributions_per_peer n) s.peer_counts
    then some CollaborationTerminationReason.per_peer_limit_reached
    else if s.topology_event_count != 0 && leb budget.max_topology_changes s.topology_event_count
    then some CollaborationTerminationReason.topology_change_limit_reached
    else if any_count (λ n. ltb budget.max_state_repetitions (n - 1)) s.cycle_counts
    then some CollaborationTerminationReason.repeated_state_loop
    else if leb budget.max_topology_churn s.churn_count
    then some CollaborationTerminationReason.topology_churn
    else if s.contribution_count != 0
        && any_count
            (λ n.
              ltb (budget.max_peer_contribution_share * s.contribution_count) (n * platform.one))
            s.peer_counts
    then some CollaborationTerminationReason.contribution_monopoly
    else if is_empty (eligible_peer_ids session s.topology s.peer_counts s.last_peer_id)
    then some CollaborationTerminationReason.no_eligible_peer
    else none

abbrev pub topology_hashes : List TopologySnapshot → List String
topology_hashes = map (λ t. t.content_hash)

-- `sum(hashes[i] == hashes[i - 2] for i in range(2, len(hashes)))`
abbrev pub churn_count : List String → ℕ
churn_count [] = 0
churn_count (a ∷ []) = 0
churn_count (a ∷ b ∷ []) = 0
churn_count (a ∷ b ∷ c ∷ rest) = (if c == a then 1 else 0) + churn_count (b ∷ c ∷ rest)

abbrev pub peers_of : List PeerContribution → List String
peers_of = map (λ c. c.peer_id)

abbrev pub kinds_of : List PeerContribution → List String
kinds_of = map (λ c. c.contribution_kind)

-- The summary that `collaboration_termination_reason` makes of a state.
unfoldable pub summarize : CollaborationState → Summary
summarize state = record {
  topology = state.topology;
  topology_event_count = length state.topology_events;
  contribution_count = length state.contributions;
  peer_counts = peers_of state.contributions;
  last_peer_id = last (peers_of state.contributions);
  cycle_counts = state.cycle_projection_hashes;
  churn_count = churn_count (topology_hashes state.topology_history);
  completed = state.completed;
}

abbrev pub number : ℕ → Value
number n = integer (Integer.natural n)

abbrev pub optional_text : Option String → Value
optional_text none = null
optional_text (some t) = text t

-- `tuple(sorted(counter.items()))`, in the order of the keys.
abbrev pub counted : List String → List String → Values
counted counter [] = nil
counted counter (k ∷ ks) =
    cons (sequence (cons (text k) (cons (number (count k counter)) nil))) (counted counter ks)

abbrev pub counter_json : List String → Value
counter_json counter = sequence (counted counter (sorted_texts (distinct counter)))

-- `dict(zip(RESOURCE_FIELDS, exact_usage))`
abbrev pub usage_json : Platform → Resources → Value
usage_json platform usage = mapping (
    item (text "cost_usd") (text (platform.decimal_text usage.cost_usd)) (
      item (text "compute_units") (text (platform.decimal_text usage.compute_units)) (
        item (text "tokens") (number usage.tokens) (
          item (text "elapsed_seconds") (text (platform.decimal_text usage.elapsed_seconds)) (
            item (text "tool_calls") (number usage.tool_calls)
              (item (text "human_interventions") (number usage.human_interventions) end))))))

-- `tuple(sorted(depths.items()))`, where no two keys are equal.
abbrev pub depth_lt : String × ℕ → String × ℕ → Bool
depth_lt (a, m) (b, n) = text_lt a b || a == b && ltb m n

abbrev pub depths_json : List (String × ℕ) → Values
depths_json [] = nil
depths_json ((id, depth) ∷ depths) =
    cons (sequence (cons (text id) (cons (number depth) nil))) (depths_json depths)

module _ (platform : Platform) (session : CollaborationSession) where
  -- `collaboration_cycle_projection_hash`
  unfoldable pub cycle_projection_hash :
      TopologySnapshot → List String → List String → Option String → Resources → Bool → String
  cycle_projection_hash topology peer_counts kind_counts last_peer usage is_completed =
      hash_of platform (
        mapping (
          item (text "cycle_projection_schema_version") (number 2) (
            item (text "session_content_hash") (text session.content_hash) (
              item (text "topology_content_hash") (text topology.content_hash) (
                item (text "peer_contribution_counts") (counter_json peer_counts) (
                  item (text "contribution_kind_counts") (counter_json kind_counts) (
                    item (text "last_peer_id") (optional_text last_peer) (
                      item (text "exact_usage") (usage_json platform usage)
                        (item (text "completed") (boolean is_completed) end)))))))))

-- What `collaboration_semantic_state_hash` is called with, besides the session.
pub record Semantics : Type 0 where
  pub topology : TopologySnapshot
  pub prior_topology_hash : Option String
  pub topology_event_count : ℕ
  pub topology_churn_count : ℕ
  pub peer_counts : List String
  pub kind_counts : List String
  pub last_peer_id : Option String
  pub usage : Resources
  pub request_ids : List String
  pub depths : List (String × ℕ)
  pub cycle_counts : List String
  pub completed : Bool

-- `collaboration_semantic_state_hash`, whose callers sort the identifiers and the depths.
unfoldable pub semantic_state_hash : Platform → CollaborationSession → Semantics → String
semantic_state_hash platform session s = hash_of platform (
    mapping (
      item (text "semantic_schema_version") (number 4) (
        item (text "session_content_hash") (text session.content_hash) (
          item (text "topology_content_hash") (text s.topology.content_hash) (
            item (text "prior_topology_hash") (optional_text s.prior_topology_hash) (
              item (text "topology_event_count") (number s.topology_event_count) (
                item (text "topology_churn_count") (number s.topology_churn_count) (
                  item (text "peer_contribution_counts") (counter_json s.peer_counts) (
                    item (text "contribution_kind_counts") (counter_json s.kind_counts) (
                      item (text "last_peer_id") (optional_text s.last_peer_id) (
                        item (text "exact_usage") (usage_json platform s.usage) (
                          item (text "request_ids") (sequence (texts (sorted_texts s.request_ids)))
                            (item (text "contribution_depths")
                              (sequence (depths_json (sorted (λ a b. not (depth_lt b a)) s.depths)))
                              (item (text "cycle_projection_counts") (counter_json s.cycle_counts)
                                (item (text "completed") (boolean s.completed) end)))))))))))))))

-- The longest way from a contribution to one without parents: `max` over the parents, whose depths
-- are known; `none` is the `KeyError`.
abbrev pub max_depth : List (String × ℕ) → List String → Option ℕ
max_depth depths [] = some 0
max_depth depths (p ∷ ps) =
    lookup p depths >>= (λ d. max_depth depths ps >>= (λ m. some (if ltb m d then d else m)))

abbrev pub parent_depth : List (String × ℕ) → List String → Option ℕ
parent_depth depths [] = some 0
parent_depth depths (p ∷ ps) = max_depth depths (p ∷ ps) >>= (λ m. some (suc m))

-- `depths[id] = depth`
abbrev pub set_depth : String → ℕ → List (String × ℕ) → List (String × ℕ)
set_depth id depth [] = (id, depth) ∷ []
set_depth id depth ((k, d) ∷ depths) =
    let rest = set_depth id depth depths in if id == k then (k, depth) ∷ depths else (k, d) ∷ rest

unfoldable pub add_depth : List (String × ℕ) → PeerContribution → Option (List (String × ℕ))
add_depth depths c =
    parent_depth depths c.parent_contribution_ids
    >>= (λ depth. some (set_depth c.contribution_id depth depths))

-- The dictionary behind `_contribution_depths`.
unfoldable pub contribution_depths :
    List (String × ℕ) → List PeerContribution → Option (List (String × ℕ))
contribution_depths depths [] = some depths
contribution_depths depths (c ∷ cs) =
    add_depth depths c >>= (λ depths'. contribution_depths depths' cs)
