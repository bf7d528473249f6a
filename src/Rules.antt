-- ===== src/Rules.antt =====
-- domain/behavioral_rules: versions of behavioural rules, and how a candidate overlaps with the
-- rules that are active.
pub mod Overlap
pub mod Canonical
pub mod Versions
pub mod Precedence
use super_scientist_orchestr.Prelude.{
  ℕ, String, Bool, not, ◌&&◌, ◌||◌, Option, none, some, List, [], ◌∷◌, ◌++◌, map, ltb,
  if◌then◌else◌, ◌==◌, nat_eq, string_eq, option_eq, list_eq, any, contains, subset, same_set,
  sorted, text_lt, split_words, spaced,
}
use super_scientist_orchestr.Identity.{ActorIdentity}

pub data RuleStatus : Type 0 where
  proposed under_review active experimental quarantined superseded deprecated rejected : RuleStatus

pub data RuleAuthority : Type 0 where
  constitutional governance project domain component task run_local : RuleAuthority

pub data OverlapClassification : Type 0 where
  exact_duplicate semantic_duplicate narrower_instance broader_reformulation partial_overlap
        same_trigger_different_action different_trigger_same_action non_redundant :
      OverlapClassification

pub record BehavioralRuleVersion : Type 0 where
  pub rule_version_id : String
  pub rule_id : String
  pub semantic_version : String
  pub title : String
  pub canonical_statement : String
  pub rationale : String
  pub authority : RuleAuthority
  pub scope : List String
  pub triggers : List String
  pub required_behavior : List String
  pub prohibited_behavior : List String
  pub exceptions : List String
  pub decision_boundary : String
  pub precedence_rule_ids : List String
  pub source_incident_ids : List String
  pub evidence_ids : List String
  pub counterexamples : List String
  pub regression_test_ids : List String
  pub retrieval_terms : List String
  pub aliases : List String
  pub related_rule_ids : List String
  pub conflict_rule_ids : List String
  pub supersedes_rule_version_ids : List String
  pub status : RuleStatus
  pub creator : ActorIdentity
  pub approver : Option ActorIdentity
  pub created_at : ℕ
  pub approved_at : Option ℕ
  pub governing_policy_hash : String

-- The place in `CANONICAL_OVERLAP_PRIORITY`.
abbrev pub canonical_overlap_priority : OverlapClassification → ℕ
canonical_overlap_priority OverlapClassification.exact_duplicate = 0
canonical_overlap_priority OverlapClassification.semantic_duplicate = 1
canonical_overlap_priority OverlapClassification.narrower_instance = 2
canonical_overlap_priority OverlapClassification.broader_reformulation = 3
canonical_overlap_priority OverlapClassification.partial_overlap = 4
canonical_overlap_priority OverlapClassification.same_trigger_different_action = 5
canonical_overlap_priority OverlapClassification.different_trigger_same_action = 6
canonical_overlap_priority OverlapClassification.non_redundant = 7

-- `xs & ys` is not empty.
abbrev pub intersects : List String → List String → Bool
intersects xs ys = any (contains ys) xs

abbrev pub text_le : String → String → Bool
text_le s t = not (text_lt t s)

-- `min`, which keeps the first of several least.
unfoldable pub least : OverlapClassification → List OverlapClassification → OverlapClassification
least best [] = best
least best (c ∷ cs) =
    least (if ltb (canonical_overlap_priority c) (canonical_overlap_priority best) then c else best)
      cs

-- `str.casefold` is given.
module _ (casefold : String → String) where
  unfoldable pub normalize : String → String
  normalize value = casefold (spaced (split_words value))

  -- `_normalized_tuple`; a frozen set of its members is compared by them.
  unfoldable pub normalized : List String → List String
  unfolding normalize
  normalized values = map normalize values

  unfoldable pub action_signature : BehavioralRuleVersion → List String
  unfolding normalized
  action_signature rule =
      sorted text_le (normalized rule.required_behavior)
      ++ ("--prohibited--" ∷ sorted text_le (normalized rule.prohibited_behavior))

  -- `_exact_signature(candidate) == _exact_signature(existing)`
  unfoldable pub same_exact_signature : BehavioralRuleVersion → BehavioralRuleVersion → Bool
  unfolding normalize normalized action_signature
  same_exact_signature candidate existing =
      normalize candidate.canonical_statement == normalize existing.canonical_statement
      && same_set (normalized candidate.scope) (normalized existing.scope)
      && same_set (normalized candidate.triggers) (normalized existing.triggers)
      && action_signature candidate == action_signature existing
      && same_set (normalized candidate.exceptions) (normalized existing.exceptions)
      && normalize candidate.decision_boundary == normalize existing.decision_boundary

  unfoldable pub classify_overlap :
      BehavioralRuleVersion → BehavioralRuleVersion → OverlapClassification
  unfolding normalize normalized action_signature same_exact_signature
  classify_overlap candidate existing =
      let candidate_scope = normalized candidate.scope in
      let existing_scope = normalized existing.scope in
      let candidate_triggers = normalized candidate.triggers in
      let existing_triggers = normalized existing.triggers in
      let candidate_actions = action_signature candidate in
      let existing_actions = action_signature existing in
      if same_exact_signature candidate existing
      then OverlapClassification.exact_duplicate
      else if not (intersects candidate_scope existing_scope)
      then OverlapClassification.non_redundant
      else if same_set candidate_scope existing_scope
          && same_set candidate_triggers existing_triggers
          && candidate_actions == existing_actions
          && same_set (normalized candidate.exceptions) (normalized existing.exceptions)
          && normalize candidate.decision_boundary == normalize existing.decision_boundary
      then OverlapClassification.semantic_duplicate
      else if candidate_actions == existing_actions
          && subset candidate_scope existing_scope
          && subset candidate_triggers existing_triggers
          && (not (same_set candidate_scope existing_scope)
              || not (same_set candidate_triggers existing_triggers))
      then OverlapClassification.narrower_instance
      else if candidate_actions == existing_actions
          && subset existing_scope candidate_scope
          && subset existing_triggers candidate_triggers
          && (not (same_set candidate_scope existing_scope)
              || not (same_set candidate_triggers existing_triggers))
      then OverlapClassification.broader_reformulation
      else if same_set candidate_triggers existing_triggers
          && not (candidate_actions == existing_actions)
      then OverlapClassification.same_trigger_different_action
      else if not (same_set candidate_triggers existing_triggers)
          && candidate_actions == existing_actions
      then OverlapClassification.different_trigger_same_action
      else if intersects candidate_scope existing_scope
          || intersects candidate_triggers existing_triggers
          || intersects candidate_actions existing_actions
      then OverlapClassification.partial_overlap
      else OverlapClassification.non_redundant

  unfoldable pub canonical_overlap_classification :
      BehavioralRuleVersion → List BehavioralRuleVersion → Option OverlapClassification
  unfolding least classify_overlap
  canonical_overlap_classification candidate [] = none
  canonical_overlap_classification candidate (rule ∷ rules) =
      some (least (classify_overlap candidate rule) (map (classify_overlap candidate) rules))
