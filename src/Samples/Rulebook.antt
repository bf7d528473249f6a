-- ===== src/Samples/Rulebook.antt =====
-- Two behavioural rules and their versions.
use super_scientist_orchestr.Prelude.{
  ◌≤◌, String, ◌≡◌, refl, true, false, none, some, List, [], ◌∷◌, sorted, insert_sorted,
  split_words,
}
use mathlib.Core.List.{Memᴰ}
use super_scientist_orchestr.Rules.{
  RuleStatus, RuleAuthority, OverlapClassification, BehavioralRuleVersion, intersects, normalize,
  normalized, action_signature, same_exact_signature, classify_overlap,
  canonical_overlap_classification, canonical_overlap_priority, least,
}
use super_scientist_orchestr.Rules.Overlap.{
  mirrored, classify_overlap-mirrored, classify_overlap_iff,
}
use super_scientist_orchestr.Rules.Canonical.{
  canonical_overlap_classification-set, canonical_overlap_classification-least,
}
use super_scientist_orchestr.Rules.Versions.{
  semantic_version_increases, semantic_version_parts, before, behind, split_on, int_of, digits_onto,
  parts_increase, prerelease_increases, part_increases,
}
use super_scientist_orchestr.Rules.Precedence.{semantic_version_increases_asym}
use super_scientist_orchestr.Samples.{person}

-- Texts without capital letters are their own case folding.
abbrev fold : String → String
fold s = s

abbrev rule_on : String → List String → BehavioralRuleVersion
rule_on name scope = record {
  rule_version_id = name;
  rule_id = name;
  semantic_version = "1.0.0";
  title = name;
  canonical_statement = name;
  rationale = "a review found it";
  authority = RuleAuthority.project;
  scope = scope;
  triggers = "release" ∷ [];
  required_behavior = "run the tests" ∷ [];
  prohibited_behavior = [];
  exceptions = [];
  decision_boundary = "always";
  precedence_rule_ids = [];
  source_incident_ids = "incident-1" ∷ [];
  evidence_ids = "evidence-1" ∷ [];
  counterexamples = [];
  regression_test_ids = "test-1" ∷ [];
  retrieval_terms = "release" ∷ [];
  aliases = [];
  related_rule_ids = [];
  conflict_rule_ids = [];
  supersedes_rule_version_ids = [];
  status = RuleStatus.active;
  creator = person "alice";
  approver = none;
  created_at = 1;
  approved_at = none;
  governing_policy_hash = "00";
}

abbrev narrow : BehavioralRuleVersion
narrow = rule_on "narrow" ("the  kernel" ∷ [])

abbrev broad : BehavioralRuleVersion
broad = rule_on "broad" ("the kernel" ∷ "the command line" ∷ [])

abbrev elsewhere : BehavioralRuleVersion
elsewhere = rule_on "elsewhere" ("the handbook" ∷ [])

overlap_run : classify_overlap fold narrow broad ≡ OverlapClassification.narrower_instance
unfolding classify_overlap same_exact_signature normalize normalized action_signature split_words
    sorted insert_sorted
overlap_run = refl

mirrored_example :
    classify_overlap fold broad narrow ≡ mirrored (classify_overlap fold narrow broad)
mirrored_example = classify_overlap-mirrored fold narrow broad

apart_run : intersects (normalized fold narrow.scope) (normalized fold elsewhere.scope) ≡ false
unfolding normalized normalize split_words
apart_run = refl

differ_run : same_exact_signature fold narrow elsewhere ≡ false
unfolding same_exact_signature normalize normalized action_signature split_words sorted
    insert_sorted
differ_run = refl

non_redundant_example : classify_overlap fold narrow elsewhere ≡ OverlapClassification.non_redundant
non_redundant_example = (classify_overlap_iff fold narrow elsewhere).1 (apart_run, differ_run)

turned :
    (r : BehavioralRuleVersion) → Memᴰ r (broad ∷ elsewhere ∷ []) → Memᴰ r (elsewhere ∷ broad ∷ [])
turned r (Memᴰ.head e) = Memᴰ.tail (Memᴰ.head e)
turned r (Memᴰ.tail (Memᴰ.head e)) = Memᴰ.head e
turned r (Memᴰ.tail (Memᴰ.tail m)) = elim m [ ]

turned_back :
    (r : BehavioralRuleVersion) → Memᴰ r (elsewhere ∷ broad ∷ []) → Memᴰ r (broad ∷ elsewhere ∷ [])
turned_back r (Memᴰ.head e) = Memᴰ.tail (Memᴰ.head e)
turned_back r (Memᴰ.tail (Memᴰ.head e)) = Memᴰ.head e
turned_back r (Memᴰ.tail (Memᴰ.tail m)) = elim m [ ]

canonical_set_example :
    canonical_overlap_classification fold narrow (broad ∷ elsewhere ∷ [])
    ≡ canonical_overlap_classification fold narrow (elsewhere ∷ broad ∷ [])
canonical_set_example =
    canonical_overlap_classification-set fold narrow (broad ∷ elsewhere ∷ [])
      (elsewhere ∷ broad ∷ []) turned turned_back

canonical_run :
    canonical_overlap_classification fold narrow (elsewhere ∷ broad ∷ [])
    ≡ some OverlapClassification.narrower_instance
unfolding canonical_overlap_classification least classify_overlap same_exact_signature normalize
    normalized action_signature split_words sorted insert_sorted
canonical_run = refl

canonical_least_example :
    ((r : BehavioralRuleVersion) × Memᴰ r (elsewhere ∷ broad ∷ [])
      × (OverlapClassification.narrower_instance ≡ classify_overlap fold narrow r))
    × ((r : BehavioralRuleVersion)
        → Memᴰ r (elsewhere ∷ broad ∷ [])
        → canonical_overlap_priority OverlapClassification.narrower_instance
          ≤ canonical_overlap_priority (classify_overlap fold narrow r))
canonical_least_example =
    canonical_overlap_classification-least fold narrow (elsewhere ∷ broad ∷ [])
      OverlapClassification.narrower_instance canonical_run

version_run : semantic_version_increases "1.10.0-rc.2+build" "1.10.0-rc.1" ≡ some true
unfolding semantic_version_increases semantic_version_parts before behind split_on int_of
    digits_onto parts_increase prerelease_increases part_increases
version_run = refl

-- Two versions that differ and of which neither increases over the other.
leading_zero_run :
    (semantic_version_increases "1.0.0-01" "1.0.0-1" ≡ some false)
    × (semantic_version_increases "1.0.0-1" "1.0.0-01" ≡ some false)
unfolding semantic_version_increases semantic_version_parts before behind split_on int_of
    digits_onto parts_increase prerelease_increases part_increases
leading_zero_run = (refl, refl)

version_example : semantic_version_increases "1.10.0-rc.1" "1.10.0-rc.2+build" ≡ some false
version_example = semantic_version_increases_asym "1.10.0-rc.2+build" "1.10.0-rc.1" version_run
