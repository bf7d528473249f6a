-- ===== src/Collaboration/Usage.antt =====
-- `_UsageAccumulator` and its uses, of domain/collaboration/models.py.
use super_scientist_orchestr.Prelude.{
  ◌+◌, ◌-◌, ◌≡◌, refl, Bool, true, ◌&&◌, Option, none, some, List, [], ◌∷◌, ◌++◌, arith, leb,
  if◌then◌else◌, ◌==◌, nat_eq, string_eq, option_eq, list_eq, pair_eq, bool_eq,
}
use super_scientist_orchestr.Collaboration.{Resources, Platform}

abbrev pub zero_usage : Resources
zero_usage = record {
  cost_usd = 0;
  compute_units = 0;
  tokens = 0;
  elapsed_seconds = 0;
  tool_calls = 0;
  human_interventions = 0;
}

-- `_UsageAccumulator.add`
unfoldable pub add_usage : Resources → Resources → Resources
add_usage total usage = record {
  cost_usd = total.cost_usd + usage.cost_usd;
  compute_units = total.compute_units + usage.compute_units;
  tokens = total.tokens + usage.tokens;
  elapsed_seconds = total.elapsed_seconds + usage.elapsed_seconds;
  tool_calls = total.tool_calls + usage.tool_calls;
  human_interventions = total.human_interventions + usage.human_interventions;
}

abbrev pub add_all : Resources → List Resources → Resources
add_all total [] = total
add_all total (usage ∷ usages) = add_all (add_usage total usage) usages

-- `_usage_accumulator`
unfoldable pub accumulate : List Resources → Resources
accumulate usages = add_all zero_usage usages

-- `_UsageAccumulator.within_budget`
unfoldable pub within_budget : Resources → Resources → Bool
within_budget total budget =
    leb total.cost_usd budget.cost_usd
    && leb total.compute_units budget.compute_units
    && leb total.tokens budget.tokens
    && leb total.elapsed_seconds budget.elapsed_seconds
    && leb total.tool_calls budget.tool_calls
    && leb total.human_interventions budget.human_interventions

unfoldable pub usage_matches : Resources → Resources → Bool
usage_matches left right =
    left.tokens == right.tokens
    && left.tool_calls == right.tool_calls
    && left.human_interventions == right.human_interventions
    && left.cost_usd == right.cost_usd
    && left.compute_units == right.compute_units
    && left.elapsed_seconds == right.elapsed_seconds

module _ (platform : Platform) where
  open platform use {nearest}

  -- `_UsageAccumulator.to_usage`, whose floats are rounded.
  unfoldable pub to_usage : Resources → Resources
  to_usage total = record total {
    cost_usd = nearest total.cost_usd;
    compute_units = nearest total.compute_units;
    elapsed_seconds = nearest total.elapsed_seconds;
  }

  unfoldable pub sum_usage : List Resources → Resources
  unfolding to_usage accumulate
  sum_usage usages = to_usage (accumulate usages)

  -- `_UsageAccumulator.remaining`: `none` is the `ValueError`.
  unfoldable pub remaining : Resources → Resources → Option Resources
  unfolding within_budget
  remaining total budget =
      if within_budget total budget
      then some (record {
        cost_usd = nearest (budget.cost_usd - total.cost_usd);
        compute_units = nearest (budget.compute_units - total.compute_units);
        tokens = budget.tokens - total.tokens;
        elapsed_seconds = nearest (budget.elapsed_seconds - total.elapsed_seconds);
        tool_calls = budget.tool_calls - total.tool_calls;
        human_interventions = budget.human_interventions - total.human_interventions;
      })
      else none

add_all-append :
    (total : Resources) (usages : List Resources) (usage : Resources)
    → add_all total (usages ++ usage ∷ []) ≡ add_usage (add_all total usages) usage
add_all-append total [] usage = refl
add_all-append total (u ∷ usages) usage = add_all-append (add_usage total u) usages usage

pub accumulate-append :
    (usages : List Resources) (usage : Resources)
    → accumulate (usages ++ usage ∷ []) ≡ add_usage (accumulate usages) usage
unfolding accumulate
accumulate-append usages usage = add_all-append zero_usage usages usage

pub usage_matches_refl : (r : Resources) → usage_matches r r ≡ true
unfolding usage_matches
usage_matches_refl r = ground arith
