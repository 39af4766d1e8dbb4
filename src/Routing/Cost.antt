-- ===== src/Routing/Cost.antt =====
-- The cost of a turn: packages/provider-core/src/index.ts (`hasKnownModelPricing`,
-- `withAuthoritativeCost`).
pub mod Bounds
use lite_harness.Common.{
  ℕ, ◌+◌, ◌-◌, ◌*◌, max, Bool, true, false, ◌&&◌, ◌||◌, not, Option, some, none, Result, ok, err,
  if◌then◌else◌, ltb,
}
use lite_harness.Run.Record.{or_else}
use lite_harness.Store.Events.{absent}
use lite_harness.Routing.Registry.{is_unsafe}
use lite_harness.Routing.Models.{ModelDescriptor, UsageEvent, ProviderError, invalid_usage}

abbrev pub has_known_pricing : ModelDescriptor → Bool
has_known_pricing m = not (absent m.input_price) && not (absent m.output_price)

abbrev pub is_long : ModelDescriptor → UsageEvent → Bool
is_long m e = elim m.long_context_threshold [ none ↦ false | some t ↦ ltb t e.input_tokens ]

-- A multiplier, in hundredths.
abbrev pub multiplier : Bool → Option ℕ → ℕ
multiplier long factor = if long then or_else factor 100 else 100

-- The tokens of the three categories that have prices of their own.
abbrev pub special_tokens : UsageEvent → ℕ
special_tokens e =
    or_else e.cached_input_tokens 0
    + or_else e.cache_write_input_tokens 0
    + or_else e.image_input_tokens 0

unfoldable pub input_cost : ModelDescriptor → UsageEvent → ℕ → ℕ
input_cost m e input_price =
    (e.input_tokens - special_tokens e) * input_price
    + or_else e.cached_input_tokens 0 * or_else m.cached_input_price input_price
    + or_else e.cache_write_input_tokens 0 * or_else m.cache_write_input_price input_price
    + or_else e.image_input_tokens 0 * or_else m.image_input_price input_price

unfoldable pub calculated_cost : ModelDescriptor → UsageEvent → ℕ → ℕ → ℕ
calculated_cost m e input_price output_price =
    multiplier (is_long m e) m.long_context_input_multiplier * input_cost m e input_price
    + multiplier (is_long m e) m.long_context_output_multiplier * e.output_tokens * output_price

abbrev priced : ModelDescriptor → UsageEvent → ℕ → ℕ → Result ProviderError UsageEvent
priced m e input_price output_price =
    if is_unsafe e.cached_input_tokens
      || is_unsafe e.cache_write_input_tokens
      || is_unsafe e.image_input_tokens
      || ltb e.input_tokens (special_tokens e)
    then err (record { code = invalid_usage; retryable = false })
    else ok (record e {
      cost = some (max (or_else e.cost 0) (calculated_cost m e input_price output_price));
    })

abbrev with_prices :
    ModelDescriptor → UsageEvent → Option ℕ → Option ℕ → Result ProviderError UsageEvent
with_prices m e (some input_price) (some output_price) = priced m e input_price output_price
with_prices m e _ _ = ok e

-- The counts of the model are natural numbers by their type; those of the three categories are safe.
unfoldable pub with_authoritative_cost :
    UsageEvent → ModelDescriptor → Result ProviderError UsageEvent
with_authoritative_cost e m = with_prices m e m.input_price m.output_price
