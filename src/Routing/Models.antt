-- ===== src/Routing/Models.antt =====
-- Models, requests for a route and events: packages/provider-core/src/index.ts (`ModelDescriptor`,
-- `RouteRequest`, `RoutePlan`, `ModelEvent`, `ProviderAdapterEvent`, `ProviderError`).
-- A price is a number of millionths of a dollar for a million tokens, a multiplier a number of
-- hundredths, and a cost a number of 10^-14 dollars, so that the sums of the source are exact.
use lite_harness.Common.{ℕ, String, Bool, Option, List, eqb, any}
use lite_harness.Store.Json.{Fields}

pub data ModelCapability : Type 0 where
  text tools vision json reasoning delegated_agent : ModelCapability

abbrev capability_code : ModelCapability → ℕ
capability_code text = 0
capability_code tools = 1
capability_code vision = 2
capability_code json = 3
capability_code reasoning = 4
capability_code delegated_agent = 5

abbrev pub has_capability : List ModelCapability → ModelCapability → Bool
has_capability cs c = any (λ d. eqb (capability_code d) (capability_code c)) cs

pub data ModelTransport : Type 0 where
  direct delegated : ModelTransport

pub record ModelDescriptor : Type 0 where
  pub id : String
  pub provider_id : String
  pub transport : ModelTransport
  pub credential_profile_id : String
  pub capabilities : List ModelCapability
  pub context_window : ℕ
  pub input_price : Option ℕ
  pub output_price : Option ℕ
  pub cached_input_price : Option ℕ
  pub cache_write_input_price : Option ℕ
  pub image_input_price : Option ℕ
  pub long_context_threshold : Option ℕ
  pub long_context_input_multiplier : Option ℕ
  pub long_context_output_multiplier : Option ℕ
  pub enabled : Bool

pub record RouteRequest : Type 0 where
  pub required_capabilities : List ModelCapability
  pub allowed_providers : Option (List String)
  pub allowed_models : Option (List String)
  pub preferred_model : Option String
  pub max_input_price : Option ℕ

pub record RoutePlan : Type 0 where
  pub id : String
  pub registry_generation : ℕ
  pub selected : ModelDescriptor
  pub fallbacks : List ModelDescriptor

pub data ModelError : Type 0 where
  identity_required context_window_invalid text_required price_pair_required : ModelError
  multiplier_too_small threshold_invalid : ModelError

pub data ProviderCode : Type 0 where
  unknown_model_price no_compatible_model adapter_missing context_limit_exceeded : ProviderCode
  context_recompile_required route_exhausted invalid_usage : ProviderCode
  other_code : String → ProviderCode

-- An error that a route threw: `retryable` is false for what is no `ProviderError`.
pub record ProviderError : Type 0 where
  pub code : ProviderCode
  pub retryable : Bool

pub record UsageEvent : Type 0 where
  pub input_tokens : ℕ
  pub output_tokens : ℕ
  pub cached_input_tokens : Option ℕ
  pub cache_write_input_tokens : Option ℕ
  pub image_input_tokens : Option ℕ
  pub cost : Option ℕ

pub record ToolCall : Type 0 where
  pub id : String
  pub name : String
  pub arguments : Fields

pub data FinishReason : Type 0 where
  stop tool_calls : FinishReason

pub data ModelEvent : Type 0 where
  text_delta : String → ModelEvent
  tool_call : ToolCall → ModelEvent
  usage : UsageEvent → ModelEvent
  completed : FinishReason → ModelEvent
  request_accepted : ModelEvent

-- The part of `ModelRunContext` that a plan reads.
pub record ModelRunContext : Type 0 where
  pub run_id : String
  pub attempt_id : String
  pub has_cost_ceiling : Bool
