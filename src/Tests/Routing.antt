-- ===== src/Tests/Routing.antt =====
-- The theorems on routes at two models.
use lite_harness.Common.{
  ℕ, ◌+◌, ◌*◌, ◌≤◌, ◌≡◌, refl, true, false, some, none, [], ◌∷◌, ok, err, arith, keep, all,
  if◌then◌else◌, ◌==◌, List,
}
use mathlib.Core.List.{Perm}
use lite_harness.Routing.Models.{
  ModelDescriptor, RouteRequest, RoutePlan, UsageEvent, direct, text, tools, vision, text_delta,
  completed, stop, usage, request_accepted, no_compatible_model, other_code,
}
use lite_harness.Routing.Registry.{
  ModelRegistry, new_registry, register, validate_model, sort_models, insert_model, plan,
  is_eligible, is_compatible, score,
}
use lite_harness.Routing.Registry.Choice.{plan-perm, is_ranked}
use lite_harness.Routing.Cost.{calculated_cost, input_cost, with_authoritative_cost}
use lite_harness.Routing.Cost.Bounds.{with_authoritative_cost_bounds}
use lite_harness.Routing.Models.{ModelRunContext}
use lite_harness.Routing.Gateway.{
  ModelGateway, chosen, plan_for, plan_of_context, keep_plan, set_plan, trim,
  normalized_required_capabilities,
}
use lite_harness.Routing.Turn.{TurnRequest, try_routes, verdict, consume, stream_turn}
use lite_harness.Routing.Turn.Visibility.{
  stream_turn-given_up, all_but_last, is_given_up, is_admitted,
}
use lite_harness.Routing.Gateway.Plans.{PlanCall, after_plans, plan_for_again}

abbrev dear : ModelDescriptor
dear = record {
  id = "dear";
  provider_id = "anthropic";
  transport = direct;
  credential_profile_id = "main";
  capabilities = text ∷ tools ∷ [];
  context_window = 1_000;
  input_price = some 30;
  output_price = some 60;
  cached_input_price = some 10;
  cache_write_input_price = none;
  image_input_price = none;
  long_context_threshold = some 50;
  long_context_input_multiplier = some 200;
  long_context_output_multiplier = none;
  enabled = true;
}

abbrev cheap : ModelDescriptor
cheap = record dear {
  id = "cheap";
  provider_id = "openai";
  input_price = some 3;
  output_price = some 6;
  cached_input_price = none;
}

abbrev registry : ModelRegistry
registry = record { models = dear ∷ cheap ∷ []; generation = 3 }

abbrev request : RouteRequest
request = record {
  required_capabilities = text ∷ [];
  allowed_providers = none;
  allowed_models = none;
  preferred_model = none;
  max_input_price = none;
}

abbrev route : RoutePlan
route = record { id = "route_1"; registry_generation = 3; selected = cheap; fallbacks = dear ∷ [] }

register_both :
    (register dear new_registry ≡ ok (record { models = dear ∷ []; generation = 2 }))
    × (register cheap (record { models = dear ∷ []; generation = 2 }) ≡ ok registry)
unfolding register validate_model
register_both = (refl, refl)

plan_both : plan request "route_1" registry ≡ ok route
unfolding plan sort_models insert_model is_eligible is_compatible score
plan_both = refl

plan-perm_example :
    Perm (cheap ∷ dear ∷ []) (keep (is_eligible request) (dear ∷ cheap ∷ []))
    × (is_ranked request (cheap ∷ dear ∷ []) ≡ true)
    × (◌≡◌ {A = ℕ} 3 3)
plan-perm_example = plan-perm request "route_1" registry route plan_both

abbrev vision_request : RouteRequest
vision_request = record request { required_capabilities = text ∷ vision ∷ [] }

plan_vision :
    plan vision_request "route_1" registry
    ≡ err (record { code = no_compatible_model; retryable = false })
unfolding plan sort_models is_eligible is_compatible
plan_vision = refl

-- A long request, with cached tokens.
abbrev reported : UsageEvent
reported = record {
  input_tokens = 100;
  output_tokens = 10;
  cached_input_tokens = some 40;
  cache_write_input_tokens = none;
  image_input_tokens = none;
  cost = none;
}

abbrev charged : UsageEvent
charged = record reported { cost = some 500_000 }

charged_by : with_authoritative_cost reported dear ≡ ok charged
unfolding with_authoritative_cost calculated_cost input_cost
charged_by = refl

dear_is_valid : validate_model dear ≡ ok tt
unfolding validate_model
dear_is_valid = refl

with_authoritative_cost_bounds_example :
    (cost : ℕ) × (charged ≡ record reported { cost = some cost })
    × (0 ≤ cost)
    × (100 * (100 * 10) + 100 * (10 * 60) ≤ cost)
with_authoritative_cost_bounds_example =
    with_authoritative_cost_bounds dear reported charged 30 60 10 dear_is_valid refl refl
      (record {
        ordinary = omega arith;
        cached = omega arith;
        cache_write = omega arith;
        image = omega arith;
      })
      charged_by

abbrev context : ModelRunContext
context = record { run_id = "run_1"; attempt_id = "attempt_1"; has_cost_ceiling = true }

-- The cheap model fails before it shows anything, and the other one answers.
abbrev turn : TurnRequest
turn = record {
  request_length = 400;
  has_images = false;
  context = some context;
  has_adapter = λ _. true;
  call = λ m.
      if m.id == "cheap"
      then record {
        events = [];
        failure = some (record { code = other_code "overloaded"; retryable = true });
      }
      else record {
        events = request_accepted ∷ text_delta "hi" ∷ usage reported ∷ completed stop ∷ [];
        failure = none;
      };
  on_usage = λ _ _. none;
}

turn_events : stream_turn turn route ≡ record {
  called =
      record {
        model = cheap;
        yielded = [];
        visible = false;
        failure = some (record { code = other_code "overloaded"; retryable = true });
      }
      ∷ record {
        model = dear;
        yielded = text_delta "hi" ∷ usage charged ∷ completed stop ∷ [];
        visible = true;
        failure = none;
      }
      ∷ [];
  error = none;
}
unfolding stream_turn try_routes verdict consume with_authoritative_cost calculated_cost input_cost
turn_events = refl

stream_turn-given_up_example :
    (all_but_last is_given_up (stream_turn turn route).called ≡ true)
    × (all (λ c. is_admitted turn c.model) (stream_turn turn route).called ≡ true)
stream_turn-given_up_example = stream_turn-given_up turn route

abbrev gateway : ModelGateway
gateway = record { route = chosen registry; plans = [] }

abbrev planned : ModelGateway
planned = record gateway {
  plans = record { run_id = "run_1"; attempt_id = "attempt_1"; plan = route } ∷ [];
}

plan_first : plan_for (λ _. none) gateway (some context) (text ∷ []) "route_1" ≡ ok (planned, route)
unfolding plan_for plan_of_context keep_plan set_plan trim plan sort_models insert_model is_eligible
    is_compatible score
plan_first = refl

-- A turn of another attempt that is planned in between.
abbrev between : List PlanCall
between =
    record {
      on_route_plan = λ _. none;
      context = some (record context { attempt_id = "attempt_2" });
      required = text ∷ [];
      id = "route_2";
    }
    ∷ []

plan_for_again_example :
    plan_for
      (λ _. none)
      (record (after_plans planned between) { route = chosen new_registry })
      (some context)
      (normalized_required_capabilities (vision ∷ []))
      "route_3"
    ≡ ok (record (after_plans planned between) { route = chosen new_registry }, route)
plan_for_again_example =
    plan_for_again context (λ _. none) (λ _. none) gateway planned registry new_registry (text ∷ [])
      (normalized_required_capabilities (vision ∷ [])) "route_1" "route_3" route between refl refl
      plan_first (omega arith)
