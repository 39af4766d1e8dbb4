-- ===== src/Routing/Gateway.antt =====
-- The plans of runs and the turns on them: packages/provider-core/src/index.ts (`RoutedModelGateway`,
-- `normalizedRequiredCapabilities`). The hooks are parameters.
pub mod Plans
pub mod Bound
use lite_harness.Routing.Turn.{
  AdapterCall, Called, Turn, TurnRequest, Verdict, call_adapter, consume, estimated_tokens,
  exceeds_window, failed_with, go_on, must_know_price, provider_request_became_visible, refuse,
  skip, stopped, stream_turn, told, try_routes, verdict, yield_event,
}
use lite_harness.Common.{
  ℕ, ◌+◌, ◌-◌, ◌/◌, suc, zero, String, Bool, true, false, ◌&&◌, ◌||◌, not, Option, some, none, List,
  [], ◌∷◌, ◌++◌, Result, ok, err, ◌>>=◌, if◌then◌else◌, all, find?, length, ltb, ◌==◌,
}
use lite_harness.Run.Record.{or_else}
use lite_harness.Routing.Models.{
  ModelRunContext, RouteRequest, text, ModelCapability, has_capability, ModelDescriptor, RoutePlan,
  ProviderError, adapter_missing, context_limit_exceeded, context_recompile_required,
  route_exhausted, unknown_model_price, no_compatible_model, ModelEvent, UsageEvent, text_delta,
  tool_call, usage, completed, request_accepted,
}
use lite_harness.Routing.Registry.{ModelRegistry, plan}
use lite_harness.Routing.Cost.{has_known_pricing, with_authoritative_cost}

-- `[...new Set(values)]`
abbrev distinct_capabilities : List ModelCapability → List ModelCapability → List ModelCapability
distinct_capabilities seen [] = []
distinct_capabilities seen (c ∷ cs) =
    let rest = distinct_capabilities (c ∷ seen) cs in
    if has_capability seen c then rest else c ∷ rest

abbrev wanted_or_text : List ModelCapability → List ModelCapability
wanted_or_text [] = text ∷ []
wanted_or_text (c ∷ cs) = distinct_capabilities [] (c ∷ cs)

unfoldable pub normalized_required_capabilities : List ModelCapability → List ModelCapability
normalized_required_capabilities value =
    let capabilities = wanted_or_text value in
    if has_capability capabilities text then capabilities else text ∷ capabilities

pub data Route : Type 0 where
  frozen : RoutePlan → Route
  chosen : ModelRegistry → Route

pub record PlannedRoute : Type 0 where
  pub run_id : String
  pub attempt_id : String
  pub plan : RoutePlan

-- The plans of the runs' attempts, oldest first.
pub record ModelGateway : Type 0 where
  pub route : Route
  pub plans : List PlannedRoute

abbrev pub is_plan_of : ModelRunContext → PlannedRoute → Bool
is_plan_of c p = p.run_id == c.run_id && p.attempt_id == c.attempt_id

abbrev pub drop_first : ℕ → List PlannedRoute → List PlannedRoute
drop_first zero ps = ps
drop_first (suc n) [] = []
drop_first (suc n) (p ∷ ps) = drop_first n ps

-- `while (plans.size > 1_024) plans.delete(oldest)`
unfoldable pub trim : List PlannedRoute → List PlannedRoute
trim ps = drop_first (length ps - 1_024) ps

unfoldable pub set_plan : ModelGateway → ModelRunContext → RoutePlan → ModelGateway
set_plan g c p = record g {
  plans = trim (g.plans ++ record { run_id = c.run_id; attempt_id = c.attempt_id; plan = p } ∷ []);
}

-- A plan that is chosen now, told to the hook and kept.
unfoldable pub keep_plan :
    (RoutePlan → Option ProviderError)
    → ModelGateway
    → ModelRunContext
    → RoutePlan
    → Result ProviderError (ModelGateway × RoutePlan)
keep_plan on_route_plan g c p = elim (on_route_plan p) [
  | some e ↦ err e
  | none ↦ ok (set_plan g c p, p)
]

abbrev request_of : List ModelCapability → RouteRequest
request_of required = record {
  required_capabilities = required;
  allowed_providers = none;
  allowed_models = none;
  preferred_model = none;
  max_input_price = none;
}

unfoldable pub plan_of_context :
    (RoutePlan → Option ProviderError)
    → ModelGateway
    → ModelRegistry
    → List ModelCapability
    → String
    → ModelRunContext
    → Result ProviderError (ModelGateway × RoutePlan)
unfolding keep_plan
plan_of_context on_route_plan g r required id c = elim (find? (is_plan_of c) g.plans) [
  | some kept ↦ ok (g, kept.plan)
  | none ↦ plan (request_of required) id r >>= keep_plan on_route_plan g c
]

abbrev pub plan_of_registry :
    (RoutePlan → Option ProviderError)
    → ModelGateway
    → ModelRegistry
    → List ModelCapability
    → String
    → Option ModelRunContext
    → Result ProviderError (ModelGateway × RoutePlan)
plan_of_registry on_route_plan g r required id none =
    plan (request_of required) id r >>= λ p. ok (g, p)
plan_of_registry on_route_plan g r required id (some c) =
    plan_of_context on_route_plan g r required id c

abbrev plan_of_route :
    (RoutePlan → Option ProviderError)
    → ModelGateway
    → Route
    → List ModelCapability
    → String
    → Option ModelRunContext
    → Result ProviderError (ModelGateway × RoutePlan)
plan_of_route on_route_plan g (frozen p) required id context =
    if all (has_capability p.selected.capabilities) required
    then ok (g, p)
    else err (record { code = no_compatible_model; retryable = false })
plan_of_route on_route_plan g (chosen r) required id context =
    plan_of_registry on_route_plan g r required id context

-- `#plan`; the id of a new plan is drawn at random.
unfoldable pub plan_for :
    (RoutePlan → Option ProviderError)
    → ModelGateway
    → Option ModelRunContext
    → List ModelCapability
    → String
    → Result ProviderError (ModelGateway × RoutePlan)
plan_for on_route_plan g context required id =
    plan_of_route on_route_plan g g.route required id context

-- `prepareRun`
unfoldable pub prepare_run :
    (RoutePlan → Option ProviderError)
    → ModelGateway
    → ModelRunContext
    → List ModelCapability
    → String
    → Result ProviderError (ModelGateway × RoutePlan)
prepare_run on_route_plan g c wanted id =
    plan_for on_route_plan g (some c) (normalized_required_capabilities wanted) id

-- `streamTurn`: the plan of the turn, and what becomes of its routes.
unfoldable pub stream :
    (RoutePlan → Option ProviderError)
    → ModelGateway
    → TurnRequest
    → List ModelCapability
    → String
    → Result ProviderError (ModelGateway × Turn)
stream on_route_plan g t wanted id = do
  (h, p) ← plan_for on_route_plan g t.context (normalized_required_capabilities wanted) id
  ok (h, stream_turn t p)
