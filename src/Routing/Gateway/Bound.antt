-- ===== src/Routing/Gateway/Bound.antt =====
-- A gateway over one model: packages/provider-core/src/index.ts (`CapabilityBoundModelGateway`). What
-- the inner gateway yields, and the error that ends it, are arguments.
use lite_harness.Common.{String, Option, some, none, List, [], ◌∷◌, Result, ok, err, ◌>>=◌}
use lite_harness.Routing.Models.{
  ModelDescriptor, ModelCapability, ModelEvent, RoutePlan, ProviderError, ModelError, usage,
  UsageEvent,
}
use lite_harness.Routing.Registry.{ModelRegistry, register, new_registry}
use lite_harness.Routing.Cost.{with_authoritative_cost}
use lite_harness.Routing.Models.{ModelRunContext}
use lite_harness.Routing.Gateway.{
  ModelGateway, chosen, normalized_required_capabilities, plan_of_registry,
}
use lite_harness.Routing.Turn.{TurnRequest, told}

-- The constructor: a registry of the descriptor alone.
abbrev pub new_bound_gateway : ModelDescriptor → Result ModelError ModelGateway
new_bound_gateway m = register m new_registry >>= λ r. ok (record { route = chosen r; plans = [] })

-- `#plan`, over the gateway's own registry.
unfoldable pub bound_plan_for :
    (RoutePlan → Option ProviderError)
    → ModelGateway
    → ModelRegistry
    → Option ModelRunContext
    → List ModelCapability
    → String
    → Result ProviderError (ModelGateway × RoutePlan)
bound_plan_for on_route_plan g r context required id =
    plan_of_registry on_route_plan g r required id context

-- What a stream yielded, and the error that ended it.
pub record Relayed : Type 0 where
  pub yielded : List ModelEvent
  pub error : Option ProviderError

abbrev pub relay_usage : Option ProviderError → UsageEvent → Relayed → Relayed
relay_usage (some e) u rest = record { yielded = []; error = some e }
relay_usage none u rest = record rest { yielded = usage u ∷ rest.yielded }

-- The loop over the events of the inner gateway.
unfoldable pub relay :
    TurnRequest → ModelDescriptor → List ModelEvent → Option ProviderError → Relayed
relay t m [] failure = record { yielded = []; error = failure }
relay t m (usage u ∷ es) failure =
    let rest = relay t m es failure in
    elim (with_authoritative_cost u m) [
      | err e ↦ record { yielded = []; error = some e }
      | ok priced ↦ relay_usage (told t m priced) priced rest
    ]
relay t m (e ∷ es) failure =
    let rest = relay t m es failure in record rest { yielded = e ∷ rest.yielded }

-- `streamTurn`
unfoldable pub bound_stream :
    (RoutePlan → Option ProviderError)
    → ModelGateway
    → ModelRegistry
    → TurnRequest
    → List ModelCapability
    → String
    → List ModelEvent
    → Option ProviderError
    → Result ProviderError (ModelGateway × Relayed)
bound_stream on_route_plan g r t wanted id events failure = do
  (h, p) ← bound_plan_for on_route_plan g r t.context (normalized_required_capabilities wanted) id
  ok (h, relay t p.selected events failure)
