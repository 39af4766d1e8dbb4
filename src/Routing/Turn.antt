-- ===== src/Routing/Turn.antt =====
-- A turn over the routes of a plan: packages/provider-core/src/index.ts (`RoutedModelGateway.streamTurn`,
-- `estimateModelContextTokens`, `assertModelContextFits`, `providerRequestBecameVisible`). A call of
-- an adapter, with the credential resolved first, is the events that it yields and the error that ends
-- it.
pub mod Visibility
use lite_harness.Routing.Models.{ModelRunContext}
use lite_harness.Common.{
  ℕ, ◌+◌, ◌/◌, String, Bool, true, false, ◌&&◌, ◌||◌, not, Option, some, none, List, [], ◌∷◌, ok,
  err, if◌then◌else◌, ltb,
}
use lite_harness.Run.Record.{or_else}
use lite_harness.Routing.Models.{
  ModelDescriptor, RoutePlan, ProviderError, adapter_missing, context_limit_exceeded,
  context_recompile_required, route_exhausted, unknown_model_price, ModelEvent, UsageEvent, usage,
  completed, request_accepted,
}
use lite_harness.Routing.Cost.{has_known_pricing, with_authoritative_cost}

-- What an adapter does for a model.
pub record AdapterCall : Type 0 where
  pub events : List ModelEvent
  pub failure : Option ProviderError

-- A route that was called: what was yielded of it, and whether the request became visible.
pub record Called : Type 0 where
  pub model : ModelDescriptor
  pub yielded : List ModelEvent
  pub visible : Bool
  pub failure : Option ProviderError

-- The routes that a turn called, and the error that it threw.
pub record Turn : Type 0 where
  pub called : List Called
  pub error : Option ProviderError

-- What a turn depends on: the length of the request as JSON, whether it has images, the run's context,
-- the adapters, what they do, and the hook for usage.
pub record TurnRequest : Type 0 where
  pub request_length : ℕ
  pub has_images : Bool
  pub context : Option ModelRunContext
  pub has_adapter : String → Bool
  pub call : ModelDescriptor → AdapterCall
  pub on_usage : ModelDescriptor → UsageEvent → Option ProviderError

abbrev pub provider_request_became_visible : ModelEvent → Bool
provider_request_became_visible (completed _) = false
provider_request_became_visible _ = true

abbrev pub yield_event : ModelEvent → Called → Called
yield_event e c = record c {
  yielded = e ∷ c.yielded;
  visible = provider_request_became_visible e || c.visible;
}

abbrev pub stopped : ModelDescriptor → Bool → Option ProviderError → Called
stopped m visible failure = record { model = m; yielded = []; visible = visible; failure = failure }

-- The hook is told of usage only in a run.
abbrev pub told : TurnRequest → ModelDescriptor → UsageEvent → Option ProviderError
told t m u = elim t.context [ none ↦ none | some _ ↦ t.on_usage m u ]

-- The loop over the events of an adapter.
unfoldable pub consume :
    TurnRequest → ModelDescriptor → List ModelEvent → Option ProviderError → Called
consume t m [] failure = stopped m false failure
consume t m (request_accepted ∷ es) failure = record (consume t m es failure) { visible = true }
consume t m (usage u ∷ es) failure = elim (with_authoritative_cost u m) [
  | err e ↦ stopped m true (some e)
  | ok priced ↦ elim (told t m priced) [
    | some e ↦ stopped m true (some e)
    | none ↦ yield_event (usage priced) (consume t m es failure)
  ]
]
consume t m (e ∷ es) failure = yield_event e (consume t m es failure)

-- `estimateModelContextTokens`: a token for four characters.
abbrev pub estimated_tokens : TurnRequest → ℕ
estimated_tokens t = (t.request_length + 3) / 4

-- `assertModelContextFits`: whether it throws.
abbrev pub exceeds_window : TurnRequest → ModelDescriptor → Bool
exceeds_window t m = ltb m.context_window (estimated_tokens t)

abbrev pub must_know_price : TurnRequest → Bool
must_know_price t = elim t.context [ none ↦ false | some c ↦ c.has_cost_ceiling ]

abbrev pub failed_with : ProviderError → Turn
failed_with e = record { called = []; error = some e }

-- After the call of a route: the turn is over, or the next route follows.
abbrev pub go_on : Called → Turn → Turn
go_on c next = elim c.failure [
  | none ↦ record { called = c ∷ []; error = none }
  | some e ↦
      if not e.retryable || c.visible
      then record { called = c ∷ []; error = some e }
      else record next { called = c ∷ next.called }
]

-- What the loop does at a route: it throws, goes on to the next route, or calls the adapter.
pub data Verdict : Type 0 where
  refuse skip : ProviderError → Verdict
  call_adapter : Verdict

-- At a route, a later one if `later`.
unfoldable pub verdict : TurnRequest → Bool → ModelDescriptor → Verdict
verdict t later m =
    if exceeds_window t m
    then refuse (record { code = context_limit_exceeded; retryable = false })
    else (if later && t.has_images
        then refuse (record { code = context_recompile_required; retryable = true })
        else (if must_know_price t && not (has_known_pricing m)
            then skip (record { code = unknown_model_price; retryable = false })
            else (if not (t.has_adapter m.provider_id)
                then skip (record { code = adapter_missing; retryable = false })
                else call_adapter)))

-- The loop over the routes.
unfoldable pub try_routes : TurnRequest → Bool → Option ProviderError → List ModelDescriptor → Turn
try_routes t later last [] =
    failed_with (or_else last (record { code = route_exhausted; retryable = true }))
try_routes t later last (m ∷ ms) = elim (verdict t later m) [
  | refuse e ↦ failed_with e
  | skip e ↦ try_routes t true (some e) ms
  | call_adapter ↦
      let c = consume t m (t.call m).events (t.call m).failure in
      go_on c (try_routes t true c.failure ms)
]

-- A turn over the routes of a plan.
unfoldable pub stream_turn : TurnRequest → RoutePlan → Turn
stream_turn t p = try_routes t false none (p.selected ∷ p.fallbacks)
