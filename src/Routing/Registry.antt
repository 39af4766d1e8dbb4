-- ===== src/Routing/Registry.antt =====
-- The registry of models: packages/provider-core/src/index.ts (`ModelRegistry`, `validateModel`,
-- `score`). The id of a plan is an argument.
pub mod Choice
use lite_harness.Common.{
  ℕ, ◌+◌, ◌-◌, String, Bool, true, false, ◌&&◌, ◌||◌, not, Option, some, none, List, [], ◌∷◌, ◌++◌,
  Result, ok, err, ◌>>◌, throw_if, if◌then◌else◌, all, any, keep, includes, ltb, leb, eqb, find_by,
  update_by, ◌==◌, ◌*◌,
}
use lite_harness.Run.Record.{or_else, usd}
use lite_harness.Store.Events.{absent}
use lite_harness.Automation.Trigger.{max_safe_integer}
use lite_harness.Routing.Models.{
  text, ModelCapability, has_capability, ModelTransport, direct, delegated, ModelDescriptor,
  RouteRequest, RoutePlan, ModelError, identity_required, context_window_invalid, text_required,
  price_pair_required, multiplier_too_small, threshold_invalid, ProviderError, unknown_model_price,
  no_compatible_model,
}

-- Oldest first; a model that is registered again keeps its place.
pub record ModelRegistry : Type 0 where
  pub models : List ModelDescriptor
  pub generation : ℕ

abbrev pub new_registry : ModelRegistry
new_registry = record { models = []; generation = 1 }

abbrev pub model_id_of : ModelDescriptor → String
model_id_of m = m.id

abbrev below : Option ℕ → ℕ → Bool
below none limit = false
below (some n) limit = ltb n limit

-- Whether a natural number is not what `Number.isSafeInteger` accepts.
abbrev pub is_unsafe : Option ℕ → Bool
is_unsafe none = false
is_unsafe (some n) = ltb max_safe_integer n

-- The prices of the model are numbers by their type.
unfoldable pub validate_model : ModelDescriptor → Result ModelError (Unit {0})
validate_model m = do
  throw_if (m.id == "" || m.provider_id == "" || m.credential_profile_id == "") identity_required
  throw_if (eqb m.context_window 0 || ltb max_safe_integer m.context_window) context_window_invalid
  throw_if (not (has_capability m.capabilities text)) text_required
  throw_if (if absent m.input_price then not (absent m.output_price) else absent m.output_price)
      price_pair_required
  throw_if (below m.long_context_input_multiplier 100) multiplier_too_small
  throw_if (below m.long_context_output_multiplier 100) multiplier_too_small
  throw_if (below m.long_context_threshold 1 || is_unsafe m.long_context_threshold)
      threshold_invalid

unfoldable pub register : ModelDescriptor → ModelRegistry → Result ModelError ModelRegistry
register m r =
    validate_model m
    >> ok (record {
      models = elim (find_by model_id_of m.id r.models) [
        | none ↦ r.models ++ m ∷ []
        | some _ ↦ update_by model_id_of m.id (λ _. m) r.models
      ];
      generation = r.generation + 1;
    })

-- `!list || list.includes(value)`
abbrev pub allows : Option (List String) → String → Bool
allows none value = true
allows (some values) value = includes values value

-- What the filter asks of a model before its price.
unfoldable pub is_compatible : RouteRequest → ModelDescriptor → Bool
is_compatible request m =
    m.enabled
    && all (has_capability m.capabilities) request.required_capabilities
    && allows request.allowed_providers m.provider_id
    && allows request.allowed_models m.id

abbrev pub has_unknown_price : RouteRequest → ModelDescriptor → Bool
has_unknown_price request m = not (absent request.max_input_price) && absent m.input_price

abbrev pub price_fits : Option ℕ → Option ℕ → Bool
price_fits none price = true
price_fits (some limit) none = false
price_fits (some limit) (some price) = leb price limit

unfoldable pub is_eligible : RouteRequest → ModelDescriptor → Bool
is_eligible request m = is_compatible request m && price_fits request.max_input_price m.input_price

abbrev is_preferred : Option String → ModelDescriptor → Bool
is_preferred none m = false
is_preferred (some id) m = id == m.id

abbrev transport_penalty : ModelTransport → ℕ
transport_penalty direct = 0
transport_penalty delegated = 10_000 * usd

-- The score of the source and a million, since it takes a million from the preferred model.
unfoldable pub score : RouteRequest → ModelDescriptor → ℕ
score request m =
    (if is_preferred request.preferred_model m then 0 else 1_000_000 * usd)
    + transport_penalty m.transport
    + or_else m.input_price (1_000 * usd)
    + or_else m.output_price (1_000 * usd)

unfoldable pub insert_model :
    RouteRequest → ModelDescriptor → List ModelDescriptor → List ModelDescriptor
insert_model request m [] = m ∷ []
insert_model request m (x ∷ xs) =
    let rest = insert_model request m xs in
    if leb (score request m) (score request x) then m ∷ x ∷ xs else x ∷ rest

-- `candidates.sort(...)`, which is stable.
unfoldable pub sort_models : RouteRequest → List ModelDescriptor → List ModelDescriptor
sort_models request [] = []
sort_models request (x ∷ xs) = insert_model request x (sort_models request xs)

abbrev pub choose :
    RouteRequest → String → ModelRegistry → List ModelDescriptor → Result ProviderError RoutePlan
choose request id r (selected ∷ fallbacks) = ok (record {
  id = id;
  registry_generation = r.generation;
  selected = selected;
  fallbacks = fallbacks;
})
choose request id r [] =
    if any (λ m. is_compatible request m && has_unknown_price request m) r.models
    then err (record { code = unknown_model_price; retryable = false })
    else err (record { code = no_compatible_model; retryable = false })

unfoldable pub plan : RouteRequest → String → ModelRegistry → Result ProviderError RoutePlan
plan request id r = choose request id r (sort_models request (keep (is_eligible request) r.models))
