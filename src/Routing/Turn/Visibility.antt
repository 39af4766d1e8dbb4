-- ===== src/Routing/Turn/Visibility.antt =====
-- What a turn shows of the routes that it calls.
use lite_harness.Common.{
  ◌≡◌, ◌⊎◌, Bool, true, false, ◌&&◌, ◌||◌, not, Option, some, none, List, [], ◌∷◌, arith, refl, all,
  leb, inl, inr,
}
use lite_harness.Run.Record.{or_else}
use lite_harness.Routing.Models.{
  ModelDescriptor, RoutePlan, ProviderError, ModelEvent, text_delta, tool_call, usage, completed,
  request_accepted,
}
use lite_harness.Routing.Cost.{has_known_pricing}
use lite_harness.Routing.Turn.{
  Verdict, refuse, skip, call_adapter, verdict, TurnRequest, Turn, Called, consume, try_routes,
  stream_turn, go_on, must_know_price, estimated_tokens,
}

abbrev pub is_completed : ModelEvent → Bool
is_completed (completed _) = true
is_completed _ = false

abbrev failed_retryably : Option ProviderError → Bool
failed_retryably none = false
failed_retryably (some e) = e.retryable

-- A route that was given up for the next: it yielded no output and failed with an error to retry.
abbrev pub is_given_up : Called → Bool
is_given_up c = all is_completed c.yielded && failed_retryably c.failure

abbrev pub all_but_last {ℓ} : {A : Type ℓ} → (A → Bool) → List A → Bool
all_but_last p [] = true
all_but_last p (x ∷ []) = true
all_but_last p (x ∷ y ∷ ys) = p x && all_but_last p (y ∷ ys)

all_but_last_cons {ℓ} :
    {A : Type ℓ} (p : A → Bool) (x : A) (xs : List A)
    → p x ≡ true
    → all_but_last p xs ≡ true
    → all_but_last p (x ∷ xs) ≡ true
all_but_last_cons p x [] h k = refl
all_but_last_cons p x (y ∷ ys) h k = ground arith

-- What a model must satisfy to be called: the request fits its window, its provider has an adapter,
-- and its prices are known under a ceiling.
abbrev pub is_admitted : TurnRequest → ModelDescriptor → Bool
is_admitted t m =
    leb (estimated_tokens t) m.context_window
    && t.has_adapter m.provider_id
    && (not (must_know_price t) || has_known_pricing m)

verdict-cases :
    (v : Verdict)
    → ((e : ProviderError) × (v ≡ refuse e))
      ⊎ (((e : ProviderError) × (v ≡ skip e)) ⊎ (v ≡ call_adapter))
verdict-cases (refuse e) = inl (e, refl)
verdict-cases (skip e) = inr (inl (e, refl))
verdict-cases call_adapter = inr (inr refl)

module _ (t : TurnRequest) where
  consume-quiet :
      (m : ModelDescriptor) (es : List ModelEvent) (failure : Option ProviderError)
      → (consume t m es failure).visible ≡ false
      → all is_completed (consume t m es failure).yielded ≡ true
  unfolding consume
  consume-quiet m [] failure h = refl
  consume-quiet m (text_delta s ∷ es) failure h = cc
  consume-quiet m (tool_call c ∷ es) failure h = cc
  consume-quiet m (completed f ∷ es) failure h = ground (arith, consume-quiet m es failure)
  consume-quiet m (request_accepted ∷ es) failure h = cc
  consume-quiet m (usage u ∷ es) failure h = ground (arith, consume-quiet m es failure)

  consume-model :
      (m : ModelDescriptor) (es : List ModelEvent) (failure : Option ProviderError)
      → (consume t m es failure).model ≡ m
  unfolding consume
  consume-model m [] failure = refl
  consume-model m (text_delta s ∷ es) failure = consume-model m es failure
  consume-model m (tool_call c ∷ es) failure = consume-model m es failure
  consume-model m (completed f ∷ es) failure = consume-model m es failure
  consume-model m (request_accepted ∷ es) failure = consume-model m es failure
  consume-model m (usage u ∷ es) failure = ground (arith, consume-model m es failure)

  go_on-given_up :
      (c : Called) (next : Turn)
      → (c.visible ≡ false → all is_completed c.yielded ≡ true)
      → all_but_last is_given_up next.called ≡ true
      → all_but_last is_given_up (go_on c next).called ≡ true
  go_on-given_up c next quiet h = ground (arith, quiet, all_but_last_cons is_given_up c next.called)

  -- What holds of a turn that failed at once and is kept by every call holds of the loop over the routes.
  try_routes-induction {ℓ} :
      (P : Turn → Type ℓ)
      → ((e : ProviderError) → P (record { called = []; error = some e }))
      → ((later : Bool) (m : ModelDescriptor) (next : Turn)
          → verdict t later m ≡ call_adapter
          → P next
          → P (go_on (consume t m (t.call m).events (t.call m).failure) next))
      → (ms : List ModelDescriptor) (later : Bool) (last : Option ProviderError)
      → P (try_routes t later last ms)
  unfolding try_routes
  try_routes-induction P fails calls [] later last = fails (or_else last _)
  try_routes-induction P fails calls (m ∷ ms) later last =
      let c = consume t m (t.call m).events (t.call m).failure in
      elim (verdict-cases (verdict t later m)) [
        | inl (e, h) ↦ rw (try_routes, h) (fails e)
        | inr (inl (e, h)) ↦
            rw (try_routes, h) (try_routes-induction P fails calls ms true (some e))
        | inr (inr h) ↦
            rw (try_routes, h)
              (calls later m (try_routes t true c.failure ms) h
                (try_routes-induction P fails calls ms true c.failure))
      ]

  go_on-called :
      (p : ModelDescriptor → Bool) (c : Called) (next : Turn)
      → p c.model ≡ true
      → all (λ d. p d.model) next.called ≡ true
      → all (λ d. p d.model) (go_on c next).called ≡ true
  go_on-called p c next h k = ground arith

  call_adapter-admitted :
      (later : Bool) (m : ModelDescriptor)
      → verdict t later m ≡ call_adapter
      → is_admitted t m ≡ true
  unfolding verdict
  call_adapter-admitted later m h = ground arith

  -- A turn calls only models that its request fits, with an adapter and, under a ceiling of the cost,
  -- with known prices; and each route that it called before the last one yielded no output, usage or
  -- tool call, and failed with an error to retry.
  pub stream_turn-given_up :
      (p : RoutePlan)
      → (all_but_last is_given_up (stream_turn t p).called ≡ true)
        × (all (λ c. is_admitted t c.model) (stream_turn t p).called ≡ true)
  unfolding stream_turn
  stream_turn-given_up p = (
    try_routes-induction (λ u. all_but_last is_given_up u.called ≡ true) (λ e. refl)
        (λ later m next _ h.
          go_on-given_up (consume t m (t.call m).events (t.call m).failure) next
            (consume-quiet m (t.call m).events (t.call m).failure) h)
        (p.selected ∷ p.fallbacks) false none,
    try_routes-induction (λ u. all (λ c. is_admitted t c.model) u.called ≡ true) (λ e. refl)
        (λ later m next called h.
          go_on-called (is_admitted t) (consume t m (t.call m).events (t.call m).failure) next
            (rw (consume-model m (t.call m).events (t.call m).failure)
              (call_adapter-admitted later m called))
            h)
        (p.selected ∷ p.fallbacks) false none,
  )
