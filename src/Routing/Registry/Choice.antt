-- ===== src/Routing/Registry/Choice.antt =====
-- A plan holds the models that the request allows, the cheapest first.
use lite_harness.Common.{
  ◌≤◌, ◌≡◌, String, Bool, true, false, ◌&&◌, List, [], ◌∷◌, ok, err, arith, refl, all, any, keep,
  leb, if◌then◌else◌, Bool-cases, inl, inr, subst, sym,
}
use mathlib.Core.List.{Perm, perm-cons}
use mathlib.Core.List.Perm
use lite_harness.Routing.Models.{
  ModelDescriptor, RouteRequest, RoutePlan, ProviderError, unknown_model_price, no_compatible_model,
}
use lite_harness.Routing.Registry.{
  ModelRegistry, score, insert_model, sort_models, is_eligible, plan, choose, is_compatible,
  has_unknown_price,
}

module _ (request : RouteRequest) where
  insert_model-perm :
      (m : ModelDescriptor) (xs : List ModelDescriptor) → Perm (insert_model request m xs) (m ∷ xs)
  unfolding insert_model
  insert_model-perm m [] = Perm.refl (m ∷ [])
  insert_model-perm m (x ∷ xs) = elim (Bool-cases (leb (score request m) (score request x))) [
    | inl before ↦ rw before (Perm.refl (m ∷ x ∷ xs))
    | inr after ↦
        rw after (Perm.trans ((perm-cons x).1 (insert_model-perm m xs)) (Perm.swap m x xs))
  ]

  sort_models-perm : (xs : List ModelDescriptor) → Perm (sort_models request xs) xs
  unfolding sort_models
  sort_models-perm [] = Perm.refl []
  sort_models-perm (x ∷ xs) =
      Perm.trans (insert_model-perm x (sort_models request xs))
        ((perm-cons x).1 (sort_models-perm xs))

  -- No model of the list scores less than this one.
  abbrev pub is_least : ModelDescriptor → List ModelDescriptor → Bool
  is_least m xs = all (λ x. leb (score request m) (score request x)) xs

  abbrev pub is_ranked : List ModelDescriptor → Bool
  is_ranked [] = true
  is_ranked (x ∷ xs) = is_least x xs && is_ranked xs

  is_least_below :
      (m n : ModelDescriptor) (xs : List ModelDescriptor)
      → score request m ≤ score request n
      → is_least n xs ≡ true
      → is_least m xs ≡ true
  is_least_below m n [] h k = refl
  is_least_below m n (x ∷ xs) h k = ground (arith, is_least_below m n xs h)

  is_least-insert_model :
      (n m : ModelDescriptor) (xs : List ModelDescriptor)
      → is_least n (insert_model request m xs) ≡ is_least n (m ∷ xs)
  unfolding insert_model
  is_least-insert_model n m [] = refl
  is_least-insert_model n m (x ∷ xs) = ground (arith, is_least-insert_model n m xs)

  insert_model-is_ranked :
      (m : ModelDescriptor) (xs : List ModelDescriptor)
      → is_ranked xs ≡ true
      → is_ranked (insert_model request m xs) ≡ true
  unfolding insert_model
  insert_model-is_ranked m [] h = refl
  insert_model-is_ranked m (x ∷ xs) h =
      ground
        (arith, is_least_below m x xs, is_least-insert_model x m xs, insert_model-is_ranked m xs)

  sort_models-is_ranked : (xs : List ModelDescriptor) → is_ranked (sort_models request xs) ≡ true
  unfolding sort_models
  sort_models-is_ranked [] = refl
  sort_models-is_ranked (x ∷ xs) =
      insert_model-is_ranked x (sort_models request xs) (sort_models-is_ranked xs)

module _ (request : RouteRequest) (id : String) (r : ModelRegistry) where
  choose-eq-ok :
      (xs : List ModelDescriptor) (p : RoutePlan)
      → choose request id r xs ≡ ok p
      → (xs ≡ p.selected ∷ p.fallbacks) × (p.registry_generation ≡ r.generation)
  choose-eq-ok [] p h = absurd (ground arith)
  choose-eq-ok (x ∷ xs) p h = (ground arith, ground arith)

  choose-eq-err :
      (xs : List ModelDescriptor) (e : ProviderError)
      → choose request id r xs ≡ err e
      → (xs ≡ [])
        × (e ≡ record {
          code =
              if any (λ m. is_compatible request m && has_unknown_price request m) r.models
              then unknown_model_price
              else no_compatible_model;
          retryable = false;
        })
  choose-eq-err [] e h = (refl, ground arith)
  choose-eq-err (x ∷ xs) e h = cc

  -- A plan holds exactly the registered models that the request allows, with none that scores less
  -- before one that scores more: the selected model has the least score of them all.
  pub plan-perm :
      (p : RoutePlan)
      → plan request id r ≡ ok p
      → Perm (p.selected ∷ p.fallbacks) (keep (is_eligible request) r.models)
        × (is_ranked request (p.selected ∷ p.fallbacks) ≡ true)
        × (p.registry_generation ≡ r.generation)
  unfolding plan
  plan-perm p h =
      let allowed = keep (is_eligible request) r.models in
      let (same, generation) = choose-eq-ok (sort_models request allowed) p h in
      (
        subst (λ xs. Perm xs allowed) same (sort_models-perm request allowed),
        subst (λ xs. is_ranked request xs ≡ true) same (sort_models-is_ranked request allowed),
        generation,
      )

  -- A request is refused only when no registered model is allowed, for want of a price if a model that
  -- fits otherwise has none under a ceiling.
  pub plan_refused :
      (e : ProviderError)
      → plan request id r ≡ err e
      → (keep (is_eligible request) r.models ≡ [])
        × (e ≡ record {
          code =
              if any (λ m. is_compatible request m && has_unknown_price request m) r.models
              then unknown_model_price
              else no_compatible_model;
          retryable = false;
        })
  unfolding plan
  plan_refused e h =
      let allowed = keep (is_eligible request) r.models in
      let (none_left, code) = choose-eq-err (sort_models request allowed) e h in
      (
        sym (
            Perm.nil-eq
              (subst (λ xs. Perm xs allowed) none_left (sort_models-perm request allowed))),
        code,
      )
