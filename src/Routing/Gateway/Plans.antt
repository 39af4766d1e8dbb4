-- ===== src/Routing/Gateway/Plans.antt =====
-- The plans that a gateway keeps for the attempts of runs, and their eviction:
-- packages/provider-core/src/index.ts (`RoutedModelGateway.#plan`).
use mathlib.Core.List.{append_assoc}
use lite_harness.Common.{
  ◌+◌, ◌<◌, ap, ◌∙◌, subst, err, Result-cases, ℕ, ◌-◌, ◌≤◌, ◌≡◌, zero, suc, String, true, Option,
  some, none, List, [], ◌∷◌, ◌++◌, ok, arith, refl, find?, length, length-append, eq_refl,
  Option-cases, inl, inr, returned_before,
}
use lite_harness.Routing.Models.{RoutePlan, ProviderError, ModelCapability}
use lite_harness.Routing.Registry.{ModelRegistry, plan}
use lite_harness.Routing.Models.{ModelRunContext}
use lite_harness.Routing.Gateway.{
  ModelGateway, PlannedRoute, Route, plan_of_route, chosen, frozen, is_plan_of, drop_first, trim,
  keep_plan, set_plan, plan_of_context, plan_for, request_of,
}

drop_first-append :
    (n : ℕ) (ps qs : List PlannedRoute)
    → n ≤ length ps
    → drop_first n (ps ++ qs) ≡ drop_first n ps ++ qs
drop_first-append zero ps qs h = refl
drop_first-append (suc n) [] qs h = absurd (omega arith)
drop_first-append (suc n) (p ∷ ps) qs h = drop_first-append n ps qs (omega arith)

length-drop_first : (n : ℕ) (ps : List PlannedRoute) → length (drop_first n ps) ≡ length ps - n
length-drop_first zero ps = omega arith
length-drop_first (suc n) [] = omega arith
length-drop_first (suc n) (p ∷ ps) = omega (arith, length-drop_first n ps)

module _ (c : ModelRunContext) where
  find?-drop_first :
      (n : ℕ) (ps : List PlannedRoute)
      → find? (is_plan_of c) ps ≡ none
      → find? (is_plan_of c) (drop_first n ps) ≡ none
  find?-drop_first zero ps h = h
  find?-drop_first (suc n) [] h = refl
  find?-drop_first (suc n) (p ∷ ps) h = find?-drop_first n ps (ground arith)

  find?-past :
      (xs ys : List PlannedRoute) (q : PlannedRoute)
      → find? (is_plan_of c) xs ≡ none
      → is_plan_of c q ≡ true
      → find? (is_plan_of c) (xs ++ q ∷ ys) ≡ some q
  find?-past [] ys q h k = ground arith
  find?-past (x ∷ xs) ys q h k = ground (arith, find?-past xs ys q)

  -- The plan is held for the run's attempt, with at most so many newer ones.
  record Holds (plans : List PlannedRoute) (p : RoutePlan) (newer : ℕ) : Type 0 where
    before : List PlannedRoute
    after : List PlannedRoute
    held : PlannedRoute
    plans_are : plans ≡ before ++ held ∷ after
    is_first : find? (is_plan_of c) before ≡ none
    is_own : is_plan_of c held ≡ true
    is_plan : held.plan ≡ p
    few : length after ≤ newer

  -- A new plan evicts none of the newest 1,023.
  trim-Holds :
      (plans : List PlannedRoute) (p : RoutePlan) (newer : ℕ) (row : PlannedRoute)
      → Holds plans p newer
      → newer < 1_023
      → Holds (trim (plans ++ row ∷ [])) p (newer + 1)
  unfolding trim
  trim-Holds plans p newer row h room =
      let kept = h.after ++ row ∷ [] in
      let n = length (plans ++ row ∷ []) - 1_024 in
      let same : plans ++ row ∷ [] ≡ h.before ++ h.held ∷ kept =
        rw h.plans_are (append_assoc h.before (h.held ∷ h.after) (row ∷ [])) in
      let long : length (plans ++ row ∷ []) ≡ length h.before + suc (length h.after + 1) = omega (
        arith,
        ap length same,
        length-append h.before (h.held ∷ kept),
        length-append h.after (row ∷ []),
      ) in
      let few_dropped : n ≤ length h.before = omega (arith, long, h.few, room) in
      record {
        before = drop_first n h.before;
        after = kept;
        held = h.held;
        plans_are =
            ap (drop_first n) same ∙ drop_first-append n h.before (h.held ∷ kept) few_dropped;
        is_first = find?-drop_first n h.before h.is_first;
        is_own = h.is_own;
        is_plan = h.is_plan;
        few = omega (arith, length-append h.after (row ∷ []), h.few);
      }

  first-Holds :
      (plans : List PlannedRoute) (row : PlannedRoute)
      → find? (is_plan_of c) plans ≡ none
      → is_plan_of c row ≡ true
      → Holds (trim (plans ++ row ∷ [])) row.plan 0
  unfolding trim
  first-Holds plans row absent own =
      let n = length (plans ++ row ∷ []) - 1_024 in
      let few_dropped : n ≤ length plans = omega (arith, length-append plans (row ∷ [])) in
      record {
        before = drop_first n plans;
        after = [];
        held = row;
        plans_are = drop_first-append n plans (row ∷ []) few_dropped;
        is_first = find?-drop_first n plans absent;
        is_own = own;
        is_plan = refl;
        few = omega arith;
      }

-- What a call that plans may do to the plans of a gateway.
data Planned (g h : ModelGateway) : Type 0 where
  left_alone : h ≡ g → Planned g h
  added : (row : PlannedRoute) → h ≡ record g { plans = trim (g.plans ++ row ∷ []) } → Planned g h

plan_of_context-first :
    (c : ModelRunContext) (on_route_plan : RoutePlan → Option ProviderError) (g h : ModelGateway)
    (r : ModelRegistry) (required : List ModelCapability) (id : String) (p : RoutePlan)
    → plan_of_context on_route_plan g r required id c ≡ ok (h, p)
    → find? (is_plan_of c) g.plans ≡ none
    → h ≡ set_plan g c p
unfolding plan_of_context keep_plan
plan_of_context-first c on_route_plan g h r required id p call missing =
    let (chosen_now, kept, _) =
      returned_before {w = (h, p)} (keep_plan on_route_plan g c) (plan (request_of required) id r)
        (ground (arith, missing)) in
    let told : p ≡ chosen_now = ground (arith, kept) in rw told (ground (arith, kept))

plan_of_context-Planned :
    (c : ModelRunContext) (on_route_plan : RoutePlan → Option ProviderError) (g h : ModelGateway)
    (r : ModelRegistry) (required : List ModelCapability) (id : String) (p : RoutePlan)
    → plan_of_context on_route_plan g r required id c ≡ ok (h, p)
    → Planned g h
unfolding plan_of_context set_plan
plan_of_context-Planned c on_route_plan g h r required id p call =
    elim (Option-cases (find? (is_plan_of c) g.plans)) [
      | inr (q, found) ↦ left_alone (ground (arith, found))
      | inl missing ↦
          added _ (plan_of_context-first c on_route_plan g h r required id p call missing)
    ]

plan_of_route-Planned :
    (context : Option ModelRunContext) (on_route_plan : RoutePlan → Option ProviderError)
    (g h : ModelGateway) (route : Route) (required : List ModelCapability) (id : String)
    (p : RoutePlan)
    → plan_of_route on_route_plan g route required id context ≡ ok (h, p)
    → Planned g h
plan_of_route-Planned context on_route_plan g h (frozen q) required id p call =
    left_alone (ground arith)
plan_of_route-Planned none on_route_plan g h (chosen r) required id p call =
    let (q, ends, _) =
      returned_before {Next = ModelGateway × RoutePlan} {w = (h, p)} (λ q. ok (g, q))
        (plan (request_of required) id r) call in
    left_alone (ground arith)
plan_of_route-Planned (some c) on_route_plan g h (chosen r) required id p call =
    plan_of_context-Planned c on_route_plan g h r required id p call

plan_for-Planned :
    (context : Option ModelRunContext) (on_route_plan : RoutePlan → Option ProviderError)
    (g h : ModelGateway) (required : List ModelCapability) (id : String) (p : RoutePlan)
    → plan_for on_route_plan g context required id ≡ ok (h, p)
    → Planned g h
unfolding plan_for
plan_for-Planned context on_route_plan g h required id p call =
    plan_of_route-Planned context on_route_plan g h g.route required id p call

-- A later call that plans, of any turn.
pub record PlanCall : Type 0 where
  pub on_route_plan : RoutePlan → Option ProviderError
  pub context : Option ModelRunContext
  pub required : List ModelCapability
  pub id : String

-- The gateway after the call; a call that throws leaves it.
pub after_plan : ModelGateway → PlanCall → ModelGateway
after_plan g d = elim (plan_for d.on_route_plan g d.context d.required d.id) [
  | err _ ↦ g
  | ok (h, _) ↦ h
]

pub after_plans : ModelGateway → List PlanCall → ModelGateway
after_plans g [] = g
after_plans g (d ∷ ds) = after_plans (after_plan g d) ds

module _ (c : ModelRunContext) where
  Planned-Holds :
      (g h : ModelGateway) (p : RoutePlan) (newer : ℕ)
      → Planned g h
      → Holds c g.plans p newer
      → newer < 1_023
      → Holds c h.plans p (newer + 1)
  Planned-Holds g h p newer (left_alone same) k room = rw same (record {
    before = k.before;
    after = k.after;
    held = k.held;
    plans_are = k.plans_are;
    is_first = k.is_first;
    is_own = k.is_own;
    is_plan = k.is_plan;
    few = omega (arith, k.few);
  })
  Planned-Holds g h p newer (added row same) k room =
      rw same (trim-Holds c g.plans p newer row k room)

  after_plans-Holds :
      (ds : List PlanCall) (g : ModelGateway) (p : RoutePlan) (newer : ℕ)
      → Holds c g.plans p newer
      → newer + length ds ≤ 1_023
      → Holds c (after_plans g ds).plans p (newer + length ds)
  unfolding after_plans after_plan
  after_plans-Holds [] g p newer k room = subst (Holds c g.plans p) (omega arith) k
  after_plans-Holds (d ∷ ds) g p newer k room =
      let step : Planned g (after_plan g d) =
        elim (Result-cases (plan_for d.on_route_plan g d.context d.required d.id)) [
          | inl (e, failed) ↦ left_alone (ground (arith, failed))
          | inr ((h, q), done) ↦
              subst (Planned g) (ground (arith, done))
                (plan_for-Planned d.context d.on_route_plan g h d.required d.id q done)
        ] in
      subst (Holds c (after_plans (after_plan g d) ds).plans p) (omega arith) (
        after_plans-Holds ds (after_plan g d) p (newer + 1)
          (Planned-Holds g (after_plan g d) p newer step k (omega arith)) (omega arith))

  -- Once a gateway over a registry has planned the first turn of a run's attempt, and after at most
  -- 1,023 further calls that plan turns, of this or of other attempts, a turn of the attempt has that
  -- same plan and plans nothing anew, whatever the registry has become, whatever capabilities the turn
  -- requires and whatever its hook would do.
  pub plan_for_again :
      (on_route_plan then_on_route_plan : RoutePlan → Option ProviderError) (g h : ModelGateway)
      (r s : ModelRegistry) (required then_required : List ModelCapability) (id then_id : String)
      (p : RoutePlan) (ds : List PlanCall)
      → g.route ≡ chosen r
      → find? (is_plan_of c) g.plans ≡ none
      → plan_for on_route_plan g (some c) required id ≡ ok (h, p)
      → length ds ≤ 1_023
      → plan_for then_on_route_plan
          (record (after_plans h ds) { route = chosen s })
          (some c)
          then_required
          then_id
        ≡ ok (record (after_plans h ds) { route = chosen s }, p)
  unfolding plan_for plan_of_context set_plan
  plan_for_again on_route_plan then_on_route_plan g h r s required then_required id then_id p ds
        over absent call few =
      let row : PlannedRoute = record { run_id = c.run_id; attempt_id = c.attempt_id; plan = p } in
      let kept =
        plan_of_context-first c on_route_plan g h r required id p (ground (arith, over)) absent in
      let start : Holds c h.plans p 0 = rw kept (
        first-Holds c g.plans row absent
          (ground (arith, eq_refl c.run_id, eq_refl c.attempt_id))) in
      let last = after_plans-Holds ds h p 0 start (omega (arith, few)) in
      let read : find? (is_plan_of c) (after_plans h ds).plans ≡ some last.held =
        rw last.plans_are
          (find?-past c last.before last.after last.held last.is_first last.is_own) in
      ground (arith, read, last.is_plan)
