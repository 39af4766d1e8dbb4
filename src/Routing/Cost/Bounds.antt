-- ===== src/Routing/Cost/Bounds.antt =====
-- A model whose prices are known is never charged less than its cheapest rates.
use lite_harness.Common.{ap, ◌∙◌, ℕ, ◌+◌, ◌-◌, ◌*◌, ◌≤◌, ◌≡◌, max, some, ok, arith}
use native.Mathlib.Nat.{add-le-add, mul_assoc}
use lite_harness.Run.Record.{or_else}
use lite_harness.Routing.Models.{ModelDescriptor, UsageEvent}
use lite_harness.Routing.Registry.{validate_model}
use lite_harness.Routing.Cost.{
  with_authoritative_cost, calculated_cost, input_cost, special_tokens, multiplier, is_long,
}

-- What is a rate of every kind of input token at most.
pub record IsRate (m : ModelDescriptor) (input_price rate : ℕ) : Type 0 where
  pub ordinary : rate ≤ input_price
  pub cached : rate ≤ or_else m.cached_input_price input_price
  pub cache_write : rate ≤ or_else m.cache_write_input_price input_price
  pub image : rate ≤ or_else m.image_input_price input_price

scaled : (n a b : ℕ) → a ≤ b → n * a ≤ n * b
scaled n a b h = grind arith

split_rate : (o c w i rate : ℕ) → (o + c + w + i) * rate ≡ o * rate + c * rate + w * rate + i * rate
split_rate o c w i rate = grind arith

four_rates :
    (n c w i rate price cached write image : ℕ)
    → c + w + i ≤ n
    → rate ≤ price
    → rate ≤ cached
    → rate ≤ write
    → rate ≤ image
    → n * rate ≤ (n - (c + w + i)) * price + c * cached + w * write + i * image
four_rates n c w i rate price cached write image h p q r t =
    let o = n - (c + w + i) in
    let whole : n ≡ o + c + w + i = omega arith in
    let split : n * rate ≡ o * rate + c * rate + w * rate + i * rate =
      ap (λ (k : ℕ). k * rate) whole ∙ split_rate o c w i rate in
    omega (
      arith,
      split,
      scaled o rate price p,
      scaled c rate cached q,
      scaled w rate write r,
      scaled i rate image t,
    )

input_cost-le :
    (m : ModelDescriptor) (e : UsageEvent) (input_price rate : ℕ)
    → IsRate m input_price rate
    → special_tokens e ≤ e.input_tokens
    → e.input_tokens * rate ≤ input_cost m e input_price
unfolding input_cost
input_cost-le m e input_price rate r h =
    four_rates e.input_tokens (or_else e.cached_input_tokens 0)
      (or_else e.cache_write_input_tokens 0) (or_else e.image_input_tokens 0) rate input_price
      (or_else m.cached_input_price input_price) (or_else m.cache_write_input_price input_price)
      (or_else m.image_input_price input_price) h r.ordinary r.cached r.cache_write r.image

at_least_one :
    (m : ModelDescriptor) (e : UsageEvent)
    → validate_model m ≡ ok tt
    → (100 ≤ multiplier (is_long m e) m.long_context_input_multiplier)
      × (100 ≤ multiplier (is_long m e) m.long_context_output_multiplier)
unfolding validate_model
at_least_one m e h = (ground arith, ground arith)

grown : (k a b : ℕ) → 100 ≤ k → a ≤ b → 100 * a ≤ k * b
grown k a b h l = grind arith

grown_product : (k a b : ℕ) → 100 ≤ k → 100 * (a * b) ≤ k * a * b
grown_product k a b h = rw (mul_assoc k a b) (grown k (a * b) (a * b) h (omega arith))

calculated_cost-le :
    (m : ModelDescriptor) (e : UsageEvent) (input_price output_price rate : ℕ)
    → validate_model m ≡ ok tt
    → IsRate m input_price rate
    → special_tokens e ≤ e.input_tokens
    → 100 * (e.input_tokens * rate) + 100 * (e.output_tokens * output_price)
      ≤ calculated_cost m e input_price output_price
unfolding calculated_cost
calculated_cost-le m e input_price output_price rate valid r h =
    let (first, second) = at_least_one m e valid in
    add-le-add
      (grown (multiplier (is_long m e) m.long_context_input_multiplier) _ _ first
        (input_cost-le m e input_price rate r h))
      (grown_product (multiplier (is_long m e) m.long_context_output_multiplier) e.output_tokens
        output_price second)

-- A usage that is accepted for a valid model with known prices costs at least what was reported, and
-- at least what its tokens cost at any rate below all of the model's prices for input and at the
-- model's price for output; its counts stay as they were reported.
pub with_authoritative_cost_bounds :
    (m : ModelDescriptor) (e f : UsageEvent) (input_price output_price rate : ℕ)
    → validate_model m ≡ ok tt
    → m.input_price ≡ some input_price
    → m.output_price ≡ some output_price
    → IsRate m input_price rate
    → with_authoritative_cost e m ≡ ok f
    → (cost : ℕ) × (f ≡ record e { cost = some cost })
      × (or_else e.cost 0 ≤ cost)
      × (100 * (e.input_tokens * rate) + 100 * (e.output_tokens * output_price) ≤ cost)
unfolding with_authoritative_cost
with_authoritative_cost_bounds m e f input_price output_price rate valid pi po r h =
    let within : special_tokens e ≤ e.input_tokens = ground (arith, pi, po) in
    let c = calculated_cost m e input_price output_price in
    let low : 100 * (e.input_tokens * rate) + 100 * (e.output_tokens * output_price) ≤ c =
      calculated_cost-le m e input_price output_price rate valid r within in
    (max (or_else e.cost 0) c, ground (arith, pi, po), omega arith, omega (arith, low))
