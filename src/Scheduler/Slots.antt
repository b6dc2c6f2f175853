-- ===== src/Scheduler/Slots.antt =====
-- How many expert slots a layer gets and how far the drafter may go with them, in python/maxtoken/mlx_backend/worker.py:
-- `_resolve_slots_per_layer` and `_clamp_draft_k`.
use maxtoken.Prelude.{
  ℕ, ◌+◌, ◌-◌, ◌*◌, ◌/◌, ◌^◌, ◌≤◌, ◌<◌, min, max, Option, none, some, ltb, if◌then◌else◌, ◌≡◌,
  arith, inl, inr, Bool-cases,
}
use mathlib.Core.Path.{subst, sym}
use native.Mathlib.Nat.{div-mul-le_self, le_trans, mul-le-mul_right}

-- What the configuration asks for: a number of slots in all, the product of a rate and the number of experts, or
-- what the memory budget leaves. A number or rate of 0 is not set.
pub record SlotConfig : Type 0 where
  pub moe_cache_size : ℕ
  pub rate_slots : Option ℕ
  pub memory_budget : ℕ
  pub dense_bytes : ℕ

-- `_resolve_slots_per_layer`; a budget that the weights exceed gives one slot, as the negative one does.
unfoldable pub resolve_slots_per_layer : SlotConfig → ℕ → ℕ → ℕ → ℕ
resolve_slots_per_layer config n_layers num_experts per_expert =
    let budget = config.memory_budget - config.dense_bytes - 2 * 2 ^ 30 in
    let per_layer =
      if ltb 0 config.moe_cache_size
      then config.moe_cache_size / n_layers
      else elim config.rate_slots [
        | some slots ↦ slots
        | none ↦ max 1 (budget / per_expert / n_layers)
      ] in
    max 16 (min num_experts per_layer)

-- `_clamp_draft_k`, where none is serving without a slot cache.
unfoldable pub clamp_draft_k : Option ℕ → ℕ → ℕ → ℕ
clamp_draft_k none top_k k = k
clamp_draft_k (some min_slots) top_k k =
    let max_window = max 2 (min_slots / top_k) in
    if ltb max_window (k + 1) then max_window - 1 else k

pub resolve_slots_per_layer_lem :
    (config : SlotConfig) (n_layers num_experts per_expert : ℕ)
    → let slots = resolve_slots_per_layer config n_layers num_experts per_expert in
      (16 ≤ slots) × (slots ≤ max 16 num_experts)
unfolding resolve_slots_per_layer
resolve_slots_per_layer_lem config n_layers num_experts per_expert = (omega arith, omega arith)

window_fits :
    (min_slots top_k : ℕ) → 2 * top_k ≤ min_slots → max 2 (min_slots / top_k) * top_k ≤ min_slots
window_fits min_slots top_k two = elim (Bool-cases (ltb 2 (min_slots / top_k))) [
  | inl e ↦
      let same : max 2 (min_slots / top_k) ≡ min_slots / top_k = ground arith in
      subst (λ n. n * top_k ≤ min_slots) (sym same) (div-mul-le_self min_slots top_k)
  | inr e ↦
      let same : max 2 (min_slots / top_k) ≡ 2 = ground arith in
      subst (λ n. n * top_k ≤ min_slots) (sym same) two
]

-- When two positions' experts fit in a layer's slots, so do those of the whole clamped window, and nothing is
-- clamped that fits.
pub clamp_draft_k-fits :
    (min_slots top_k k : ℕ)
    → 0 < top_k
    → 2 * top_k ≤ min_slots
    → let k' = clamp_draft_k (some min_slots) top_k k in (k' ≤ k) × ((k' + 1) * top_k ≤ min_slots)
unfolding clamp_draft_k
clamp_draft_k-fits min_slots top_k k some_experts two =
    let window = max 2 (min_slots / top_k) in
    let whole : window * top_k ≤ min_slots = window_fits min_slots top_k two in
    elim (Bool-cases (ltb window (k + 1))) [
      | inl e ↦
          let last : window - 1 + 1 ≡ window = omega arith in
          rw e (ground arith, subst (λ n. n * top_k ≤ min_slots) (sym last) whole)
      | inr e ↦
          let below : k + 1 ≤ window = ground arith in
          rw e (omega arith, le_trans (mul-le-mul_right top_k below) whole)
    ]
