-- ===== src/Offload/State/Budget.antt =====
-- The slots of all layers together: `resize_total` and `totals` of `OffloadState` in
-- python/maxtoken/mlx_backend/offload.py. `_rebalance_base` is left to `rebalance`.
use mathlib.Core.Path.{subst}
use native.Mathlib.Nat.{div-mul-le_self}
use maxtoken.Prelude.{
  ℕ, zero, suc, ◌+◌, ◌*◌, ◌/◌, ◌≤◌, ◌≡◌, refl, ap, sym, max, List, [], ◌∷◌, length, Option, none,
  some, All, arith, ltb, Bool-cases, inl, inr,
}
use maxtoken.Offload.SlotCache.{resize}
use maxtoken.Offload.SlotCache.Coherent.{Coherent}
use maxtoken.Offload.SlotCache.Resize.{resize_lem}
use maxtoken.Offload.State.{Glu}

-- The slots of each layer.
abbrev pub per_layer : ℕ → ℕ → ℕ
per_layer total layers = max 1 (total / max 1 layers)

per_layer-le : (total layers : ℕ) → per_layer total layers * layers ≤ max total layers
per_layer-le total zero = grind arith
per_layer-le total (suc m) =
    let l : max 1 (suc m) ≡ suc m = omega arith in
    let few : total / suc m * suc m ≤ total = div-mul-le_self total (suc m) in
    rw l (elim (Bool-cases (ltb 0 (total / suc m))) [
      | inl some_each ↦
          let q : max 1 (total / suc m) ≡ total / suc m = ground arith in rw q (omega (arith, few))
      | inr no_each ↦ let q : max 1 (total / suc m) ≡ 1 = ground arith in rw q (omega arith)
    ])

module _ {W : Type 0} where
  -- The third of `totals`: the slots of all layers.
  unfoldable pub total_slots : List (Glu W) → ℕ
  total_slots [] = 0
  total_slots (g ∷ glus) = g.cache.lru.num_slots + total_slots glus

  unfoldable pub resize_each : W → ℕ → List (Glu W) → Option (List (Glu W))
  resize_each zero_bytes n [] = some []
  resize_each zero_bytes n (g ∷ glus) = elim (resize zero_bytes g.cache n) [
    | none ↦ none
    | some c ↦ elim (resize_each zero_bytes n glus) [
      | none ↦ none
      | some rest ↦ some (record g { cache = c } ∷ rest)
    ]
  ]

  unfoldable pub resize_total : W → ℕ → List (Glu W) → Option (List (Glu W) × ℕ)
  unfolding resize_each
  resize_total zero_bytes total glus =
      let n = per_layer total (length glus) in
      elim (resize_each zero_bytes n glus) [
        | none ↦ none
        | some resized ↦ some (resized, n * length glus)
      ]

  module _ (weights : ℕ → W) (zero_bytes : W) where
    -- Every layer's cache is coherent.
    abbrev pub AllCoherent : List (Glu W) → Type 0
    AllCoherent glus = All (λ g. Coherent weights g.cache) glus

    resize_each-AllCoherent :
        (n : ℕ) (glus : List (Glu W))
        → AllCoherent glus
        → (resized : List (Glu W)) × (resize_each zero_bytes n glus ≡ some resized)
          × AllCoherent resized
          × (total_slots resized ≡ n * length glus)
    unfolding resize_each total_slots
    resize_each-AllCoherent n [] h = ([], refl, tt, omega arith)
    resize_each-AllCoherent n (g ∷ glus) (c, h) =
        let (c', r, coherent, size, kept) = resize_lem weights zero_bytes g.cache n c in
        let (resized, e, all, total) = resize_each-AllCoherent n glus h in
        (
          record g { cache = c' } ∷ resized,
          rw (r, e, resize_each) refl,
          (coherent, all),
          grind (arith, size, total),
        )

    -- Over coherent caches `resize_total` does not fail: the caches stay coherent, the answer is the number
    -- of slots that they have together, and it is no more than was asked for, or one for each layer if
    -- less was asked for.
    pub resize_total-AllCoherent :
        (total : ℕ) (glus : List (Glu W))
        → AllCoherent glus
        → (resized : List (Glu W)) × (resize_total zero_bytes total glus
            ≡ some (resized, total_slots resized))
          × AllCoherent resized
          × (total_slots resized ≤ max total (length glus))
    unfolding resize_total
    resize_total-AllCoherent total glus h =
        let n = per_layer total (length glus) in
        let (resized, e, all, sum) = resize_each-AllCoherent n glus h in
        (
          resized,
          rw (e, resize_total) (ap (λ k. some (resized, k)) (sym sum)),
          all,
          subst (λ k. k ≤ max total (length glus)) (sym sum) (per_layer-le total (length glus)),
        )
