-- ===== src/Scheduler/Prefill/Plan.antt =====
-- The chunks of `offload_prefill_plan` of python/maxtoken/mlx_backend/worker.py.
use maxtoken.Prelude.{
  ℕ, zero, suc, ◌+◌, ◌-◌, ◌*◌, ◌/◌, ◌%◌, ◌≤◌, ◌<◌, min, max, List, [], ◌∷◌, Bool, false, ◌==◌, ◌&&◌,
  ltb, ◌≡◌, refl, arith, inl, inr, Bool-cases, All,
}
use native.Mathlib.Nat.{mul-mod_left, lt-mul-div-succ, mul-div-le}
use maxtoken.Scheduler.Prefill.{plan_stop, plan_chunks, chunk_of, offload_prefill_plan, IsCover}

-- A multiple of the boundary.
abbrev IsMultiple : ℕ → ℕ → Type 0
IsMultiple boundary x = (k : ℕ) × (x ≡ k * boundary)

IsMultiple-mod : (b x : ℕ) → IsMultiple b x → x % b ≡ 0
IsMultiple-mod b x (k, e) = rw e (mul-mod_left k b)

chunk_of-IsMultiple : (b c : ℕ) → IsMultiple b (chunk_of b c)
unfolding chunk_of
chunk_of-IsMultiple b c = elim (Bool-cases (ltb b (c / b * b))) [
  | inl e ↦ (c / b, ground arith)
  | inr e ↦ (1, ground arith)
]

chunk_of-lt : (b c : ℕ) → 0 < b → 0 < chunk_of b c
unfolding chunk_of
chunk_of-lt b c h = ground arith

mul-IsMultiple : (b x k : ℕ) → IsMultiple b x → IsMultiple b (k * x)
mul-IsMultiple b x k (j, e) = (k * j, grind arith)

plan_stop-IsMultiple :
    (b chunk end pos : ℕ) → IsMultiple b chunk → IsMultiple b (plan_stop chunk (end / b * b) pos)
unfolding plan_stop
plan_stop-IsMultiple b chunk end pos m =
    elim (Bool-cases (ltb pos (end / b * b) && ltb (end / b * b) ((pos / chunk + 1) * chunk))) [
      | inl e ↦ rw e (end / b, refl)
      | inr e ↦ rw e (mul-IsMultiple b chunk (pos / chunk + 1) m)
    ]

-- The stop lies behind the position, and not more than a chunk.
plan_stop-lt :
    (b chunk end pos : ℕ)
    → 0 < chunk
    → (pos < plan_stop chunk (end / b * b) pos) × (plan_stop chunk (end / b * b) pos ≤ pos + chunk)
unfolding plan_stop
plan_stop-lt b chunk end pos some_chunk =
    let above : pos < chunk * (pos / chunk + 1) = lt-mul-div-succ pos some_chunk in
    let below : chunk * (pos / chunk) ≤ pos = mul-div-le pos chunk in
    let swapped : (pos / chunk + 1) * chunk ≡ chunk * (pos / chunk + 1) = grind arith in
    let opened : chunk * (pos / chunk + 1) ≡ chunk * (pos / chunk) + chunk = grind arith in
    elim (Bool-cases (ltb pos (end / b * b) && ltb (end / b * b) ((pos / chunk + 1) * chunk))) [
      | inl e ↦ rw e (ground arith, ground arith)
      | inr e ↦ rw e (omega arith, omega arith)
    ]

-- The last boundary is not passed over.
plan_stop_last :
    (b chunk end pos : ℕ)
    → (ltb pos (end / b * b) && ltb (end / b * b) (plan_stop chunk (end / b * b) pos)) ≡ false
unfolding plan_stop
plan_stop_last b chunk end pos =
    elim (Bool-cases (ltb pos (end / b * b) && ltb (end / b * b) ((pos / chunk + 1) * chunk))) [
      | inl e ↦ rw e (ground arith)
      | inr e ↦ rw e e
    ]

-- A chunk of a plan: not longer than `bound`, with a snapshot at its end unless the prompt ends there, and not
-- across the last boundary.
abbrev pub IsPlanned : ℕ → ℕ → ℕ → ℕ × ℕ × Bool → Type 0
IsPlanned boundary bound end (p, n, snapshot) =
    (n ≤ bound)
    × (snapshot ≡ ltb (p + n) end)
    × ((ltb p (end / boundary * boundary) && ltb (end / boundary * boundary) (p + n)) ≡ false)

-- A chunk that ends at its stop, or at the end before it.
snapshot_lem :
    (b end pos stop : ℕ)
    → IsMultiple b stop
    → pos < end
    → pos < stop
    → let n = min (end - pos) (stop - pos) in
      ((pos + n) % b == 0 && ltb (pos + n) end) ≡ ltb (pos + n) end
snapshot_lem b end pos stop m before ahead = elim (Bool-cases (ltb stop end)) [
  | inl e ↦
      let at_stop : pos + min (end - pos) (stop - pos) ≡ stop = ground arith in
      rw (at_stop, IsMultiple-mod b stop m)
  | inr e ↦
      let at_end : pos + min (end - pos) (stop - pos) ≡ end = ground arith in
      rw at_end (ground arith)
]

plan_chunks_lem :
    (fuel b chunk end pos : ℕ)
    → 0 < chunk
    → IsMultiple b chunk
    → end ≤ pos + fuel
    → let plan = plan_chunks fuel b chunk end pos in
      IsCover pos end plan × All (IsPlanned b chunk end) plan
unfolding plan_chunks
plan_chunks_lem zero b chunk end pos some_chunk m enough = (omega arith, tt)
plan_chunks_lem (suc fuel) b chunk end pos some_chunk m enough = elim (Bool-cases (ltb pos end)) [
  | inr e ↦ rw e (ground arith, tt)
  | inl e ↦
      let stop = plan_stop chunk (end / b * b) pos in
      let n = min (end - pos) (stop - pos) in
      let ahead = plan_stop-lt b chunk end pos some_chunk in
      let before : pos < end = ground arith in
      let rest = plan_chunks_lem fuel b chunk end (pos + n) some_chunk m (omega (arith, ahead.0)) in
      rw e (
        (refl, omega (arith, ahead.0), omega arith, rest.0),
        (
          (
            omega (arith, ahead.1),
            snapshot_lem b end pos stop (plan_stop-IsMultiple b chunk end pos m) before ahead.0,
            ground (arith, plan_stop_last b chunk end pos),
          ),
          rest.1,
        ),
      )
]

chunk_of-le : (b c : ℕ) → chunk_of b c ≤ max b c
unfolding chunk_of
chunk_of-le b c =
    let below : b * (c / b) ≤ c = mul-div-le c b in
    let swapped : c / b * b ≡ b * (c / b) = grind arith in
    elim (Bool-cases (ltb b (c / b * b))) [ inl e ↦ ground arith | inr e ↦ ground arith ]

IsPlanned-le :
    (b chunk bound end : ℕ) (plan : List (ℕ × ℕ × Bool))
    → chunk ≤ bound
    → All (IsPlanned b chunk end) plan
    → All (IsPlanned b bound end) plan
IsPlanned-le b chunk bound end [] h all = tt
IsPlanned-le b chunk bound end ((p, n, snapshot) ∷ plan) h ((short, snap, last), all) =
    ((omega arith, snap, last), IsPlanned-le b chunk bound end plan h all)

-- For any `start`, `end`, `chunk` and positive boundary, the plan's chunks lie one behind the other from `start` to
-- `end`. None is empty or longer than `chunk`, or than one boundary where that is more. Each ends in a snapshot but
-- the one at `end`, and none passes over the last multiple of the boundary that is not above `end` (where `end` is
-- a multiple itself, this says nothing).
pub offload_prefill_plan_lem :
    (start end chunk boundary : ℕ)
    → 0 < boundary
    → let plan = offload_prefill_plan start end chunk boundary in
      IsCover start end plan × All (IsPlanned boundary (max boundary chunk) end) plan
unfolding offload_prefill_plan
offload_prefill_plan_lem start end chunk boundary some_boundary =
    let chunk' = chunk_of boundary chunk in
    let (cover, planned) =
      plan_chunks_lem (end - start) boundary chunk' end start
        (chunk_of-lt boundary chunk some_boundary) (chunk_of-IsMultiple boundary chunk)
        (omega arith) in
    (
      cover,
      IsPlanned-le boundary chunk' (max boundary chunk) end
          (plan_chunks (end - start) boundary chunk' end start) (chunk_of-le boundary chunk)
          planned,
    )
