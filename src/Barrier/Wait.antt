-- ===== src/Barrier/Wait.antt =====
-- The wait for idleness ends.
use maxtoken.Prelude.{
  ℕ, zero, suc, ◌+◌, ◌-◌, ◌≤◌, ◌<◌, min, some, Bool, true, false, ◌≡◌, refl, inl, inr, ltb, leb,
  Bool-cases, arith,
}
use maxtoken.Barrier.{Tracker, wait_loop, wait_for_idle}

module _ (stats : ℕ → Tracker) (late : ℕ → ℕ) where
  -- The answer of a wait and its time: there is nothing active, or the deadline is over.
  abbrev pub Waited : ℕ → ℕ → Bool → ℕ → Type 0
  Waited deadline now true t = (now ≤ t) × ((stats t).active ≡ 0)
  Waited deadline now false t = (now ≤ t) × (deadline ≤ t) × (0 < (stats t).active)

  earlier :
      (deadline now now' t : ℕ) (idle : Bool)
      → now ≤ now'
      → Waited deadline now' idle t
      → Waited deadline now idle t
  earlier deadline now now' t true le (a, b) = (omega arith, b)
  earlier deadline now now' t false le (a, b, c) = (omega arith, b, c)

  wait_loop-Waited :
      (fuel deadline now : ℕ)
      → deadline - now < fuel
      → (idle : Bool) × (t : ℕ) × (wait_loop stats late fuel deadline now ≡ some (idle, t))
        × Waited deadline now idle t
  unfolding wait_loop
  wait_loop-Waited zero deadline now enough = absurd (omega arith)
  wait_loop-Waited (suc fuel) deadline now enough = elim (Bool-cases (ltb 0 (stats now).active)) [
    | inr n ↦ (true, now, rw n refl, (omega arith, ground arith))
    | inl y ↦ elim (Bool-cases (leb deadline now)) [
      | inl over ↦ (false, now, rw (y, over) refl, (omega arith, ground arith, ground arith))
      | inr left ↦
          let wake = now + min 20 (deadline - now) in
          let more : now < deadline = ground arith in
          let (idle, t, e, w) = wait_loop-Waited fuel deadline (wake + late wake) (omega arith) in
          (idle, t, rw (y, left) e, earlier deadline now (wake + late wake) t idle (omega arith) w)
    ]
  ]

  -- The wait always ends, whatever the other tasks do: with true at a time when nothing is active, or
  -- with false when the timeout is over and something still is.
  pub wait_for_idle-Waited :
      (timeout now : ℕ)
      → (idle : Bool) × (t : ℕ) × (wait_for_idle stats late timeout now ≡ some (idle, t))
        × Waited (now + timeout) now idle t
  unfolding wait_for_idle
  wait_for_idle-Waited timeout now =
      wait_loop-Waited (suc timeout) (now + timeout) now (omega arith)
