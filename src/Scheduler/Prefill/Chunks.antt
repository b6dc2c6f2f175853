-- ===== src/Scheduler/Prefill/Chunks.antt =====
-- The chunks of `_prefill_chunks` of python/maxtoken/mlx_backend/worker.py.
use maxtoken.Prelude.{
  ℕ, zero, suc, ◌+◌, ◌-◌, ◌*◌, ◌/◌, ◌%◌, ◌≤◌, ◌<◌, List, [], ◌∷◌, Bool, true, false, ◌==◌, ◌&&◌,
  ◌||◌, ltb, leb, if◌then◌else◌, ◌≡◌, refl, sym, arith, inl, inr, ◌⊎◌, Bool-cases, All, contains,
}
use native.Mathlib.Nat.{mul-mod_left}
use mathlib.Core.Path.{subst}
use maxtoken.Scheduler.Prefill.{
  boundary_tokens, chunk_width, aligned_length, cut_length, prefill_chunks, prompt_chunks, IsCover,
}

-- Whether a chunk of that length may end where it does: at the end, on a boundary or at a cut.
abbrev pub ends_well : List ℕ → ℕ → ℕ → Bool
ends_well cuts end stop = leb end stop || ((stop % boundary_tokens == 0) || contains stop cuts)

abbrev pub passes : ℕ → ℕ → ℕ → Bool
passes p stop cut = ltb p cut && ltb cut stop

abbrev pub IsAscending : List ℕ → Type 0
IsAscending [] = Unit
IsAscending (c ∷ cuts) = All (λ x. c ≤ x) cuts × IsAscending cuts

-- A chunk of a prompt.
abbrev pub IsChunk : List ℕ → ℕ → ℕ × ℕ × Bool → Type 0
IsChunk cuts end (p, n, on_boundary) =
    (n ≤ 2048) × (ends_well cuts end (p + n) ≡ true) × All (λ c. passes p (p + n) c ≡ false) cuts

aligned_length_lem :
    (width end next pos : ℕ)
    → 512 ≤ width
    → pos < end
    → next % 256 ≡ 0
    → next ≤ pos + 256
    → let n = aligned_length width end next pos in
      (0 < n)
      × (n ≤ width)
      × (pos + n ≤ end)
      × ((leb end (pos + n) || ((pos + n) % 256 == 0)) ≡ true)
unfolding aligned_length
aligned_length_lem width end next pos wide before on near =
    (grind arith, grind arith, grind arith, grind arith)

later :
    {P : Type 0} (x c : ℕ) (cuts : List ℕ)
    → P ⊎ (contains x cuts ≡ true)
    → P ⊎ (contains x (c ∷ cuts) ≡ true)
later x c cuts (inl p) = inl p
later x c cuts (inr h) = inr (ground arith)

cut_length_lem :
    (cuts : List ℕ) (pos n : ℕ)
    → 0 < n
    → let k = cut_length cuts pos n in
      (0 < k) × (k ≤ n) × ((k ≡ n) ⊎ (contains (pos + k) cuts ≡ true))
unfolding cut_length
cut_length_lem [] pos n some_n = (some_n, omega arith, inl refl)
cut_length_lem (c ∷ cuts) pos n some_n = elim (Bool-cases (ltb pos c && ltb c (pos + n))) [
  | inl e ↦ rw e (ground arith, ground arith, inr (ground arith))
  | inr e ↦
      let (a, b, o) = cut_length_lem cuts pos n some_n in
      let same : cut_length (c ∷ cuts) pos n ≡ cut_length cuts pos n = rw e in
      subst (λ k. (0 < k) × (k ≤ n) × ((k ≡ n) ⊎ (contains (pos + k) (c ∷ cuts) ≡ true))) (sym same)
        (a, b, later (pos + cut_length cuts pos n) c cuts o)
]

beyond :
    (pos c : ℕ) (cuts : List ℕ)
    → pos < c
    → All (λ x. c ≤ x) cuts
    → All (λ x. passes pos (pos + (c - pos)) x ≡ false) cuts
beyond pos c [] ahead all = tt
beyond pos c (x ∷ cuts) ahead all = (ground (arith, all.0), beyond pos c cuts ahead all.1)

cut_length-All :
    (cuts : List ℕ) (pos n : ℕ)
    → IsAscending cuts
    → 0 < n
    → All (λ c. passes pos (pos + cut_length cuts pos n) c ≡ false) cuts
unfolding cut_length
cut_length-All [] pos n sorted some_n = tt
cut_length-All (c ∷ cuts) pos n sorted some_n = elim (Bool-cases (ltb pos c && ltb c (pos + n))) [
  | inl e ↦
      let same : cut_length (c ∷ cuts) pos n ≡ c - pos = rw e in
      subst (λ k. All (λ x. passes pos (pos + k) x ≡ false) (c ∷ cuts)) (sym same)
        (ground arith, beyond pos c cuts (ground arith) sorted.0)
  | inr e ↦
      let same : cut_length (c ∷ cuts) pos n ≡ cut_length cuts pos n = rw e in
      subst (λ k. All (λ x. passes pos (pos + k) x ≡ false) (c ∷ cuts)) (sym same)
        (
          ground (arith, (cut_length_lem cuts pos n some_n).1),
          cut_length-All cuts pos n sorted.1 some_n,
        )
]

-- The boundary that the loop aims at stays on the grid, and less than a boundary ahead.
next_boundary_lem :
    (next pos : ℕ)
    → next % 256 ≡ 0
    → let on = (pos % 256 == 0) in let next' = if on then pos + 256 else next in next' % 256 ≡ 0
next_boundary_lem next pos h = grind arith

-- A chunk's end is good when the length before the cuts was.
ends_well_lem :
    (cuts : List ℕ) (end pos n k : ℕ)
    → (leb end (pos + n) || ((pos + n) % 256 == 0)) ≡ true
    → (k ≡ n) ⊎ (contains (pos + k) cuts ≡ true)
    → ends_well cuts end (pos + k) ≡ true
ends_well_lem cuts end pos n k h (inl e) = rw e (ground arith)
ends_well_lem cuts end pos n k h (inr e) = ground arith

chunk_width_lem : (alone : Bool) → (512 ≤ chunk_width alone) × (chunk_width alone ≤ 2048)
chunk_width_lem true = (omega arith, omega arith)
chunk_width_lem false = (omega arith, omega arith)

prefill_chunks_lem :
    (fuel : ℕ) (alone : ℕ → Bool) (cuts : List ℕ) (end next pos : ℕ)
    → IsAscending cuts
    → next % 256 ≡ 0
    → next ≤ pos + 256
    → end ≤ pos + fuel
    → let chunks = prefill_chunks fuel alone cuts end next pos in
      IsCover pos end chunks × All (IsChunk cuts end) chunks
unfolding prefill_chunks
prefill_chunks_lem zero alone cuts end next pos sorted on near enough = (omega arith, tt)
prefill_chunks_lem (suc fuel) alone cuts end next pos sorted on near enough =
    elim (Bool-cases (ltb pos end)) [
      | inr e ↦ rw e (ground arith, tt)
      | inl e ↦
          let width = chunk_width (alone pos) in
          let wide : (512 ≤ width) × (width ≤ 2048) = chunk_width_lem (alone pos) in
          let n = aligned_length width end next pos in
          let whole = aligned_length_lem width end next pos wide.0 (ground arith) on near in
          let k = cut_length cuts pos n in
          let part = cut_length_lem cuts pos n whole.0 in
          let next' = if (pos + k) % 256 == 0 then pos + k + 256 else next in
          let rest =
            prefill_chunks_lem fuel alone cuts end next' (pos + k) sorted
              (next_boundary_lem next (pos + k) on) (ground (arith, near))
              (omega (arith, part.0)) in
          rw e (
            (refl, part.0, omega (arith, part.1, whole.2), rest.0),
            (
              (
                omega (arith, part.1, whole.1, wide.1),
                ends_well_lem cuts end pos n k whole.3 part.2,
                cut_length-All cuts pos n sorted whole.0,
              ),
              rest.1,
            ),
          )
    ]

-- Whoever else is active at each chunk, and for ascending cuts, the chunks of a prompt lie one behind the other
-- from the cached tokens to the last token but one. None is empty or longer than 2048 tokens, and each ends at a
-- multiple of 256, at a cut or at the end, and passes over no cut.
pub prompt_chunks_lem :
    (alone : ℕ → Bool) (cuts : List ℕ) (prompt_len start : ℕ)
    → IsAscending cuts
    → let chunks = prompt_chunks alone cuts prompt_len start in
      IsCover start (prompt_len - 1) chunks × All (IsChunk cuts (prompt_len - 1)) chunks
unfolding prompt_chunks
prompt_chunks_lem alone cuts prompt_len start sorted =
    prefill_chunks_lem (prompt_len - 1 - start) alone cuts (prompt_len - 1)
      ((start / 256 + 1) * 256) start sorted (mul-mod_left (start / 256 + 1) 256) (grind arith)
      (omega arith)
