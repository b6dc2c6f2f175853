-- ===== src/Scheduler/Prefill/Segments.antt =====
-- The segments in which `_batch_admit` of python/maxtoken/mlx_backend/worker.py gives a prompt to the batcher.
use maxtoken.Prelude.{
  ℕ, zero, suc, ◌+◌, ◌-◌, ◌*◌, ◌/◌, ◌%◌, ◌≤◌, ◌<◌, min, List, [], ◌∷◌, ◌++◌, false, ltb, ◌≡◌, refl,
  ap, sym, ◌∙◌, arith, inl, inr, Bool-cases, All, slice, length, drop, length-take, length-drop,
  take-append-drop,
}
use mathlib.Core.Path.{subst}
use maxtoken.Rings.Window.{drop-drop}
use maxtoken.Scheduler.Prefill.{boundary_tokens, segments, batch_segments}

abbrev pub concat : List (List ℕ) → List ℕ
concat [] = []
concat (xs ∷ rest) = xs ++ concat rest

abbrev pub IsSegment : List ℕ → Type 0
IsSegment segment = (0 < length segment) × (length segment ≤ boundary_tokens)

-- All segments but the last end on a boundary.
abbrev pub IsOnGrid : ℕ → List (List ℕ) → Type 0
IsOnGrid pos [] = Unit
IsOnGrid pos (last ∷ []) = Unit
IsOnGrid pos (segment ∷ next ∷ rest) =
    ((pos + length segment) % boundary_tokens ≡ 0) × IsOnGrid (pos + length segment) (next ∷ rest)

IsOnGrid-cons :
    (pos : ℕ) (segment : List ℕ) (rest : List (List ℕ))
    → (pos + length segment) % boundary_tokens ≡ 0
    → IsOnGrid (pos + length segment) rest
    → IsOnGrid pos (segment ∷ rest)
IsOnGrid-cons pos segment [] on grid = tt
IsOnGrid-cons pos segment (next ∷ rest) on grid = (on, grid)

drop_all : (n : ℕ) (xs : List ℕ) → length xs ≤ n → drop n xs ≡ []
drop_all zero [] few = refl
drop_all zero (x ∷ xs) few = absurd (omega arith)
drop_all (suc n) [] few = refl
drop_all (suc n) (x ∷ xs) few = drop_all n xs (omega arith)

segments_none :
    (fuel : ℕ) (ids : List ℕ) (pos : ℕ) → ltb pos (length ids) ≡ false → segments fuel ids pos ≡ []
unfolding segments
segments_none zero ids pos e = refl
segments_none (suc fuel) ids pos e = rw e

slice-append-drop :
    (pos end : ℕ) (ids : List ℕ) → pos ≤ end → slice pos end ids ++ drop end ids ≡ drop pos ids
slice-append-drop pos end ids h =
    let same : pos + (end - pos) ≡ end = omega arith in
    ap (λ xs. slice pos end ids ++ xs)
      (sym (drop-drop (end - pos) pos ids ∙ ap (λ n. drop n ids) same))
    ∙ take-append-drop (end - pos) (drop pos ids)

length-slice :
    (pos end : ℕ) (ids : List ℕ)
    → pos ≤ end
    → end ≤ length ids
    → pos + length (slice pos end ids) ≡ end
length-slice pos end ids h k =
    omega (arith, length-take (end - pos) (drop pos ids), length-drop pos ids)

-- Where a segment ends.
segment_end_lem :
    (len pos : ℕ)
    → pos < len
    → let end = min len ((pos / 256 + 1) * 256) in (pos < end) × (end ≤ len) × (end ≤ pos + 256)
segment_end_lem len pos h = (grind arith, grind arith, grind arith)

segment_end-mod :
    (len pos : ℕ) → let end = min len ((pos / 256 + 1) * 256) in end < len → end % 256 ≡ 0
segment_end-mod len pos h = grind arith

grid :
    (pos : ℕ) (segment : List ℕ) (fuel : ℕ) (ids : List ℕ) (end : ℕ)
    → pos + length segment ≡ end
    → IsOnGrid end (segments fuel ids end)
    → (end < length ids → end % 256 ≡ 0)
    → IsOnGrid pos (segment ∷ segments fuel ids end)
grid pos segment fuel ids end len on_grid on = elim (Bool-cases (ltb end (length ids))) [
  | inl e ↦
      IsOnGrid-cons pos segment (segments fuel ids end) (ap (λ n. n % 256) len ∙ on (ground arith))
        (subst (λ n. IsOnGrid n (segments fuel ids end)) (sym len) on_grid)
  | inr e ↦ rw (segments_none fuel ids end e) tt
]

segments_lem :
    (fuel : ℕ) (ids : List ℕ) (pos : ℕ)
    → length ids ≤ pos + fuel
    → let parts = segments fuel ids pos in
      (concat parts ≡ drop pos ids) × All IsSegment parts × IsOnGrid pos parts
unfolding segments
segments_lem zero ids pos enough = (sym (drop_all pos ids (omega arith)), tt, tt)
segments_lem (suc fuel) ids pos enough = elim (Bool-cases (ltb pos (length ids))) [
  | inr e ↦ rw e (sym (drop_all pos ids (ground arith)), tt, tt)
  | inl e ↦
      let end = min (length ids) ((pos / 256 + 1) * 256) in
      let at_end = segment_end_lem (length ids) pos (ground arith) in
      let len = length-slice pos end ids (omega (arith, at_end.0)) at_end.1 in
      let rest = segments_lem fuel ids end (omega (arith, at_end.0)) in
      rw e (
        ap (λ xs. slice pos end ids ++ xs) rest.0
            ∙ slice-append-drop pos end ids (omega (arith, at_end.0)),
        ((omega (arith, len, at_end.0), omega (arith, len, at_end.2)), rest.1),
        grid pos (slice pos end ids) fuel ids end len rest.2 (segment_end-mod (length ids) pos),
      )
]

-- Whatever the prompt and the number of tokens that are cached, the segments put together are the prompt's other
-- tokens. None of them is empty or longer than 256, and all but the last end at a multiple of 256 of the prompt.
pub batch_segments_lem :
    (input_ids : List ℕ) (cached : ℕ)
    → let parts = batch_segments input_ids cached in
      (concat parts ≡ drop cached input_ids) × All IsSegment parts × IsOnGrid cached parts
unfolding batch_segments
batch_segments_lem input_ids cached = segments_lem (length input_ids) input_ids cached (omega arith)
