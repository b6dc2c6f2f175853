-- ===== src/Scheduler/Prefill.antt =====
-- How a prompt is cut for the prefill in python/maxtoken/mlx_backend/worker.py: `offload_prefill_plan`,
-- `_prefill_chunks` and the segments of `_batch_admit`. A chunk is its start, its length and whether a snapshot
-- is taken at its end. Each loop runs on fuel, of which one unit for each token is enough.
pub mod Plan
pub mod Chunks
pub mod Segments
use maxtoken.Prelude.{
  ℕ, zero, suc, ◌+◌, ◌-◌, ◌*◌, ◌/◌, ◌%◌, min, max, List, [], ◌∷◌, Bool, true, false, ◌==◌, ◌&&◌,
  ltb, if◌then◌else◌, slice, length, ◌≡◌, ◌≤◌, ◌<◌,
}

-- `BOUNDARY_TOKENS`
abbrev pub boundary_tokens : ℕ
boundary_tokens = 256

-- Where the next chunk on the slot-cache path stops.
unfoldable pub plan_stop : ℕ → ℕ → ℕ → ℕ
plan_stop chunk last_boundary pos =
    let stop = (pos / chunk + 1) * chunk in
    if ltb pos last_boundary && ltb last_boundary stop then last_boundary else stop

unfoldable pub plan_chunks : ℕ → ℕ → ℕ → ℕ → ℕ → List (ℕ × ℕ × Bool)
unfolding plan_stop
plan_chunks zero boundary chunk end pos = []
plan_chunks (suc fuel) boundary chunk end pos =
    let n = min (end - pos) (plan_stop chunk (end / boundary * boundary) pos - pos) in
    let rest = plan_chunks fuel boundary chunk end (pos + n) in
    if ltb pos end then (pos, n, (pos + n) % boundary == 0 && ltb (pos + n) end) ∷ rest else []

-- The chunk rounded down to a multiple of the boundary, one at the least.
unfoldable pub chunk_of : ℕ → ℕ → ℕ
chunk_of boundary chunk = max boundary (chunk / boundary * boundary)

-- `offload_prefill_plan`
unfoldable pub offload_prefill_plan : ℕ → ℕ → ℕ → ℕ → List (ℕ × ℕ × Bool)
unfolding plan_chunks chunk_of
offload_prefill_plan start end chunk boundary =
    plan_chunks (end - start) boundary (chunk_of boundary chunk) end start

-- The chunks lie one behind the other from `pos` to `end`, none of them empty.
abbrev pub IsCover : ℕ → ℕ → List (ℕ × ℕ × Bool) → Type 0
IsCover pos end [] = end ≤ pos
IsCover pos end ((p, n, snapshot) ∷ chunks) =
    (p ≡ pos) × (0 < n) × (pos + n ≤ end) × IsCover (pos + n) end chunks

-- The width of a chunk, 2048 for a request that is alone and 512 for others.
abbrev pub chunk_width : Bool → ℕ
chunk_width alone = if alone then 2048 else 512

-- The length that ends a chunk on a boundary, when it is not the last.
unfoldable pub aligned_length : ℕ → ℕ → ℕ → ℕ → ℕ
aligned_length width end next_boundary pos =
    let n = min width (end - pos) in
    let to_boundary = next_boundary - pos in
    let fitted = if ltb n to_boundary then to_boundary else n - (pos + n) % boundary_tokens in
    if ltb (pos + n) end then max fitted to_boundary else n

-- The first cut inside the chunk shortens it.
unfoldable pub cut_length : List ℕ → ℕ → ℕ → ℕ
cut_length [] pos n = n
cut_length (cut ∷ cuts) pos n =
    let rest = cut_length cuts pos n in if ltb pos cut && ltb cut (pos + n) then cut - pos else rest

-- `_prefill_chunks` from `pos`. `alone` says at each position whether no other request is active there.
unfoldable pub prefill_chunks : ℕ → (ℕ → Bool) → List ℕ → ℕ → ℕ → ℕ → List (ℕ × ℕ × Bool)
unfolding aligned_length cut_length
prefill_chunks zero alone cuts end next_boundary pos = []
prefill_chunks (suc fuel) alone cuts end next_boundary pos =
    let n = cut_length cuts pos (aligned_length (chunk_width (alone pos)) end next_boundary pos) in
    let on_boundary = (pos + n) % boundary_tokens == 0 in
    let next = if on_boundary then pos + n + boundary_tokens else next_boundary in
    let rest = prefill_chunks fuel alone cuts end next (pos + n) in
    if ltb pos end then (pos, n, on_boundary) ∷ rest else []

-- The chunks of a prompt of `prompt_len` tokens of which `start` are cached. The last token is left to the first step.
unfoldable pub prompt_chunks : (ℕ → Bool) → List ℕ → ℕ → ℕ → List (ℕ × ℕ × Bool)
unfolding prefill_chunks
prompt_chunks alone cuts prompt_len start =
    prefill_chunks (prompt_len - 1 - start) alone cuts (prompt_len - 1)
      ((start / boundary_tokens + 1) * boundary_tokens) start

-- The segments in which `_batch_admit` gives a prompt to the batcher.
unfoldable pub segments : ℕ → List ℕ → ℕ → List (List ℕ)
segments zero input_ids pos = []
segments (suc fuel) input_ids pos =
    let end = min (length input_ids) ((pos / boundary_tokens + 1) * boundary_tokens) in
    let rest = segments fuel input_ids end in
    if ltb pos (length input_ids) then slice pos end input_ids ∷ rest else []

unfoldable pub batch_segments : List ℕ → ℕ → List (List ℕ)
unfolding segments
batch_segments input_ids cached = segments (length input_ids) input_ids cached

-- Its output budget.
unfoldable pub output_cap : ℕ → ℕ → ℕ → ℕ
output_cap max_tokens max_seq_len prompt_len = max 1 (min max_tokens (max_seq_len - prompt_len))
