-- ===== src/Stats.antt =====
-- `StatsTracker` of python/maxtoken/server/stats.py. A Python set is a list without duplicates. Times
-- are whole ticks of the monotonic clock. A reply that lacks a field reads as 0 there, as here.
pub mod Totals
pub mod Active
pub mod Rate
use maxtoken.Prelude.{
  ℕ, zero, suc, ◌+◌, ◌-◌, List, [], ◌∷◌, ◌++◌, length, Option, none, some, Bool, true, false, ltb,
  leb, ◌==◌, ◌&&◌, not, if◌then◌else◌, contains,
}
use maxtoken.Rings.Window.{push}

pub record Tracker : Type 0 where
  pub window_s : ℕ
  pub decode : List (ℕ × ℕ)
  pub prefill : List (ℕ × ℕ)
  pub inflight : List ℕ
  pub aborting : List ℕ
  pub completed : ℕ
  pub prompt_tokens_total : ℕ
  pub completion_tokens_total : ℕ
  pub kv_used_pages : ℕ
  pub kv_total_pages : ℕ
  pub mamba_used_slots : ℕ
  pub mamba_total_slots : ℕ
  pub swa_used_tokens : ℕ
  pub swa_total_tokens : ℕ
  pub vram_bytes : ℕ

pub record Reply : Type 0 where
  pub uid : ℕ
  pub finished : Bool
  pub completion_tokens_delta : ℕ
  pub prompt_tokens_delta : ℕ
  pub kv_used_pages : ℕ
  pub kv_total_pages : ℕ
  pub mamba_used_slots : ℕ
  pub mamba_total_slots : ℕ
  pub swa_used_tokens : ℕ
  pub swa_total_tokens : ℕ
  pub gpu_mem_bytes : ℕ

-- `set.add`
unfoldable pub add : ℕ → List ℕ → List ℕ
add x xs = if contains x xs then xs else xs ++ x ∷ []

-- `set.discard`
unfoldable pub discard : ℕ → List ℕ → List ℕ
discard x [] = []
discard x (y ∷ ys) = let rest = discard x ys in if y == x then rest else y ∷ rest

unfoldable pub create : ℕ → Tracker
create window_s = record {
  window_s = window_s;
  decode = [];
  prefill = [];
  inflight = [];
  aborting = [];
  completed = 0;
  prompt_tokens_total = 0;
  completion_tokens_total = 0;
  kv_used_pages = 0;
  kv_total_pages = 0;
  mamba_used_slots = 0;
  mamba_total_slots = 0;
  swa_used_tokens = 0;
  swa_total_tokens = 0;
  vram_bytes = 0;
}

unfoldable pub reset_launch : Tracker → Tracker
reset_launch s = record s {
  decode = [];
  prefill = [];
  completed = 0;
  prompt_tokens_total = 0;
  completion_tokens_total = 0;
}

unfoldable pub active : Tracker → ℕ
active s = length s.inflight

unfoldable pub on_new_user : Tracker → ℕ → Tracker
on_new_user s uid = record s { inflight = add uid s.inflight; aborting = discard uid s.aborting }

unfoldable pub on_abort : Tracker → ℕ → Tracker
on_abort s uid = if contains uid s.inflight then record s { aborting = add uid s.aborting } else s

-- `maxlen=4096`
abbrev pub window_cap : ℕ
window_cap = 4096

unfoldable pub observe_tokens : Tracker → Reply → ℕ → Tracker
observe_tokens s r now =
    let s₁ : Tracker =
      if ltb 0 r.completion_tokens_delta
      then record s {
        decode = push window_cap (now, r.completion_tokens_delta) s.decode;
        completion_tokens_total = s.completion_tokens_total + r.completion_tokens_delta;
      }
      else s in
    if ltb 0 r.prompt_tokens_delta
    then record s₁ {
      prefill = push window_cap (now, r.prompt_tokens_delta) s₁.prefill;
      prompt_tokens_total = s₁.prompt_tokens_total + r.prompt_tokens_delta;
    }
    else s₁

-- A pool of total 0 leaves the last known values.
unfoldable pub observe_pools : Tracker → Reply → Tracker
observe_pools s r =
    let s₁ : Tracker =
      if ltb 0 r.kv_total_pages
      then record s { kv_used_pages = r.kv_used_pages; kv_total_pages = r.kv_total_pages }
      else s in
    let s₂ : Tracker =
      if ltb 0 r.mamba_total_slots
      then record s₁ {
        mamba_used_slots = r.mamba_used_slots;
        mamba_total_slots = r.mamba_total_slots;
      }
      else s₁ in
    let s₃ : Tracker =
      if ltb 0 r.swa_total_tokens
      then record s₂ { swa_used_tokens = r.swa_used_tokens; swa_total_tokens = r.swa_total_tokens }
      else s₂ in
    if ltb 0 r.gpu_mem_bytes then record s₃ { vram_bytes = r.gpu_mem_bytes } else s₃

unfoldable pub observe_finish : Tracker → Reply → Tracker
observe_finish s r =
    if r.finished && contains r.uid s.inflight
    then (if contains r.uid s.aborting
        then record s { inflight = discard r.uid s.inflight; aborting = discard r.uid s.aborting }
        else record s { inflight = discard r.uid s.inflight; completed = s.completed + 1 })
    else s

unfoldable pub observe : Tracker → Reply → ℕ → Tracker
unfolding observe_tokens observe_pools observe_finish
observe s r now = observe_finish (observe_pools (observe_tokens s r now) r) r

-- `while window and window[0][0] < cutoff: window.popleft()`
unfoldable pub trim : ℕ → List (ℕ × ℕ) → List (ℕ × ℕ)
trim cutoff [] = []
trim cutoff ((t, n) ∷ w) = let rest = trim cutoff w in if ltb t cutoff then rest else (t, n) ∷ w

unfoldable pub tokens_in : List (ℕ × ℕ) → ℕ
tokens_in [] = 0
tokens_in ((t, n) ∷ w) = n + tokens_in w

-- `_rate`: the window that stays, and the tokens and the ticks whose quotient is the rate; `none` is
-- the rate 0. Below the first tick the code divides by 1e-9 seconds.
unfoldable pub rate_of : ℕ → List (ℕ × ℕ) → Option (ℕ × ℕ)
rate_of now [] = none
rate_of now ((t, n) ∷ w) = some (tokens_in ((t, n) ∷ w), now - t)

unfoldable pub decode_tps : Tracker → ℕ → Tracker × Option (ℕ × ℕ)
unfolding rate_of
decode_tps s now =
    let w = trim (now - s.window_s) s.decode in (record s { decode = w }, rate_of now w)

unfoldable pub prefill_tps : Tracker → ℕ → Tracker × Option (ℕ × ℕ)
unfolding rate_of
prefill_tps s now =
    let w = trim (now - s.window_s) s.prefill in (record s { prefill = w }, rate_of now w)

-- What the frontend and the poller do to the tracker.
pub data Event : Type 0 where
  new_user : ℕ → Event
  abort : ℕ → Event
  reply : Reply → ℕ → Event
  poll : ℕ → Event
  reset : Event

unfoldable pub step : Tracker → Event → Tracker
step s (new_user uid) = on_new_user s uid
step s (abort uid) = on_abort s uid
step s (reply r now) = observe s r now
step s (poll now) = (prefill_tps (decode_tps s now).0 now).0
step s reset = reset_launch s

unfoldable pub run : Tracker → List Event → Tracker
run s [] = s
run s (e ∷ es) = run (step s e) es
