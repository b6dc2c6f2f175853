-- ===== src/Stats/Totals.antt =====
-- The token counters, and the pools that keep their last known value.
use maxtoken.Prelude.{ℕ, ◌+◌, ◌≡◌, refl, List, [], ◌∷◌, ltb, if◌then◌else◌, arith}
use maxtoken.Stats.{
  Tracker, Reply, Event, new_user, abort, reply, poll, reset, on_new_user, on_abort, observe,
  observe_tokens, observe_pools, observe_finish, decode_tps, prefill_tps, reset_launch, step, run,
}

-- The tokens of the replies since the last reset, on top of what was counted before.
unfoldable pub completion_tokens : ℕ → List Event → ℕ
completion_tokens n [] = n
completion_tokens n (reply r now ∷ es) = completion_tokens (n + r.completion_tokens_delta) es
completion_tokens n (reset ∷ es) = completion_tokens 0 es
completion_tokens n (_ ∷ es) = completion_tokens n es

unfoldable pub prompt_tokens : ℕ → List Event → ℕ
prompt_tokens n [] = n
prompt_tokens n (reply r now ∷ es) = prompt_tokens (n + r.prompt_tokens_delta) es
prompt_tokens n (reset ∷ es) = prompt_tokens 0 es
prompt_tokens n (_ ∷ es) = prompt_tokens n es

observe-totals :
    (s : Tracker) (r : Reply) (now : ℕ)
    → ((observe s r now).completion_tokens_total
        ≡ s.completion_tokens_total + r.completion_tokens_delta)
      × ((observe s r now).prompt_tokens_total ≡ s.prompt_tokens_total + r.prompt_tokens_delta)
unfolding observe observe_tokens observe_pools observe_finish
observe-totals s r now = (ground arith, ground arith)

on_abort-totals :
    (s : Tracker) (uid : ℕ)
    → ((on_abort s uid).completion_tokens_total ≡ s.completion_tokens_total)
      × ((on_abort s uid).prompt_tokens_total ≡ s.prompt_tokens_total)
unfolding on_abort
on_abort-totals s uid = (ground arith, ground arith)

-- Whatever happens, the two counters are the sums of the token deltas of all replies since the last
-- reset: also of replies to aborted requests, and of replies that arrive after a request is gone.
pub run-totals :
    (s : Tracker) (es : List Event)
    → ((run s es).completion_tokens_total ≡ completion_tokens s.completion_tokens_total es)
      × ((run s es).prompt_tokens_total ≡ prompt_tokens s.prompt_tokens_total es)
unfolding run step completion_tokens prompt_tokens on_new_user decode_tps prefill_tps reset_launch
run-totals s [] = (refl, refl)
run-totals s (new_user uid ∷ es) = run-totals (on_new_user s uid) es
run-totals s (abort uid ∷ es) =
    let h = on_abort-totals s uid in let r = run-totals (on_abort s uid) es in ground (arith, h, r)
run-totals s (reply r now ∷ es) =
    let h = observe-totals s r now in
    let t = run-totals (observe s r now) es in ground (arith, h, t)
run-totals s (poll now ∷ es) = run-totals (step s (poll now)) es
run-totals s (reset ∷ es) = run-totals (reset_launch s) es

-- The used and the total of a pool.
abbrev pub Pool : Type 0
Pool = ℕ × ℕ

abbrev pub kv_pool : Tracker → Pool
kv_pool s = (s.kv_used_pages, s.kv_total_pages)

abbrev pub mamba_pool : Tracker → Pool
mamba_pool s = (s.mamba_used_slots, s.mamba_total_slots)

abbrev pub swa_pool : Tracker → Pool
swa_pool s = (s.swa_used_tokens, s.swa_total_tokens)

-- The last pool that was reported with a positive total.
abbrev pub known : Pool → Pool → Pool
known new old = if ltb 0 new.1 then new else old

-- A reply replaces the two numbers of a pool together, and only where it reports a positive total;
-- so too the memory in use.
pub observe-pools :
    (s : Tracker) (r : Reply) (now : ℕ)
    → let s' = observe s r now in
      (kv_pool s' ≡ known (r.kv_used_pages, r.kv_total_pages) (kv_pool s))
      × (mamba_pool s' ≡ known (r.mamba_used_slots, r.mamba_total_slots) (mamba_pool s))
      × (swa_pool s' ≡ known (r.swa_used_tokens, r.swa_total_tokens) (swa_pool s))
      × (s'.vram_bytes ≡ (if ltb 0 r.gpu_mem_bytes then r.gpu_mem_bytes else s.vram_bytes))
unfolding observe observe_tokens observe_pools observe_finish
observe-pools s r now = (ground arith, ground arith, ground arith, ground arith)
