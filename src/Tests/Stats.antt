-- ===== src/Tests/Stats.antt =====
-- A request that ends, and one that is aborted.
use maxtoken.Prelude.{◌≡◌, List, [], ◌∷◌, true}
use maxtoken.Stats.{Tracker, Reply, Event, new_user, abort, reply, create, run, step}
use maxtoken.Stats.Totals.{completion_tokens, prompt_tokens, run-totals}
use maxtoken.Stats.Active.{after, status, life, status-step, status-run}

abbrev last_reply : Reply
last_reply = record {
  uid = 4;
  finished = true;
  completion_tokens_delta = 3;
  prompt_tokens_delta = 9;
  kv_used_pages = 1;
  kv_total_pages = 8;
  mamba_used_slots = 0;
  mamba_total_slots = 0;
  swa_used_tokens = 0;
  swa_total_tokens = 0;
  gpu_mem_bytes = 0;
}

abbrev events : List Event
events = new_user 4 ∷ new_user 5 ∷ abort 5 ∷ reply last_reply 10 ∷ []

run-totals_example :
    ((run (create 5) events).completion_tokens_total ≡ 3)
    × ((run (create 5) events).prompt_tokens_total ≡ 9)
unfolding create completion_tokens prompt_tokens
run-totals_example = run-totals (create 5) events

status-step_example :
    status (step (create 5) (new_user 4)) 4 ≡ after 4 (status (create 5) 4) (new_user 4)
status-step_example = status-step (create 5) (new_user 4) 4

status-run_example : status (run (create 5) events) 4 ≡ life 4 (status (create 5) 4) events
status-run_example = status-run (create 5) events 4

abbrev sampled : Tracker
sampled = record {
  window_s = 5;
  decode = (1, 7) ∷ (8, 2) ∷ (9, 3) ∷ [];
  prefill = [];
  inflight = [];
  aborting = [];
  completed = 0;
  prompt_tokens_total = 0;
  completion_tokens_total = 12;
  kv_used_pages = 0;
  kv_total_pages = 0;
  mamba_used_slots = 0;
  mamba_total_slots = 0;
  swa_used_tokens = 0;
  swa_total_tokens = 0;
  vram_bytes = 0;
}
