-- ===== src/Tests/Scheduler.antt =====
-- The theorems on the scheduler at concrete inputs. A layer's cache is its offset.
use maxtoken.Prelude.{
  max, inr, none, ℕ, ◌-◌, ◌==◌, List, [], ◌∷◌, none, some, true, false, All, ◌≡◌, refl, arith,
}
use maxtoken.Scheduler.State.{Engine, Sampling, Request, Scheduler}
use maxtoken.Scheduler.Turn.{produced, step_round_robin}
use maxtoken.Scheduler.Loop.{Start, user, Input, step}
use maxtoken.Scheduler.Bounds.{IsWithin, step_round_robin-All}
use maxtoken.Scheduler.Remember.{IsSound, Trims, remember-All}
use maxtoken.Scheduler.State.{remember}
use maxtoken.Scheduler.Prefill.{prompt_chunks, offload_prefill_plan, batch_segments, IsCover}
use maxtoken.Scheduler.Prefill.Plan.{IsPlanned, offload_prefill_plan_lem}
use maxtoken.Scheduler.Prefill.Chunks.{IsChunk, prompt_chunks_lem}
use maxtoken.Scheduler.Prefill.Segments.{concat, IsSegment, IsOnGrid, batch_segments_lem}

abbrev engine : Engine ℕ
engine = record {
  decode = λ tokens. tokens;
  eos_token_ids = 0 ∷ [];
  is_trimmable = λ c. true;
  offset = λ c. some c;
  trim = λ k c. c - k;
}

abbrev two_tokens : Sampling
two_tokens = record { max_tokens = 2; ignore_eos = false; stop_strs = [] }

abbrev idle : Scheduler ℕ
idle = record {
  batched = false;
  active = [];
  batch_uid = [];
  our_uid = [];
  prefill_batch = 4;
  prefill_step = 2048;
  max_seq_len = 4096;
  has_store = true;
  has_disk = true;
  has_experts = false;
  store_calls = [];
}

abbrev works : Start ℕ
works = record { works = true; engine_uid = 0; cache = some (3 ∷ []); cached = 0 }

-- The request 7 arrives, and its generator yields a token a round.
abbrev two_rounds : List (Input engine)
two_rounds =
    record {
      messages = user 7 (1 ∷ 2 ∷ 3 ∷ []) two_tokens works ∷ [];
      items = λ uid. produced 5 ∷ [];
      step = record { prompts = []; tokens = []; torn = none; raises = false };
      rebuilds = true;
    }
    ∷ record {
      messages = [];
      items = λ uid. produced 6 ∷ [];
      step = record { prompts = []; tokens = []; torn = none; raises = false };
      rebuilds = true;
    }
    ∷ []

abbrev started : Request ℕ
started = record {
  sampling = two_tokens;
  prompt_ids = 1 ∷ 2 ∷ 3 ∷ [];
  output_ids = 5 ∷ [];
  cache = some (6 ∷ []);
  prefilling = false;
}

abbrev one_active : Scheduler ℕ
one_active = record idle { active = (7, started) ∷ [] }

step_round_robin-All_example :
    All
      (λ e. IsWithin 4096 e.1)
      (step_round_robin engine (λ uid. produced 6 ∷ []) one_active).0.active
step_round_robin-All_example =
    step_round_robin-All engine (λ uid. produced 6 ∷ []) one_active ((omega arith, omega arith), tt)

-- The cache is ahead of the three tokens that are stored.
engine-Trims : Trims engine
engine-Trims k c e = refl

remember-All_example : All (IsSound engine) (remember engine true true started none)
remember-All_example =
    remember-All engine engine-Trims true true started none (6, ((λ e. inr refl), tt)) tt

prompt_chunks_lem_example :
    IsCover 100 2999 (prompt_chunks (λ pos. pos == 100) (700 ∷ 2816 ∷ []) 3000 100)
    × All
        (IsChunk (700 ∷ 2816 ∷ []) 2999)
        (prompt_chunks (λ pos. pos == 100) (700 ∷ 2816 ∷ []) 3000 100)
prompt_chunks_lem_example =
    prompt_chunks_lem (λ pos. pos == 100) (700 ∷ 2816 ∷ []) 3000 100 ((omega arith, tt), (tt, tt))

offload_prefill_plan_lem_example :
    IsCover 100 5000 (offload_prefill_plan 100 5000 2048 256)
    × All (IsPlanned 256 (max 256 2048) 5000) (offload_prefill_plan 100 5000 2048 256)
offload_prefill_plan_lem_example = offload_prefill_plan_lem 100 5000 2048 256 (omega arith)

batch_segments_lem_example :
    (concat (batch_segments (1 ∷ 2 ∷ 3 ∷ []) 1) ≡ 2 ∷ 3 ∷ [])
    × All IsSegment (batch_segments (1 ∷ 2 ∷ 3 ∷ []) 1)
    × IsOnGrid 1 (batch_segments (1 ∷ 2 ∷ 3 ∷ []) 1)
batch_segments_lem_example = batch_segments_lem (1 ∷ 2 ∷ 3 ∷ []) 1
