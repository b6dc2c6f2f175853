-- ===== src/Scheduler/State.antt =====
-- The state of `MlxScheduler` of python/maxtoken/mlx_backend/worker.py and what it sends. The model, its
-- tokenizer and its caches belong to mlx-lm: `Engine` is what the scheduler uses of them.
use maxtoken.Prelude.{
  ℕ, ◌+◌, ◌-◌, List, [], ◌∷◌, ◌++◌, Option, none, some, Bool, true, false, ◌==◌, ◌&&◌, ◌||◌, not,
  ltb, if◌then◌else◌, max, map, length, take, drop, contains,
}
use maxtoken.Detokenize.{find_text}

-- What is used of a layer's cache of type `L`, and of the tokenizer.
pub record Engine (L : Type 0) : Type 0 where
  pub decode : List ℕ → List ℕ
  pub eos_token_ids : List ℕ
  pub is_trimmable : L → Bool
  pub offset : L → Option ℕ
  pub trim : ℕ → L → L

pub record Sampling : Type 0 where
  pub max_tokens : ℕ
  pub ignore_eos : Bool
  pub stop_strs : List (List ℕ)

-- `_MlxRequest`, whose uid is its key. The generator's items are arguments of the steps.
pub record Request (L : Type 0) : Type 0 where
  pub sampling : Sampling
  pub prompt_ids : List ℕ
  pub output_ids : List ℕ
  pub cache : Option (List L)
  pub prefilling : Bool

-- What the scheduler puts into the prefix stores; lookups are left aside.
pub data StoreCall (L : Type 0) : Type 0 where
  disk_done : List ℕ → StoreCall L
  insert_snapshot : List ℕ → List L → StoreCall L
  observe_snapshot : List ℕ → List L → ℕ → StoreCall L

pub record Scheduler (L : Type 0) : Type 0 where
  pub batched : Bool
  pub active : List (ℕ × Request L)
  pub batch_uid : List (ℕ × ℕ)
  pub our_uid : List (ℕ × ℕ)
  pub prefill_batch : ℕ
  pub prefill_step : ℕ
  pub max_seq_len : ℕ
  pub has_store : Bool
  pub has_disk : Bool
  pub has_experts : Bool
  pub store_calls : List (StoreCall L)

pub data FinishReason : Type 0 where
  stop length_reached : FinishReason

pub data Failure : Type 0 where
  generation_failed cannot_start context_length_exceeded : Failure

pub data RebuildStatus : Type 0 where
  nothing_to_rebuild no_expert_cache busy : RebuildStatus
  rebuilt : ℕ → ℕ → RebuildStatus

-- `DetokenizeMsg`, `ErrorReplyMsg`, `PromptAdmittedMsg` and `CacheRebuildResultMsg`. A token that ends its
-- request has a reason and perhaps the stop string that matched.
pub data Reply : Type 0 where
  token : ℕ → ℕ → Option FinishReason → Option (List ℕ) → Reply
  error_reply : ℕ → Failure → Reply
  admitted : ℕ → ℕ → ℕ → Reply
  rebuild_result : ℕ → RebuildStatus → Reply

abbrev pub is_some {ℓ} : {A : Type ℓ} → Option A → Bool
is_some none = false
is_some (some x) = true

-- `max(len(s) for s in stop_strs)`
abbrev pub longest : List (List ℕ) → ℕ
longest [] = 0
longest (s ∷ stops) = max (length s) (longest stops)

abbrev pub first_in : List ℕ → List (List ℕ) → Option (List ℕ)
first_in tail [] = none
first_in tail (s ∷ stops) = if is_some (find_text tail s) then some s else first_in tail stops

-- `xs[-n:]` for a positive `n`
abbrev pub last_n : ℕ → List ℕ → List ℕ
last_n n xs = drop (length xs - n) xs

module _ {L : Type 0} (engine : Engine L) where
  -- `_match_stop_str`
  unfoldable pub match_stop_str : Request L → Option (List ℕ)
  match_stop_str req = elim req.sampling.stop_strs [
    | [] ↦ none
    | s ∷ stops ↦ elim req.output_ids [
      | [] ↦ none
      | t ∷ ts ↦ first_in (engine.decode (last_n (longest (s ∷ stops) + 1) (t ∷ ts))) (s ∷ stops)
    ]
  ]

  abbrev pub hits_eos : Request L → ℕ → Bool
  hits_eos req t = not req.sampling.ignore_eos && contains t engine.eos_token_ids

  abbrev pub matched : Request L → ℕ → Option (List ℕ)
  matched req t = if hits_eos req t then none else match_stop_str req

  -- Why the token `t`, the request's last output, ends it, if it does. `over` says whether a length does.
  abbrev pub finish_reason : Request L → ℕ → Bool → Option FinishReason
  finish_reason req t over =
      if hits_eos req t || is_some (matched req t)
      then some stop
      else if over
      then some length_reached
      else none

  -- The offset of the first cache that can be trimmed and has one.
  abbrev pub first_offset : List L → Option ℕ
  first_offset [] = none
  first_offset (c ∷ cs) =
      if engine.is_trimmable c
      then elim (engine.offset c) [ none ↦ first_offset cs | some n ↦ some n ]
      else first_offset cs

  abbrev pub all_trimmable : List L → Bool
  all_trimmable [] = true
  all_trimmable (c ∷ cs) = engine.is_trimmable c && all_trimmable cs

  -- The caches cut to `n` tokens, or none that can stand for them.
  unfoldable pub fitted : ℕ → List L → Option (List L)
  fitted n cs = elim (first_offset cs) [
    | none ↦ some cs
    | some off ↦
        if off == n
        then some cs
        else if ltb off n || not (all_trimmable cs)
        then none
        else some (map (engine.trim (off - n)) cs)
  ]

  -- `_remember`: what is asked of the stores when a request ends with this cache.
  unfoldable pub remember : Bool → Bool → Request L → Option (List L) → List (StoreCall L)
  unfolding fitted
  remember has_store has_disk req cache =
      let cache' : Option (List L) = elim cache [ none ↦ req.cache | some c ↦ some c ] in
      let tokens = req.prompt_ids ++ take (length req.output_ids - 1) req.output_ids in
      (if has_disk then disk_done req.prompt_ids ∷ [] else [])
      ++ (if not has_store then [] else elim cache' [
        | none ↦ []
        | some c ↦ elim (fitted (length tokens) c) [
          | none ↦ []
          | some d ↦ insert_snapshot tokens d ∷ []
        ]
      ])

  unfoldable pub remembered : Scheduler L → Request L → Option (List L) → Scheduler L
  unfolding remember
  remembered s req cache = record s {
    store_calls = s.store_calls ++ remember s.has_store s.has_disk req cache;
  }
