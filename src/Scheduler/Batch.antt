-- ===== src/Scheduler/Batch.antt =====
-- The batched step of python/maxtoken/mlx_backend/worker.py: `_step_batched`, `_batch_remove`, `_batch_forget`,
-- `_abort_batch` and `_prefill_geometry`. mlx-lm's batch generator knows a request by an id of its own; what
-- its `next` and `remove` return are arguments.
use maxtoken.Prelude.{
  ℕ, ◌+◌, ◌-◌, ◌*◌, ◌/◌, ◌^◌, min, max, List, [], ◌∷◌, ◌++◌, Option, none, some, Bool, ◌&&◌, ◌||◌,
  not, ltb, if◌then◌else◌, length, take, put, remove, find, keys,
}
use maxtoken.Scheduler.State.{
  Engine, Request, Scheduler, StoreCall, insert_snapshot, observe_snapshot, generation_failed,
  Reply, token, error_reply, is_some, finish_reason, matched, remember, remembered,
}

-- A response about a prompt: the engine's id, how much of the segments is done and their total, whether a
-- segment and whether the prompt ended, and the caches that `extract_cache` returns.
pub record PromptResponse (L : Type 0) : Type 0 where
  pub engine_uid : ℕ
  pub done_tokens : ℕ
  pub total_tokens : ℕ
  pub end_of_segment : Bool
  pub end_of_prompt : Bool
  pub extracted : Option (List L)

-- A token of a request. `done` is whether the engine has a reason to finish it, `cache` what it then
-- returns, or what `remove` does.
pub record TokenResponse (L : Type 0) : Type 0 where
  pub engine_uid : ℕ
  pub next_token : ℕ
  pub done : Bool
  pub cache : Option (List L)

-- The request that the engine's id stands for.
unfoldable pub request_of : {L : Type 0} → Scheduler L → ℕ → Option (ℕ × Request L)
request_of s engine_uid = elim (find engine_uid s.our_uid) [
  | none ↦ none
  | some uid ↦ elim (find uid s.active) [ none ↦ none | some req ↦ some (uid, req) ]
]

-- `_batch_forget`
unfoldable pub batch_forget : {L : Type 0} → Scheduler L → ℕ → Scheduler L
batch_forget s uid = elim (find uid s.batch_uid) [
  | none ↦ s
  | some engine_uid ↦ record s {
    batch_uid = remove uid s.batch_uid;
    our_uid = remove engine_uid s.our_uid;
  }
]

-- `_batch_remove`, where `removed` is the cache that the engine returns for its id.
unfoldable pub batch_remove : {L : Type 0} → Scheduler L → ℕ → Option (List L) → Option (List L)
batch_remove s uid removed = elim (find uid s.batch_uid) [ none ↦ none | some engine_uid ↦ removed ]

-- `_snapshot`
abbrev pub snapshot_calls : {L : Type 0} → Bool → Bool → List ℕ → List L → ℕ → List (StoreCall L)
snapshot_calls has_store has_disk tokens cache prompt_len =
    (if has_store then insert_snapshot tokens cache ∷ [] else [])
    ++ (if has_disk then observe_snapshot tokens cache prompt_len ∷ [] else [])

-- A snapshot at a boundary inside a prompt.
unfoldable pub snapshot_prompt : {L : Type 0} → Scheduler L → PromptResponse L → Scheduler L
unfolding request_of
snapshot_prompt s r =
    if s.has_store && (r.end_of_segment && not r.end_of_prompt)
    then elim (request_of s r.engine_uid) [
      | none ↦ s
      | some (uid, req) ↦ elim r.extracted [
        | none ↦ s
        | some cache ↦
            let n = (length req.prompt_ids - r.total_tokens) + r.done_tokens in
            record s {
              store_calls =
                  s.store_calls
                  ++ snapshot_calls s.has_store s.has_disk (take n req.prompt_ids) cache
                      (length req.prompt_ids);
            }
      ]
    ]
    else s

unfoldable pub snapshot_prompts : {L : Type 0} → Scheduler L → List (PromptResponse L) → Scheduler L
snapshot_prompts s [] = s
snapshot_prompts s (r ∷ responses) = snapshot_prompts (snapshot_prompt s r) responses

module _ {L : Type 0} (engine : Engine L) where
  abbrev pub ended_by : Scheduler L → ℕ → Request L → TokenResponse L → Scheduler L
  ended_by s uid req r =
      let donated = if r.done then r.cache else batch_remove s uid r.cache in
      let s' = batch_forget (remembered engine s req donated) uid in
      record s' { active = remove uid s'.active }

  -- One turn of the loop over the tokens.
  unfoldable pub take_token : Scheduler L → TokenResponse L → Scheduler L × List Reply
  unfolding request_of batch_forget batch_remove
  take_token s r = elim (request_of s r.engine_uid) [
    | none ↦ (s, [])
    | some (uid, req) ↦
        let req' : Request L = record req { output_ids = req.output_ids ++ r.next_token ∷ [] } in
        let why = finish_reason engine req' r.next_token r.done in
        (
          if is_some why
              then ended_by s uid req' r
              else record s { active = put uid req' s.active },
          token uid r.next_token why (matched engine req' r.next_token) ∷ [],
        )
  ]

  unfoldable pub take_tokens : Scheduler L → List (TokenResponse L) → Scheduler L × List Reply
  unfolding take_token
  take_tokens s [] = (s, [])
  take_tokens s (r ∷ responses) =
      let (s', first) = take_token s r in
      let (s'', later) = take_tokens s' responses in (s'', first ++ later)

  -- A response in the middle of which an exception comes: its reply is appended and the request is still
  -- active, and of the calls of the stores at its end `made` were made.
  unfoldable pub take_torn : Scheduler L → TokenResponse L → ℕ → Scheduler L × List Reply
  unfolding request_of batch_remove
  take_torn s r made = elim (request_of s r.engine_uid) [
    | none ↦ (s, [])
    | some (uid, req) ↦
        let req' : Request L = record req { output_ids = req.output_ids ++ r.next_token ∷ [] } in
        let why = finish_reason engine req' r.next_token r.done in
        let donated = if r.done then r.cache else batch_remove s uid r.cache in
        let calls =
          if is_some why then remember engine s.has_store s.has_disk req' donated else [] in
        (
          record s {
            active = put uid req' s.active;
            store_calls = s.store_calls ++ take made calls;
          },
          token uid r.next_token why (matched engine req' r.next_token) ∷ [],
        )
  ]

  unfoldable pub take_last : Scheduler L → Option (TokenResponse L × ℕ) → Scheduler L × List Reply
  unfolding take_torn
  take_last s none = (s, [])
  take_last s (some (r, made)) = take_torn s r made

abbrev pub fail_all : List ℕ → List Reply
fail_all [] = []
fail_all (uid ∷ uids) = error_reply uid generation_failed ∷ fail_all uids

-- Half the geometry of a prefill that was shown not to fit.
unfoldable pub halved : {L : Type 0} → Scheduler L → Scheduler L
halved s =
    if ltb 1 s.prefill_batch || ltb 256 s.prefill_step
    then record s {
      prefill_batch = max 1 (s.prefill_batch / 2);
      prefill_step = max 256 (s.prefill_step / 2);
    }
    else s

-- `_abort_batch` up to the new batch generator.
unfoldable pub abort_batch : {L : Type 0} → Scheduler L → Scheduler L × List Reply
unfolding halved
abort_batch s =
    (halved (record s { active = []; batch_uid = []; our_uid = [] }), fail_all (keys s.active))

-- `_prefill_geometry`; a working set of 0 is not known.
unfoldable pub prefill_geometry : ℕ → ℕ → ℕ → ℕ × ℕ
prefill_geometry working_set weights running =
    if ltb 0 working_set && ltb working_set (weights + 2 * 2 ^ 30)
    then (1, 512)
    else if ltb 0 working_set && ltb working_set (weights + 6 * 2 ^ 30)
    then (min 2 running, 1024)
    else (min 4 running, 2048)

-- What a step of the engine does: the responses that were handled, and whether an exception ended them. If it
-- came in the middle of a response, `torn` is this one and how many calls of the stores it had made.
pub record BatchStep (L : Type 0) : Type 0 where
  pub prompts : List (PromptResponse L)
  pub tokens : List (TokenResponse L)
  pub torn : Option (TokenResponse L × ℕ)
  pub raises : Bool

-- `_step` with the batcher; `none` is a batcher that cannot be built again, with which the worker ends.
unfoldable pub step_batched :
    {L : Type 0} → Engine L → BatchStep L → Bool → Scheduler L → Option (Scheduler L × List Reply)
unfolding take_tokens take_last snapshot_prompts abort_batch
step_batched engine step rebuilds s =
    let (s', replies) = take_tokens engine (snapshot_prompts s step.prompts) step.tokens in
    if not step.raises
    then some (s', replies)
    else if rebuilds
    then (let (last_s, last) = take_last engine s' step.torn in
        let (s'', errors) = abort_batch last_s in some (s'', (replies ++ last) ++ errors))
    else none
