-- ===== src/Scheduler/Loop.antt =====
-- Messages and the main loop of python/maxtoken/mlx_backend/worker.py: `_handle_user_msg`, `_handle`,
-- `_handle_cache_rebuild` and `run_forever`. A batch message holds single messages.
use maxtoken.Prelude.{
  ℕ, max, List, [], ◌∷◌, ◌++◌, Option, none, some, Bool, true, false, ◌==◌, ◌&&◌, not, ltb, leb,
  if◌then◌else◌, length, put, remove, find,
}
use maxtoken.Scheduler.State.{
  Engine, Sampling, Request, Scheduler, cannot_start, context_length_exceeded, RebuildStatus,
  nothing_to_rebuild, no_expert_cache, busy, rebuilt, Reply, error_reply, admitted, rebuild_result,
  remembered,
}
use maxtoken.Scheduler.Turn.{Item, step_round_robin}
use maxtoken.Scheduler.Batch.{batch_remove, batch_forget, BatchStep, step_batched}

-- What starting a request comes to: whether it works, the batcher's id or the generator's cache, and the
-- length of the prefix that was cached.
pub record Start (L : Type 0) : Type 0 where
  pub works : Bool
  pub engine_uid : ℕ
  pub cache : Option (List L)
  pub cached : ℕ

-- A rebuild says how many slots the experts' cache has afterwards, `total`; a size of 0 asks for nothing.
pub data Message (L : Type 0) : Type 0 where
  user : ℕ → List ℕ → Sampling → Start L → Message L
  abort : ℕ → Option (List L) → Message L
  rebuild : ℕ → ℕ → ℕ → ℕ → Message L
  exit_msg unexpected : Message L

abbrev pub is_empty : {A : Type 0} → List A → Bool
is_empty [] = true
is_empty (x ∷ xs) = false

abbrev pub new_request : {L : Type 0} → Scheduler L → List ℕ → Sampling → Start L → Request L
new_request s input_ids sampling start = record {
  sampling = sampling;
  prompt_ids = input_ids;
  output_ids = [];
  cache = if s.batched then none else start.cache;
  prefilling = false;
}

-- The request is known to the batcher, and active.
unfoldable pub admit : {L : Type 0} → Scheduler L → ℕ → List ℕ → Sampling → Start L → Scheduler L
admit s uid input_ids sampling start = record s {
  active = put uid (new_request s input_ids sampling start) s.active;
  batch_uid = if s.batched then put uid start.engine_uid s.batch_uid else s.batch_uid;
  our_uid = if s.batched then put start.engine_uid uid s.our_uid else s.our_uid;
}

unfoldable pub handle_user :
    {L : Type 0} → Scheduler L → ℕ → List ℕ → Sampling → Start L → Scheduler L × List Reply
unfolding admit
handle_user s uid input_ids sampling start =
    if leb s.max_seq_len (length input_ids)
    then (s, error_reply uid context_length_exceeded ∷ [])
    else if not start.works
    then (s, error_reply uid cannot_start ∷ [])
    else (admit s uid input_ids sampling start, admitted uid (length input_ids) start.cached ∷ [])

-- `_handle_cache_rebuild`
unfoldable pub handle_rebuild : {L : Type 0} → Scheduler L → ℕ → ℕ → ℕ → Scheduler L × RebuildStatus
handle_rebuild s moe_cache_size max_seq_len total =
    if moe_cache_size == 0 && max_seq_len == 0
    then (s, nothing_to_rebuild)
    else if ltb 0 moe_cache_size && not s.has_experts
    then (s, no_expert_cache)
    else if not (is_empty s.active)
    then (s, busy)
    else (let ctx = if max_seq_len == 0 then s.max_seq_len else max 1024 max_seq_len in
        (
          record s { max_seq_len = ctx },
          rebuilt (if moe_cache_size == 0 then 0 else total) (if max_seq_len == 0 then 0 else ctx),
        ))

module _ {L : Type 0} (engine : Engine L) where
  unfoldable pub handle_abort : Scheduler L → ℕ → Option (List L) → Scheduler L
  unfolding batch_remove batch_forget
  handle_abort s uid removed = elim (find uid s.active) [
    | none ↦ s
    | some req ↦
        let gone : Scheduler L = record s { active = remove uid s.active } in
        let donated = if s.batched then batch_remove gone uid removed else none in
        remembered engine (batch_forget gone uid) req donated
  ]

  -- `_handle` of one message: the state, the replies, and whether the worker is asked to exit.
  unfoldable pub handle : Scheduler L → Message L → Scheduler L × List Reply × Bool
  unfolding handle_user handle_rebuild handle_abort
  handle s (user uid input_ids sampling start) =
      let (s', replies) = handle_user s uid input_ids sampling start in (s', replies, false)
  handle s (abort uid removed) = (handle_abort s uid removed, [], false)
  handle s (rebuild id moe_cache_size max_seq_len total) =
      let (s', status) = handle_rebuild s moe_cache_size max_seq_len total in
      (s', rebuild_result id status ∷ [], false)
  handle s exit_msg = (s, [], true)
  handle s unexpected = (s, [], false)

  -- The messages of a batch, or those that have arrived, up to one that asks to exit.
  unfoldable pub handle_all : Scheduler L → List (Message L) → Scheduler L × List Reply × Bool
  unfolding handle
  handle_all s [] = (s, [], false)
  handle_all s (m ∷ messages) =
      let (s', replies, leaves) = handle s m in
      let (s'', later, leaves') = handle_all s' messages in
      if leaves then (s', replies, true) else (s'', replies ++ later, leaves')

  -- What arrives before a step and what its generators or its batcher do.
  pub record Input : Type 0 where
    pub messages : List (Message L)
    pub items : ℕ → List Item
    pub step : BatchStep L
    pub rebuilds : Bool

  -- How a round of `run_forever` ends: the loop goes on, it was asked to exit, or the worker dies. The
  -- replies are those that were sent.
  pub data Round : Type 0 where
    goes_on : Scheduler L → List Reply → Round
    leaves dies : List Reply → Round

  -- `_step`
  unfoldable pub step : Input → Scheduler L → Option (Scheduler L × List Reply)
  unfolding step_round_robin step_batched
  step input s =
      if s.batched
      then step_batched engine input.step input.rebuilds s
      else some (step_round_robin engine input.items s)

  unfoldable pub run_round : Input → Scheduler L → Round
  unfolding handle_all step
  run_round input s =
      let (s', replies, exits) = handle_all s input.messages in
      if exits
      then leaves replies
      else if is_empty s'.active
      then goes_on s' replies
      else elim (step input s') [
        | none ↦ dies replies
        | some (s'', later) ↦ goes_on s'' (replies ++ later)
      ]

  abbrev pub before_round : List Reply → Round → Round
  before_round replies (goes_on s later) = goes_on s (replies ++ later)
  before_round replies (leaves later) = leaves (replies ++ later)
  before_round replies (dies later) = dies (replies ++ later)

  -- `run_forever` over the inputs of its rounds.
  unfoldable pub run_rounds : List Input → Scheduler L → Round
  unfolding run_round
  run_rounds [] s = goes_on s []
  run_rounds (input ∷ inputs) s = elim (run_round input s) [
    | goes_on s' replies ↦ before_round replies (run_rounds inputs s')
    | leaves replies ↦ leaves replies
    | dies replies ↦ dies replies
  ]
