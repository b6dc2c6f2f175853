-- ===== src/Scheduler/Turn.antt =====
-- The round-robin step, `_step` and `_finish` of python/maxtoken/mlx_backend/worker.py: each active request is
-- advanced by what its generator yields.
use maxtoken.Prelude.{
  ℕ, zero, suc, ◌+◌, List, [], ◌∷◌, ◌++◌, none, some, Bool, true, false, ◌&&◌, ◌||◌, not, leb,
  if◌then◌else◌, length, put, remove,
}
use maxtoken.Scheduler.State.{
  Engine, Request, Scheduler, length_reached, generation_failed, Reply, token, error_reply, is_some,
  finish_reason, matched, remembered,
}

-- What `next(req.generator)` does: it stops, raises, has worked on the prompt, or yields a token.
pub data Item : Type 0 where
  exhausted raised working : Item
  produced : ℕ → Item

-- What becomes of the request: it stays, it is over and remembered, or it is dropped.
pub data Outcome (L : Type 0) : Type 0 where
  stays : Request L → Outcome L
  over : Request L → Outcome L
  dropped : Outcome L

-- `DECODE_ROUNDS_WHILE_PREFILLING`
abbrev pub decode_rounds_while_prefilling : ℕ
decode_rounds_while_prefilling = 8

abbrev pub first_or_zero : List ℕ → ℕ
first_or_zero [] = 0
first_or_zero (t ∷ ts) = t

abbrev pub with_output : {L : Type 0} → Request L → ℕ → Request L
with_output req t = record req { output_ids = req.output_ids ++ t ∷ []; prefilling = false }

abbrev pub hits_length : {L : Type 0} → ℕ → Request L → Bool
hits_length max_seq_len req =
    leb req.sampling.max_tokens (length req.output_ids)
    || leb max_seq_len (length req.prompt_ids + length req.output_ids)

abbrev pub before_reply : {L : Type 0} → Reply → Outcome L × List Reply → Outcome L × List Reply
before_reply r (outcome, replies) = (outcome, r ∷ replies)

abbrev pub rounds_for : {L : Type 0} → Bool → Request L → ℕ
rounds_for prefill_in_progress req =
    if prefill_in_progress && not req.prefilling then decode_rounds_while_prefilling else 1

module _ {L : Type 0} (engine : Engine L) where
  -- The end of a request without a token: an end-of-sequence id carries the signal.
  abbrev pub finish : ℕ → Request L → Outcome L × List Reply
  finish uid req =
      (over req, token uid (first_or_zero engine.eos_token_ids) (some length_reached) none ∷ [])

  -- The inner loop of `_step` for one request, over what its generator does.
  unfoldable pub turn : ℕ → ℕ → List Item → ℕ → Request L → Outcome L × List Reply
  turn max_seq_len zero items uid req = (stays req, [])
  turn max_seq_len (suc rounds) [] uid req = finish uid req
  turn max_seq_len (suc rounds) (exhausted ∷ items) uid req = finish uid req
  turn max_seq_len (suc rounds) (raised ∷ items) uid req =
      (dropped, error_reply uid generation_failed ∷ [])
  turn max_seq_len (suc rounds) (working ∷ items) uid req =
      (stays (record req { prefilling = true }), [])
  turn max_seq_len (suc rounds) (produced t ∷ items) uid req =
      let req' = with_output req t in
      let rest = turn max_seq_len rounds items uid req' in
      let why = finish_reason engine req' t (hits_length max_seq_len req') in
      before_reply (token uid t why (matched engine req' t))
        (if is_some why then (over req', []) else rest)

  abbrev pub settled : Scheduler L → ℕ → Outcome L → Scheduler L
  settled s uid (stays req) = record s { active = put uid req s.active }
  settled s uid (over req) = record (remembered engine s req none) { active = remove uid s.active }
  settled s uid dropped = record s { active = remove uid s.active }

  -- The loop over the requests that were active when the step began; `items` is what their generators do.
  unfoldable pub step_each :
      Bool → (ℕ → List Item) → Scheduler L → List (ℕ × Request L) → Scheduler L × List Reply
  unfolding turn
  step_each prefill_in_progress items s [] = (s, [])
  step_each prefill_in_progress items s ((uid, req) ∷ todo) =
      let (outcome, replies) =
        turn s.max_seq_len (rounds_for prefill_in_progress req) (items uid) uid req in
      let (s', later) = step_each prefill_in_progress items (settled s uid outcome) todo in
      (s', replies ++ later)

abbrev pub any_prefilling : {L : Type 0} → List (ℕ × Request L) → Bool
any_prefilling [] = false
any_prefilling ((uid, req) ∷ rest) = req.prefilling || any_prefilling rest

-- `_step` without the batcher.
unfoldable pub step_round_robin :
    {L : Type 0} → Engine L → (ℕ → List Item) → Scheduler L → Scheduler L × List Reply
unfolding step_each
step_round_robin engine items s = step_each engine (any_prefilling s.active) items s s.active
