-- ===== src/Scheduler/Ledger/Batch.antt =====
-- The batched step of python/maxtoken/mlx_backend/worker.py tells a client about its requests as it should.
use maxtoken.Prelude.{
  append-nil, none, ℕ, List, [], ◌∷◌, ◌++◌, Option, none, some, Bool, true, not, ◌==◌, ◌≡◌, refl,
  ap, arith, if◌then◌else◌, inl, inr, Bool-cases, Option-cases, has, find, put, remove, has-put,
  has-remove, find-has, sym, Distinct, ltb, ◌||◌, ◌&&◌,
}
use mathlib.Core.Path.{subst, ◌∙◌}
use mathlib.Core.Option.{some-injective, none-ne-some}
use maxtoken.Scheduler.State.{
  Engine, Request, Scheduler, FinishReason, Reply, token, is_some, finish_reason, matched,
  remembered,
}
use maxtoken.Scheduler.Batch.{
  TokenResponse, PromptResponse, BatchStep, request_of, batch_forget, batch_remove, snapshot_prompt,
  snapshot_prompts, ended_by, take_token, take_tokens, take_last, abort_batch, halved, step_batched,
}
use maxtoken.Scheduler.Ledger.{
  Told, StepTold, put-IsDistinct, remove-IsDistinct, has_equal, follow, follow-append,
  follow-fail_all,
}

module _ {L : Type 0} where
  -- An id of the engine stands for an active request.
  pub request_of-active :
      (s : Scheduler L) (e uid : ℕ) (req : Request L)
      → request_of s e ≡ some (uid, req)
      → find uid s.active ≡ some req
  unfolding request_of
  request_of-active s e uid req h = elim (Option-cases (find e s.our_uid)) [
    | inl g ↦ absurd (none-ne-some (uid, req) (rw (g, request_of) at h))
    | inr (v, g) ↦ elim (Option-cases (find v s.active)) [
      | inl n ↦ absurd (none-ne-some (uid, req) (rw (g, n, request_of) at h))
      | inr (q, n) ↦
          let same : (v, q) ≡ (uid, req) =
            some-injective (v, q) (uid, req) (rw (g, n, request_of) at h) in
          rw (sym (ap (λ p. p.0) same), n) (ap (λ p. some p.1) same)
    ]
  ]

  pub batch_forget-active : (s : Scheduler L) (uid : ℕ) → (batch_forget s uid).active ≡ s.active
  unfolding batch_forget
  batch_forget-active s uid = elim (Option-cases (find uid s.batch_uid)) [
    | inl e ↦ rw (e, batch_forget)
    | inr (x, e) ↦ rw (e, batch_forget)
  ]

  snapshot_prompt-active :
      (s : Scheduler L) (r : PromptResponse L) → (snapshot_prompt s r).active ≡ s.active
  unfolding snapshot_prompt
  snapshot_prompt-active s r =
      elim (Bool-cases (s.has_store && (r.end_of_segment && not r.end_of_prompt))) [
        | inl e ↦ elim (Option-cases (request_of s r.engine_uid)) [
          | inl g ↦ rw (e, g, snapshot_prompt)
          | inr (x, g) ↦ elim (Option-cases r.extracted) [
            | inl c ↦ rw (e, g, c, snapshot_prompt)
            | inr (cache, c) ↦ rw (e, g, c, snapshot_prompt)
          ]
        ]
        | inr e ↦ rw (e, snapshot_prompt)
      ]

  pub snapshot_prompts-active :
      (s : Scheduler L) (responses : List (PromptResponse L))
      → (snapshot_prompts s responses).active ≡ s.active
  unfolding snapshot_prompts
  snapshot_prompts-active s [] = refl
  snapshot_prompts-active s (r ∷ responses) =
      rw (snapshot_prompts-active (snapshot_prompt s r) responses) (snapshot_prompt-active s r)

  pub halved-active : (s : Scheduler L) → (halved s).active ≡ s.active
  unfolding halved
  halved-active s = elim (Bool-cases (ltb 1 s.prefill_batch || ltb 256 s.prefill_step)) [
    | inl e ↦ rw (e, halved)
    | inr e ↦ rw (e, halved)
  ]

  pub follow-abort_batch :
      (u : ℕ) (s : Scheduler L)
      → Distinct s.active
      → follow u (has u s.active) (abort_batch s).1 ≡ some (has u (abort_batch s).0.active)
  unfolding abort_batch
  follow-abort_batch u s once =
      rw (halved-active (record s { active = []; batch_uid = []; our_uid = [] }))
        (follow-fail_all u s.active (once u))

  abort_batch-IsDistinct : (s : Scheduler L) → Distinct (abort_batch s).0.active
  unfolding abort_batch
  abort_batch-IsDistinct s =
      subst Distinct (sym (halved-active (record s { active = []; batch_uid = []; our_uid = [] })))
        (λ k. omega arith)

-- One token of a request that is active.
follow-one :
    {V : Type 0} (u uid t : ℕ) (d : List (ℕ × V)) (why : Option FinishReason) (m : Option (List ℕ))
    → has uid d ≡ true
    → follow u (has u d) (token uid t why m ∷ [])
      ≡ some (if uid == u then not (is_some why) else has u d)
unfolding follow
follow-one u uid t d why m there = elim (Bool-cases (uid == u)) [
  | inl e ↦ rw (e, has_equal uid u d e there, follow)
  | inr e ↦ rw (e, follow)
]

module _ {L : Type 0} (engine : Engine L) where
  ended_by-active :
      (s : Scheduler L) (uid : ℕ) (req : Request L) (r : TokenResponse L)
      → (ended_by engine s uid req r).active ≡ remove uid s.active
  unfolding remembered
  ended_by-active s uid req r =
      let donated = if r.done then r.cache else batch_remove s uid r.cache in
      ap (remove uid) (batch_forget-active (remembered engine s req donated) uid)

  -- What a token makes of the requests.
  after_token-active :
      (s : Scheduler L) (uid : ℕ) (req : Request L) (r : TokenResponse L)
      (why : Option FinishReason) (u : ℕ)
      → has u
          (if is_some why
            then ended_by engine s uid req r
            else record s { active = put uid req s.active }).active
        ≡ (if uid == u then not (is_some why) else has u s.active)
  after_token-active s uid req r none u = has-put uid u req s.active
  after_token-active s uid req r (some reason) u =
      rw (ended_by-active s uid req r) (has-remove uid u s.active)

  follow-take_token :
      (u : ℕ) (s : Scheduler L) (r : TokenResponse L)
      → follow u (has u s.active) (take_token engine s r).1
        ≡ some (has u (take_token engine s r).0.active)
  unfolding take_token follow
  follow-take_token u s r = elim (Option-cases (request_of s r.engine_uid)) [
    | inl e ↦ rw (e, take_token)
    | inr ((uid, req), e) ↦
        let req' : Request L = record req { output_ids = req.output_ids ++ r.next_token ∷ [] } in
        let why = finish_reason engine req' r.next_token r.done in
        rw (e, take_token, after_token-active s uid req' r why u)
          (follow-one u uid r.next_token s.active why (matched engine req' r.next_token)
            (find-has uid s.active req (request_of-active s r.engine_uid uid req e)))
  ]

  pub follow-take_tokens :
      (u : ℕ) (s : Scheduler L) (responses : List (TokenResponse L))
      → follow u (has u s.active) (take_tokens engine s responses).1
        ≡ some (has u (take_tokens engine s responses).0.active)
  unfolding take_tokens follow
  follow-take_tokens u s [] = refl
  follow-take_tokens u s (r ∷ responses) =
      rw
        (follow-append u (has u s.active) (has u (take_token engine s r).0.active)
          (take_token engine s r).1 (take_tokens engine (take_token engine s r).0 responses).1
          (follow-take_token u s r))
        (follow-take_tokens u (take_token engine s r).0 responses)

  after_token-IsDistinct :
      (s : Scheduler L) (uid : ℕ) (req : Request L) (r : TokenResponse L)
      (why : Option FinishReason)
      → Distinct s.active
      → Distinct
          (if is_some why
            then ended_by engine s uid req r
            else record s { active = put uid req s.active }).active
  after_token-IsDistinct s uid req r none once = put-IsDistinct uid req s.active once
  after_token-IsDistinct s uid req r (some reason) once =
      rw (ended_by-active s uid req r) (remove-IsDistinct uid s.active once)

  take_token-IsDistinct :
      (s : Scheduler L) (r : TokenResponse L)
      → Distinct s.active
      → Distinct (take_token engine s r).0.active
  unfolding take_token
  take_token-IsDistinct s r once = elim (Option-cases (request_of s r.engine_uid)) [
    | inl e ↦ rw (e, take_token) once
    | inr ((uid, req), e) ↦
        let req' : Request L = record req { output_ids = req.output_ids ++ r.next_token ∷ [] } in
        rw (e, take_token)
          (after_token-IsDistinct s uid req' r (finish_reason engine req' r.next_token r.done) once)
  ]

  take_tokens-IsDistinct :
      (s : Scheduler L) (responses : List (TokenResponse L))
      → Distinct s.active
      → Distinct (take_tokens engine s responses).0.active
  unfolding take_tokens
  take_tokens-IsDistinct s [] once = once
  take_tokens-IsDistinct s (r ∷ responses) once =
      take_tokens-IsDistinct (take_token engine s r).0 responses (take_token-IsDistinct s r once)

  -- The tokens of a step, after its snapshots.
  follow-taken :
      (u : ℕ) (s : Scheduler L) (step : BatchStep L)
      → let done = take_tokens engine (snapshot_prompts s step.prompts) step.tokens in
        follow u (has u s.active) done.1 ≡ some (has u done.0.active)
  follow-taken u s step =
      let s' = snapshot_prompts s step.prompts in
      let told = (take_tokens engine s' step.tokens).1 in
      ap (λ d. follow u (has u d) told) (sym (snapshot_prompts-active s step.prompts))
      ∙ follow-take_tokens u s' step.tokens

  taken-IsDistinct :
      (s : Scheduler L) (step : BatchStep L)
      → Distinct s.active
      → Distinct (take_tokens engine (snapshot_prompts s step.prompts) step.tokens).0.active
  taken-IsDistinct s step once =
      take_tokens-IsDistinct (snapshot_prompts s step.prompts) step.tokens
        (subst Distinct (sym (snapshot_prompts-active s step.prompts)) once)

  -- The errors of a step that an exception ended, after its tokens.
  follow-aborted :
      (u : ℕ) (a : Bool) (s : Scheduler L) (replies : List Reply)
      → follow u a replies ≡ some (has u s.active)
      → Distinct s.active
      → Told u a (abort_batch s).0 (replies ++ (abort_batch s).1)
  follow-aborted u a s replies told once = (
    follow-append u a (has u s.active) replies (abort_batch s).1 told ∙ follow-abort_batch u s once,
    abort_batch-IsDistinct s,
  )

  -- A step in which no exception comes in the middle of a response.
  pub step_batched-StepTold :
      (u : ℕ) (s : Scheduler L) (step : BatchStep L) (rebuilds : Bool)
      → Distinct s.active
      → step.torn ≡ none
      → StepTold u (has u s.active) (step_batched engine step rebuilds s)
  unfolding step_batched take_last
  step_batched-StepTold u s step rebuilds once whole = elim (Bool-cases step.raises) [
    | inr e ↦ rw (e, step_batched) (follow-taken u s step, taken-IsDistinct s step once)
    | inl e ↦ elim (Bool-cases rebuilds) [
      | inr g ↦ rw (e, g, step_batched) tt
      | inl g ↦
          let done = take_tokens engine (snapshot_prompts s step.prompts) step.tokens in
          rw (e, g, whole, step_batched, append-nil done.1)
            (follow-aborted u (has u s.active) done.0 done.1 (follow-taken u s step)
              (taken-IsDistinct s step once))
    ]
  ]
