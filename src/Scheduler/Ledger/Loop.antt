-- ===== src/Scheduler/Ledger/Loop.antt =====
-- The loop of python/maxtoken/mlx_backend/worker.py tells a client about its requests as it should: messages, steps
-- and rounds together.
use maxtoken.Prelude.{
  ℕ, List, [], ◌∷◌, ◌++◌, Option, none, some, Bool, true, false, not, ◌==◌, ◌&&◌, ◌≡◌, refl, ap,
  sym, ◌∙◌, if◌then◌else◌, inl, inr, Bool-cases, Option-cases, length, leb, ltb, find, has, put,
  remove, has-put, has-remove, Distinct, eqb→eq,
}
use mathlib.Core.Path.{subst}
use maxtoken.Scheduler.State.{
  Engine, Sampling, Scheduler, Failure, cannot_start, context_length_exceeded, Reply, error_reply,
  admitted, remembered,
}
use maxtoken.Scheduler.Turn.{step_round_robin, any_prefilling}
use maxtoken.Scheduler.Batch.{step_batched}
use maxtoken.Scheduler.Loop.{
  Start, Message, user, abort, rebuild, exit_msg, unexpected, new_request, is_empty, admit,
  handle_user, handle_rebuild, handle_abort, handle, handle_all, Input, Round, goes_on, leaves,
  dies, step, run_round,
}
use maxtoken.Scheduler.Ledger.{
  is_of_open, follow, follow-append, follow-own, Told, StepTold, put-IsDistinct, remove-IsDistinct,
}
use maxtoken.Scheduler.Ledger.Turn.{follow-step_each, step_each-IsDistinct}
use maxtoken.Scheduler.Ledger.Batch.{batch_forget-active, step_batched-StepTold}

-- A request is new to the worker, and the request `u` is not aborted.
abbrev pub Fits : {L : Type 0} → ℕ → Scheduler L → Message L → Type 0
Fits u s (user v input_ids sampling start) = has v s.active ≡ false
Fits u s (abort v removed) = (v == u) ≡ false
Fits u s (rebuild id moe_cache_size max_seq_len total) = Unit
Fits u s exit_msg = Unit
Fits u s unexpected = Unit

-- A predicate that holds of both branches.
either : {A : Type 0} (P : A → Type 0) (b : Bool) (x y : A) → P x → P y → P (if b then x else y)
either P true x y h k = h
either P false x y h k = k

-- A refusal of a request that is not active.
follow-refused :
    {V : Type 0} (u uid : ℕ) (d : List (ℕ × V)) (f : Failure)
    → has uid d ≡ false
    → is_of_open f ≡ false
    → follow u (has u d) (error_reply uid f ∷ []) ≡ some (has u d)
unfolding follow
follow-refused u uid d f new h = elim (Bool-cases (uid == u)) [
  | inl e ↦
      let closed : has u d ≡ false = subst (λ k. has k d ≡ false) (eqb→eq uid u e) new in
      rw closed (follow-own u false false (error_reply uid f) [] e (rw h))
  | inr e ↦ rw (e, follow)
]

follow-admitted :
    {V : Type 0} (u uid n cached : ℕ) (x : V) (d : List (ℕ × V))
    → has uid d ≡ false
    → follow u (has u d) (admitted uid n cached ∷ []) ≡ some (has u (put uid x d))
unfolding follow
follow-admitted u uid n cached x d new = elim (Bool-cases (uid == u)) [
  | inl e ↦ rw (has-put uid u x d, e, rw (eqb→eq uid u e) at new, follow)
  | inr e ↦ rw (has-put uid u x d, e, follow)
]

module _ {L : Type 0} where
  handle_user-Told :
      (u : ℕ) (s : Scheduler L) (uid : ℕ) (input_ids : List ℕ) (sampling : Sampling)
      (start : Start L)
      → has uid s.active ≡ false
      → Distinct s.active
      → let done = handle_user s uid input_ids sampling start in
        Told u (has u s.active) done.0 done.1
  unfolding handle_user admit follow
  handle_user-Told u s uid input_ids sampling start new once =
      elim (Bool-cases (leb s.max_seq_len (length input_ids))) [
        | inl a ↦
            rw (a, handle_user)
              (follow-refused u uid s.active context_length_exceeded new refl, once)
        | inr a ↦ elim (Bool-cases (not start.works)) [
          | inl b ↦
              rw (a, b, handle_user) (follow-refused u uid s.active cannot_start new refl, once)
          | inr b ↦
              let req = new_request s input_ids sampling start in
              rw (a, b, handle_user)
                (
                  follow-admitted u uid (length input_ids) start.cached req s.active new,
                  put-IsDistinct uid req s.active once,
                )
        ]
      ]

  handle_rebuild-active :
      (s : Scheduler L) (moe_cache_size max_seq_len total : ℕ)
      → (handle_rebuild s moe_cache_size max_seq_len total).0.active ≡ s.active
  unfolding handle_rebuild
  handle_rebuild-active s moe_cache_size max_seq_len total =
      elim (Bool-cases (moe_cache_size == 0 && max_seq_len == 0)) [
        | inl a ↦ rw (a, handle_rebuild)
        | inr a ↦ elim (Bool-cases (ltb 0 moe_cache_size && not s.has_experts)) [
          | inl b ↦ rw (a, b, handle_rebuild)
          | inr b ↦ elim (Bool-cases (not (is_empty s.active))) [
            | inl c ↦ rw (a, b, c, handle_rebuild)
            | inr c ↦ rw (a, b, c, handle_rebuild)
          ]
        ]
      ]

module _ {L : Type 0} (engine : Engine L) where
  handle_abort-Told :
      (u : ℕ) (s : Scheduler L) (uid : ℕ) (removed : Option (List L))
      → (uid == u) ≡ false
      → Distinct s.active
      → Told u (has u s.active) (handle_abort engine s uid removed) []
  unfolding handle_abort follow remembered
  handle_abort-Told u s uid removed other once = elim (Option-cases (find uid s.active)) [
    | inl e ↦ rw (e, handle_abort) (refl, once)
    | inr (req, e) ↦
        let gone : Scheduler L = record s { active = remove uid s.active } in
        rw (e, handle_abort)
          (
            ap some (
                sym (
                  ap (has u) (batch_forget-active gone uid)
                  ∙ has-remove uid u s.active
                  ∙ rw other)),
            subst Distinct (sym (batch_forget-active gone uid))
                (remove-IsDistinct uid s.active once),
          )
  ]

  handle-Told :
      (u : ℕ) (s : Scheduler L) (m : Message L)
      → Fits u s m
      → Distinct s.active
      → Told u (has u s.active) (handle engine s m).0 (handle engine s m).1
  unfolding handle follow
  handle-Told u s (user v ids sampling start) fits once =
      handle_user-Told u s v ids sampling start fits once
  handle-Told u s (abort v removed) fits once = handle_abort-Told u s v removed fits once
  handle-Told u s (rebuild id n ctx total) fits once = (
    ap (λ d. some (has u d)) (sym (handle_rebuild-active s n ctx total)),
    subst Distinct (sym (handle_rebuild-active s n ctx total)) once,
  )
  handle-Told u s exit_msg fits once = (refl, once)
  handle-Told u s unexpected fits once = (refl, once)

  -- Each message fits the state in which it is handled.
  unfoldable pub AllFit : ℕ → Scheduler L → List (Message L) → Type 0
  AllFit u s [] = Unit
  AllFit u s (m ∷ messages) = Fits u s m × AllFit u (handle engine s m).0 messages

  -- Replies after replies.
  pub Told-append :
      (u : ℕ) (a : Bool) (s s' : Scheduler L) (first later : List Reply)
      → Told u a s first
      → Told u (has u s.active) s' later
      → Told u a s' (first ++ later)
  Told-append u a s s' first later h k =
      (follow-append u a (has u s.active) first later h.0 ∙ k.0, k.1)

  handle_all-Told :
      (u : ℕ) (s : Scheduler L) (messages : List (Message L))
      → AllFit u s messages
      → Distinct s.active
      → Told u (has u s.active) (handle_all engine s messages).0 (handle_all engine s messages).1
  unfolding handle_all follow AllFit
  handle_all-Told u s [] fits once = (refl, once)
  handle_all-Told u s (m ∷ messages) fits once =
      let now = handle engine s m in
      let told = handle-Told u s m fits.0 once in
      elim (Bool-cases now.2) [
        | inl e ↦ rw e told
        | inr e ↦
            let rest = handle_all engine now.0 messages in
            rw e (
              Told-append u (has u s.active) now.0 rest.0 now.1 rest.1 told
                (handle_all-Told u now.0 messages fits.1 told.1))
      ]

  step-StepTold :
      (u : ℕ) (input : Input engine) (s : Scheduler L)
      → Distinct s.active
      → input.step.torn ≡ none
      → StepTold u (has u s.active) (step engine input s)
  unfolding step step_round_robin
  step-StepTold u input s once whole =
      let busy = any_prefilling s.active in
      either (StepTold u (has u s.active)) s.batched
        (step_batched engine input.step input.rebuilds s)
        (some (step_round_robin engine input.items s))
        (step_batched-StepTold engine u s input.step input.rebuilds once whole)
        (
          follow-step_each engine u busy input.items s s.active once (λ k h. h),
          step_each-IsDistinct engine busy input.items s s.active once,
        )

  -- What a round tells: all of it may be told, and afterwards what is active is what is open.
  abbrev pub RoundTold : ℕ → Bool → Round engine → Type 0
  RoundTold u is_open (goes_on s replies) = Told u is_open s replies
  RoundTold u is_open (leaves replies) = (b : Bool) × (follow u is_open replies ≡ some b)
  RoundTold u is_open (dies replies) = (b : Bool) × (follow u is_open replies ≡ some b)

  after_step-RoundTold :
      (u : ℕ) (a : Bool) (s : Scheduler L) (replies : List Reply)
      (o : Option (Scheduler L × List Reply))
      → Told u a s replies
      → StepTold u (has u s.active) o
      → RoundTold u a
          (elim o [ none ↦ dies replies | some (s'', later) ↦ goes_on s'' (replies ++ later) ])
  after_step-RoundTold u a s replies none told h = (has u s.active, told.0)
  after_step-RoundTold u a s replies (some (s'', later)) told h =
      Told-append u a s s'' replies later told h

  pub run_round-RoundTold :
      (u : ℕ) (input : Input engine) (s : Scheduler L)
      → AllFit u s input.messages
      → Distinct s.active
      → input.step.torn ≡ none
      → RoundTold u (has u s.active) (run_round engine input s)
  unfolding run_round
  run_round-RoundTold u input s fits once whole =
      let got = handle_all engine s input.messages in
      let told = handle_all-Told u s input.messages fits once in
      elim (Bool-cases got.2) [
        | inl e ↦ rw e (has u got.0.active, told.0)
        | inr e ↦ elim (Bool-cases (is_empty got.0.active)) [
          | inl g ↦ rw (e, g) told
          | inr g ↦
              rw (e, g)
                (after_step-RoundTold u (has u s.active) got.0 got.1 (step engine input got.0) told
                  (step-StepTold u input got.0 told.1 whole))
        ]
      ]
