-- ===== src/Scheduler/Ledger/Turn.antt =====
-- The round-robin step of python/maxtoken/mlx_backend/worker.py tells a client about its requests as it should.
use maxtoken.Prelude.{
  ℕ, zero, suc, ◌+◌, ◌≤◌, List, [], ◌∷◌, Option, none, some, Bool, true, false, ◌==◌, ◌≡◌, refl,
  arith, if◌then◌else◌, inl, inr, Bool-cases, has, keys, count, has-put, has-remove, has-count,
  eqb_refl, to_bit, eqb→eq, Distinct, sym,
}
use maxtoken.Scheduler.State.{
  Engine, Request, Scheduler, FinishReason, Reply, token, is_some, finish_reason, matched,
  remembered,
}
use maxtoken.Scheduler.Turn.{
  Item, exhausted, raised, working, produced, Outcome, stays, over, dropped, with_output,
  hits_length, before_reply, turn, settled, rounds_for, step_each,
}
use maxtoken.Scheduler.Ledger.{put-IsDistinct, remove-IsDistinct, has_equal, follow, follow-append}

abbrev pub is_kept : {L : Type 0} → Outcome L → Bool
is_kept (stays req) = true
is_kept (over req) = false
is_kept dropped = false

-- A token, and what follows it when it ends nothing.
follow-token_other :
    {L : Type 0} (u uid t : ℕ) (a : Bool) (why : Option FinishReason) (m : Option (List ℕ))
    (req : Request L)
    → (rest : Outcome L × List Reply) → (uid == u) ≡ false
    → follow u a rest.1 ≡ some a
    → follow u a (before_reply (token uid t why m) (if is_some why then (over req, []) else rest)).1
      ≡ some a
unfolding follow
follow-token_other u uid t a none m req rest h later = rw (h, follow) later
follow-token_other u uid t a (some reason) m req rest h later = rw (h, follow)

follow-token_own :
    {L : Type 0} (u uid t : ℕ) (why : Option FinishReason) (m : Option (List ℕ)) (req : Request L)
    → (rest : Outcome L × List Reply) → (uid == u) ≡ true
    → follow u true rest.1 ≡ some (is_kept rest.0)
    → let all = before_reply (token uid t why m) (if is_some why then (over req, []) else rest) in
      follow u true all.1 ≡ some (is_kept all.0)
unfolding follow
follow-token_own u uid t none m req rest h later = rw (h, follow) later
follow-token_own u uid t (some reason) m req rest h later = rw (h, follow)

-- A key of the rest is not the first one.
differs :
    {V : Type 0} (k uid : ℕ) (d : List (ℕ × V))
    → to_bit (uid == uid) + count uid (keys d) ≤ 1
    → has k d ≡ true
    → (uid == k) ≡ false
differs k uid d once h = elim (Bool-cases (uid == k)) [
  | inl e ↦ absurd (ground (arith, eqb_refl uid, has-count uid d, rw (sym (eqb→eq uid k e)) at h))
  | inr e ↦ e
]

module _ {L : Type 0} (engine : Engine L) where
  follow-turn_other :
      (u max_seq_len rounds : ℕ) (items : List Item) (uid : ℕ) (req : Request L) (a : Bool)
      → (uid == u) ≡ false
      → follow u a (turn engine max_seq_len rounds items uid req).1 ≡ some a
  unfolding turn follow
  follow-turn_other u m zero items uid req a h = refl
  follow-turn_other u m (suc rounds) [] uid req a h = rw (h, follow)
  follow-turn_other u m (suc rounds) (exhausted ∷ items) uid req a h = rw (h, follow)
  follow-turn_other u m (suc rounds) (raised ∷ items) uid req a h = rw (h, follow)
  follow-turn_other u m (suc rounds) (working ∷ items) uid req a h = refl
  follow-turn_other u m (suc rounds) (produced t ∷ items) uid req a h =
      let req' = with_output req t in
      follow-token_other u uid t a (finish_reason engine req' t (hits_length m req'))
        (matched engine req' t) req' (turn engine m rounds items uid req') h
        (follow-turn_other u m rounds items uid req' a h)

  follow-turn_own :
      (u max_seq_len rounds : ℕ) (items : List Item) (uid : ℕ) (req : Request L)
      → (uid == u) ≡ true
      → follow u true (turn engine max_seq_len rounds items uid req).1
        ≡ some (is_kept (turn engine max_seq_len rounds items uid req).0)
  unfolding turn follow
  follow-turn_own u m zero items uid req h = refl
  follow-turn_own u m (suc rounds) [] uid req h = rw (h, follow)
  follow-turn_own u m (suc rounds) (exhausted ∷ items) uid req h = rw (h, follow)
  follow-turn_own u m (suc rounds) (raised ∷ items) uid req h = rw (h, follow)
  follow-turn_own u m (suc rounds) (working ∷ items) uid req h = refl
  follow-turn_own u m (suc rounds) (produced t ∷ items) uid req h =
      let req' = with_output req t in
      follow-token_own u uid t (finish_reason engine req' t (hits_length m req'))
        (matched engine req' t) req' (turn engine m rounds items uid req') h
        (follow-turn_own u m rounds items uid req' h)

  has-settled :
      (u uid : ℕ) (s : Scheduler L) (outcome : Outcome L)
      → has u (settled engine s uid outcome).active
        ≡ (if uid == u then is_kept outcome else has u s.active)
  unfolding remembered
  has-settled u uid s (stays req) = has-put uid u req s.active
  has-settled u uid s (over req) = has-remove uid u s.active
  has-settled u uid s dropped = has-remove uid u s.active

  -- One request's turn.
  follow-settled :
      (u max_seq_len rounds : ℕ) (items : List Item) (uid : ℕ) (req : Request L) (s : Scheduler L)
      → has uid s.active ≡ true
      → let done = turn engine max_seq_len rounds items uid req in
        follow u (has u s.active) done.1 ≡ some (has u (settled engine s uid done.0).active)
  follow-settled u m rounds items uid req s there = elim (Bool-cases (uid == u)) [
    | inl e ↦
        rw
          (
            has-settled u uid s (turn engine m rounds items uid req).0,
            has_equal uid u s.active e there,
            e,
          )
          (follow-turn_own u m rounds items uid req e)
    | inr e ↦
        rw (has-settled u uid s (turn engine m rounds items uid req).0, e)
          (follow-turn_other u m rounds items uid req (has u s.active) e)
  ]

  settled-keeps :
      (k uid : ℕ) (s : Scheduler L) (outcome : Outcome L)
      → (uid == k) ≡ false
      → has k s.active ≡ true
      → has k (settled engine s uid outcome).active ≡ true
  settled-keeps k uid s outcome e h = rw (has-settled k uid s outcome, e) h

  -- The loop over requests that are all active, none of them twice.
  pub follow-step_each :
      (u : ℕ) (busy : Bool) (items : ℕ → List Item) (s : Scheduler L) (todo : List (ℕ × Request L))
      → Distinct todo
      → ((k : ℕ) → has k todo ≡ true → has k s.active ≡ true)
      → let done = step_each engine busy items s todo in
        follow u (has u s.active) done.1 ≡ some (has u done.0.active)
  unfolding step_each follow
  follow-step_each u busy items s [] once there = refl
  follow-step_each u busy items s ((uid, req) ∷ todo) once there =
      let done = turn engine s.max_seq_len (rounds_for busy req) (items uid) uid req in
      rw
        (follow-append u (has u s.active) (has u (settled engine s uid done.0).active) done.1
          (step_each engine busy items (settled engine s uid done.0) todo).1
          (follow-settled u s.max_seq_len (rounds_for busy req) (items uid) uid req s
            (there uid (ground arith))))
        (follow-step_each u busy items (settled engine s uid done.0) todo
          (λ k. omega (arith, once k))
          (λ k h.
            settled-keeps k uid s done.0 (differs k uid todo (once uid) h)
              (there k (ground arith))))

  settled-IsDistinct :
      (uid : ℕ) (s : Scheduler L) (outcome : Outcome L)
      → Distinct s.active
      → Distinct (settled engine s uid outcome).active
  unfolding remembered
  settled-IsDistinct uid s (stays req) once = put-IsDistinct uid req s.active once
  settled-IsDistinct uid s (over req) once = remove-IsDistinct uid s.active once
  settled-IsDistinct uid s dropped once = remove-IsDistinct uid s.active once

  pub step_each-IsDistinct :
      (busy : Bool) (items : ℕ → List Item) (s : Scheduler L) (todo : List (ℕ × Request L))
      → Distinct s.active
      → Distinct (step_each engine busy items s todo).0.active
  unfolding step_each
  step_each-IsDistinct busy items s [] once = once
  step_each-IsDistinct busy items s ((uid, req) ∷ todo) once =
      let done = turn engine s.max_seq_len (rounds_for busy req) (items uid) uid req in
      step_each-IsDistinct busy items (settled engine s uid done.0) todo
        (settled-IsDistinct uid s done.0 once)
