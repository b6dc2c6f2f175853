-- ===== src/Scheduler/Bounds.antt =====
-- The lengths of the requests that the round-robin step of python/maxtoken/mlx_backend/worker.py keeps.
use maxtoken.Prelude.{
  ℕ, zero, suc, ◌+◌, ◌≤◌, ◌<◌, List, [], ◌∷◌, Bool, true, false, ◌==◌, ◌≡◌, refl, arith,
  if◌then◌else◌, inl, inr, Bool-cases, length, length-append, put, remove, All,
}
use mathlib.Core.Path.{subst, sym, ◌∙◌}
use maxtoken.Scheduler.State.{
  Engine, Request, Scheduler, Reply, token, is_some, finish_reason, matched, remembered,
}
use maxtoken.Scheduler.Turn.{
  Item, exhausted, raised, working, produced, Outcome, stays, over, dropped, with_output,
  hits_length, before_reply, turn, settled, rounds_for, step_each, step_round_robin, any_prefilling,
}

-- The test of the lengths lets the request go on.
abbrev Unended : {L : Type 0} → ℕ → Request L → Type 0
Unended max_seq_len req = hits_length max_seq_len req ≡ false

-- The request has tokens left of its `max_tokens`, and room left in the context.
abbrev pub IsWithin : {L : Type 0} → ℕ → Request L → Type 0
IsWithin max_seq_len req =
    (length req.output_ids < req.sampling.max_tokens)
    × (length req.prompt_ids + length req.output_ids < max_seq_len)

IsWithin-Unended : {L : Type 0} (m : ℕ) (req : Request L) → IsWithin m req → Unended m req
IsWithin-Unended m req (a, b) = ground arith

Unended-IsWithin : {L : Type 0} (m : ℕ) (req : Request L) → Unended m req → IsWithin m req
Unended-IsWithin m req h = (ground arith, ground arith)

All-to :
    {V : Type 0} {P Q : V → Type 0} (d : List (ℕ × V))
    → ((v : V) → P v → Q v)
    → All (λ e. P e.1) d
    → All (λ e. Q e.1) d
All-to [] f all = tt
All-to (e ∷ d) f all = (f e.1 all.0, All-to d f all.1)

-- A request that stays is within its lengths, and has grown by the tokens that were sent.
abbrev Grown : {L : Type 0} → ℕ → Request L → Outcome L → List Reply → Type 0
Grown max_seq_len req (stays req') replies =
    Unended max_seq_len req' × (length req'.output_ids ≡ length req.output_ids + length replies)
Grown max_seq_len req (over req') replies = 1 ≤ length replies
Grown max_seq_len req dropped replies = 1 ≤ length replies

put-All :
    {V : Type 0} (P : V → Type 0) (k : ℕ) (v : V) (d : List (ℕ × V))
    → P v
    → All (λ e. P e.1) d
    → All (λ e. P e.1) (put k v d)
unfolding put
put-All P k v [] p all = (p, tt)
put-All P k v ((j, w) ∷ d) p all = elim (Bool-cases (j == k)) [
  | inl e ↦ rw e (p, all.1)
  | inr e ↦ rw e (all.0, put-All P k v d p all.1)
]

remove-All :
    {V : Type 0} (P : V → Type 0) (k : ℕ) (d : List (ℕ × V))
    → All (λ e. P e.1) d
    → All (λ e. P e.1) (remove k d)
unfolding remove
remove-All P k [] all = all
remove-All P k ((j, w) ∷ d) all = elim (Bool-cases (j == k)) [
  | inl e ↦ rw e (remove-All P k d all.1)
  | inr e ↦ rw e (all.0, remove-All P k d all.1)
]

-- A request that a length ends does not go on.
module _ {L : Type 0} (engine : Engine L) where
  finish_reason_none :
      (req : Request L) (t : ℕ) (is_over : Bool)
      → is_some (finish_reason engine req t is_over) ≡ false
      → is_over ≡ false
  finish_reason_none req t is_over h = ground arith

  turn_token-Grown :
      (m : ℕ) (req req' : Request L) (r : Reply) (ends : Bool) (rest : Outcome L × List Reply)
      → length req'.output_ids ≡ length req.output_ids + 1
      → (ends ≡ false → Grown m req' rest.0 rest.1)
      → let all = before_reply r (if ends then (over req', []) else rest) in Grown m req all.0 all.1
  turn_token-Grown m req req' r true rest one later = omega arith
  turn_token-Grown m req req' r false (stays q, replies) one later =
      ((later refl).0, omega (arith, one, (later refl).1))
  turn_token-Grown m req req' r false (over q, replies) one later = omega arith
  turn_token-Grown m req req' r false (dropped, replies) one later = omega arith

  turn-Grown :
      (m rounds : ℕ) (items : List Item) (uid : ℕ) (req : Request L)
      → Unended m req
      → let done = turn engine m rounds items uid req in Grown m req done.0 done.1
  unfolding turn
  turn-Grown m zero items uid req within = (within, omega arith)
  turn-Grown m (suc rounds) [] uid req within = omega arith
  turn-Grown m (suc rounds) (exhausted ∷ items) uid req within = omega arith
  turn-Grown m (suc rounds) (raised ∷ items) uid req within = omega arith
  turn-Grown m (suc rounds) (working ∷ items) uid req within = (within, omega arith)
  turn-Grown m (suc rounds) (produced t ∷ items) uid req within =
      let req' = with_output req t in
      let why = finish_reason engine req' t (hits_length m req') in
      turn_token-Grown m req req' (token uid t why (matched engine req' t)) (is_some why)
        (turn engine m rounds items uid req') (length-append req.output_ids (t ∷ []))
        (λ e. turn-Grown m rounds items uid req' (finish_reason_none req' t (hits_length m req') e))

  settled-All :
      (m uid : ℕ) (s : Scheduler L) (req : Request L) (outcome : Outcome L) (replies : List Reply)
      → All (λ e. Unended m e.1) s.active
      → Grown m req outcome replies
      → All (λ e. Unended m e.1) (settled engine s uid outcome).active
  unfolding remembered
  settled-All m uid s req (stays q) replies all grown =
      put-All (Unended m) uid q s.active grown.0 all
  settled-All m uid s req (over q) replies all grown = remove-All (Unended m) uid s.active all
  settled-All m uid s req dropped replies all grown = remove-All (Unended m) uid s.active all

  settled-max_seq_len :
      (uid : ℕ) (s : Scheduler L) (outcome : Outcome L)
      → (settled engine s uid outcome).max_seq_len ≡ s.max_seq_len
  unfolding remembered
  settled-max_seq_len uid s (stays req) = refl
  settled-max_seq_len uid s (over req) = refl
  settled-max_seq_len uid s dropped = refl

  step_each-All :
      (m : ℕ) (busy : Bool) (items : ℕ → List Item) (s : Scheduler L) (todo : List (ℕ × Request L))
      → s.max_seq_len ≡ m
      → All (λ e. Unended m e.1) s.active
      → All (λ e. Unended m e.1) todo
      → All (λ e. Unended m e.1) (step_each engine busy items s todo).0.active
  unfolding step_each
  step_each-All m busy items s [] same all todo_all = all
  step_each-All m busy items s ((uid, req) ∷ todo) same all todo_all =
      let done = turn engine s.max_seq_len (rounds_for busy req) (items uid) uid req in
      let grown : Grown m req done.0 done.1 =
        subst (λ x. Grown x req done.0 done.1) same
          (turn-Grown s.max_seq_len (rounds_for busy req) (items uid) uid req
            (subst (λ x. Unended x req) (sym same) todo_all.0)) in
      step_each-All m busy items (settled engine s uid done.0) todo
        (settled-max_seq_len uid s done.0 ∙ same) (settled-All m uid s req done.0 done.1 all grown)
        todo_all.1

  -- If no active request has reached its `max_tokens` or, with its prompt, the context length, then none has after
  -- a round-robin step, whatever the generators do.
  pub step_round_robin-All :
      (items : ℕ → List Item) (s : Scheduler L)
      → All (λ e. IsWithin s.max_seq_len e.1) s.active
      → All (λ e. IsWithin s.max_seq_len e.1) (step_round_robin engine items s).0.active
  unfolding step_round_robin
  step_round_robin-All items s all =
      let m = s.max_seq_len in
      let before = All-to s.active (IsWithin-Unended m) all in
      All-to (step_each engine (any_prefilling s.active) items s s.active).0.active
        (Unended-IsWithin m)
        (step_each-All m (any_prefilling s.active) items s s.active refl before before)
