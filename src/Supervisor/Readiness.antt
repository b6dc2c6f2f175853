-- ===== src/Supervisor/Readiness.antt =====
-- When the drain of the workers' acks ends, and how.
use mathlib.Core.Option.{some-injective, none-ne-some}
use maxtoken.Prelude.{
  ℕ, zero, suc, ◌+◌, take, ◌≢◌, ◌⊎◌, sym, ◌∙◌, ◌≤◌, ◌<◌, List, [], ◌∷◌, ◌++◌, Option, none, some,
  Bool, ◌≡◌, refl, ap, inl, inr, ltb, All, Bool-cases, Option-cases, arith,
}
use maxtoken.Supervisor.{
  LoadProgress, Process, Health, alive, dead, unqueryable, first_dead, Message, progressed, meta,
  failed, ready_ack, untold, told, exited_during_load, Poll, got, empty, Reason, as_error,
  drain_pending_error, or_exited, Drain, waiting, drained, died, updated, forwarded, counted,
  drain_ready,
}

-- A finding that goes on: a message that is no error, or an empty queue without a dead worker.
abbrev pub GoesOn : Poll → Type 0
GoesOn (got m) = as_error m ≡ none
GoesOn (empty processes) = first_dead processes ≡ none

-- The ready acks among the findings.
abbrev pub counts : List Poll → ℕ
counts [] = 0
counts (got m ∷ polls) = counted m + counts polls
counts (empty _ ∷ polls) = counts polls

-- Why a finding ends the load: its own reason, or the reason that still comes up for a dead worker.
abbrev EndsBy : Reason → Poll → List Poll → Type 0
EndsBy reason (got m) rest = as_error m ≡ some reason
EndsBy reason (empty processes) rest =
    (p : _) × (first_dead processes ≡ some p) × (reason ≡ or_exited (drain_pending_error 5 rest) p)

-- How a drain that has `ready` acks ends.
abbrev EndsAt : ℕ → ℕ → List Poll → Drain → Type 0
EndsAt expected ready polls waiting = All GoesOn polls × (ready + counts polls < expected)
EndsAt expected ready polls (drained rest) =
    (used : List Poll) × (polls ≡ used ++ rest) × All GoesOn used × (ready + counts used ≡ expected)
EndsAt expected ready polls (died reason) =
    (used : List Poll) × (p : Poll) × (rest : List Poll) × (polls ≡ used ++ p ∷ rest)
    × All GoesOn used
    × (ready + counts used < expected)
    × EndsBy reason p rest

later :
    (expected ready ready' n : ℕ) (p : Poll) (polls : List Poll) (d : Drain)
    → GoesOn p
    → ((used : List Poll) → counts (p ∷ used) ≡ n + counts used)
    → ready' ≡ ready + n
    → EndsAt expected ready' polls d
    → EndsAt expected ready (p ∷ polls) d
later expected ready ready' n p polls waiting q a sum' (qs, less) =
    ((q, qs), omega (arith, a polls))
later expected ready ready' n p polls (drained rest) q a sum' (used, e, qs, sum) =
    (p ∷ used, ap (◌∷◌ p) e, (q, qs), omega (arith, a used))
later expected ready ready' n p polls (died reason) q a sum' (used, bad, rest, e, qs, less, why) =
    (p ∷ used, bad, rest, ap (◌∷◌ p) e, (q, qs), omega (arith, a used), why)

counted_le : (m : Message) → counted m ≤ 1
counted_le m = ground arith

drain_ready-EndsAt :
    (expected : ℕ) (on_meta : Bool) (progress : LoadProgress) (metas : List (Option ℕ)) (ready : ℕ)
    (polls : List Poll)
    → ready ≤ expected
    → EndsAt expected ready polls (drain_ready expected on_meta progress metas ready polls).drain
unfolding drain_ready
drain_ready-EndsAt expected on_meta progress metas ready [] le =
    elim (Bool-cases (ltb ready expected)) [
      | inl y ↦ rw (y, drain_ready) (tt, ground arith)
      | inr n ↦ rw (n, drain_ready) ([], refl, tt, ground arith)
    ]
drain_ready-EndsAt expected on_meta progress metas ready (empty processes ∷ polls) le =
    elim (Bool-cases (ltb ready expected)) [
      | inr n ↦ rw n ([], refl, tt, ground arith)
      | inl y ↦ elim (Option-cases (first_dead processes)) [
        | inl quiet ↦
            rw (y, quiet)
              (later expected ready ready 0 (empty processes) polls _ quiet (λ _. omega arith)
                (omega arith) (drain_ready-EndsAt expected on_meta progress metas ready polls le))
        | inr (p, e) ↦ rw (y, e) ([], empty processes, polls, refl, tt, ground arith, (p, e, refl))
      ]
    ]
drain_ready-EndsAt expected on_meta progress metas ready (got m ∷ polls) le =
    elim (Bool-cases (ltb ready expected)) [
      | inr n ↦ rw n ([], refl, tt, ground arith)
      | inl y ↦ elim (Option-cases (as_error m)) [
        | inl quiet ↦
            rw (y, quiet)
              (later expected ready (ready + counted m) (counted m) (got m) polls _ quiet
                (λ _. refl) refl
                (drain_ready-EndsAt expected on_meta (updated progress m)
                  (forwarded on_meta metas m) (ready + counted m) polls
                  (let c = counted_le m in ground arith)))
        | inr (reason, e) ↦ rw (y, e) ([], got m, polls, refl, tt, ground arith, e)
      ]
    ]

-- The first process that is dead.
abbrev pub FirstDead : Process → List Process → Type 0
FirstDead p processes =
    (before : List Process) × (after : List Process) × (processes ≡ before ++ p ∷ after)
    × All (λ q. q.health ≢ dead) before
    × (p.health ≡ dead)

-- A finding that goes on: a message other than a failure, or an empty queue without a dead worker.
abbrev pub IsQuiet : Poll → Type 0
IsQuiet (got (failed reason)) = ⊥
IsQuiet (got (progressed desc done total)) = Unit
IsQuiet (got (meta m)) = Unit
IsQuiet (got ready_ack) = Unit
IsQuiet (empty processes) = All (λ p. p.health ≢ dead) processes

-- The ready acks among the findings.
abbrev pub acks : List Poll → ℕ
acks [] = 0
acks (got ready_ack ∷ polls) = 1 + acks polls
acks (_ ∷ polls) = acks polls

-- The reason of the first failure among the findings.
abbrev pub first_failed : List Poll → Option (Option (List ℕ))
first_failed [] = none
first_failed (got (failed reason) ∷ polls) = some reason
first_failed (_ ∷ polls) = first_failed polls

-- What is said of a dead worker: the failure that came up, unless it has an empty text.
abbrev pub blamed : Option (Option (List ℕ)) → Process → Reason
blamed (some none) p = untold
blamed (some (some (c ∷ cs))) p = told (c ∷ cs)
blamed _ p = exited_during_load p.name

-- Why a finding ends the load: the reason of a failure, or for a dead worker the one that still comes
-- up among the next five findings.
abbrev pub Blames : Reason → Poll → List Poll → Type 0
Blames reason (got (failed none)) rest = reason ≡ untold
Blames reason (got (failed (some text))) rest = reason ≡ told text
Blames reason (got (progressed desc done total)) rest = ⊥
Blames reason (got (meta m)) rest = ⊥
Blames reason (got ready_ack) rest = ⊥
Blames reason (empty processes) rest =
    (p : Process) × FirstDead p processes × (reason ≡ blamed (first_failed (take 5 rest)) p)

-- How a drain that has `ready` acks ends.
abbrev pub Ends : ℕ → ℕ → List Poll → Drain → Type 0
Ends expected ready polls waiting = All IsQuiet polls × (ready + acks polls < expected)
Ends expected ready polls (drained rest) =
    (used : List Poll) × (polls ≡ used ++ rest) × All IsQuiet used × (ready + acks used ≡ expected)
Ends expected ready polls (died reason) =
    (used : List Poll) × (p : Poll) × (rest : List Poll) × (polls ≡ used ++ p ∷ rest)
    × All IsQuiet used
    × (ready + acks used < expected)
    × Blames reason p rest

health-cases : (h : Health) → (h ≡ dead) ⊎ (h ≢ dead)
health-cases alive = inr (λ e. ground arith)
health-cases dead = inl refl
health-cases unqueryable = inr (λ e. ground arith)

first_dead-none : (ps : List Process) → first_dead ps ≡ none → All (λ p. p.health ≢ dead) ps
unfolding first_dead
first_dead-none [] h = tt
first_dead-none (p ∷ ps) h = elim (health-cases p.health) [
  | inl e ↦ absurd (none-ne-some p (sym (rw e at h)))
  | inr n ↦ (n, first_dead-none ps (ground arith))
]

first_dead-FirstDead : (ps : List Process) (p : Process) → first_dead ps ≡ some p → FirstDead p ps
unfolding first_dead
first_dead-FirstDead [] p h = absurd (none-ne-some p h)
first_dead-FirstDead (q ∷ ps) p h = elim (health-cases q.health) [
  | inl e ↦
      let same : q ≡ p = some-injective q p (rw e at h) in
      ([], ps, ap (λ r. r ∷ ps) same, tt, ap (λ (r : Process). r.health) (sym same) ∙ e)
  | inr n ↦
      let (before, after, e, quiet, fell) = first_dead-FirstDead ps p (ground arith) in
      (q ∷ before, after, ap (◌∷◌ q) e, (n, quiet), fell)
]

GoesOn-IsQuiet : (p : Poll) → GoesOn p → IsQuiet p
GoesOn-IsQuiet (got (failed none)) h = absurd (none-ne-some _ (sym h))
GoesOn-IsQuiet (got (failed (some text))) h = absurd (none-ne-some _ (sym h))
GoesOn-IsQuiet (got (progressed desc done total)) h = tt
GoesOn-IsQuiet (got (meta m)) h = tt
GoesOn-IsQuiet (got ready_ack) h = tt
GoesOn-IsQuiet (empty processes) h = first_dead-none processes h

All-IsQuiet : (polls : List Poll) → All GoesOn polls → All IsQuiet polls
All-IsQuiet [] all = tt
All-IsQuiet (p ∷ polls) all = (GoesOn-IsQuiet p all.0, All-IsQuiet polls all.1)

counts-acks : (polls : List Poll) → All GoesOn polls → counts polls ≡ acks polls
counts-acks [] all = refl
counts-acks (got (failed none) ∷ polls) all = absurd (none-ne-some _ (sym all.0))
counts-acks (got (failed (some text)) ∷ polls) all = absurd (none-ne-some _ (sym all.0))
counts-acks (got (progressed desc done total) ∷ polls) all = omega (arith, counts-acks polls all.1)
counts-acks (got (meta m) ∷ polls) all = omega (arith, counts-acks polls all.1)
counts-acks (got ready_ack ∷ polls) all = ap (λ n. 1 + n) (counts-acks polls all.1)
counts-acks (empty processes ∷ polls) all = counts-acks polls all.1

pending-blamed :
    (n : ℕ) (polls : List Poll) (p : Process)
    → or_exited (drain_pending_error n polls) p ≡ blamed (first_failed (take n polls)) p
unfolding drain_pending_error
pending-blamed zero polls p = refl
pending-blamed (suc n) [] p = refl
pending-blamed (suc n) (got (failed none) ∷ polls) p = refl
pending-blamed (suc n) (got (failed (some [])) ∷ polls) p = refl
pending-blamed (suc n) (got (failed (some (c ∷ cs))) ∷ polls) p = refl
pending-blamed (suc n) (got (progressed desc done total) ∷ polls) p = pending-blamed n polls p
pending-blamed (suc n) (got (meta m) ∷ polls) p = pending-blamed n polls p
pending-blamed (suc n) (got ready_ack ∷ polls) p = pending-blamed n polls p
pending-blamed (suc n) (empty processes ∷ polls) p = pending-blamed n polls p

EndsBy-Blames :
    (reason : Reason) (p : Poll) (rest : List Poll) → EndsBy reason p rest → Blames reason p rest
EndsBy-Blames reason (got (failed none)) rest h = sym (some-injective _ _ h)
EndsBy-Blames reason (got (failed (some text))) rest h = sym (some-injective _ _ h)
EndsBy-Blames reason (got (progressed desc done total)) rest h = absurd (none-ne-some reason h)
EndsBy-Blames reason (got (meta m)) rest h = absurd (none-ne-some reason h)
EndsBy-Blames reason (got ready_ack) rest h = absurd (none-ne-some reason h)
EndsBy-Blames reason (empty processes) rest (p, e, said) =
    (p, first_dead-FirstDead processes p e, said ∙ pending-blamed 5 rest p)

EndsAt-Ends :
    (expected ready : ℕ) (polls : List Poll) (d : Drain)
    → EndsAt expected ready polls d
    → Ends expected ready polls d
EndsAt-Ends expected ready polls waiting (quiet, less) =
    (All-IsQuiet polls quiet, omega (arith, less, counts-acks polls quiet))
EndsAt-Ends expected ready polls (drained rest) (used, e, quiet, sum) =
    (used, e, All-IsQuiet used quiet, omega (arith, sum, counts-acks used quiet))
EndsAt-Ends expected ready polls (died reason) (used, p, rest, e, quiet, less, why) = (
  used,
  p,
  rest,
  e,
  All-IsQuiet used quiet,
  omega (arith, less, counts-acks used quiet),
  EndsBy-Blames reason p rest why,
)

-- The drain ends by the findings alone: it is ready right after the expected number of acks, with no
-- failure and no death before; it fails at the first failure or death before that; and it waits as long
-- as there was neither. The reason is the failure's own. For a death it is that of the first failure among the next
-- five findings, and that the first dead worker exited where there is none or its text is empty.
pub drain_ready-Ends :
    (expected : ℕ) (on_meta : Bool) (progress : LoadProgress) (metas : List (Option ℕ)) (ready : ℕ)
    (polls : List Poll)
    → ready ≤ expected
    → Ends expected ready polls (drain_ready expected on_meta progress metas ready polls).drain
drain_ready-Ends expected on_meta progress metas ready polls le =
    EndsAt-Ends expected ready polls (drain_ready expected on_meta progress metas ready polls).drain
      (drain_ready-EndsAt expected on_meta progress metas ready polls le)
