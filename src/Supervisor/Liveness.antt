-- ===== src/Supervisor/Liveness.antt =====
-- Which calls the supervisor makes: a death after readiness is reported, and one in a shutdown is not.

use maxtoken.Prelude.{
  ℕ, ◌+◌, ◌≤◌, List, [], ◌∷◌, ◌++◌, Option, none, some, Bool, true, false, ◌≡◌, refl, ap, inl, inr,
  ltb, All, Bool-cases, Option-cases, arith,
}
use maxtoken.Supervisor.{
  LoadProgress, Process, first_dead, Poll, got, empty, exited, Drain, waiting, drained, died, Call,
  on_ready, on_failure, updated, forwarded, counted, drain_ready, watch, run_backend_supervisor,
}
use maxtoken.Supervisor.Readiness.{GoesOn, counts}

-- Enough acks, with nothing else to end the load, make the engine ready.
drain_ready-drained :
    (expected : ℕ) (on_meta : Bool) (progress : LoadProgress) (metas : List (Option ℕ)) (ready : ℕ)
    (polls : List Poll)
    → All GoesOn polls
    → expected ≤ ready + counts polls
    → (rest : List Poll) × ((drain_ready expected on_meta progress metas ready polls).drain
        ≡ drained rest)
unfolding drain_ready
drain_ready-drained expected on_meta progress metas ready [] q enough =
    let full : ltb ready expected ≡ false = ground arith in ([], rw full refl)
drain_ready-drained expected on_meta progress metas ready (empty processes ∷ polls) (quiet, q)
      enough =
    elim (Bool-cases (ltb ready expected)) [
      | inr n ↦ (empty processes ∷ polls, rw n refl)
      | inl y ↦
          rw (y, quiet) (drain_ready-drained expected on_meta progress metas ready polls q enough)
    ]
drain_ready-drained expected on_meta progress metas ready (got m ∷ polls) (quiet, q) enough =
    elim (Bool-cases (ltb ready expected)) [
      | inr n ↦ (got m ∷ polls, rw n refl)
      | inl y ↦
          rw (y, quiet)
            (drain_ready-drained expected on_meta (updated progress m) (forwarded on_meta metas m)
              (ready + counted m) polls q (omega arith))
    ]

-- Turns at which every worker lives.
abbrev pub IsAlive : List Process × Bool → Type 0
IsAlive (processes, shutting_down) = first_dead processes ≡ none

watch_death :
    (front back : List (List Process × Bool)) (processes : List Process) (p : Process)
    → All IsAlive front
    → first_dead processes ≡ some p
    → watch true (front ++ (processes, false) ∷ back) ≡ on_failure (exited p.name) ∷ []
unfolding watch
watch_death [] back processes p a e = rw (e, watch) refl
watch_death ((processes', shutting_down) ∷ front) back processes p (quiet, a) e =
    rw (quiet, watch) (watch_death front back processes p a e)

-- After the expected number of acks, with no error and no death until then, a worker that dies is
-- reported unless the engine is shutting down: all the calls are that the engine is ready, and then that
-- this worker exited.
pub run_backend_supervisor_death :
    (expected : ℕ) (on_meta shutting_down : Bool) (progress : LoadProgress) (polls : List Poll)
    (front back : List (List Process × Bool)) (processes : List Process) (p : Process)
    → All GoesOn polls
    → expected ≤ counts polls
    → All IsAlive front
    → first_dead processes ≡ some p
    → run_backend_supervisor expected on_meta true progress polls shutting_down
        (front ++ (processes, false) ∷ back)
      ≡ on_ready ∷ on_failure (exited p.name) ∷ []
unfolding run_backend_supervisor
run_backend_supervisor_death expected on_meta shutting_down progress polls front back processes p q
      enough a e =
    let (rest, d) = drain_ready-drained expected on_meta progress [] 0 polls q (omega arith) in
    rw (d, run_backend_supervisor) (ap (◌∷◌ on_ready) (watch_death front back processes p a e))

-- A call that reports no failure.
abbrev pub IsReadiness : Call → Type 0
IsReadiness on_ready = Unit
IsReadiness (on_failure _) = ⊥

watch_shutdown :
    (has_handler : Bool) (turns : List (List Process × Bool))
    → All (λ t. t.1 ≡ true) turns
    → watch has_handler turns ≡ []
unfolding watch
watch_shutdown has_handler [] s = refl
watch_shutdown has_handler ((processes, shutting_down) ∷ turns) (s, rest) =
    elim (Option-cases (first_dead processes)) [
      | inl quiet ↦ rw (quiet, watch) (watch_shutdown has_handler turns rest)
      | inr (p, e) ↦ rw (e, s, watch) refl
    ]

shutdown_at :
    (expected : ℕ) (on_meta has_handler : Bool) (progress : LoadProgress) (polls : List Poll)
    (turns : List (List Process × Bool))
    → All (λ t. t.1 ≡ true) turns
    → (d : Drain) → (drain_ready expected on_meta progress [] 0 polls).drain ≡ d
    → All IsReadiness
        (run_backend_supervisor expected on_meta has_handler progress polls true turns)
unfolding run_backend_supervisor
shutdown_at expected on_meta has_handler progress polls turns s waiting e =
    rw (e, run_backend_supervisor) tt
shutdown_at expected on_meta has_handler progress polls turns s (died reason) e =
    rw (e, run_backend_supervisor) tt
shutdown_at expected on_meta has_handler progress polls turns s (drained rest) e =
    rw (e, watch_shutdown has_handler turns s, run_backend_supervisor) (tt, tt)

-- While the engine is shutting down no death of a worker is reported, neither one in the load nor one
-- after it.
pub run_backend_supervisor_shutdown :
    (expected : ℕ) (on_meta has_handler : Bool) (progress : LoadProgress) (polls : List Poll)
    (turns : List (List Process × Bool))
    → All (λ t. t.1 ≡ true) turns
    → All IsReadiness
        (run_backend_supervisor expected on_meta has_handler progress polls true turns)
unfolding run_backend_supervisor
run_backend_supervisor_shutdown expected on_meta has_handler progress polls turns s =
    shutdown_at expected on_meta has_handler progress polls turns s
      (drain_ready expected on_meta progress [] 0 polls).drain refl
