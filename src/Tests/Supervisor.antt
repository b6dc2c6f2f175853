-- ===== src/Tests/Supervisor.antt =====
-- Two workers that load, and one that dies later.
use maxtoken.Prelude.{List, [], ◌∷◌, ◌++◌, none, some, true, false, ◌≡◌, refl, arith}
use maxtoken.Supervisor.{
  LoadProgress, Process, alive, dead, unqueryable, Poll, got, empty, progressed, ready_ack, meta,
  failed, exited, on_ready, on_failure, drain_ready, run_backend_supervisor, first_dead,
}
use maxtoken.Supervisor.Readiness.{Ends, drain_ready-Ends}
use maxtoken.Supervisor.Liveness.{run_backend_supervisor_death}

abbrev worker : Process
worker = record { name = 119 ∷ []; health = alive }

abbrev mute : Process
mute = record { name = 109 ∷ []; health = unqueryable }

abbrev fallen : Process
fallen = record { name = 119 ∷ []; health = dead }

abbrev at_start : LoadProgress
at_start = record { desc = []; done_bytes = 0; total_bytes = 0 }

abbrev load : List Poll
load =
    got (progressed (120 ∷ []) 1 10)
    ∷ empty (worker ∷ mute ∷ [])
    ∷ got ready_ack
    ∷ got (meta none)
    ∷ got ready_ack
    ∷ []

abbrev broken : List Poll
broken = got ready_ack ∷ empty (worker ∷ fallen ∷ []) ∷ got (failed (some (111 ∷ []))) ∷ []

drain_ready-Ends_example : Ends 2 0 broken (drain_ready 2 false at_start [] 0 broken).drain
drain_ready-Ends_example = drain_ready-Ends 2 false at_start [] 0 broken (omega arith)

run_backend_supervisor_death_example :
    run_backend_supervisor 2 false true at_start load false
      ((worker ∷ mute ∷ [], false) ∷ [] ++ (worker ∷ fallen ∷ [], false) ∷ (worker ∷ [], true) ∷ [])
    ≡ on_ready ∷ on_failure (exited (119 ∷ [])) ∷ []
unfolding first_dead
run_backend_supervisor_death_example =
    run_backend_supervisor_death 2 false false at_start load ((worker ∷ mute ∷ [], false) ∷ [])
      ((worker ∷ [], true) ∷ []) (worker ∷ fallen ∷ []) fallen
      (refl, (refl, (refl, (refl, (refl, tt))))) (omega arith) (refl, tt) refl
