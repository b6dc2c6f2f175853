-- ===== src/Serve/Threads.antt =====
-- The manager among its threads. One thread at a time holds the lifecycle lock and runs a start, a stop
-- or a shutdown, in steps; a monitor for each child runs `_reap` in between, at any time, and so do
-- status polls. `switch` is a stop and a start. A world is the manager, what the holder of the lock is
-- doing, the monitors that are in `_reap`, and the identities that were sent a signal, each with the receipt that the
-- stop had.
pub mod Safety
pub mod Reach
pub mod Latch
use maxtoken.Prelude.{
  ℕ, List, [], ◌∷◌, Option, none, some, Bool, true, false, ◌≡◌, ◌==◌, ◌||◌, if◌then◌else◌, find,
  put, remove,
}
use maxtoken.Serve.Receipt.{Snapshot, Label, Receipt, Prepared}
use maxtoken.Serve.Manager.{
  Child, ExitInfo, Manager, is_child, StartCheck, aborted, refused, waits, spawns, already,
  start_check, spawn_failed, spawned, StopCheck, waiting, nothing, stops, stop_check, stop_failed,
  begin_shutdown, shutdown_failed, prepare_accounting, observe_accounting, readopt, reap_account,
  reap_clear,
}

-- What the thread that holds the lifecycle lock is about to do. The flag of a stop says whether it is
-- part of a shutdown.
pub data Task : Type 0 where
  idle : Task
  spawning : List ℕ → ℕ → List ℕ → Task
  preparing : Child → Option (List ℕ) → Option ℕ → Bool → Bool → Task
  signalling : Child → Receipt → Bool → Task

-- What a monitor in `_reap` has read: whether a stop was under way, whether the child was the manager's, and
-- the model; and whether it has seen to the receipt.
pub record Reaping : Type 0 where
  pub was_stopping : Bool
  pub is_current : Bool
  pub model : Option (List ℕ)
  pub accounted : Bool

pub record World : Type 0 where
  pub manager : Manager
  pub task : Task
  pub reaping : List (ℕ × Reaping)
  pub signalled : List (ℕ × Receipt)

abbrev pub start_task : StartCheck → List ℕ → ℕ → List ℕ → Task
start_task spawns model port args = spawning model port args
start_task _ model port args = idle

abbrev pub stop_task : StopCheck → Option (List ℕ) → Option ℕ → Bool → Bool → Task
stop_task (stops c) model port force final = preparing c model port force final
stop_task _ model port force final = idle

-- After the receipt: the stop goes on to signal, or it failed, which also ends a shutdown.
abbrev pub reopened : Bool → Manager → Manager
reopened final m = if final then shutdown_failed m else m

abbrev pub prepared_world : World → Child → Bool → Manager × Option Receipt → World
prepared_world w c final (m, none) = record w {
  manager = reopened final (stop_failed m c);
  task = idle;
}
prepared_world w c final (m, some r) = record w { manager = m; task = signalling c r final }

abbrev pub start_world : World → List ℕ → ℕ → List ℕ → Manager × StartCheck → World
start_world w model port args (m, check) = record w {
  manager = m;
  task = start_task check model port args;
}

abbrev pub stop_world : World → Bool → Bool → Manager × StopCheck → World
stop_world w force final (m, check) = record w {
  manager = m;
  task = stop_task check w.manager.model w.manager.port force final;
}

-- `self._stopping or self._stop_requested`
abbrev pub under_stop : Manager → Bool
under_stop m = m.stopping || m.stop_requested

module _ (uuid : Label → ℕ) where
  pub data Step : World → World → Type 0 where
    -- `start`, of a client or of a restart after a crash
    start_called :
        (w : World) (auto : Bool) (model : List ℕ) (port : ℕ) (args : List ℕ)
        → w.task ≡ idle
        → Step w (start_world w model port args (start_check w.manager auto model port args))
    spawn_raised :
        (w : World) (model : List ℕ) (port : ℕ) (args : List ℕ)
        → w.task ≡ spawning model port args
        → Step w (record w { manager = spawn_failed w.manager; task = idle })
    spawn_returned :
        (w : World) (now : ℕ) (c : Child) (model : List ℕ) (port : ℕ) (args : List ℕ)
        → w.task ≡ spawning model port args
        → Step w (record w { manager = spawned w.manager now c model port args; task = idle })
    stop_called :
        (w : World) (force : Bool)
        → w.task ≡ idle
        → Step w (stop_world w force false (stop_check w.manager))
    shutdown_called :
        (w : World) (force : Bool)
        → w.task ≡ idle
        → Step w (stop_world w force true (stop_check (begin_shutdown w.manager)))
    accounted :
        (w : World) (now : ℕ) (c : Child) (model : Option (List ℕ)) (port : Option ℕ)
        (force final : Bool) (prepared : Prepared) (stats : Option Snapshot) (written : Bool)
        → w.task ≡ preparing c model port force final
        → Step w (
            prepared_world w c final
              (prepare_accounting uuid w.manager now c model port prepared stats force written))
    -- `SIGTERM` or `SIGKILL`
    signal_sent :
        (w : World) (c : Child) (r : Receipt) (final : Bool)
        → w.task ≡ signalling c r final
        → Step w (record w { signalled = (c.identity, r) ∷ w.signalled })
    -- `reaped` was set, which a monitor does after it has forgotten the child
    stop_ended :
        (w : World) (c : Child) (r : Receipt) (final : Bool)
        → w.task ≡ signalling c r final
        → is_child w.manager.child c ≡ false
        → Step w (record w { task = idle })
    stop_gave_up :
        (w : World) (c : Child) (r : Receipt) (final : Bool)
        → w.task ≡ signalling c r final
        → Step w (record w { manager = reopened final (stop_failed w.manager c); task = idle })
    -- the sections of `_reap`: it reads the manager's state, sees to the receipt and, where that fails, sets
    -- the latch, and forgets the child
    reap_began :
        (w : World) (c : Child)
        → Step w (record w {
          reaping =
              put c.identity
                (record {
                  was_stopping = under_stop w.manager;
                  is_current = is_child w.manager.child c;
                  model = w.manager.model;
                  accounted = false;
                })
                w.reaping;
        })
    reap_accounted :
        (w : World) (now : ℕ) (c : Child) (p : Reaping) (written : Bool)
        → find c.identity w.reaping ≡ some p
        → p.accounted ≡ false
        → Step w (record w {
          manager = reap_account uuid w.manager now c p.model p.was_stopping p.is_current written;
          reaping = put c.identity (record p { accounted = true }) w.reaping;
        })
    reap_ended :
        (w : World) (c : Child) (info : ExitInfo) (p : Reaping)
        → find c.identity w.reaping ≡ some p
        → p.accounted ≡ true
        → Step w (record w {
          manager = reap_clear w.manager c info p.was_stopping;
          reaping = remove c.identity w.reaping;
        })
    polled :
        (w : World) (snapshot : Snapshot)
        → Step w (record w { manager = observe_accounting w.manager snapshot })

  -- Any number of steps.
  pub data Steps : World → World → Type 0 where
    done : {w : World} → Steps w w
    then_ : {w w' w'' : World} → Step w w' → Steps w' w'' → Steps w w''

-- A daemon that has just started, before or after it took up a serve of the daemon before it.
unfoldable pub boot : Manager
boot = record {
  child = none;
  model = none;
  port = none;
  args = [];
  started_at = none;
  last_exit = none;
  adopted = false;
  stopping = false;
  starting = false;
  stop_requested = false;
  shutdown_requested = false;
  durable_accounting = [];
  last_accounting = [];
  outbox = [];
  saved = none;
}
