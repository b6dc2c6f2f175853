-- ===== src/Serve/Manager.antt =====
-- The state of `ServeManager`, and what its methods do in each section that `_cond` or the accounting
-- guard holds. A child is known by its identity, which the code makes from its pid and start time.
-- Starting a process, signals and files are the caller's: their outcomes are arguments.

pub mod State
unfoldable pub use maxtoken.Serve.Manager.State.*
use maxtoken.Prelude.{
  ℕ, ◌-◌, List, [], ◌∷◌, Option, none, some, Bool, true, false, ◌==◌, ◌&&◌, ◌||◌, not,
  if◌then◌else◌, contains, find, put, remove,
}
use maxtoken.Serve.Outbox.{Directory, persist}
use maxtoken.Serve.Receipt.{
  Snapshot, Totals, Label, Account, Receipt, Prepared, unavailable, failed, snapshot_values,
  stop_receipt, crash_receipt,
}

-- How the section of `_start` before the spawn ends: it gives way to a stop, raises a conflict, finds
-- the same serve running, waits for a spawn in flight, or goes on to spawn.
pub data StartCheck : Type 0 where
  aborted refused waits spawns : StartCheck
  already : ℕ → StartCheck

unfoldable pub check_child : Manager → Bool → List ℕ → ℕ → List ℕ → Manager × StartCheck
check_child m auto model port args =
    let free =
      if m.starting
      then (m, waits)
      else if auto && m.stop_requested
      then (m, aborted)
      else (record m { starting = true }, spawns) in
    elim m.child [
      | none ↦ free
      | some c ↦
          if m.stopping
          then free
          else if is_text m.model model && (is_number m.port port && same_text m.args args)
          then (m, already c.pid)
          else (m, refused)
    ]

unfoldable pub start_check : Manager → Bool → List ℕ → ℕ → List ℕ → Manager × StartCheck
unfolding check_child
start_check m auto model port args =
    if m.shutdown_requested
    then (m, (if auto then aborted else refused))
    else if auto
    then (if m.stop_requested then (m, aborted) else check_child m true model port args)
    else check_child (record m { stop_requested = false }) false model port args

-- After a spawn: it failed, or there is a child, which is also written to the pidfile.
unfoldable pub spawn_failed : Manager → Manager
spawn_failed m = record m { starting = false }

unfoldable pub spawned : Manager → ℕ → Child → List ℕ → ℕ → List ℕ → Manager
spawned m now child model port args = record m {
  child = some child;
  model = some model;
  port = some port;
  args = args;
  started_at = some now;
  last_exit = none;
  adopted = child.adopted;
  stopping = false;
  starting = false;
  saved = some (record { model = model; port = port; args = args; identity = child.identity });
}

-- How the first section of `_stop` ends: it waits for a spawn, there is nothing to stop, or it goes on
-- with the child.
pub data StopCheck : Type 0 where
  waiting nothing : StopCheck
  stops : Child → StopCheck

unfoldable pub stop_check : Manager → Manager × StopCheck
stop_check m =
    let m' : Manager = record m { stop_requested = true } in
    if m.starting
    then (m', waiting)
    else elim m.child [ none ↦ (m', nothing) | some c ↦ (record m' { stopping = true }, stops c) ]

-- A stop that failed before or while it signalled.
unfoldable pub stop_failed : Manager → Child → Manager
stop_failed m c = if is_child m.child c then record m { stopping = false } else m

unfoldable pub begin_shutdown : Manager → Manager
begin_shutdown m = record m { shutdown_requested = true }

unfoldable pub shutdown_failed : Manager → Manager
shutdown_failed m = record m { shutdown_requested = false }

-- Without a port the engine is asked neither to prepare its stop nor for its statistics.
abbrev pub without_port : Prepared → Prepared
without_port unavailable = unavailable
without_port _ = failed

abbrev pub receipt_for :
    (Label → ℕ)
    → ℕ
    → ℕ
    → Option (List ℕ)
    → Option ℕ
    → Prepared
    → Option Snapshot
    → Bool
    → Option Receipt
receipt_for uuid now identity model none prepared stats force =
    stop_receipt uuid now identity model (without_port prepared) none force
receipt_for uuid now identity model (some port) prepared stats force =
    stop_receipt uuid now identity model prepared stats force

-- The receipt is durable: `_durable_accounting.add` and `_last_accounting.pop`.
unfoldable pub note_durable : Manager → ℕ → Directory Account → Manager
note_durable m identity files = record m {
  outbox = files;
  durable_accounting =
      if contains identity m.durable_accounting
      then m.durable_accounting
      else identity ∷ m.durable_accounting;
  last_accounting = remove identity m.last_accounting;
}

unfoldable pub persist_receipt : Manager → ℕ → Receipt → Bool → Manager × Option Receipt
unfolding note_durable
persist_receipt m identity receipt written =
    let (files, kept) = persist m.outbox receipt written in
    elim kept [
      | none ↦ (record m { outbox = files }, none)
      | some r ↦ (note_durable m identity files, some r)
    ]

-- `observe_accounting`
unfoldable pub observe_accounting : Manager → Snapshot → Manager
observe_accounting m snapshot = elim m.child [
  | none ↦ m
  | some c ↦ elim (snapshot_values snapshot m.model false) [
    | none ↦ m
    | some t ↦ record m { last_accounting = put c.identity t m.last_accounting }
  ]
]

-- `readopt`; `alive` is the process that the pidfile's record still stands for.
unfoldable pub readopt : Manager → ℕ → Option Child → Manager × Bool
readopt m now alive = elim m.saved [
  | none ↦ (m, false)
  | some state ↦ elim alive [
    | none ↦ (record m { saved = none }, false)
    | some child ↦ (
      record m {
        child = some child;
        model = some state.model;
        port = some state.port;
        args = state.args;
        started_at = some now;
        last_exit = none;
        adopted = true;
        stopping = false;
      },
      true,
    )
  ]
]

module _ (uuid : Label → ℕ) where
  -- `_prepare_and_persist_accounting`, under its guard; `none` is an error that `_stop` raises.
  unfoldable pub prepare_accounting :
      Manager
      → ℕ
      → Child
      → Option (List ℕ)
      → Option ℕ
      → Prepared
      → Option Snapshot
      → Bool
      → Bool
      → Manager × Option Receipt
  prepare_accounting m now c model port prepared stats force written =
      elim (receipt_for uuid now c.identity model port prepared stats force) [
        | none ↦ (m, none)
        | some receipt ↦ persist_receipt m c.identity receipt written
      ]

  -- The part of `_reap` that accounts for the child, if it is the current one: a receipt that cannot be
  -- written latches the stop, so that nothing is restarted.
  unfoldable pub reap_account : Manager → ℕ → Child → Option (List ℕ) → Bool → Bool → Bool → Manager
  reap_account m now c model was_stopping is_current written =
      if not is_current || contains c.identity m.durable_accounting
      then m
      else let seen = find c.identity m.last_accounting in
        let (m', kept) =
          persist_receipt m c.identity (crash_receipt uuid now c.identity model seen was_stopping)
            written in
        elim kept [ none ↦ record m' { stop_requested = true } | some r ↦ m' ]

-- The part of `_reap` that forgets the child.
unfoldable pub reap_clear : Manager → Child → ExitInfo → Bool → Manager
reap_clear m c info was_stopping =
    if is_child m.child c
    then record m {
      child = none;
      started_at = none;
      stopping = false;
      last_exit = some (if was_stopping then record info { source = stopped } else info);
      saved = none;
    }
    else m

-- Whether `_reap` starts the serve again.
unfoldable pub do_restart : Manager → Bool → Bool → Bool
do_restart m was_stopping auto_restart = not was_stopping && (auto_restart && not m.stop_requested)

-- What `status` reports.
pub record Status : Type 0 where
  pub running : Bool
  pub starting : Bool
  pub stopping : Bool
  pub adopted : Bool
  pub pid : Option ℕ
  pub model : Option (List ℕ)
  pub port : Option ℕ
  pub uptime : ℕ
  pub last_exit : Option ExitInfo

unfoldable pub report : Manager → ℕ → Status
report m now =
    let running : Bool = elim m.child [ none ↦ false | some _ ↦ not m.stopping ] in
    record {
      running = running;
      starting = m.starting;
      stopping = m.stopping;
      adopted = running && m.adopted;
      pid = elim m.child [ none ↦ none | some c ↦ some c.pid ];
      model = m.model;
      port = m.port;
      uptime = elim m.started_at [ none ↦ 0 | some t ↦ if running then now - t else 0 ];
      last_exit = m.last_exit;
    }
