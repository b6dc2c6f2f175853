-- ===== src/Serve/Threads/Latch.antt =====
-- A serve that was stopped stays stopped until a client starts one.
use maxtoken.Prelude.{
  ℕ, ◌≡◌, ◌∙◌, refl, ap, sym, List, Option, none, some, Bool, true, false, arith, Bool-cases, inl,
  inr,
}
use maxtoken.Serve.Receipt.{Label, Receipt}
use maxtoken.Serve.Manager.{
  Child, ExitInfo, Manager, is_child, start_check, stop_check, stop_failed, begin_shutdown,
  shutdown_failed, prepare_accounting, reap_clear,
}
use maxtoken.Serve.Threads.{
  Task, idle, spawning, World, Step, start_called, spawn_raised, spawn_returned, stop_called,
  shutdown_called, accounted, signal_sent, stop_ended, stop_gave_up, reap_began, reap_accounted,
  reap_ended, polled, Steps, done, then_, prepared_world, reopened, start_task, stop_task,
}
use maxtoken.Serve.Threads.Safety.{IsKept, prepare_accounting-IsKept, reap_account-IsKept}
use maxtoken.Serve.Threads.Reach.{observe_accounting-IsKept}

abbrev pub is_spawning : Task → Bool
is_spawning (spawning model port args) = true
is_spawning _ = false

-- A stop was asked for, there is no serve, and none is being spawned.
pub record IsStopped (w : World) : Type 0 where
  pub latched : w.manager.stop_requested ≡ true
  pub no_child : w.manager.child ≡ none
  pub no_spawn : is_spawning w.task ≡ false

reap_clear-stopped :
    (m : Manager) (c : Child) (info : ExitInfo) (was_stopping : Bool)
    → m.stop_requested ≡ true
    → m.child ≡ none
    → ((reap_clear m c info was_stopping).stop_requested ≡ true)
      × ((reap_clear m c info was_stopping).child ≡ none)
unfolding reap_clear
reap_clear-stopped m c info was_stopping l n = elim (Bool-cases (is_child m.child c)) [
  | inl y ↦ rw y (l, refl)
  | inr f ↦ rw f (l, n)
]

module _ (uuid : Label → ℕ) where
  -- All steps but a client's own start.
  abbrev pub is_quiet : {w w' : World} → Step uuid w w' → Bool
  is_quiet (start_called w auto model port args t) = auto
  is_quiet _ = true

  abbrev pub AreQuiet : {w w' : World} → Steps uuid w w' → Type 0
  AreQuiet done = Unit
  AreQuiet (then_ first rest) = (is_quiet first ≡ true) × AreQuiet rest

  kept-IsStopped :
      (w w' : World)
      → IsKept w.manager w'.manager
      → is_spawning w'.task ≡ false
      → IsStopped w
      → IsStopped w'
  kept-IsStopped w w' k t s = record {
    latched = k.latch s.latched;
    no_child = k.child ∙ s.no_child;
    no_spawn = t;
  }

  auto_start :
      (m : Manager) (model : List ℕ) (port : ℕ) (args : List ℕ)
      → m.stop_requested ≡ true
      → (start_check m true model port args).0 ≡ m
        × (is_spawning (start_task (start_check m true model port args).1 model port args) ≡ false)
  unfolding start_check
  auto_start m model port args l = ground arith

  failed-IsStopped :
      (w : World) (m : Manager) (c : Child) (final : Bool)
      → m.stop_requested ≡ true
      → m.child ≡ none
      → IsStopped (record w { manager = reopened final (stop_failed m c); task = idle })
  unfolding stop_failed shutdown_failed
  failed-IsStopped w m c final l n = elim (Bool-cases final) [
    | inl y ↦ rw (n, y) (record { latched = l; no_child = refl; no_spawn = refl })
    | inr y ↦ rw (n, y) (record { latched = l; no_child = refl; no_spawn = refl })
  ]

  accounted-IsStopped :
      (w : World) (c : Child) (final : Bool) (r : Manager × Option Receipt)
      → IsKept w.manager r.0
      → IsStopped w
      → IsStopped (prepared_world w c final r)
  accounted-IsStopped w c final (m, none) k s =
      failed-IsStopped w m c final (k.latch s.latched) (k.child ∙ s.no_child)
  accounted-IsStopped w c final (m, some r) k s = record {
    latched = k.latch s.latched;
    no_child = k.child ∙ s.no_child;
    no_spawn = refl;
  }

  stop_check-stopped :
      (m : Manager) (model : Option (List ℕ)) (port : Option ℕ) (force final : Bool)
      → m.child ≡ none
      → ((stop_check m).0.stop_requested ≡ true)
        × ((stop_check m).0.child ≡ none)
        × (is_spawning (stop_task (stop_check m).1 model port force final) ≡ false)
  unfolding stop_check
  stop_check-stopped m model port force final n = elim (Bool-cases m.starting) [
    | inl y ↦ rw y (refl, n, refl)
    | inr f ↦ rw (f, n, stop_check) (refl, n, refl)
  ]

  not_spawning :
      (w : World) (model : List ℕ) (port : ℕ) (args : List ℕ)
      → IsStopped w
      → w.task ≡ spawning model port args
      → ⊥
  not_spawning w model port args s t = let x = ap is_spawning (sym t) ∙ s.no_spawn in ground arith

  Step-IsStopped :
      (w w' : World) (x : Step uuid w w') → is_quiet x ≡ true → IsStopped w → IsStopped w'
  Step-IsStopped _ _ (start_called w true model port args t) q s =
      let (a, b) = auto_start w.manager model port args s.latched in
      record { latched = rw a s.latched; no_child = rw a s.no_child; no_spawn = b }
  Step-IsStopped _ _ (start_called w false model port args t) q s = absurd (ground arith)
  Step-IsStopped _ _ (spawn_raised w model port args t) q s =
      absurd (not_spawning w model port args s t)
  Step-IsStopped _ _ (spawn_returned w now c model port args t) q s =
      absurd (not_spawning w model port args s t)
  Step-IsStopped _ _ (stop_called w force t) q s =
      let (l, n, k) =
        stop_check-stopped w.manager w.manager.model w.manager.port force false s.no_child in
      record { latched = l; no_child = n; no_spawn = k }
  Step-IsStopped _ _ (shutdown_called w force t) q s =
      unfold begin_shutdown in
      let (l, n, k) =
        stop_check-stopped (begin_shutdown w.manager) w.manager.model w.manager.port force true
          s.no_child in
      record { latched = l; no_child = n; no_spawn = k }
  Step-IsStopped _ _ (accounted w now c model port force final prepared stats written t) q s =
      accounted-IsStopped w c final
        (prepare_accounting uuid w.manager now c model port prepared stats force written)
        (prepare_accounting-IsKept uuid w.manager now c model port prepared stats force written).0 s
  Step-IsStopped _ _ (signal_sent w c r final t) q s = record {
    latched = s.latched;
    no_child = s.no_child;
    no_spawn = s.no_spawn;
  }
  Step-IsStopped _ _ (stop_ended w c r final t gone) q s = record {
    latched = s.latched;
    no_child = s.no_child;
    no_spawn = refl;
  }
  Step-IsStopped _ _ (stop_gave_up w c r final t) q s =
      failed-IsStopped w w.manager c final s.latched s.no_child
  Step-IsStopped _ _ (reap_began w c) q s = record {
    latched = s.latched;
    no_child = s.no_child;
    no_spawn = s.no_spawn;
  }
  Step-IsStopped _ _ (reap_accounted w now c p written there t) q s =
      kept-IsStopped w _
        (reap_account-IsKept uuid w.manager now c p.model p.was_stopping p.is_current written)
        s.no_spawn s
  Step-IsStopped _ _ (reap_ended w c info p there t) q s =
      let (l, n) = reap_clear-stopped w.manager c info p.was_stopping s.latched s.no_child in
      record { latched = l; no_child = n; no_spawn = s.no_spawn }
  Step-IsStopped _ _ (polled w snapshot) q s =
      kept-IsStopped w _ (observe_accounting-IsKept w.manager snapshot) s.no_spawn s

  -- Once a stop was asked for and the serve is gone, none comes back: no crash of an earlier serve, no
  -- restart that was under way and no late reaping starts one, until a client calls `start`.
  pub stays-IsStopped :
      (w w' : World) (steps : Steps uuid w w') → AreQuiet steps → IsStopped w → IsStopped w'
  stays-IsStopped _ _ done q s = s
  stays-IsStopped _ _ (then_ first rest) q s =
      stays-IsStopped _ _ rest q.1 (Step-IsStopped _ _ first q.0 s)
