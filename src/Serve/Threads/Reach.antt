-- ===== src/Serve/Threads/Reach.antt =====
-- What holds in every world that the threads can reach.
use mathlib.Core.Path.{subst}
use maxtoken.Prelude.{
  ℕ, ◌≡◌, ◌≢◌, ◌∙◌, refl, ap, sym, inl, inr, [], Option, none, some, Bool, true, false, arith, All,
  Bool-cases, Option-cases, eqb_refl,
}
use maxtoken.Serve.Receipt.{Snapshot, Label, Receipt, snapshot_values}
use maxtoken.Serve.Manager.{
  Child, Manager, is_child, spawn_failed, spawned, stop_failed, begin_shutdown, start_check,
  stop_check, prepare_accounting, observe_accounting, reap_clear,
}
use maxtoken.Serve.Threads.{
  Task, idle, spawning, preparing, signalling, World, Step, start_called, spawn_raised,
  spawn_returned, stop_called, shutdown_called, accounted, signal_sent, stop_ended, stop_gave_up,
  reap_began, reap_accounted, reap_ended, polled, Steps, done, then_, reopened, prepared_world,
}
use maxtoken.Serve.Threads.Safety.{
  IsOrNone, Covered, Covered-same, Fits, IsSafe, IsKept, start_check-Fits, stop_check-Fits,
  failed-Fits, prepare_accounting-IsKept, reap_account-IsKept, reap_clear_lem, keep-Fits,
  Covered-grows,
}

-- The task of a safe world, spelled out.
Fits-as : (w : World) (task : Task) → w.task ≡ task → IsSafe w → Fits w.manager task
Fits-as w task e s = subst (Fits w.manager) e s.fits

kept-IsSafe :
    (w w' : World)
    → IsKept w.manager w'.manager
    → w'.task ≡ w.task
    → w'.signalled ≡ w.signalled
    → IsSafe w
    → IsSafe w'
kept-IsSafe w w' k t g s = record {
  fits =
      rw t (
        keep-Fits w.manager w'.manager w.task k.starting k.grows (inl (k.child, k.stopping))
          s.fits);
  owned = λ y n. s.owned (sym k.stopping ∙ y) (sym k.child ∙ n);
  covered = rw g (Covered-grows w.manager w'.manager w.signalled k.grows s.covered);
}

pub observe_accounting-IsKept :
    (m : Manager) (snapshot : Snapshot) → IsKept m (observe_accounting m snapshot)
unfolding observe_accounting
observe_accounting-IsKept m snapshot = elim (Option-cases m.child) [
  | inl e ↦
      rw (e, observe_accounting)
        (record { child = e; starting = refl; stopping = refl; latch = λ p. p; grows = λ i p. p })
  | inr (c, e) ↦ elim (Option-cases (snapshot_values snapshot m.model false)) [
    | inl n ↦
        rw (e, n, observe_accounting)
          (record { child = e; starting = refl; stopping = refl; latch = λ p. p; grows = λ i p. p })
    | inr (t, n) ↦
        rw (e, n, observe_accounting)
          (record { child = e; starting = refl; stopping = refl; latch = λ p. p; grows = λ i p. p })
  ]
]

-- A stop that failed, in a safe world.
failed-IsSafe :
    (w : World) (m : Manager) (c : Child) (final : Bool)
    → m.starting ≡ false
    → IsOrNone m c
    → (m.stopping ≡ true → m.child ≢ none)
    → All (Covered m) w.signalled
    → IsSafe (record w { manager = reopened final (stop_failed m c); task = idle })
failed-IsSafe w m c final s o owned covered =
    let (f, d, x) = failed-Fits m c final s o owned in
    let (a, b) = f in
    let m' = reopened final (stop_failed m c) in
    record {
      fits = f;
      owned = λ y n. absurd (ground arith);
      covered = Covered-grows m m' w.signalled (λ t. Covered-same m m' t d x) covered;
    }

unlocked :
    (w : World) (c : Child)
    → IsOrNone w.manager c
    → is_child w.manager.child c ≡ false
    → IsSafe w
    → w.manager.stopping ≡ false
unlocked w c (inl n) gone s = elim (Bool-cases w.manager.stopping) [
  | inl y ↦ absurd (s.owned y n)
  | inr f ↦ f
]
unlocked w c (inr e) gone s =
    absurd (let x = ap (λ o. is_child o c) (sym e) ∙ gone in let y = eqb_refl c.identity in cc)

module _ (uuid : Label → ℕ) where
  accounted-IsSafe :
      (w : World) (c : Child) (final : Bool) (r : Manager × Option Receipt)
      → (w.manager.starting ≡ false) × IsOrNone w.manager c
      → IsKept w.manager r.0
      → ((q : Receipt) → r.1 ≡ some q → Covered r.0 (c.identity, q))
      → IsSafe w
      → IsSafe (prepared_world w c final r)
  accounted-IsSafe w c final (m, none) f k d s =
      failed-IsSafe w m c final (k.starting ∙ f.0)
        (elim f.1 [ inl n ↦ inl (k.child ∙ n) | inr y ↦ inr (k.child ∙ y) ])
        (λ y n. s.owned (sym k.stopping ∙ y) (sym k.child ∙ n))
        (Covered-grows w.manager m w.signalled k.grows s.covered)
  accounted-IsSafe w c final (m, some r) f k d s = record {
    fits = (
      k.starting ∙ f.0,
      elim f.1 [ inl n ↦ inl (k.child ∙ n) | inr y ↦ inr (k.child ∙ y) ],
      d r refl,
    );
    owned = λ y n. s.owned (sym k.stopping ∙ y) (sym k.child ∙ n);
    covered = Covered-grows w.manager m w.signalled k.grows s.covered;
  }

  Step-IsSafe : (w w' : World) → Step uuid w w' → IsSafe w → IsSafe w'
  Step-IsSafe _ _ (start_called w auto model port args t) s =
      let f = Fits-as w idle t s in
      let (g, _, d, q, x) = start_check-Fits w.manager auto model port args f in
      let m' = (start_check w.manager auto model port args).0 in
      record {
        fits = g;
        owned = λ y n. absurd (let z = sym q ∙ y in let z' = f.1 in cc);
        covered =
            Covered-grows w.manager m' w.signalled (λ t. Covered-same w.manager m' t d x) s.covered;
      }
  Step-IsSafe _ _ (spawn_raised w model port args t) s =
      let f = Fits-as w (spawning model port args) t s in
      unfold spawn_failed in record { fits = (refl, f.1); owned = s.owned; covered = s.covered }
  Step-IsSafe _ _ (spawn_returned w now c model port args t) s =
      unfold spawned in
      record { fits = (refl, refl); owned = λ y n. absurd (ground arith); covered = s.covered }
  Step-IsSafe _ _ (stop_called w force t) s =
      let (g, o, d, x) = stop_check-Fits w.manager force false (Fits-as w idle t s) in
      let m' = (stop_check w.manager).0 in
      record {
        fits = g;
        owned = o;
        covered =
            Covered-grows w.manager m' w.signalled (λ t. Covered-same w.manager m' t d x) s.covered;
      }
  Step-IsSafe _ _ (shutdown_called w force t) s =
      unfold begin_shutdown in
      let (g, o, d, x) =
        stop_check-Fits (begin_shutdown w.manager) force true (Fits-as w idle t s) in
      let m' = (stop_check (begin_shutdown w.manager)).0 in
      record {
        fits = g;
        owned = o;
        covered =
            Covered-grows w.manager m' w.signalled (λ t. Covered-same w.manager m' t d x) s.covered;
      }
  Step-IsSafe _ _ (accounted w now c model port force final prepared stats written t) s =
      let f = Fits-as w (preparing c model port force final) t s in
      let (k, d) =
        prepare_accounting-IsKept uuid w.manager now c model port prepared stats force written in
      accounted-IsSafe w c final
        (prepare_accounting uuid w.manager now c model port prepared stats force written) f k d s
  Step-IsSafe _ _ (signal_sent w c r final t) s =
      let f = Fits-as w (signalling c r final) t s in
      record { fits = s.fits; owned = s.owned; covered = (f.2, s.covered) }
  Step-IsSafe _ _ (stop_ended w c r final t gone) s =
      let f = Fits-as w (signalling c r final) t s in
      record { fits = (f.0, unlocked w c f.1 gone s); owned = s.owned; covered = s.covered }
  Step-IsSafe _ _ (stop_gave_up w c r final t) s =
      let f = Fits-as w (signalling c r final) t s in
      failed-IsSafe w w.manager c final f.0 f.1 s.owned s.covered
  Step-IsSafe _ _ (reap_began w c) s = record {
    fits = s.fits;
    owned = s.owned;
    covered = s.covered;
  }
  Step-IsSafe _ _ (reap_accounted w now c p written there t) s =
      kept-IsSafe w _
        (reap_account-IsKept uuid w.manager now c p.model p.was_stopping p.is_current written) refl
        refl s
  Step-IsSafe _ _ (reap_ended w c info p there t) s =
      let (a, d, x, o) = reap_clear_lem w.manager c info p.was_stopping in
      let m' = reap_clear w.manager c info p.was_stopping in
      record {
        fits =
            keep-Fits w.manager (reap_clear w.manager c info p.was_stopping) w.task a
              (λ t. Covered-same w.manager m' t d x) o s.fits;
        owned = λ y n. elim o [
          | inl (c', t) ↦ s.owned (sym t ∙ y) (sym c' ∙ n)
          | inr (c', t) ↦ absurd (ground arith)
        ];
        covered =
            Covered-grows w.manager m' w.signalled (λ t. Covered-same w.manager m' t d x) s.covered;
      }
  Step-IsSafe _ _ (polled w snapshot) s =
      kept-IsSafe w _ (observe_accounting-IsKept w.manager snapshot) refl refl s

  Steps-IsSafe : (w w' : World) → Steps uuid w w' → IsSafe w → IsSafe w'
  Steps-IsSafe _ _ done s = s
  Steps-IsSafe _ _ (then_ first rest) s = Steps-IsSafe _ _ rest (Step-IsSafe _ _ first s)

-- The daemon at its start, with the serve that it took up, if there was one.
abbrev pub begun : Manager → World
begun m = record { manager = m; task = idle; reaping = []; signalled = [] }

module _ (uuid : Label → ℕ) (m : Manager) (w : World) where
  -- Take a daemon that starts with no start and no stop under way, and any interleaving of starts,
  -- stops, shutdowns, restarts, crashes, reapings and polls, whatever their outcomes. Every process
  -- that was sent a signal was noted as accounted for, and the receipt that the stop had for it is in
  -- the outbox. While the lock is free, no start and no stop is under way; while a serve is being spawned there is no other; and during a
  -- stop the manager's child is the one to be stopped, or there is none.
  pub reached-IsSafe : m.starting ≡ false → m.stopping ≡ false → Steps uuid (begun m) w → IsSafe w
  reached-IsSafe s t steps =
      Steps-IsSafe uuid (begun m) w steps
        (record { fits = (s, t); owned = λ y n. absurd (let z = sym t ∙ y in cc); covered = tt })
