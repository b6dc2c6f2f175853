-- ===== src/Serve/Threads/Safety.antt =====
-- What a world that the threads can reach satisfies, and what each method does to it.
use mathlib.Core.Option.{none-ne-some, some-injective}
use maxtoken.Prelude.{
  ap, find-put, ℕ, ◌≡◌, ◌≢◌, ◌∙◌, refl, ◌⊎◌, inl, inr, List, [], ◌∷◌, Option, none, some, Bool,
  true, false, ◌||◌, arith, All, eqb_refl, contains, find, not, Bool-cases, Option-cases,
}
use maxtoken.Serve.Outbox.{Directory, persist}
use maxtoken.Serve.Receipt.{Account, Snapshot, Label, Receipt, Prepared, crash_receipt}
use maxtoken.Serve.Manager.{
  Child, ExitInfo, Manager, is_child, spawns, start_check, check_child, stop_check, stop_failed,
  shutdown_failed, note_durable, persist_receipt, prepare_accounting, reap_account, reap_clear,
  receipt_for,
}
use maxtoken.Serve.Threads.{
  Task, idle, spawning, preparing, signalling, World, start_task, stop_task, reopened,
}

-- The child of the manager is the one that the stop is about, or there is none.
abbrev pub IsOrNone : Manager → Child → Type 0
IsOrNone m c = (m.child ≡ none) ⊎ (m.child ≡ some c)

-- The process was noted as accounted for, and the receipt is in the outbox.
abbrev pub Covered : Manager → ℕ × Receipt → Type 0
Covered m (i, r) =
    (contains i m.durable_accounting ≡ true) × (h : ℕ) × (find h m.outbox ≡ some (some r))

pub Covered-same :
    (m m' : Manager) (s : ℕ × Receipt)
    → m'.durable_accounting ≡ m.durable_accounting
    → m'.outbox ≡ m.outbox
    → Covered m s
    → Covered m' s
Covered-same m m' (i, r) d o (x, h, y) = (rw d x, h, rw o y)

-- What holds of the manager while the lifecycle lock's holder is at a task.
abbrev pub Fits : Manager → Task → Type 0
Fits m idle = (m.starting ≡ false) × (m.stopping ≡ false)
Fits m (spawning model port args) = (m.starting ≡ true) × (m.stopping ≡ false) × (m.child ≡ none)
Fits m (preparing c model port force final) = (m.starting ≡ false) × IsOrNone m c
Fits m (signalling c r final) = (m.starting ≡ false) × IsOrNone m c × Covered m (c.identity, r)

pub record IsSafe (w : World) : Type 0 where
  pub fits : Fits w.manager w.task
  pub owned : w.manager.stopping ≡ true → w.manager.child ≢ none
  pub covered : All (Covered w.manager) w.signalled

pub start_check-Fits :
    (m : Manager) (auto : Bool) (model : List ℕ) (port : ℕ) (args : List ℕ)
    → Fits m idle
    → let r = start_check m auto model port args in
      Fits r.0 (start_task r.1 model port args)
      × ((r.1 ≡ spawns) → m.child ≡ none)
      × (r.0.durable_accounting ≡ m.durable_accounting)
      × (r.0.stopping ≡ m.stopping)
      × (r.0.outbox ≡ m.outbox)
unfolding start_check check_child
start_check-Fits m auto model port args f = ground arith

pub stop_check-Fits :
    (m : Manager) (force final : Bool)
    → Fits m idle
    → let r = stop_check m in
      Fits r.0 (stop_task r.1 m.model m.port force final)
      × (r.0.stopping ≡ true → r.0.child ≢ none)
      × (r.0.durable_accounting ≡ m.durable_accounting)
      × (r.0.outbox ≡ m.outbox)
unfolding stop_check
stop_check-Fits m force final (s, t) = elim (Option-cases m.child) [
  | inl e ↦ rw (s, e, stop_check) ((s, t), (λ y. absurd (ground arith)), refl, refl)
  | inr (c, e) ↦ rw (s, e, stop_check) ((s, inr e), (λ y n. absurd (ground arith)), refl, refl)
]

-- A stop that fails, with or without a shutdown, leaves the manager idle, and with what it had.
pub failed-Fits :
    (m : Manager) (c : Child) (final : Bool)
    → m.starting ≡ false
    → IsOrNone m c
    → (m.stopping ≡ true → m.child ≢ none)
    → let m' = reopened final (stop_failed m c) in
      Fits m' idle × (m'.durable_accounting ≡ m.durable_accounting) × (m'.outbox ≡ m.outbox)
unfolding stop_failed shutdown_failed
failed-Fits m c final s o owned = elim o [
  | inl e ↦
      let t : m.stopping ≡ false = elim (Bool-cases m.stopping) [
        | inl y ↦ absurd (owned y e)
        | inr n ↦ n
      ] in
      elim (Bool-cases final) [
        | inl y ↦ rw (e, y) ((s, t), refl, refl)
        | inr n ↦ rw (e, n) ((s, t), refl, refl)
      ]
  | inr e ↦ elim (Bool-cases final) [
    | inl y ↦ rw (e, y, eqb_refl c.identity) ((s, refl), refl, refl)
    | inr n ↦ rw (e, n, eqb_refl c.identity) ((s, refl), refl, refl)
  ]
]

-- What accounting leaves alone, and that it forgets no receipt.
pub record IsKept (m m' : Manager) : Type 0 where
  pub child : m'.child ≡ m.child
  pub starting : m'.starting ≡ m.starting
  pub stopping : m'.stopping ≡ m.stopping
  pub latch : m.stop_requested ≡ true → m'.stop_requested ≡ true
  pub grows : (s : ℕ × Receipt) → Covered m s → Covered m' s

-- A receipt that is in the outbox stays there when another one is persisted.
persist-stays :
    (files : Directory Account) (receipt : Receipt) (written : Bool) (h : ℕ) (r : Receipt)
    → find h files ≡ some (some r)
    → find h (persist files receipt written).0 ≡ some (some r)
unfolding persist
persist-stays files receipt written h r e = elim (Option-cases (find receipt.receipt_id files)) [
  | inl n ↦ elim (Bool-cases written) [
    | inl y ↦
        rw (n, y, persist)
          (ground (arith, find-put receipt.receipt_id h (some receipt) files, e, n))
    | inr y ↦ rw (n, y, persist) e
  ]
  | inr (none, n) ↦ rw (n, persist) e
  | inr (some old, n) ↦ rw (n, persist) e
]

-- What the outbox returns is in it.
persist-there :
    (files : Directory Account) (receipt : Receipt) (written : Bool) (r : Receipt)
    → (persist files receipt written).1 ≡ some r
    → (h : ℕ) × (find h (persist files receipt written).0 ≡ some (some r))
unfolding persist
persist-there files receipt written r e = elim (Option-cases (find receipt.receipt_id files)) [
  | inl n ↦ elim (Bool-cases written) [
    | inl y ↦
        let same : receipt ≡ r = some-injective receipt r (rw (n, y, persist) at e) in
        (
          receipt.receipt_id,
          rw (n, y, persist)
              (find-put receipt.receipt_id receipt.receipt_id (some receipt) files
                ∙ rw (eqb_refl receipt.receipt_id) (ap (λ x. some (some x)) same)),
        )
    | inr y ↦ absurd (none-ne-some r (rw (n, y, persist) at e))
  ]
  | inr (none, n) ↦ absurd (none-ne-some r (rw (n, persist) at e))
  | inr (some old, n) ↦
      let same : old ≡ r = some-injective old r (rw (n, persist) at e) in
      (receipt.receipt_id, rw (n, persist) (n ∙ ap (λ x. some (some x)) same))
]

persist_receipt-IsKept :
    (m : Manager) (identity : ℕ) (receipt : Receipt) (written : Bool)
    → let r = persist_receipt m identity receipt written in
      IsKept m r.0 × ((q : Receipt) → r.1 ≡ some q → Covered r.0 (identity, q))
unfolding persist_receipt note_durable
persist_receipt-IsKept m identity receipt written =
    elim (Option-cases (persist m.outbox receipt written).1) [
      | inl e ↦
          rw (e, persist_receipt)
            (
              record {
                child = refl;
                starting = refl;
                stopping = refl;
                latch = λ p. p;
                grows = λ (i, r) (x, h, p). (x, h, persist-stays m.outbox receipt written h r p);
              },
              λ q ne. absurd (none-ne-some q ne),
            )
      | inr (r, e) ↦ elim (Bool-cases (contains identity m.durable_accounting)) [
        | inl there ↦
            rw (e, there, persist_receipt)
              (
                record {
                  child = refl;
                  starting = refl;
                  stopping = refl;
                  latch = λ p. p;
                  grows = λ (i, r) (x, h, p). (x, h, persist-stays m.outbox receipt written h r p);
                },
                λ q ne.
                    let (h, found) = persist-there m.outbox receipt written q (e ∙ ne) in
                    (there, h, found),
              )
        | inr new ↦
            rw (e, new, persist_receipt)
              (
                record {
                  child = refl;
                  starting = refl;
                  stopping = refl;
                  latch = λ p. p;
                  grows = λ (i, r) (x, h, p).
                      (ground (arith, x), h, persist-stays m.outbox receipt written h r p);
                },
                λ q ne.
                    let (h, found) = persist-there m.outbox receipt written q (e ∙ ne) in
                    (ground (arith, eqb_refl identity), h, found),
              )
      ]
    ]

module _ (uuid : Label → ℕ) where
  pub prepare_accounting-IsKept :
      (m : Manager) (now : ℕ) (c : Child) (model : Option (List ℕ)) (port : Option ℕ)
      (prepared : Prepared) (stats : Option Snapshot) (force written : Bool)
      → let r = prepare_accounting uuid m now c model port prepared stats force written in
        IsKept m r.0 × ((q : Receipt) → r.1 ≡ some q → Covered r.0 (c.identity, q))
  unfolding prepare_accounting
  prepare_accounting-IsKept m now c model port prepared stats force written =
      elim (Option-cases (receipt_for uuid now c.identity model port prepared stats force)) [
        | inl e ↦
            rw (e, prepare_accounting)
              (
                record {
                  child = refl;
                  starting = refl;
                  stopping = refl;
                  latch = λ p. p;
                  grows = λ i p. p;
                },
                λ q ne. absurd (none-ne-some q ne),
              )
        | inr (receipt, e) ↦
            rw (e, prepare_accounting) (persist_receipt-IsKept m c.identity receipt written)
      ]

  pub reap_account-IsKept :
      (m : Manager) (now : ℕ) (c : Child) (model : Option (List ℕ))
      (was_stopping is_current written : Bool)
      → IsKept m (reap_account uuid m now c model was_stopping is_current written)
  unfolding reap_account
  reap_account-IsKept m now c model was_stopping is_current written =
      elim (Bool-cases (not is_current || contains c.identity m.durable_accounting)) [
        | inl skip ↦ rw skip (record {
          child = refl;
          starting = refl;
          stopping = refl;
          latch = λ p. p;
          grows = λ i p. p;
        })
        | inr go ↦
            let receipt =
              crash_receipt uuid now c.identity model (find c.identity m.last_accounting)
                was_stopping in
            let k = (persist_receipt-IsKept m c.identity receipt written).0 in
            elim (Option-cases (persist_receipt m c.identity receipt written).1) [
              | inl e ↦
                  rw (go, e, reap_account)
                    (record {
                      child = k.child;
                      starting = k.starting;
                      stopping = k.stopping;
                      latch = λ p. refl;
                      grows = k.grows;
                    })
              | inr (r, e) ↦ rw (go, e, reap_account) k
            ]
      ]

pub reap_clear_lem :
    (m : Manager) (c : Child) (info : ExitInfo) (was_stopping : Bool)
    → let m' = reap_clear m c info was_stopping in
      (m'.starting ≡ m.starting)
      × (m'.durable_accounting ≡ m.durable_accounting)
      × (m'.outbox ≡ m.outbox)
      × (((m'.child ≡ m.child) × (m'.stopping ≡ m.stopping))
          ⊎ ((m'.child ≡ none) × (m'.stopping ≡ false)))
unfolding reap_clear
reap_clear_lem m c info was_stopping = elim (Bool-cases (is_child m.child c)) [
  | inl y ↦ rw y (refl, refl, refl, inr (refl, refl))
  | inr n ↦ rw n (refl, refl, refl, inl (refl, refl))
]

-- The invariant when only the child may have gone and receipts may have come.
pub keep-Fits :
    (m m' : Manager) (task : Task)
    → m'.starting ≡ m.starting
    → ((s : ℕ × Receipt) → Covered m s → Covered m' s)
    → ((m'.child ≡ m.child) × (m'.stopping ≡ m.stopping))
      ⊎ ((m'.child ≡ none) × (m'.stopping ≡ false))
    → Fits m task
    → Fits m' task
keep-Fits m m' idle s g (inl (c, t)) f = (s ∙ f.0, t ∙ f.1)
keep-Fits m m' idle s g (inr (c, t)) f = (s ∙ f.0, t)
keep-Fits m m' (spawning model port args) s g (inl (c, t)) f = (s ∙ f.0, t ∙ f.1, c ∙ f.2)
keep-Fits m m' (spawning model port args) s g (inr (c, t)) f = (s ∙ f.0, t, c)
keep-Fits m m' (preparing d model port force final) s g (inl (c, t)) f =
    (s ∙ f.0, elim f.1 [ inl n ↦ inl (c ∙ n) | inr y ↦ inr (c ∙ y) ])
keep-Fits m m' (preparing d model port force final) s g (inr (c, t)) f = (s ∙ f.0, inl c)
keep-Fits m m' (signalling d r final) s g (inl (c, t)) f =
    (s ∙ f.0, elim f.1 [ inl n ↦ inl (c ∙ n) | inr y ↦ inr (c ∙ y) ], g (d.identity, r) f.2)
keep-Fits m m' (signalling d r final) s g (inr (c, t)) f = (s ∙ f.0, inl c, g (d.identity, r) f.2)

pub Covered-grows :
    (m m' : Manager) (is : List (ℕ × Receipt))
    → ((s : ℕ × Receipt) → Covered m s → Covered m' s)
    → All (Covered m) is
    → All (Covered m') is
Covered-grows m m' [] g a = tt
Covered-grows m m' (i ∷ is) g a = (g i a.0, Covered-grows m m' is g a.1)
