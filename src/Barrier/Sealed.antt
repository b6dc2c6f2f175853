-- ===== src/Barrier/Sealed.antt =====
-- What the barrier promises: admission stays closed, and only an idle engine is sealed, once.
use mathlib.Core.Path.{subst}
use mathlib.Core.Option.{some-injective, none-ne-some}
use maxtoken.Prelude.{
  ℕ, ◌+◌, List, ◌∷◌, Option, none, some, Bool, true, false, ◌≡◌, ◌∙◌, refl, ap, sym, ◌⊎◌, inl, inr,
  List-cases,
}
use maxtoken.Barrier.{
  Tracker, Maintenance, loading, serving, failed, rebuilding, other_state, stopping, still_active,
  unidentified, Accounting, Frontend, Prepared, prepared, drain_failed, wait_for_idle, sealed_at,
  seal, after_abort, drain_and_seal, refusal, DrainError, prepare_under, prepare_stop_accounting,
  Address, is_loopback, forbidden, prepare_stop,
}
use maxtoken.Barrier.Wait.{Waited, wait_for_idle-Waited}

-- The states from which no stop is prepared: a rebuild, and a state that the code does not name.
abbrev pub IsRefused : Maintenance → Type 0
IsRefused loading = ⊥
IsRefused serving = ⊥
IsRefused stopping = ⊥
IsRefused failed = ⊥
IsRefused rebuilding = Unit
IsRefused (other_state n) = Unit

refusal-IsRefused : (m : Maintenance) (why : DrainError) → refusal m ≡ some why → IsRefused m
refusal-IsRefused loading why e = absurd (none-ne-some why e)
refusal-IsRefused serving why e = absurd (none-ne-some why e)
refusal-IsRefused stopping why e = absurd (none-ne-some why e)
refusal-IsRefused failed why e = absurd (none-ne-some why e)
refusal-IsRefused rebuilding why e = tt
refusal-IsRefused (other_state n) why e = tt

module _ (stats : ℕ → Tracker) (late : ℕ → ℕ) where
  -- What a call does to an engine whose gate is closed: it seals the totals of a time at which nothing is
  -- active, or it leaves everything.
  abbrev pub Drained : Frontend → Frontend × Prepared → Type 0
  Drained s (s', prepared doc) =
      (t : ℕ) × ((stats t).active ≡ 0)
      × (doc ≡ sealed_at stats late s t)
      × (s' ≡ record s { sealed_accounting = some doc })
  Drained s (s', drain_failed e) = s' ≡ s

  -- A wait found the engine idle, or it did not.
  abbrev Found : Option (Bool × ℕ) → Type 0
  Found w =
      ((t : ℕ) × (w ≡ some (true, t)) × ((stats t).active ≡ 0)) ⊎ ((t : ℕ) × (w ≡ some (false, t)))

  found :
      (w : Option (Bool × ℕ)) (deadline now t : ℕ) (idle : Bool)
      → w ≡ some (idle, t)
      → Waited stats late deadline now idle t
      → Found w
  found w deadline now t true e (le, quiet) = inl (t, e, quiet)
  found w deadline now t false e busy = inr (t, e)

  wait_for_idle-Found : (timeout now : ℕ) → Found (wait_for_idle stats late timeout now)
  wait_for_idle-Found timeout now =
      let (idle, t, e, w) = wait_for_idle-Waited stats late timeout now in
      found (wait_for_idle stats late timeout now) (now + timeout) now t idle e w

  module _ (abort_all : List ℕ → ℕ → Bool × ℕ) where
    after_abort-Drained :
        (s : Frontend) (abort_timeout : ℕ) (r : Bool × ℕ)
        → (q : Frontend × Prepared) × (after_abort stats late abort_all s abort_timeout r ≡ some q)
          × Drained s q
    unfolding after_abort
    after_abort-Drained s abort_timeout (false, now) = ((s, _), refl, refl)
    after_abort-Drained s abort_timeout (true, now) = elim (wait_for_idle-Found abort_timeout now) [
      | inl (t, e, quiet) ↦ (seal stats late s t, rw (e, after_abort) refl, (t, quiet, refl, refl))
      | inr (t, e) ↦
          ((s, drain_failed (still_active (stats t).active)), rw (e, after_abort) refl, refl)
    ]

    drain_and_seal-Drained :
        (s : Frontend) (drain_timeout abort_timeout now : ℕ)
        → (q : Frontend × Prepared) × (drain_and_seal stats late abort_all s drain_timeout
              abort_timeout now
            ≡ some q)
          × Drained s q
    unfolding drain_and_seal
    drain_and_seal-Drained s drain_timeout abort_timeout now =
        elim (wait_for_idle-Found drain_timeout now) [
          | inl (t, e, quiet) ↦
              (seal stats late s t, rw (e, drain_and_seal) refl, (t, quiet, refl, refl))
          | inr (t, e) ↦ elim (List-cases (stats t).inflight_uids) [
            | inl unknown ↦ (
              (s, drain_failed (unidentified (stats t).active)),
              rw (e, unknown, drain_and_seal) refl,
              refl,
            )
            | inr (uid, uids, known) ↦
                let (q, r, d) = after_abort-Drained s abort_timeout (abort_all (uid ∷ uids) t) in
                (q, rw (e, known, drain_and_seal) r, d)
          ]
        ]

    -- What a call has done in the end: it answers with what is sealed, either from before, or now, the gate
    -- closed and nothing active; or it fails and nothing is sealed. Then the gate is closed, unless the
    -- engine was in a state that no stop is prepared from, and is left as it was.
    abbrev pub Barred : Frontend → Frontend × Prepared → Type 0
    Barred s (s', prepared doc) =
        (s'.sealed_accounting ≡ some doc)
        × ((s' ≡ s)
            ⊎ ((s'.maintenance ≡ stopping)
                × (t : ℕ) × ((stats t).active ≡ 0)
                × (doc ≡ sealed_at stats late s t)))
    Barred s (s', drain_failed e) =
        (s'.sealed_accounting ≡ none)
        × ((IsRefused s.maintenance × (s' ≡ s)) ⊎ (s'.maintenance ≡ stopping))

    Drained-Barred :
        (s : Frontend) (q : Frontend × Prepared)
        → s.sealed_accounting ≡ none
        → Drained (record s { maintenance = stopping }) q
        → Barred s q
    Drained-Barred s (s', prepared doc) fresh (t, quiet, e, same) =
        rw same (refl, inr (refl, t, quiet, e))
    Drained-Barred s (s', drain_failed why) fresh same = rw same (fresh, inr refl)

    prepare_under-Barred :
        (o : Option Accounting) (refused : Option DrainError) (s : Frontend)
        (drain_timeout abort_timeout now : ℕ)
        → s.sealed_accounting ≡ o
        → ((why : DrainError) → refused ≡ some why → IsRefused s.maintenance)
        → (q : Frontend × Prepared) × (prepare_under stats late abort_all o refused s drain_timeout
              abort_timeout now
            ≡ some q)
          × Barred s q
    unfolding prepare_under
    prepare_under-Barred (some doc) refused s drain_timeout abort_timeout now e from =
        ((s, prepared doc), refl, (e, inl refl))
    prepare_under-Barred none (some why) s drain_timeout abort_timeout now e from =
        ((s, drain_failed why), refl, (e, inl (from why refl, refl)))
    prepare_under-Barred none none s drain_timeout abort_timeout now e from =
        let (q, r, d) =
          drain_and_seal-Drained (record s { maintenance = stopping }) drain_timeout abort_timeout
            now in
        (q, r, Drained-Barred s q e d)

    pub prepare_stop_accounting-Barred :
        (s : Frontend) (drain_timeout abort_timeout now : ℕ)
        → (q : Frontend × Prepared) × (prepare_stop_accounting stats late abort_all s drain_timeout
              abort_timeout now
            ≡ some q)
          × Barred s q
    unfolding prepare_stop_accounting
    prepare_stop_accounting-Barred s drain_timeout abort_timeout now =
        prepare_under-Barred s.sealed_accounting (refusal s.maintenance) s drain_timeout
          abort_timeout now refl (refusal-IsRefused s.maintenance)

-- A daemon that asks again after an answer, at any time and whatever the engine did in between to its
-- statistics, gets the same answer, and nothing changes.
pub prepare_stop_accounting_again :
    (stats stats' : ℕ → Tracker) (late late' : ℕ → ℕ) (abort_all abort_all' : List ℕ → ℕ → Bool × ℕ)
    (s s' : Frontend) (doc : Accounting)
    (drain_timeout abort_timeout now drain_timeout' abort_timeout' now' : ℕ)
    → prepare_stop_accounting stats late abort_all s drain_timeout abort_timeout now
      ≡ some (s', prepared doc)
    → prepare_stop_accounting stats' late' abort_all' s' drain_timeout' abort_timeout' now'
      ≡ some (s', prepared doc)
unfolding prepare_stop_accounting prepare_under
prepare_stop_accounting_again stats stats' late late' abort_all abort_all' s s' doc d a now d' a'
      now' e =
    let (q, r, barred) = prepare_stop_accounting-Barred stats late abort_all s d a now in
    let b =
      subst (Barred stats late abort_all s) (some-injective q (s', prepared doc) (sym r ∙ e))
        barred in
    ap (λ o. prepare_under stats' late' abort_all' o (refusal s'.maintenance) s' d' a' now') b.0
    ∙ refl

-- A client that is not on this host closes nothing.
pub prepare_stop_remote :
    (stats : ℕ → Tracker) (late : ℕ → ℕ) (abort_all : List ℕ → ℕ → Bool × ℕ)
    (ip_address : List ℕ → Option Address) (s : Frontend) (host : Option (List ℕ))
    (body : Option (ℕ × ℕ)) (now : ℕ)
    → is_loopback ip_address host ≡ false
    → prepare_stop stats late abort_all ip_address s host body now ≡ some (s, forbidden)
unfolding prepare_stop
prepare_stop_remote stats late abort_all ip_address s host body now e = rw e refl
