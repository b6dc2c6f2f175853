-- ===== src/Stats/Active.antt =====
-- Which requests are active, and which are counted as completed.
use maxtoken.Prelude.{
  ℕ, ◌+◌, ◌≡◌, ◌∙◌, refl, ap, List, [], ◌∷◌, ◌++◌, Bool, true, false, ◌==◌, ◌&&◌, if◌then◌else◌,
  arith, contains,
}
use maxtoken.Stats.{
  Tracker, Reply, Event, new_user, abort, reply, poll, reset, add, discard, on_new_user, on_abort,
  observe, observe_tokens, observe_pools, observe_finish, decode_tps, prefill_tps, reset_launch,
  step, run,
}

-- The life of one request.
pub data Status : Type 0 where
  gone running ending : Status

-- An aborted request stays active until its terminal reply.
unfoldable pub after : ℕ → Status → Event → Status
after u st (new_user uid) = if uid == u then running else st
after u running (abort uid) = if uid == u then ending else running
after u st (abort uid) = st
after u st (reply r now) = if r.finished && (r.uid == u) then gone else st
after u st (poll now) = st
after u st reset = st

abbrev status_of : Bool → Bool → Status
status_of false aborting = gone
status_of true false = running
status_of true true = ending

unfoldable pub status : Tracker → ℕ → Status
status s u = status_of (contains u s.inflight) (contains u s.aborting)

contains-add :
    (x u : ℕ) (xs : List ℕ) → contains u (add x xs) ≡ (if x == u then true else contains u xs)
unfolding add
contains-add x u xs = ground (arith, contains-snoc x u xs)
  where
    contains-snoc :
        (x u : ℕ) (ys : List ℕ)
        → contains u (ys ++ x ∷ []) ≡ (if x == u then true else contains u ys)
    contains-snoc x u [] = ground arith
    contains-snoc x u (y ∷ ys) = ground (arith, contains-snoc x u ys)

contains-discard :
    (x u : ℕ) (xs : List ℕ) → contains u (discard x xs) ≡ (if x == u then false else contains u xs)
unfolding discard
contains-discard x u [] = ground arith
contains-discard x u (y ∷ ys) = ground (arith, contains-discard x u ys)

observe-sets :
    (s : Tracker) (r : Reply) (now : ℕ)
    → ((observe s r now).inflight ≡ (observe_finish s r).inflight)
      × ((observe s r now).aborting ≡ (observe_finish s r).aborting)
      × ((observe s r now).completed ≡ (observe_finish s r).completed)
unfolding observe observe_tokens observe_pools observe_finish
observe-sets s r now = (ground arith, ground arith, ground arith)

-- `completed` after an event: one more for a terminal reply of a request that runs.
unfoldable pub completed_after : Tracker → Event → ℕ
completed_after s (reply r now) =
    s.completed + (if r.finished then elim (status s r.uid) [ running ↦ 1 | _ ↦ 0 ] else 0)
completed_after s reset = 0
completed_after s _ = s.completed

status-finish :
    (s : Tracker) (r : Reply) (u : ℕ)
    → status (observe_finish s r) u ≡ (if r.finished && (r.uid == u) then gone else status s u)
unfolding observe_finish status
status-finish s r u =
    ground (arith, contains-discard r.uid u s.inflight, contains-discard r.uid u s.aborting)

completed-finish :
    (s : Tracker) (r : Reply)
    → (observe_finish s r).completed
      ≡ s.completed + (if r.finished then elim (status s r.uid) [ running ↦ 1 | _ ↦ 0 ] else 0)
unfolding observe_finish status
completed-finish s r = ground arith

-- Each event moves every request through its life as `after` says.
pub status-step : (s : Tracker) (e : Event) (u : ℕ) → status (step s e) u ≡ after u (status s u) e
unfolding step after
status-step s (new_user uid) u =
    unfold status on_new_user in
    ground (arith, contains-add uid u s.inflight, contains-discard uid u s.aborting)
status-step s (abort uid) u =
    unfold status on_abort in ground (arith, contains-add uid u s.aborting)
status-step s (reply r now) u =
    let h = observe-sets s r now in
    let same : status (observe s r now) u ≡ status (observe_finish s r) u =
      unfold status in ground (arith, h) in
    same ∙ status-finish s r u
status-step s (poll now) u = unfold status decode_tps prefill_tps in refl
status-step s reset u = unfold status reset_launch in refl

unfoldable pub life : ℕ → Status → List Event → Status
life u st [] = st
life u st (e ∷ es) = life u (after u st e) es

-- Over any run of events, each request's status is what its own events make of it.
pub status-run :
    (s : Tracker) (es : List Event) (u : ℕ) → status (run s es) u ≡ life u (status s u) es
unfolding run life
status-run s [] u = refl
status-run s (e ∷ es) u =
    status-run (step s e) es u ∙ ap (λ (st : Status). life u st es) (status-step s e u)

-- `completed` counts exactly the terminal replies of requests that run and were not aborted, from
-- the last reset on.
pub completed-step : (s : Tracker) (e : Event) → (step s e).completed ≡ completed_after s e
unfolding step completed_after
completed-step s (new_user uid) = unfold on_new_user in refl
completed-step s (abort uid) = unfold on_abort in ground arith
completed-step s (reply r now) = (observe-sets s r now).2 ∙ completed-finish s r
completed-step s (poll now) = unfold decode_tps prefill_tps in refl
completed-step s reset = unfold reset_launch in refl
