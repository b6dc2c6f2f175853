-- ===== src/Frontend/OwnWaiter.antt =====
-- What the waiter of a request does to it in `FrontendManager` of python/maxtoken/server/api_server.py.
use maxtoken.Prelude.{
  ℕ, ◌<◌, List, [], ◌∷◌, ◌++◌, Option, none, some, true, false, ◌≡◌, refl, sym, ◌∙◌, inl, inr, ◌⊎◌,
  Bool-cases, Option-cases, eqb_refl,
}
use mathlib.Core.Path.{subst}
use mathlib.Core.Bool.{true≢false}
use maxtoken.Frontend.{
  Frontend, UserReply, Waiter, waits, yields, assign, cleanup, is_last, take_acks, resume_waiter,
  resume,
}
use maxtoken.Frontend.View.{
  queue_of, left_of, stays_Moves, taken-Moves, handed-Moves, dropped-Moves, rounds-Moves,
}
use maxtoken.Frontend.Moves.{ReadyAt, MovesAt, IsReady-at, from_at, moves_to}

pub cleanup_own :
    (u : ℕ) (later : List UserReply) (w w' : Frontend) (acks : Option (List UserReply))
    (waiter : Option Waiter)
    → w.ack_map u ≡ acks
    → w.waiters u ≡ waiter
    → u < w'.uid_counter
    → left_of acks waiter ++ later ≡ []
    → MovesAt u later w [] [] (cleanup u w')
unfolding cleanup
cleanup_own u later w w' acks waiter same_acks same_waiter given nothing = rw (eqb_refl u) (
  given,
  from_at u later w acks waiter same_acks same_waiter [] [] none none
      (dropped-Moves later acks waiter nothing),
)

pub take_acks_own :
    (u event : ℕ) (later : List UserReply) (w : Frontend)
    → w.waiters u ≡ some (waits event)
    → ReadyAt u later w
    → MovesAt u later w [] [] (take_acks u event w)
unfolding take_acks
take_acks_own u event later w there ready =
    let cleared : Frontend = record w { is_set = assign event false w.is_set } in
    elim (Option-cases (w.ack_map u)) [
      | inl e ↦
          let nothing = (IsReady-at u later w none (some (waits event)) e there ready.1).0 in
          moves_to u later w (cleanup u cleared) (take_acks u event w) [] [] (rw (e, take_acks))
            (cleanup_own u later w cleared none (some (waits event)) e there ready.0 nothing)
      | inr (acks, e) ↦
          moves_to u later w
            (record cleared {
              ack_map = assign u (some []) w.ack_map;
              waiters = assign u (some (yields event acks none)) w.waiters;
            })
            (take_acks u event w) [] [] (rw (e, take_acks))
            (rw (eqb_refl u) (
              ready.0,
              from_at u later w (some acks) (some (waits event)) e there [] [] (some [])
                  (some (yields event acks none))
                  (taken-Moves later acks event
                    (IsReady-at u later w (some acks) (some (waits event)) e there ready.1)),
            ))
    ]

-- After the finished reply nothing comes.
pub over :
    (last : Option UserReply) (stream : List UserReply)
    → is_last last ≡ true
    → (is_last last ≡ false) ⊎ (stream ≡ [])
    → stream ≡ []
over last stream e (inl h) = absurd (true≢false (sym e ∙ h))
over last stream e (inr h) = h

-- The request's own waiter runs.
pub waiter_own :
    (u : ℕ) (later : List UserReply) (waiter : Waiter) (w : Frontend)
    → w.waiters u ≡ some waiter
    → ReadyAt u later w
    → let done = resume_waiter u waiter w in MovesAt u later w done.1 [] done.0
unfolding resume_waiter
waiter_own u later (waits event) w there ready = elim (Bool-cases (w.is_set event)) [
  | inl e ↦ rw e (take_acks_own u event later w there ready)
  | inr e ↦ rw e (ready.0, stays_Moves later (w.ack_map u) (w.waiters u) ready.1)
]
waiter_own u later (yields event (ack ∷ rest) last) w there ready =
    let old = some (yields event (ack ∷ rest) last) in
    let new = some (yields event rest (some ack)) in
    rw (eqb_refl u) (
      ready.0,
      from_at u later w (w.ack_map u) old refl there (ack ∷ []) [] (w.ack_map u) new (
          handed-Moves later (w.ack_map u) event ack rest last
            (IsReady-at u later w (w.ack_map u) old refl there ready.1)),
    )
waiter_own u later (yields event [] last) w there ready =
    let old = some (yields event [] last) in
    let ready' = IsReady-at u later w (w.ack_map u) old refl there ready.1 in
    elim (Bool-cases (is_last last)) [
      | inl e ↦ rw e (
          cleanup_own u later w w (w.ack_map u) old refl there ready.0
            (over last (queue_of (w.ack_map u) ++ later) e ready'.1))
      | inr e ↦
          rw (e, eqb_refl u)
            (
              ready.0,
              from_at u later w (w.ack_map u) old refl there [] [] (w.ack_map u)
                  (some (waits event)) (rounds-Moves later (w.ack_map u) event last ready'),
            )
    ]

pub resume_own :
    (u : ℕ) (later : List UserReply) (w : Frontend)
    → ReadyAt u later w
    → MovesAt u later w (resume u w).1 [] (resume u w).0
unfolding resume
resume_own u later w ready = elim (Option-cases (w.waiters u)) [
  | inl e ↦
      let same : resume u w ≡ (w, []) = rw (e, resume) in
      subst (λ d. MovesAt u later w d.1 [] d.0) (sym same)
        (ready.0, stays_Moves later (w.ack_map u) (w.waiters u) ready.1)
  | inr (waiter, e) ↦
      let same : resume u w ≡ resume_waiter u waiter w = rw (e, resume) in
      subst (λ d. MovesAt u later w d.1 [] d.0) (sym same) (waiter_own u later waiter w e ready)
]
