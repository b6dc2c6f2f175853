-- ===== src/Frontend/Moves.antt =====
-- What the steps of `FrontendManager` of python/maxtoken/server/api_server.py do to a request that they are not
-- about, and its start.
use maxtoken.Prelude.{
  ℕ, ◌<◌, List, [], ◌∷◌, Option, none, some, false, ◌==◌, ◌≡◌, refl, sym, inl, inr, arith,
  Bool-cases, Option-cases, eqb_refl,
}
use mathlib.Core.Path.{subst}
use maxtoken.Frontend.{
  Frontend, UserReply, Waiter, waits, yields, assign, is_serving, new_user, cleanup, is_last, start,
  take_acks, resume_waiter, resume, leave, abort_user,
}
use maxtoken.Frontend.View.{IsReady, Moves, stays_Moves, starts-Moves}

abbrev pub ReadyAt : ℕ → List UserReply → Frontend → Type 0
ReadyAt u later w = (u < w.uid_counter) × IsReady later (w.ack_map u) (w.waiters u)

abbrev pub MovesAt :
    ℕ → List UserReply → Frontend → List UserReply → List UserReply → Frontend → Type 0
MovesAt u later w out new w' =
    (u < w'.uid_counter)
    × Moves later (w.ack_map u) (w.waiters u) out new (w'.ack_map u) (w'.waiters u)

pub new_user_at :
    (u : ℕ) (later : List UserReply) (w : Frontend)
    → ReadyAt u later w
    → MovesAt u later w [] [] (new_user w)
unfolding new_user
new_user_at u later w ready =
    let other : (w.uid_counter == u) ≡ false = ground (arith, ready.0) in
    elim (Bool-cases (is_serving w.maintenance_state)) [
      | inl e ↦
          rw (e, new_user, other)
            (omega (arith, ready.0), stays_Moves later (w.ack_map u) (w.waiters u) ready.1)
      | inr e ↦ rw (e, new_user) (ready.0, stays_Moves later (w.ack_map u) (w.waiters u) ready.1)
    ]

pub cleanup_at :
    (u uid : ℕ) (later : List UserReply) (w : Frontend)
    → (uid == u) ≡ false
    → ReadyAt u later w
    → MovesAt u later w [] [] (cleanup uid w)
unfolding cleanup
cleanup_at u uid later w other ready =
    rw other (ready.0, stays_Moves later (w.ack_map u) (w.waiters u) ready.1)

pub leave_at :
    (u uid : ℕ) (later : List UserReply) (w : Frontend)
    → (uid == u) ≡ false
    → ReadyAt u later w
    → MovesAt u later w [] [] (leave uid w)
unfolding leave
leave_at u uid later w other ready = elim (Option-cases (w.waiters uid)) [
  | inl e ↦ rw (e, leave) (ready.0, stays_Moves later (w.ack_map u) (w.waiters u) ready.1)
  | inr (waiter, e) ↦ rw (e, leave) (cleanup_at u uid later w other ready)
]

pub abort_user_at :
    (u uid : ℕ) (later : List UserReply) (w : Frontend)
    → (uid == u) ≡ false
    → ReadyAt u later w
    → MovesAt u later w [] [] (abort_user uid w)
unfolding abort_user
abort_user_at u uid later w other ready =
    rw other (ready.0, stays_Moves later (w.ack_map u) (w.waiters u) ready.1)

pub start_other :
    (u uid : ℕ) (later : List UserReply) (w : Frontend)
    → (uid == u) ≡ false
    → ReadyAt u later w
    → MovesAt u later w [] [] (start uid w)
unfolding start
start_other u uid later w other ready = elim (Option-cases (w.waiters uid)) [
  | inr (waiter, e) ↦ rw (e, start) (ready.0, stays_Moves later (w.ack_map u) (w.waiters u) ready.1)
  | inl e ↦ elim (Option-cases (w.event_map uid)) [
    | inl g ↦ rw (e, g, start) (ready.0, stays_Moves later (w.ack_map u) (w.waiters u) ready.1)
    | inr (event, g) ↦
        rw (e, g, start, other) (ready.0, stays_Moves later (w.ack_map u) (w.waiters u) ready.1)
  ]
]

-- The request's state before a step, as it was found.
pub IsReady-at :
    (u : ℕ) (later : List UserReply) (w : Frontend) (acks : Option (List UserReply))
    (waiter : Option Waiter)
    → w.ack_map u ≡ acks
    → w.waiters u ≡ waiter
    → IsReady later (w.ack_map u) (w.waiters u)
    → IsReady later acks waiter
IsReady-at u later w acks waiter same_acks same_waiter ready =
    subst (λ o. IsReady later o waiter) same_acks
      (subst (IsReady later (w.ack_map u)) same_waiter ready)

pub from_at :
    (u : ℕ) (later : List UserReply) (w : Frontend) (acks : Option (List UserReply))
    (waiter : Option Waiter)
    → w.ack_map u ≡ acks
    → w.waiters u ≡ waiter
    → (out new : List UserReply) (acks' : Option (List UserReply)) (waiter' : Option Waiter)
    → Moves later acks waiter out new acks' waiter'
    → Moves later (w.ack_map u) (w.waiters u) out new acks' waiter'
from_at u later w acks waiter same_acks same_waiter out new acks' waiter' moves =
    subst (λ o. Moves later o (w.waiters u) out new acks' waiter') (sym same_acks)
      (subst (λ o. Moves later acks o out new acks' waiter') (sym same_waiter) moves)

pub moves_to :
    (u : ℕ) (later : List UserReply) (w w' w'' : Frontend) (out new : List UserReply)
    → w'' ≡ w'
    → MovesAt u later w out new w'
    → MovesAt u later w out new w''
moves_to u later w w' w'' out new same moves = subst (MovesAt u later w out new) (sym same) moves

pub stays_at :
    (u : ℕ) (later : List UserReply) (w w' : Frontend)
    → w' ≡ w
    → ReadyAt u later w
    → MovesAt u later w [] [] w'
stays_at u later w w' same ready =
    moves_to u later w w w' [] [] same
      (ready.0, stays_Moves later (w.ack_map u) (w.waiters u) ready.1)

pub start_own :
    (u : ℕ) (later : List UserReply) (w : Frontend)
    → ReadyAt u later w
    → MovesAt u later w [] [] (start u w)
unfolding start
start_own u later w ready = elim (Option-cases (w.waiters u)) [
  | inr (waiter, e) ↦ stays_at u later w (start u w) (rw (e, start)) ready
  | inl e ↦ elim (Option-cases (w.event_map u)) [
    | inl g ↦ stays_at u later w (start u w) (rw (e, g, start)) ready
    | inr (event, g) ↦
        moves_to u later w (record w { waiters = assign u (some (waits event)) w.waiters })
          (start u w) [] [] (rw (e, g, start))
          (rw (eqb_refl u) (
            ready.0,
            from_at u later w (w.ack_map u) none refl e [] [] (w.ack_map u) (some (waits event)) (
                starts-Moves later (w.ack_map u) event
                  (IsReady-at u later w (w.ack_map u) none refl e ready.1)),
          ))
  ]
]

pub take_acks_other :
    (u uid event : ℕ) (later : List UserReply) (w : Frontend)
    → (uid == u) ≡ false
    → ReadyAt u later w
    → MovesAt u later w [] [] (take_acks uid event w)
unfolding take_acks cleanup
take_acks_other u uid event later w other ready = elim (Option-cases (w.ack_map uid)) [
  | inl e ↦
      rw (e, take_acks, other) (ready.0, stays_Moves later (w.ack_map u) (w.waiters u) ready.1)
  | inr (acks, e) ↦
      rw (e, take_acks, other) (ready.0, stays_Moves later (w.ack_map u) (w.waiters u) ready.1)
]

pub waiter_other :
    (u uid : ℕ) (later : List UserReply) (waiter : Waiter) (w : Frontend)
    → (uid == u) ≡ false
    → ReadyAt u later w
    → MovesAt u later w [] [] (resume_waiter uid waiter w).0
unfolding resume_waiter cleanup
waiter_other u uid later (waits event) w other ready = elim (Bool-cases (w.is_set event)) [
  | inl e ↦ rw e (take_acks_other u uid event later w other ready)
  | inr e ↦ rw e (ready.0, stays_Moves later (w.ack_map u) (w.waiters u) ready.1)
]
waiter_other u uid later (yields event (ack ∷ rest) last) w other ready =
    rw other (ready.0, stays_Moves later (w.ack_map u) (w.waiters u) ready.1)
waiter_other u uid later (yields event [] last) w other ready = elim (Bool-cases (is_last last)) [
  | inl e ↦ rw (e, other) (ready.0, stays_Moves later (w.ack_map u) (w.waiters u) ready.1)
  | inr e ↦ rw (e, other) (ready.0, stays_Moves later (w.ack_map u) (w.waiters u) ready.1)
]

pub resume_other :
    (u uid : ℕ) (later : List UserReply) (w : Frontend)
    → (uid == u) ≡ false
    → ReadyAt u later w
    → MovesAt u later w [] [] (resume uid w).0
unfolding resume
resume_other u uid later w other ready = elim (Option-cases (w.waiters uid)) [
  | inl e ↦ rw (e, resume) (ready.0, stays_Moves later (w.ack_map u) (w.waiters u) ready.1)
  | inr (waiter, e) ↦ rw (e, resume) (waiter_other u uid later waiter w other ready)
]
