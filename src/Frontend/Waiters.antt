-- ===== src/Frontend/Waiters.antt =====
-- What requests and their waiters do in `FrontendManager` of python/maxtoken/server/api_server.py keeps the
-- dictionaries in step.
use maxtoken.Prelude.{
  ℕ, ◌<◌, [], ◌∷◌, none, some, false, ◌==◌, ◌≡◌, refl, sym, arith, inl, inr, Bool-cases,
  Option-cases, eqb→eq,
}
use mathlib.Core.Path.{subst}
use maxtoken.Frontend.{
  Frontend, Waiter, waits, yields, is_serving, new_user, cleanup, is_last, start, take_acks,
  resume_waiter, resume, leave, abort_user,
}
use maxtoken.Frontend.Linked.{
  OwnEvent, LinkedAt, IsLinked, gone, older, registered, with_waiter, waiting, requeued,
  set_waiter-IsLinked,
}

pub cleanup-IsLinked : (uid : ℕ) (w : Frontend) → IsLinked w → IsLinked (cleanup uid w)
unfolding cleanup
cleanup-IsLinked uid w linked u = elim (Bool-cases (uid == u)) [
  | inl e ↦ rw e (tt, tt, inr (refl, refl))
  | inr e ↦ rw e (linked u)
]

pub abort_user-IsLinked : (uid : ℕ) (w : Frontend) → IsLinked w → IsLinked (abort_user uid w)
unfolding abort_user
abort_user-IsLinked uid w linked u = elim (Bool-cases (uid == u)) [
  | inl e ↦ rw e (
      gone u (w.ack_map u) (w.event_map u) (w.is_set u) (w.waiters u) w.uid_counter (linked u)
        (w.is_set u))
  | inr e ↦ rw e (linked u)
]

pub leave-IsLinked : (uid : ℕ) (w : Frontend) → IsLinked w → IsLinked (leave uid w)
unfolding leave
leave-IsLinked uid w linked = elim (Option-cases (w.waiters uid)) [
  | inl e ↦ rw (e, leave) linked
  | inr (waiter, e) ↦ rw (e, leave) (cleanup-IsLinked uid w linked)
]

pub new_user-IsLinked : (w : Frontend) → IsLinked w → IsLinked (new_user w)
unfolding new_user
new_user-IsLinked w linked u = elim (Bool-cases (is_serving w.maintenance_state)) [
  | inr s ↦ rw (s, new_user) (linked u)
  | inl s ↦ elim (Bool-cases (w.uid_counter == u)) [
    | inl e ↦
        let same : w.uid_counter ≡ u = eqb→eq w.uid_counter u e in
        rw (s, e, new_user) ((same, refl), (linked u).1, inl (omega (arith, same)))
    | inr e ↦
        rw (s, e, new_user)
          (older u (w.ack_map u) (w.event_map u) (w.is_set u) (w.waiters u) w.uid_counter
            (linked u))
  ]
]

pub start-IsLinked : (uid : ℕ) (w : Frontend) → IsLinked w → IsLinked (start uid w)
unfolding start
start-IsLinked uid w linked = elim (Option-cases (w.waiters uid)) [
  | inr (waiter, e) ↦ rw (e, start) linked
  | inl e ↦ elim (Option-cases (w.event_map uid)) [
    | inl g ↦ rw (e, g, start) linked
    | inr (event, g) ↦
        let known =
          registered uid (w.ack_map uid) event (w.is_set uid) (w.waiters uid) w.uid_counter (
            subst (λ o. LinkedAt uid (w.ack_map uid) o (w.is_set uid) (w.waiters uid) w.uid_counter)
              g (linked uid)) in
        rw (e, g, start) (set_waiter-IsLinked uid (waits event) w linked known.1 known.0)
  ]
]

pub take_acks-IsLinked :
    (uid : ℕ) (w : Frontend) → IsLinked w → uid < w.uid_counter → IsLinked (take_acks uid uid w)
unfolding take_acks cleanup
take_acks-IsLinked uid w linked given = elim (Option-cases (w.ack_map uid)) [
  | inl e ↦
      rw (e, take_acks)
        (λ u. elim (Bool-cases (uid == u)) [
          | inl g ↦ rw g (tt, tt, inr (refl, refl))
          | inr g ↦ rw g (linked u)
        ])
  | inr (acks, e) ↦
      let taken : LinkedAt uid (some acks) (w.event_map uid) (w.is_set uid) (w.waiters uid)
          w.uid_counter =
        subst (λ o. LinkedAt uid o (w.event_map uid) (w.is_set uid) (w.waiters uid) w.uid_counter) e
          (linked uid) in
      rw (e, take_acks)
        (λ u. elim (Bool-cases (uid == u)) [
          | inl g ↦ rw g (
              subst
                (λ k.
                  LinkedAt k (some []) (w.event_map k) false (some (yields uid acks none))
                    w.uid_counter)
                (eqb→eq uid u g)
                (with_waiter uid (some []) (w.event_map uid) false (w.waiters uid)
                  (some (yields uid acks none)) w.uid_counter
                  (requeued uid acks [] (w.event_map uid) (w.is_set uid) false (w.waiters uid)
                    w.uid_counter taken refl)
                  given refl))
          | inr g ↦ rw g (linked u)
        ])
]

-- What a waiter of the state does keeps the state linked.
pub resume_waiter-IsLinked :
    (uid : ℕ) (waiter : Waiter) (w : Frontend)
    → IsLinked w
    → OwnEvent uid (some waiter)
    → uid < w.uid_counter
    → IsLinked (resume_waiter uid waiter w).0
unfolding resume_waiter cleanup
resume_waiter-IsLinked uid (waits event) w linked own given = elim (Bool-cases (w.is_set event)) [
  | inl e ↦
      rw e (
        subst (λ k. IsLinked (take_acks uid k w)) (sym own) (take_acks-IsLinked uid w linked given))
  | inr e ↦ rw e linked
]
resume_waiter-IsLinked uid (yields event (ack ∷ rest) last) w linked own given =
    set_waiter-IsLinked uid (yields event rest (some ack)) w linked given own
resume_waiter-IsLinked uid (yields event [] last) w linked own given =
    elim (Bool-cases (is_last last)) [
      | inl e ↦ rw e (cleanup-IsLinked uid w linked)
      | inr e ↦ rw e (set_waiter-IsLinked uid (waits event) w linked given own)
    ]

pub resume-IsLinked : (uid : ℕ) (w : Frontend) → IsLinked w → IsLinked (resume uid w).0
unfolding resume
resume-IsLinked uid w linked = elim (Option-cases (w.waiters uid)) [
  | inl e ↦ rw (e, resume) linked
  | inr (waiter, e) ↦
      let known =
        waiting uid (w.ack_map uid) (w.event_map uid) (w.is_set uid) waiter w.uid_counter (
          subst (λ o. LinkedAt uid (w.ack_map uid) (w.event_map uid) (w.is_set uid) o w.uid_counter)
            e (linked uid)) in
      rw (e, resume) (resume_waiter-IsLinked uid waiter w linked known.0 known.1)
]
