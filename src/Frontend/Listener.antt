-- ===== src/Frontend/Listener.antt =====
-- The listener of `FrontendManager` of python/maxtoken/server/api_server.py finds each key that it needs, in any
-- order of the tasks' steps.
use maxtoken.Prelude.{
  ℕ, List, [], ◌∷◌, ◌++◌, Option, none, some, Bool, true, false, ◌==◌, ◌||◌, ◌≡◌, refl, arith, inl,
  inr, Bool-cases, Option-cases, eqb→eq,
}
use mathlib.Core.Path.{subst}
use maxtoken.Frontend.{
  Frontend, UserReply, Event, arrives, replies, starts, runs, leaves, aborts, maintains, assign,
  receive, receive_all, step, run, after_step,
}
use maxtoken.Frontend.Linked.{
  is_nil, LinkedAt, IsLinked, MaybeLinked, RunLinked, registered, requeued,
}
use maxtoken.Frontend.Waiters.{
  abort_user-IsLinked, leave-IsLinked, new_user-IsLinked, start-IsLinked, resume-IsLinked,
}

set_or : (b : Bool) → (b || true) ≡ true
set_or true = refl
set_or false = refl

queued-IsLinked :
    (uid event : ℕ) (acks : List UserReply) (msg : UserReply) (w : Frontend)
    → IsLinked w
    → w.ack_map uid ≡ some acks
    → event ≡ uid
    → IsLinked (record w {
      ack_map = assign uid (some (acks ++ msg ∷ [])) w.ack_map;
      is_set = assign event true w.is_set;
    })
queued-IsLinked uid event acks msg w linked there own u =
    let at_uid : LinkedAt uid (some acks) (w.event_map uid) (w.is_set uid) (w.waiters uid)
        w.uid_counter =
      subst (λ o. LinkedAt uid o (w.event_map uid) (w.is_set uid) (w.waiters uid) w.uid_counter)
        there (linked uid) in
    elim (Bool-cases (uid == u)) [
      | inl g ↦
          let same : uid ≡ u = eqb→eq uid u g in
          let set : (event == u) ≡ true = ground (arith, own) in
          rw (g, set)
            (subst
              (λ k.
                LinkedAt k (some (acks ++ msg ∷ [])) (w.event_map k) true (w.waiters k)
                  w.uid_counter)
              same
              (requeued uid acks (acks ++ msg ∷ []) (w.event_map uid) (w.is_set uid) true
                (w.waiters uid) w.uid_counter at_uid (set_or (is_nil (acks ++ msg ∷ [])))))
      | inr g ↦ let unset : (event == u) ≡ false = ground (arith, own) in rw (g, unset) (linked u)
    ]

receive-IsLinked :
    (now : ℕ) (msg : UserReply) (w : Frontend) → IsLinked w → MaybeLinked (receive now msg w)
unfolding receive
receive-IsLinked now msg w linked =
    let uid = msg.reply.uid in
    elim (Option-cases (w.ack_map uid)) [
      | inl e ↦ rw (e, receive) linked
      | inr (acks, e) ↦
          let at_uid : LinkedAt uid (some acks) (w.event_map uid) (w.is_set uid) (w.waiters uid)
              w.uid_counter =
            subst
              (λ o. LinkedAt uid o (w.event_map uid) (w.is_set uid) (w.waiters uid) w.uid_counter) e
              (linked uid) in
          elim (Option-cases (w.event_map uid)) [
            | inl g ↦
                absurd
                  (subst
                    (λ o. LinkedAt uid (some acks) o (w.is_set uid) (w.waiters uid) w.uid_counter) g
                    at_uid).0
            | inr (event, g) ↦
                let known =
                  registered uid (some acks) event (w.is_set uid) (w.waiters uid) w.uid_counter (
                    subst
                      (λ o. LinkedAt uid (some acks) o (w.is_set uid) (w.waiters uid) w.uid_counter)
                      g at_uid) in
                rw (e, g, receive) (queued-IsLinked uid event acks msg w linked e known.0)
          ]
    ]

next_receive :
    (now : ℕ) (msgs : List UserReply) (o : Option Frontend)
    → MaybeLinked o
    → ((w : Frontend) → IsLinked w → MaybeLinked (receive_all now msgs w))
    → MaybeLinked (elim o [ none ↦ none | some w' ↦ receive_all now msgs w' ])
next_receive now msgs none linked next = linked
next_receive now msgs (some w) linked next = next w linked

receive_all-IsLinked :
    (now : ℕ) (msgs : List UserReply) (w : Frontend)
    → IsLinked w
    → MaybeLinked (receive_all now msgs w)
unfolding receive_all
receive_all-IsLinked now [] w linked = linked
receive_all-IsLinked now (msg ∷ msgs) w linked =
    next_receive now msgs (receive now msg w) (receive-IsLinked now msg w linked)
      (receive_all-IsLinked now msgs)

received-RunLinked :
    (o : Option Frontend)
    → MaybeLinked o
    → RunLinked (elim o [ none ↦ none | some w' ↦ some (w', []) ])
received-RunLinked none linked = linked
received-RunLinked (some w) linked = linked

after_step-RunLinked :
    (acks : List (ℕ × UserReply)) (o : Option (Frontend × List (ℕ × UserReply)))
    → RunLinked o
    → RunLinked (after_step acks o)
after_step-RunLinked acks none linked = linked
after_step-RunLinked acks (some (w, later)) linked = linked

next_step :
    (events : List Event) (o : Option (Frontend × List (ℕ × UserReply)))
    → RunLinked o
    → ((w : Frontend) → IsLinked w → RunLinked (run events w))
    → RunLinked (elim o [ none ↦ none | some (w', acks) ↦ after_step acks (run events w') ])
next_step events none linked next = linked
next_step events (some (w, acks)) linked next =
    after_step-RunLinked acks (run events w) (next w linked)

step-RunLinked : (event : Event) (w : Frontend) → IsLinked w → RunLinked (step event w)
unfolding step
step-RunLinked arrives w linked = new_user-IsLinked w linked
step-RunLinked (replies now msgs) w linked =
    received-RunLinked (receive_all now msgs w) (receive_all-IsLinked now msgs w linked)
step-RunLinked (starts uid) w linked = start-IsLinked uid w linked
step-RunLinked (runs uid) w linked = resume-IsLinked uid w linked
step-RunLinked (leaves uid) w linked = leave-IsLinked uid w linked
step-RunLinked (aborts uid) w linked = abort_user-IsLinked uid w linked
step-RunLinked (maintains m) w linked = linked

-- For any order of admissions, replies, waiters that start, run or leave, aborts and changes of the gate, from a
-- state in which every request is linked: the listener does not end on a missing key, and every request is linked
-- again. So the two dictionaries hold the same requests, an event is set whenever replies wait for it, no waiter
-- waits for the event of another request, and a number that is not given yet has neither replies nor a waiter.
pub run-RunLinked : (events : List Event) (w : Frontend) → IsLinked w → RunLinked (run events w)
unfolding run
run-RunLinked [] w linked = linked
run-RunLinked (event ∷ events) w linked =
    next_step events (step event w) (step-RunLinked event w linked) (run-RunLinked events)
