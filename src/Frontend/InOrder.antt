-- ===== src/Frontend/InOrder.antt =====
-- A run of `FrontendManager` of python/maxtoken/server/api_server.py hands each request its replies, all of them and
-- in order.
use maxtoken.Prelude.{
  ℕ, List, [], ◌∷◌, ◌++◌, Option, none, some, false, ◌==◌, if◌then◌else◌, ◌≡◌, refl, ap, sym, ◌∙◌,
  inl, inr, append-nil, append_assoc, Bool-cases, All, eqb→eq, eqb_refl,
}
use mathlib.Core.Path.{subst}
use maxtoken.Frontend.{
  Frontend, UserReply, Event, arrives, replies, starts, runs, leaves, aborts, maintains,
  receive_all, start, resume, step, run, after_step, handed,
}
use maxtoken.Frontend.View.{left_of, Moves, stays_Moves, Moves-append}
use maxtoken.Frontend.Moves.{
  ReadyAt, MovesAt, new_user_at, leave_at, abort_user_at, start_own, start_other, resume_other,
}
use maxtoken.Frontend.OwnWaiter.{resume_own}
use maxtoken.Frontend.Linked.{IsLinked, RunLinked}
use maxtoken.Frontend.Listener.{run-RunLinked}
use maxtoken.Frontend.Delivery.{
  mine, brought, received, handed_to, Spares, MaybeMoves, receive_all_at,
}

abbrev pub StepMoves :
    ℕ
    → List UserReply
    → Frontend
    → List UserReply
    → Option (Frontend × List (ℕ × UserReply))
    → Type 0
StepMoves u later w new none = Unit
StepMoves u later w new (some (w', acks)) = MovesAt u later w (handed_to u acks) new w'

handed_own : (u : ℕ) (acks : List UserReply) → handed_to u (handed u acks) ≡ acks
handed_own u [] = refl
handed_own u (ack ∷ acks) = rw (eqb_refl u) (ap (λ r. ack ∷ r) (handed_own u acks))

handed_other :
    (u v : ℕ) (acks : List UserReply) → (v == u) ≡ false → handed_to u (handed v acks) ≡ []
handed_other u v [] e = refl
handed_other u v (ack ∷ acks) e = rw e (handed_other u v acks e)

handed_to-append :
    (u : ℕ) (first later : List (ℕ × UserReply))
    → handed_to u (first ++ later) ≡ handed_to u first ++ handed_to u later
handed_to-append u [] later = refl
handed_to-append u ((v, ack) ∷ first) later =
    ap (λ r. (if v == u then ack ∷ [] else []) ++ r) (handed_to-append u first later)
    ∙ sym (append_assoc (if v == u then ack ∷ [] else []) (handed_to u first) (handed_to u later))

runs_at :
    (u v : ℕ) (later : List UserReply) (w : Frontend)
    → ReadyAt u later w
    → MovesAt u later w (handed_to u (handed v (resume v w).1)) [] (resume v w).0
runs_at u v later w ready = elim (Bool-cases (v == u)) [
  | inr e ↦
      subst (λ o. MovesAt u later w o [] (resume v w).0) (sym (handed_other u v (resume v w).1 e))
        (resume_other u v later w e ready)
  | inl e ↦
      subst (λ k. MovesAt u later w (handed_to u (handed k (resume k w).1)) [] (resume k w).0)
        (sym (eqb→eq v u e))
        (subst (λ o. MovesAt u later w o [] (resume u w).0) (sym (handed_own u (resume u w).1))
          (resume_own u later w ready))
]

starts_at :
    (u v : ℕ) (later : List UserReply) (w : Frontend)
    → ReadyAt u later w
    → MovesAt u later w [] [] (start v w)
starts_at u v later w ready = elim (Bool-cases (v == u)) [
  | inr e ↦ start_other u v later w e ready
  | inl e ↦
      subst (λ k. MovesAt u later w [] [] (start k w)) (sym (eqb→eq v u e))
        (start_own u later w ready)
]

received_at :
    (u : ℕ) (later new : List UserReply) (w : Frontend) (o : Option Frontend)
    → MaybeMoves u later w new o
    → StepMoves u later w new (elim o [ none ↦ none | some w' ↦ some (w', []) ])
received_at u later new w none moves = tt
received_at u later new w (some w') moves = moves

step_at :
    (u : ℕ) (event : Event) (later : List UserReply) (w : Frontend)
    → Spares u event
    → ReadyAt u (brought u event ++ later) w
    → StepMoves u later w (brought u event) (step event w)
unfolding step
step_at u arrives later w spares ready = new_user_at u later w ready
step_at u (replies now msgs) later w spares ready =
    received_at u later (mine u msgs) w (receive_all now msgs w)
      (receive_all_at u now msgs later w ready)
step_at u (starts v) later w spares ready = starts_at u v later w ready
step_at u (runs v) later w spares ready = runs_at u v later w ready
step_at u (leaves v) later w spares ready = leave_at u v later w spares ready
step_at u (aborts v) later w spares ready = abort_user_at u v later w spares ready
step_at u (maintains m) later w spares ready =
    (ready.0, stays_Moves later (w.ack_map u) (w.waiters u) ready.1)

after_step_at :
    (u : ℕ) (later new' new : List UserReply) (w w' : Frontend) (acks : List (ℕ × UserReply))
    → (o : Option (Frontend × List (ℕ × UserReply)))
    → MovesAt u (new' ++ later) w (handed_to u acks) new w'
    → StepMoves u later w' new' o
    → StepMoves u later w (new ++ new') (after_step acks o)
after_step_at u later new' new w w' acks none first second = tt
after_step_at u later new' new w w' acks (some (w'', more)) first second = (
  second.0,
  subst
      (λ o. Moves later (w.ack_map u) (w.waiters u) o (new ++ new') (w''.ack_map u) (w''.waiters u))
      (sym (handed_to-append u acks more))
      (Moves-append later new new' (handed_to u acks) (handed_to u more) (w.ack_map u)
        (w'.ack_map u) (w''.ack_map u) (w.waiters u) (w'.waiters u) (w''.waiters u) first.1
        second.1),
)

next_at :
    (u : ℕ) (events : List Event) (later new : List UserReply) (w : Frontend)
    → (o : Option (Frontend × List (ℕ × UserReply)))
    → StepMoves u (received u events ++ later) w new o
    → ((w' : Frontend)
        → ReadyAt u (received u events ++ later) w'
        → StepMoves u later w' (received u events) (run events w'))
    → StepMoves u later w
        (new ++ received u events)
        (elim o [ none ↦ none | some (w', acks) ↦ after_step acks (run events w') ])
next_at u events later new w none moves next = tt
next_at u events later new w (some (w', acks)) moves next =
    after_step_at u later (received u events) new w w' acks (run events w') moves
      (next w' (moves.0, moves.1.1))

run_at :
    (u : ℕ) (events : List Event) (later : List UserReply) (w : Frontend)
    → All (Spares u) events
    → ReadyAt u (received u events ++ later) w
    → StepMoves u later w (received u events) (run events w)
unfolding run
run_at u [] later w spares ready = (ready.0, stays_Moves later (w.ack_map u) (w.waiters u) ready.1)
run_at u (event ∷ events) later w spares ready =
    next_at u events later (brought u event) w (step event w)
      (step_at u event (received u events ++ later) w spares.0 (
        subst (λ n. ReadyAt u n w) (append_assoc (brought u event) (received u events) later)
          ready))
      (λ w' ready'. run_at u events later w' spares.1 ready')

-- What a run has handed to the request and what is left of its replies.
abbrev pub Delivers : ℕ → Frontend → List Event → Option (Frontend × List (ℕ × UserReply)) → Type 0
Delivers u w events none = ⊥
Delivers u w events (some (w', acks)) =
    handed_to u acks ++ left_of (w'.ack_map u) (w'.waiters u)
    ≡ left_of (w.ack_map u) (w.waiters u) ++ received u events

Delivers-from :
    (u : ℕ) (w : Frontend) (events : List Event) (o : Option (Frontend × List (ℕ × UserReply)))
    → RunLinked o
    → StepMoves u [] w (received u events) o
    → Delivers u w events o
Delivers-from u w events none linked moves = linked
Delivers-from u w events (some (w', acks)) linked moves = moves.1.0

-- Let the request `u` be ready in a linked state for the replies that the events bring it: its number is given, it
-- is registered unless no reply is to come, and only its last reply is finished. Then in any order of the tasks'
-- steps in which its consumer does not leave and it is not aborted, the run goes through, and what the request is
-- handed, in order, followed by what is left for it, is what was left before followed by the replies that came.
pub run-Delivers :
    (u : ℕ) (events : List Event) (w : Frontend)
    → IsLinked w
    → All (Spares u) events
    → ReadyAt u (received u events) w
    → Delivers u w events (run events w)
run-Delivers u events w linked spares ready =
    Delivers-from u w events (run events w) (run-RunLinked events w linked) (
      run_at u events [] w spares
        (subst (λ n. ReadyAt u n w) (sym (append-nil (received u events))) ready))
