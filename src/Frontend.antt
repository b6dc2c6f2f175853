-- ===== src/Frontend.antt =====
-- `FrontendManager` of python/maxtoken/server/api_server.py: how the replies of the workers reach the requests that
-- wait for them. What runs between two awaits is one step, and the tasks' steps may come in any order.
pub mod Linked
pub mod Waiters
pub mod Listener
pub mod View
pub mod Moves
pub mod OwnWaiter
pub mod Delivery
pub mod InOrder
use maxtoken.Prelude.{
  ℕ, suc, List, [], ◌∷◌, ◌++◌, Option, none, some, Bool, true, false, ◌==◌, if◌then◌else◌,
}
use maxtoken.Stats.{Tracker, Reply, on_new_user, on_abort, observe, create}

-- `maintenance_state`
pub data Maintenance : Type 0 where
  loading serving rebuilding failed : Maintenance

-- `UserReply`: what the statistics read, and the text.
pub record UserReply : Type 0 where
  pub reply : Reply
  pub incremental_output : List ℕ

-- A `wait_for_ack` waits for its event, or yields the replies that it has taken; the last is what it yielded before.
pub data Waiter : Type 0 where
  waits : ℕ → Waiter
  yields : ℕ → List UserReply → Option UserReply → Waiter

-- The dictionaries are functions. An event is named by the request it was made for: no number is given twice.
pub record Frontend : Type 0 where
  pub maintenance_state : Maintenance
  pub uid_counter : ℕ
  pub ack_map : ℕ → Option (List UserReply)
  pub event_map : ℕ → Option ℕ
  pub is_set : ℕ → Bool
  pub waiters : ℕ → Option Waiter
  pub stats : Tracker

-- `d[k] = x`; `d.pop(k, None)` is an assignment of none.
abbrev pub assign : {A : Type 0} → ℕ → A → (ℕ → A) → ℕ → A
assign k x d = λ j. if k == j then x else d j

abbrev pub is_serving : Maintenance → Bool
is_serving serving = true
is_serving loading = false
is_serving rebuilding = false
is_serving failed = false

-- `new_user`; a request that is not admitted leaves the state as it is.
unfoldable pub new_user : Frontend → Frontend
new_user w =
    if is_serving w.maintenance_state
    then record w {
      uid_counter = suc w.uid_counter;
      ack_map = assign w.uid_counter (some []) w.ack_map;
      event_map = assign w.uid_counter (some w.uid_counter) w.event_map;
      is_set = assign w.uid_counter false w.is_set;
      stats = on_new_user w.stats w.uid_counter;
    }
    else w

-- One reply in `listen`; none is a key that is missing from `event_map`, which ends the listener.
unfoldable pub receive : ℕ → UserReply → Frontend → Option Frontend
receive now msg w =
    let seen : Frontend = record w { stats = observe w.stats msg.reply now } in
    elim (w.ack_map msg.reply.uid) [
      | none ↦ some seen
      | some acks ↦ elim (w.event_map msg.reply.uid) [
        | none ↦ none
        | some event ↦ some (record seen {
          ack_map = assign msg.reply.uid (some (acks ++ msg ∷ [])) w.ack_map;
          is_set = assign event true w.is_set;
        })
      ]
    ]

unfoldable pub receive_all : ℕ → List UserReply → Frontend → Option Frontend
unfolding receive
receive_all now [] w = some w
receive_all now (msg ∷ msgs) w = elim (receive now msg w) [
  | none ↦ none
  | some w' ↦ receive_all now msgs w'
]

-- The `finally` of `wait_for_ack`.
unfoldable pub cleanup : ℕ → Frontend → Frontend
cleanup uid w = record w {
  ack_map = assign uid none w.ack_map;
  event_map = assign uid none w.event_map;
  waiters = assign uid none w.waiters;
}

abbrev pub is_last : Option UserReply → Bool
is_last none = false
is_last (some ack) = ack.reply.finished

-- The start of `wait_for_ack`; a missing key is raised to its caller.
unfoldable pub start : ℕ → Frontend → Frontend
start uid w = elim (w.waiters uid) [
  | some waiter ↦ w
  | none ↦ elim (w.event_map uid) [
    | none ↦ w
    | some event ↦ record w { waiters = assign uid (some (waits event)) w.waiters }
  ]
]

-- `await event.wait()` ends: the replies that are there are taken. A missing key is raised through the `finally`.
unfoldable pub take_acks : ℕ → ℕ → Frontend → Frontend
unfolding cleanup
take_acks uid event w = elim (w.ack_map uid) [
  | none ↦ cleanup uid (record w { is_set = assign event false w.is_set })
  | some pending ↦ record w {
    is_set = assign event false w.is_set;
    ack_map = assign uid (some []) w.ack_map;
    waiters = assign uid (some (yields event pending none)) w.waiters;
  }
]

-- What a waiter does when it runs: the state, and the reply that it yields.
unfoldable pub resume_waiter : ℕ → Waiter → Frontend → Frontend × List UserReply
unfolding take_acks cleanup
resume_waiter uid (waits event) w = (if w.is_set event then take_acks uid event w else w, [])
resume_waiter uid (yields event (ack ∷ rest) last) w =
    (record w { waiters = assign uid (some (yields event rest (some ack))) w.waiters }, ack ∷ [])
resume_waiter uid (yields event [] last) w = (
  if is_last last
      then cleanup uid w
      else record w { waiters = assign uid (some (waits event)) w.waiters },
  [],
)

unfoldable pub resume : ℕ → Frontend → Frontend × List UserReply
unfolding resume_waiter
resume uid w = elim (w.waiters uid) [ none ↦ (w, []) | some waiter ↦ resume_waiter uid waiter w ]

-- The consumer leaves its generator, whose `finally` runs.
unfoldable pub leave : ℕ → Frontend → Frontend
unfolding cleanup
leave uid w = elim (w.waiters uid) [ none ↦ w | some waiter ↦ cleanup uid w ]

-- `abort_user` after its sleep. The waiter keeps its event.
unfoldable pub abort_user : ℕ → Frontend → Frontend
abort_user uid w = record w {
  ack_map = assign uid none w.ack_map;
  event_map = assign uid none w.event_map;
  stats = on_abort w.stats uid;
}

abbrev pub handed : ℕ → List UserReply → List (ℕ × UserReply)
handed uid [] = []
handed uid (ack ∷ acks) = (uid, ack) ∷ handed uid acks

pub data Event : Type 0 where
  arrives : Event
  replies : ℕ → List UserReply → Event
  starts runs leaves aborts : ℕ → Event
  maintains : Maintenance → Event

-- A step of any task: the state, and the replies that a request is handed.
unfoldable pub step : Event → Frontend → Option (Frontend × List (ℕ × UserReply))
unfolding new_user receive_all start resume leave abort_user
step arrives w = some (new_user w, [])
step (replies now msgs) w = elim (receive_all now msgs w) [ none ↦ none | some w' ↦ some (w', []) ]
step (starts uid) w = some (start uid w, [])
step (runs uid) w = let (w', acks) = resume uid w in some (w', handed uid acks)
step (leaves uid) w = some (leave uid w, [])
step (aborts uid) w = some (abort_user uid w, [])
step (maintains m) w = some (record w { maintenance_state = m }, [])

abbrev pub after_step :
    List (ℕ × UserReply)
    → Option (Frontend × List (ℕ × UserReply))
    → Option (Frontend × List (ℕ × UserReply))
after_step acks none = none
after_step acks (some (w, later)) = some (w, acks ++ later)

-- The steps of a run; none when the listener has ended.
unfoldable pub run : List Event → Frontend → Option (Frontend × List (ℕ × UserReply))
unfolding step
run [] w = some (w, [])
run (event ∷ events) w = elim (step event w) [
  | none ↦ none
  | some (w', acks) ↦ after_step acks (run events w')
]

-- The state before the first request.
abbrev pub boot : ℕ → Frontend
boot window = record {
  maintenance_state = loading;
  uid_counter = 0;
  ack_map = λ k. none;
  event_map = λ k. none;
  is_set = λ k. false;
  waiters = λ k. none;
  stats = create window;
}
