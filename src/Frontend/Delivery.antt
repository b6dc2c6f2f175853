-- ===== src/Frontend/Delivery.antt =====
-- `FrontendManager` of python/maxtoken/server/api_server.py hands each request its replies, all of them and in order.
use maxtoken.Prelude.{
  ℕ, List, [], ◌∷◌, ◌++◌, Option, none, some, true, false, ◌==◌, if◌then◌else◌, ◌≡◌, refl, sym, inl,
  inr, append_assoc, Bool-cases, Option-cases, eqb→eq, eqb_refl,
}
use mathlib.Core.Path.{subst}
use maxtoken.Stats.{observe}
use maxtoken.Frontend.{
  Frontend, UserReply, Event, arrives, replies, starts, runs, leaves, aborts, maintains, assign,
  receive, receive_all,
}
use maxtoken.Frontend.View.{stays_Moves, queued-Moves, unknown, Moves-append}
use maxtoken.Frontend.Moves.{ReadyAt, MovesAt, IsReady-at, from_at}

abbrev pub one : ℕ → UserReply → List UserReply
one u msg = if msg.reply.uid == u then msg ∷ [] else []

-- The replies for the request `u`.
abbrev pub mine : ℕ → List UserReply → List UserReply
mine u [] = []
mine u (msg ∷ msgs) = one u msg ++ mine u msgs

-- What an event brings for the request.
abbrev pub brought : ℕ → Event → List UserReply
brought u arrives = []
brought u (replies now msgs) = mine u msgs
brought u (starts v) = []
brought u (runs v) = []
brought u (leaves v) = []
brought u (aborts v) = []
brought u (maintains m) = []

abbrev pub received : ℕ → List Event → List UserReply
received u [] = []
received u (event ∷ events) = brought u event ++ received u events

abbrev pub handed_to : ℕ → List (ℕ × UserReply) → List UserReply
handed_to u [] = []
handed_to u ((v, ack) ∷ acks) = (if v == u then ack ∷ [] else []) ++ handed_to u acks

-- The request is neither left by its consumer nor aborted.
abbrev pub Spares : ℕ → Event → Type 0
Spares u arrives = Unit
Spares u (replies now msgs) = Unit
Spares u (starts v) = Unit
Spares u (runs v) = Unit
Spares u (leaves v) = (v == u) ≡ false
Spares u (aborts v) = (v == u) ≡ false
Spares u (maintains m) = Unit

abbrev pub MaybeMoves : ℕ → List UserReply → Frontend → List UserReply → Option Frontend → Type 0
MaybeMoves u later w new none = Unit
MaybeMoves u later w new (some w') = MovesAt u later w [] new w'

then_moves :
    (u : ℕ) (later new' new : List UserReply) (w w' : Frontend) (o : Option Frontend)
    → MovesAt u (new' ++ later) w [] new w'
    → MaybeMoves u later w' new' o
    → MaybeMoves u later w (new ++ new') o
then_moves u later new' new w w' none first second = tt
then_moves u later new' new w w' (some w'') first second = (
  second.0,
  Moves-append later new new' [] [] (w.ack_map u) (w'.ack_map u) (w''.ack_map u) (w.waiters u)
      (w'.waiters u) (w''.waiters u) first.1 second.1,
)

receive_own :
    (now : ℕ) (msg : UserReply) (later : List UserReply) (w : Frontend)
    → ReadyAt msg.reply.uid (msg ∷ later) w
    → MaybeMoves msg.reply.uid later w (msg ∷ []) (receive now msg w)
unfolding receive
receive_own now msg later w ready =
    let u = msg.reply.uid in
    elim (Option-cases (w.ack_map u)) [
      | inl e ↦ absurd (
          unknown later (w.waiters u) msg
            (IsReady-at u (msg ∷ later) w none (w.waiters u) e refl ready.1))
      | inr (acks, e) ↦ elim (Option-cases (w.event_map u)) [
        | inl g ↦
            let same : receive now msg w ≡ none = rw (e, g, receive) in
            subst (MaybeMoves u later w (msg ∷ [])) (sym same) tt
        | inr (event, g) ↦
            let w' : Frontend = record w {
              stats = observe w.stats msg.reply now;
              ack_map = assign u (some (acks ++ msg ∷ [])) w.ack_map;
              is_set = assign event true w.is_set;
            } in
            let same : receive now msg w ≡ some w' = rw (e, g, receive) in
            subst (MaybeMoves u later w (msg ∷ [])) (sym same) (
              rw (eqb_refl u) (
                ready.0,
                from_at u later w (some acks) (w.waiters u) e refl [] (msg ∷ [])
                    (some (acks ++ msg ∷ [])) (w.waiters u)
                    (queued-Moves later acks (w.waiters u) msg
                      (IsReady-at u (msg ∷ later) w (some acks) (w.waiters u) e refl ready.1)),
              ))
      ]
    ]

receive_other :
    (u now : ℕ) (msg : UserReply) (later : List UserReply) (w : Frontend)
    → (msg.reply.uid == u) ≡ false
    → ReadyAt u later w
    → MaybeMoves u later w [] (receive now msg w)
unfolding receive
receive_other u now msg later w other ready =
    let v = msg.reply.uid in
    let stays = stays_Moves later (w.ack_map u) (w.waiters u) ready.1 in
    elim (Option-cases (w.ack_map v)) [
      | inl e ↦
          let same : receive now msg w ≡ some (record w { stats = observe w.stats msg.reply now }) =
            rw (e, receive) in
          subst (MaybeMoves u later w []) (sym same) (ready.0, stays)
      | inr (acks, e) ↦ elim (Option-cases (w.event_map v)) [
        | inl g ↦
            let same : receive now msg w ≡ none = rw (e, g, receive) in
            subst (MaybeMoves u later w []) (sym same) tt
        | inr (event, g) ↦
            let w' : Frontend = record w {
              stats = observe w.stats msg.reply now;
              ack_map = assign v (some (acks ++ msg ∷ [])) w.ack_map;
              is_set = assign event true w.is_set;
            } in
            let same : receive now msg w ≡ some w' = rw (e, g, receive) in
            subst (MaybeMoves u later w []) (sym same) (rw other (ready.0, stays))
      ]
    ]

-- One reply, for the request or another one.
receive_at :
    (u now : ℕ) (msg : UserReply) (later : List UserReply) (w : Frontend)
    → ReadyAt u (one u msg ++ later) w
    → MaybeMoves u later w (one u msg) (receive now msg w)
receive_at u now msg later w ready = elim (Bool-cases (msg.reply.uid == u)) [
  | inr e ↦
      let nothing : one u msg ≡ [] = rw e in
      subst (λ n. MaybeMoves u later w n (receive now msg w)) (sym nothing)
        (receive_other u now msg later w e (subst (λ n. ReadyAt u (n ++ later) w) nothing ready))
  | inl e ↦
      let alone : one u msg ≡ msg ∷ [] = rw e in
      let same = eqb→eq msg.reply.uid u e in
      subst (λ n. MaybeMoves u later w n (receive now msg w)) (sym alone)
        (subst
          (λ k. ReadyAt k (msg ∷ later) w → MaybeMoves k later w (msg ∷ []) (receive now msg w))
          same (receive_own now msg later w) (subst (λ n. ReadyAt u (n ++ later) w) alone ready))
]

-- Replies after a first one.
next_received :
    (u now : ℕ) (new : List UserReply) (msgs : List UserReply) (later : List UserReply)
    (w : Frontend) (o : Option Frontend)
    → MaybeMoves u (mine u msgs ++ later) w new o
    → ((w' : Frontend)
        → ReadyAt u (mine u msgs ++ later) w'
        → MaybeMoves u later w' (mine u msgs) (receive_all now msgs w'))
    → MaybeMoves u later w
        (new ++ mine u msgs)
        (elim o [ none ↦ none | some w' ↦ receive_all now msgs w' ])
next_received u now new msgs later w none moves next = tt
next_received u now new msgs later w (some w') moves next =
    then_moves u later (mine u msgs) new w w' (receive_all now msgs w') moves
      (next w' (moves.0, moves.1.1))

pub receive_all_at :
    (u now : ℕ) (msgs later : List UserReply) (w : Frontend)
    → ReadyAt u (mine u msgs ++ later) w
    → MaybeMoves u later w (mine u msgs) (receive_all now msgs w)
unfolding receive_all
receive_all_at u now [] later w ready =
    (ready.0, stays_Moves later (w.ack_map u) (w.waiters u) ready.1)
receive_all_at u now (msg ∷ msgs) later w ready =
    next_received u now (one u msg) msgs later w (receive now msg w)
      (receive_at u now msg (mine u msgs ++ later) w
        (subst (λ n. ReadyAt u n w) (append_assoc (one u msg) (mine u msgs) later) ready))
      (receive_all_at u now msgs later)
