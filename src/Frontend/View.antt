-- ===== src/Frontend/View.antt =====
-- What `FrontendManager` of python/maxtoken/server/api_server.py keeps for one request, and how it moves: the
-- replies that its waiter has taken and those in its queue.
use maxtoken.Prelude.{
  ℕ, List, [], ◌∷◌, ◌++◌, Option, none, some, false, ◌≡◌, ◌≢◌, refl, ap, sym, ◌∙◌, inl, ◌⊎◌,
  append-nil, append_assoc,
}
use mathlib.Core.Path.{subst}
use maxtoken.Frontend.{UserReply, Waiter, waits, yields, is_last}

abbrev pub pending_of : Option Waiter → List UserReply
pending_of none = []
pending_of (some (waits event)) = []
pending_of (some (yields event acks last)) = acks

abbrev pub queue_of : Option (List UserReply) → List UserReply
queue_of none = []
queue_of (some acks) = acks

-- The replies that are there and not handed on yet.
abbrev pub left_of : Option (List UserReply) → Option Waiter → List UserReply
left_of acks waiter = pending_of waiter ++ queue_of acks

-- Only the last reply of a request is finished.
abbrev pub EndsOnce : List UserReply → Type 0
EndsOnce [] = Unit
EndsOnce (ack ∷ acks) = ((ack.reply.finished ≡ false) ⊎ (acks ≡ [])) × EndsOnce acks

abbrev pub Closing : Option Waiter → List UserReply → Type 0
Closing none stream = Unit
Closing (some (waits event)) stream = Unit
Closing (some (yields event acks last)) stream = (is_last last ≡ false) ⊎ (stream ≡ [])

abbrev pub Known : Option (List UserReply) → List UserReply → Type 0
Known none stream = stream ≡ []
Known (some acks) stream = Unit

-- A request that is ready for what is left and `later`: it is in the dictionary, or nothing comes any more.
abbrev pub IsReady : List UserReply → Option (List UserReply) → Option Waiter → Type 0
IsReady later acks waiter =
    let stream = left_of acks waiter ++ later in
    Known acks stream × Closing waiter stream × EndsOnce stream

-- A step that hands `out` on and takes `new` in.
abbrev pub Moves :
    List UserReply
    → Option (List UserReply)
    → Option Waiter
    → List UserReply
    → List UserReply
    → Option (List UserReply)
    → Option Waiter
    → Type 0
Moves later acks waiter out new acks' waiter' =
    (out ++ left_of acks' waiter' ≡ left_of acks waiter ++ new) × IsReady later acks' waiter'

pub stays_Moves :
    (later : List UserReply) (acks : Option (List UserReply)) (waiter : Option Waiter)
    → IsReady later acks waiter
    → Moves later acks waiter [] [] acks waiter
stays_Moves later acks waiter ready = (sym (append-nil (left_of acks waiter)), ready)

ends-append : (front acks : List UserReply) → EndsOnce (front ++ acks) → EndsOnce acks
ends-append [] acks ends = ends
ends-append (ack ∷ front) acks ends = ends-append front acks ends.1

-- A reply is queued.
pub queued-Moves :
    (later : List UserReply) (acks : List UserReply) (waiter : Option Waiter) (msg : UserReply)
    → IsReady (msg ∷ later) (some acks) waiter
    → Moves later (some acks) waiter [] (msg ∷ []) (some (acks ++ msg ∷ [])) waiter
queued-Moves later acks waiter msg (known, closing, ends) =
    let same : left_of (some (acks ++ msg ∷ [])) waiter ≡ left_of (some acks) waiter ++ msg ∷ [] =
      sym (append_assoc (pending_of waiter) acks (msg ∷ [])) in
    let stream : left_of (some (acks ++ msg ∷ [])) waiter ++ later
        ≡ left_of (some acks) waiter ++ msg ∷ later =
      ap (λ s. s ++ later) same ∙ append_assoc (left_of (some acks) waiter) (msg ∷ []) later in
    (same, (tt, subst (Closing waiter) (sym stream) closing, subst EndsOnce (sym stream) ends))

-- The queue is taken.
pub taken-Moves :
    (later acks : List UserReply) (event : ℕ)
    → IsReady later (some acks) (some (waits event))
    → Moves later (some acks) (some (waits event)) [] [] (some []) (some (yields event acks none))
taken-Moves later acks event (known, closing, ends) =
    let same : acks ++ [] ≡ acks = append-nil acks in
    (refl, (tt, inl refl, subst (λ s. EndsOnce (s ++ later)) (sym same) ends))

cons-ne-nil : {A : Type 0} (x : A) (xs : List A) → x ∷ xs ≢ []
cons-ne-nil x xs e = subst (λ l. elim l as (λ k. Type 0) [ [] ↦ ⊥ | y ∷ ys ↦ Unit ]) e tt

Known-tail :
    (acks : Option (List UserReply)) (ack : UserReply) (stream : List UserReply)
    → Known acks (ack ∷ stream)
    → Known acks stream
Known-tail none ack stream h = absurd (cons-ne-nil ack stream h)
Known-tail (some acks) ack stream h = tt

-- A reply is handed on.
pub handed-Moves :
    (later : List UserReply) (acks : Option (List UserReply)) (event : ℕ) (ack : UserReply)
    (rest : List UserReply)
    → (last : Option UserReply) → IsReady later acks (some (yields event (ack ∷ rest) last))
    → Moves later acks
        (some (yields event (ack ∷ rest) last))
        (ack ∷ [])
        []
        acks
        (some (yields event rest (some ack)))
handed-Moves later acks event ack rest last (known, closing, ends) = (
  sym (append-nil (ack ∷ rest ++ queue_of acks)),
  (Known-tail acks ack (rest ++ queue_of acks ++ later) known, ends.0, ends.1),
)

nil_front : (xs ys : List UserReply) → xs ++ ys ≡ [] → xs ≡ []
nil_front [] ys h = refl
nil_front (x ∷ xs) ys h = absurd (cons-ne-nil x (xs ++ ys) h)

nil_back : (xs ys : List UserReply) → xs ++ ys ≡ [] → ys ≡ []
nil_back [] ys h = h
nil_back (x ∷ xs) ys h = absurd (cons-ne-nil x (xs ++ ys) h)

-- A request of which nothing is left and to which nothing comes is dropped.
pub dropped-Moves :
    (later : List UserReply) (acks : Option (List UserReply)) (waiter : Option Waiter)
    → left_of acks waiter ++ later ≡ []
    → Moves later acks waiter [] [] none none
dropped-Moves later acks waiter nothing =
    let none_left = nil_front (left_of acks waiter) later nothing in
    let none_later = nil_back (left_of acks waiter) later nothing in
    (
      sym (append-nil (left_of acks waiter) ∙ none_left),
      (none_later, tt, subst EndsOnce (sym none_later) tt),
    )

-- The waiter has handed on what it took.
pub rounds-Moves :
    (later : List UserReply) (acks : Option (List UserReply)) (event : ℕ) (last : Option UserReply)
    → IsReady later acks (some (yields event [] last))
    → Moves later acks (some (yields event [] last)) [] [] acks (some (waits event))
rounds-Moves later acks event last (known, closing, ends) =
    (sym (append-nil (queue_of acks)), (known, tt, ends))

pub starts-Moves :
    (later : List UserReply) (acks : Option (List UserReply)) (event : ℕ)
    → IsReady later acks none
    → Moves later acks none [] [] acks (some (waits event))
starts-Moves later acks event (known, closing, ends) =
    (sym (append-nil (queue_of acks)), (known, tt, ends))

-- A request that is not in the dictionary gets no reply any more.
pub unknown :
    (later : List UserReply) (waiter : Option Waiter) (msg : UserReply)
    → IsReady (msg ∷ later) none waiter
    → ⊥
unknown later waiter msg ready =
    cons-ne-nil msg later (nil_back (left_of none waiter) (msg ∷ later) ready.0)

-- One move after the other.
pub Moves-append :
    (later new new' out out' : List UserReply) (acks acks' acks'' : Option (List UserReply))
    → (waiter waiter' waiter'' : Option Waiter)
    → Moves (new' ++ later) acks waiter out new acks' waiter'
    → Moves later acks' waiter' out' new' acks'' waiter''
    → Moves later acks waiter (out ++ out') (new ++ new') acks'' waiter''
Moves-append later new new' out out' acks acks' acks'' waiter waiter' waiter'' first second = (
  append_assoc out out' (left_of acks'' waiter'')
      ∙ ap (λ s. out ++ s) second.0
      ∙ sym (append_assoc out (left_of acks' waiter') new')
      ∙ ap (λ s. s ++ new') first.0
      ∙ append_assoc (left_of acks waiter) new new',
  second.1,
)
