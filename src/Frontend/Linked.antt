-- ===== src/Frontend/Linked.antt =====
-- The dictionaries of `FrontendManager` of python/maxtoken/server/api_server.py stay in step with each other and
-- with the tasks that wait.
use maxtoken.Prelude.{
  ℕ, suc, ◌<◌, List, [], ◌∷◌, Option, none, some, Bool, true, false, ◌==◌, ◌||◌, ◌≡◌, refl, sym,
  arith, inl, inr, ◌⊎◌, Bool-cases, eqb→eq,
}
use mathlib.Core.Option.{none-ne-some}
use mathlib.Core.Path.{subst}
use maxtoken.Frontend.{Frontend, UserReply, Waiter, waits, yields, assign}

abbrev pub is_nil : {A : Type 0} → List A → Bool
is_nil [] = true
is_nil (x ∷ xs) = false

-- A request is in both dictionaries or in none. Its event is its own, and is set when replies are there.
abbrev pub Entry : ℕ → Option (List UserReply) → Option ℕ → Bool → Type 0
Entry u none none flag = Unit
Entry u (some acks) (some event) flag = (event ≡ u) × ((is_nil acks || flag) ≡ true)
Entry u none (some event) flag = ⊥
Entry u (some acks) none flag = ⊥

-- A waiter waits for the event of its request.
abbrev pub OwnEvent : ℕ → Option Waiter → Type 0
OwnEvent u none = Unit
OwnEvent u (some (waits event)) = event ≡ u
OwnEvent u (some (yields event acks last)) = event ≡ u

abbrev pub LinkedAt : ℕ → Option (List UserReply) → Option ℕ → Bool → Option Waiter → ℕ → Type 0
LinkedAt u acks event flag waiter counter =
    Entry u acks event flag
    × OwnEvent u waiter
    × ((u < counter) ⊎ ((acks ≡ none) × (waiter ≡ none)))

-- Each request is linked, and the numbers from the counter on are not given yet.
abbrev pub IsLinked : Frontend → Type 0
IsLinked w =
    (u : ℕ) → LinkedAt u (w.ack_map u) (w.event_map u) (w.is_set u) (w.waiters u) w.uid_counter

abbrev pub MaybeLinked : Option Frontend → Type 0
MaybeLinked none = ⊥
MaybeLinked (some w) = IsLinked w

abbrev pub RunLinked : Option (Frontend × List (ℕ × UserReply)) → Type 0
RunLinked none = ⊥
RunLinked (some (w, acks)) = IsLinked w

-- A request that leaves both dictionaries.
pub gone :
    (u : ℕ) (acks : Option (List UserReply)) (event : Option ℕ) (flag : Bool)
    (waiter : Option Waiter) (counter : ℕ)
    → LinkedAt u acks event flag waiter counter
    → (flag' : Bool) → LinkedAt u none none flag' waiter counter
gone u acks event flag waiter counter (entry, own, inl h) flag' = (tt, own, inl h)
gone u acks event flag waiter counter (entry, own, inr h) flag' = (tt, own, inr (refl, h.1))

pub older :
    (u : ℕ) (acks : Option (List UserReply)) (event : Option ℕ) (flag : Bool)
    (waiter : Option Waiter) (counter : ℕ)
    → LinkedAt u acks event flag waiter counter
    → LinkedAt u acks event flag waiter (suc counter)
older u acks event flag waiter counter (entry, own, inl h) = (entry, own, inl (omega arith))
older u acks event flag waiter counter (entry, own, inr h) = (entry, own, inr h)

-- A request with an event has its own, and its number is given.
pub registered :
    (u : ℕ) (acks : Option (List UserReply)) (event : ℕ) (flag : Bool) (waiter : Option Waiter)
    (counter : ℕ)
    → LinkedAt u acks (some event) flag waiter counter
    → (event ≡ u) × (u < counter)
registered u none event flag waiter counter (entry, own, h) = absurd entry
registered u (some acks) event flag waiter counter (entry, own, inl h) = (entry.0, h)
registered u (some acks) event flag waiter counter (entry, own, inr h) =
    absurd (none-ne-some acks (sym h.0))

-- A waiter of a request whose number is given.
pub with_waiter :
    (u : ℕ) (acks : Option (List UserReply)) (event : Option ℕ) (flag : Bool)
    (old waiter : Option Waiter) (counter : ℕ)
    → LinkedAt u acks event flag old counter
    → u < counter
    → OwnEvent u waiter
    → LinkedAt u acks event flag waiter counter
with_waiter u acks event flag old waiter counter linked given own = (linked.0, own, inl given)

pub set_waiter-IsLinked :
    (uid : ℕ) (waiter : Waiter) (w : Frontend)
    → IsLinked w
    → uid < w.uid_counter
    → OwnEvent uid (some waiter)
    → IsLinked (record w { waiters = assign uid (some waiter) w.waiters })
set_waiter-IsLinked uid waiter w linked given own u = elim (Bool-cases (uid == u)) [
  | inr e ↦ rw e (linked u)
  | inl e ↦
      let same : uid ≡ u = eqb→eq uid u e in
      rw e (
        with_waiter u (w.ack_map u) (w.event_map u) (w.is_set u) (w.waiters u) (some waiter)
          w.uid_counter (linked u) (omega (arith, same))
          (subst (λ k. OwnEvent k (some waiter)) same own))
]

-- A waiter has its own event, and its number is given.
pub waiting :
    (u : ℕ) (acks : Option (List UserReply)) (event : Option ℕ) (flag : Bool) (waiter : Waiter)
    (counter : ℕ)
    → LinkedAt u acks event flag (some waiter) counter
    → OwnEvent u (some waiter) × (u < counter)
waiting u acks event flag waiter counter (entry, own, inl h) = (own, h)
waiting u acks event flag waiter counter (entry, own, inr h) =
    absurd (none-ne-some waiter (sym h.1))

-- The queue of a request that is in both dictionaries becomes another one.
pub requeued :
    (u : ℕ) (acks acks' : List UserReply) (event : Option ℕ) (flag flag' : Bool)
    (waiter : Option Waiter) (counter : ℕ)
    → LinkedAt u (some acks) event flag waiter counter
    → (is_nil acks' || flag') ≡ true
    → LinkedAt u (some acks') event flag' waiter counter
requeued u acks acks' none flag flag' waiter counter (entry, own, h) new = absurd entry
requeued u acks acks' (some event) flag flag' waiter counter (entry, own, inl h) new =
    ((entry.0, new), own, inl h)
requeued u acks acks' (some event) flag flag' waiter counter (entry, own, inr h) new =
    absurd (none-ne-some acks (sym h.0))
