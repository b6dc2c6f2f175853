-- ===== src/Rings/LogRing.antt =====
-- `LogRing` of python/maxtoken/daemon/logring.py. Each method holds the ring's lock, so a method is
-- one step. A subscriber is known by a number; what `append` pushes is returned beside the ring, as
-- pairs of a subscriber and a record. A push that raises is ignored by the code.
use maxtoken.Prelude.{
  ℕ, suc, ◌+◌, ◌-◌, ◌≤◌, ◌≡◌, ◌∙◌, refl, ap, max, append-nil, List, [], ◌∷◌, ◌++◌, append_assoc,
  length, drop, true, false, ◌==◌, if◌then◌else◌, arith, contains, contains-count, count-append,
  ◌||◌, map, inl, inr, Bool-cases, count,
}
use maxtoken.Rings.Window.{
  push, from_cursor, numbered_from, Window, Window-nil, Window-push, from_cursor-Window,
}

pub data Kind : Type 0 where
  line progress event : Kind

pub record Record : Type 0 where
  pub ts : ℕ
  pub kind : Kind
  pub text : List ℕ

pub record LogRing : Type 0 where
  pub capacity : ℕ
  pub buf : List (ℕ × Record)
  pub next : ℕ
  pub subs : List ℕ

unfoldable pub create : ℕ → LogRing
create capacity = record { capacity = capacity; buf = []; next = 0; subs = [] }

-- The new ring, the stored record with its number, and the pushes.
unfoldable pub append :
    LogRing → List ℕ → Kind → ℕ → LogRing × (ℕ × Record) × List (ℕ × (ℕ × Record))
append ring text kind ts =
    let rec : ℕ × Record = (ring.next, record { ts = ts; kind = kind; text = text }) in
    (
      record ring { buf = push ring.capacity rec ring.buf; next = ring.next + 1 },
      rec,
      map (λ s. (s, rec)) ring.subs,
    )

unfoldable pub since : LogRing → ℕ → List (ℕ × Record) × ℕ
since ring cursor = (from_cursor cursor ring.buf, ring.next)

-- A Python set: adding what is there changes nothing.
unfoldable pub subscribe : LogRing → ℕ → LogRing
subscribe ring s = if contains s ring.subs then ring else record ring { subs = ring.subs ++ s ∷ [] }

unfoldable pub without : ℕ → List ℕ → List ℕ
without s [] = []
without s (x ∷ xs) = let rest = without s xs in if x == s then rest else x ∷ rest

unfoldable pub unsubscribe : LogRing → ℕ → LogRing
unsubscribe ring s = record ring { subs = without s ring.subs }

unfoldable pub subscriber_count : LogRing → ℕ
subscriber_count ring = length ring.subs

-- Several appends in a row.
unfoldable pub append_all : LogRing → List Record → LogRing
append_all ring [] = ring
append_all ring (r ∷ rs) = append_all (append ring r.text r.kind r.ts).0 rs

abbrev Follows : LogRing → List Record → Type 0
Follows ring history = Window ring.capacity ring.next ring.buf history

append_all-Follows :
    (ring : LogRing) (history rs : List Record)
    → Follows ring history
    → Follows (append_all ring rs) (history ++ rs) × ((append_all ring rs).capacity ≡ ring.capacity)
unfolding append_all append
append_all-Follows ring history [] w = (rw append-nil w, refl)
append_all-Follows ring history (r ∷ rs) w = rw (← append_assoc history (r ∷ []) rs) (
    append_all-Follows (append ring r.text r.kind r.ts).0 (history ++ r ∷ []) rs
      (Window-push ring.capacity ring.next ring.buf history r w))

-- After any appends to a new ring, a poll from a cursor returns exactly the records numbered from the
-- cursor on, among the `capacity` newest ones, and the number of records ever appended.
pub since-append_all :
    (capacity cursor : ℕ) (rs : List Record)
    → since (append_all (create capacity) rs) cursor
      ≡ (drop (max cursor (length rs - capacity)) (numbered_from 0 rs), length rs)
unfolding since create
since-append_all capacity cursor rs =
    let ring = append_all (create capacity) rs in
    let (w, c) = append_all-Follows (create capacity) [] rs (Window-nil capacity) in
    cc (from_cursor-Window ring.capacity cursor ring.next ring.buf rs w, w.counted, c)

without-contains :
    (s t : ℕ) (xs : List ℕ) → contains t (without s xs) ≡ (if s == t then false else contains t xs)
unfolding without
without-contains s t [] = ground arith
without-contains s t (x ∷ xs) = ground (arith, without-contains s t xs)

count-without : (s t : ℕ) (xs : List ℕ) → count t (without s xs) ≤ count t xs
unfolding without
count-without s t [] = omega arith
count-without s t (x ∷ xs) = ground (arith, count-without s t xs)

contains-append : (a : ℕ) (xs ys : List ℕ) → contains a (xs ++ ys) ≡ contains a xs || contains a ys
contains-append a [] ys = refl
contains-append a (x ∷ xs) ys = ground (arith, contains-append a xs ys)

-- What a subscriber is pushed.
abbrev pub pushed_to : ℕ → List (ℕ × (ℕ × Record)) → List (ℕ × Record)
pushed_to s [] = []
pushed_to s ((t, r) ∷ ps) = let rest = pushed_to s ps in if t == s then r ∷ rest else rest

-- A Python set holds no subscriber twice.
abbrev pub IsSubscribers : List ℕ → Type 0
IsSubscribers subs = (s : ℕ) → count s subs ≤ 1

pushed_to-append :
    (s : ℕ) (ps qs : List (ℕ × (ℕ × Record)))
    → pushed_to s (ps ++ qs) ≡ pushed_to s ps ++ pushed_to s qs
pushed_to-append s [] qs = refl
pushed_to-append s ((t, r) ∷ ps) qs = ground (arith, pushed_to-append s ps qs)

pushed_to_none :
    (s : ℕ) (r : ℕ × Record) (subs : List ℕ)
    → count s subs ≡ 0
    → pushed_to s (map (λ t. (t, r)) subs) ≡ []
pushed_to_none s r [] h = refl
pushed_to_none s r (t ∷ subs) h = ground (arith, pushed_to_none s r subs)

pushed_to_each :
    (s : ℕ) (r : ℕ × Record) (subs : List ℕ)
    → count s subs ≤ 1
    → pushed_to s (map (λ t. (t, r)) subs) ≡ (if contains s subs then r ∷ [] else [])
pushed_to_each s r [] h = refl
pushed_to_each s r (t ∷ subs) h =
    ground (arith, pushed_to_each s r subs, pushed_to_none s r subs, contains-count s subs)

-- The pushes of several appends, in order.
unfoldable pub pushes : LogRing → List Record → List (ℕ × (ℕ × Record))
pushes ring [] = []
pushes ring (r ∷ rs) =
    let (ring', rec, out) = append ring r.text r.kind r.ts in out ++ pushes ring' rs

-- Over any run of appends a subscriber is pushed exactly the appended records, each once, in order
-- and under the numbers that follow the ring's cursor at the start; anyone else is pushed nothing.
pub pushed_to-pushes :
    (s : ℕ) (ring : LogRing) (rs : List Record)
    → IsSubscribers ring.subs
    → pushed_to s (pushes ring rs)
      ≡ (if contains s ring.subs then numbered_from ring.next rs else [])
unfolding pushes append
pushed_to-pushes s ring [] h = ground arith
pushed_to-pushes s ring (r ∷ rs) h =
    let rec : ℕ × Record = (ring.next, r) in
    let later = pushed_to-pushes s (append ring r.text r.kind r.ts).0 rs h in
    pushed_to-append s (map (λ t. (t, rec)) ring.subs)
      (pushes (append ring r.text r.kind r.ts).0 rs)
    ∙ ap
        (λ (out : List (ℕ × Record)).
          out ++ pushed_to s (pushes (append ring r.text r.kind r.ts).0 rs))
        (pushed_to_each s rec ring.subs (h s))
    ∙ elim (Bool-cases (contains s ring.subs)) [
      | inl y ↦ ground (
        arith,
        later,
        ap (λ (n : ℕ). numbered_from n rs)
            (let e : ring.next + 1 ≡ suc ring.next = omega arith in e),
      )
      | inr n ↦ ground (arith, later)
    ]

-- Subscribing and unsubscribing keep the subscribers a set, and change one membership.
pub subscribe-IsSubscribers :
    (ring : LogRing) (s : ℕ)
    → IsSubscribers ring.subs
    → IsSubscribers (subscribe ring s).subs
      × IsSubscribers (unsubscribe ring s).subs
      × (contains s (subscribe ring s).subs ≡ true)
      × (contains s (unsubscribe ring s).subs ≡ false)
unfolding subscribe unsubscribe without
subscribe-IsSubscribers ring s h = (
  (λ t. ground (arith, h t, count-append t ring.subs (s ∷ []), contains-count s ring.subs)),
  (λ t. omega (arith, h t, count-without s t ring.subs)),
  ground (arith, contains-append s ring.subs (s ∷ [])),
  ground (arith, without-contains s s ring.subs),
)
