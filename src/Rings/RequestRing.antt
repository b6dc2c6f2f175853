-- ===== src/Rings/RequestRing.antt =====
-- `RequestRing` of python/maxtoken/server/request_ring.py, and the clamp of `list_requests` in
-- python/maxtoken/server/control_api.py. A record is its duration and its time to the first token,
-- with the rest of its fields as `A`. The 95 % of `p95_ms` is a float product there: its ceiling is
-- that of 95 * n / 100, for the product of 0.95 and a whole number below 2 ^ 50 rounds to the true
-- value where that is whole.
use maxtoken.Prelude.{
  ℕ, zero, suc, ◌+◌, ◌-◌, ◌*◌, ◌/◌, ◌<◌, ◌≡◌, ◌∙◌, refl, ap, min, max, List, [], ◌∷◌, ◌++◌,
  append_assoc, append-nil, length, drop, take, Option, true, false, ltb, leb, if◌then◌else◌, arith,
  inl, inr, Bool-cases, length-take,
}
use maxtoken.Rings.Window.{
  push, from_cursor, numbered_from, Window, Window-nil, Window-push, from_cursor-Window,
  length-numbered_from,
}

pub record RequestRecord (A : Type 0) : Type 0 where
  pub duration_ms : ℕ
  pub ttft_ms : Option ℕ
  pub rest : A

pub record RequestRing (A : Type 0) : Type 0 where
  pub capacity : ℕ
  pub buf : List (ℕ × RequestRecord A)
  pub next : ℕ

module _ {A : Type 0} where
  unfoldable pub create : ℕ → RequestRing A
  create capacity = record { capacity = capacity; buf = []; next = 0 }

  unfoldable pub add : RequestRing A → RequestRecord A → RequestRing A
  add ring r = record ring {
    buf = push ring.capacity (ring.next, r) ring.buf;
    next = ring.next + 1;
  }

  -- `xs[i - 1][0]`, where `i = 0` names the last entry, as in Python.
  unfoldable pub number_before : ℕ → List (ℕ × RequestRecord A) → ℕ
  number_before i [] = 0
  number_before i ((n, r) ∷ []) = n
  number_before zero ((n, r) ∷ x ∷ xs) = number_before zero (x ∷ xs)
  number_before (suc zero) ((n, r) ∷ x ∷ xs) = n
  number_before (suc (suc i)) ((n, r) ∷ x ∷ xs) = number_before (suc i) (x ∷ xs)

  unfoldable pub cut_off : ℕ → ℕ → List (ℕ × RequestRecord A) → List (ℕ × RequestRecord A) × ℕ
  cut_off next limit matched =
      let out = take limit matched in
      if ltb (length out) (length matched)
      then (out, number_before (length out) matched + 1)
      else (out, next)

  unfoldable pub since : RequestRing A → ℕ → ℕ → List (ℕ × RequestRecord A) × ℕ
  unfolding cut_off
  since ring cursor limit = cut_off ring.next limit (from_cursor cursor ring.buf)

  -- `limit = max(1, min(limit, 512))`
  unfoldable pub list_requests : RequestRing A → ℕ → ℕ → List (ℕ × RequestRecord A) × ℕ
  list_requests ring cursor limit = since ring cursor (max 1 (min limit 512))

  unfoldable pub durations : List (ℕ × RequestRecord A) → List ℕ
  durations [] = []
  durations ((n, r) ∷ rs) = r.duration_ms ∷ durations rs

  unfoldable pub count_all : RequestRing A → ℕ
  count_all ring = ring.next

-- `sorted`
unfoldable pub insert_sorted : ℕ → List ℕ → List ℕ
insert_sorted x [] = x ∷ []
insert_sorted x (y ∷ ys) = if leb x y then x ∷ y ∷ ys else y ∷ insert_sorted x ys

unfoldable pub sorted : List ℕ → List ℕ
sorted [] = []
sorted (x ∷ xs) = insert_sorted x (sorted xs)

abbrev pub get_or : List ℕ → ℕ → ℕ → ℕ
get_or [] i d = d
get_or (x ∷ xs) zero d = x
get_or (x ∷ xs) (suc i) d = get_or xs i d

-- The rank that `p95_ms` reads: `max(0, ceil(0.95 * n) - 1)`.
unfoldable pub rank_95 : ℕ → ℕ
rank_95 n = (95 * n + 99) / 100 - 1

unfoldable pub p95_ms : {A : Type 0} → RequestRing A → ℕ
p95_ms ring = let durs = sorted (durations ring.buf) in get_or durs (rank_95 (length durs)) 0

module _ {A : Type 0} where
  -- Several `add`s in a row.
  unfoldable pub add_all : RequestRing A → List (RequestRecord A) → RequestRing A
  add_all ring [] = ring
  add_all ring (r ∷ rs) = add_all (add ring r) rs

  abbrev Follows : RequestRing A → List (RequestRecord A) → Type 0
  Follows ring history = Window ring.capacity ring.next ring.buf history

  add_all-Follows :
      (ring : RequestRing A) (history rs : List (RequestRecord A))
      → Follows ring history
      → Follows (add_all ring rs) (history ++ rs) × ((add_all ring rs).capacity ≡ ring.capacity)
  unfolding add_all add
  add_all-Follows ring history [] w = (rw append-nil w, refl)
  add_all-Follows ring history (r ∷ rs) w = rw (← append_assoc history (r ∷ []) rs) (
      add_all-Follows (add ring r) (history ++ r ∷ []) rs
        (Window-push ring.capacity ring.next ring.buf history r w))

  numbered-take :
      (start i : ℕ) (rs : List (RequestRecord A))
      → i < length rs
      → number_before (suc i) (numbered_from start rs) ≡ start + i
  unfolding number_before
  numbered-take start i [] h = absurd (omega arith)
  numbered-take start zero (r ∷ []) h = omega arith
  numbered-take start (suc i) (r ∷ []) h = absurd (omega arith)
  numbered-take start zero (r ∷ s ∷ rs) h = omega arith
  numbered-take start (suc i) (r ∷ s ∷ rs) h =
      omega (arith, numbered-take (suc start) i (s ∷ rs) (omega arith))

  drop-numbered :
      (start n : ℕ) (rs : List (RequestRecord A))
      → drop n (numbered_from start rs) ≡ numbered_from (start + n) (drop n rs)
  drop-numbered start zero rs =
      ap (λ (k : ℕ). numbered_from k rs) (let e : start ≡ start + 0 = omega arith in e)
  drop-numbered start (suc n) [] = refl
  drop-numbered start (suc n) (r ∷ rs) =
      drop-numbered (suc start) n rs
      ∙ ap (λ (k : ℕ). numbered_from k (drop n rs))
          (let e : suc start + n ≡ start + suc n = omega arith in e)

  cut_off-numbered :
      (start next limit : ℕ) (rs : List (RequestRecord A))
      → 0 < limit
      → cut_off next limit (numbered_from start rs) ≡ (
        take limit (numbered_from start rs),
        (if ltb limit (length rs) then start + limit else next),
      )
  unfolding cut_off
  cut_off-numbered start next zero rs h = absurd (omega arith)
  cut_off-numbered start next (suc i) rs h = elim (Bool-cases (ltb (suc i) (length rs))) [
    | inl more ↦
        let e : length (take (suc i) (numbered_from start rs)) ≡ suc i =
          ground
            (arith, length-take (suc i) (numbered_from start rs), length-numbered_from start rs) in
        let t : ltb (suc i) (length (numbered_from start rs)) ≡ true =
          ground (arith, length-numbered_from start rs) in
        let n : number_before (suc i) (numbered_from start rs) + 1 ≡ start + suc i =
          omega (arith, numbered-take start i rs (ground arith)) in
        rw (more, e, t, n)
    | inr all ↦
        let e : length (take (suc i) (numbered_from start rs)) ≡ length (numbered_from start rs) =
          ground
            (arith, length-take (suc i) (numbered_from start rs), length-numbered_from start rs) in
        let t : ltb (length (numbered_from start rs)) (length (numbered_from start rs)) ≡ false =
          ground arith in
        rw (all, e, t)
  ]

  -- Where a poll from `cursor` starts: at the cursor, or at the oldest record that is still there.
  abbrev pub first_seen : ℕ → ℕ → List (RequestRecord A) → ℕ
  first_seen capacity cursor rs = max cursor (length rs - capacity)

  -- After any `add`s to a new ring, a poll with a positive limit returns the first `limit` of the
  -- records that a poll without a limit would return, under consecutive numbers, and a cursor from
  -- which the rest follows: the position after the last returned record, or the number of all records
  -- if none was cut off.
  pub since-add_all :
      (capacity cursor limit : ℕ) (rs : List (RequestRecord A))
      → 0 < limit
      → let seen = first_seen capacity cursor rs in
        let all = numbered_from seen (drop seen rs) in
        since (add_all (create capacity) rs) cursor limit
        ≡ (take limit all, (if ltb limit (length all) then seen + limit else length rs))
  unfolding since create
  since-add_all capacity cursor limit rs h =
      let ring = add_all (create capacity) rs in
      let seen = first_seen capacity cursor rs in
      let (w, c) = add_all-Follows (create capacity) [] rs (Window-nil capacity) in
      let matched : from_cursor cursor ring.buf ≡ numbered_from seen (drop seen rs) =
        from_cursor-Window ring.capacity cursor ring.next ring.buf rs w
        ∙ ap (λ (k : ℕ). drop (max cursor (length rs - k)) (numbered_from 0 rs)) c
        ∙ drop-numbered 0 seen rs
        ∙ ap (λ (k : ℕ). numbered_from k (drop seen rs))
            (let e : 0 + seen ≡ seen = omega arith in e) in
      ap (cut_off ring.next limit) matched
      ∙ cut_off-numbered seen ring.next limit (drop seen rs) h
      ∙ ground (arith, w.counted, length-numbered_from seen (drop seen rs))
