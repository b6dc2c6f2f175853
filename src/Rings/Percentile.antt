-- ===== src/Rings/Percentile.antt =====
-- `p95_ms` of python/maxtoken/server/request_ring.py is the nearest-rank percentile.
use maxtoken.Prelude.{
  ℕ, zero, suc, ◌+◌, ◌*◌, ◌≤◌, ◌<◌, ◌≡◌, refl, List, [], ◌∷◌, length, ltb, leb, arith, to_bit, All,
}
use maxtoken.Rings.RequestRing.{
  RequestRing, durations, insert_sorted, sorted, get_or, rank_95, p95_ms,
}

-- How many numbers of a list are at most, or below, a bound.
abbrev pub count_le : ℕ → List ℕ → ℕ
count_le v [] = 0
count_le v (x ∷ xs) = to_bit (leb x v) + count_le v xs

abbrev pub count_lt : ℕ → List ℕ → ℕ
count_lt v [] = 0
count_lt v (x ∷ xs) = to_bit (ltb x v) + count_lt v xs

abbrev IsSorted : List ℕ → Type 0
IsSorted [] = Unit
IsSorted (x ∷ xs) = All (λ y. x ≤ y) xs × IsSorted xs

All-le : (x y : ℕ) (ys : List ℕ) → x ≤ y → All (λ z. y ≤ z) ys → All (λ z. x ≤ z) ys
All-le x y [] h k = tt
All-le x y (z ∷ ys) h k = (omega arith, All-le x y ys h k.1)

All-insert :
    (x y : ℕ) (ys : List ℕ) → x ≤ y → All (λ z. x ≤ z) ys → All (λ z. x ≤ z) (insert_sorted y ys)
unfolding insert_sorted
All-insert x y [] h k = (h, tt)
All-insert x y (z ∷ ys) h k = ground (arith, All-insert x y ys h k.1)

insert-IsSorted : (x : ℕ) (ys : List ℕ) → IsSorted ys → IsSorted (insert_sorted x ys)
unfolding insert_sorted
insert-IsSorted x [] h = (tt, tt)
insert-IsSorted x (y ∷ ys) h =
    ground (arith, insert-IsSorted x ys h.1, All-insert y x ys, All-le x y ys, h)

sorted-IsSorted : (xs : List ℕ) → IsSorted (sorted xs)
unfolding sorted
sorted-IsSorted [] = tt
sorted-IsSorted (x ∷ xs) = insert-IsSorted x (sorted xs) (sorted-IsSorted xs)

counts-insert :
    (v x : ℕ) (xs : List ℕ)
    → (count_le v (insert_sorted x xs) ≡ to_bit (leb x v) + count_le v xs)
      × (count_lt v (insert_sorted x xs) ≡ to_bit (ltb x v) + count_lt v xs)
      × (length (insert_sorted x xs) ≡ length xs + 1)
unfolding insert_sorted
counts-insert v x [] = (refl, refl, refl)
counts-insert v x (y ∷ xs) = let r = counts-insert v x xs in ground (arith, r)

counts-sorted :
    (v : ℕ) (xs : List ℕ)
    → (count_le v (sorted xs) ≡ count_le v xs)
      × (count_lt v (sorted xs) ≡ count_lt v xs)
      × (length (sorted xs) ≡ length xs)
unfolding sorted
counts-sorted v [] = (refl, refl, refl)
counts-sorted v (x ∷ xs) = omega (arith, counts-insert v x (sorted xs), counts-sorted v xs)

none_below : (x v : ℕ) (ys : List ℕ) → v ≤ x → All (λ z. x ≤ z) ys → count_lt v ys ≡ 0
none_below x v [] h k = refl
none_below x v (y ∷ ys) h k = ground (arith, none_below x v ys h k.1)

-- In a sorted list at least `i + 1` numbers are at most the one at `i`, and at most `i` are below it.
at_rank :
    (xs : List ℕ) (i : ℕ)
    → IsSorted xs
    → i < length xs
    → (i + 1 ≤ count_le (get_or xs i 0) xs) × (count_lt (get_or xs i 0) xs ≤ i)
at_rank [] i h p = absurd (omega arith)
at_rank (x ∷ xs) zero h p = ground (arith, none_below x x xs, h.0)
at_rank (x ∷ xs) (suc i) h p =
    let r = at_rank xs i h.1 (omega arith) in
    let q = get_or-All xs i h.0 (omega arith) in ground (arith, r, q)
  where
    get_or-All : (ys : List ℕ) (j : ℕ) → All (λ z. x ≤ z) ys → j < length ys → x ≤ get_or ys j 0
    get_or-All [] j k l = absurd (omega arith)
    get_or-All (y ∷ ys) zero k l = k.0
    get_or-All (y ∷ ys) (suc j) k l = get_or-All ys j k.1 (omega arith)

-- With any records in the ring, at least 95 in 100 of the durations are at most `p95_ms`, and fewer
-- than 95 in 100 are below it.
pub p95_ms_lem :
    {A : Type 0} (ring : RequestRing A)
    → 0 < length (durations ring.buf)
    → (95 * length (durations ring.buf) ≤ 100 * count_le (p95_ms ring) (durations ring.buf))
      × (100 * count_lt (p95_ms ring) (durations ring.buf) < 95 * length (durations ring.buf))
unfolding p95_ms rank_95
p95_ms_lem ring h =
    let durs = durations ring.buf in
    let v = get_or (sorted durs) (rank_95 (length (sorted durs))) 0 in
    let r =
      at_rank (sorted durs) (rank_95 (length (sorted durs))) (sorted-IsSorted durs)
        (omega (arith, counts-sorted 0 durs)) in
    let s = counts-sorted v durs in (omega (arith, r, s), omega (arith, r, s))
