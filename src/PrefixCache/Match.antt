-- ===== src/PrefixCache/Match.antt =====
-- What `lookup` finds: a prefix that the entry really shares with the prompt, and the longest one.
use maxtoken.Prelude.{
  ℕ, zero, suc, ◌+◌, ◌≤◌, ◌<◌, ◌≡◌, refl, ap, ◌⊎◌, List, [], ◌∷◌, length, take, get_elem?, Option,
  none, some, Bool, true, false, ltb, ◌==◌, if◌then◌else◌, arith, All, inl, inr, Bool-cases,
}
use maxtoken.PrefixCache.{
  Entry, PrefixStore, common_prefix_len, usable, best_from, stamp, lookup, min_match_tokens,
}

pub common_prefix_len-le :
    (xs ys : List ℕ) → (common_prefix_len xs ys ≤ length xs) × (common_prefix_len xs ys ≤ length ys)
unfolding common_prefix_len
common_prefix_len-le [] ys = (omega arith, omega arith)
common_prefix_len-le (x ∷ xs) [] = (omega arith, omega arith)
common_prefix_len-le (x ∷ xs) (y ∷ ys) = let r = common_prefix_len-le xs ys in ground (arith, r)

-- Up to the common length the two agree.
pub take-common_prefix_len :
    (xs ys : List ℕ) (n : ℕ) → n ≤ common_prefix_len xs ys → take n xs ≡ take n ys
unfolding common_prefix_len
take-common_prefix_len xs ys zero h = refl
take-common_prefix_len [] ys (suc n) h = absurd (omega arith)
take-common_prefix_len (x ∷ xs) [] (suc n) h = absurd (omega arith)
take-common_prefix_len (x ∷ xs) (y ∷ ys) (suc n) h = elim (Bool-cases (x == y)) [
  | inl same ↦
      let e : x ≡ y = ground arith in
      let r = take-common_prefix_len xs ys n (ground arith) in ground (arith, r)
  | inr other ↦ absurd (ground arith)
]

-- Two lists that agree up to a length share it.
shared-le :
    (xs ys : List ℕ) (m : ℕ)
    → m ≤ length xs
    → m ≤ length ys
    → take m xs ≡ take m ys
    → m ≤ common_prefix_len xs ys
unfolding common_prefix_len
shared-le xs ys zero p q e = omega arith
shared-le [] ys (suc m) p q e = absurd (omega arith)
shared-le (x ∷ xs) [] (suc m) p q e = absurd (omega arith)
shared-le (x ∷ xs) (y ∷ ys) (suc m) p q e =
    let same : x ≡ y = ground arith in
    let rest : take m xs ≡ take m ys = ground arith in
    let r = shared-le xs ys m (omega arith) (omega arith) rest in
    let test : (x == y) ≡ true = ground arith in rw test (omega arith)

-- What an entry may serve of a prompt: tokens that it covers and shares with the prompt, leaving
-- at least one; a snapshot that cannot be trimmed only as a whole.
pub record Serves {S : Type 0} (toks : List ℕ) (e : Entry S) (n : ℕ) : Type 0 where
  pub shared : take n e.tokens ≡ take n toks
  pub covered : n ≤ length e.tokens
  pub one_left : n < length toks
  pub whole : e.trimmable ≡ false → n ≡ length e.tokens

module _ {S : Type 0} (toks : List ℕ) where
  usable-le_common : (e : Entry S) → usable toks e ≤ common_prefix_len e.tokens toks
  unfolding usable
  usable-le_common e = ground arith

  pub usable-Serves : (e : Entry S) → 0 < usable toks e → Serves toks e (usable toks e)
  unfolding usable
  usable-Serves e h = record {
    shared = take-common_prefix_len e.tokens toks (usable toks e) (usable-le_common e);
    covered = omega (arith, usable-le_common e, common_prefix_len-le e.tokens toks);
    one_left = ground (arith, common_prefix_len-le e.tokens toks);
    whole = λ t. ground arith;
  }

  -- Whatever an entry may serve, it is offered.
  Serves-le : (e : Entry S) (m : ℕ) → Serves toks e m → m ≤ usable toks e
  unfolding usable
  Serves-le e m s =
      let common =
        shared-le e.tokens toks m s.covered (let o = s.one_left in omega arith) s.shared in
      let (le, _) = common_prefix_len-le e.tokens toks in
      let left = s.one_left in
      elim (Bool-cases e.trimmable) [
        | inl t ↦ ground arith
        | inr t ↦ let whole = s.whole t in ground arith
      ]

  All-Serves_le :
      (n : ℕ) (es : List (Entry S))
      → All (λ e. usable toks e ≤ n) es
      → All (λ e. (m : ℕ) → Serves toks e m → m ≤ n) es
  All-Serves_le n [] all = tt
  All-Serves_le n (e ∷ es) all =
      ((λ m s. let r = Serves-le e m s in omega (arith, all.0, r)), All-Serves_le n es all.1)

  All-Serves_lt :
      (n : ℕ) (es : List (Entry S))
      → All (λ e. usable toks e < n) es
      → All (λ e. (m : ℕ) → Serves toks e m → m < n) es
  All-Serves_lt n [] all = tt
  All-Serves_lt n (e ∷ es) all =
      ((λ m s. let r = Serves-le e m s in omega (arith, all.0, r)), All-Serves_lt n es all.1)

  -- The loop's best is the first entry that reaches the maximum.
  abbrev Best : List (Entry S) → ℕ → ℕ → Option (ℕ × Entry S) → ℕ × Option (ℕ × Entry S) → Type 0
  Best es i best who r =
      (best ≤ r.0)
      × All (λ e. usable toks e ≤ r.0) es
      × ((r ≡ (best, who))
          ⊎ ((j : ℕ) × (e : Entry S) × (r.1 ≡ some (i + j, e))
              × (get_elem? es j ≡ some e)
              × (usable toks e ≡ r.0)
              × (best < r.0)))

  Best-cons :
      (e : Entry S) (es : List (Entry S)) (i best : ℕ) (who : Option (ℕ × Entry S)) (b : Bool)
      → ltb best (usable toks e) ≡ b
      → (r : ℕ × Option (ℕ × Entry S))
      → Best es (suc i) (if b then usable toks e else best) (if b then some (i, e) else who) r
      → Best (e ∷ es) i best who r
  Best-cons e es i best who true t r (up, all, which) = (
    ground arith,
    (up, all),
    elim which [
      | inl same ↦ inr (0, e, ground arith, refl, ground arith, ground arith)
      | inr (j, e', p, q, v, s) ↦ inr (suc j, e', ground arith, q, v, ground arith)
    ],
  )
  Best-cons e es i best who false t r (up, all, which) = (
    up,
    (ground arith, all),
    elim which [
      | inl same ↦ inl same
      | inr (j, e', p, q, v, s) ↦ inr (suc j, e', ground arith, q, v, s)
    ],
  )

  best_from-Best :
      (es : List (Entry S)) (i best : ℕ) (who : Option (ℕ × Entry S))
      → Best es i best who (best_from toks i best who es)
  unfolding best_from
  best_from-Best [] i best who = (omega arith, tt, inl refl)
  best_from-Best (e ∷ es) i best who =
      Best-cons e es i best who (ltb best (usable toks e)) refl _ (best_from-Best es (suc i) _ _)

-- The outcome of `lookup`.
pub data Outcome {S : Type 0} (now : ℕ) (store : PrefixStore S) (toks : List ℕ)
    : PrefixStore S × Option (Entry S × ℕ) → Type 0 where
  miss :
      All (λ e. (m : ℕ) → Serves toks e m → m < 32) store.entries
      → Outcome now store toks (record store { misses = store.misses + 1 }, none)
  hit :
      (i : ℕ) (e : Entry S) (n : ℕ)
      → get_elem? store.entries i ≡ some e
      → 32 ≤ n
      → Serves toks e n
      → All (λ f. (m : ℕ) → Serves toks f m → m ≤ n) store.entries
      → Outcome now store toks (
        record store { entries = stamp now i store.entries; hits = store.hits + 1 },
        some (record e { last_used = now }, n),
      )

All-lt {ℓ} :
    {A : Type ℓ} (f : A → ℕ) (n m : ℕ) (xs : List A)
    → n < m
    → All (λ x. f x ≤ n) xs
    → All (λ x. f x < m) xs
All-lt f n m [] p h = tt
All-lt f n m (x ∷ xs) p h = (omega arith, All-lt f n m xs p h.1)

module _ {S : Type 0} (now : ℕ) (store : PrefixStore S) (toks : List ℕ) where
  -- `lookup` either counts a miss, and then no entry can serve 32 tokens, or counts a hit. On a hit
  -- the entry is one of the store's, the length is what it shares with the prompt, at least 32,
  -- leaves a token to process, is the entry's whole length where it cannot be trimmed, and no other
  -- entry can serve more. Only the entry's time stamp changes.
  pub lookup-Outcome : Outcome now store toks (lookup now store toks)
  unfolding lookup
  lookup-Outcome =
      go (best_from toks 0 0 none store.entries) (best_from-Best toks store.entries 0 0 none)
    where
      finish : ℕ × Option (ℕ × Entry S) → PrefixStore S × Option (Entry S × ℕ)
      finish (best, none) = (record store { misses = store.misses + 1 }, none)
      finish (best, some (i, e)) =
          if ltb best min_match_tokens
          then (record store { misses = store.misses + 1 }, none)
          else (
            record store { entries = stamp now i store.entries; hits = store.hits + 1 },
            some (record e { last_used = now }, best),
          )

      go :
          (r : ℕ × Option (ℕ × Entry S))
          → Best toks store.entries 0 0 none r
          → Outcome now store toks (finish r)
      go (best, none) (up, all, inl same) = miss (
          All-Serves_lt toks 32 store.entries (
            All-lt (usable toks) best 32 store.entries
              (omega (arith, ap (λ (r : ℕ × Option (ℕ × Entry S)). r.0) same)) all))
      go (best, none) (up, all, inr (j, e, p, q, r, s)) = absurd (cc)
      go (best, some (i, e)) (up, all, inl same) = absurd (ground arith)
      go (best, some (i, e)) (up, all, inr (j, e', p, q, r, s)) =
          let served : usable toks e ≡ best = ground arith in
          elim (Bool-cases (ltb best min_match_tokens)) [
            | inl low ↦ rw low (
                miss (
                  All-Serves_lt toks 32 store.entries
                    (All-lt (usable toks) best 32 store.entries (ground arith) all)))
            | inr enough ↦ rw enough (
                hit i e best (ground arith) (ground arith)
                  (rw (← served) (usable-Serves toks e (ground arith)))
                  (All-Serves_le toks best store.entries all))
          ]
