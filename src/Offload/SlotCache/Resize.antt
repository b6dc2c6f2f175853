-- ===== src/Offload/SlotCache/Resize.antt =====
-- `resize` of the slot cache: the most recently used experts survive, with their bytes.
use mathlib.Core.List.{reverse, reverse-cons}
use maxtoken.Prelude.{
  ℕ, zero, suc, ◌+◌, ◌-◌, ◌≤◌, ◌≡◌, refl, ap, sym, leb, List, [], ◌∷◌, ◌++◌, drop, length,
  length-append, take, length-take, none, some, true, false, inl, inr, Bool-cases, arith, ◌==◌,
  find, has, contains, count, count-append, Distinct, find-has, has-some, has-count, keys,
  keys-append, All, All-append, contains-count,
}
use maxtoken.Offload.Lru.{reset, most_recent}
use maxtoken.Offload.Lru.Valid.{reset-IsValid}
use maxtoken.Offload.Lru.Assign.{assign_lem, stays, length-stays-le}
use maxtoken.Offload.SlotCache.{SlotCache, move_loop, resize}
use maxtoken.Offload.SlotCache.Coherent.{
  Coherent, place, place-Coherent, find-place_self, has-place, kept_find,
}
use maxtoken.Offload.SlotCache.Acquire.{stays_split}

keys-reverse : (k : ℕ) (d : List (ℕ × ℕ)) → count k (keys (reverse d)) ≡ count k (keys d)
keys-reverse k [] = refl
keys-reverse k ((e, s) ∷ d) =
    rw (reverse-cons (e, s) d, keys-append (reverse d) ((e, s) ∷ []), count-append k)
      (omega (arith, keys-reverse k d))

keys-take : (k n : ℕ) (d : List (ℕ × ℕ)) → count k (keys (take n d)) ≤ count k (keys d)
keys-take k zero d = omega arith
keys-take k (suc n) [] = omega arith
keys-take k (suc n) ((e, s) ∷ d) = omega (arith, keys-take k n d)

All-take {ℓ κ} : {A : Type ℓ} (P : A → Type κ) (n : ℕ) (xs : List A) → All P xs → All P (take n xs)
All-take P zero xs h = tt
All-take P (suc n) [] h = tt
All-take P (suc n) (x ∷ xs) h = (h.0, All-take P n xs h.1)

All-reverse {ℓ κ} : {A : Type ℓ} (P : A → Type κ) (xs : List A) → All P xs → All P (reverse xs)
All-reverse P [] h = tt
All-reverse P (x ∷ xs) h =
    rw (reverse-cons x xs) (All-append P (reverse xs) (x ∷ []) (All-reverse P xs h.1) (h.0, tt))

take-all {ℓ} : {A : Type ℓ} (n : ℕ) (xs : List A) → length xs ≤ n → take n xs ≡ xs
take-all zero [] h = refl
take-all zero (x ∷ xs) h = absurd (omega arith)
take-all (suc n) [] h = refl
take-all (suc n) (x ∷ xs) h = ap (λ ys. x ∷ ys) (take-all n xs (omega arith))

take-append {ℓ} :
    {A : Type ℓ} (n : ℕ) (xs ys : List A) → n ≤ length xs → take n (xs ++ ys) ≡ take n xs
take-append zero xs ys h = refl
take-append (suc n) [] ys h = absurd (omega arith)
take-append (suc n) (x ∷ xs) ys h = ap (λ zs. x ∷ zs) (take-append n xs ys (omega arith))

length-reverse {ℓ} : {A : Type ℓ} (xs : List A) → length (reverse xs) ≡ length xs
length-reverse [] = refl
length-reverse (x ∷ xs) =
    rw (reverse-cons x xs, length-append (reverse xs) (x ∷ [])) (omega (arith, length-reverse xs))

-- The last `n` entries are the first `n` of the reversed list.
count-last :
    (k n : ℕ) (d : List (ℕ × ℕ))
    → count k (keys (drop (length d - n) d)) ≡ count k (keys (take n (reverse d)))
count-last k zero [] = refl
count-last k (suc n) [] = let none_left : 0 - suc n ≡ 0 = omega arith in rw none_left refl
count-last k n (p ∷ d) = elim (Bool-cases (leb (length (p ∷ d)) n)) [
  | inl e ↦
      let all : length (p ∷ d) - n ≡ 0 = ground arith in
      let short : length (reverse (p ∷ d)) ≤ n = ground (arith, length-reverse (p ∷ d)) in
      rw (all, take-all n (reverse (p ∷ d)) short) (sym (keys-reverse k (p ∷ d)))
  | inr e ↦
      let less : length (p ∷ d) - n ≡ suc (length d - n) = ground arith in
      let long : n ≤ length (reverse d) = ground (arith, length-reverse d) in
      rw (less, reverse-cons p d, take-append n (reverse d) (p ∷ []) long) (count-last k n d)
]

contains-last :
    (k n : ℕ) (d : List (ℕ × ℕ))
    → contains k (keys (drop (length d - n) d)) ≡ true
    → contains k (keys (take n (reverse d))) ≡ true
contains-last k n d h = ground (
  arith,
  contains-count k (keys (drop (length d - n) d)),
  contains-count k (keys (take n (reverse d))),
  count-last k n d,
)

module _ {W : Type 0} (weights : ℕ → W) where
  -- Each entry's slot holds the expert's bytes.
  abbrev Holds : (ℕ → W) → ℕ × ℕ → Type 0
  Holds old p = old p.1 ≡ weights p.0

  Holds-of_find :
      (old : ℕ → W) (d : List (ℕ × ℕ))
      → Distinct d
      → ((e s : ℕ) → find e d ≡ some s → old s ≡ weights e)
      → All (Holds old) d
  Holds-of_find old [] h f = tt
  Holds-of_find old ((e, s) ∷ d) h f = (
    f e s (ground arith),
    Holds-of_find old d (λ k. omega (arith, h k))
        (λ k w p. f k w (ground (arith, find-has k d w p, has-count k d, h k))),
  )

  pub record Moved (c : SlotCache W) (keep : List (ℕ × ℕ)) (c' : SlotCache W) : Type 0 where
    pub coherent : Coherent weights c'
    pub old_stay : (k : ℕ) → has k c.lru.slot_of ≡ true → has k c'.lru.slot_of ≡ true
    pub kept : (k : ℕ) → contains k (keys keep) ≡ true → has k c'.lru.slot_of ≡ true
    pub same_size : c'.lru.num_slots ≡ c.lru.num_slots

  move_loop-Moved :
      (old : ℕ → W) (keep : List (ℕ × ℕ)) (c : SlotCache W)
      → Coherent weights c
      → All (Holds old) keep
      → Distinct keep
      → ((k : ℕ) → contains k (keys keep) ≡ true → has k c.lru.slot_of ≡ false)
      → length c.lru.slot_of + length keep ≤ c.lru.num_slots
      → (c' : SlotCache W) × (move_loop old c keep ≡ some c') × Moved c keep c'
  unfolding move_loop
  move_loop-Moved old [] c h holds once absent few = (
    c,
    refl,
    record { coherent = h; old_stay = λ k y. y; kept = λ k y. absurd (cc); same_size = refl },
  )
  move_loop-Moved old ((e, w) ∷ keep) c h holds once absent few =
      let new : has e c.lru.slot_of ≡ false = absent e (ground arith) in
      let (t, s, a) = assign_lem c.lru e h.valid new (omega arith) in
      let (old', kept) = stays_split weights c.lru [] c.lru.slot_of h.valid refl (omega arith) in
      let more : length t.slot_of ≤ length c.lru.slot_of + 1 = omega (
        arith,
        ap length a.entries,
        length-append (stays c.lru.free c.lru.slot_of) ((e, s) ∷ []),
        length-stays-le c.lru.free c.lru.slot_of,
      ) in
      let (c', moved, m) =
        move_loop-Moved old keep (place weights c t e s) (place-Coherent weights c h new a) holds.1
          (λ k. omega (arith, once k))
          (λ k y.
            has-place weights c h new a k (absent k (ground arith))
              (ground (arith, once e, contains-count k (keys keep))))
          (omega (arith, more, a.num_slots)) in
      (
        c',
        rw (a.returned, move_loop, holds.0) moved,
        record {
          coherent = m.coherent;
          old_stay = λ k y.
              let (v, p) = has-some k c.lru.slot_of y in
              m.old_stay k (
                find-has k t.slot_of v
                  (kept_find weights c h new a k v old' c.lru.slot_of kept y p));
          kept = λ k y. elim (Bool-cases (e == k)) [
            | inl same ↦
                let e' : e ≡ k = ground arith in
                m.old_stay k
                  (rw (← e') (find-has e t.slot_of s (find-place_self weights c h new a)))
            | inr other ↦ m.kept k (ground arith)
          ];
          same_size = omega (arith, m.same_size, a.num_slots);
        },
      )

  -- Resizing a coherent cache to `n` slots gives a coherent cache of `n` slots in which the `n` most
  -- recently used experts, the last ones of `slot_of`, are resident.
  pub resize_lem :
      (zero_bytes : W) (c : SlotCache W) (n : ℕ)
      → Coherent weights c
      → (c' : SlotCache W) × (resize zero_bytes c n ≡ some c')
        × Coherent weights c'
        × (c'.lru.num_slots ≡ n)
        × ((e : ℕ)
            → contains e (keys (drop (length c.lru.slot_of - n) c.lru.slot_of)) ≡ true
            → has e c'.lru.slot_of ≡ true)
  unfolding resize most_recent reset
  resize_lem zero_bytes c n h =
      let (c', moved, m) =
        move_loop-Moved c.buffers (most_recent c.lru n)
          (record c {
            lru = reset n;
            inflight = [];
            buffers = λ _. zero_bytes;
            owner = λ _. none;
            lut = λ _. 0;
          })
          (record {
            valid = reset-IsValid n;
            resident = λ e s p. absurd (ground arith);
            owned = λ s e p q. absurd (ground arith);
          })
          (All-take (Holds c.buffers) n (reverse c.lru.slot_of) (
            All-reverse (Holds c.buffers) c.lru.slot_of (
              Holds-of_find c.buffers c.lru.slot_of h.valid.distinct
                (λ e s p. (h.resident e s p).2))))
          (λ k. omega (
            arith,
            keys-take k n (reverse c.lru.slot_of),
            keys-reverse k c.lru.slot_of,
            h.valid.distinct k,
          ))
          (λ k y. refl) (omega (arith, length-take n (reverse c.lru.slot_of))) in
      (c', moved, m.coherent, m.same_size, λ e p. m.kept e (contains-last e n c.lru.slot_of p))
