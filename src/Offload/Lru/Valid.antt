-- ===== src/Offload/Lru/Valid.antt =====
-- The bookkeeping invariant of the tracker: every slot is either free or held by one expert.
use maxtoken.Prelude.{
  ℕ, ◌+◌, ◌≡◌, ◌∙◌, refl, find-append, find-remove, has-remove, List, [], ◌∷◌, ◌++◌, some, inl, inr,
  Bool-cases, Option-cases, arith, ltb, ◌==◌, to_bit, find, remove, put, Distinct, count,
  count-append, count-range_from, length, length-append, length-range_from, count-keys-remove,
  keys-append, remove_absent, has-count, has-find,
}
use maxtoken.Offload.Lru.{LruTracker, reset, move_to_end, lookup_from}

abbrev pub slots : List (ℕ × ℕ) → List ℕ
slots [] = []
slots ((e, s) ∷ d) = s ∷ slots d

pub slots-append : (d d' : List (ℕ × ℕ)) → slots (d ++ d') ≡ slots d ++ slots d'
slots-append [] d' = refl
slots-append ((e, s) ∷ d) d' = λ i. s ∷ slots-append d d' i

-- The slots below `num_slots`, and no others, are each free or held by one expert.
pub record IsValid (t : LruTracker) : Type 0 where
  pub distinct : Distinct t.slot_of
  pub slots_once : (s : ℕ) → count s (slots t.slot_of) + count s t.free ≡ to_bit (ltb s t.num_slots)
  pub total : length t.slot_of + length t.free ≡ t.num_slots

pub reset-IsValid : (n : ℕ) → IsValid (reset n)
unfolding reset
reset-IsValid n = record {
  distinct = λ k. omega arith;
  slots_once = λ s. ground (arith, count-range_from s 0 n);
  total = omega (arith, length-range_from 0 n);
}

Distinct-tail : (p : ℕ × ℕ) (d : List (ℕ × ℕ)) → Distinct (p ∷ d) → Distinct d
Distinct-tail (j, w) d h k = omega (arith, h k)

-- Taking an entry out of a dictionary takes out its slot once.
pub count-slots-remove :
    (e v s : ℕ) (d : List (ℕ × ℕ))
    → Distinct d
    → find e d ≡ some v
    → count s (slots (remove e d)) + to_bit (v == s) ≡ count s (slots d)
unfolding remove
count-slots-remove e v s [] h p = absurd (ground arith)
count-slots-remove e v s ((j, w) ∷ d) h p = elim (Bool-cases (j == e)) [
  | inl here ↦
      rw (remove_absent e d (rw has-count (ground (arith, h e))), here)
        (ground (arith, remove_absent e d (rw has-count (ground (arith, h e)))))
  | inr there ↦
      rw there
        (ground (arith, count-slots-remove e v s d (Distinct-tail (j, w) d h) (ground arith)))
]

length-remove_found :
    (e v : ℕ) (d : List (ℕ × ℕ))
    → Distinct d
    → find e d ≡ some v
    → length (remove e d) + 1 ≡ length d
unfolding remove
length-remove_found e v [] h p = absurd (ground arith)
length-remove_found e v ((j, w) ∷ d) h p = elim (Bool-cases (j == e)) [
  | inl here ↦ rw here (ground (arith, remove_absent e d (rw has-count (ground (arith, h e)))))
  | inr there ↦
      rw there (ground (arith, length-remove_found e v d (Distinct-tail (j, w) d h) (ground arith)))
]

pub find-move_to_end :
    (e s k : ℕ) (d : List (ℕ × ℕ)) → find e d ≡ some s → find k (move_to_end e s d) ≡ find k d
unfolding move_to_end
find-move_to_end e s k d h = ground (
  arith,
  find-append k (remove e d) ((e, s) ∷ []),
  find-remove e k d,
  has-remove e k d,
  has-find k d,
)

move_to_end-IsValid :
    (t : LruTracker) (e s : ℕ)
    → find e t.slot_of ≡ some s
    → IsValid t
    → IsValid (record t { slot_of = move_to_end e s t.slot_of })
unfolding move_to_end
move_to_end-IsValid t e s h v = record {
  distinct = λ k.
      rw (keys-append (remove e t.slot_of) ((e, s) ∷ []), count-append k)
        (ground (arith, count-keys-remove e k t.slot_of, v.distinct k));
  slots_once = λ k.
      rw (slots-append (remove e t.slot_of) ((e, s) ∷ []), count-append k)
        (ground (arith, count-slots-remove e s k t.slot_of v.distinct h, v.slots_once k));
  total = omega (
    arith,
    length-append (remove e t.slot_of) ((e, s) ∷ []),
    length-remove_found e s t.slot_of v.distinct h,
    v.total,
  );
}

-- `lookup` keeps the invariant, and no expert gains, loses or changes its slot.
pub lookup_from-IsValid :
    (t : LruTracker) (hits : List (ℕ × ℕ)) (misses es : List ℕ)
    → IsValid t
    → IsValid (lookup_from t hits misses es).0
unfolding lookup_from
lookup_from-IsValid t hits misses [] v = v
lookup_from-IsValid t hits misses (e ∷ es) v = elim (Option-cases (find e t.slot_of)) [
  | inl miss ↦ rw (miss, lookup_from) (lookup_from-IsValid t hits (misses ++ e ∷ []) es v)
  | inr (s, hit) ↦
      rw (hit, lookup_from)
        (lookup_from-IsValid (record t { slot_of = move_to_end e s t.slot_of }) (put e s hits)
          misses es (move_to_end-IsValid t e s hit v))
]

pub find-lookup_from :
    (t : LruTracker) (hits : List (ℕ × ℕ)) (misses es : List ℕ) (k : ℕ)
    → find k (lookup_from t hits misses es).0.slot_of ≡ find k t.slot_of
unfolding lookup_from
find-lookup_from t hits misses [] k = refl
find-lookup_from t hits misses (e ∷ es) k = elim (Option-cases (find e t.slot_of)) [
  | inl miss ↦ rw (miss, lookup_from) (find-lookup_from t hits (misses ++ e ∷ []) es k)
  | inr (s, hit) ↦
      rw (hit, lookup_from)
        (find-lookup_from (record t { slot_of = move_to_end e s t.slot_of }) (put e s hits) misses
            es k
          ∙ find-move_to_end e s k t.slot_of hit)
]

pub num_slots-lookup_from :
    (t : LruTracker) (hits : List (ℕ × ℕ)) (misses es : List ℕ)
    → (lookup_from t hits misses es).0.num_slots ≡ t.num_slots
unfolding lookup_from
num_slots-lookup_from t hits misses [] = refl
num_slots-lookup_from t hits misses (e ∷ es) = elim (Option-cases (find e t.slot_of)) [
  | inl miss ↦ rw (miss, lookup_from) (num_slots-lookup_from t hits (misses ++ e ∷ []) es)
  | inr (s, hit) ↦
      rw (hit, lookup_from)
        (num_slots-lookup_from (record t { slot_of = move_to_end e s t.slot_of }) (put e s hits)
          misses es)
]
