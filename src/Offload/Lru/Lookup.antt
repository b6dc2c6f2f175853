-- ===== src/Offload/Lru/Lookup.antt =====
-- What `lookup` reports: the hits with their slots, and the misses in order.
use maxtoken.Prelude.{
  ℕ, ◌+◌, ◌≤◌, ◌≡◌, refl, List, [], ◌∷◌, ◌++◌, length, length-append, false, inl, inr, Option-cases,
  arith, ◌&&◌, if◌then◌else◌, keys, find, has, put, contains, count, count-append, find-put,
  find-has, has-count, count-keys-put,
}
use maxtoken.Offload.Lru.{LruTracker, move_to_end, lookup_from}
use maxtoken.Offload.Lru.Valid.{find-move_to_end}
use maxtoken.Offload.Lru.Recency.{has_of_none}

pub has_of_find : (k : ℕ) (d e : List (ℕ × ℕ)) → find k d ≡ find k e → has k d ≡ has k e
has_of_find k d e h = elim (Option-cases (find k e)) [
  | inl n ↦ ground (arith, has_of_none k d, has_of_none k e)
  | inr (v, y) ↦ ground (arith, find-has k d v, find-has k e v)
]

abbrev after_hit : LruTracker → ℕ → ℕ → LruTracker
after_hit t e s = record t { slot_of = move_to_end e s t.slot_of }

-- The hits are the requested experts that are resident, each with its slot.
pub hits-lookup_from :
    (t : LruTracker) (hits : List (ℕ × ℕ)) (misses es : List ℕ) (k : ℕ)
    → find k (lookup_from t hits misses es).1
      ≡ (if contains k es && has k t.slot_of then find k t.slot_of else find k hits)
unfolding lookup_from
hits-lookup_from t hits misses [] k = refl
hits-lookup_from t hits misses (e ∷ es) k = elim (Option-cases (find e t.slot_of)) [
  | inl miss ↦
      rw (miss, lookup_from)
        (ground
          (arith, hits-lookup_from t hits (misses ++ e ∷ []) es k, has_of_none e t.slot_of miss))
  | inr (s, hit) ↦
      let same = find-move_to_end e s k t.slot_of hit in
      rw (hit, lookup_from)
        (ground (
          arith,
          hits-lookup_from (after_hit t e s) (put e s hits) misses es k,
          same,
          has_of_find k (move_to_end e s t.slot_of) t.slot_of same,
          find-put e k s hits,
          find-has e t.slot_of s hit,
        ))
]

-- The misses are the requested experts that are not resident, as often as they were requested.
pub misses-lookup_from :
    (t : LruTracker) (hits : List (ℕ × ℕ)) (misses es : List ℕ) (k : ℕ)
    → count k (lookup_from t hits misses es).2
      ≡ count k misses + (if has k t.slot_of then 0 else count k es)
unfolding lookup_from
misses-lookup_from t hits misses [] k = ground arith
misses-lookup_from t hits misses (e ∷ es) k = elim (Option-cases (find e t.slot_of)) [
  | inl miss ↦
      rw (miss, lookup_from)
        (ground (
          arith,
          misses-lookup_from t hits (misses ++ e ∷ []) es k,
          count-append k misses (e ∷ []),
          has_of_none e t.slot_of miss,
        ))
  | inr (s, hit) ↦
      let same = find-move_to_end e s k t.slot_of hit in
      rw (hit, lookup_from)
        (ground (
          arith,
          misses-lookup_from (after_hit t e s) (put e s hits) misses es k,
          has_of_find k (move_to_end e s t.slot_of) t.slot_of same,
          find-has e t.slot_of s hit,
        ))
]

length-put :
    (k v : ℕ) (d : List (ℕ × ℕ)) → length (put k v d) ≡ (if has k d then length d else length d + 1)
unfolding put
length-put k v [] = omega arith
length-put k v ((j, w) ∷ d) = ground (arith, length-put k v d)

-- Over distinct experts every request is counted once, as a hit or as a miss.
pub length-lookup_from :
    (t : LruTracker) (hits : List (ℕ × ℕ)) (misses es : List ℕ)
    → ((k : ℕ) → count k es + count k (keys hits) ≤ 1)
    → length (lookup_from t hits misses es).1 + length (lookup_from t hits misses es).2
      ≡ length hits + length misses + length es
unfolding lookup_from
length-lookup_from t hits misses [] h = omega arith
length-lookup_from t hits misses (e ∷ es) h = elim (Option-cases (find e t.slot_of)) [
  | inl miss ↦
      rw (miss, lookup_from)
        (omega (
          arith,
          length-lookup_from t hits (misses ++ e ∷ []) es (λ k. omega (arith, h k)),
          length-append misses (e ∷ []),
        ))
  | inr (s, hit) ↦
      let new : has e hits ≡ false = ground (arith, has-count e hits, h e) in
      let more : length (put e s hits) ≡ length hits + 1 = ground (arith, length-put e s hits) in
      rw (hit, lookup_from)
        (omega (
          arith,
          length-lookup_from (after_hit t e s) (put e s hits) misses es
              (λ k. ground (arith, h k, count-keys-put e k s hits)),
          more,
        ))
]
