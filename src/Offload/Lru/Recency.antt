-- ===== src/Offload/Lru/Recency.antt =====
-- The order of the entries: `lookup` moves what was asked for to the recently used end, where a
-- run of `assign` cannot evict it while the slots suffice.
use maxtoken.Prelude.{
  ℕ, ◌+◌, ◌≤◌, ◌≡◌, ◌∙◌, refl, ap, List, [], ◌∷◌, ◌++◌, append_assoc, append-nil, length,
  length-append, none, true, false, inl, inr, Option-cases, arith, ◌||◌, find, has, put, remove,
  contains, has-append, has-remove,
}
use maxtoken.Offload.Lru.{LruTracker, move_to_end, lookup_from}

pub contains-append :
    (k : ℕ) (xs ys : List ℕ) → contains k (xs ++ ys) ≡ contains k xs || contains k ys
contains-append k [] ys = refl
contains-append k (x ∷ xs) ys = ground (arith, contains-append k xs ys)

remove-append : (k : ℕ) (d e : List (ℕ × ℕ)) → remove k (d ++ e) ≡ remove k d ++ remove k e
unfolding remove
remove-append k [] e = refl
remove-append k ((j, w) ∷ d) e = ground (arith, remove-append k d e)

length-remove : (k : ℕ) (d : List (ℕ × ℕ)) → length (remove k d) ≤ length d
unfolding remove
length-remove k [] = omega arith
length-remove k ((j, w) ∷ d) = ground (arith, length-remove k d)

-- The entries split into old ones, none of which was asked for, and recent ones, all of which were.
pub record Touched (seen misses : List ℕ) (d : List (ℕ × ℕ)) : Type 0 where
  pub old : List (ℕ × ℕ)
  pub recent : List (ℕ × ℕ)
  pub split : d ≡ old ++ recent
  pub untouched : (k : ℕ) → has k old ≡ true → contains k seen ≡ false
  pub asked : (k : ℕ) → has k recent ≡ true → contains k seen ≡ true
  pub few : length recent + length misses ≤ length seen

touch_hit :
    (e s : ℕ) (seen misses : List ℕ) (d : List (ℕ × ℕ))
    → Touched seen misses d
    → Touched (seen ++ e ∷ []) misses (move_to_end e s d)
unfolding move_to_end
touch_hit e s seen misses d t = record {
  old = remove e t.old;
  recent = remove e t.recent ++ (e, s) ∷ [];
  split =
      ap (λ (x : List (ℕ × ℕ)). remove e x ++ (e, s) ∷ []) t.split
      ∙ ap (λ (x : List (ℕ × ℕ)). x ++ (e, s) ∷ []) (remove-append e t.old t.recent)
      ∙ append_assoc (remove e t.old) (remove e t.recent) ((e, s) ∷ []);
  untouched = λ k.
      rw (has-remove e k t.old, contains-append k seen (e ∷ [])) (ground (arith, t.untouched k));
  asked = λ k.
      rw (has-append k (remove e t.recent) ((e, s) ∷ []), contains-append k seen (e ∷ []))
        (ground (arith, has-remove e k t.recent, t.asked k));
  few = omega (
    arith,
    length-append (remove e t.recent) ((e, s) ∷ []),
    length-append seen (e ∷ []),
    length-remove e t.recent,
    t.few,
  );
}

touch_miss :
    (e : ℕ) (seen misses : List ℕ) (d : List (ℕ × ℕ))
    → has e d ≡ false
    → Touched seen misses d
    → Touched (seen ++ e ∷ []) (misses ++ e ∷ []) d
touch_miss e seen misses d h t = record {
  old = t.old;
  recent = t.recent;
  split = t.split;
  untouched = λ k.
      rw (contains-append k seen (e ∷ []))
        (ground (arith, t.untouched k, has-append k t.old t.recent, t.split));
  asked = λ k. rw (contains-append k seen (e ∷ [])) (ground (arith, t.asked k));
  few = omega (arith, length-append seen (e ∷ []), length-append misses (e ∷ []), t.few);
}

pub has_of_none : (e : ℕ) (d : List (ℕ × ℕ)) → find e d ≡ none → has e d ≡ false
has_of_none e [] h = refl
has_of_none e ((j, w) ∷ d) h = ground (arith, has_of_none e d)

pub lookup_from-Touched :
    (t : LruTracker) (hits : List (ℕ × ℕ)) (misses seen es : List ℕ)
    → Touched seen misses t.slot_of
    → Touched (seen ++ es) (lookup_from t hits misses es).2 (lookup_from t hits misses es).0.slot_of
unfolding lookup_from
lookup_from-Touched t hits misses seen [] h = rw append-nil h
lookup_from-Touched t hits misses seen (e ∷ es) h = elim (Option-cases (find e t.slot_of)) [
  | inl miss ↦
      rw (miss, lookup_from, ← append_assoc seen (e ∷ []) es)
        (lookup_from-Touched t hits (misses ++ e ∷ []) (seen ++ e ∷ []) es
          (touch_miss e seen misses t.slot_of (has_of_none e t.slot_of miss) h))
  | inr (s, hit) ↦
      rw (hit, lookup_from, ← append_assoc seen (e ∷ []) es)
        (lookup_from-Touched (record t { slot_of = move_to_end e s t.slot_of }) (put e s hits)
          misses (seen ++ e ∷ []) es (touch_hit e s seen misses t.slot_of h))
]
