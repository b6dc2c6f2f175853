-- ===== src/Offload/SlotCache/Resident.antt =====
-- `acquire` as a whole, and `commit_token`'s all-hit access by `touch`.
use maxtoken.Prelude.{
  ℕ, ◌+◌, ◌≤◌, ◌≡◌, ◌∙◌, refl, sym, ap, List, [], ◌∷◌, length, none, some, true, inl, inr,
  Bool-cases, arith, if◌then◌else◌, find, has, put, contains, count, contains-count, Distinct,
  find-put, find-has, has-some, has-count, has-append, append-nil,
}
use maxtoken.Offload.Lru.{LruTracker, lookup}
use maxtoken.Offload.Lru.Valid.{lookup_from-IsValid, find-lookup_from, num_slots-lookup_from}
use maxtoken.Offload.Lru.Recency.{Touched, lookup_from-Touched, has_of_none}
use maxtoken.Offload.Lru.Lookup.{
  hits-lookup_from, misses-lookup_from, length-lookup_from, has_of_find,
}
use maxtoken.Offload.SlotCache.{SlotCache, install, acquire, fetch_missing, merge, drop_reads}
use maxtoken.Offload.SlotCache.Coherent.{Coherent}
use maxtoken.Offload.SlotCache.Acquire.{write_all, Looped, assign_loop-Looped}

-- `d.update(e)` for a dictionary `e`.
find-merge :
    (k : ℕ) (d e : List (ℕ × ℕ))
    → Distinct e
    → find k (merge d e) ≡ (if has k e then find k e else find k d)
unfolding merge
find-merge k d [] h = refl
find-merge k d ((j, v) ∷ e) h = ground (
  arith,
  find-merge k (put j v d) e (λ i. omega (arith, h i)),
  find-put j k v d,
  has-count k e,
  h k,
)

module _ {W : Type 0} (weights : ℕ → W) where
  -- What is known of the tracker after `lookup`.
  abbrev looked : SlotCache W → List ℕ → LruTracker
  looked c es = (lookup c.lru es).0

  abbrev counted : SlotCache W → List ℕ → SlotCache W
  counted c es = record c {
    lru = looked c es;
    hits = c.hits + length (lookup c.lru es).1;
    misses = c.misses + length (lookup c.lru es).2;
  }

  counted-Coherent :
      (c : SlotCache W) (es : List ℕ) → Coherent weights c → Coherent weights (counted c es)
  counted-Coherent c es h = record {
    valid = lookup_from-IsValid c.lru [] [] es h.valid;
    resident = λ e s p. h.resident e s (sym (find-lookup_from c.lru [] [] es e) ∙ p);
    owned = λ s e p q.
        find-lookup_from c.lru [] [] es e
        ∙ h.owned s e (rw (← num_slots-lookup_from c.lru [] [] es) p) q;
  }

  -- The result of `acquire`.
  pub record Acquired (c : SlotCache W) (es : List ℕ) (c' : SlotCache W) (found : List (ℕ × ℕ))
      : Type 0 where
    pub returned : acquire weights c es ≡ some (c', found)
    pub coherent : Coherent weights c'
    pub served :
        (e : ℕ)
        → contains e es ≡ true
        → (s : ℕ) × (find e found ≡ some s)
          × (c'.owner s ≡ some e)
          × (c'.lut e ≡ s)
          × (c'.buffers s ≡ weights e)
    pub tallied : c'.hits + c'.misses ≡ c.hits + c.misses + length es
    pub same_size : c'.lru.num_slots ≡ c.lru.num_slots

  tally :
      (c : SlotCache W) (es : List ℕ)
      → ((k : ℕ) → count k es ≤ 1)
      → c.hits + length (lookup c.lru es).1 + (c.misses + length (lookup c.lru es).2)
        ≡ c.hits + c.misses + length es
  tally c es once = omega (arith, length-lookup_from c.lru [] [] es (λ k. omega (arith, once k)))

  has-looked :
      (c : SlotCache W) (es : List ℕ) (k : ℕ) → has k (looked c es).slot_of ≡ has k c.lru.slot_of
  has-looked c es k =
      has_of_find k (looked c es).slot_of c.lru.slot_of (find-lookup_from c.lru [] [] es k)

  acquire_hits :
      (c : SlotCache W) (es : List ℕ)
      → (lookup c.lru es).2 ≡ []
      → Coherent weights c
      → ((k : ℕ) → count k es ≤ 1)
      → Acquired c es (counted c es) (lookup c.lru es).1
  unfolding acquire fetch_missing
  acquire_hits c es none_missing h once = record {
    returned = ap (fetch_missing weights (counted c es) (lookup c.lru es).1) none_missing;
    coherent = counted-Coherent c es h;
    served = λ e m.
        let there : has e c.lru.slot_of ≡ true = ground (
          arith,
          misses-lookup_from c.lru [] [] es e,
          ap (count e) none_missing,
          contains-count e es,
        ) in
        let (s, p) = has-some e c.lru.slot_of there in
        let (a, b, d) = h.resident e s p in
        (s, ground (arith, hits-lookup_from c.lru [] [] es e), a, b, d);
    tallied = tally c es once;
    same_size = num_slots-lookup_from c.lru [] [] es;
  }

  -- A requested expert is found in the merged hits at the slot that it has in the tracker.
  slot_found :
      (c : SlotCache W) (es ms : List ℕ)
      (touched : Touched es (lookup c.lru es).2 (looked c es).slot_of)
      → ((k : ℕ) → count k ms ≡ (if has k c.lru.slot_of then 0 else count k es))
      → {t : LruTracker} {new : List ℕ} {assigned : List (ℕ × ℕ)}
      → Looped weights (counted c es) ms [] [] touched.recent t new assigned
      → (e : ℕ) → contains e es ≡ true
      → (s : ℕ) × (find e (merge (lookup c.lru es).1 assigned) ≡ some s)
        × (find e t.slot_of ≡ some s)
  slot_found c es ms touched missed {t} {new} {assigned} l e y =
      elim (Bool-cases (has e c.lru.slot_of)) [
        | inl hit ↦
            let (s, p) = has-some e c.lru.slot_of hit in
            let q : find e (looked c es).slot_of ≡ some s = find-lookup_from c.lru [] [] es e ∙ p in
            let recent : has e touched.recent ≡ true = ground (
              arith,
              touched.untouched e,
              has-append e touched.old touched.recent,
              touched.split,
              has-looked c es e,
            ) in
            let none_assigned : find e assigned ≡ none =
              ground (arith, l.mapped e, missed e, contains-count e ms) in
            (
              s,
              ground (
                arith,
                find-merge e (lookup c.lru es).1 assigned (l.distinct (λ k. omega arith)),
                has_of_none e assigned,
                hits-lookup_from c.lru [] [] es e,
              ),
              l.held e s recent q,
            )
        | inr miss ↦
            let there : contains e ms ≡ true =
              ground (arith, missed e, contains-count e ms, contains-count e es) in
            let (s, p) = has-some e t.slot_of (l.placed e there) in
            let q : find e assigned ≡ some s = ground (arith, l.mapped e) in
            (
              s,
              ground (
                arith,
                find-merge e (lookup c.lru es).1 assigned (l.distinct (λ k. omega arith)),
                find-has e assigned s q,
              ),
              p,
            )
      ]

  acquire_misses :
      (c : SlotCache W) (es : List ℕ) (m : ℕ) (ms : List ℕ)
      → (lookup c.lru es).2 ≡ m ∷ ms
      → Coherent weights c
      → ((k : ℕ) → count k es ≤ 1)
      → length es ≤ c.lru.num_slots
      → (c' : SlotCache W) × (found : List (ℕ × ℕ)) × Acquired c es c' found
  unfolding acquire fetch_missing install
  acquire_misses c es m ms some_missing h once few =
      let touched = lookup_from-Touched c.lru [] [] [] es start in
      let missed : (k : ℕ) → count k (m ∷ ms) ≡ (if has k c.lru.slot_of then 0 else count k es) =
        λ k. omega (arith, ap (count k) some_missing, misses-lookup_from c.lru [] [] es k) in
      let (t, new, assigned, l) =
        assign_loop-Looped weights (m ∷ ms) (counted c es) [] [] touched.old touched.recent
          touched.split (counted-Coherent c es h)
          (λ k y. ground (arith, has-looked c es k, missed k, contains-count k (m ∷ ms)))
          (λ k. ground (arith, missed k, once k))
          (omega (
            arith,
            touched.few,
            ap length some_missing,
            num_slots-lookup_from c.lru [] [] es,
            few,
          )) in
      let c' : SlotCache W = record (write_all weights (counted c es) t new (m ∷ ms)) {
        inflight = drop_reads (m ∷ ms) c.inflight;
      } in
      let coherent' : Coherent weights c' = record {
        valid = l.coherent.valid;
        resident = l.coherent.resident;
        owned = l.coherent.owned;
      } in
      (
        c',
        merge (lookup c.lru es).1 assigned,
        record {
          returned =
              ap (fetch_missing weights (counted c es) (lookup c.lru es).1) some_missing
              ∙ rw (l.returned);
          coherent = coherent';
          served = λ e y.
              let (s, p, q) = slot_found c es (m ∷ ms) touched missed l e y in
              let (a, b, d) = coherent'.resident e s q in (s, p, a, b, d);
          tallied = tally c es once;
          same_size = l.same_size ∙ num_slots-lookup_from c.lru [] [] es;
        },
      )
    where
      start : Touched [] [] c.lru.slot_of
      start = record {
        old = c.lru.slot_of;
        recent = [];
        split = sym (append-nil c.lru.slot_of);
        untouched = λ k y. refl;
        asked = λ k y. absurd (cc);
        few = omega arith;
      }

  -- Asked for distinct experts, no more than there are slots, a coherent cache serves them all:
  -- `acquire` returns for each a slot that holds its bytes and that `owner` and `lut` agree on, and the
  -- cache stays coherent and keeps its number of slots. Each request is counted once.
  pub acquire_lem :
      (c : SlotCache W) (es : List ℕ)
      → Coherent weights c
      → ((k : ℕ) → count k es ≤ 1)
      → length es ≤ c.lru.num_slots
      → (c' : SlotCache W) × (found : List (ℕ × ℕ)) × Acquired c es c' found
  acquire_lem c es h once few = go (lookup c.lru es).2 refl
    where
      go :
          (missing : List ℕ)
          → (lookup c.lru es).2 ≡ missing
          → (c' : SlotCache W) × (found : List (ℕ × ℕ)) × Acquired c es c' found
      go [] p = (counted c es, (lookup c.lru es).1, acquire_hits c es p h once)
      go (m ∷ ms) p = acquire_misses c es m ms p h once few
