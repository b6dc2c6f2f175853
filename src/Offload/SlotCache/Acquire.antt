-- ===== src/Offload/SlotCache/Acquire.antt =====
-- `install` and `acquire`: after them every expert that was asked for is resident.
use maxtoken.Prelude.{
  ℕ, ◌+◌, ◌≤◌, ◌<◌, ◌≡◌, ◌∙◌, refl, ap, List, [], ◌∷◌, ◌++◌, append_assoc, append-nil, length,
  length-append, some, true, false, inl, inr, Bool-cases, arith, ◌==◌, if◌then◌else◌, find, has,
  put, contains, count, contains-count, Distinct, find-put, find-has, has-append, count-keys-put,
  has-count,
}
use maxtoken.Offload.Lru.{LruTracker}
use maxtoken.Offload.Lru.Valid.{IsValid}
use maxtoken.Offload.Lru.Assign.{stays, Assigned, assign_lem}
use maxtoken.Offload.SlotCache.{SlotCache, scatter, assign_loop, fetched, owners}
use maxtoken.Offload.SlotCache.Coherent.{
  Coherent, place, place-Coherent, find-place_self, has-place, kept_find,
}

module _ {W : Type 0} (weights : ℕ → W) where
  -- The three writes that `install` makes once the slots are chosen.
  abbrev pub write_all : SlotCache W → LruTracker → List ℕ → List ℕ → SlotCache W
  write_all c t slots missing = record c {
    lru = t;
    buffers = scatter c.buffers slots (fetched weights missing);
    owner = scatter c.owner slots (owners missing);
    lut = scatter c.lut missing slots;
  }

  -- What the loop of `install` reaches from `c`, when the entries `recent` must stay.
  pub record Looped (c : SlotCache W) (es slots : List ℕ) (assigned recent : List (ℕ × ℕ))
      (t : LruTracker) (new : List ℕ) (assigned' : List (ℕ × ℕ)) : Type 0 where
    pub returned : assign_loop c.lru slots assigned es ≡ some (t, slots ++ new, assigned')
    pub coherent : Coherent weights (write_all c t new es)
    pub held :
        (k s : ℕ) → has k recent ≡ true → find k c.lru.slot_of ≡ some s → find k t.slot_of ≡ some s
    pub placed : (k : ℕ) → contains k es ≡ true → has k t.slot_of ≡ true
    pub mapped :
        (k : ℕ) → find k assigned' ≡ (if contains k es then find k t.slot_of else find k assigned)
    pub distinct : Distinct assigned → Distinct assigned'
    pub same_size : t.num_slots ≡ c.lru.num_slots

  -- While the slots suffice, an entry that must stay survives the eviction.
  pub stays_split :
      (t : LruTracker) (old recent : List (ℕ × ℕ))
      → IsValid t
      → t.slot_of ≡ old ++ recent
      → length recent < t.num_slots
      → (old' : List (ℕ × ℕ)) × (stays t.free t.slot_of ≡ old' ++ recent)
  stays_split t old recent v p few = go t.free old t.slot_of p v.total
    where
      go :
          (free : List ℕ) (old d : List (ℕ × ℕ))
          → d ≡ old ++ recent
          → length d + length free ≡ t.num_slots
          → (old' : List (ℕ × ℕ)) × (stays free d ≡ old' ++ recent)
      go (s ∷ free) old d q total = (old, q)
      go [] [] d q total = absurd (omega (arith, ap length q))
      go [] (x ∷ old) [] q total = absurd (cc)
      go [] (x ∷ old) (y ∷ d) q total = (old, cc)

  -- From the step for one expert and the rest of the loop.
  Looped-cons :
      (c : SlotCache W) (e : ℕ) (es slots : List ℕ) (assigned recent : List (ℕ × ℕ))
      {t : LruTracker} {s : ℕ} (a : Assigned c.lru e t s) (old' : List (ℕ × ℕ))
      → stays c.lru.free c.lru.slot_of ≡ old' ++ recent
      → Coherent weights c
      → has e c.lru.slot_of ≡ false
      → count e es ≡ 0
      → {t' : LruTracker} {new : List ℕ} {assigned' : List (ℕ × ℕ)}
      → Looped
          (place weights c t e s)
          es
          (slots ++ s ∷ [])
          (put e s assigned)
          (recent ++ (e, s) ∷ [])
          t'
          new
          assigned'
      → Looped c (e ∷ es) slots assigned recent t' (s ∷ new) assigned'
  unfolding assign_loop scatter fetched owners
  Looped-cons c e es slots assigned recent {t} {s} a old' kept h absent once {t'} {new} {assigned'}
        l =
      record {
        returned = rw (a.returned, assign_loop, ← append_assoc slots (s ∷ []) new) l.returned;
        coherent = l.coherent;
        held = held;
        placed = λ k m. elim (Bool-cases (e == k)) [
          | inl same ↦ let e' : e ≡ k = ground arith in rw (← e') (find-has e t'.slot_of s own)
          | inr other ↦ l.placed k (ground arith)
        ];
        mapped = λ k. elim (Bool-cases (e == k)) [
          | inl same ↦
              let e' : e ≡ k = ground arith in
              ground
                (arith, l.mapped e, l.mapped k, find-put e k s assigned, own, contains-count e es)
          | inr other ↦ ground (arith, l.mapped k, find-put e k s assigned)
        ];
        distinct = λ d.
            l.distinct
              (λ k. ground (arith, d k, count-keys-put e k s assigned, has-count e assigned));
        same_size = l.same_size ∙ a.num_slots;
      }
    where
      own : find e t'.slot_of ≡ some s
      own =
          l.held e s (rw (has-append e recent ((e, s) ∷ [])) (ground arith))
            (find-place_self weights c h absent a)

      held :
          (k w : ℕ)
          → has k recent ≡ true
          → find k c.lru.slot_of ≡ some w
          → find k t'.slot_of ≡ some w
      held k w r p =
          l.held k w (rw (has-append k recent ((e, s) ∷ [])) (ground arith))
            (kept_find weights c h absent a k w old' recent kept r p)

  -- The loop of `install` over new and distinct experts, when the slots suffice.
  pub assign_loop-Looped :
      (es : List ℕ) (c : SlotCache W) (slots : List ℕ) (assigned old recent : List (ℕ × ℕ))
      → c.lru.slot_of ≡ old ++ recent
      → Coherent weights c
      → ((k : ℕ) → contains k es ≡ true → has k c.lru.slot_of ≡ false)
      → ((k : ℕ) → count k es ≤ 1)
      → length recent + length es ≤ c.lru.num_slots
      → (t : LruTracker) × (new : List ℕ) × (assigned' : List (ℕ × ℕ)) × Looped c es slots assigned
          recent t new assigned'
  unfolding assign_loop scatter fetched owners
  assign_loop-Looped [] c slots assigned old recent split h absent once few = (
    c.lru,
    [],
    assigned,
    record {
      returned = rw append-nil;
      coherent = h;
      held = λ k s r p. p;
      placed = λ k m. absurd (cc);
      mapped = λ k. refl;
      distinct = λ d. d;
      same_size = refl;
    },
  )
  assign_loop-Looped (e ∷ es) c slots assigned old recent split h absent once few =
      let new_here : has e c.lru.slot_of ≡ false = absent e (ground arith) in
      let (t, s, a) = assign_lem c.lru e h.valid new_here (omega arith) in
      let (old', kept) = stays_split c.lru old recent h.valid split (omega arith) in
      let once_here : count e es ≡ 0 = ground (arith, once e) in
      let (t', new, assigned', l) =
        assign_loop-Looped es (place weights c t e s) (slots ++ s ∷ []) (put e s assigned) old'
          (recent ++ (e, s) ∷ [])
          (a.entries ∙ ap (λ x. x ++ (e, s) ∷ []) kept ∙ append_assoc old' recent ((e, s) ∷ []))
          (place-Coherent weights c h new_here a)
          (λ k m.
            has-place weights c h new_here a k (absent k (ground arith))
              (ground (arith, contains-count k es)))
          (λ k. omega (arith, once k))
          (omega (arith, length-append recent ((e, s) ∷ []), a.num_slots)) in
      (
        t',
        s ∷ new,
        assigned',
        Looped-cons c e es slots assigned recent a old' kept h new_here once_here l,
      )
