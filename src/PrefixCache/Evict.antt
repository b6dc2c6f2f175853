-- ===== src/PrefixCache/Evict.antt =====
-- `_evict`: least recently used first, only while the store is over its budget, never the newest.
use maxtoken.Prelude.{
  ℕ, zero, suc, ◌+◌, ◌-◌, ◌≤◌, ◌<◌, ◌≡◌, ◌∙◌, refl, ap, ◌⊎◌, min, List, [], ◌∷◌, ◌++◌, length,
  length-append, Bool, true, false, ltb, ◌==◌, ◌||◌, if◌then◌else◌, arith, All, inl, inr,
  Bool-cases,
}
use maxtoken.PrefixCache.{Entry, oldest, take_out, total_bytes, evict_loop, evict}

module _ {S : Type 0} where
  pub total_bytes-append :
      (es fs : List (Entry S)) → total_bytes (es ++ fs) ≡ total_bytes es + total_bytes fs
  unfolding total_bytes
  total_bytes-append [] fs = omega arith
  total_bytes-append (e ∷ es) fs = omega (arith, total_bytes-append es fs)

  -- Some entry has this time stamp.
  abbrev stamped : ℕ → List (Entry S) → Bool
  stamped used [] = false
  stamped used (e ∷ es) = (e.last_used == used) || stamped used es

  -- The stamp that `oldest` finds among the entries before the newest.
  record Oldest (start : ℕ) (front : List (Entry S)) (used : ℕ) : Type 0 where
    below_start : used ≤ start
    below_all : All (λ f. used ≤ f.last_used) front
    reached : (used ≡ start) ⊎ (stamped used front ≡ true)

  oldest_lem :
      (start : ℕ) (front : List (Entry S)) (x : Entry S)
      → Oldest start front (oldest start (front ++ x ∷ []))
  unfolding oldest
  oldest_lem start [] x = record { below_start = omega arith; below_all = tt; reached = inl refl }
  oldest_lem start (e ∷ []) x = record {
    below_start = omega arith;
    below_all = (omega arith, tt);
    reached = elim (Bool-cases (ltb start e.last_used)) [
      | inl b ↦ inl (ground arith)
      | inr b ↦ inr (ground arith)
    ];
  }
  oldest_lem start (e ∷ f ∷ fs) x =
      let r = oldest_lem (min start e.last_used) (f ∷ fs) x in
      record {
        below_start = omega (arith, r.below_start);
        below_all = (omega (arith, r.below_start), r.below_all);
        reached = elim r.reached [
          | inr later ↦ inr (ground arith)
          | inl here ↦ elim (Bool-cases (ltb start e.last_used)) [
            | inl b ↦ inl (ground arith)
            | inr b ↦ inr (ground arith)
          ]
        ];
      }

  -- `take_out` takes the first entry with the stamp out of the older ones.
  record TakenOut (used : ℕ) (front : List (Entry S)) (x : Entry S) : Type 0 where
    before : List (Entry S)
    victim : Entry S
    after : List (Entry S)
    split : front ≡ before ++ victim ∷ after
    stamp : victim.last_used ≡ used
    result : take_out used (front ++ x ∷ []) ≡ (victim.nbytes, (before ++ after) ++ x ∷ [])

  take_out_lem :
      (used : ℕ) (front : List (Entry S)) (x : Entry S)
      → stamped used front ≡ true
      → TakenOut used front x
  unfolding take_out
  take_out_lem used [] x h = absurd (cc)
  take_out_lem used (e ∷ front) x h = elim (Bool-cases (e.last_used == used)) [
    | inl here ↦ record {
      before = [];
      victim = e;
      after = front;
      split = refl;
      stamp = ground arith;
      result = rw here;
    }
    | inr there ↦
        let r = take_out_lem used front x (ground arith) in
        record {
          before = e ∷ r.before;
          victim = r.victim;
          after = r.after;
          split = ap (◌∷◌ e) r.split;
          stamp = r.stamp;
          result = rw (there, r.result);
        }
  ]

  -- From `front` to `front'` in rounds that each find the store over budget and take out an entry
  -- that is no more recently used than any other older one. `x` is the newest entry.
  pub data Evicts (max_bytes : ℕ) (x : Entry S) : List (Entry S) → List (Entry S) → Type 0 where
    stop : {front : List (Entry S)} → Evicts max_bytes x front front
    drop :
        (before : List (Entry S)) (victim : Entry S) (after : List (Entry S))
        {front front' : List (Entry S)}
        → front ≡ before ++ victim ∷ after
        → All (λ f. victim.last_used ≤ f.last_used) front
        → max_bytes < total_bytes (front ++ x ∷ [])
        → Evicts max_bytes x (before ++ after) front'
        → Evicts max_bytes x front front'

  loop_step :
      (fuel max_bytes total : ℕ) (e x : Entry S) (front : List (Entry S))
      → evict_loop (suc fuel) max_bytes total (e ∷ front ++ x ∷ []) ≡ (
          let used = oldest e.last_used (e ∷ front ++ x ∷ []) in
          let r = take_out used (e ∷ front ++ x ∷ []) in
          if ltb max_bytes total
          then evict_loop fuel max_bytes (total - r.0) r.1
          else e ∷ front ++ x ∷ [])
  unfolding evict_loop
  loop_step fuel max_bytes total e x [] = refl
  loop_step fuel max_bytes total e x (f ∷ front) = refl

  loop_single :
      (fuel max_bytes total : ℕ) (x : Entry S) → evict_loop fuel max_bytes total (x ∷ []) ≡ x ∷ []
  unfolding evict_loop
  loop_single zero max_bytes total x = refl
  loop_single (suc fuel) max_bytes total x = refl

  pub record Evicted (max_bytes : ℕ) (x : Entry S) (front : List (Entry S))
      (result : List (Entry S)) : Type 0 where
    pub front' : List (Entry S)
    pub keeps_newest : result ≡ front' ++ x ∷ []
    pub fits : (front' ≡ []) ⊎ (total_bytes result ≤ max_bytes)
    pub trace : Evicts max_bytes x front front'

  All-stamps :
      (n m : ℕ) (es : List (Entry S))
      → n ≡ m
      → All (λ f. m ≤ f.last_used) es
      → All (λ f. n ≤ f.last_used) es
  All-stamps n m [] p h = tt
  All-stamps n m (e ∷ es) p h = (omega arith, All-stamps n m es p h.1)

  found_stamp :
      (e : Entry S) (front : List (Entry S)) (x : Entry S)
      → stamped (oldest e.last_used (e ∷ front ++ x ∷ [])) (e ∷ front) ≡ true
  found_stamp e front x =
      let r = oldest_lem e.last_used (e ∷ front) x in
      elim r.reached [ inl here ↦ ground arith | inr there ↦ there ]

  total-split :
      (before after : List (Entry S)) (v x : Entry S)
      → total_bytes ((before ++ v ∷ after) ++ x ∷ []) - v.nbytes
        ≡ total_bytes ((before ++ after) ++ x ∷ [])
  unfolding total_bytes
  total-split before after v x = omega (
    arith,
    total_bytes-append (before ++ v ∷ after) (x ∷ []),
    total_bytes-append before (v ∷ after),
    total_bytes-append (before ++ after) (x ∷ []),
    total_bytes-append before after,
  )

  evict_loop-Evicted :
      (fuel max_bytes : ℕ) (front : List (Entry S)) (x : Entry S)
      → length front ≤ fuel
      → Evicted max_bytes x front
          (evict_loop fuel max_bytes (total_bytes (front ++ x ∷ [])) (front ++ x ∷ []))
  evict_loop-Evicted fuel max_bytes [] x few = record {
    front' = [];
    keeps_newest = loop_single fuel max_bytes _ x;
    fits = inl refl;
    trace = stop;
  }
  evict_loop-Evicted zero max_bytes (e ∷ front) x few = absurd (omega arith)
  evict_loop-Evicted (suc fuel) max_bytes (e ∷ front) x few =
      let total = total_bytes (e ∷ front ++ x ∷ []) in
      let used = oldest e.last_used (e ∷ front ++ x ∷ []) in
      let t = take_out_lem used (e ∷ front) x (found_stamp e front x) in
      elim (Bool-cases (ltb max_bytes total)) [
        | inr fits ↦
            rw (loop_step fuel max_bytes total e x front, fits)
              (record {
                front' = e ∷ front;
                keeps_newest = refl;
                fits = inr (ground arith);
                trace = stop;
              })
        | inl over ↦
            let shorter : length (t.before ++ t.after) ≤ fuel = omega (
              arith,
              ap length t.split,
              length-append t.before (t.victim ∷ t.after),
              length-append t.before t.after,
            ) in
            let less : total - t.victim.nbytes ≡ total_bytes ((t.before ++ t.after) ++ x ∷ []) =
              ap (λ (f : List (Entry S)). total_bytes (f ++ x ∷ []) - t.victim.nbytes) t.split
              ∙ total-split t.before t.after t.victim x in
            let r = evict_loop-Evicted fuel max_bytes (t.before ++ t.after) x shorter in
            rw (loop_step fuel max_bytes total e x front, over, t.result, less)
              (record {
                front' = r.front';
                keeps_newest = r.keeps_newest;
                fits = r.fits;
                trace =
                    drop t.before t.victim t.after t.split
                      (All-stamps t.victim.last_used used (e ∷ front) t.stamp
                        (oldest_lem e.last_used (e ∷ front) x).below_all)
                      (ground arith) r.trace;
              })
      ]

  -- `_evict` keeps the newest entry and stops as soon as the rest fits the budget, or when only the
  -- newest is left. Each round takes out the least recently used of the others, and only while the
  -- store is over its budget.
  pub evict-Evicted :
      (max_bytes : ℕ) (front : List (Entry S)) (x : Entry S)
      → Evicted max_bytes x front (evict max_bytes (front ++ x ∷ []))
  unfolding evict
  evict-Evicted max_bytes front x =
      evict_loop-Evicted (length (front ++ x ∷ [])) max_bytes front x
        (omega (arith, length-append front (x ∷ [])))
