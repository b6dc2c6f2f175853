-- ===== src/PrefixDisk/Room.antt =====
-- `_make_room`: what it evicts, and when it gives up.
use maxtoken.Prelude.{
  ℕ, zero, suc, ◌+◌, ◌≤◌, ◌<◌, ◌≡◌, ◌∙◌, refl, ap, ◌⊎◌, List, [], ◌∷◌, length, none, some, Bool,
  true, false, ltb, leb, ◌==◌, if◌then◌else◌, arith, find, has, contains, remove, find-remove,
  has-count, count, keys, Distinct, count-keys-remove, inl, inr, Bool-cases, Option-cases, find-has,
  ltb→lt, All,
}
use maxtoken.PrefixDisk.Store.{
  Block, Store, total_bytes, drop_block, before, may_go, victim, room_loop, make_room,
  max_pending_bytes,
}

-- An entry is one of the store's, may go, and comes first in the order of eviction among those that may.
record Victim (keep : List ℕ) (bs : List (ℕ × Block)) (p : ℕ × Block) : Type 0 where
  pub there : find p.0 bs ≡ some p.1
  pub free : may_go keep p ≡ true
  pub first : All (λ q. may_go keep q ≡ true → before p q ≡ true) bs

-- A block that is not protected, and neither of whose files is being written.
abbrev pub IsFree : List ℕ → ℕ × Block → Type 0
IsFree keep (h, b) = (contains h keep ≡ false) × (b.kv_pending ≡ false) × (b.rec_pending ≡ false)

-- A block that is protected, or one of whose files is being written.
abbrev pub IsHeld : List ℕ → ℕ × Block → Type 0
IsHeld keep (h, b) = (contains h keep ≡ true) ⊎ ((b.kv_pending ≡ true) ⊎ (b.rec_pending ≡ true))

-- Used longer ago; of those used at the same time, the deeper one; then the smaller hash.
abbrev pub Older : ℕ × Block → ℕ × Block → Type 0
Older (h, b) (h', b') =
    (b.used < b'.used)
    ⊎ ((b.used ≡ b'.used) × ((b'.index < b.index) ⊎ ((b.index ≡ b'.index) × (h ≤ h'))))

-- A block of the store that is free, and the oldest of the free ones.
pub record Oldest (keep : List ℕ) (bs : List (ℕ × Block)) (p : ℕ × Block) : Type 0 where
  pub there : find p.0 bs ≡ some p.1
  pub free : IsFree keep p
  pub first : All (λ q. IsFree keep q → Older p q) bs

may_go-IsFree : (keep : List ℕ) (p : ℕ × Block) → may_go keep p ≡ true → IsFree keep p
may_go-IsFree keep (h, b) e = (ground arith, ground arith, ground arith)

IsFree-may_go : (keep : List ℕ) (p : ℕ × Block) → IsFree keep p → may_go keep p ≡ true
IsFree-may_go keep (h, b) (x, y, z) = rw (x, y, z) refl

may_go-IsHeld : (keep : List ℕ) (p : ℕ × Block) → may_go keep p ≡ false → IsHeld keep p
may_go-IsHeld keep (h, b) e = elim (Bool-cases (contains h keep)) [
  | inl x ↦ inl x
  | inr x ↦ elim (Bool-cases b.kv_pending) [
    | inl y ↦ inr (inl y)
    | inr y ↦ inr (inr (ground arith))
  ]
]

IsHeld-may_go : (keep : List ℕ) (p : ℕ × Block) → IsHeld keep p → may_go keep p ≡ false
IsHeld-may_go keep (h, b) (inl x) = ground arith
IsHeld-may_go keep (h, b) (inr (inl y)) = ground arith
IsHeld-may_go keep (h, b) (inr (inr z)) = ground arith

before-Older : (p q : ℕ × Block) → before p q ≡ true → Older p q
unfolding before
before-Older (h, b) (h', b') e = ground arith

All-IsHeld :
    (keep : List ℕ) (bs : List (ℕ × Block))
    → All (λ q. may_go keep q ≡ false) bs
    → All (IsHeld keep) bs
All-IsHeld keep [] all = tt
All-IsHeld keep (q ∷ bs) all = (may_go-IsHeld keep q all.0, All-IsHeld keep bs all.1)

All-Older :
    (keep : List ℕ) (p : ℕ × Block) (bs : List (ℕ × Block))
    → All (λ q. may_go keep q ≡ true → before p q ≡ true) bs
    → All (λ q. IsFree keep q → Older p q) bs
All-Older keep p [] all = tt
All-Older keep p (q ∷ bs) all =
    ((λ g. before-Older p q (all.0 (IsFree-may_go keep q g))), All-Older keep p bs all.1)

Victim-Oldest :
    (keep : List ℕ) (bs : List (ℕ × Block)) (p : ℕ × Block) → Victim keep bs p → Oldest keep bs p
Victim-Oldest keep bs p v = record {
  there = v.there;
  free = may_go-IsFree keep p v.free;
  first = All-Older keep p bs v.first;
}

before_refl : (p : ℕ × Block) → before p p ≡ true
unfolding before
before_refl (h, b) = ground arith

before_trans : (p q r : ℕ × Block) → before p q ≡ true → before q r ≡ true → before p r ≡ true
unfolding before
before_trans (h, b) (h', b') (h'', b'') x y = ground arith

before_total : (p q : ℕ × Block) → before p q ≡ false → before q p ≡ true
unfolding before
before_total (h, b) (h', b') x = ground arith

before-All :
    (keep : List ℕ) (p q : ℕ × Block) (bs : List (ℕ × Block))
    → before p q ≡ true
    → All (λ r. may_go keep r ≡ true → before q r ≡ true) bs
    → All (λ r. may_go keep r ≡ true → before p r ≡ true) bs
before-All keep p q [] h k = tt
before-All keep p q (r ∷ bs) h k =
    ((λ g. before_trans p q r h (k.0 g)), before-All keep p q bs h k.1)

none-may_go :
    (keep : List ℕ) (bs : List (ℕ × Block))
    → victim keep bs ≡ none
    → All (λ q. may_go keep q ≡ false) bs
unfolding victim
none-may_go keep [] h = tt
none-may_go keep (p ∷ bs) h = elim (Bool-cases (may_go keep p)) [
  | inl g ↦ elim (Option-cases (victim keep bs)) [
    | inl n ↦ absurd (ground arith)
    | inr (q, e) ↦ absurd (ground arith)
  ]
  | inr g ↦ (g, none-may_go keep bs (ground arith))
]

All-false_to :
    (keep : List ℕ) (p : ℕ × Block) (bs : List (ℕ × Block))
    → All (λ q. may_go keep q ≡ false) bs
    → All (λ q. may_go keep q ≡ true → before p q ≡ true) bs
All-false_to keep p [] h = tt
All-false_to keep p (q ∷ bs) h = ((λ g. absurd (let f = h.0 in cc)), All-false_to keep p bs h.1)

victim-Victim :
    (keep : List ℕ) (bs : List (ℕ × Block)) (p : ℕ × Block)
    → Distinct bs
    → victim keep bs ≡ some p
    → Victim keep bs p
unfolding victim
victim-Victim keep [] p d h = absurd (ground arith)
victim-Victim keep ((j, c) ∷ bs) p d h = elim (Bool-cases (may_go keep (j, c))) [
  | inr stays ↦
      let r = victim-Victim keep bs p (λ k. omega (arith, d k)) (ground arith) in
      record { there = other p r; free = r.free; first = ((λ g. absurd (ground arith)), r.first) }
  | inl goes ↦ elim (Option-cases (victim keep bs)) [
    | inl n ↦
        let e : (j, c) ≡ p = ground arith in
        rw (← e) (record {
          there = ground arith;
          free = goes;
          first = ((λ g. before_refl (j, c)), All-false_to keep (j, c) bs (none-may_go keep bs n));
        })
    | inr (q, y) ↦
        let r = victim-Victim keep bs q (λ k. omega (arith, d k)) y in
        elim (Bool-cases (before (j, c) q)) [
          | inl b ↦
              let e : (j, c) ≡ p = ground arith in
              rw (← e) (record {
                there = ground arith;
                free = goes;
                first = ((λ g. before_refl (j, c)), before-All keep (j, c) q bs b r.first);
              })
          | inr b ↦
              let e : q ≡ p = ground arith in
              rw (← e) (record {
                there = other q r;
                free = r.free;
                first = ((λ g. before_total (j, c) q b), r.first);
              })
        ]
  ]
]
  where
    other : (q : ℕ × Block) → Victim keep bs q → find q.0 ((j, c) ∷ bs) ≡ some q.1
    other q r = ground (arith, r.there, find-has q.0 bs q.1 r.there, has-count q.0 bs, d q.0)

-- Rounds that each find the store over its budget and drop the oldest of the free blocks.
pub data Drops (nbytes : ℕ) (keep : List ℕ) : Store → Store → Type 0 where
  stop : {s : Store} → Drops nbytes keep s s
  next :
      {s s' : Store} (p : ℕ × Block)
      → s.max_bytes < total_bytes s.blocks + s.pending_bytes + nbytes
      → Oldest keep s.blocks p
      → Drops nbytes keep (drop_block s p.0) s'
      → Drops nbytes keep s s'

-- What a call of `_make_room` may do.
pub record Roomy (nbytes : ℕ) (keep : List ℕ) (s s' : Store) (fits : Bool) : Type 0 where
  pub trace : Drops nbytes keep s s'
  pub within : fits ≡ true → total_bytes s'.blocks + s'.pending_bytes + nbytes ≤ s'.max_bytes
  pub stuck :
      fits ≡ false
      → (max_pending_bytes < s.pending_bytes + nbytes)
        ⊎ (All (IsHeld keep) s'.blocks
            × (s'.max_bytes < total_bytes s'.blocks + s'.pending_bytes + nbytes))
  pub kept :
      (h : ℕ) (b : Block)
      → find h s.blocks ≡ some b
      → IsHeld keep (h, b)
      → find h s'.blocks ≡ some b
  pub only : (h : ℕ) (b : Block) → find h s'.blocks ≡ some b → find h s.blocks ≡ some b
  pub distinct : Distinct s'.blocks
  pub same_pending : s'.pending_bytes ≡ s.pending_bytes
  pub same_budget : s'.max_bytes ≡ s.max_bytes

drop_present :
    (s : Store) (h : ℕ) (b : Block)
    → find h s.blocks ≡ some b
    → drop_block s h ≡ record s {
      blocks = remove h s.blocks;
      kv_files = remove h s.kv_files;
      rec_files = remove h s.rec_files;
    }
unfolding drop_block
drop_present s h b p = rw (p, drop_block)

length-remove : (h : ℕ) (bs : List (ℕ × Block)) → length (remove h bs) ≤ length bs
unfolding remove
length-remove h [] = omega arith
length-remove h ((j, c) ∷ bs) = ground (arith, length-remove h bs)

length-remove_there :
    (h : ℕ) (bs : List (ℕ × Block)) → has h bs ≡ true → length (remove h bs) < length bs
unfolding remove
length-remove_there h [] p = absurd (cc)
length-remove_there h ((j, c) ∷ bs) p = ground (arith, length-remove h bs, length-remove_there h bs)

room_loop-Roomy :
    (fuel : ℕ) (s : Store) (nbytes : ℕ) (keep : List ℕ)
    → length s.blocks < fuel
    → Distinct s.blocks
    → Roomy nbytes keep s (room_loop fuel s nbytes keep).0 (room_loop fuel s nbytes keep).1
unfolding room_loop
room_loop-Roomy zero s nbytes keep f d = absurd (omega arith)
room_loop-Roomy (suc fuel) s nbytes keep f d =
    elim (Bool-cases (leb (total_bytes s.blocks + s.pending_bytes + nbytes) s.max_bytes)) [
      | inl fits ↦ rw fits (record {
        trace = stop;
        within = λ _. ground arith;
        stuck = λ n. absurd (cc);
        kept = λ h b p q. p;
        only = λ h b p. p;
        distinct = d;
        same_pending = refl;
        same_budget = refl;
      })
      | inr over ↦ elim (Option-cases (victim keep s.blocks)) [
        | inl n ↦
            rw (over, n, room_loop)
              (record {
                trace = stop;
                within = λ y. absurd (cc);
                stuck =
                    λ _. inr (All-IsHeld keep s.blocks (none-may_go keep s.blocks n), ground arith);
                kept = λ h b p q. p;
                only = λ h b p. p;
                distinct = d;
                same_pending = refl;
                same_budget = refl;
              })
        | inr (p, e) ↦
            let v = victim-Victim keep s.blocks p d e in
            let t : Store = drop_block s p.0 in
            let same = drop_present s p.0 p.1 v.there in
            let fewer : t.blocks ≡ remove p.0 s.blocks = ap (λ (u : Store). u.blocks) same in
            let gone : (k : ℕ) → find k t.blocks ≡ (if p.0 == k then none else find k s.blocks) =
              λ k. ap (find k) fewer ∙ find-remove p.0 k s.blocks in
            let d' : Distinct t.blocks = λ k. ground (
              arith,
              ap (λ (x : List (ℕ × Block)). count k (keys x)) fewer,
              count-keys-remove p.0 k s.blocks,
              d k,
            ) in
            let short : length t.blocks < fuel = omega (
              arith,
              ap length fewer,
              length-remove_there p.0 s.blocks (find-has p.0 s.blocks p.1 v.there),
            ) in
            let r = room_loop-Roomy fuel t nbytes keep short d' in
            let pend : t.pending_bytes ≡ s.pending_bytes =
              ap (λ (u : Store). u.pending_bytes) same in
            let budget : t.max_bytes ≡ s.max_bytes = ap (λ (u : Store). u.max_bytes) same in
            rw (over, e, room_loop)
              (record {
                trace = next p (ground arith) (Victim-Oldest keep s.blocks p v) r.trace;
                within = r.within;
                stuck = λ n. elim (r.stuck n) [ inl a ↦ inl (omega arith) | inr a ↦ inr a ];
                kept = λ h b q g.
                    let g' = IsHeld-may_go keep (h, b) g in
                    r.kept h b (ground (arith, gone h, v.free, v.there, g')) g;
                only = λ h b q. ground (arith, r.only h b q, gone h);
                distinct = r.distinct;
                same_pending = r.same_pending ∙ pend;
                same_budget = r.same_budget ∙ budget;
              })
      ]
    ]

-- `_make_room` answers yes only with the bytes inside the budget. It drops blocks one at a time, only
-- while they do not fit, and always the first in the order of age and depth among those that are
-- neither protected nor being written; all others stay as they are. It answers no only if the
-- writer's backlog is full, or if no block is left that may go.
pub make_room-Roomy :
    (s : Store) (nbytes : ℕ) (keep : List ℕ)
    → Distinct s.blocks
    → Roomy nbytes keep s (make_room s nbytes keep).0 (make_room s nbytes keep).1
unfolding make_room
make_room-Roomy s nbytes keep d =
    elim (Bool-cases (ltb max_pending_bytes (s.pending_bytes + nbytes))) [
      | inl full ↦ rw full (record {
        trace = stop;
        within = λ y. absurd (cc);
        stuck = λ _. inl (ltb→lt _ _ full);
        kept = λ h b p q. p;
        only = λ h b p. p;
        distinct = d;
        same_pending = refl;
        same_budget = refl;
      })
      | inr space ↦ rw space (room_loop-Roomy (length s.blocks + 1) s nbytes keep (omega arith) d)
    ]
