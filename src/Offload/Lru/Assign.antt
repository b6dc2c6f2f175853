-- ===== src/Offload/Lru/Assign.antt =====
-- What `assign` does to a valid tracker that does not hold the expert.
use maxtoken.Prelude.{
  ℕ, ◌+◌, ◌<◌, ◌≡◌, ◌≢◌, find-has, length, length-append, ◌≤◌, refl, List, [], ◌∷◌, ◌++◌, some,
  false, arith, ◌==◌, to_bit, keys, find, has, put_new, count, count-append, keys-append, has-count,
}
use maxtoken.Offload.Lru.{LruTracker, evict, assign_from, assign}
use maxtoken.Offload.Lru.Valid.{IsValid, slots, slots-append}

-- The entries that stay: all of them while a slot is free, else all but the least recently used.
abbrev pub stays : List ℕ → List (ℕ × ℕ) → List (ℕ × ℕ)
stays (slot ∷ rest) d = d
stays [] [] = []
stays [] ((e, s) ∷ d) = d

pub length-stays-le : (free : List ℕ) (d : List (ℕ × ℕ)) → length (stays free d) ≤ length d
length-stays-le (slot ∷ rest) d = omega arith
length-stays-le [] [] = omega arith
length-stays-le [] ((e, s) ∷ d) = omega arith

-- What `assign` returns: the tracker and the slot, for an expert that is not there.
pub record Assigned (t : LruTracker) (expert : ℕ) (t' : LruTracker) (slot : ℕ) : Type 0 where
  pub returned : assign t expert ≡ some (t', slot)
  pub valid : IsValid t'
  pub in_range : slot < t.num_slots
  pub num_slots : t'.num_slots ≡ t.num_slots
  pub entries : t'.slot_of ≡ stays t.free t.slot_of ++ (expert, slot) ∷ []
  pub kept : (k s : ℕ) → find k (stays t.free t.slot_of) ≡ some s → find k t.slot_of ≡ some s
  pub given_up :
      (k s : ℕ) → find k t.slot_of ≡ some s → s ≢ slot → find k (stays t.free t.slot_of) ≡ some s

count-keys-snoc :
    (k e s : ℕ) (d : List (ℕ × ℕ))
    → count k (keys (d ++ (e, s) ∷ [])) ≡ count k (keys d) + to_bit (e == k)
count-keys-snoc k e s d = rw (keys-append d ((e, s) ∷ []), count-append k) (ground arith)

count-slots-snoc :
    (k e s : ℕ) (d : List (ℕ × ℕ))
    → count k (slots (d ++ (e, s) ∷ [])) ≡ count k (slots d) + to_bit (s == k)
count-slots-snoc k e s d = rw (slots-append d ((e, s) ∷ []), count-append k) (ground arith)

absent-count : (e : ℕ) (d : List (ℕ × ℕ)) → has e d ≡ false → count e (keys d) ≡ 0
absent-count e d h = ground (arith, has-count e d)

assign_free :
    (n expert slot : ℕ) (rest : List ℕ) (d : List (ℕ × ℕ))
    → IsValid (record { num_slots = n; slot_of = d; free = slot ∷ rest })
    → has expert d ≡ false
    → Assigned
        (record { num_slots = n; slot_of = d; free = slot ∷ rest })
        expert
        (record { num_slots = n; slot_of = d ++ (expert, slot) ∷ []; free = rest })
        slot
unfolding assign assign_from
assign_free n expert slot rest d v h = record {
  returned = rw (put_new expert slot d h);
  valid = record {
    distinct =
        λ k. ground (arith, count-keys-snoc k expert slot d, v.distinct k, absent-count expert d h);
    slots_once = λ k. ground (arith, count-slots-snoc k expert slot d, v.slots_once k);
    total = omega (arith, length-append d ((expert, slot) ∷ []), v.total);
  };
  in_range = ground (arith, v.slots_once slot);
  num_slots = refl;
  entries = refl;
  kept = λ k s p. p;
  given_up = λ k s p q. p;
}

assign_full :
    (n expert old slot : ℕ) (d : List (ℕ × ℕ))
    → IsValid (record { num_slots = n; slot_of = (old, slot) ∷ d; free = [] })
    → has expert ((old, slot) ∷ d) ≡ false
    → Assigned
        (record { num_slots = n; slot_of = (old, slot) ∷ d; free = [] })
        expert
        (record { num_slots = n; slot_of = d ++ (expert, slot) ∷ []; free = [] })
        slot
unfolding assign assign_from evict
assign_full n expert old slot d v h =
    let absent : has expert d ≡ false = ground arith in
    record {
      returned = rw (put_new expert slot d absent);
      valid = record {
        distinct = λ k.
            ground
              (arith, count-keys-snoc k expert slot d, v.distinct k, absent-count expert d absent);
        slots_once = λ k. ground (arith, count-slots-snoc k expert slot d, v.slots_once k);
        total = omega (arith, length-append d ((expert, slot) ∷ []), v.total);
      };
      in_range = ground (arith, v.slots_once slot);
      num_slots = refl;
      entries = refl;
      kept = λ k s p. ground (arith, find-has k d s p, has-count k d, v.distinct k);
      given_up = λ k s p q. ground arith;
    }

no_slots : (n : ℕ) → IsValid (record { num_slots = n; slot_of = []; free = [] }) → n ≡ 0
no_slots n v = ground (arith, v.slots_once 0)

assign_any :
    (n expert : ℕ) (free : List ℕ) (d : List (ℕ × ℕ))
    → IsValid (record { num_slots = n; slot_of = d; free = free })
    → has expert d ≡ false
    → 0 < n
    → (t' : LruTracker) × (slot : ℕ) × Assigned
        (record { num_slots = n; slot_of = d; free = free })
        expert
        t'
        slot
assign_any n expert (slot ∷ rest) d v h p = (_, slot, assign_free n expert slot rest d v h)
assign_any n expert [] [] v h p = absurd (omega (arith, no_slots n v))
assign_any n expert [] ((old, slot) ∷ d) v h p = (_, slot, assign_full n expert old slot d v h)

-- A valid tracker with at least one slot always finds a slot for a new expert. The slot is in
-- range, the expert becomes the most recently used entry, and at most the least recently used
-- entry is given up, and only when no slot is free.
pub assign_lem :
    (t : LruTracker) (expert : ℕ)
    → IsValid t
    → has expert t.slot_of ≡ false
    → 0 < t.num_slots
    → (t' : LruTracker) × (slot : ℕ) × Assigned t expert t' slot
assign_lem t expert v h p = assign_any t.num_slots expert t.free t.slot_of v h p
