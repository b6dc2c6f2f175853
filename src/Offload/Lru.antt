-- ===== src/Offload/Lru.antt =====
-- `LruTracker` of python/maxtoken/mlx_backend/offload.py: which expert lives in which slot.
-- `slot_of` holds the entries of the OrderedDict, least recently used first. `free` is the Python
-- list read from its end, so that `pop` takes the head.
pub mod Valid
pub mod Assign
pub mod Recency
pub mod Lookup
use mathlib.Core.List.{reverse}
use maxtoken.Prelude.{
  ℕ, List, [], ◌∷◌, ◌++◌, Option, none, some, find, remove, put, take, range_from,
}

pub record LruTracker : Type 0 where
  pub num_slots : ℕ
  pub slot_of : List (ℕ × ℕ)
  pub free : List ℕ

-- `reset`, and the constructor: every slot is free, slot 0 is handed out first.
unfoldable pub reset : ℕ → LruTracker
reset n = record { num_slots = n; slot_of = []; free = range_from 0 n }

-- `OrderedDict.move_to_end` of a key that is there with the value `s`.
unfoldable pub move_to_end : ℕ → ℕ → List (ℕ × ℕ) → List (ℕ × ℕ)
move_to_end e s d = remove e d ++ (e, s) ∷ []

-- The loop of `lookup`, over the tracker, the hits and the misses so far.
unfoldable pub lookup_from :
    LruTracker → List (ℕ × ℕ) → List ℕ → List ℕ → LruTracker × List (ℕ × ℕ) × List ℕ
lookup_from t hits misses [] = (t, hits, misses)
lookup_from t hits misses (e ∷ es) = elim (find e t.slot_of) [
  | none ↦ lookup_from t hits (misses ++ e ∷ []) es
  | some s ↦ lookup_from (record t { slot_of = move_to_end e s t.slot_of }) (put e s hits) misses es
]

abbrev pub lookup : LruTracker → List ℕ → LruTracker × List (ℕ × ℕ) × List ℕ
lookup t experts = lookup_from t [] [] experts

-- `popitem(last=False)` on an empty dictionary raises, which is `none`.
unfoldable pub evict : LruTracker → ℕ → List (ℕ × ℕ) → Option (LruTracker × ℕ)
evict t expert [] = none
evict t expert ((evicted, slot) ∷ others) =
    some (record t { slot_of = put expert slot others }, slot)

unfoldable pub assign_from : LruTracker → ℕ → List ℕ → Option (LruTracker × ℕ)
unfolding evict
assign_from t expert [] = evict t expert t.slot_of
assign_from t expert (slot ∷ rest) =
    some (record t { free = rest; slot_of = put expert slot t.slot_of }, slot)

unfoldable pub assign : LruTracker → ℕ → Option (LruTracker × ℕ)
unfolding assign_from
assign t expert = assign_from t expert t.free

unfoldable pub most_recent : LruTracker → ℕ → List (ℕ × ℕ)
most_recent t n = take n (reverse t.slot_of)
