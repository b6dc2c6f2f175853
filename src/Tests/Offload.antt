-- ===== src/Tests/Offload.antt =====
-- A cache of two slots over weights that are the experts' numbers times ten.
use maxtoken.Prelude.{
  drop, false, ◌≤◌, count, Bool-cases, inl, inr, contains-count, Pairwise, ℕ, ◌*◌, ◌≡◌, refl, List,
  [], ◌∷◌, none, some, true, ◌==◌, if◌then◌else◌, arith, contains, has, keys,
}
use maxtoken.Offload.State.{Glu, Pending, commit_token}
use maxtoken.Offload.State.Commit.{IsServed, all_ok, commit_token-IsServed}
use maxtoken.Offload.State.Budget.{total_slots, resize_total, AllCoherent, resize_total-AllCoherent}
use maxtoken.Offload.Lru.{LruTracker, reset}
use maxtoken.Offload.SlotCache.{SlotCache, create, resize}
use maxtoken.Offload.SlotCache.Coherent.{Coherent, create-Coherent}
use maxtoken.Offload.SlotCache.Resident.{Acquired, acquire_lem}
use maxtoken.Offload.SlotCache.Resize.{resize_lem}

abbrev weights : ℕ → ℕ
weights e = 10 * e

abbrev cold : SlotCache ℕ
cold = create 0 2

abbrev warm : LruTracker
warm = record { num_slots = 2; slot_of = (4, 1) ∷ (7, 0) ∷ []; free = [] }

acquire_lem_example :
    (c : SlotCache ℕ) × (found : List (ℕ × ℕ)) × Acquired weights cold (3 ∷ 5 ∷ []) c found
unfolding create reset
acquire_lem_example =
    acquire_lem weights cold (3 ∷ 5 ∷ []) (create-Coherent weights 0 2) (λ k. ground arith)
      (omega arith)

-- Expert 3 in slot 0, the other slot free.
abbrev one_expert : SlotCache ℕ
one_expert = record {
  lru = record { num_slots = 2; slot_of = (3, 0) ∷ []; free = 1 ∷ [] };
  buffers = λ s. if s == 0 then 30 else 0;
  lut = λ e. 0;
  owner = λ s. if s == 0 then some 3 else none;
  hits = 0;
  misses = 1;
  inflight = [];
  last_miss = [];
  token_tick = 0;
}

one_expert-Coherent : Coherent weights one_expert
one_expert-Coherent = record {
  valid = record {
    distinct = λ k. ground arith;
    slots_once = λ s. ground arith;
    total = omega arith;
  };
  resident = λ e s h. ground arith;
  owned = λ s e p h. ground arith;
}

resize_lem_example :
    (c' : SlotCache ℕ) × (resize 0 one_expert 1 ≡ some c')
    × Coherent weights c'
    × (c'.lru.num_slots ≡ 1)
    × ((e : ℕ)
        → contains e (keys (drop 0 one_expert.lru.slot_of)) ≡ true
        → has e c'.lru.slot_of ≡ true)
resize_lem_example = resize_lem weights 0 one_expert 1 one_expert-Coherent

-- `numpy.unique` without its order.
abbrev distinct : List ℕ → List ℕ
distinct [] = []
distinct (x ∷ xs) = let rest = distinct xs in if contains x rest then rest else x ∷ rest

distinct-count : (xs : List ℕ) (k : ℕ) → count k (distinct xs) ≤ 1
distinct-count [] k = omega arith
distinct-count (x ∷ xs) k = elim (Bool-cases (contains x (distinct xs))) [
  | inl y ↦ rw y (distinct-count xs k)
  | inr n ↦ rw n (
      ground (
        arith,
        distinct-count xs k,
        contains-count k (distinct xs),
        contains-count x (distinct xs),
      ))
]

distinct-contains : (xs : List ℕ) (k : ℕ) → contains k (distinct xs) ≡ contains k xs
distinct-contains [] k = refl
distinct-contains (x ∷ xs) k = elim (Bool-cases (contains x (distinct xs))) [
  | inl y ↦ rw y (ground (arith, distinct-contains xs k))
  | inr n ↦ rw n (ground (arith, distinct-contains xs k))
]

-- Two layers, of which the second misses expert 8.
abbrev layer : Glu ℕ
layer = record { cache = one_expert; last_routed = none }

abbrev left : List (Pending ℕ)
left =
    record { glu = layer; indices = 3 ∷ 3 ∷ []; ok = true }
    ∷ record { glu = layer; indices = 8 ∷ 3 ∷ []; ok = false }
    ∷ []

commit_token-IsServed_example :
    (glus : List (Glu ℕ)) × (commit_token weights distinct left ≡ some (glus, all_ok left))
    × Pairwise (IsServed weights distinct distinct-count distinct-contains) left glus
commit_token-IsServed_example =
    commit_token-IsServed weights distinct distinct-count distinct-contains left (
      record {
        coherent = one_expert-Coherent;
        flag = refl;
        in_range = λ e m. omega arith;
        room = omega arith;
      },
      (
        record {
          coherent = one_expert-Coherent;
          flag = refl;
          in_range = λ e m. omega arith;
          room = omega arith;
        },
        tt,
      ),
    )

resize_total-AllCoherent_example :
    (resized : List (Glu ℕ)) × (resize_total 0 3 (layer ∷ layer ∷ [])
      ≡ some (resized, total_slots resized))
    × AllCoherent weights 0 resized
    × (total_slots resized ≤ 3)
resize_total-AllCoherent_example =
    resize_total-AllCoherent weights 0 3 (layer ∷ layer ∷ [])
      (one_expert-Coherent, (one_expert-Coherent, tt))
