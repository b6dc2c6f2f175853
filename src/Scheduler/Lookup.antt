-- ===== src/Scheduler/Lookup.antt =====
-- `_lookup_prefix` of python/maxtoken/mlx_backend/worker.py: which tier a prompt's cached prefix comes from.
use maxtoken.Prelude.{
  ℕ, ◌*◌, ◌%◌, max, List, [], ◌∷◌, Option, none, some, ltb, ◌==◌, if◌then◌else◌, ◌≡◌, refl, arith,
  inl, inr, Bool-cases, take, length,
}

-- The disk tier at this prompt: the size of its blocks, the blocks of its match, and what restoring them gives.
pub record DiskTier (C : Type 0) : Type 0 where
  pub block : ℕ
  pub found : Option ℕ
  pub restored : Option C

-- What the lookup tells the stores: the prompt's tokens up to a position, with the cache there.
pub data Note (C : Type 0) : Type 0 where
  insert_restored : List ℕ → C → Note C
  observe_restore_point : List ℕ → C → ℕ → Note C

-- The cache if there is one, the number of cached tokens and what the stores are told.
pub data Found (C : Type 0) : Type 0 where
  found : Option C → ℕ → List (Note C) → Found C

module _ {C : Type 0} where
  abbrev pub reach : ℕ → Option ℕ → Option C → ℕ
  reach block none restored = 0
  reach block (some blocks) none = 0
  reach block (some blocks) (some cache) = blocks * block

  -- The match in memory, restored at its length. `none` for the disk is serving without one.
  unfoldable pub from_memory : Option (DiskTier C) → Option (C × ℕ) → List ℕ → Found C
  from_memory disk none input_ids = found none 0 []
  from_memory none (some (cache, n)) input_ids = found (some cache) n []
  from_memory (some tier) (some (cache, n)) input_ids = found (some cache) n (
      if n % tier.block == 0
      then observe_restore_point (take n input_ids) cache (length input_ids) ∷ []
      else [])

  abbrev pub hit_length : Option (C × ℕ) → ℕ
  hit_length none = 0
  hit_length (some (cache, n)) = n

  -- `_lookup_prefix` with a store in memory; `hit` is its match with the cache that it would restore.
  unfoldable pub lookup_prefix : Option (DiskTier C) → Option (C × ℕ) → List ℕ → Found C
  unfolding from_memory
  lookup_prefix none hit input_ids = from_memory none hit input_ids
  lookup_prefix (some tier) hit input_ids = elim tier.found [
    | none ↦ from_memory (some tier) hit input_ids
    | some blocks ↦
        if ltb (hit_length hit) (blocks * tier.block)
        then elim tier.restored [
          | none ↦ from_memory (some tier) hit input_ids
          | some cache ↦
              let n = blocks * tier.block in
              found (some cache) n (insert_restored (take n input_ids) cache ∷ [])
        ]
        else from_memory (some tier) hit input_ids
  ]

  abbrev pub cached_tokens : Found C → ℕ
  cached_tokens (found cache n notes) = n

  -- How deep the disk tier reaches, if it can be restored there.
  abbrev pub disk_depth : DiskTier C → ℕ
  disk_depth tier = reach tier.block tier.found tier.restored

  from_memory_length :
      (disk : Option (DiskTier C)) (hit : Option (C × ℕ)) (input_ids : List ℕ)
      → cached_tokens (from_memory disk hit input_ids) ≡ hit_length hit
  unfolding from_memory
  from_memory_length disk none input_ids = refl
  from_memory_length none (some (cache, n)) input_ids = refl
  from_memory_length (some tier) (some (cache, n)) input_ids = refl

  -- The lookup goes as deep as the deeper tier.
  pub lookup_prefix_depth :
      (block : ℕ) (blocks : Option ℕ) (restored : Option C) (hit : Option (C × ℕ))
      (input_ids : List ℕ)
      → let tier : DiskTier C = record { block = block; found = blocks; restored = restored } in
        cached_tokens (lookup_prefix (some tier) hit input_ids)
        ≡ max (hit_length hit) (disk_depth tier)
  unfolding lookup_prefix
  lookup_prefix_depth block none restored hit input_ids =
      let tier : DiskTier C = record { block = block; found = none; restored = restored } in
      omega (arith, from_memory_length (some tier) hit input_ids)
  lookup_prefix_depth block (some blocks) none hit input_ids =
      let tier : DiskTier C = record { block = block; found = some blocks; restored = none } in
      elim (Bool-cases (ltb (hit_length hit) (blocks * block))) [
        | inl e ↦ rw e (omega (arith, from_memory_length (some tier) hit input_ids))
        | inr e ↦ rw e (omega (arith, from_memory_length (some tier) hit input_ids))
      ]
  lookup_prefix_depth block (some blocks) (some cache) hit input_ids =
      let tier : DiskTier C = record {
        block = block;
        found = some blocks;
        restored = some cache;
      } in
      elim (Bool-cases (ltb (hit_length hit) (blocks * block))) [
        | inl e ↦ rw e (ground arith)
        | inr e ↦ rw e (ground (arith, from_memory_length (some tier) hit input_ids))
      ]
