-- ===== src/PrefixDisk/Chain.antt =====
-- `chain_hashes` and `restore_blocks`. `digest` stands for SHA-256 of the previous digest (0 before
-- the first block) and a block's tokens, `name` for the 32 hexadecimal digits that name a block.
use native.Mathlib.Nat.{zero-add}
use maxtoken.Prelude.{
  ℕ, zero, suc, ◌+◌, ◌-◌, ◌*◌, ◌/◌, ◌≤◌, ◌<◌, ◌≡◌, ◌∙◌, refl, sym, ap, List, [], ◌∷◌, length, take,
  drop, slice, arith,
}

module _ (digest : ℕ → List ℕ → ℕ) (name : ℕ → ℕ) where
  -- The loop over blocks `i` up to `i + n`, from the digest `h` of the blocks before.
  unfoldable pub chain_from : ℕ → ℕ → ℕ → ℕ → List ℕ → List ℕ
  chain_from block h i zero toks = []
  chain_from block h i (suc n) toks =
      let h' = digest h (slice (i * block) ((i + 1) * block) toks) in
      name h' ∷ chain_from block h' (i + 1) n toks

  unfoldable pub chain_hashes : List ℕ → ℕ → ℕ → List ℕ
  unfolding chain_from
  chain_hashes tokens block n_blocks = chain_from block 0 0 n_blocks tokens

-- `(prompt_len - 1) // block`, and 0 for the empty prompt
unfoldable pub restore_blocks : ℕ → ℕ → ℕ
restore_blocks prompt_len block = (prompt_len - 1) / block

-- The blocks that a prompt can resume at are those that end before its last token: the prompt's blocks
-- up to `restore_blocks` leave a token to process, and one more block would not.
pub restore_blocks_lem :
    (prompt_len block : ℕ)
    → 0 < block
    → 0 < prompt_len
    → (restore_blocks prompt_len block * block < prompt_len)
      × (prompt_len ≤ (restore_blocks prompt_len block + 1) * block)
unfolding restore_blocks
restore_blocks_lem prompt_len block hb hp = (grind arith, grind arith)

module _ (digest : ℕ → List ℕ → ℕ) (name : ℕ → ℕ) where
  pub length-chain_from :
      (block h i n : ℕ) (toks : List ℕ) → length (chain_from digest name block h i n toks) ≡ n
  unfolding chain_from
  length-chain_from block h i zero toks = refl
  length-chain_from block h i (suc n) toks =
      ap suc (
        length-chain_from block (digest h (slice (i * block) ((i + 1) * block) toks)) (i + 1) n
          toks)

  pub length-chain_hashes :
      (toks : List ℕ) (block n : ℕ) → length (chain_hashes digest name toks block n) ≡ n
  unfolding chain_hashes
  length-chain_hashes toks block n = length-chain_from block 0 0 n toks

  take-chain_from :
      (block h i m n : ℕ) (toks : List ℕ)
      → m ≤ n
      → take m (chain_from digest name block h i n toks) ≡ chain_from digest name block h i m toks
  unfolding chain_from
  take-chain_from block h i zero n toks p = refl
  take-chain_from block h i (suc m) zero toks p = absurd (omega arith)
  take-chain_from block h i (suc m) (suc n) toks p =
      let h' = digest h (slice (i * block) ((i + 1) * block) toks) in
      ap (◌∷◌ (name h')) (take-chain_from block h' (i + 1) m n toks (omega arith))

  slice_prefix :
      (lo hi n : ℕ) (xs ys : List ℕ)
      → hi ≤ n
      → take n xs ≡ take n ys
      → slice lo hi xs ≡ slice lo hi ys
  slice_prefix lo hi n xs ys p q =
      slice_take lo hi n xs p ∙ ap (slice lo hi) q ∙ sym (slice_take lo hi n ys p)
    where
      take_take : (m n : ℕ) (xs : List ℕ) → m ≤ n → take m xs ≡ take m (take n xs)
      take_take zero n xs p = refl
      take_take (suc m) zero xs p = absurd (omega arith)
      take_take (suc m) (suc n) [] p = refl
      take_take (suc m) (suc n) (x ∷ xs) p = ap (◌∷◌ x) (take_take m n xs (omega arith))

      slice_take : (lo hi n : ℕ) (xs : List ℕ) → hi ≤ n → slice lo hi xs ≡ slice lo hi (take n xs)
      slice_take zero hi n xs p = take_take (hi - 0) n xs (omega arith)
      slice_take (suc lo) zero n xs p = let e : 0 - suc lo ≡ 0 = omega arith in rw e
      slice_take (suc lo) (suc hi) zero xs p = absurd (omega arith)
      slice_take (suc lo) (suc hi) (suc n) [] p = refl
      slice_take (suc lo) (suc hi) (suc n) (x ∷ xs) p =
          ap (λ (k : ℕ). take k (drop lo xs)) (let e : suc hi - suc lo ≡ hi - lo = omega arith in e)
          ∙ slice_take lo hi n xs (omega arith)
          ∙ ap (λ (k : ℕ). take k (drop lo (take n xs)))
              (let e : hi - lo ≡ suc hi - suc lo = omega arith in e)

  chain_from_prefix :
      (block h i n : ℕ) (xs ys : List ℕ)
      → take ((i + n) * block) xs ≡ take ((i + n) * block) ys
      → chain_from digest name block h i n xs ≡ chain_from digest name block h i n ys
  unfolding chain_from
  chain_from_prefix block h i zero xs ys p = refl
  chain_from_prefix block h i (suc n) xs ys p =
      let same =
        slice_prefix (i * block) ((i + 1) * block) ((i + suc n) * block) xs ys (grind arith) p in
      let e : i + suc n ≡ i + 1 + n = omega arith in
      rw same (
        ap (◌∷◌ (name (digest h (slice (i * block) ((i + 1) * block) ys)))) (
          chain_from_prefix block (digest h (slice (i * block) ((i + 1) * block) ys)) (i + 1) n xs
            ys (rw (← e) p)))

  -- Two prompts that share their first `n` blocks share the names of those blocks, and a shorter
  -- chain is the start of a longer one: so a system prompt is stored once.
  pub chain_hashes_shared :
      (xs ys : List ℕ) (block m n : ℕ)
      → m ≤ n
      → take (m * block) xs ≡ take (m * block) ys
      → take m (chain_hashes digest name xs block n) ≡ chain_hashes digest name ys block m
  unfolding chain_hashes
  chain_hashes_shared xs ys block m n h p =
      take-chain_from block 0 0 m n xs h ∙ chain_from_prefix block 0 0 m xs ys (rw zero-add p)
