-- ===== src/PrefixDisk/Resume/Lookup.antt =====
-- What `lookup` and `cut_points` promise.
use native.Mathlib.Nat.{zero-div, mul-mod_left}
use maxtoken.Prelude.{
  ℕ, zero, suc, ◌+◌, ◌*◌, ◌%◌, ◌≤◌, ◌<◌, ◌≡◌, ◌≢◌, ◌⊎◌, inl, inr, List, [], ◌∷◌, length, Option,
  none, some, Bool, true, ltb, ◌==◌, ◌||◌, not, find, All, Bool-cases, arith,
}
use maxtoken.PrefixDisk.Chain.{restore_blocks, restore_blocks_lem, length-chain_hashes}
use maxtoken.PrefixDisk.Store.{Block, Store}
use maxtoken.PrefixDisk.Resume.{ready, has_rec, known_blocks, chain, sorted_past, cut_points}

-- The block that a model resumes at has what the model needs there.
abbrev pub Resumable : Bool → List (ℕ × Block) → ℕ → Type 0
Resumable needs_rec bs h = not needs_rec || has_rec (find h bs) ≡ true

module _ (needs_rec : Bool) (bs : List (ℕ × Block)) where
  -- The block at position `n` of a chain, counted from 1, and all before it are there.
  abbrev pub CanResume : List ℕ → ℕ → Type 0
  CanResume hs zero = ⊥
  CanResume [] (suc n) = ⊥
  CanResume (h ∷ hs) (suc zero) = (ready (find h bs) ≡ true) × Resumable needs_rec bs h
  CanResume (h ∷ hs) (suc (suc n)) = (ready (find h bs) ≡ true) × CanResume hs (suc n)

le_product : (n m b len : ℕ) → n ≤ m → m * b < len → n * b < len
le_product n m b len h k = grind arith

module _ (digest : ℕ → List ℕ → ℕ) (name : ℕ → ℕ) (s : Store) (tokens : List ℕ) where
  -- The blocks of the prompt that leave a token to process.
  abbrev pub full : ℕ
  full = restore_blocks (length tokens) s.block

  abbrev pub full_chain : List ℕ
  full_chain = chain digest name s tokens full

  -- The model can resume behind the prompt's blocks up to the one of index `n`.
  abbrev pub Reaches : ℕ → Type 0
  Reaches n = CanResume s.needs_rec s.blocks (chain digest name s tokens (suc n)) (suc n)

  pub data Resumes : Store × Option (ℕ × List ℕ) → Type 0 where
    off : (s.disabled ≡ true) ⊎ (length tokens ≤ s.block) → Resumes (s, none)
    miss :
        ((n : ℕ) → suc n * s.block < length tokens → ¬ Reaches n)
        → Resumes (record s { misses = s.misses + 1 }, none)
    hit :
        (n : ℕ) (hs : List ℕ)
        → hs ≡ chain digest name s tokens (suc n)
        → Reaches n
        → ((m : ℕ) → suc m * s.block < length tokens → Reaches m → m ≤ n)
        → suc n * s.block < length tokens
        → Resumes (s, some (suc n, hs))

  in_prompt : (n : ℕ) → 0 < s.block → n ≤ full → full ≢ 0 → n * s.block < length tokens
  in_prompt n b p q =
      let pos : 0 < length tokens = nonempty (length tokens) q in
      le_product n full s.block (length tokens) p
        (restore_blocks_lem (length tokens) s.block b pos).0
    where
      nonempty : (len : ℕ) → restore_blocks len s.block ≢ 0 → 0 < len
      nonempty zero ne = absurd (ne (unfold restore_blocks in zero-div s.block))
      nonempty (suc len) ne = omega arith

  -- Past `start`, and each past the one before it.
  abbrev pub Ascending : ℕ → List ℕ → Type 0
  Ascending start [] = Unit
  Ascending start (p ∷ ps) = (start < p) × Ascending p ps

  known_blocks-le : (bs : List (ℕ × Block)) (hs : List ℕ) → known_blocks bs hs ≤ length hs
  unfolding known_blocks
  known_blocks-le bs [] = omega arith
  known_blocks-le bs (h ∷ hs) = ground (arith, known_blocks-le bs hs)

  -- With blocks of positive size, the positions that the store asks a prefill to stop at come in
  -- ascending order, lie past `start` and at block boundaries, and leave a token of the prompt to process.
  pub cut_points_lem :
      (start : ℕ)
      → 0 < s.block
      → Ascending start (cut_points digest name s tokens start)
        × All (λ p. (p % s.block ≡ 0) × (p < length tokens)) (cut_points digest name s tokens start)
  unfolding cut_points sorted_past
  cut_points_lem start b =
      elim (Bool-cases ((s.disabled || ltb (length tokens) s.min_prompt_tokens) || full == 0)) [
        | inl stop ↦ rw stop (tt, tt)
        | inr go ↦
            let known = known_blocks s.blocks full_chain in
            let few : known ≤ full = omega (
              arith,
              known_blocks-le s.blocks full_chain,
              length-chain_hashes digest name tokens s.block full,
            ) in
            let there : full ≢ 0 = ground arith in
            let p = in_prompt full b (omega arith) there in
            let q = in_prompt known b few there in
            let pm : full * s.block % s.block ≡ 0 = mul-mod_left full s.block in
            let qm : known * s.block % s.block ≡ 0 = mul-mod_left known s.block in
            rw go (ground arith, ground arith)
      ]
