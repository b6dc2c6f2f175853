-- ===== src/PrefixDisk/Resume.antt =====
-- `known_blocks`, `lookup`, `cut_points` and `restore`: where a prompt resumes.
pub mod Lookup
use maxtoken.Prelude.{
  ℕ, zero, suc, ◌+◌, ◌-◌, ◌*◌, List, [], ◌∷◌, ◌++◌, length, take, Option, none, some, Bool, true,
  false, ltb, leb, ◌==◌, ◌&&◌, ◌||◌, not, if◌then◌else◌, find,
}
use maxtoken.PrefixDisk.Chain.{chain_hashes, restore_blocks}
use maxtoken.PrefixDisk.Store.{Block, Job, manifest, Store, touch_blocks, drop_all}

-- `b is None or not b.kv_ready`
abbrev pub ready : Option Block → Bool
ready none = false
ready (some b) = b.kv_ready

abbrev pub has_rec : Option Block → Bool
has_rec none = false
has_rec (some b) = b.rec_ready

unfoldable pub known_blocks : List (ℕ × Block) → List ℕ → ℕ
known_blocks bs [] = 0
known_blocks bs (h ∷ hs) =
    let rest = known_blocks bs hs in if ready (find h bs) then suc rest else 0

-- The loop of `lookup`: `i` blocks lie behind, `best` is the deepest that can be resumed at.
unfoldable pub deepest_from : Bool → List (ℕ × Block) → ℕ → ℕ → List ℕ → ℕ
deepest_from needs_rec bs i best [] = best
deepest_from needs_rec bs i best (h ∷ hs) =
    let on =
      deepest_from needs_rec bs (suc i)
        (if not needs_rec || has_rec (find h bs) then suc i else best) hs in
    if ready (find h bs) then on else best

module _ (digest : ℕ → List ℕ → ℕ) (name : ℕ → ℕ) where
  abbrev pub chain : Store → List ℕ → ℕ → List ℕ
  chain s tokens n = chain_hashes digest name tokens s.block n

  unfoldable pub lookup : Store → List ℕ → Store × Option (ℕ × List ℕ)
  lookup s tokens =
      let n_full = restore_blocks (length tokens) s.block in
      let hashes = chain s tokens n_full in
      let best = deepest_from s.needs_rec s.blocks 0 0 hashes in
      if s.disabled || n_full == 0
      then (s, none)
      else if best == 0
      then (record s { misses = s.misses + 1 }, none)
      else (s, some (best, take best hashes))

  -- `sorted({p, q})`, of which those past `start`
  unfoldable pub sorted_past : ℕ → ℕ → ℕ → List ℕ
  sorted_past start p q =
      let p' = if ltb start p then p ∷ [] else [] in
      let q' = if ltb start q then q ∷ [] else [] in
      if p == q then p' else if ltb p q then p' ++ q' else q' ++ p'

  unfoldable pub cut_points : Store → List ℕ → ℕ → List ℕ
  unfolding sorted_past
  cut_points s tokens start =
      let n_full = restore_blocks (length tokens) s.block in
      let known = known_blocks s.blocks (chain s tokens n_full) in
      if (s.disabled || ltb (length tokens) s.min_prompt_tokens) || n_full == 0
      then []
      else sorted_past start (n_full * s.block) (known * s.block)

  -- `restore` of `i` blocks, where `readable` says whether the files could be read. The answer is
  -- whether there are caches.
  unfoldable pub restore : Store → ℕ → List ℕ → ℕ → Bool → Store × Bool
  restore s now tokens i readable =
      let hashes = chain s tokens i in
      if readable
      then (
        record s {
          blocks = touch_blocks now hashes s.blocks;
          hits = s.hits + 1;
          restored_tokens = s.restored_tokens + i * s.block;
          queue = s.queue ++ manifest ∷ [];
        },
        true,
      )
      else let s' = drop_all s hashes in (record s' { queue = s'.queue ++ manifest ∷ [] }, false)
