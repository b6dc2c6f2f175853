-- ===== src/PrefixDisk/Observe.antt =====
-- `observe`, `_flush_snapshot`, `_window_put` and `done`: what is queued for the writer. `now` is the
-- store's clock. `good_shapes` and `copied` say whether the caches have the shapes that the code
-- checks for, and whether the copies to host memory succeed: where they do not, the store turns off.
pub mod Backlog
pub mod Queued
use mathlib.Core.List.{reverse}
use maxtoken.Prelude.{
  ℕ, zero, suc, ◌+◌, ◌-◌, ◌*◌, ◌/◌, ◌%◌, List, [], ◌∷◌, ◌++◌, length, Option, none, some, Bool,
  true, false, ltb, leb, ◌==◌, ◌&&◌, ◌||◌, not, if◌then◌else◌, find, has, put, remove,
}
use maxtoken.PrefixDisk.Chain.{restore_blocks}
use maxtoken.PrefixDisk.Store.{
  Block, new_block, kv_known, rec_known, Kind, kv, rec, Job, write, Pending, Store, window_bytes,
  touch_blocks, make_room,
}
use maxtoken.PrefixDisk.Resume.{chain}

abbrev pub known_kv : Option Block → Bool
known_kv none = false
known_kv (some b) = kv_known b

abbrev pub known_rec : Option Block → Bool
known_rec none = false
known_rec (some b) = rec_known b

-- `self.blocks.setdefault(bh, _Block(index=idx))`
abbrev pub or_new : ℕ → Option Block → Block
or_new idx none = new_block idx
or_new idx (some b) = b

abbrev pub mark : Kind → Block → Block
mark kv b = record b { kv_pending = true }
mark rec b = record b { rec_pending = true }

-- One round of the loop over `jobs` in `finish`.
unfoldable pub enqueue : ℕ → List ℕ → Store → Kind → ℕ → ℕ → ℕ → Store
enqueue now hashes s kind h idx nbytes =
    let (s', fits) = make_room s nbytes hashes in
    if fits
    then record s' {
      blocks = put h (mark kind (record (or_new idx (find h s'.blocks)) { used = now })) s'.blocks;
      pending_bytes = s'.pending_bytes + nbytes;
      queue = s'.queue ++ write kind h idx nbytes ∷ [];
    }
    else record s' { skipped_writes = s'.skipped_writes + 1 }

unfoldable pub enqueue_kv : ℕ → List ℕ → ℕ → Store → List (ℕ × ℕ) → Store
enqueue_kv now hashes nbytes s [] = s
enqueue_kv now hashes nbytes s ((h, idx) ∷ jobs) =
    enqueue_kv now hashes nbytes (enqueue now hashes s kv h idx nbytes) jobs

-- The bytes that `_window` holds.
unfoldable pub held : List (ℕ × (ℕ × ℕ)) → ℕ
held [] = 0
held ((h, (i, n)) ∷ w) = n + held w

-- The `while` of `_window_put`.
unfoldable pub shrink : List (ℕ × (ℕ × ℕ)) → List (ℕ × (ℕ × ℕ))
shrink [] = []
shrink (x ∷ []) = x ∷ []
shrink (x ∷ y ∷ w) =
    let rest = shrink (y ∷ w) in if ltb window_bytes (held (x ∷ y ∷ w)) then rest else x ∷ y ∷ w

unfoldable pub window_put : Store → ℕ → ℕ → ℕ → Store
window_put s h i nbytes =
    if has h s.window then s else record s { window = shrink (s.window ++ (h, (i, nbytes)) ∷ []) }

-- The hash of the last block; the chains here are not empty.
unfoldable pub last_hash : List ℕ → ℕ
last_hash [] = 0
last_hash (h ∷ []) = h
last_hash (h ∷ h' ∷ hs) = last_hash (h' ∷ hs)

-- `finish`: the window takes the recurrent snapshot before the lock, the jobs are queued under it.
unfoldable pub finish : ℕ → Pending → Store → Store
finish now p s =
    let h = last_hash p.hashes in
    let s₁ : Store =
      if p.need_rec && not p.rec_wanted then window_put s h p.index p.rec_nbytes else s in
    let s₂ : Store = record s₁ { blocks = touch_blocks now p.hashes s₁.blocks } in
    let s₃ = enqueue_kv now p.hashes p.kv_nbytes s₂ p.missing in
    if p.need_rec && p.rec_wanted then enqueue now p.hashes s₃ rec h p.index p.rec_nbytes else s₃

unfoldable pub flush_with : ℕ → Bool → Store → Option Pending → Store
flush_with now copied s none = s
flush_with now copied s (some p) =
    let s' : Store = record s { snapshot = none } in
    if copied then finish now p s' else record s' { disabled = true }

unfoldable pub flush_snapshot : ℕ → Bool → Store → Store
unfolding flush_with
flush_snapshot now copied s = flush_with now copied s s.snapshot

-- The blocks of a chain whose KV the store lacks, with their indices from `j` on.
unfoldable pub missing_from : ℕ → List ℕ → List (ℕ × Block) → List (ℕ × ℕ)
missing_from j [] bs = []
missing_from j (h ∷ hs) bs =
    let rest = missing_from (suc j) hs bs in if known_kv (find h bs) then rest else (h, j) ∷ rest

-- `prompt_len or n`
abbrev pub prompt_or : ℕ → Option ℕ → ℕ
prompt_or n none = n
prompt_or n (some zero) = n
prompt_or n (some (suc len)) = suc len

-- `n_full is not None and i == n_full`, where a prompt length of 0 counts as none.
abbrev pub is_last_block : ℕ → ℕ → Option ℕ → Bool
is_last_block block i none = false
is_last_block block i (some zero) = false
is_last_block block i (some (suc len)) = i == restore_blocks (suc len) block

-- What a snapshot call puts to the device, from the store as it finds it.
unfoldable pub plan : Store → List ℕ → ℕ → Option ℕ → Bool → ℕ → ℕ → Pending
plan s hashes i prompt_len restore_point kv_nbytes rec_nbytes =
    let b = find (last_hash hashes) s.blocks in
    record {
      hashes = hashes;
      index = i;
      missing = missing_from 1 hashes s.blocks;
      need_rec = s.needs_rec && not (known_rec b);
      rec_wanted =
          restore_point || known_kv b || i % s.rec_every == 0 || is_last_block s.block i prompt_len;
      kv_nbytes = kv_nbytes;
      rec_nbytes = rec_nbytes;
    }

unfoldable pub observe_blocks :
    ℕ → Bool → Bool → Store → List ℕ → ℕ → Option ℕ → Bool → ℕ → ℕ → Store
unfolding plan
observe_blocks now copied good_shapes s hashes i prompt_len restore_point kv_nbytes rec_nbytes =
    let p = plan s hashes i prompt_len restore_point kv_nbytes rec_nbytes in
    let s' = flush_snapshot now copied s in
    if good_shapes then record s' { snapshot = some p } else record s' { disabled = true }

module _ (digest : ℕ → List ℕ → ℕ) (name : ℕ → ℕ) where
  unfoldable pub observe : ℕ → Bool → Bool → Store → List ℕ → Option ℕ → Bool → ℕ → ℕ → Store
  observe now copied good_shapes s tokens prompt_len restore_point kv_nbytes rec_nbytes =
      let n = length tokens in
      let i = n / s.block in
      if (s.disabled || n == 0)
        || (not (n % s.block == 0) || ltb (prompt_or n prompt_len) s.min_prompt_tokens)
      then s
      else observe_blocks now copied good_shapes s (chain digest name s tokens i) i prompt_len
          restore_point kv_nbytes rec_nbytes

  -- One round of the loop of `done` for an entry of the window: the store, and whether it was queued.
  -- The block is on the protected chain, so it is still there when room has been made.
  unfoldable pub flush_entry : List ℕ → Store → ℕ → ℕ → ℕ → Store × Bool
  flush_entry hashes s h idx nbytes = elim (find h s.blocks) [
    | none ↦ (s, false)
    | some b ↦
        if not (kv_known b) || rec_known b
        then (s, false)
        else let (s', fits) = make_room s nbytes hashes in
          if fits
          then (
            record s' {
              blocks =
                  put h (record (or_new idx (find h s'.blocks)) { rec_pending = true }) s'.blocks;
              pending_bytes = s'.pending_bytes + nbytes;
              queue = s'.queue ++ write rec h idx nbytes ∷ [];
            },
            true,
          )
          else (record s' { skipped_writes = s'.skipped_writes + 1 }, false)
  ]

  -- The loop of `done`, over the chain's hashes from the deepest on.
  unfoldable pub done_loop : List ℕ → Store → Bool → List ℕ → Store
  done_loop hashes s flushed [] = s
  done_loop hashes s flushed (h ∷ hs) = elim (find h s.window) [
    | none ↦ done_loop hashes s flushed hs
    | some (idx, nbytes) ↦
        let popped : Store = record s { window = remove h s.window } in
        let (s', queued) = flush_entry hashes popped h idx nbytes in
        done_loop hashes (if flushed then popped else s') (if flushed then true else queued) hs
  ]

  unfoldable pub done : ℕ → Bool → Store → List ℕ → Store
  done now copied s tokens =
      let s' = flush_snapshot now copied s in
      let hashes = chain digest name s tokens (restore_blocks (length tokens) s.block) in
      if s.disabled
      then s
      else elim s'.window [ [] ↦ s' | _ ↦ done_loop hashes s' false (reverse hashes) ]
