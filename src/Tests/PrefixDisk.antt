-- ===== src/Tests/PrefixDisk.antt =====
-- A store with blocks of four tokens, of which the first is on disk.
use maxtoken.Prelude.{
  ℕ, ◌+◌, ◌*◌, ◌/◌, ◌≡◌, refl, List, [], ◌∷◌, none, some, true, false, arith, find,
}
use maxtoken.PrefixDisk.Store.{Block, kv, rec, Store, make_room}
use maxtoken.PrefixDisk.Room.{Roomy, make_room-Roomy}
use maxtoken.PrefixDisk.Observe.{observe}
use maxtoken.PrefixDisk.Observe.Backlog.{IsSound, queued, has_job}
use maxtoken.PrefixDisk.Steps.{observed, Step-IsSound}
use maxtoken.PrefixDisk.Writer.{persist, load_manifest}
use maxtoken.PrefixDisk.Writer.Reload.{reloaded, load-persist}

-- Stands for the hash.
abbrev digest : ℕ → List ℕ → ℕ
digest h [] = h
digest h (t ∷ ts) = digest (3 * h + t + 1) ts

abbrev name : ℕ → ℕ
name h = h

abbrev prompt : List ℕ
prompt = 1 ∷ 2 ∷ 3 ∷ 4 ∷ 5 ∷ 6 ∷ 7 ∷ 8 ∷ 9 ∷ []

abbrev on_disk : Block
on_disk = record {
  index = 1;
  kv_bytes = 50;
  rec_bytes = 0;
  used = 3;
  kv_ready = true;
  rec_ready = false;
  kv_pending = false;
  rec_pending = false;
}

abbrev with_blocks : List (ℕ × Block) → List (ℕ × ℕ) → Store
with_blocks blocks kv_files = record {
  max_bytes = 120;
  block = 4;
  needs_rec = false;
  rec_every = 2;
  min_prompt_tokens = 4;
  blocks = blocks;
  queue = [];
  pending_bytes = 0;
  window = [];
  snapshot = none;
  kv_files = kv_files;
  rec_files = [];
  hits = 0;
  misses = 0;
  restored_tokens = 0;
  written_bytes = 0;
  skipped_writes = 0;
  disabled = false;
}

abbrev store : Store
store = with_blocks ((digest 0 (1 ∷ 2 ∷ 3 ∷ 4 ∷ []), on_disk) ∷ (2, on_disk) ∷ []) ((2, 50) ∷ [])

make_room-Roomy_example : Roomy 40 [] store (make_room store 40 []).0 (make_room store 40 []).1
make_room-Roomy_example = make_room-Roomy store 40 [] (λ k. ground arith)

store-IsSound : IsSound store
unfolding queued has_job
store-IsSound = record {
  distinct = λ k. ground arith;
  accounted = refl;
  flagged = λ kind h p. elim kind [ kv ↦ ground arith | rec ↦ ground arith ];
}

Step-IsSound_example :
    IsSound (observe digest name 9 true true store (1 ∷ 2 ∷ 3 ∷ 4 ∷ []) none false 30 0)
Step-IsSound_example =
    Step-IsSound digest name store
      (observe digest name 9 true true store (1 ∷ 2 ∷ 3 ∷ 4 ∷ []) none false 30 0)
      (observed store 9 true true (1 ∷ 2 ∷ 3 ∷ 4 ∷ []) none false 30 0) store-IsSound

abbrev saved : Store
saved = with_blocks ((2, on_disk) ∷ []) ((2, 50) ∷ [])

-- Stands for the rounding.
abbrev tens : ℕ → ℕ
tens t = (t + 5) / 10 * 10

load-persist_example :
    ((h : ℕ)
      → find h
          (load_manifest (with_blocks [] ((2, 50) ∷ [])) 6 (some (persist tens saved 6))).blocks
        ≡ reloaded tens (find h saved.blocks))
    × ((load_manifest (with_blocks [] ((2, 50) ∷ [])) 6 (some (persist tens saved 6))).kv_files
        ≡ saved.kv_files)
    × ((load_manifest (with_blocks [] ((2, 50) ∷ [])) 6 (some (persist tens saved 6))).rec_files
        ≡ saved.rec_files)
load-persist_example =
    load-persist tens saved (with_blocks [] ((2, 50) ∷ [])) 6 (λ k. ground arith)
      (record { kv_file = λ e. refl; rec_file = refl; rec_none = λ e. refl }, tt) refl refl refl
      refl
