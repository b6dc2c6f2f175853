-- ===== src/PrefixDisk/Store.antt =====
-- The state of the store, its accounting, and eviction (`_touch`, `_make_room`, `_drop`).
use maxtoken.Prelude.{
  ℕ, zero, suc, ◌+◌, ◌*◌, ◌^◌, List, [], ◌∷◌, length, Option, none, some, Bool, true, false, ltb,
  leb, ◌==◌, ◌&&◌, ◌||◌, not, if◌then◌else◌, contains, find, remove,
}

-- `_Block`
pub record Block : Type 0 where
  pub index : ℕ
  pub kv_bytes : ℕ
  pub rec_bytes : ℕ
  pub used : ℕ
  pub kv_ready : Bool
  pub rec_ready : Bool
  pub kv_pending : Bool
  pub rec_pending : Bool

unfoldable pub new_block : ℕ → Block
new_block index = record {
  index = index;
  kv_bytes = 0;
  rec_bytes = 0;
  used = 0;
  kv_ready = false;
  rec_ready = false;
  kv_pending = false;
  rec_pending = false;
}

abbrev pub kv_known : Block → Bool
kv_known b = b.kv_ready || b.kv_pending

abbrev pub rec_known : Block → Bool
rec_known b = b.rec_ready || b.rec_pending

pub data Kind : Type 0 where
  kv rec : Kind

-- What the writer's queue holds: a snapshot to write (its block's hash, its index and its bytes), or
-- the wish that the manifest be written.
pub data Job : Type 0 where
  write : Kind → ℕ → ℕ → ℕ → Job
  manifest : Job

-- A snapshot whose arrays are still being computed: what `finish` will queue.
pub record Pending : Type 0 where
  pub hashes : List ℕ
  pub index : ℕ
  pub missing : List (ℕ × ℕ)
  pub need_rec : Bool
  pub rec_wanted : Bool
  pub kv_nbytes : ℕ
  pub rec_nbytes : ℕ

pub record Store : Type 0 where
  pub max_bytes : ℕ
  pub block : ℕ
  pub needs_rec : Bool
  pub rec_every : ℕ
  pub min_prompt_tokens : ℕ
  pub blocks : List (ℕ × Block)
  pub queue : List Job
  pub pending_bytes : ℕ
  pub window : List (ℕ × (ℕ × ℕ))
  pub snapshot : Option Pending
  pub kv_files : List (ℕ × ℕ)
  pub rec_files : List (ℕ × ℕ)
  pub hits : ℕ
  pub misses : ℕ
  pub restored_tokens : ℕ
  pub written_bytes : ℕ
  pub skipped_writes : ℕ
  pub disabled : Bool

-- `MAX_PENDING_BYTES` and `WINDOW_BYTES`
abbrev pub max_pending_bytes : ℕ
max_pending_bytes = 3 * 2 ^ 30

abbrev pub window_bytes : ℕ
window_bytes = 256 * 2 ^ 20

abbrev pub block_bytes : Block → ℕ
block_bytes b = b.kv_bytes + b.rec_bytes

unfoldable pub total_bytes : List (ℕ × Block) → ℕ
total_bytes [] = 0
total_bytes ((h, b) ∷ bs) = block_bytes b + total_bytes bs

-- `_touch`: every listed block that is there gets the time stamp.
unfoldable pub touch_blocks : ℕ → List ℕ → List (ℕ × Block) → List (ℕ × Block)
touch_blocks now hashes [] = []
touch_blocks now hashes ((h, b) ∷ bs) =
    (h, (if contains h hashes then record b { used = now } else b)) ∷ touch_blocks now hashes bs

-- `_drop`: the entry and both files.
unfoldable pub drop_block : Store → ℕ → Store
drop_block s h = elim (find h s.blocks) [
  | none ↦ s
  | some b ↦ record s {
    blocks = remove h s.blocks;
    kv_files = remove h s.kv_files;
    rec_files = remove h s.rec_files;
  }
]

unfoldable pub drop_all : Store → List ℕ → Store
drop_all s [] = s
drop_all s (h ∷ hs) = drop_all (drop_block s h) hs

-- The order of the tuples `(b.used, -b.index, h)`.
unfoldable pub before : ℕ × Block → ℕ × Block → Bool
before (h, b) (h', b') =
    ltb b.used b'.used
    || (b.used == b'.used && (ltb b'.index b.index || (b.index == b'.index && leb h h')))

-- A block may go unless it is protected or has a write under way.
abbrev pub may_go : List ℕ → ℕ × Block → Bool
may_go keep (h, b) = not (contains h keep) && not (b.kv_pending || b.rec_pending)

-- `min(victims)`, if there is one.
unfoldable pub victim : List ℕ → List (ℕ × Block) → Option (ℕ × Block)
victim keep [] = none
victim keep (p ∷ bs) =
    let rest = victim keep bs in
    if may_go keep p
    then elim rest [ none ↦ some p | some q ↦ if before p q then some p else some q ]
    else rest

-- The `while` of `_make_room`, on fuel: each round drops a block. It returns whether `nbytes` fit.
unfoldable pub room_loop : ℕ → Store → ℕ → List ℕ → Store × Bool
room_loop zero s nbytes keep = (s, false)
room_loop (suc fuel) s nbytes keep =
    if leb (total_bytes s.blocks + s.pending_bytes + nbytes) s.max_bytes
    then (s, true)
    else elim (victim keep s.blocks) [
      | none ↦ (s, false)
      | some (h, b) ↦ room_loop fuel (drop_block s h) nbytes keep
    ]

unfoldable pub make_room : Store → ℕ → List ℕ → Store × Bool
make_room s nbytes keep =
    if ltb max_pending_bytes (s.pending_bytes + nbytes)
    then (s, false)
    else room_loop (length s.blocks + 1) s nbytes keep
