-- ===== src/PrefixDisk/Writer.antt =====
-- `_write_job` and `_write_loop`, the manifest (`_persist`, `_load_manifest`), and `_wipe`.
pub mod Accounted
pub mod Reload
use maxtoken.Prelude.{
  ℕ, zero, suc, ◌+◌, ◌-◌, List, [], ◌∷◌, ◌++◌, length, Option, none, some, Bool, true, false, ltb,
  ◌==◌, ◌&&◌, ◌||◌, not, if◌then◌else◌, find, has, put, remove,
}
use maxtoken.PrefixDisk.Store.{Block, Kind, kv, rec, Job, write, manifest, Store, drop_block}

-- The file at its path: a write that succeeds replaces it, one that fails leaves what was there.
abbrev pub place_file : ℕ → ℕ → List (ℕ × ℕ) → List (ℕ × ℕ)
place_file h size files = if size == 0 then files else put h size files

-- After the write of `size` bytes (0 where it failed), under the lock.
unfoldable pub record_write : Store → Kind → ℕ → ℕ → Option Block → Store
record_write s kv h size none = record s { kv_files = remove h s.kv_files }
record_write s rec h size none = record s { rec_files = remove h s.rec_files }
record_write s kv h size (some b) =
    if size == 0
    then drop_block (record s { blocks = put h (record b { kv_pending = false }) s.blocks }) h
    else record s {
      blocks = put h (record b { kv_pending = false; kv_bytes = size; kv_ready = true }) s.blocks;
      written_bytes = s.written_bytes + size;
    }
record_write s rec h size (some b) =
    if size == 0
    then record s { blocks = put h (record b { rec_pending = false }) s.blocks }
    else record s {
      blocks =
          put h (record b { rec_pending = false; rec_bytes = size; rec_ready = true }) s.blocks;
      written_bytes = s.written_bytes + size;
    }

abbrev pub written : Store → Kind → ℕ → ℕ → Store
written s kv h size = record s { kv_files = place_file h size s.kv_files }
written s rec h size = record s { rec_files = place_file h size s.rec_files }

-- `_write_job`
unfoldable pub write_job : Store → Kind → ℕ → ℕ → ℕ → Store
write_job s kind h nbytes size =
    let s' = written s kind h size in
    record_write (record s' { pending_bytes = s'.pending_bytes - nbytes }) kind h size
      (find h s'.blocks)

-- The writer takes the oldest job; `size` is the file's size if it writes one.
unfoldable pub write_next : Store → ℕ → List Job → Store
write_next s size [] = s
write_next s size (manifest ∷ jobs) = record s { queue = jobs }
write_next s size (write kind h idx nbytes ∷ jobs) =
    write_job (record s { queue = jobs }) kind h nbytes size

-- A manifest entry: `i`, `kv`, `rec` and `used`.
pub record Entry : Type 0 where
  pub i : ℕ
  pub kv : ℕ
  pub rec : ℕ
  pub used : ℕ

-- The header of the manifest: version and layout as one number each.
pub record Manifest : Type 0 where
  pub version : ℕ
  pub block_tokens : ℕ
  pub layout : ℕ
  pub entries : List (ℕ × Entry)

abbrev pub manifest_version : ℕ
manifest_version = 1

-- `{h: {...} for h, b in self.blocks.items() if b.kv_ready}`. `rounded`
-- stands for `round(t, 3)` of a time.
unfoldable pub entries_of : (ℕ → ℕ) → List (ℕ × Block) → List (ℕ × Entry)
entries_of rounded [] = []
entries_of rounded ((h, b) ∷ bs) =
    let rest = entries_of rounded bs in
    if b.kv_ready
    then (h, record { i = b.index; kv = b.kv_bytes; rec = b.rec_bytes; used = rounded b.used })
      ∷ rest
    else rest

unfoldable pub persist : (ℕ → ℕ) → Store → ℕ → Manifest
persist rounded s layout = record {
  version = manifest_version;
  block_tokens = s.block;
  layout = layout;
  entries = entries_of rounded s.blocks;
}

-- `kv and self._file_is(path, kv)`
abbrev pub file_is : List (ℕ × ℕ) → ℕ → ℕ → Bool
file_is files h zero = false
file_is files h (suc n) = elim (find h files) [ none ↦ false | some size ↦ size == suc n ]

-- One entry of the manifest against the files: the block, if its KV is there.
unfoldable pub load_entry : List (ℕ × ℕ) → List (ℕ × ℕ) → ℕ → Entry → Block
load_entry kv_files rec_files h e =
    let kv_there = file_is kv_files h e.kv in
    let rec_there = file_is rec_files h e.rec in
    record {
      index = e.i;
      kv_bytes = if kv_there then e.kv else 0;
      rec_bytes = if rec_there then e.rec else 0;
      used = e.used;
      kv_ready = kv_there;
      rec_ready = rec_there;
      kv_pending = false;
      rec_pending = false;
    }

-- The loop of `_load_manifest`: the blocks, and the recurrent files that stay.
unfoldable pub load_from :
    List (ℕ × ℕ)
    → List (ℕ × Block)
    → List (ℕ × ℕ)
    → List (ℕ × Entry)
    → List (ℕ × Block) × List (ℕ × ℕ)
load_from kv_files bs rec_files [] = (bs, rec_files)
load_from kv_files bs rec_files ((h, e) ∷ es) =
    let b = load_entry kv_files rec_files h e in
    load_from kv_files (if b.kv_ready then put h b bs else bs)
      (if b.kv_ready then rec_files else if b.rec_ready then remove h rec_files else rec_files) es

unfoldable pub wipe : Store → Store
wipe s = record s { blocks = []; kv_files = []; rec_files = [] }

-- `m` is `none` where there is no manifest; an unreadable one counts as one of another version.
unfoldable pub load_manifest : Store → ℕ → Option Manifest → Store
load_manifest s layout none = s
load_manifest s layout (some m) =
    if m.version == manifest_version && (m.block_tokens == s.block && m.layout == layout)
    then (let (bs, rec_files) = load_from s.kv_files s.blocks s.rec_files m.entries in
        record s { blocks = bs; rec_files = rec_files })
    else wipe s
