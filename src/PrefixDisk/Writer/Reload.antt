-- ===== src/PrefixDisk/Writer/Reload.antt =====
-- `_persist`, then `_load_manifest` at the next start.
use maxtoken.Prelude.{
  ℕ, ◌≡◌, ◌∙◌, refl, ap, List, [], ◌∷◌, Option, none, some, true, false, ◌==◌, ◌&&◌, if◌then◌else◌,
  arith, find, has-find, has-count, put, find-put, Distinct, Bool-cases, inl, inr, All,
}
use maxtoken.PrefixDisk.Store.{Block, Store}
use maxtoken.PrefixDisk.Writer.{entries_of, persist, file_is, load_entry, load_from, load_manifest}

-- The files of a block: the KV at its size where it is ready, the recurrent state exactly where it is.
pub record OnDisk (kv_files rec_files : List (ℕ × ℕ)) (h : ℕ) (b : Block) : Type 0 where
  pub kv_file : b.kv_ready ≡ true → file_is kv_files h b.kv_bytes ≡ true
  pub rec_file : b.rec_ready ≡ file_is rec_files h b.rec_bytes
  pub rec_none : b.rec_ready ≡ false → b.rec_bytes ≡ 0

-- What a restart makes of a block: it is there if its KV is ready, and nothing is being written.
abbrev pub reloaded : (ℕ → ℕ) → Option Block → Option Block
reloaded rounded none = none
reloaded rounded (some b) =
    if b.kv_ready
    then some (record b { kv_pending = false; rec_pending = false; used = rounded b.used })
    else none

abbrev pub or_else : Option Block → Option Block → Option Block
or_else none p = p
or_else (some b) p = some b

load_entry_lem :
    (rounded : ℕ → ℕ) (kv_files rec_files : List (ℕ × ℕ)) (h : ℕ) (b : Block)
    → b.kv_ready ≡ true
    → OnDisk kv_files rec_files h b
    → load_entry kv_files rec_files h
        (record { i = b.index; kv = b.kv_bytes; rec = b.rec_bytes; used = rounded b.used })
      ≡ record b { kv_pending = false; rec_pending = false; used = rounded b.used }
unfolding load_entry
load_entry_lem rounded kv_files rec_files h b r d =
    let kept : (if b.rec_ready then b.rec_bytes else 0) ≡ b.rec_bytes =
      ground (arith, d.rec_none) in
    rw (d.kv_file r, ← r, ← d.rec_file, kept) refl

load_lem :
    (rounded : ℕ → ℕ) (kv_files rec_files : List (ℕ × ℕ)) (bs acc : List (ℕ × Block)) (h : ℕ)
    → Distinct bs
    → All (λ p. OnDisk kv_files rec_files p.0 p.1) bs
    → (find h (load_from kv_files acc rec_files (entries_of rounded bs)).0
        ≡ or_else (reloaded rounded (find h bs)) (find h acc))
      × ((load_from kv_files acc rec_files (entries_of rounded bs)).1 ≡ rec_files)
unfolding load_from entries_of
load_lem rounded kv_files rec_files [] acc h d a = (refl, refl)
load_lem rounded kv_files rec_files ((j, b) ∷ bs) acc h d a = elim (Bool-cases b.kv_ready) [
  | inr e ↦
      let r = load_lem rounded kv_files rec_files bs acc h (λ k. omega (arith, d k)) a.1 in
      elim (Bool-cases (j == h)) [
        | inr k ↦ rw (e, load_from, k) r
        | inl k ↦
            rw (e, load_from, k)
              ((r.0 ∙ ap (λ o. or_else (reloaded rounded o) (find h acc)) (gone k)), r.1)
      ]
  | inl e ↦
      let b' : Block = record b {
        kv_ready = true;
        kv_pending = false;
        rec_pending = false;
        used = rounded b.used;
      } in
      let r =
        load_lem rounded kv_files rec_files bs (put j b' acc) h (λ k. omega (arith, d k)) a.1 in
      let same = load_entry_lem rounded kv_files rec_files j b e a.0 in
      elim (Bool-cases (j == h)) [
        | inr k ↦
            rw (e, load_from, same, e, k)
              (
                (r.0
                    ∙ ap (or_else (reloaded rounded (find h bs))) {x = find h (put j b' acc)}
                        (ground (arith, find-put j h b' acc))),
                r.1,
              )
        | inl k ↦
            rw (e, load_from, same, e, k)
              (
                r.0
                    ∙ ap (λ o. or_else (reloaded rounded o) (find h (put j b' acc))) (gone k)
                    ∙ ground (arith, find-put j h b' acc),
                r.1,
              )
      ]
]
  where
    gone : (j == h) ≡ true → find h bs ≡ none
    gone k = has-find h bs (ground (arith, has-count h bs, d h))

-- The manifest of a store with one entry for a hash, whose files are what its blocks say, read back
-- at the next start (a store with no blocks, over the same files, with the same block size and
-- layout), gives each hash exactly the block that was ready there, its time of use rounded, the
-- marks of writes under way cleared and all else the same; a hash whose KV was not ready has no
-- block, and no file is removed.
pub load-persist :
    (rounded : ℕ → ℕ) (s t : Store) (layout : ℕ)
    → Distinct s.blocks
    → All (λ p. OnDisk s.kv_files s.rec_files p.0 p.1) s.blocks
    → t.blocks ≡ []
    → t.kv_files ≡ s.kv_files
    → t.rec_files ≡ s.rec_files
    → t.block ≡ s.block
    → ((h : ℕ)
        → find h (load_manifest t layout (some (persist rounded s layout))).blocks
          ≡ reloaded rounded (find h s.blocks))
      × ((load_manifest t layout (some (persist rounded s layout))).kv_files ≡ s.kv_files)
      × ((load_manifest t layout (some (persist rounded s layout))).rec_files ≡ s.rec_files)
unfolding load_manifest persist
load-persist rounded s t layout d a e k r b =
    let yes : ((s.block == t.block) && (layout == layout)) ≡ true = ground arith in
    rw (yes, e, k, r)
      (
        (λ h.
            (load_lem rounded s.kv_files s.rec_files s.blocks [] h d a).0
            ∙ or_none (reloaded rounded (find h s.blocks))),
        refl,
        (load_lem rounded s.kv_files s.rec_files s.blocks [] 0 d a).1,
      )
  where
    or_none : (o : Option Block) → or_else o none ≡ o
    or_none none = refl
    or_none (some x) = refl
