-- ===== src/PrefixDisk/Steps.antt =====
-- Every operation of the store, as a step, keeps its backlog in order.
use mathlib.Core.List.{reverse}
use maxtoken.Prelude.{
  ℕ, ◌%◌, ◌≡◌, refl, List, [], ◌∷◌, length, Option, none, some, Bool, true, false, ltb, ◌==◌, ◌||◌,
  not, if◌then◌else◌, arith, find, remove, Bool-cases, Option-cases, inl, inr,
}
use maxtoken.PrefixDisk.Chain.{restore_blocks}
use maxtoken.PrefixDisk.Store.{
  Block, new_block, kv_known, rec_known, Kind, kv, rec, Store, make_room,
}
use maxtoken.PrefixDisk.Resume.{deepest_from, chain, lookup, restore}
use maxtoken.PrefixDisk.Observe.{
  or_new, flush_snapshot, observe, prompt_or, flush_entry, done_loop, done,
}
use maxtoken.PrefixDisk.Observe.Backlog.{
  IsSound, pend, same_kind, make_room-IsSound, drop_all-IsSound, add_job-IsSound, manifest-IsSound,
  touch_blocks-IsSound,
}
use maxtoken.PrefixDisk.Observe.Queued.{
  rest-IsSound, if-IsSound, flush_snapshot-IsSound, observe_blocks-IsSound,
}
use maxtoken.PrefixDisk.Writer.Accounted.{write_next-IsSound}
use maxtoken.PrefixDisk.Writer.{write_next}

module _ (digest : ℕ → List ℕ → ℕ) (name : ℕ → ℕ) where
  -- The calls that change a store, each at the length that the lock holds it. `write` is the writer's:
  -- it takes the oldest job, and `size` is the size of the file that it manages to write, or 0.
  pub data Step : Store → Store → Type 0 where
    observed :
        (s : Store) (now : ℕ) (copied good : Bool) (tokens : List ℕ) (len : Option ℕ) (point : Bool)
        (kn rn : ℕ)
        → Step s (observe digest name now copied good s tokens len point kn rn)
    flushed : (s : Store) (now : ℕ) (copied : Bool) → Step s (flush_snapshot now copied s)
    finished :
        (s : Store) (now : ℕ) (copied : Bool) (tokens : List ℕ)
        → Step s (done digest name now copied s tokens)
    looked_up : (s : Store) (tokens : List ℕ) → Step s (lookup digest name s tokens).0
    restored :
        (s : Store) (now : ℕ) (tokens : List ℕ) (i : ℕ) (readable : Bool)
        → Step s (restore digest name s now tokens i readable).0
    wrote : (s : Store) (size : ℕ) → Step s (write_next s size s.queue)

  lookup-IsSound :
      (s : Store) (tokens : List ℕ) → IsSound s → IsSound (lookup digest name s tokens).0
  unfolding lookup
  lookup-IsSound s tokens w =
      let n_full = restore_blocks (length tokens) s.block in
      let best = deepest_from s.needs_rec s.blocks 0 0 (chain digest name s tokens n_full) in
      elim (Bool-cases (s.disabled || n_full == 0)) [
        | inl stop ↦ rw stop w
        | inr go ↦ elim (Bool-cases (best == 0)) [
          | inl z ↦ rw (go, z) (rest-IsSound s _ refl refl refl w)
          | inr z ↦ rw (go, z) w
        ]
      ]

  restore-IsSound :
      (s : Store) (now : ℕ) (tokens : List ℕ) (i : ℕ) (readable : Bool)
      → IsSound s
      → IsSound (restore digest name s now tokens i readable).0
  unfolding restore
  restore-IsSound s now tokens i true w =
      rest-IsSound _ _ refl refl refl
        (manifest-IsSound _ (touch_blocks-IsSound s now (chain digest name s tokens i) w))
  restore-IsSound s now tokens i false w =
      manifest-IsSound _ (drop_all-IsSound s (chain digest name s tokens i) w)

  observe-IsSound :
      (s : Store) (now : ℕ) (copied good : Bool) (tokens : List ℕ) (len : Option ℕ) (point : Bool)
      (kn rn : ℕ)
      → IsSound s
      → IsSound (observe digest name now copied good s tokens len point kn rn)
  unfolding observe
  observe-IsSound s now copied good tokens len point kn rn w =
      let n = length tokens in
      if-IsSound
        ((s.disabled || n == 0)
          || (not (n % s.block == 0) || ltb (prompt_or n len) s.min_prompt_tokens))
        s _ w (observe_blocks-IsSound now copied good s _ _ len point kn rn w)

  flush_entry-IsSound :
      (hashes : List ℕ) (s : Store) (h idx n : ℕ)
      → IsSound s
      → IsSound (flush_entry digest name hashes s h idx n).0
  unfolding flush_entry
  flush_entry-IsSound hashes s h idx n w = elim (Option-cases (find h s.blocks)) [
    | inl e ↦ rw (e, flush_entry) w
    | inr (b, e) ↦ elim (Bool-cases (not (kv_known b) || rec_known b)) [
      | inl skip ↦ rw (e, flush_entry, skip) w
      | inr go ↦
          let s' = (make_room s n hashes).0 in
          let w' = make_room-IsSound s n hashes w in
          elim (Bool-cases (make_room s n hashes).1) [
            | inr full ↦ rw (e, flush_entry, go, full) (rest-IsSound s' _ refl refl refl w')
            | inl fits ↦
                rw (e, flush_entry, go, fits)
                  (add_job-IsSound s' rec h idx n _ w' (λ k p. marked k (find h s'.blocks) p))
          ]
    ]
  ]
    where
      marked :
          (k : Kind) (o : Option Block)
          → pend k (some (record (or_new idx o) { rec_pending = true })) ≡ true
          → (same_kind rec k || pend k o) ≡ true
      marked rec o p = refl
      marked kv none p = absurd (unfold new_block in ground arith)
      marked kv (some b) p = p

  done_loop-IsSound :
      (hashes hs : List ℕ) (s : Store) (began : Bool)
      → IsSound s
      → IsSound (done_loop digest name hashes s began hs)
  unfolding done_loop
  done_loop-IsSound hashes [] s began w = w
  done_loop-IsSound hashes (h ∷ hs) s began w = elim (Option-cases (find h s.window)) [
    | inl e ↦ rw (e, done_loop) (done_loop-IsSound hashes hs s began w)
    | inr ((idx, n), e) ↦
        let popped : Store = record s { window = remove h s.window } in
        let w' = rest-IsSound s popped refl refl refl w in
        let (s', q) = flush_entry digest name hashes popped h idx n in
        let w'' = flush_entry-IsSound hashes popped h idx n w' in
        rw (e, done_loop)
          (done_loop-IsSound hashes hs (if began then popped else s') (if began then true else q)
            (if-IsSound began popped s' w' w''))
  ]

  done-IsSound :
      (s : Store) (now : ℕ) (copied : Bool) (tokens : List ℕ)
      → IsSound s
      → IsSound (done digest name now copied s tokens)
  unfolding done
  done-IsSound s now copied tokens w =
      let s' = flush_snapshot now copied s in
      let w' = flush_snapshot-IsSound now copied s w in
      let hashes = chain digest name s tokens (restore_blocks (length tokens) s.block) in
      if-IsSound s.disabled s _ w (each s' hashes w' s'.window)
    where
      each :
          (s' : Store) (hashes : List ℕ)
          → IsSound s'
          → (win : List (ℕ × (ℕ × ℕ)))
          → IsSound
              (elim win [ [] ↦ s' | _ ↦ done_loop digest name hashes s' false (reverse hashes) ])
      each s' hashes w' [] = w'
      each s' hashes w' (x ∷ win) = done_loop-IsSound hashes (reverse hashes) s' false w'

  -- Every step keeps the store sound: its blocks have one entry for a hash, `_pending_bytes` is the
  -- number of bytes of the writes in the queue, and each block marked as being written has its write in
  -- the queue.
  pub Step-IsSound : (s s' : Store) → Step s s' → IsSound s → IsSound s'
  Step-IsSound _ _ (observed s now copied good tokens len point kn rn) w =
      observe-IsSound s now copied good tokens len point kn rn w
  Step-IsSound _ _ (flushed s now copied) w = flush_snapshot-IsSound now copied s w
  Step-IsSound _ _ (finished s now copied tokens) w = done-IsSound s now copied tokens w
  Step-IsSound _ _ (looked_up s tokens) w = lookup-IsSound s tokens w
  Step-IsSound _ _ (restored s now tokens i readable) w = restore-IsSound s now tokens i readable w
  Step-IsSound _ _ (wrote s size) w = write_next-IsSound s size s.queue refl w
