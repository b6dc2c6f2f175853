-- ===== src/PrefixDisk/Observe/Backlog.antt =====
-- The writer's backlog: `pending_bytes` and the pending flags against the queue.
use maxtoken.Prelude.{
  ℕ, zero, suc, ◌+◌, ◌≡◌, ◌∙◌, refl, ap, sym, leb, List, [], ◌∷◌, ◌++◌, length, Option, none, some,
  Bool, true, false, ltb, ◌==◌, ◌&&◌, ◌||◌, arith, find, put, remove, find-put, find-remove,
  has-count, keys, Distinct, count-keys-put, count-keys-remove, Bool-cases, Option-cases, inl, inr,
}
use maxtoken.PrefixDisk.Store.{
  Block, Kind, kv, rec, Job, write, manifest, Store, drop_block, drop_all, touch_blocks, room_loop,
  make_room, victim, total_bytes, max_pending_bytes,
}
use maxtoken.PrefixDisk.Room.{make_room-Roomy}

abbrev pub same_kind : Kind → Kind → Bool
same_kind kv kv = true
same_kind kv rec = false
same_kind rec kv = false
same_kind rec rec = true

-- The bytes of the queued writes.
unfoldable pub queued : List Job → ℕ
queued [] = 0
queued (write kind h idx n ∷ jobs) = n + queued jobs
queued (manifest ∷ jobs) = queued jobs

unfoldable pub has_job : Kind → ℕ → List Job → Bool
has_job kind h [] = false
has_job kind h (write kind' h' idx n ∷ jobs) =
    (same_kind kind' kind && h' == h) || has_job kind h jobs
has_job kind h (manifest ∷ jobs) = has_job kind h jobs

abbrev pub pend : Kind → Option Block → Bool
pend kind none = false
pend kv (some b) = b.kv_pending
pend rec (some b) = b.rec_pending

-- The blocks have one entry for a hash, the counter is the backlog, and a block that is marked as
-- being written has its write in the queue.
pub record IsSound (s : Store) : Type 0 where
  pub distinct : Distinct s.blocks
  pub accounted : s.pending_bytes ≡ queued s.queue
  pub flagged :
      (kind : Kind) (h : ℕ) → pend kind (find h s.blocks) ≡ true → has_job kind h s.queue ≡ true

pub queued-append : (js ks : List Job) → queued (js ++ ks) ≡ queued js + queued ks
unfolding queued
queued-append [] ks = omega arith
queued-append (write kind h idx n ∷ js) ks = omega (arith, queued-append js ks)
queued-append (manifest ∷ js) ks = queued-append js ks

has_job-append :
    (kind : Kind) (h : ℕ) (js ks : List Job)
    → has_job kind h (js ++ ks) ≡ (has_job kind h js || has_job kind h ks)
unfolding has_job
has_job-append kind h [] ks = refl
has_job-append kind h (write kind' h' idx n ∷ js) ks = ground (arith, has_job-append kind h js ks)
has_job-append kind h (manifest ∷ js) ks = has_job-append kind h js ks

pub drop_block-queue : (s : Store) (h : ℕ) → (drop_block s h).queue ≡ s.queue
unfolding drop_block
drop_block-queue s h = elim (Option-cases (find h s.blocks)) [
  | inl e ↦ rw (e, drop_block) refl
  | inr (b, e) ↦ rw (e, drop_block) refl
]

pub drop_block-pending : (s : Store) (h : ℕ) → (drop_block s h).pending_bytes ≡ s.pending_bytes
unfolding drop_block
drop_block-pending s h = elim (Option-cases (find h s.blocks)) [
  | inl e ↦ rw (e, drop_block) refl
  | inr (b, e) ↦ rw (e, drop_block) refl
]

room_loop-queue :
    (fuel : ℕ) (s : Store) (n : ℕ) (keep : List ℕ) → (room_loop fuel s n keep).0.queue ≡ s.queue
unfolding room_loop
room_loop-queue zero s n keep = refl
room_loop-queue (suc fuel) s n keep =
    elim (Bool-cases (leb (total_bytes s.blocks + s.pending_bytes + n) s.max_bytes)) [
      | inl fits ↦ rw fits refl
      | inr over ↦ elim (Option-cases (victim keep s.blocks)) [
        | inl e ↦ rw (over, e, room_loop) refl
        | inr (p, e) ↦
            rw (over, e, room_loop)
              (room_loop-queue fuel (drop_block s p.0) n keep ∙ drop_block-queue s p.0)
      ]
    ]

make_room-queue : (s : Store) (n : ℕ) (keep : List ℕ) → (make_room s n keep).0.queue ≡ s.queue
unfolding make_room
make_room-queue s n keep = elim (Bool-cases (ltb max_pending_bytes (s.pending_bytes + n))) [
  | inl full ↦ rw full refl
  | inr space ↦ rw space (room_loop-queue (length s.blocks + 1) s n keep)
]

-- Fewer blocks, the same queue.
pub shrink-IsSound :
    (s s' : Store)
    → IsSound s
    → Distinct s'.blocks
    → s'.queue ≡ s.queue
    → s'.pending_bytes ≡ s.pending_bytes
    → ((h : ℕ) (b : Block) → find h s'.blocks ≡ some b → find h s.blocks ≡ some b)
    → IsSound s'
shrink-IsSound s s' w d q p only = record {
  distinct = d;
  accounted = p ∙ w.accounted ∙ ap queued (sym q);
  flagged = λ kind h f. elim (Option-cases (find h s'.blocks)) [
    | inl e ↦ absurd (ground arith)
    | inr (b, e) ↦ rw q (w.flagged kind h (rw (only h b e) (ground arith)))
  ];
}

pub make_room-IsSound :
    (s : Store) (n : ℕ) (keep : List ℕ) → IsSound s → IsSound (make_room s n keep).0
make_room-IsSound s n keep w =
    let r = make_room-Roomy s n keep w.distinct in
    shrink-IsSound s (make_room s n keep).0 w r.distinct (make_room-queue s n keep) r.same_pending
      r.only

pub drop_block-IsSound : (s : Store) (h : ℕ) → IsSound s → IsSound (drop_block s h)
unfolding drop_block
drop_block-IsSound s h w = elim (Option-cases (find h s.blocks)) [
  | inl e ↦ rw (e, drop_block) w
  | inr (b, e) ↦
      rw (e, drop_block)
        (shrink-IsSound s
          (record s {
            blocks = remove h s.blocks;
            kv_files = remove h s.kv_files;
            rec_files = remove h s.rec_files;
          })
          w (λ j. ground (arith, count-keys-remove h j s.blocks, w.distinct j)) refl refl
          (λ j c f. ground (arith, find-remove h j s.blocks)))
]

pub drop_all-IsSound : (s : Store) (hs : List ℕ) → IsSound s → IsSound (drop_all s hs)
unfolding drop_all
drop_all-IsSound s [] w = w
drop_all-IsSound s (h ∷ hs) w = drop_all-IsSound (drop_block s h) hs (drop_block-IsSound s h w)

-- A block that replaces an entry or is new, marked at most as the entry was.
pub put_block-IsSound :
    (s : Store) (h : ℕ) (b : Block)
    → IsSound s
    → ((kind : Kind) → pend kind (some b) ≡ true → has_job kind h s.queue ≡ true)
    → IsSound (record s { blocks = put h b s.blocks })
put_block-IsSound s h b w f = record {
  distinct = λ j.
      ground
        (arith, count-keys-put h j b s.blocks, w.distinct j, has-count h s.blocks, w.distinct h);
  accounted = w.accounted;
  flagged = λ kind j p. elim (Bool-cases (h == j)) [
    | inl e ↦
        let same : h ≡ j = ground arith in
        rw (← same) (f kind (ground (arith, find-put h j b s.blocks)))
    | inr e ↦ w.flagged kind j (ground (arith, find-put h j b s.blocks))
  ];
}

-- A write is queued with the block marked.
pub add_job-IsSound :
    (s : Store) (kind : Kind) (h idx n : ℕ) (b : Block)
    → IsSound s
    → ((kind' : Kind)
        → pend kind' (some b) ≡ true
        → (same_kind kind kind' || pend kind' (find h s.blocks)) ≡ true)
    → IsSound (record s {
      blocks = put h b s.blocks;
      pending_bytes = s.pending_bytes + n;
      queue = s.queue ++ write kind h idx n ∷ [];
    })
unfolding queued has_job
add_job-IsSound s kind h idx n b w f =
    let q = s.queue ++ write kind h idx n ∷ [] in
    let s' : Store = record s { pending_bytes = s.pending_bytes + n; queue = q } in
    let w' : IsSound s' = record {
      distinct = w.distinct;
      accounted = omega (arith, w.accounted, queued-append s.queue (write kind h idx n ∷ []));
      flagged = λ k j p.
          ground (arith, has_job-append k j s.queue (write kind h idx n ∷ []), w.flagged k j p);
    } in
    put_block-IsSound s' h b w' (λ k p.
      ground (arith, f k p, has_job-append k h s.queue (write kind h idx n ∷ []), w.flagged k h))

pub manifest-IsSound :
    (s : Store) → IsSound s → IsSound (record s { queue = s.queue ++ manifest ∷ [] })
unfolding queued has_job
manifest-IsSound s w = record {
  distinct = w.distinct;
  accounted = omega (arith, w.accounted, queued-append s.queue (manifest ∷ []));
  flagged = λ k j p. ground (arith, has_job-append k j s.queue (manifest ∷ []), w.flagged k j p);
}

pend-touch_blocks :
    (now : ℕ) (hashes : List ℕ) (bs : List (ℕ × Block)) (kind : Kind) (h : ℕ)
    → pend kind (find h (touch_blocks now hashes bs)) ≡ pend kind (find h bs)
unfolding touch_blocks
pend-touch_blocks now hashes [] kind h = refl
pend-touch_blocks now hashes ((j, b) ∷ bs) kv h =
    ground (arith, pend-touch_blocks now hashes bs kv h)
pend-touch_blocks now hashes ((j, b) ∷ bs) rec h =
    ground (arith, pend-touch_blocks now hashes bs rec h)

keys-touch_blocks :
    (now : ℕ) (hashes : List ℕ) (bs : List (ℕ × Block))
    → keys (touch_blocks now hashes bs) ≡ keys bs
unfolding touch_blocks
keys-touch_blocks now hashes [] = refl
keys-touch_blocks now hashes ((j, b) ∷ bs) = ap (◌∷◌ j) (keys-touch_blocks now hashes bs)

pub touch_blocks-IsSound :
    (s : Store) (now : ℕ) (hashes : List ℕ)
    → IsSound s
    → IsSound (record s { blocks = touch_blocks now hashes s.blocks })
touch_blocks-IsSound s now hashes w = record {
  distinct = λ j. rw (keys-touch_blocks now hashes s.blocks) (w.distinct j);
  accounted = w.accounted;
  flagged = λ k j p. w.flagged k j (sym (pend-touch_blocks now hashes s.blocks k j) ∙ p);
}
