-- ===== src/PrefixDisk/Observe/Queued.antt =====
-- What `observe` and `_flush_snapshot` queue leaves the backlog in order.

use maxtoken.Prelude.{
  ℕ, ◌≡◌, ◌∙◌, refl, ap, sym, List, [], ◌∷◌, Option, none, some, Bool, true, false, ◌&&◌, ◌||◌, not,
  if◌then◌else◌, arith, find, has, Bool-cases, inl, inr,
}
use maxtoken.PrefixDisk.Store.{
  Block, new_block, Kind, kv, rec, Pending, Store, touch_blocks, make_room,
}
use maxtoken.PrefixDisk.Observe.{
  or_new, mark, enqueue, enqueue_kv, window_put, last_hash, finish, flush_with, flush_snapshot,
  observe_blocks, plan,
}
use maxtoken.PrefixDisk.Observe.Backlog.{
  IsSound, pend, queued, same_kind, make_room-IsSound, add_job-IsSound, touch_blocks-IsSound,
}

enqueue-IsSound :
    (now : ℕ) (hashes : List ℕ) (s : Store) (kind : Kind) (h idx n : ℕ)
    → IsSound s
    → IsSound (enqueue now hashes s kind h idx n)
unfolding enqueue new_block
enqueue-IsSound now hashes s kind h idx n w =
    let s' = (make_room s n hashes).0 in
    let w' = make_room-IsSound s n hashes w in
    elim (Bool-cases (make_room s n hashes).1) [
      | inl fits ↦ rw fits (
          add_job-IsSound s' kind h idx n
            (mark kind (record (or_new idx (find h s'.blocks)) { used = now })) w'
            (λ k p. marked kind k (find h s'.blocks) p))
      | inr full ↦
          rw full
            (record { distinct = w'.distinct; accounted = w'.accounted; flagged = w'.flagged })
    ]
  where
    marked :
        (kind k : Kind) (o : Option Block)
        → pend k (some (mark kind (record (or_new idx o) { used = now }))) ≡ true
        → (same_kind kind k || pend k o) ≡ true
    marked kv kv o p = refl
    marked rec rec o p = refl
    marked kv rec none p = absurd (ground arith)
    marked kv rec (some b) p = p
    marked rec kv none p = absurd (ground arith)
    marked rec kv (some b) p = p

enqueue_kv-IsSound :
    (now : ℕ) (hashes : List ℕ) (n : ℕ) (s : Store) (jobs : List (ℕ × ℕ))
    → IsSound s
    → IsSound (enqueue_kv now hashes n s jobs)
unfolding enqueue_kv
enqueue_kv-IsSound now hashes n s [] w = w
enqueue_kv-IsSound now hashes n s ((h, idx) ∷ jobs) w =
    enqueue_kv-IsSound now hashes n (enqueue now hashes s kv h idx n) jobs
      (enqueue-IsSound now hashes s kv h idx n w)

-- What only the other fields tell apart.
pub rest-IsSound :
    (s s' : Store)
    → s'.blocks ≡ s.blocks
    → s'.queue ≡ s.queue
    → s'.pending_bytes ≡ s.pending_bytes
    → IsSound s
    → IsSound s'
rest-IsSound s s' b q p w = record {
  distinct = rw b w.distinct;
  accounted = p ∙ w.accounted ∙ ap queued (sym q);
  flagged = λ k h f. rw q (w.flagged k h (ap (λ bs. pend k (find h bs)) (sym b) ∙ f));
}

window_put-IsSound : (s : Store) (h i n : ℕ) → IsSound s → IsSound (window_put s h i n)
unfolding window_put
window_put-IsSound s h i n w = elim (Bool-cases (has h s.window)) [
  | inl e ↦ rw e w
  | inr e ↦ rw e (record { distinct = w.distinct; accounted = w.accounted; flagged = w.flagged })
]

pub if-IsSound : (b : Bool) (s s' : Store) → IsSound s → IsSound s' → IsSound (if b then s else s')
if-IsSound true s s' w w' = w
if-IsSound false s s' w w' = w'

finish-IsSound : (now : ℕ) (p : Pending) (s : Store) → IsSound s → IsSound (finish now p s)
unfolding finish
finish-IsSound now p s w =
    let h = last_hash p.hashes in
    let put_in = p.need_rec && not p.rec_wanted in
    let s₁ : Store = if put_in then window_put s h p.index p.rec_nbytes else s in
    let w₁ =
      if-IsSound put_in (window_put s h p.index p.rec_nbytes) s
        (window_put-IsSound s h p.index p.rec_nbytes w) w in
    let s₂ : Store = record s₁ { blocks = touch_blocks now p.hashes s₁.blocks } in
    let s₃ = enqueue_kv now p.hashes p.kv_nbytes s₂ p.missing in
    let w₃ =
      enqueue_kv-IsSound now p.hashes p.kv_nbytes s₂ p.missing
        (touch_blocks-IsSound s₁ now p.hashes w₁) in
    if-IsSound (p.need_rec && p.rec_wanted) (enqueue now p.hashes s₃ rec h p.index p.rec_nbytes) s₃
      (enqueue-IsSound now p.hashes s₃ rec h p.index p.rec_nbytes w₃) w₃

pub same-IsSound :
    (s : Store) (p : Option Pending) (d : Bool)
    → IsSound s
    → IsSound (record s { snapshot = p; disabled = d })
same-IsSound s p d w = record {
  distinct = w.distinct;
  accounted = w.accounted;
  flagged = w.flagged;
}

flush-IsSound :
    (now : ℕ) (copied : Bool) (s : Store) (p : Option Pending)
    → IsSound s
    → IsSound (flush_with now copied s p)
unfolding flush_with
flush-IsSound now copied s none w = w
flush-IsSound now true s (some p) w =
    finish-IsSound now p (record s { snapshot = none }) (same-IsSound s none s.disabled w)
flush-IsSound now false s (some p) w = same-IsSound s none true w

pub flush_snapshot-IsSound :
    (now : ℕ) (copied : Bool) (s : Store) → IsSound s → IsSound (flush_snapshot now copied s)
unfolding flush_snapshot
flush_snapshot-IsSound now copied s w = flush-IsSound now copied s s.snapshot w

pub observe_blocks-IsSound :
    (now : ℕ) (copied good : Bool) (s : Store) (hashes : List ℕ) (i : ℕ) (len : Option ℕ)
    (point : Bool) (kn rn : ℕ)
    → IsSound s
    → IsSound (observe_blocks now copied good s hashes i len point kn rn)
unfolding observe_blocks
observe_blocks-IsSound now copied good s hashes i len point kn rn w =
    let p = plan s hashes i len point kn rn in
    let s' = flush_snapshot now copied s in
    let w' = flush_snapshot-IsSound now copied s w in
    if-IsSound good (record s' { snapshot = some p }) (record s' { disabled = true })
      (same-IsSound s' (some p) s'.disabled w') (same-IsSound s' s'.snapshot true w')
