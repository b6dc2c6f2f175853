-- ===== src/PrefixDisk/Writer/Accounted.antt =====
-- The writer's jobs leave the backlog in order.

use maxtoken.Prelude.{
  ℕ, ◌-◌, ◌≡◌, ◌∙◌, refl, ap, sym, List, [], ◌∷◌, none, some, Bool, true, false, ◌==◌,
  if◌then◌else◌, arith, find, find-put, find-remove, has-count, count, keys, count-keys-put,
  count-keys-remove, Distinct, put, remove, Bool-cases, Option-cases, inl, inr,
}
use maxtoken.PrefixDisk.Store.{Block, Kind, kv, rec, Job, write, manifest, Store, drop_block}
use maxtoken.PrefixDisk.Observe.Backlog.{
  IsSound, pend, queued, has_job, same_kind, drop_block-queue, drop_block-pending,
}
use maxtoken.PrefixDisk.Writer.{record_write, write_job, write_next}

after_write :
    (s s' : Store) (jobs : List Job) (kind : Kind) (h idx n : ℕ)
    → s.queue ≡ write kind h idx n ∷ jobs
    → s'.queue ≡ jobs
    → s'.pending_bytes ≡ s.pending_bytes - n
    → Distinct s'.blocks
    → pend kind (find h s'.blocks) ≡ false
    → ((k : Kind) (j : ℕ) → pend k (find j s'.blocks) ≡ true → pend k (find j s.blocks) ≡ true)
    → IsSound s
    → IsSound s'
unfolding queued has_job
after_write s s' jobs kind h idx n q q' p d off sub w = record {
  distinct = d;
  accounted = omega (arith, p, w.accounted, ap queued q, ap queued q');
  flagged = λ k j f. rw q' (
      later kind k j (ap (has_job k j) (sym q) ∙ w.flagged k j (sub k j f))
        (λ e g. ground (arith, ap (λ x. pend k (find x s'.blocks)) g, same_pend kind k e)));
}
  where
    same_pend :
        (a b : Kind) → same_kind a b ≡ true → pend a (find h s'.blocks) ≡ pend b (find h s'.blocks)
    same_pend kv kv e = refl
    same_pend rec rec e = refl
    same_pend kv rec e = absurd (ground arith)
    same_pend rec kv e = absurd (ground arith)

    later :
        (a b : Kind) (j : ℕ)
        → has_job b j (write a h idx n ∷ jobs) ≡ true
        → (same_kind a b ≡ true → h ≡ j → ⊥)
        → has_job b j jobs ≡ true
    later a b j p ne = elim (Bool-cases (same_kind a b)) [
      | inr e ↦ ground arith
      | inl e ↦ elim (Bool-cases (h == j)) [
        | inl f ↦ absurd (ne e (ground arith))
        | inr f ↦ ground arith
      ]
    ]

drop_put-blocks :
    (s : Store) (h : ℕ) (b : Block)
    → (drop_block (record s { blocks = put h b s.blocks }) h).blocks ≡ remove h (put h b s.blocks)
unfolding drop_block
drop_put-blocks s h b =
    let there : find h (put h b s.blocks) ≡ some b = ground (arith, find-put h h b s.blocks) in
    rw (there, drop_block) refl

put-Distinct : (s : Store) (h : ℕ) (b : Block) → IsSound s → Distinct (put h b s.blocks)
put-Distinct s h b w = λ j.
    ground (arith, count-keys-put h j b s.blocks, w.distinct j, has-count h s.blocks, w.distinct h)

-- A block that only loses marks.
pend-put :
    (s : Store) (h : ℕ) (b b' : Block)
    → find h s.blocks ≡ some b
    → ((k : Kind) → pend k (some b') ≡ true → pend k (some b) ≡ true)
    → (k : Kind) (j : ℕ) → pend k (find j (put h b' s.blocks)) ≡ true
    → pend k (find j s.blocks) ≡ true
pend-put s h b b' e f k j p = elim (Bool-cases (h == j)) [
  | inr g ↦ ground (arith, find-put h j b' s.blocks)
  | inl g ↦
      let same : h ≡ j = ground arith in
      rw (← same) (
        ap (pend k) e
        ∙ f k (ap (pend k) {x = some b'} (ground (arith, find-put h j b' s.blocks)) ∙ p))
]

written-IsSound :
    (s s' : Store) (jobs : List Job) (kind : Kind) (h idx n : ℕ) (b b' : Block)
    → s.queue ≡ write kind h idx n ∷ jobs
    → s'.queue ≡ jobs
    → s'.pending_bytes ≡ s.pending_bytes - n
    → s'.blocks ≡ put h b' s.blocks
    → find h s.blocks ≡ some b
    → pend kind (some b') ≡ false
    → ((k : Kind) → pend k (some b') ≡ true → pend k (some b) ≡ true)
    → IsSound s
    → IsSound s'
written-IsSound s s' jobs kind h idx n b b' q q' p bl e off sub w =
    let found : find h s'.blocks ≡ some b' =
      ap (find h) bl ∙ ground (arith, find-put h h b' s.blocks) in
    after_write s s' jobs kind h idx n q q' p (rw bl (put-Distinct s h b' w))
      (ap (pend kind) found ∙ off)
      (λ k j f. pend-put s h b b' e sub k j (ap (λ bs. pend k (find j bs)) (sym bl) ∙ f)) w

dropped-IsSound :
    (s s' : Store) (jobs : List Job) (kind : Kind) (h idx n : ℕ) (b : Block)
    → s.queue ≡ write kind h idx n ∷ jobs
    → s'.queue ≡ jobs
    → s'.pending_bytes ≡ s.pending_bytes - n
    → s'.blocks ≡ remove h (put h b s.blocks)
    → IsSound s
    → IsSound s'
dropped-IsSound s s' jobs kind h idx n b q q' p bl w =
    let gone : (j : ℕ) → find j s'.blocks ≡ (if h == j then none else find j s.blocks) = λ j.
      ground (arith, ap (find j) bl, find-remove h j (put h b s.blocks), find-put h j b s.blocks) in
    after_write s s' jobs kind h idx n q q' p
      (λ j. ground (
        arith,
        ap (λ (x : List (ℕ × Block)). count j (keys x)) bl,
        count-keys-remove h j (put h b s.blocks),
        put-Distinct s h b w j,
      ))
      (ap (pend kind) {x = find h s'.blocks} {y = none} (ground (arith, gone h)))
      (λ k j f. elim (Bool-cases (h == j)) [
        | inl e ↦
            absurd (
              ground
                (arith, ap (pend k) {x = find j s'.blocks} {y = none} (ground (arith, gone j))))
        | inr e ↦
            ap (pend k) {x = find j s.blocks} {y = find j s'.blocks} (ground (arith, gone j)) ∙ f
      ])
      w

unmarked_kv :
    (b : Block) (n : ℕ) (r : Bool) (k : Kind)
    → pend k (some (record b { kv_pending = false; kv_bytes = n; kv_ready = r })) ≡ true
    → pend k (some b) ≡ true
unmarked_kv b n r kv f = absurd (ground arith)
unmarked_kv b n r rec f = f

unmarked_rec :
    (b : Block) (n : ℕ) (r : Bool) (k : Kind)
    → pend k (some (record b { rec_pending = false; rec_bytes = n; rec_ready = r })) ≡ true
    → pend k (some b) ≡ true
unmarked_rec b n r kv f = f
unmarked_rec b n r rec f = absurd (ground arith)

write_job-IsSound :
    (s : Store) (jobs : List Job) (kind : Kind) (h idx n size : ℕ)
    → s.queue ≡ write kind h idx n ∷ jobs
    → IsSound s
    → IsSound (write_job (record s { queue = jobs }) kind h n size)
unfolding write_job record_write
write_job-IsSound s jobs kv h idx n size q w = elim (Option-cases (find h s.blocks)) [
  | inl e ↦
      rw (e, record_write)
        (after_write s _ jobs kv h idx n q refl refl w.distinct (ap (pend kv) e) (λ k j f. f) w)
  | inr (b, e) ↦ elim (Bool-cases (size == 0)) [
    | inl z ↦
        rw (e, record_write, z)
          (dropped-IsSound s _ jobs kv h idx n _ q (drop_block-queue _ h) (drop_block-pending _ h)
            (drop_put-blocks _ h _) w)
    | inr z ↦
        rw (e, record_write, z)
          (written-IsSound s _ jobs kv h idx n b _ q refl refl refl e refl (unmarked_kv b size true)
            w)
  ]
]
write_job-IsSound s jobs rec h idx n size q w = elim (Option-cases (find h s.blocks)) [
  | inl e ↦
      rw (e, record_write)
        (after_write s _ jobs rec h idx n q refl refl w.distinct (ap (pend rec) e) (λ k j f. f) w)
  | inr (b, e) ↦ elim (Bool-cases (size == 0)) [
    | inl z ↦
        rw (e, record_write, z)
          (written-IsSound s _ jobs rec h idx n b _ q refl refl refl e refl
            (unmarked_rec b b.rec_bytes b.rec_ready) w)
    | inr z ↦
        rw (e, record_write, z)
          (written-IsSound s _ jobs rec h idx n b _ q refl refl refl e refl
            (unmarked_rec b size true) w)
  ]
]

pub write_next-IsSound :
    (s : Store) (size : ℕ) (jobs : List Job)
    → s.queue ≡ jobs
    → IsSound s
    → IsSound (write_next s size jobs)
unfolding write_next
write_next-IsSound s size [] q w = w
write_next-IsSound s size (manifest ∷ jobs) q w = record {
  distinct = w.distinct;
  accounted = w.accounted ∙ ap queued q ∙ unfold queued in refl;
  flagged = λ k j f. unfold has_job in sym (ap (has_job k j) q) ∙ w.flagged k j f;
}
write_next-IsSound s size (write kind h idx n ∷ jobs) q w =
    write_job-IsSound s jobs kind h idx n size q w
