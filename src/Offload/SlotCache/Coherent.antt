-- ===== src/Offload/SlotCache/Coherent.antt =====
-- The device arrays agree with the tracker: what `lut` and `owner` say decides residency exactly.
use maxtoken.Prelude.{
  ℕ, ◌<◌, ◌≡◌, ◌↔◌, ◌∙◌, ap, List, [], ◌∷◌, ◌++◌, none, some, true, false, inl, inr, Bool-cases,
  arith, ◌==◌, if◌then◌else◌, find, has, count, count-append, find-append, has-find, find-has,
  has-some, has-append,
}
use maxtoken.Offload.Lru.{LruTracker, reset}
use maxtoken.Offload.Lru.Valid.{IsValid, slots, slots-append, reset-IsValid}
use maxtoken.Offload.Lru.Assign.{stays, Assigned}
use maxtoken.Offload.SlotCache.{SlotCache, create, update}

count-slots_of_find : (k s : ℕ) (d : List (ℕ × ℕ)) → find k d ≡ some s → 0 < count s (slots d)
count-slots_of_find k s [] h = absurd (ground arith)
count-slots_of_find k s ((j, w) ∷ d) h = ground (arith, count-slots_of_find k s d)

pub record Coherent {W : Type 0} (weights : ℕ → W) (c : SlotCache W) : Type 0 where
  pub valid : IsValid c.lru
  pub resident :
      (e s : ℕ)
      → find e c.lru.slot_of ≡ some s
      → (c.owner s ≡ some e) × (c.lut e ≡ s) × (c.buffers s ≡ weights e)
  pub owned : (s e : ℕ) → s < c.lru.num_slots → c.owner s ≡ some e → find e c.lru.slot_of ≡ some s

module _ {W : Type 0} (weights : ℕ → W) where
  pub create-Coherent : (zero_bytes : W) (n : ℕ) → Coherent weights (create zero_bytes n)
  unfolding create reset
  create-Coherent zero_bytes n = record {
    valid = reset-IsValid n;
    resident = λ e s h. absurd (ground arith);
    owned = λ s e p h. absurd (ground arith);
  }

  -- One expert written into the slot that `assign` chose.
  abbrev pub place : SlotCache W → LruTracker → ℕ → ℕ → SlotCache W
  place c t e s = record c {
    lru = t;
    buffers = update c.buffers s (weights e);
    owner = update c.owner s (some e);
    lut = update c.lut e s;
  }

  module _ (c : SlotCache W) (h : Coherent weights c) {t : LruTracker} {e s : ℕ}
      (absent : has e c.lru.slot_of ≡ false) (a : Assigned c.lru e t s) where
    abbrev pub kept_entries : List (ℕ × ℕ)
    kept_entries = stays c.lru.free c.lru.slot_of

    find-entries :
        (k : ℕ)
        → find k t.slot_of
          ≡ (if has k kept_entries then find k kept_entries else if e == k then some s else none)
    find-entries k = ap (find k) a.entries ∙ find-append k kept_entries ((e, s) ∷ [])

    gone : has e kept_entries ≡ false
    gone = elim (Bool-cases (has e kept_entries)) [
      | inr n ↦ n
      | inl y ↦
          let (w, p) = has-some e kept_entries y in
          absurd (ground (arith, find-has e c.lru.slot_of w (a.kept e w p)))
    ]

    slot_unused : count s (slots kept_entries) ≡ 0
    slot_unused = ground (
      arith,
      a.valid.slots_once s,
      ap slots a.entries,
      slots-append kept_entries ((e, s) ∷ []),
      count-append s (slots kept_entries) (s ∷ []),
    )

    place_resident :
        (k w : ℕ)
        → find k t.slot_of ≡ some w
        → (update c.owner s (some e) w ≡ some k)
          × (update c.lut e s k ≡ w)
          × (update c.buffers s (weights e) w ≡ weights k)
    place_resident k w p = elim (Bool-cases (e == k)) [
      | inl same ↦
          let e' : e ≡ k = ground arith in
          let w' : s ≡ w = ground (arith, find-entries k, gone) in ground arith
      | inr other ↦
          let q : find k kept_entries ≡ some w =
            ground (arith, find-entries k, has-find k kept_entries) in
          let r = h.resident k w (a.kept k w q) in
          let n : (s == w) ≡ false =
            ground (arith, count-slots_of_find k w kept_entries q, slot_unused) in
          ground (arith, r)
    ]

    place_owned :
        (w k : ℕ)
        → w < t.num_slots
        → update c.owner s (some e) w ≡ some k
        → find k t.slot_of ≡ some w
    place_owned w k p q = elim (Bool-cases (s == w)) [
      | inl same ↦ let e' : e ≡ k = ground arith in ground (arith, find-entries k, gone)
      | inr other ↦
          let r : find k c.lru.slot_of ≡ some w =
            h.owned w k (rw (← a.num_slots) p) (ground arith) in
          let f : find k kept_entries ≡ some w = a.given_up k w r (ground arith) in
          ground (arith, find-entries k, find-has k kept_entries w f)
    ]

    -- Writing one new expert keeps the arrays and the tracker in agreement.
    pub place-Coherent : Coherent weights (place c t e s)
    place-Coherent = record { valid = a.valid; resident = place_resident; owned = place_owned }

    pub find-place_self : find e t.slot_of ≡ some s
    find-place_self = ground (arith, find-entries e, gone)

    -- An entry that stays keeps its slot.
    pub kept_find :
        (k w : ℕ) (old' recent : List (ℕ × ℕ))
        → kept_entries ≡ old' ++ recent
        → has k recent ≡ true
        → find k c.lru.slot_of ≡ some w
        → find k t.slot_of ≡ some w
    kept_find k w old' recent split r p =
        let y : has k kept_entries ≡ true = ground (arith, split, has-append k old' recent) in
        let (w', q) = has-some k kept_entries y in ground (arith, find-entries k, a.kept k w' q)

    pub has-place :
        (k : ℕ) → has k c.lru.slot_of ≡ false → (e == k) ≡ false → has k t.slot_of ≡ false
    has-place k n d = elim (Bool-cases (has k t.slot_of)) [
      | inr f ↦ f
      | inl y ↦
          let (w, p) = has-some k t.slot_of y in
          let q : find k kept_entries ≡ some w =
            ground (arith, find-entries k, has-find k kept_entries) in
          absurd (ground (arith, find-has k c.lru.slot_of w (a.kept k w q)))
    ]

  -- In a coherent cache the check that the lazy forward makes after the fact, `owner[lut[e]] == e`
  -- with `lut[e]` in range, holds exactly when the expert is resident, and then slot `lut[e]` holds
  -- its bytes.
  pub validity_check :
      (c : SlotCache W) (e : ℕ)
      → Coherent weights c
      → c.lut e < c.lru.num_slots
      → ((c.owner (c.lut e) ≡ some e) ↔ (has e c.lru.slot_of ≡ true))
        × (c.owner (c.lut e) ≡ some e → c.buffers (c.lut e) ≡ weights e)
  validity_check c e h p = (
    (
      (λ q. find-has e c.lru.slot_of (c.lut e) (h.owned (c.lut e) e p q)),
      λ q. let (s, f) = has-some e c.lru.slot_of q in let r = h.resident e s f in ground (arith, r),
    ),
    λ q. (h.resident e (c.lut e) (h.owned (c.lut e) e p q)).2,
  )
