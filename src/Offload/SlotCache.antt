-- ===== src/Offload/SlotCache.antt =====
-- `SlotCache` of python/maxtoken/mlx_backend/offload.py, over the bytes `W` of one expert and the
-- disk `weights`, which the code reads through `ExpertStore`. The device arrays `buffers`, `lut`
-- and `owner` are functions of their index; -1 in `owner` is `none`. `inflight` holds the experts
-- with a pending read: what such a read returns is what a fresh read returns.
pub mod Coherent
pub mod Acquire
pub mod Resident
pub mod Resize
use maxtoken.Prelude.{
  ℕ, ◌+◌, ◌-◌, ◌*◌, ◌%◌, List, [], ◌∷◌, ◌++◌, Option, none, some, Bool, true, false, ltb, leb, ◌==◌,
  ◌||◌, not, if◌then◌else◌, length, find, has, put, contains, to_bit,
}
use maxtoken.Offload.Lru.{LruTracker, reset, lookup, assign, most_recent}

infixl 5 ◌>>=◌
abbrev pub ◌>>=◌ {ℓ κ} : {A : Type ℓ} {B : Type κ} → Option A → (A → Option B) → Option B
none >>= f = none
some a >>= f = f a

abbrev pub update {ℓ} : {V : Type ℓ} → (ℕ → V) → ℕ → V → ℕ → V
update f i v j = if i == j then v else f j

-- `array[indices] = values`, index by index.
unfoldable pub scatter {ℓ} : {V : Type ℓ} → (ℕ → V) → List ℕ → List V → ℕ → V
scatter f (i ∷ is) (v ∷ vs) = scatter (update f i v) is vs
scatter f _ _ = f

pub record SlotCache (W : Type 0) : Type 0 where
  pub lru : LruTracker
  pub buffers : ℕ → W
  pub lut : ℕ → ℕ
  pub owner : ℕ → Option ℕ
  pub hits : ℕ
  pub misses : ℕ
  pub inflight : List ℕ
  pub last_miss : List (ℕ × ℕ)
  pub token_tick : ℕ

-- `_ADMIT_WINDOW`
abbrev pub admit_window : ℕ
admit_window = 64

-- `self._inflight.pop(next(iter(self._inflight)))` when too many reads are in flight
unfoldable pub make_way : ℕ → List ℕ → List ℕ
make_way n [] = []
make_way n (e ∷ es) = if ltb (4 * n) (length (e ∷ es)) then es else e ∷ es

-- The loop of `install` over `missing`: the tracker, `slots` and `assigned`.
unfoldable pub assign_loop :
    LruTracker → List ℕ → List (ℕ × ℕ) → List ℕ → Option (LruTracker × List ℕ × List (ℕ × ℕ))
assign_loop t slots assigned [] = some (t, slots, assigned)
assign_loop t slots assigned (e ∷ es) = elim (assign t e) [
  | none ↦ none
  | some (t', slot) ↦ assign_loop t' (slots ++ slot ∷ []) (put e slot assigned) es
]

-- `fetch_stacked` pops the pending reads of `missing`.
unfoldable pub drop_reads : List ℕ → List ℕ → List ℕ
drop_reads missing [] = []
drop_reads missing (e ∷ es) =
    let rest = drop_reads missing es in if contains e missing then rest else e ∷ rest

unfoldable pub owners : List ℕ → List (Option ℕ)
owners [] = []
owners (e ∷ es) = some e ∷ owners es

-- `hits.update(assigned)`
unfoldable pub merge : List (ℕ × ℕ) → List (ℕ × ℕ) → List (ℕ × ℕ)
merge d [] = d
merge d ((k, v) ∷ e) = merge (put k v d) e

-- `last is not None and now - last <= self._ADMIT_WINDOW`; a stamp is never ahead of the tick.
unfoldable pub recurring : ℕ → Option ℕ → Bool
recurring now none = false
recurring now (some last) = leb (now - last) admit_window

-- The loop of `split_admission` over `_last_miss`, `admit` and `inline`, at the tick `now`.
unfoldable pub split_loop :
    ℕ → List (ℕ × ℕ) → List ℕ → List ℕ → List ℕ → List (ℕ × ℕ) × List ℕ × List ℕ
split_loop now last_miss admit inline [] = (last_miss, admit, inline)
split_loop now last_miss admit inline (e ∷ es) =
    let again = recurring now (find e last_miss) in
    split_loop now (put e now last_miss) (if again then admit ++ e ∷ [] else admit)
      (if again then inline else inline ++ e ∷ []) es

-- `{e: t for e, t in self._last_miss.items() if t >= horizon}`
unfoldable pub fresh : ℕ → List (ℕ × ℕ) → List (ℕ × ℕ)
fresh horizon [] = []
fresh horizon ((e, t) ∷ d) =
    let rest = fresh horizon d in if leb horizon t then (e, t) ∷ rest else rest

module _ {W : Type 0} where
  -- `__init__` and `_alloc`; `zero_bytes` is what `mx.zeros` holds.
  unfoldable pub create : W → ℕ → SlotCache W
  create zero_bytes n = record {
    lru = reset n;
    buffers = λ _. zero_bytes;
    lut = λ _. 0;
    owner = λ _. none;
    hits = 0;
    misses = 0;
    inflight = [];
    last_miss = [];
    token_tick = 0;
  }

  -- An assertion that fails is `none`.
  unfoldable pub touch : SlotCache W → List ℕ → Option (SlotCache W)
  touch c experts =
      let (t, found, missing) = lookup c.lru experts in
      elim missing [ [] ↦ some (record c { lru = t; hits = c.hits + length found }) | _ ↦ none ]

  unfoldable pub prefetch : SlotCache W → List ℕ → SlotCache W
  prefetch c [] = c
  prefetch c (e ∷ es) =
      prefetch
        (if has e c.lru.slot_of || contains e c.inflight
          then c
          else record c { inflight = make_way c.lru.num_slots c.inflight ++ e ∷ [] })
        es

  unfoldable pub fetched : (ℕ → W) → List ℕ → List W
  fetched weights [] = []
  fetched weights (e ∷ es) = weights e ∷ fetched weights es

  unfoldable pub install : (ℕ → W) → SlotCache W → List ℕ → Option (SlotCache W × List (ℕ × ℕ))
  unfolding fetched owners
  install weights c missing = do
    (t, slots, assigned) ← assign_loop c.lru [] [] missing
    some (
      record c {
        lru = t;
        inflight = drop_reads missing c.inflight;
        buffers = scatter c.buffers slots (fetched weights missing);
        owner = scatter c.owner slots (owners missing);
        lut = scatter c.lut missing slots;
      },
      assigned,
    )

  -- `if missing: hits.update(self.install(missing))`
  unfoldable pub fetch_missing :
      (ℕ → W) → SlotCache W → List (ℕ × ℕ) → List ℕ → Option (SlotCache W × List (ℕ × ℕ))
  fetch_missing weights c found [] = some (c, found)
  fetch_missing weights c found (e ∷ es) = do
    (c', assigned) ← install weights c (e ∷ es)
    some (c', merge found assigned)

  unfoldable pub acquire : (ℕ → W) → SlotCache W → List ℕ → Option (SlotCache W × List (ℕ × ℕ))
  acquire weights c experts =
      let (t, found, missing) = lookup c.lru experts in
      fetch_missing weights
        (record c { lru = t; hits = c.hits + length found; misses = c.misses + length missing })
        found missing

  unfoldable pub split_admission : SlotCache W → List ℕ → SlotCache W × List ℕ × List ℕ
  split_admission c experts =
      let (last_miss, admit, inline) = split_loop c.token_tick c.last_miss [] [] experts in
      (record c { last_miss = last_miss }, admit, inline)

  -- The horizon is not negative: it is taken at multiples of 512 above 0.
  unfoldable pub decay_streaks : SlotCache W → SlotCache W
  decay_streaks c =
      let tick = c.token_tick + 1 in
      if tick % (8 * admit_window) == 0
      then record c { token_tick = tick; last_miss = fresh (tick - 2 * admit_window) c.last_miss }
      else record c { token_tick = tick }

  -- The loop of `resize` over `keep`: the expert's bytes move from its old slot to its new one.
  unfoldable pub move_loop : (ℕ → W) → SlotCache W → List (ℕ × ℕ) → Option (SlotCache W)
  move_loop old c [] = some c
  move_loop old c ((expert, old_slot) ∷ keep) = elim (assign c.lru expert) [
    | none ↦ none
    | some (t, slot) ↦
        move_loop old
          (record c {
            lru = t;
            buffers = update c.buffers slot (old old_slot);
            owner = update c.owner slot (some expert);
            lut = update c.lut expert slot;
          })
          keep
  ]

  unfoldable pub resize : W → SlotCache W → ℕ → Option (SlotCache W)
  resize zero_bytes c n =
      move_loop c.buffers
        (record c {
          lru = reset n;
          inflight = [];
          buffers = λ _. zero_bytes;
          owner = λ _. none;
          lut = λ _. 0;
        })
        (most_recent c.lru n)
