-- ===== src/PrefixCache.antt =====
-- `PrefixStore` of python/maxtoken/mlx_backend/prefix_cache.py: cache snapshots in memory, matched
-- by the longest shared token prefix. `S` stands for the states of one snapshot, which the store
-- only passes on. `now` is what `time.monotonic` returns. An entry is known by its index.
pub mod Match
pub mod Evict
pub mod Distinct
use maxtoken.Prelude.{
  ℕ, zero, suc, ◌+◌, ◌-◌, min, List, [], ◌∷◌, ◌++◌, length, Option, none, some, Bool, true, false,
  not, ltb, leb, ◌==◌, if◌then◌else◌,
}

-- `MIN_MATCH_TOKENS`
abbrev pub min_match_tokens : ℕ
min_match_tokens = 32

pub record Entry (S : Type 0) : Type 0 where
  pub tokens : List ℕ
  pub states : S
  pub trimmable : Bool
  pub nbytes : ℕ
  pub last_used : ℕ

pub record PrefixStore (S : Type 0) : Type 0 where
  pub max_bytes : ℕ
  pub entries : List (Entry S)
  pub hits : ℕ
  pub misses : ℕ

unfoldable pub common_prefix_len : List ℕ → List ℕ → ℕ
common_prefix_len (x ∷ xs) (y ∷ ys) = if x == y then suc (common_prefix_len xs ys) else 0
common_prefix_len _ _ = 0

-- `np.array_equal`
unfoldable pub array_equal : List ℕ → List ℕ → Bool
array_equal [] [] = true
array_equal (x ∷ xs) (y ∷ ys) = if x == y then array_equal xs ys else false
array_equal _ _ = false

-- How much of the prompt an entry can serve. For the empty prompt the code's cap is -1, and every
-- entry serves nothing, as here.
unfoldable pub usable : {S : Type 0} → List ℕ → Entry S → ℕ
usable toks e =
    let cap = length toks - 1 in
    let common = common_prefix_len e.tokens toks in
    if common == length e.tokens
    then (if e.trimmable then min common cap else if leb common cap then common else 0)
    else if e.trimmable
    then min common cap
    else 0

module _ {S : Type 0} where
  -- The loop of `lookup`: the index of the next entry, the best length and the best entry so far.
  unfoldable pub best_from :
      List ℕ → ℕ → ℕ → Option (ℕ × Entry S) → List (Entry S) → ℕ × Option (ℕ × Entry S)
  best_from toks i best who [] = (best, who)
  best_from toks i best who (e ∷ es) =
      let u = usable toks e in
      let better = ltb best u in
      best_from toks (suc i) (if better then u else best) (if better then some (i, e) else who) es

  -- `entry.last_used = time.monotonic()` on the entry at an index
  unfoldable pub stamp : ℕ → ℕ → List (Entry S) → List (Entry S)
  stamp now i [] = []
  stamp now zero (e ∷ es) = record e { last_used = now } ∷ es
  stamp now (suc i) (e ∷ es) = e ∷ stamp now i es

  unfoldable pub lookup : ℕ → PrefixStore S → List ℕ → PrefixStore S × Option (Entry S × ℕ)
  lookup now store tokens =
      let (best, who) = best_from tokens 0 0 none store.entries in
      elim who [
        | none ↦ (record store { misses = store.misses + 1 }, none)
        | some (i, e) ↦
            if ltb best min_match_tokens
            then (record store { misses = store.misses + 1 }, none)
            else (
              record store { entries = stamp now i store.entries; hits = store.hits + 1 },
              some (record e { last_used = now }, best),
            )
      ]

  unfoldable pub total_bytes : List (Entry S) → ℕ
  total_bytes [] = 0
  total_bytes (e ∷ es) = e.nbytes + total_bytes es

  -- The smallest `last_used` of `e` and of all the entries but the last.
  unfoldable pub oldest : ℕ → List (Entry S) → ℕ
  oldest used [] = used
  oldest used (e ∷ []) = used
  oldest used (e ∷ e' ∷ es) = oldest (min used e.last_used) (e' ∷ es)

  -- `min(entries[:-1], key=last_used)` is the first entry with that stamp. It is taken out, with
  -- its size.
  unfoldable pub take_out : ℕ → List (Entry S) → ℕ × List (Entry S)
  take_out used [] = (0, [])
  take_out used (e ∷ es) =
      let (n, rest) = take_out used es in
      if e.last_used == used then (e.nbytes, es) else (n, e ∷ rest)

  -- The `while` of `_evict`, on fuel: each round takes out one entry.
  unfoldable pub evict_loop : ℕ → ℕ → ℕ → List (Entry S) → List (Entry S)
  evict_loop zero max_bytes total es = es
  evict_loop (suc fuel) max_bytes total [] = []
  evict_loop (suc fuel) max_bytes total (e ∷ []) = e ∷ []
  evict_loop (suc fuel) max_bytes total (e ∷ e' ∷ es) =
      let used = oldest e.last_used (e ∷ e' ∷ es) in
      let (n, rest) = take_out used (e ∷ e' ∷ es) in
      let next = evict_loop fuel max_bytes (total - n) rest in
      if ltb max_bytes total then next else e ∷ e' ∷ es

  unfoldable pub evict : ℕ → List (Entry S) → List (Entry S)
  evict max_bytes es = evict_loop (length es) max_bytes (total_bytes es) es

  -- `[e for e in self.entries if not np.array_equal(e.tokens, toks)]`
  unfoldable pub superseded : List ℕ → List (Entry S) → List (Entry S)
  superseded toks [] = []
  superseded toks (e ∷ es) =
      let rest = superseded toks es in if array_equal e.tokens toks then rest else e ∷ rest

  -- `states` is the snapshot of the live cache, `nbytes` its size.
  unfoldable pub insert : ℕ → PrefixStore S → List ℕ → S → Bool → ℕ → PrefixStore S
  insert now store tokens states trimmable nbytes =
      let entry : Entry S = record {
        tokens = tokens;
        states = states;
        trimmable = trimmable;
        nbytes = nbytes;
        last_used = now;
      } in
      if ltb (length tokens) min_match_tokens then store else record store {
        entries = evict store.max_bytes (superseded tokens store.entries ++ entry ∷ []);
      }
