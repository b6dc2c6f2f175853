-- ===== src/Tests/PrefixCache.antt =====
-- A store with one snapshot of 40 tokens, and room for two such.
use maxtoken.Prelude.{ℕ, ◌≤◌, ◌≡◌, List, [], ◌∷◌, ◌++◌, length, some, true, arith, range_from}
use maxtoken.PrefixCache.{Entry, PrefixStore, lookup, insert, evict}
use maxtoken.PrefixCache.Match.{Outcome, lookup-Outcome}
use maxtoken.PrefixCache.Evict.{Evicted, evict-Evicted}
use maxtoken.PrefixCache.Distinct.{held, IsDistinct, lookup-insert}

abbrev system_prompt : List ℕ
system_prompt = range_from 0 40

abbrev snapshot : ℕ → List ℕ → Entry ℕ
snapshot used tokens = record {
  tokens = tokens;
  states = 1;
  trimmable = true;
  nbytes = 100;
  last_used = used;
}

abbrev store : PrefixStore ℕ
store = record { max_bytes = 250; entries = snapshot 1 system_prompt ∷ []; hits = 0; misses = 0 }

lookup-Outcome_example :
    Outcome 5 store (system_prompt ++ 7 ∷ []) (lookup 5 store (system_prompt ++ 7 ∷ []))
lookup-Outcome_example = lookup-Outcome 5 store (system_prompt ++ 7 ∷ [])

evict-Evicted_example :
    Evicted 150
      (snapshot 3 (9 ∷ []))
      (snapshot 1 (7 ∷ []) ∷ snapshot 2 (8 ∷ []) ∷ [])
      (evict 150 (snapshot 1 (7 ∷ []) ∷ snapshot 2 (8 ∷ []) ∷ snapshot 3 (9 ∷ []) ∷ []))
evict-Evicted_example =
    evict-Evicted 150 (snapshot 1 (7 ∷ []) ∷ snapshot 2 (8 ∷ []) ∷ []) (snapshot 3 (9 ∷ []))

store-IsDistinct : IsDistinct store
unfolding held
store-IsDistinct toks = ground arith

lookup-insert_example :
    (e : Entry ℕ) × (n : ℕ) × ((lookup 7
        (insert 6 store (range_from 50 40) 2 true 100)
        (range_from 50 40 ++ 3 ∷ [])).1
      ≡ some (e, n))
    × (length (range_from 50 40) ≤ n)
lookup-insert_example = lookup-insert 6 store (range_from 50 40) 2 true 100 7 3 [] (omega arith)
