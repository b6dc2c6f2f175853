-- ===== src/PrefixCache/Distinct.antt =====
-- `insert`: no two snapshots of the same tokens, and a continued prompt finds its snapshot.
use mathlib.Core.Path.{subst}
use maxtoken.Prelude.{
  ℕ, ◌+◌, ◌≤◌, ◌<◌, ◌≡◌, ◌∙◌, refl, sym, ap, ◌⊎◌, List, [], ◌∷◌, ◌++◌, length, length-append, Bool,
  true, false, ltb, to_bit, arith, All, inl, inr, Bool-cases, Option, some,
}
use maxtoken.PrefixCache.{
  Entry, PrefixStore, array_equal, common_prefix_len, usable, superseded, total_bytes, evict,
  insert, lookup, min_match_tokens,
}
use maxtoken.PrefixCache.Match.{Serves, usable-Serves, Outcome, miss, hit, lookup-Outcome}
use maxtoken.PrefixCache.Evict.{Evicts, stop, drop, Evicted, evict-Evicted}

array_equal-eq : (xs ys : List ℕ) → array_equal xs ys ≡ true → xs ≡ ys
unfolding array_equal
array_equal-eq [] [] h = refl
array_equal-eq [] (y ∷ ys) h = cc
array_equal-eq (x ∷ xs) [] h = cc
array_equal-eq (x ∷ xs) (y ∷ ys) h = ground (arith, array_equal-eq xs ys)

common_prefix_len_self : (xs ys : List ℕ) → common_prefix_len xs (xs ++ ys) ≡ length xs
unfolding common_prefix_len
common_prefix_len_self [] ys = refl
common_prefix_len_self (x ∷ xs) ys = ground (arith, common_prefix_len_self xs ys)

All-last {ℓ κ} : {A : Type ℓ} (P : A → Type κ) (xs : List A) (x : A) → All P (xs ++ x ∷ []) → P x
All-last P [] x h = h.0
All-last P (y ∷ xs) x h = All-last P xs x h.1

module _ {S : Type 0} where
  -- How many snapshots cover exactly these tokens.
  unfoldable pub held : List ℕ → List (Entry S) → ℕ
  held toks [] = 0
  held toks (e ∷ es) = to_bit (array_equal e.tokens toks) + held toks es

  held-append :
      (toks : List ℕ) (es fs : List (Entry S)) → held toks (es ++ fs) ≡ held toks es + held toks fs
  unfolding held
  held-append toks [] fs = omega arith
  held-append toks (e ∷ es) fs = omega (arith, held-append toks es fs)

  held-superseded : (t t' : List ℕ) (es : List (Entry S)) → held t' (superseded t es) ≤ held t' es
  unfolding held superseded
  held-superseded t t' [] = omega arith
  held-superseded t t' (e ∷ es) = ground (arith, held-superseded t t' es)

  held-superseded_self : (t : List ℕ) (es : List (Entry S)) → held t (superseded t es) ≡ 0
  unfolding held superseded
  held-superseded_self t [] = refl
  held-superseded_self t (e ∷ es) = ground (arith, held-superseded_self t es)

  held-Evicts :
      {max_bytes : ℕ} {x : Entry S} {front front' : List (Entry S)} (t : List ℕ)
      → Evicts max_bytes x front front'
      → held t front' ≤ held t front
  unfolding held
  held-Evicts t stop = omega arith
  held-Evicts t (drop before victim after split old over rest) = omega (
    arith,
    ap (held t) split,
    held-append t before (victim ∷ after),
    held-append t before after,
    held-Evicts t rest,
  )

  -- The snapshots cover pairwise different tokens.
  abbrev pub IsDistinct : PrefixStore S → Type 0
  IsDistinct store = (toks : List ℕ) → held toks store.entries ≤ 1

  module _ (now : ℕ) (store : PrefixStore S) (tokens : List ℕ) (states : S) (trimmable : Bool)
      (nbytes : ℕ) where
    abbrev new_entry : Entry S
    new_entry = record {
      tokens = tokens;
      states = states;
      trimmable = trimmable;
      nbytes = nbytes;
      last_used = now;
    }

    abbrev after : PrefixStore S
    after = insert now store tokens states trimmable nbytes

    evicted :
        Evicted store.max_bytes new_entry
          (superseded tokens store.entries)
          (evict store.max_bytes (superseded tokens store.entries ++ new_entry ∷ []))
    evicted = evict-Evicted store.max_bytes (superseded tokens store.entries) new_entry

    -- Inserting keeps the snapshots pairwise different.
    pub insert-IsDistinct : IsDistinct store → IsDistinct after
    unfolding insert held
    insert-IsDistinct h t = elim (Bool-cases (ltb (length tokens) min_match_tokens)) [
      | inl short ↦ rw short (h t)
      | inr long ↦
          let total : held t (evicted.front' ++ new_entry ∷ [])
              ≡ held t evicted.front' + held t (new_entry ∷ []) =
            held-append t evicted.front' (new_entry ∷ []) in
          let less = held-Evicts t evicted.trace in
          let small = held-superseded tokens t store.entries in
          rw (long, evicted.keeps_newest)
            (elim (Bool-cases (array_equal tokens t)) [
              | inl same ↦
                  let e : tokens ≡ t = array_equal-eq tokens t same in
                  let gone : held t (superseded tokens store.entries) ≡ 0 =
                    ap (λ (u : List ℕ). held u (superseded tokens store.entries)) (sym e)
                    ∙ held-superseded_self tokens store.entries in
                  ground (arith, total, less, gone)
              | inr other ↦ ground (arith, total, less, small, h t)
            ])
    ]

    -- After an insert of 32 tokens or more the store is within its budget, or holds the new snapshot
    -- alone.
    pub insert_fits :
        min_match_tokens ≤ length tokens
        → (total_bytes after.entries ≤ store.max_bytes) ⊎ (after.entries ≡ new_entry ∷ [])
    unfolding insert
    insert_fits long =
        let b : ltb (length tokens) min_match_tokens ≡ false = ground arith in
        rw b (elim evicted.fits [
          | inr fits ↦ inl fits
          | inl alone ↦
              inr (evicted.keeps_newest ∙ ap (λ (f : List (Entry S)). f ++ new_entry ∷ []) alone)
        ])

    newest_last :
        min_match_tokens ≤ length tokens → after.entries ≡ evicted.front' ++ new_entry ∷ []
    unfolding insert
    newest_last long =
        let b : ltb (length tokens) min_match_tokens ≡ false = ground arith in
        rw b evicted.keeps_newest

    usable_new : (y : ℕ) (ys : List ℕ) → usable (tokens ++ y ∷ ys) new_entry ≡ length tokens
    unfolding usable
    usable_new y ys =
        ground (arith, common_prefix_len_self tokens (y ∷ ys), length-append tokens (y ∷ ys))

    found :
        (y : ℕ) (ys : List ℕ)
        → min_match_tokens ≤ length tokens
        → {later : ℕ} {r : PrefixStore S × Option (Entry S × ℕ)}
        → Outcome later after (tokens ++ y ∷ ys) r
        → (e : Entry S) × (n : ℕ) × (r.1 ≡ some (e, n)) × (length tokens ≤ n)
    found y ys long (miss none_serves) =
        let toks = tokens ++ y ∷ ys in
        let offered = usable_new y ys in
        let low =
          All-last (λ e. (m : ℕ) → Serves toks e m → m < 32) evicted.front' new_entry
            (subst (All (λ e. (m : ℕ) → Serves toks e m → m < 32)) (newest_last long)
              none_serves) in
        let served = usable-Serves toks new_entry (omega (arith, offered, long)) in
        let below = low (usable toks new_entry) served in absurd (omega (arith, below, offered))
    found y ys long {later} (hit i e n at enough serves best) =
        let toks = tokens ++ y ∷ ys in
        let offered = usable_new y ys in
        let top =
          All-last (λ f. (m : ℕ) → Serves toks f m → m ≤ n) evicted.front' new_entry
            (subst (All (λ f. (m : ℕ) → Serves toks f m → m ≤ n)) (newest_last long) best) in
        let served = usable-Serves toks new_entry (omega (arith, offered, long)) in
        let above = top (usable toks new_entry) served in
        (record e { last_used = later }, n, refl, omega (arith, above, offered))

    -- After an insert of 32 tokens or more, a prompt that continues those tokens is a hit, and the
    -- hit covers all of them.
    pub lookup-insert :
        (later y : ℕ) (ys : List ℕ)
        → min_match_tokens ≤ length tokens
        → (e : Entry S) × (n : ℕ) × ((lookup later after (tokens ++ y ∷ ys)).1 ≡ some (e, n))
          × (length tokens ≤ n)
    lookup-insert later y ys long = found y ys long (lookup-Outcome later after (tokens ++ y ∷ ys))
