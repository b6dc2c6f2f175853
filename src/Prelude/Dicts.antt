-- ===== src/Prelude/Dicts.antt =====
-- Python's `dict` and `OrderedDict` with number keys: entries in insertion order, one for a key.
use Prim.Native.Nat.{ℕ, ◌+◌, ◌≤◌}
use mathlib.Core.Path.{◌≡◌, refl, ap}
use mathlib.Core.Logic.{inl, inr}
use mathlib.Core.Bool.{Bool, true, false}
use mathlib.Core.List.{List, [], ◌∷◌, ◌++◌}
use mathlib.Core.Option.{Option, none, some}
use native.Mathlib.Omega.{arith}
use maxtoken.Prelude.Tests.{ltb, ◌==◌, to_bit, if◌then◌else◌, Bool-cases}
use maxtoken.Prelude.Lists.{count}

module _ {ℓ} {V : Type ℓ} where
  abbrev pub keys : List (ℕ × V) → List ℕ
  keys [] = []
  keys ((k, v) ∷ d) = k ∷ keys d

  -- `d.get(k)`
  abbrev pub find : ℕ → List (ℕ × V) → Option V
  find k [] = none
  find k ((j, v) ∷ d) = if j == k then some v else find k d

  -- `k in d`
  abbrev pub has : ℕ → List (ℕ × V) → Bool
  has k [] = false
  has k ((j, v) ∷ d) = if j == k then true else has k d

  -- `d.pop(k, None)`
  unfoldable pub remove : ℕ → List (ℕ × V) → List (ℕ × V)
  remove k [] = []
  remove k ((j, v) ∷ d) = let rest = remove k d in if j == k then rest else (j, v) ∷ rest

  -- `d[k] = v`: a key that is there keeps its place, a new one goes to the end.
  unfoldable pub put : ℕ → V → List (ℕ × V) → List (ℕ × V)
  put k v [] = (k, v) ∷ []
  put k v ((j, w) ∷ d) = if j == k then (j, v) ∷ d else (j, w) ∷ put k v d

  pub find-put :
      (k j : ℕ) (v : V) (d : List (ℕ × V))
      → find j (put k v d) ≡ (if k == j then some v else find j d)
  unfolding put
  find-put k j v [] = refl
  find-put k j v ((i, w) ∷ d) = ground (arith, find-put k j v d)

  pub find-remove :
      (k j : ℕ) (d : List (ℕ × V)) → find j (remove k d) ≡ (if k == j then none else find j d)
  unfolding remove
  find-remove k j [] = ground arith
  find-remove k j ((i, w) ∷ d) = ground (arith, find-remove k j d)

  pub find-append :
      (k : ℕ) (d e : List (ℕ × V)) → find k (d ++ e) ≡ (if has k d then find k d else find k e)
  find-append k [] e = refl
  find-append k ((i, w) ∷ d) e = ground (arith, find-append k d e)

  pub has-find : (k : ℕ) (d : List (ℕ × V)) → has k d ≡ false → find k d ≡ none
  has-find k [] h = refl
  has-find k ((i, w) ∷ d) h = ground (arith, has-find k d)

  pub has-some : (k : ℕ) (d : List (ℕ × V)) → has k d ≡ true → (v : V) × (find k d ≡ some v)
  has-some k [] h = absurd (ground arith)
  has-some k ((i, w) ∷ d) h = elim (Bool-cases (i == k)) [
    | inl e ↦ (w, rw e)
    | inr e ↦ rw e (has-some k d (ground arith))
  ]

  pub find-has : (k : ℕ) (d : List (ℕ × V)) (v : V) → find k d ≡ some v → has k d ≡ true
  find-has k [] v h = ground arith
  find-has k ((i, w) ∷ d) v h = ground (arith, find-has k d v)

  pub has-count : (k : ℕ) (d : List (ℕ × V)) → has k d ≡ ltb 0 (count k (keys d))
  has-count k [] = refl
  has-count k ((i, w) ∷ d) = ground (arith, has-count k d)

  -- A new key goes to the end.
  pub put_new : (k : ℕ) (v : V) (d : List (ℕ × V)) → has k d ≡ false → put k v d ≡ d ++ (k, v) ∷ []
  unfolding put
  put_new k v [] h = refl
  put_new k v ((i, w) ∷ d) h = ground (arith, put_new k v d)

  pub remove_absent : (k : ℕ) (d : List (ℕ × V)) → has k d ≡ false → remove k d ≡ d
  unfolding remove
  remove_absent k [] h = refl
  remove_absent k ((i, w) ∷ d) h = ground (arith, remove_absent k d)

  pub has-remove :
      (k j : ℕ) (d : List (ℕ × V)) → has j (remove k d) ≡ (if k == j then false else has j d)
  unfolding remove
  has-remove k j [] = ground arith
  has-remove k j ((i, w) ∷ d) = ground (arith, has-remove k j d)

  pub has-put :
      (k j : ℕ) (v : V) (d : List (ℕ × V)) → has j (put k v d) ≡ (if k == j then true else has j d)
  unfolding put
  has-put k j v [] = refl
  has-put k j v ((i, w) ∷ d) = ground (arith, has-put k j v d)

  pub has-append :
      (k : ℕ) (d e : List (ℕ × V)) → has k (d ++ e) ≡ (if has k d then true else has k e)
  has-append k [] e = refl
  has-append k ((i, w) ∷ d) e = ground (arith, has-append k d e)

  pub keys-append : (d e : List (ℕ × V)) → keys (d ++ e) ≡ keys d ++ keys e
  keys-append [] e = refl
  keys-append ((k, v) ∷ d) e = ap (◌∷◌ k) (keys-append d e)

  pub count-keys-remove :
      (k j : ℕ) (d : List (ℕ × V))
      → count j (keys (remove k d)) ≡ (if k == j then 0 else count j (keys d))
  unfolding remove
  count-keys-remove k j [] = ground arith
  count-keys-remove k j ((i, w) ∷ d) = ground (arith, count-keys-remove k j d)

  pub count-keys-put :
      (k j : ℕ) (v : V) (d : List (ℕ × V))
      → count j (keys (put k v d))
        ≡ (if has k d then count j (keys d) else count j (keys d) + to_bit (k == j))
  unfolding put
  count-keys-put k j v [] = ground arith
  count-keys-put k j v ((i, w) ∷ d) = ground (arith, count-keys-put k j v d)

  -- No key stands twice, as in every dictionary.
  abbrev pub Distinct : List (ℕ × V) → Type 0
  Distinct d = (k : ℕ) → count k (keys d) ≤ 1
