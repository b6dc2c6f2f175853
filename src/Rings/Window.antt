-- ===== src/Rings/Window.antt =====
-- A `deque(maxlen=...)` of records under consecutive numbers, and what a poll from a cursor sees.
use maxtoken.Prelude.{
  ℕ, zero, suc, ◌+◌, ◌-◌, ◌≤◌, ◌≡◌, ◌∙◌, refl, sym, ap, min, max, List, [], ◌∷◌, ◌++◌, length,
  length-append, drop, length-drop, leb, if◌then◌else◌, arith, inl, inr, Bool-cases,
}

module _ {ℓ} {A : Type ℓ} where
  -- `deque.append` with `maxlen`: what does not fit falls off at the left.
  unfoldable pub push : ℕ → A → List A → List A
  push maxlen x xs = drop (length xs + 1 - maxlen) (xs ++ x ∷ [])

  pub length-push :
      (maxlen : ℕ) (x : A) (xs : List A) → length (push maxlen x xs) ≡ min maxlen (length xs + 1)
  unfolding push
  length-push maxlen x xs =
      omega (arith, length-drop (length xs + 1 - maxlen) (xs ++ x ∷ []), length-append xs (x ∷ []))

  pub drop-nil : (n : ℕ) → drop {A = A} n [] ≡ []
  drop-nil zero = refl
  drop-nil (suc n) = refl

  pub drop-drop : (m n : ℕ) (xs : List A) → drop m (drop n xs) ≡ drop (n + m) xs
  drop-drop m zero xs = ap (λ (k : ℕ). drop k xs) (let e : m ≡ 0 + m = omega arith in e)
  drop-drop m (suc n) [] = drop-nil m ∙ sym (drop-nil (suc n + m))
  drop-drop m (suc n) (x ∷ xs) =
      drop-drop m n xs
      ∙ ap (λ (k : ℕ). drop k (x ∷ xs)) (let e : suc (n + m) ≡ suc n + m = omega arith in e)

  drop-append : (n : ℕ) (xs ys : List A) → n ≤ length xs → drop n (xs ++ ys) ≡ drop n xs ++ ys
  drop-append zero xs ys h = refl
  drop-append (suc n) [] ys h = absurd (omega arith)
  drop-append (suc n) (x ∷ xs) ys h = drop-append n xs ys (omega arith)

  -- Pushing onto the newest `maxlen` of a history gives the newest `maxlen` of the longer history.
  pub push-window :
      (maxlen : ℕ) (x : A) (xs : List A)
      → push maxlen x (drop (length xs - maxlen) xs) ≡ drop (length xs + 1 - maxlen) (xs ++ x ∷ [])
  unfolding push
  push-window maxlen x xs =
      ap (drop (length (drop (length xs - maxlen) xs) + 1 - maxlen))
        (sym (drop-append (length xs - maxlen) xs (x ∷ []) (omega arith)))
      ∙ drop-drop (length (drop (length xs - maxlen) xs) + 1 - maxlen) (length xs - maxlen)
          (xs ++ x ∷ [])
      ∙ ap (λ (n : ℕ). drop n (xs ++ x ∷ [])) (omega (arith, length-drop (length xs - maxlen) xs))

module _ {ℓ} {A : Type ℓ} where
  -- `[r for r in buf if r.number >= cursor]`
  unfoldable pub from_cursor : ℕ → List (ℕ × A) → List (ℕ × A)
  from_cursor cursor [] = []
  from_cursor cursor ((i, r) ∷ rs) =
      let rest = from_cursor cursor rs in if leb cursor i then (i, r) ∷ rest else rest

  -- The records are numbered without a gap up to `next`, exclusive.
  abbrev pub IsRun : ℕ → List (ℕ × A) → Type 0
  IsRun next [] = Unit
  IsRun next ((i, r) ∷ rs) = (i + 1 + length rs ≡ next) × IsRun next rs

  IsRun-snoc :
      (next : ℕ) (x : A) (rs : List (ℕ × A))
      → IsRun next rs
      → IsRun (next + 1) (rs ++ (next, x) ∷ [])
  IsRun-snoc next x [] h = (omega arith, tt)
  IsRun-snoc next x ((i, r) ∷ rs) h =
      (omega (arith, h.0, length-append rs ((next, x) ∷ [])), IsRun-snoc next x rs h.1)

  IsRun-drop : (next n : ℕ) (rs : List (ℕ × A)) → IsRun next rs → IsRun next (drop n rs)
  IsRun-drop next zero rs h = h
  IsRun-drop next (suc n) [] h = tt
  IsRun-drop next (suc n) ((i, r) ∷ rs) h = IsRun-drop next n rs h.1

  pub push-IsRun :
      (maxlen next : ℕ) (x : A) (rs : List (ℕ × A))
      → IsRun next rs
      → IsRun (next + 1) (push maxlen (next, x) rs)
  unfolding push
  push-IsRun maxlen next x rs h =
      IsRun-drop (next + 1) (length rs + 1 - maxlen) (rs ++ (next, x) ∷ []) (IsRun-snoc next x rs h)

  -- Of a run, a cursor cuts off the records below it.
  pub from_cursor-drop :
      (cursor next : ℕ) (rs : List (ℕ × A))
      → IsRun next rs
      → from_cursor cursor rs ≡ drop (cursor - (next - length rs)) rs
  unfolding from_cursor
  from_cursor-drop cursor next [] h = sym (drop-nil (cursor - (next - 0)))
  from_cursor-drop cursor next ((i, r) ∷ rs) h = elim (Bool-cases (leb cursor i)) [
    | inl seen ↦
        let z : cursor - (next - length ((i, r) ∷ rs)) ≡ 0 = ground (arith, h.0) in
        let z' : cursor - (next - length rs) ≡ 0 = ground (arith, h.0) in
        rw (seen, z, from_cursor-drop cursor next rs h.1, z')
    | inr old ↦
        let s : cursor - (next - length ((i, r) ∷ rs)) ≡ suc (cursor - (next - length rs)) =
          ground (arith, h.0) in
        rw (old, s) (from_cursor-drop cursor next rs h.1)
  ]

  -- The whole history under its numbers.
  abbrev pub numbered_from : ℕ → List A → List (ℕ × A)
  numbered_from n [] = []
  numbered_from n (r ∷ rs) = (n, r) ∷ numbered_from (suc n) rs

  pub length-numbered_from : (n : ℕ) (rs : List A) → length (numbered_from n rs) ≡ length rs
  length-numbered_from n [] = refl
  length-numbered_from n (r ∷ rs) = ap suc (length-numbered_from (suc n) rs)

  pub numbered_from-append :
      (n : ℕ) (rs : List A) (r : A)
      → numbered_from n (rs ++ r ∷ []) ≡ numbered_from n rs ++ (n + length rs, r) ∷ []
  numbered_from-append n [] r = ap (λ (k : ℕ). (k, r) ∷ []) (let e : n ≡ n + 0 = omega arith in e)
  numbered_from-append n (x ∷ rs) r = ap (◌∷◌ (n, x)) (
      numbered_from-append (suc n) rs r
      ∙ ap (λ (k : ℕ). numbered_from (suc n) rs ++ (k, r) ∷ [])
          (let e : suc n + length rs ≡ n + suc (length rs) = omega arith in e))

  -- A buffer that holds the newest `maxlen` records of a history.
  pub record Window (maxlen next : ℕ) (buf : List (ℕ × A)) (history : List A) : Type ℓ where
    pub newest : buf ≡ drop (length history - maxlen) (numbered_from 0 history)
    pub counted : next ≡ length history
    pub run : IsRun next buf

  pub Window-nil : (maxlen : ℕ) → Window maxlen 0 [] []
  Window-nil maxlen = record { newest = sym (drop-nil (0 - maxlen)); counted = refl; run = tt }

  pub Window-push :
      (maxlen next : ℕ) (buf : List (ℕ × A)) (history : List A) (r : A)
      → Window maxlen next buf history
      → Window maxlen (next + 1) (push maxlen (next, r) buf) (history ++ r ∷ [])
  Window-push maxlen next buf history r w = record {
    newest =
        ap (λ (b : List (ℕ × A)). push maxlen (next, r) b)
          (w.newest
            ∙ ap (λ (n : ℕ). drop (n - maxlen) (numbered_from 0 history))
                (sym (length-numbered_from 0 history)))
        ∙ push-window maxlen (next, r) (numbered_from 0 history)
        ∙ ap (drop (length (numbered_from 0 history) + 1 - maxlen)) (
            ap (λ (k : ℕ). numbered_from 0 history ++ (k, r) ∷ []) (omega (arith, w.counted))
            ∙ sym (numbered_from-append 0 history r))
        ∙ ap (λ (n : ℕ). drop (n - maxlen) (numbered_from 0 (history ++ r ∷ [])))
            (omega (arith, length-numbered_from 0 history, length-append history (r ∷ [])));
    counted = omega (arith, w.counted, length-append history (r ∷ []));
    run = push-IsRun maxlen next r buf w.run;
  }

  -- A poll sees the records from the cursor on, of the newest `maxlen`.
  pub from_cursor-Window :
      (maxlen cursor next : ℕ) (buf : List (ℕ × A)) (history : List A)
      → Window maxlen next buf history
      → from_cursor cursor buf
        ≡ drop (max cursor (length history - maxlen)) (numbered_from 0 history)
  from_cursor-Window maxlen cursor next buf history w =
      from_cursor-drop cursor next buf w.run
      ∙ ap (drop (cursor - (next - length buf))) w.newest
      ∙ drop-drop (cursor - (next - length buf)) (length history - maxlen) (numbered_from 0 history)
      ∙ ap (λ (n : ℕ). drop n (numbered_from 0 history))
          (omega (
            arith,
            w.counted,
            ap length w.newest,
            length-drop (length history - maxlen) (numbered_from 0 history),
            length-numbered_from 0 history,
          ))
