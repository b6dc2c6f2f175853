-- ===== src/Reasoning/Partial.antt =====
-- The part of a text that is held back because a marker may begin there.
use maxtoken.Prelude.{
  ℕ, zero, suc, ◌-◌, ◌≤◌, ◌<◌, min, max, List, [], ◌∷◌, ◌++◌, ◌==◌, ◌≡◌, refl, inl, inr, leb,
  length, take, All, Bool-cases, arith, length-drop, take-append-drop, append-nil,
}
use maxtoken.Detokenize.{ends_with, partial_stop, hold_from, stop_prefix_holdback}
use maxtoken.Reasoning.{Parser, partial_above, longest_partial, split_trailing_partial, tracked}

partial_stop-le : (text token : List ℕ) (i : ℕ) → partial_stop text token i ≤ i
unfolding partial_stop
partial_stop-le text token zero = omega arith
partial_stop-le text token (suc i) = elim (Bool-cases (ends_with text (take (suc i) token))) [
  | inl y ↦ rw y (omega arith)
  | inr n ↦ rw n (omega (arith, partial_stop-le text token i))
]

partial_above-max :
    (text token : List ℕ) (best i : ℕ)
    → partial_above text token best i ≡ max best (partial_stop text token i)
unfolding partial_above partial_stop
partial_above-max text token best zero = omega arith
partial_above-max text token best (suc i) = elim (Bool-cases (leb (suc i) best)) [
  | inl low ↦ elim (Bool-cases (ends_with text (take (suc i) token))) [
    | inl y ↦ rw (low, y) (let le : suc i ≤ best = ground arith in omega arith)
    | inr n ↦
        rw (low, n)
          (let le : suc i ≤ best = ground arith in omega (arith, partial_stop-le text token i))
  ]
  | inr high ↦ elim (Bool-cases (ends_with text (take (suc i) token))) [
    | inl y ↦ rw (high, y) (let lt : best < suc i = ground arith in omega arith)
    | inr n ↦ rw (high, n) (partial_above-max text token best i)
  ]
]

longest_partial-hold_from :
    (text : List ℕ) (best : ℕ) (tokens : List (List ℕ))
    → longest_partial text best tokens ≡ hold_from text best tokens
unfolding longest_partial hold_from
longest_partial-hold_from text best [] = refl
longest_partial-hold_from text best (token ∷ tokens) =
    rw (partial_above-max text token best (min (length token - 1) (length text))) (
      longest_partial-hold_from text
        (max best (partial_stop text token (min (length token - 1) (length text)))) tokens)

-- The parser holds back exactly as much as the detokenizer would for its tracked markers as stop strings,
-- although its loops stop early.
pub longest_partial-stop_prefix_holdback :
    (text : List ℕ) (tokens : List (List ℕ))
    → longest_partial text 0 tokens ≡ stop_prefix_holdback text tokens
unfolding stop_prefix_holdback
longest_partial-stop_prefix_holdback text tokens = longest_partial-hold_from text 0 tokens

-- What is said and what is held make up the text.
pub split_trailing_partial-append :
    (p : Parser) (text : List ℕ)
    → (split_trailing_partial p text).0 ++ (split_trailing_partial p text).1 ≡ text
unfolding split_trailing_partial
split_trailing_partial-append p text = elim (Bool-cases (longest_partial text 0 (tracked p) == 0)) [
  | inl y ↦ rw y (append-nil text)
  | inr n ↦ rw n (take-append-drop (length text - longest_partial text 0 (tracked p)) text)
]

longest_partial-le :
    (text : List ℕ) (best n : ℕ) (tokens : List (List ℕ))
    → best ≤ n
    → All (λ token. length token ≤ suc n) tokens
    → longest_partial text best tokens ≤ n
unfolding longest_partial
longest_partial-le text best n [] low few = low
longest_partial-le text best n (token ∷ tokens) low (fits, few) =
    let i = min (length token - 1) (length text) in
    longest_partial-le text (partial_above text token best i) n tokens
      (omega (arith, partial_above-max text token best i, partial_stop-le text token i)) few

-- No more is held than the longest tracked marker without its last character.
pub split_trailing_partial-le :
    (p : Parser) (text : List ℕ) (n : ℕ)
    → All (λ token. length token ≤ suc n) (tracked p)
    → length (split_trailing_partial p text).1 ≤ n
unfolding split_trailing_partial
split_trailing_partial-le p text n few =
    elim (Bool-cases (longest_partial text 0 (tracked p) == 0)) [
      | inl y ↦ rw y (omega arith)
      | inr m ↦
          let best = longest_partial text 0 (tracked p) in
          rw m (
            omega (
              arith,
              length-drop (length text - best) text,
              longest_partial-le text 0 n (tracked p) (omega arith) few,
            ))
    ]
