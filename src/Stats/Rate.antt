-- ===== src/Stats/Rate.antt =====
-- The sliding window of the throughput.
use maxtoken.Prelude.{
  ℕ, ◌+◌, ◌-◌, ◌≤◌, ◌≡◌, refl, sym, ◌∙◌, List, [], ◌∷◌, Option, none, some, inl, inr, Bool-cases,
  ltb, if◌then◌else◌, arith, All,
}
use maxtoken.Stats.{Tracker, trim, tokens_in, rate_of, decode_tps}

-- The samples stand in the order of their times, none after `now`.
abbrev pub IsTimed : ℕ → List (ℕ × ℕ) → Type 0
IsTimed now [] = Unit
IsTimed now ((t, n) ∷ w) = (t ≤ now) × All (λ s. t ≤ s.0) w × IsTimed now w

-- The tokens of the samples that are no older than `cutoff`.
abbrev pub recent_tokens : ℕ → List (ℕ × ℕ) → ℕ
recent_tokens cutoff [] = 0
recent_tokens cutoff ((t, n) ∷ w) = (if ltb t cutoff then 0 else n) + recent_tokens cutoff w

All-recent :
    (cutoff t : ℕ) (w : List (ℕ × ℕ))
    → cutoff ≤ t
    → All (λ s. t ≤ s.0) w
    → recent_tokens cutoff w ≡ tokens_in w
unfolding tokens_in
All-recent cutoff t [] h k = refl
All-recent cutoff t ((u, n) ∷ w) h k = ground (arith, All-recent cutoff t w h k.1)

pub tokens_in-trim :
    (cutoff now : ℕ) (w : List (ℕ × ℕ))
    → IsTimed now w
    → tokens_in (trim cutoff w) ≡ recent_tokens cutoff w
unfolding trim tokens_in
tokens_in-trim cutoff now [] h = refl
tokens_in-trim cutoff now ((t, n) ∷ w) h = elim (Bool-cases (ltb t cutoff)) [
  | inl old ↦ rw old (ground (arith, tokens_in-trim cutoff now w h.2))
  | inr new ↦ rw new (ground (arith, All-recent cutoff t w (ground arith) h.1))
]

trim-bounds :
    (cutoff now : ℕ) (w : List (ℕ × ℕ))
    → IsTimed now w
    → All (λ s. (cutoff ≤ s.0) × (s.0 ≤ now)) (trim cutoff w)
unfolding trim
trim-bounds cutoff now [] h = tt
trim-bounds cutoff now ((t, n) ∷ w) h = elim (Bool-cases (ltb t cutoff)) [
  | inl old ↦ rw old (trim-bounds cutoff now w h.2)
  | inr new ↦ let young : cutoff ≤ t = ground arith in rw new ((young, h.0), go young w h.1 h.2)
]
  where
    go :
        cutoff ≤ t
        → (v : List (ℕ × ℕ)) → All (λ s. t ≤ s.0) v
        → IsTimed now v
        → All (λ s. (cutoff ≤ s.0) × (s.0 ≤ now)) v
    go y [] k i = tt
    go y (s ∷ v) k i = ((omega arith, i.0), go y v k.1 i.2)

-- What a poll reports: tokens and ticks.
abbrev pub Reports : ℕ → ℕ → List (ℕ × ℕ) → Option (ℕ × ℕ) → Type 0
Reports window_s now samples none = recent_tokens (now - window_s) samples ≡ 0
Reports window_s now samples (some (tokens, span)) =
    (tokens ≡ recent_tokens (now - window_s) samples) × (span ≤ window_s)

-- Of samples in the order of their times, a poll reports no rate, and then no token falls into the
-- window, or the tokens of exactly the samples of the last `window_s` ticks, over a span of at most
-- that many ticks.
pub decode_tps_lem :
    (s : Tracker) (now : ℕ)
    → IsTimed now s.decode
    → Reports s.window_s now s.decode (decode_tps s now).1
unfolding decode_tps rate_of
decode_tps_lem s now h =
    go (trim (now - s.window_s) s.decode) (tokens_in-trim (now - s.window_s) now s.decode h)
      (trim-bounds (now - s.window_s) now s.decode h)
  where
    go :
        (w : List (ℕ × ℕ))
        → tokens_in w ≡ recent_tokens (now - s.window_s) s.decode
        → All (λ p. (now - s.window_s ≤ p.0) × (p.0 ≤ now)) w
        → Reports s.window_s now s.decode (rate_of now w)
    go [] e b = sym e ∙ unfold tokens_in in refl
    go ((t, n) ∷ w) e b = (e, omega arith)
