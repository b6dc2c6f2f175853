-- ===== src/Detokenize/Waves/Split.antt =====
-- How the messages of python/maxtoken/tokenizer/detokenize.py are split in a wave and the later ones.
use maxtoken.Prelude.{
  ℕ, ◌≤◌, ◌+◌, List, [], ◌∷◌, ◌++◌, Option, none, some, Bool, true, false, ◌==◌, ◌≡◌, refl, ap, sym,
  ◌∙◌, inl, inr, ◌⊎◌, Bool-cases, find, arith, count, eqb→eq, contains, length,
}
use mathlib.Core.Option.{none-ne-some}
use mathlib.Core.Path.{subst}
use maxtoken.Detokenize.{DetokenizeMsg, DecodeStatus, advance}
use maxtoken.Detokenize.Waves.{Job, split, indices}
use maxtoken.Detokenize.Waves.Own.{tags, own, uids, own_absent}

differs :
    (k u : ℕ) (seen : List ℕ) → contains k seen ≡ false → contains u seen ≡ true → (k == u) ≡ false
differs k u seen h there = elim (Bool-cases (k == u)) [
  | inl e ↦ absurd (ground (arith, subst (λ x. contains x seen ≡ false) (eqb→eq k u e) h))
  | inr e ↦ e
]

tags_absent : (i : ℕ) (jobs : List Job) → count i (indices jobs) ≡ 0 → find i (tags jobs) ≡ none
tags_absent i [] h = refl
tags_absent i ((j, msg) ∷ jobs) h = ground (arith, tags_absent i jobs)

-- A request that is seen already has no message in the wave, and no request has two.
split_seen :
    (u : ℕ) (seen : List ℕ) (jobs : List Job)
    → contains u seen ≡ true
    → count u (uids (split seen jobs).0) ≡ 0
unfolding split
split_seen u seen [] there = refl
split_seen u seen ((i, msg) ∷ jobs) there = elim (Bool-cases (contains msg.uid seen)) [
  | inl e ↦ rw e (split_seen u seen jobs there)
  | inr e ↦
      let other : (msg.uid == u) ≡ false = differs msg.uid u seen e there in
      rw (e, other) (ground (arith, split_seen u (msg.uid ∷ seen) jobs (rw (other, there))))
]

pub split_once : (u : ℕ) (seen : List ℕ) (jobs : List Job) → count u (uids (split seen jobs).0) ≤ 1
unfolding split
split_once u seen [] = omega arith
split_once u seen ((i, msg) ∷ jobs) = elim (Bool-cases (contains msg.uid seen)) [
  | inl e ↦ rw e (split_once u seen jobs)
  | inr e ↦ elim (Bool-cases (msg.uid == u)) [
    | inl g ↦ rw (e, g) (omega (arith, split_seen u (msg.uid ∷ seen) jobs (rw g)))
    | inr g ↦ rw (e, g) (omega (arith, split_once u (msg.uid ∷ seen) jobs))
  ]
]

pub split-indices :
    (i : ℕ) (seen : List ℕ) (jobs : List Job)
    → count i (indices (split seen jobs).0) + count i (indices (split seen jobs).1)
      ≡ count i (indices jobs)
unfolding split
split-indices i seen [] = omega arith
split-indices i seen ((j, msg) ∷ jobs) = elim (Bool-cases (contains msg.uid seen)) [
  | inl e ↦ rw e (omega (arith, split-indices i seen jobs))
  | inr e ↦ rw e (omega (arith, split-indices i (msg.uid ∷ seen) jobs))
]

pub length-split : (seen : List ℕ) (jobs : List Job) → length (split seen jobs).1 ≤ length jobs
unfolding split
length-split seen [] = omega arith
length-split seen ((i, msg) ∷ jobs) = elim (Bool-cases (contains msg.uid seen)) [
  | inl e ↦ rw e (omega (arith, length-split seen jobs))
  | inr e ↦ rw e (omega (arith, length-split (msg.uid ∷ seen) jobs))
]

-- A place's message is in the wave, or among the later ones and nowhere in the wave.
pub split-tags :
    (i u : ℕ) (seen : List ℕ) (jobs : List Job)
    → count i (indices jobs) ≤ 1
    → find i (tags jobs) ≡ some u
    → (find i (tags (split seen jobs).0) ≡ some u)
      ⊎ ((find i (tags (split seen jobs).0) ≡ none) × (find i (tags (split seen jobs).1) ≡ some u))
unfolding split
split-tags i u seen [] once h = absurd (none-ne-some u h)
split-tags i u seen ((j, msg) ∷ jobs) once h = elim (Bool-cases (contains msg.uid seen)) [
  | inl e ↦ elim (Bool-cases (j == i)) [
    | inl g ↦
        rw (e, g)
          (inr (
            tags_absent i (split seen jobs).0 (ground (arith, split-indices i seen jobs)),
            rw g at h,
          ))
    | inr g ↦ rw (e, g) (split-tags i u seen jobs (ground arith) (rw g at h))
  ]
  | inr e ↦ elim (Bool-cases (j == i)) [
    | inl g ↦ rw (e, g) (inl (rw g at h))
    | inr g ↦ rw (e, g) (split-tags i u (msg.uid ∷ seen) jobs (ground arith) (rw g at h))
  ]
]

module _ (decode : List ℕ → List ℕ) (is_eos : ℕ → Bool) where
  abbrev before :
      ℕ × List ℕ → Option DecodeStatus × List (ℕ × List ℕ) → Option DecodeStatus × List (ℕ × List ℕ)
  before entry x = (x.0, entry ∷ x.1)

  abbrev then_own :
      ℕ
      → Option DecodeStatus × List (ℕ × List ℕ)
      → List Job
      → Option DecodeStatus × List (ℕ × List ℕ)
  then_own u x later = ((own decode is_eos u x.0 later).0, x.1 ++ (own decode is_eos u x.0 later).1)

  abbrev own_between :
      ℕ
      → Option DecodeStatus × List (ℕ × List ℕ)
      → ℕ
      → DetokenizeMsg
      → List Job
      → Option DecodeStatus × List (ℕ × List ℕ)
  own_between u x i msg later =
      let done = advance decode is_eos x.0 msg in
      let rest = own decode is_eos u done.0 later in (rest.0, x.1 ++ (i, done.1) ∷ rest.1)

  -- A request's messages in the wave come before its later ones.
  pub split-own :
      (u : ℕ) (o : Option DecodeStatus) (seen : List ℕ) (jobs : List Job)
      → let first = own decode is_eos u o (split seen jobs).0 in
        let later = own decode is_eos u first.0 (split seen jobs).1 in
        own decode is_eos u o jobs ≡ (later.0, first.1 ++ later.1)
  unfolding split own
  split-own u o seen [] = refl
  split-own u o seen ((i, msg) ∷ jobs) = elim (Bool-cases (contains msg.uid seen)) [
    | inl e ↦ elim (Bool-cases (msg.uid == u)) [
      | inl g ↦
          let done = advance decode is_eos o msg in
          let wave = (split seen jobs).0 in
          let later = (split seen jobs).1 in
          let none_there =
            split_seen u seen jobs (subst (λ k. contains k seen ≡ true) (eqb→eq msg.uid u g) e) in
          rw (e, g)
            (ap (λ x. before (i, done.1) x)
                (split-own u done.0 seen jobs
                  ∙ ap (λ x. then_own u x later)
                      (own_absent decode is_eos u done.0 wave none_there))
              ∙ sym (
                  ap (λ x. own_between u x i msg later)
                    (own_absent decode is_eos u o wave none_there)))
      | inr g ↦ rw (e, g) (split-own u o seen jobs)
    ]
    | inr e ↦ elim (Bool-cases (msg.uid == u)) [
      | inl g ↦
          let done = advance decode is_eos o msg in
          rw (e, g) (ap (λ x. before (i, done.1) x) (split-own u done.0 (msg.uid ∷ seen) jobs))
      | inr g ↦ rw (e, g) (split-own u o (msg.uid ∷ seen) jobs)
    ]
  ]
