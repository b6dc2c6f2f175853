-- ===== src/Detokenize/Waves/Batched.antt =====
-- A batch of messages of python/maxtoken/tokenizer/detokenize.py against the same messages one after the other.
use maxtoken.Prelude.{
  ℕ, zero, suc, ◌≤◌, ◌<◌, ◌+◌, List, [], ◌∷◌, some, Bool, ◌==◌, if◌then◌else◌, ◌≡◌, refl, ap, sym,
  ◌∙◌, inl, inr, Bool-cases, find, has, find-append, has-some, find-has, arith, count, length,
}
use maxtoken.Detokenize.{DetokenizeMsg, DecodeStatus}
use maxtoken.Detokenize.Waves.{
  Job, detokenize_wave, messages, indices, paired, enumerate, split, run_waves, collect, text_or,
  detokenize, one_by_one,
}
use maxtoken.Detokenize.Waves.Own.{tags, own}
use maxtoken.Detokenize.Waves.Split.{split_once, split-indices, length-split, split-tags, split-own}
use maxtoken.Detokenize.Waves.Once.{wave-status, wave-placed}
use maxtoken.Detokenize.Waves.Order.{
  paired_absent, own_there, own_not_there, one_by_one-status, one_by_one-placed, length-one_by_one,
}

collect-ext :
    (p q : List (ℕ × List ℕ)) (n k : ℕ)
    → ((i : ℕ) → n ≤ i → i < n + k → find i p ≡ find i q)
    → collect p n k ≡ collect q n k
unfolding collect
collect-ext p q n zero same = refl
collect-ext p q n (suc k) same =
    ap (λ o. text_or o ∷ collect p (suc n) k) (same n (omega arith) (omega arith))
    ∙ ap (λ r. text_or (find n q) ∷ r)
        (collect-ext p q (suc n) k (λ i low high. same i (omega arith) (omega arith)))

messages-enumerate : (n : ℕ) (msgs : List DetokenizeMsg) → messages (enumerate n msgs) ≡ msgs
messages-enumerate n [] = refl
messages-enumerate n (msg ∷ msgs) = ap (λ r. msg ∷ r) (messages-enumerate (suc n) msgs)

length-enumerate : (n : ℕ) (msgs : List DetokenizeMsg) → length (enumerate n msgs) ≡ length msgs
length-enumerate n [] = refl
length-enumerate n (msg ∷ msgs) = ap suc (length-enumerate (suc n) msgs)

count-enumerate :
    (i n : ℕ) (msgs : List DetokenizeMsg)
    → (count i (indices (enumerate n msgs)) ≤ 1)
      × (i < n → count i (indices (enumerate n msgs)) ≡ 0)
count-enumerate i n [] = (omega arith, λ h. refl)
count-enumerate i n (msg ∷ msgs) =
    let rest = count-enumerate i (suc n) msgs in
    elim (Bool-cases (n == i)) [
      | inl e ↦ rw e (omega (arith, rest.1 (ground arith)), λ h. ground arith)
      | inr e ↦ rw e (omega (arith, rest.0), λ h. omega (arith, rest.1 (omega arith)))
    ]

tags-enumerate :
    (i n : ℕ) (msgs : List DetokenizeMsg)
    → n ≤ i
    → i < n + length msgs
    → (u : ℕ) × (find i (tags (enumerate n msgs)) ≡ some u)
tags-enumerate i n [] low high = absurd (omega arith)
tags-enumerate i n (msg ∷ msgs) low high = elim (Bool-cases (n == i)) [
  | inl e ↦ (msg.uid, rw e)
  | inr e ↦ rw e (tags-enumerate i (suc n) msgs (ground arith) (ground arith))
]

-- The texts of a batch in order are the texts.
collect-paired :
    (n : ℕ) (msgs : List DetokenizeMsg) (texts : List (List ℕ))
    → length texts ≡ length msgs
    → collect (paired (indices (enumerate n msgs)) texts) n (length msgs) ≡ texts
unfolding collect
collect-paired n [] [] len = refl
collect-paired n [] (t ∷ texts) len = absurd (omega arith)
collect-paired n (msg ∷ msgs) [] len = absurd (omega arith)
collect-paired n (msg ∷ msgs) (t ∷ texts) len =
    let rest = paired (indices (enumerate (suc n) msgs)) texts in
    let here : find n ((n, t) ∷ rest) ≡ some t = ground arith in
    ap (λ o. text_or o ∷ collect ((n, t) ∷ rest) (suc n) (length msgs)) here
    ∙ ap (λ r. t ∷ r)
        (collect-ext ((n, t) ∷ rest) rest (suc n) (length msgs) (λ i low high. ground arith)
          ∙ collect-paired (suc n) msgs texts (omega arith))

shorter :
    (i : ℕ) (msg : DetokenizeMsg) (jobs : List Job)
    → length (split [] ((i, msg) ∷ jobs)).1 ≤ length jobs
unfolding split
shorter i msg jobs = length-split (msg.uid ∷ []) jobs

module _ (decode : List ℕ → List ℕ) (is_eos : ℕ → Bool) where
  run_waves-status :
      (fuel u : ℕ) (d : List (ℕ × DecodeStatus)) (jobs : List Job)
      → length jobs ≤ fuel
      → find u (run_waves decode is_eos fuel d jobs).0 ≡ (own decode is_eos u (find u d) jobs).0
  unfolding run_waves own
  run_waves-status zero u d [] enough = refl
  run_waves-status zero u d (job ∷ jobs) enough = absurd (omega arith)
  run_waves-status (suc fuel) u d [] enough = refl
  run_waves-status (suc fuel) u d ((i, msg) ∷ jobs) enough =
      let parts = split [] ((i, msg) ∷ jobs) in
      let d' = (detokenize_wave decode is_eos d (messages parts.0)).0 in
      run_waves-status fuel u d' parts.1 (omega (arith, shorter i msg jobs))
      ∙ ap (λ o. (own decode is_eos u o parts.1).0)
          (wave-status decode is_eos u d parts.0 (split_once u [] ((i, msg) ∷ jobs)))
      ∙ sym (ap (λ x. x.0) (split-own decode is_eos u (find u d) [] ((i, msg) ∷ jobs)))

  run_waves-placed :
      (fuel u i : ℕ) (d : List (ℕ × DecodeStatus)) (jobs : List Job)
      → length jobs ≤ fuel
      → ((k : ℕ) → count k (indices jobs) ≤ 1)
      → find i (tags jobs) ≡ some u
      → find i (run_waves decode is_eos fuel d jobs).1
        ≡ find i (own decode is_eos u (find u d) jobs).1
  unfolding run_waves own
  run_waves-placed zero u i d [] enough once there = refl
  run_waves-placed zero u i d (job ∷ jobs) enough once there = absurd (omega arith)
  run_waves-placed (suc fuel) u i d [] enough once there = refl
  run_waves-placed (suc fuel) u i d ((j, msg) ∷ jobs) enough once there =
      let parts = split [] ((j, msg) ∷ jobs) in
      let wave = detokenize_wave decode is_eos d (messages parts.0) in
      let first = paired (indices parts.0) wave.1 in
      let placed = (run_waves decode is_eos fuel wave.0 parts.1).1 in
      let a = own decode is_eos u (find u d) parts.0 in
      let b = own decode is_eos u a.0 parts.1 in
      let one = split_once u [] ((j, msg) ∷ jobs) in
      let mid : (if has i first then find i first else find i placed)
          ≡ (if has i a.1 then find i a.1 else find i b.1) =
        elim (split-tags i u [] ((j, msg) ∷ jobs) (once i) there) [
          | inl w ↦
              let in_own = own_there decode is_eos u i (find u d) parts.0 w in
              let same = wave-placed decode is_eos u i d parts.0 one w in
              let (text, found) = has-some i a.1 in_own in
              let in_first = find-has i first text (same ∙ found) in rw (in_own, in_first) same
          | inr (gone, w) ↦
              let out_own = own_not_there decode is_eos u i (find u d) parts.0 gone in
              let out_first = paired_absent i parts.0 wave.1 gone in
              rw (out_own, out_first)
                (run_waves-placed fuel u i wave.0 parts.1 (omega (arith, shorter j msg jobs))
                    (λ k. omega (arith, split-indices k [] ((j, msg) ∷ jobs), once k)) w
                  ∙ ap (λ o. find i (own decode is_eos u o parts.1).1)
                      (wave-status decode is_eos u d parts.0 one))
        ] in
      find-append i first placed
      ∙ mid
      ∙ sym (find-append i a.1 b.1)
      ∙ sym (ap (λ x. find i x.1) (split-own decode is_eos u (find u d) [] ((j, msg) ∷ jobs)))

  -- A batch of messages, with any number of them for a request, is sent the same texts in the same order as the
  -- messages one after the other, and leaves each request with the same decoding status, whatever the statuses
  -- before.
  pub detokenize-one_by_one :
      (d : List (ℕ × DecodeStatus)) (msgs : List DetokenizeMsg)
      → ((detokenize decode is_eos d msgs).1 ≡ (one_by_one decode is_eos d msgs).1)
        × ((u : ℕ)
            → find u (detokenize decode is_eos d msgs).0
              ≡ find u (one_by_one decode is_eos d msgs).0)
  unfolding detokenize
  detokenize-one_by_one d msgs =
      let jobs = enumerate 0 msgs in
      let n = length msgs in
      let waves = run_waves decode is_eos n d jobs in
      let enough = length-enumerate 0 msgs in
      let back : one_by_one decode is_eos d (messages jobs) ≡ one_by_one decode is_eos d msgs =
        ap (one_by_one decode is_eos d) (messages-enumerate 0 msgs) in
      (
        collect-ext waves.1 (paired (indices jobs) (one_by_one decode is_eos d (messages jobs)).1) 0
              n
              (λ i low high.
                let (u, there) = tags-enumerate i 0 msgs low high in
                run_waves-placed n u i d jobs (omega (arith, enough))
                  (λ k. (count-enumerate k 0 msgs).0) there
                ∙ sym (one_by_one-placed decode is_eos u i d jobs there))
            ∙ ap (λ x. collect (paired (indices jobs) x.1) 0 n) back
            ∙ collect-paired 0 msgs (one_by_one decode is_eos d msgs).1
                (length-one_by_one decode is_eos d msgs),
        λ u.
            run_waves-status n u d jobs (omega (arith, enough))
            ∙ sym (one_by_one-status decode is_eos u d jobs)
            ∙ ap (λ x. find u x.0) back,
      )
