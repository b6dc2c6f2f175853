-- ===== src/Detokenize/Waves/Order.antt =====
-- The waves of python/maxtoken/tokenizer/detokenize.py come to the same as the messages one after the other.
use maxtoken.Prelude.{
  ℕ, suc, List, [], ◌∷◌, Option, none, some, Bool, true, false, ◌==◌, if◌then◌else◌, ◌≡◌, refl, ap,
  sym, ◌∙◌, inl, inr, Bool-cases, find, has, eqb→eq, eqb_refl, length,
}
use mathlib.Core.Option.{some-injective, none-ne-some}
use maxtoken.Detokenize.{DetokenizeMsg, DecodeStatus, advance}
use maxtoken.Detokenize.Waves.{Job, store, messages, indices, paired, one_by_one}
use maxtoken.Detokenize.Waves.Own.{tags, own, find-store, find-place, find-place_own}

pub paired_absent :
    (i : ℕ) (jobs : List Job) (texts : List (List ℕ))
    → find i (tags jobs) ≡ none
    → has i (paired (indices jobs) texts) ≡ false
paired_absent i [] texts h = refl
paired_absent i ((j, msg) ∷ jobs) [] h = refl
paired_absent i ((j, msg) ∷ jobs) (text ∷ texts) h = elim (Bool-cases (j == i)) [
  | inl e ↦ absurd (none-ne-some msg.uid (sym (rw e at h)))
  | inr e ↦ rw e (paired_absent i jobs texts (rw e at h))
]

module _ (decode : List ℕ → List ℕ) (is_eos : ℕ → Bool) where
  pub own_there :
      (u i : ℕ) (o : Option DecodeStatus) (jobs : List Job)
      → find i (tags jobs) ≡ some u
      → has i (own decode is_eos u o jobs).1 ≡ true
  unfolding own
  own_there u i o [] h = absurd (none-ne-some u h)
  own_there u i o ((j, msg) ∷ jobs) h = elim (Bool-cases (j == i)) [
    | inl e ↦
        let same : msg.uid ≡ u = some-injective msg.uid u (rw e at h) in
        let mine : (msg.uid == u) ≡ true = rw same (eqb_refl u) in rw (mine, e)
    | inr e ↦ elim (Bool-cases (msg.uid == u)) [
      | inl g ↦ rw (g, e) (own_there u i (advance decode is_eos o msg).0 jobs (rw e at h))
      | inr g ↦ rw g (own_there u i o jobs (rw e at h))
    ]
  ]

  pub own_not_there :
      (u i : ℕ) (o : Option DecodeStatus) (jobs : List Job)
      → find i (tags jobs) ≡ none
      → has i (own decode is_eos u o jobs).1 ≡ false
  unfolding own
  own_not_there u i o [] h = refl
  own_not_there u i o ((j, msg) ∷ jobs) h = elim (Bool-cases (j == i)) [
    | inl e ↦ absurd (none-ne-some msg.uid (sym (rw e at h)))
    | inr e ↦ elim (Bool-cases (msg.uid == u)) [
      | inl g ↦ rw (g, e) (own_not_there u i (advance decode is_eos o msg).0 jobs (rw e at h))
      | inr g ↦ rw g (own_not_there u i o jobs (rw e at h))
    ]
  ]

  after_advance :
      (u : ℕ) (d : List (ℕ × DecodeStatus)) (msg : DetokenizeMsg)
      → (if msg.uid == u then (advance decode is_eos (find msg.uid d) msg).0 else find u d)
        ≡ (if msg.uid == u then (advance decode is_eos (find u d) msg).0 else find u d)
  after_advance u d msg = elim (Bool-cases (msg.uid == u)) [
    | inl e ↦ rw e (ap (λ k. (advance decode is_eos (find k d) msg).0) (eqb→eq msg.uid u e))
    | inr e ↦ rw e
  ]

  -- One after the other, each request's messages come to what they do by themselves.
  pub one_by_one-status :
      (u : ℕ) (d : List (ℕ × DecodeStatus)) (jobs : List Job)
      → find u (one_by_one decode is_eos d (messages jobs)).0
        ≡ (own decode is_eos u (find u d) jobs).0
  unfolding one_by_one own
  one_by_one-status u d [] = refl
  one_by_one-status u d ((i, msg) ∷ jobs) =
      let done = advance decode is_eos (find msg.uid d) msg in
      one_by_one-status u (store msg.uid done.0 d) jobs
      ∙ ap (λ o. (own decode is_eos u o jobs).0)
          (find-store msg.uid u done.0 d ∙ after_advance u d msg)

  pub one_by_one-placed :
      (u i : ℕ) (d : List (ℕ × DecodeStatus)) (jobs : List Job)
      → find i (tags jobs) ≡ some u
      → find i (paired (indices jobs) (one_by_one decode is_eos d (messages jobs)).1)
        ≡ find i (own decode is_eos u (find u d) jobs).1
  unfolding one_by_one own
  one_by_one-placed u i d [] h = absurd (none-ne-some u h)
  one_by_one-placed u i d ((j, msg) ∷ jobs) h =
      let done = advance decode is_eos (find msg.uid d) msg in
      let after = advance decode is_eos (find u d) msg in
      let rest = own decode is_eos u (if msg.uid == u then after.0 else find u d) jobs in
      elim (Bool-cases (j == i)) [
        | inl e ↦
            let same : msg.uid ≡ u = some-injective msg.uid u (rw e at h) in
            rw e (ap (λ k. some (advance decode is_eos (find k d) msg).1) same)
            ∙ sym (find-place_own i j (msg.uid == u) after.1 rest e (rw same (eqb_refl u)))
        | inr e ↦ rw e (
            one_by_one-placed u i (store msg.uid done.0 d) jobs (rw e at h)
            ∙ ap (λ o. find i (own decode is_eos u o jobs).1)
                (find-store msg.uid u done.0 d ∙ after_advance u d msg)
            ∙ find-place i j (msg.uid == u) after.1 rest e)
      ]

  pub length-one_by_one :
      (d : List (ℕ × DecodeStatus)) (msgs : List DetokenizeMsg)
      → length (one_by_one decode is_eos d msgs).1 ≡ length msgs
  unfolding one_by_one
  length-one_by_one d [] = refl
  length-one_by_one d (msg ∷ msgs) =
      ap suc
        (length-one_by_one (store msg.uid (advance decode is_eos (find msg.uid d) msg).0 d) msgs)
