-- ===== src/Detokenize/Waves/Own.antt =====
-- The messages of one request among those of python/maxtoken/tokenizer/detokenize.py, and what becomes of them.
use maxtoken.Prelude.{
  ℕ, List, [], ◌∷◌, Option, none, some, Bool, true, false, ◌==◌, if◌then◌else◌, ◌≡◌, refl, ap, sym,
  ◌∙◌, inl, inr, Bool-cases, find, find-put, find-remove, arith, count, eqb→eq, eqb_refl,
}
use mathlib.Core.Option.{some-injective, none-ne-some}
use maxtoken.Detokenize.{DetokenizeMsg, DecodeStatus, status_or, take_up, new_text, advance}
use maxtoken.Detokenize.Waves.{Job, store, emit, emit_all, messages, indices, paired}

-- The request of each place.
abbrev pub tags : List Job → List (ℕ × ℕ)
tags [] = []
tags ((i, msg) ∷ jobs) = (i, msg.uid) ∷ tags jobs

-- A message of the request `u` that is or is not the next, in front of what the others come to.
abbrev pub place : {S : Type 0} → Bool → ℕ → List ℕ → S × List (ℕ × List ℕ) → S × List (ℕ × List ℕ)
place is_own i text (s, placed) = (s, if is_own then (i, text) ∷ placed else placed)

module _ (decode : List ℕ → List ℕ) (is_eos : ℕ → Bool) where
  -- What the request's messages come to by themselves.
  unfoldable pub own : ℕ → Option DecodeStatus → List Job → Option DecodeStatus × List (ℕ × List ℕ)
  own u o [] = (o, [])
  own u o ((i, msg) ∷ jobs) =
      let done = advance decode is_eos o msg in
      place (msg.uid == u) i done.1 (own u (if msg.uid == u then done.0 else o) jobs)

-- The same of the second loop of a wave.
unfoldable pub own_emit :
    ℕ → Option DecodeStatus → List Job → List (List ℕ) → Option DecodeStatus × List (ℕ × List ℕ)
own_emit u o [] texts = (o, [])
own_emit u o ((i, msg) ∷ jobs) [] = (o, [])
own_emit u o ((i, msg) ∷ jobs) (text ∷ texts) =
    let done = emit (status_or o) msg text in
    place (msg.uid == u) i done.1 (own_emit u (if msg.uid == u then done.0 else o) jobs texts)

pub find-store :
    (k u : ℕ) (o : Option DecodeStatus) (d : List (ℕ × DecodeStatus))
    → find u (store k o d) ≡ (if k == u then o else find u d)
find-store k u none d = find-remove k u d
find-store k u (some s) d = find-put k u s d

pub advance-emit :
    (decode : List ℕ → List ℕ) (is_eos : ℕ → Bool) (o : Option DecodeStatus) (msg : DetokenizeMsg)
    → let s = take_up is_eos (status_or o) msg in
      advance decode is_eos o msg ≡ emit s msg (new_text decode s)
unfolding advance emit
advance-emit decode is_eos o msg = refl

abbrev pub uids : List Job → List ℕ
uids [] = []
uids ((i, msg) ∷ jobs) = msg.uid ∷ uids jobs

-- A request without a message keeps its status.
pub own_absent :
    (decode : List ℕ → List ℕ) (is_eos : ℕ → Bool) (u : ℕ) (o : Option DecodeStatus)
    (jobs : List Job)
    → count u (uids jobs) ≡ 0
    → own decode is_eos u o jobs ≡ (o, [])
unfolding own
own_absent decode is_eos u o [] none_there = refl
own_absent decode is_eos u o ((i, msg) ∷ jobs) none_there =
    let other : (msg.uid == u) ≡ false = ground arith in
    rw other (own_absent decode is_eos u o jobs (ground arith))

pub own_emit_absent :
    (u : ℕ) (o : Option DecodeStatus) (jobs : List Job) (texts : List (List ℕ))
    → count u (uids jobs) ≡ 0
    → own_emit u o jobs texts ≡ (o, [])
unfolding own_emit
own_emit_absent u o [] texts none_there = refl
own_emit_absent u o ((i, msg) ∷ jobs) [] none_there = refl
own_emit_absent u o ((i, msg) ∷ jobs) (text ∷ texts) none_there =
    let other : (msg.uid == u) ≡ false = ground arith in
    rw other (own_emit_absent u o jobs texts (ground arith))

-- The request's own status is the one that its message moves on.
after_emit :
    (u : ℕ) (d : List (ℕ × DecodeStatus)) (msg : DetokenizeMsg) (text : List ℕ)
    → (if msg.uid == u then (emit (status_or (find msg.uid d)) msg text).0 else find u d)
      ≡ (if msg.uid == u then (emit (status_or (find u d)) msg text).0 else find u d)
after_emit u d msg text = elim (Bool-cases (msg.uid == u)) [
  | inl e ↦ rw e (ap (λ k. (emit (status_or (find k d)) msg text).0) (eqb→eq msg.uid u e))
  | inr e ↦ rw e
]

pub find-place :
    {S : Type 0} (i j : ℕ) (is_own : Bool) (text : List ℕ) (rest : S × List (ℕ × List ℕ))
    → (j == i) ≡ false
    → find i rest.1 ≡ find i (place is_own j text rest).1
find-place i j true text rest e = rw e
find-place i j false text rest e = refl

pub find-place_own :
    {S : Type 0} (i j : ℕ) (is_own : Bool) (text : List ℕ) (rest : S × List (ℕ × List ℕ))
    → (j == i) ≡ true
    → is_own ≡ true
    → find i (place is_own j text rest).1 ≡ some text
find-place_own i j is_own text rest e h = rw (h, e)

-- The second loop does with each request what it does with the request's messages.
pub emit_all-status :
    (u : ℕ) (d : List (ℕ × DecodeStatus)) (jobs : List Job) (texts : List (List ℕ))
    → find u (emit_all d (messages jobs) texts).0 ≡ (own_emit u (find u d) jobs texts).0
unfolding emit_all own_emit
emit_all-status u d [] texts = refl
emit_all-status u d ((i, msg) ∷ jobs) [] = refl
emit_all-status u d ((i, msg) ∷ jobs) (text ∷ texts) =
    let done = emit (status_or (find msg.uid d)) msg text in
    emit_all-status u (store msg.uid done.0 d) jobs texts
    ∙ ap (λ o. (own_emit u o jobs texts).0)
        (find-store msg.uid u done.0 d ∙ after_emit u d msg text)

pub emit_all-placed :
    (u i : ℕ) (d : List (ℕ × DecodeStatus)) (jobs : List Job) (texts : List (List ℕ))
    → find i (tags jobs) ≡ some u
    → find i (paired (indices jobs) (emit_all d (messages jobs) texts).1)
      ≡ find i (own_emit u (find u d) jobs texts).1
unfolding emit_all own_emit
emit_all-placed u i d [] texts h = absurd (none-ne-some u h)
emit_all-placed u i d ((j, msg) ∷ jobs) [] h = refl
emit_all-placed u i d ((j, msg) ∷ jobs) (text ∷ texts) h =
    let done = emit (status_or (find msg.uid d)) msg text in
    elim (Bool-cases (j == i)) [
      | inl e ↦
          let own_one : msg.uid ≡ u = some-injective msg.uid u (rw e at h) in
          let after = emit (status_or (find u d)) msg text in
          rw e (ap (λ k. some (emit (status_or (find k d)) msg text).1) own_one)
          ∙ sym (
              find-place_own i j (msg.uid == u) after.1
                (own_emit u (if msg.uid == u then after.0 else find u d) jobs texts) e
                (rw own_one (eqb_refl u)))
      | inr e ↦ rw e (
          emit_all-placed u i (store msg.uid done.0 d) jobs texts (rw e at h)
          ∙ ap (λ o. find i (own_emit u o jobs texts).1)
              (find-store msg.uid u done.0 d ∙ after_emit u d msg text)
          ∙ (let after = emit (status_or (find u d)) msg text in
              find-place i j (msg.uid == u) after.1
                (own_emit u (if msg.uid == u then after.0 else find u d) jobs texts) e))
    ]
