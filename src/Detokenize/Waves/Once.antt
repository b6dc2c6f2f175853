-- ===== src/Detokenize/Waves/Once.antt =====
-- A wave of python/maxtoken/tokenizer/detokenize.py with one message of a request at most: its two loops do what
-- the messages would one after the other.
use maxtoken.Prelude.{
  ℕ, ◌≤◌, List, [], ◌∷◌, Option, some, Bool, true, false, ◌==◌, ◌≡◌, refl, ap, sym, ◌∙◌, inl, inr,
  Bool-cases, find, put, find-put, arith, count, eqb→eq,
}
use maxtoken.Detokenize.{DecodeStatus, status_or, take_up, new_text, advance}
use maxtoken.Detokenize.Waves.{Job, emit, take_up_all, detokenize_wave, messages, indices, paired}
use maxtoken.Detokenize.Waves.Own.{
  tags, place, own, own_emit, uids, own_absent, own_emit_absent, advance-emit, emit_all-status,
  emit_all-placed,
}

abbrev own_first :
    ℕ
    → ℕ
    → Option DecodeStatus × List ℕ
    → List Job
    → List (List ℕ)
    → Option DecodeStatus × List (ℕ × List ℕ)
own_first u i done jobs texts = place true i done.1 (own_emit u done.0 jobs texts)

module _ (decode : List ℕ → List ℕ) (is_eos : ℕ → Bool) where
  take_up_all_absent :
      (u : ℕ) (d : List (ℕ × DecodeStatus)) (jobs : List Job)
      → count u (uids jobs) ≡ 0
      → find u (take_up_all decode is_eos d (messages jobs)).0 ≡ find u d
  unfolding take_up_all
  take_up_all_absent u d [] none_there = refl
  take_up_all_absent u d ((i, msg) ∷ jobs) none_there =
      let other : (msg.uid == u) ≡ false = ground arith in
      let s = take_up is_eos (status_or (find msg.uid d)) msg in
      take_up_all_absent u (put msg.uid s d) jobs (ground arith) ∙ find-put msg.uid u s d ∙ rw other

  own_emit-take_up_all :
      (u : ℕ) (d : List (ℕ × DecodeStatus)) (jobs : List Job)
      → count u (uids jobs) ≤ 1
      → let taken = take_up_all decode is_eos d (messages jobs) in
        own_emit u (find u taken.0) jobs taken.1 ≡ own decode is_eos u (find u d) jobs
  unfolding take_up_all own_emit own
  own_emit-take_up_all u d [] once = refl
  own_emit-take_up_all u d ((i, msg) ∷ jobs) once =
      let s = take_up is_eos (status_or (find msg.uid d)) msg in
      let taken = take_up_all decode is_eos (put msg.uid s d) (messages jobs) in
      elim (Bool-cases (msg.uid == u)) [
        | inr e ↦ rw e (
            own_emit-take_up_all u (put msg.uid s d) jobs (ground arith)
            ∙ ap (λ o. own decode is_eos u o jobs) (find-put msg.uid u s d ∙ rw e))
        | inl e ↦
            let none_there : count u (uids jobs) ≡ 0 = ground arith in
            let text = new_text decode s in
            let here : find u taken.0 ≡ some s =
              take_up_all_absent u (put msg.uid s d) jobs none_there
              ∙ find-put msg.uid u s d
              ∙ rw e in
            let alone : emit s msg text ≡ advance decode is_eos (find u d) msg =
              sym (advance-emit decode is_eos (find msg.uid d) msg)
              ∙ ap (λ k. advance decode is_eos (find k d) msg) (eqb→eq msg.uid u e) in
            rw e (
              ap (λ o. own_first u i (emit (status_or o) msg text) jobs taken.1) here
              ∙ ap (place true i (emit s msg text).1)
                  (own_emit_absent u (emit s msg text).0 jobs taken.1 none_there)
              ∙ ap (place true i (emit s msg text).1)
                  (sym (own_absent decode is_eos u (emit s msg text).0 jobs none_there))
              ∙ ap (λ x. place true i x.1 (own decode is_eos u x.0 jobs)) alone)
      ]

  -- The whole wave.
  pub wave-status :
      (u : ℕ) (d : List (ℕ × DecodeStatus)) (jobs : List Job)
      → count u (uids jobs) ≤ 1
      → find u (detokenize_wave decode is_eos d (messages jobs)).0
        ≡ (own decode is_eos u (find u d) jobs).0
  unfolding detokenize_wave
  wave-status u d jobs once =
      let taken = take_up_all decode is_eos d (messages jobs) in
      emit_all-status u taken.0 jobs taken.1 ∙ ap (λ x. x.0) (own_emit-take_up_all u d jobs once)

  pub wave-placed :
      (u i : ℕ) (d : List (ℕ × DecodeStatus)) (jobs : List Job)
      → count u (uids jobs) ≤ 1
      → find i (tags jobs) ≡ some u
      → find i (paired (indices jobs) (detokenize_wave decode is_eos d (messages jobs)).1)
        ≡ find i (own decode is_eos u (find u d) jobs).1
  unfolding detokenize_wave
  wave-placed u i d jobs once there =
      let taken = take_up_all decode is_eos d (messages jobs) in
      emit_all-placed u i taken.0 jobs taken.1 there
      ∙ ap (λ x. find i x.1) (own_emit-take_up_all u d jobs once)
