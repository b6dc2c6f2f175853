-- ===== src/Detokenize/Pieces.antt =====
-- The pieces of a stream.
use maxtoken.Prelude.{
  ℕ, zero, suc, ◌≤◌, ◌≡◌, ◌∙◌, refl, ap, max, List, [], ◌∷◌, ◌++◌, append-nil, take, drop, Option,
  Bool, ltb, ◌&&◌, if◌then◌else◌, arith, Bool-cases, inl, inr,
}
use maxtoken.Detokenize.{
  DetokenizeMsg, DecodeStatus, status_or, take_up, new_text, is_whole, move_on, advance, emit_end,
}

take-drop : (p n : ℕ) (xs : List ℕ) → p ≤ n → take p xs ++ drop p (take n xs) ≡ take n xs
take-drop zero n xs h = refl
take-drop (suc p) zero xs h = absurd (omega arith)
take-drop (suc p) (suc n) [] h = refl
take-drop (suc p) (suc n) (x ∷ xs) h = ap (◌∷◌ x) (take-drop p n xs (omega arith))

move_on-sent : (s : DecodeStatus) (text : List ℕ) → (move_on s text).0.sent_offset ≡ s.sent_offset
unfolding move_on
move_on-sent s text = elim (Bool-cases (is_whole text)) [ inl y ↦ rw y refl | inr n ↦ rw n refl ]

take_up-sent :
    (is_eos : ℕ → Bool) (s : DecodeStatus) (msg : DetokenizeMsg)
    → (take_up is_eos s msg).sent_offset ≡ s.sent_offset
unfolding take_up
take_up-sent is_eos s msg = elim (Bool-cases (msg.finished && is_eos msg.next_token)) [
  | inl y ↦ rw y refl
  | inr n ↦ rw n refl
]

piece_lem :
    (p e : ℕ) (xs : List ℕ)
    → take p xs ++ (if ltb p e then drop p (take e xs) else []) ≡ take (max p e) xs
piece_lem p e xs = elim (Bool-cases (ltb p e)) [
  | inl y ↦ let m : max p e ≡ e = ground arith in rw (y, m) (take-drop p e xs (ground arith))
  | inr n ↦ let m : max p e ≡ p = ground arith in rw (n, m) (append-nil (take p xs))
]

module _ (decode : List ℕ → List ℕ) (is_eos : ℕ → Bool) (old : Option DecodeStatus)
    (msg : DetokenizeMsg) where
  -- The whole text as this message finds it.
  abbrev pub output : List ℕ
  output = let s = take_up is_eos (status_or old) msg in (move_on s (new_text decode s)).1

  -- How much of it went out before.
  abbrev pub sent : ℕ
  sent = (status_or old).sent_offset

  -- What is sent joins without a gap or a repetition: of the text as a message finds it, the part that
  -- went out before and the message's piece together are the part up to where it ends now, or what
  -- went out before, where that is more. The request's status keeps this end, until the request is
  -- finished, and then it is gone.
  pub advance-sent :
      (take sent output ++ (advance decode is_eos old msg).1
        ≡ take (max sent (emit_end msg output)) output)
      × ((status_or (advance decode is_eos old msg).0).sent_offset
          ≡ (if msg.finished then 0 else max sent (emit_end msg output)))
  unfolding advance
  advance-sent =
      let s = take_up is_eos (status_or old) msg in
      let same_end : (move_on s (new_text decode s)).0.sent_offset ≡ sent =
        move_on-sent s (new_text decode s) ∙ take_up-sent is_eos (status_or old) msg in
      (
        rw same_end (piece_lem sent (emit_end msg output) output),
        rw same_end (elim (Bool-cases msg.finished) [ inl y ↦ rw y refl | inr n ↦ rw n refl ]),
      )
