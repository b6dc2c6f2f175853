-- ===== src/Reasoning/Stream.antt =====
-- What a stream of chunks comes out as: nothing is lost, and little is held back.
use maxtoken.Prelude.{
  ℕ, ◌+◌, List, [], ◌∷◌, ◌++◌, Option, none, some, true, false, ◌≡◌, ◌⊎◌, ◌∙◌, refl, ap, sym, inl,
  inr, length, take, drop, Bool-cases, Option-cases, List-cases, append-nil, append_assoc,
}
use maxtoken.Detokenize.{find_text}
use maxtoken.Detokenize.Stops.{IsFirst}
use maxtoken.Reasoning.{
  rstrip, Parsed, Parser, strip_think_start, parse_plain, parse_tool, parse_end,
  parse_streaming_increment, starts_tool, flush,
}
use maxtoken.Reasoning.Partial.{split_trailing_partial-append}

-- What a parser has said and what it holds are the text; or the text had the marker that ends the reasoning,
-- nothing is held, and the answer begins right after the marker.
abbrev pub Conserves : Parser → List ℕ → Parser × Parsed → Type 0
Conserves p text (q, r) =
    (r.reasoning_text ++ r.normal_text ++ q.buffer ≡ text)
    ⊎ ((front : List ℕ) × (back : List ℕ) × (text ≡ front ++ p.think_end_token ++ back)
        × (r.reasoning_text ≡ rstrip front)
        × (r.normal_text ≡ back)
        × (q.buffer ≡ [])
        × (q.in_reasoning ≡ false))

-- What a parser reads of the text it is given: all of it, when it is past its opening marker or there is
-- none; otherwise all but the first opening marker.
abbrev pub Reads : Parser → List ℕ → List ℕ → Type 0
Reads p given text =
    ((text ≡ given) × ((p.stripped_think_start ≡ true) ⊎ IsFirst given p.think_start_token none))
    ⊎ ((p.stripped_think_start ≡ false)
        × (i : ℕ) × IsFirst given p.think_start_token (some i)
        × (text ≡ take i given ++ drop (i + length p.think_start_token) given))

-- The reasoning is over, and an opening marker is not looked for any more.
abbrev pub IsAnswering : Parser → Type 0
IsAnswering p = (p.in_reasoning ≡ false) × (p.stripped_think_start ≡ true)

-- All that a parser says of chunks up to the end of the stream.
abbrev said : Parsed → Parsed → Parsed
said r rs = record {
  reasoning_text = r.reasoning_text ++ rs.reasoning_text;
  normal_text = r.normal_text ++ rs.normal_text;
}

unfoldable pub stream_all : Parser → List (List ℕ) → Parsed
unfolding parse_streaming_increment flush
stream_all p [] = (flush p).1
stream_all p (c ∷ chunks) =
    let (q, r) = parse_streaming_increment p c in said r (stream_all q chunks)

abbrev pub concat : List (List ℕ) → List ℕ
concat [] = []
concat (c ∷ chunks) = c ++ concat chunks

strip_think_start_answering :
    (p : Parser) (text : List ℕ)
    → p.stripped_think_start ≡ true
    → strip_think_start p text ≡ (p, text)
unfolding strip_think_start
strip_think_start_answering p text s = elim (Option-cases (find_text text p.think_start_token)) [
  | inl e ↦ rw (e, strip_think_start) refl
  | inr (i, e) ↦ rw (e, s, strip_think_start) refl
]

flush_answering :
    (p : Parser)
    → p.in_reasoning ≡ false
    → (flush p).1 ≡ record { reasoning_text = []; normal_text = p.buffer }
unfolding flush
flush_answering p n = elim (List-cases p.buffer) [
  | inl e ↦ rw (e, flush) refl
  | inr (c, cs, e) ↦ elim (Bool-cases (starts_tool p.tool_start_token p.buffer)) [
    | inl y ↦ rw (e, y, flush) (ap (λ b. record { reasoning_text = []; normal_text = b }) e)
    | inr t ↦ rw (e, t, n, flush) (ap (λ b. record { reasoning_text = []; normal_text = b }) e)
  ]
]

increment-IsAnswering :
    (p : Parser) (new_text : List ℕ)
    → IsAnswering p
    → let (q, r) = parse_streaming_increment p new_text in
      IsAnswering q × (r.reasoning_text ≡ []) × (r.normal_text ++ q.buffer ≡ p.buffer ++ new_text)
unfolding parse_streaming_increment parse_end parse_tool parse_plain
increment-IsAnswering p new_text (n, s) =
    let text = p.buffer ++ new_text in
    rw (strip_think_start_answering p text s, n)
      ((refl, s), refl, split_trailing_partial-append p text)

-- Once the reasoning is over and `stripped_think_start` is set, the answer does not hang on how the
-- output was cut into chunks: what a parser says of any chunks and of the end of the stream is what
-- it held and the chunks' text, all of it as the answer.
pub stream_all-concat :
    (p : Parser) (chunks : List (List ℕ))
    → IsAnswering p
    → ((stream_all p chunks).normal_text ≡ p.buffer ++ concat chunks)
      × ((stream_all p chunks).reasoning_text ≡ [])
unfolding stream_all
stream_all-concat p [] (n, s) = rw (flush_answering p n) (sym (append-nil p.buffer), refl)
stream_all-concat p (c ∷ chunks) a =
    let (q, r) = parse_streaming_increment p c in
    let (a', none_said, kept) = increment-IsAnswering p c a in
    let (rest, quiet) = stream_all-concat q chunks a' in
    (
      ap (λ t. r.normal_text ++ t) rest
          ∙ (sym (append_assoc r.normal_text q.buffer (concat chunks))
              ∙ (ap (λ t. t ++ concat chunks) kept ∙ append_assoc p.buffer c (concat chunks))),
      rw (none_said, quiet) refl,
    )
