-- ===== src/Reasoning/Held.antt =====
-- How much the parser of python/maxtoken/server/reasoning_parser.py holds back.
use maxtoken.Prelude.{
  ℕ, ◌≤◌, List, ◌++◌, Option, none, some, true, ◌≡◌, inl, inr, ltb, length, drop, All, Bool-cases,
  Option-cases, arith, ltb→le,
}
use maxtoken.Detokenize.{find_text}
use maxtoken.Reasoning.{
  Parser, strip_think_start, end_index, tool_index, tracked, parse_plain, parse_tool, parse_end,
  parse_streaming_increment, tool_hold_max,
}
use maxtoken.Reasoning.Partial.{split_trailing_partial-le}

parse_plain_held :
    (p : Parser) (text : List ℕ)
    → p.stream_reasoning ≡ true
    → All (λ token. length token ≤ 513) (tracked p)
    → length (parse_plain p text).0.buffer ≤ 512
unfolding parse_plain
parse_plain_held p text s few = elim (Bool-cases p.in_reasoning) [
  | inl y ↦ rw (y, s) (split_trailing_partial-le p text 512 few)
  | inr n ↦ rw n (split_trailing_partial-le p text 512 few)
]

parse_tool_held :
    (p : Parser) (text : List ℕ) (o : Option ℕ)
    → p.stream_reasoning ≡ true
    → All (λ token. length token ≤ 513) (tracked p)
    → length (parse_tool p text o).0.buffer ≤ 512
unfolding parse_tool
parse_tool_held p text none s few = parse_plain_held p text s few
parse_tool_held p text (some i) s few =
    elim (Bool-cases (ltb tool_hold_max (length (drop i text)))) [
      | inl y ↦ rw y (omega arith)
      | inr n ↦ rw n (ltb→le tool_hold_max (length (drop i text)) n)
    ]

parse_end_held :
    (p : Parser) (text : List ℕ) (o : Option ℕ)
    → p.stream_reasoning ≡ true
    → All (λ token. length token ≤ 513) (tracked p)
    → length (parse_end p text o).0.buffer ≤ 512
unfolding parse_end
parse_end_held p text none s few = parse_tool_held p text (tool_index p text) s few
parse_end_held p text (some i) s few = omega arith

strip_think_start-tracked :
    (p : Parser) (text : List ℕ)
    → All (λ token. length token ≤ 513) (tracked p)
    → p.stream_reasoning ≡ true
    → All (λ token. length token ≤ 513) (tracked (strip_think_start p text).0)
      × ((strip_think_start p text).0.stream_reasoning ≡ true)
unfolding strip_think_start
strip_think_start-tracked p text few s = elim (Option-cases (find_text text p.think_start_token)) [
  | inl e ↦ rw (e, strip_think_start) (few, s)
  | inr (i, e) ↦ elim (Bool-cases p.stripped_think_start) [
    | inl y ↦ rw (e, y, strip_think_start) (rw y at few, s)
    | inr n ↦ rw (e, n, strip_think_start) (let (a, (b, c)) = rw n at few in (a, c), s)
  ]
]

-- With markers of at most 513 characters a parser that streams its reasoning holds at most 512
-- characters back.
pub parse_streaming_increment_held :
    (p : Parser) (new_text : List ℕ)
    → p.stream_reasoning ≡ true
    → All (λ token. length token ≤ 513) (tracked p)
    → length (parse_streaming_increment p new_text).0.buffer ≤ 512
unfolding parse_streaming_increment
parse_streaming_increment_held p new_text s few =
    let (q, text) = strip_think_start p (p.buffer ++ new_text) in
    let (few', s') = strip_think_start-tracked p (p.buffer ++ new_text) few s in
    parse_end_held q text (end_index q text) s' few'
