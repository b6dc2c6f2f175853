-- ===== src/Reasoning.antt =====
-- The reasoning parser, `BaseReasoningParser` of python/maxtoken/server/reasoning_parser.py, which splits a
-- model's output into its reasoning and the answer. A text is a list of its characters' codes.
pub mod Texts
pub mod Partial
pub mod Stream
pub mod Held
unfoldable pub use maxtoken.Reasoning.Texts.*
use maxtoken.Prelude.{
  ℕ, zero, suc, ◌+◌, ◌-◌, min, List, [], ◌∷◌, ◌++◌, Option, none, some, Bool, true, false, ◌==◌,
  ◌||◌, ◌&&◌, not, ltb, leb, if◌then◌else◌, length, take, drop,
}
use maxtoken.Detokenize.{ends_with, starts_with, find_text}

-- `ReasoningParseResult`
pub record Parsed : Type 0 where
  pub reasoning_text : List ℕ
  pub normal_text : List ℕ

pub record Parser : Type 0 where
  pub think_start_token : List ℕ
  pub think_end_token : List ℕ
  pub tool_start_token : Option (List ℕ)
  pub stream_reasoning : Bool
  pub in_reasoning : Bool
  pub buffer : List ℕ
  pub stripped_think_start : Bool

unfoldable pub create : List ℕ → List ℕ → Bool → Bool → Option (List ℕ) → Parser
create think_start think_end force_reasoning stream_reasoning tool_start = record {
  think_start_token = think_start;
  think_end_token = think_end;
  tool_start_token = tool_start;
  stream_reasoning = stream_reasoning;
  in_reasoning = force_reasoning;
  buffer = [];
  stripped_think_start = false;
}

-- `<think>`, `</think>` and the beginning of a DSML block
abbrev pub think_start : List ℕ
think_start = 60 ∷ 116 ∷ 104 ∷ 105 ∷ 110 ∷ 107 ∷ 62 ∷ []

abbrev pub think_end : List ℕ
think_end = 60 ∷ 47 ∷ 116 ∷ 104 ∷ 105 ∷ 110 ∷ 107 ∷ 62 ∷ []

abbrev pub dsml_start : List ℕ
dsml_start = 60 ∷ 65372 ∷ 68 ∷ 83 ∷ 77 ∷ 76 ∷ 65372 ∷ []

-- `DeepSeekV32ReasoningParser` and `ThinkReasoningParser`
unfoldable pub deepseek_v32_parser : Bool → Bool → Parser
unfolding create
deepseek_v32_parser force_reasoning stream_reasoning =
    create think_start think_end force_reasoning stream_reasoning (some dsml_start)

unfoldable pub think_parser : Bool → Bool → Parser
unfolding create
think_parser force_reasoning stream_reasoning =
    create think_start think_end force_reasoning stream_reasoning none

abbrev pub tool_hold_max : ℕ
tool_hold_max = 512

abbrev pub is_found : Option ℕ → Bool
is_found none = false
is_found (some i) = true

abbrev pub find_tool : Option (List ℕ) → List ℕ → Option ℕ
find_tool none text = none
find_tool (some token) text = find_text text token

-- `detect_and_parse`, after the opening markers were taken out
abbrev pub parse_processed : Parser → List ℕ → Option ℕ → Option ℕ → Parsed
parse_processed p text (some i) tool = record {
  reasoning_text = take i text;
  normal_text = strip (drop (i + length p.think_end_token) text);
}
parse_processed p text none (some i) = record {
  reasoning_text = strip (take i text);
  normal_text = drop i text;
}
parse_processed p text none none = record { reasoning_text = text; normal_text = [] }

unfoldable pub detect_and_parse : Parser → List ℕ → Parsed
detect_and_parse p text =
    let processed = strip (erase p.think_start_token text) in
    if p.in_reasoning || is_found (find_text text p.think_start_token)
    then parse_processed p processed (find_text processed p.think_end_token)
        (find_tool p.tool_start_token processed)
    else record { reasoning_text = []; normal_text = text }

-- The inner loop of `_split_trailing_partial`, from `i` down to above `best`.
unfoldable pub partial_above : List ℕ → List ℕ → ℕ → ℕ → ℕ
partial_above text token best zero = best
partial_above text token best (suc i) =
    let rest = partial_above text token best i in
    if leb (suc i) best then best else if ends_with text (take (suc i) token) then suc i else rest

unfoldable pub longest_partial : List ℕ → ℕ → List (List ℕ) → ℕ
unfolding partial_above
longest_partial text best [] = best
longest_partial text best (token ∷ tokens) =
    longest_partial text (partial_above text token best (min (length token - 1) (length text)))
      tokens

abbrev pub is_set : Option (List ℕ) → Bool
is_set (some (c ∷ cs)) = true
is_set _ = false

abbrev pub tool_token : Option (List ℕ) → List (List ℕ)
tool_token (some (c ∷ cs)) = (c ∷ cs) ∷ []
tool_token _ = []

abbrev pub tracked : Parser → List (List ℕ)
tracked p =
    p.think_end_token ∷ (if p.stripped_think_start then [] else p.think_start_token ∷ [])
    ++ tool_token p.tool_start_token

unfoldable pub split_trailing_partial : Parser → List ℕ → List ℕ × List ℕ
unfolding longest_partial
split_trailing_partial p text =
    let best = longest_partial text 0 (tracked p) in
    if best == 0
    then (text, [])
    else (take (length text - best) text, drop (length text - best) text)

-- The parser and the text after an opening marker was taken out.
unfoldable pub strip_think_start : Parser → List ℕ → Parser × List ℕ
strip_think_start p text = elim (find_text text p.think_start_token) [
  | none ↦ (p, text)
  | some i ↦ if p.stripped_think_start then (p, text) else (
    record p { stripped_think_start = true; in_reasoning = true },
    take i text ++ drop (i + length p.think_start_token) text,
  )
]

-- Where a marker that ends the reasoning stands.
abbrev pub end_index : Parser → List ℕ → Option ℕ
end_index p text = if p.in_reasoning then find_text text p.think_end_token else none

abbrev pub tool_index : Parser → List ℕ → Option ℕ
tool_index p text =
    if p.in_reasoning && is_set p.tool_start_token then find_tool p.tool_start_token text else none

-- No complete marker.
unfoldable pub parse_plain : Parser → List ℕ → Parser × Parsed
unfolding split_trailing_partial
parse_plain p text =
    let (safe, held) = split_trailing_partial p text in
    if p.in_reasoning
    then (if p.stream_reasoning
        then (record p { buffer = held }, record { reasoning_text = safe; normal_text = [] })
        else (record p { buffer = text }, record { reasoning_text = []; normal_text = [] }))
    else (record p { buffer = held }, record { reasoning_text = []; normal_text = safe })

unfoldable pub parse_tool : Parser → List ℕ → Option ℕ → Parser × Parsed
unfolding parse_plain
parse_tool p text none = parse_plain p text
parse_tool p text (some i) =
    if ltb tool_hold_max (length (drop i text))
    then (
      record p { buffer = []; in_reasoning = false },
      record { reasoning_text = take i text; normal_text = drop i text },
    )
    else (
      record p { buffer = drop i text },
      record { reasoning_text = take i text; normal_text = [] },
    )

unfoldable pub parse_end : Parser → List ℕ → Option ℕ → Parser × Parsed
unfolding rstrip
parse_end p text none = parse_tool p text (tool_index p text)
parse_end p text (some i) = (
  record p { buffer = []; in_reasoning = false },
  record {
    reasoning_text = rstrip (take i text);
    normal_text = drop (i + length p.think_end_token) text;
  },
)

unfoldable pub parse_streaming_increment : Parser → List ℕ → Parser × Parsed
unfolding strip_think_start
parse_streaming_increment p new_text =
    let (q, text) = strip_think_start p (p.buffer ++ new_text) in
    parse_end q text (end_index q text)

-- `buf.lstrip().startswith(self.tool_start_token)`
unfoldable pub starts_tool : Option (List ℕ) → List ℕ → Bool
unfolding lstrip
starts_tool (some (c ∷ cs)) text = starts_with (lstrip text) (c ∷ cs)
starts_tool _ text = false

unfoldable pub flush : Parser → Parser × Parsed
flush p =
    let drained : Parser = record p { buffer = [] } in
    elim p.buffer [
      | [] ↦ (drained, record { reasoning_text = []; normal_text = [] })
      | c ∷ cs ↦
          if starts_tool p.tool_start_token p.buffer
          then (
            record drained { in_reasoning = false },
            record { reasoning_text = []; normal_text = p.buffer },
          )
          else if p.in_reasoning
          then (drained, record { reasoning_text = p.buffer; normal_text = [] })
          else (drained, record { reasoning_text = []; normal_text = p.buffer })
    ]
