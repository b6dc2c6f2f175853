-- ===== src/Tests/Reasoning.antt =====
-- The parser of DeepSeek's models.
use maxtoken.Prelude.{ℕ, ◌≤◌, List, [], ◌∷◌, ◌++◌, true, false, ◌≡◌, refl, length, arith}
use maxtoken.Reasoning.{Parser, create, deepseek_v32_parser, parse_streaming_increment}
use maxtoken.Reasoning.Stream.{stream_all, concat, stream_all-concat}
use maxtoken.Reasoning.Held.{parse_streaming_increment_held}

abbrev parser : Parser
unfolding deepseek_v32_parser create
parser = deepseek_v32_parser true true

-- `x y </`, of which the last two characters are held
abbrev chunk : List ℕ
chunk = 120 ∷ 32 ∷ 121 ∷ 32 ∷ 60 ∷ 47 ∷ []

parse_streaming_increment_held_example :
    length (parse_streaming_increment parser chunk).0.buffer ≤ 512
unfolding parser deepseek_v32_parser create
parse_streaming_increment_held_example =
    parse_streaming_increment_held parser chunk refl (omega arith, (omega arith, (omega arith, tt)))

abbrev answering : Parser
unfolding parser deepseek_v32_parser create
answering = record parser { in_reasoning = false; stripped_think_start = true; buffer = 60 ∷ [] }

stream_all-concat_example :
    ((stream_all answering (chunk ∷ chunk ∷ [])).normal_text
      ≡ (60 ∷ []) ++ concat (chunk ∷ chunk ∷ []))
    × ((stream_all answering (chunk ∷ chunk ∷ [])).reasoning_text ≡ [])
unfolding answering parser deepseek_v32_parser create
stream_all-concat_example = stream_all-concat answering (chunk ∷ chunk ∷ []) (refl, refl)
