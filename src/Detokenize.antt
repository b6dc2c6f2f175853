-- ===== src/Detokenize.antt =====
-- python/maxtoken/tokenizer/detokenize.py: from tokens to the text that a client is sent. A character
-- is its code point. `decode` stands for the tokenizer's decoding of one list of tokens.
pub mod Stops
pub mod Pieces
pub mod Waves
use mathlib.Core.List.{reverse}
use maxtoken.Prelude.{
  ℕ, zero, suc, ◌+◌, ◌-◌, min, max, List, [], ◌∷◌, ◌++◌, length, take, drop, Option, none, some,
  Bool, true, false, ltb, leb, ◌==◌, ◌&&◌, ◌||◌, not, if◌then◌else◌, contains,
}

abbrev within : ℕ → ℕ → ℕ → Bool
within low high cp = leb low cp && leb cp high

-- `_is_chinese_char`
unfoldable pub is_chinese_char : ℕ → Bool
is_chinese_char cp =
    within 19968 40959 cp
    || within 13312 19903 cp
    || within 131072 173791 cp
    || within 173824 177983 cp
    || within 177984 178207 cp
    || within 178208 183983 cp
    || within 63744 64255 cp
    || within 194560 195103 cp

-- `text.rfind(" ") + 1`
unfoldable pub after_last_space : List ℕ → ℕ
after_last_space [] = 0
after_last_space (c ∷ cs) =
    let rest = after_last_space cs in if ltb 0 rest then suc rest else if c == 32 then 1 else 0

-- The length of what `find_printable_text` keeps, over the reversed text.
unfoldable pub printable_length : List ℕ → List ℕ → ℕ
printable_length text [] = after_last_space text
printable_length text (c ∷ []) =
    if c == 10 || is_chinese_char c then length text else after_last_space text
printable_length text (c ∷ d ∷ _) =
    if c == 10 || is_chinese_char c
    then length text
    else if is_chinese_char d
    then length text - 1
    else after_last_space text

-- Equality of texts.
unfoldable pub same : List ℕ → List ℕ → Bool
same [] [] = true
same (x ∷ xs) (y ∷ ys) = if x == y then same xs ys else false
same _ _ = false

-- `text.endswith(end)`
unfoldable pub ends_with : List ℕ → List ℕ → Bool
ends_with text end =
    leb (length end) (length text) && same (drop (length text - length end) text) end

-- The inner loop of `_stop_prefix_holdback`, from `i` down.
unfoldable pub partial_stop : List ℕ → List ℕ → ℕ → ℕ
partial_stop text stop zero = 0
partial_stop text stop (suc i) =
    let rest = partial_stop text stop i in
    if ends_with text (take (suc i) stop) then suc i else rest

unfoldable pub hold_from : List ℕ → ℕ → List (List ℕ) → ℕ
hold_from text hold [] = hold
hold_from text hold (stop ∷ stops) =
    hold_from text (max hold (partial_stop text stop (min (length stop - 1) (length text)))) stops

unfoldable pub stop_prefix_holdback : List ℕ → List (List ℕ) → ℕ
stop_prefix_holdback text stops = hold_from text 0 stops

unfoldable pub starts_with : List ℕ → List ℕ → Bool
starts_with text [] = true
starts_with [] (y ∷ ys) = false
starts_with (x ∷ xs) (y ∷ ys) = if x == y then starts_with xs ys else false

-- `text.find(stop)`, where -1 is `none`
unfoldable pub find_text : List ℕ → List ℕ → Option ℕ
find_text [] stop = if starts_with [] stop then some 0 else none
find_text (x ∷ xs) stop =
    let rest = find_text xs stop in
    if starts_with (x ∷ xs) stop then some 0 else elim rest [ none ↦ none | some n ↦ some (suc n) ]

-- `DetokenizeMsg`. No stop that matched, and no stop strings, are empty lists.
pub record DetokenizeMsg : Type 0 where
  pub uid : ℕ
  pub next_token : ℕ
  pub finished : Bool
  pub matched_stop : List ℕ
  pub stop_strs : List (List ℕ)

pub record DecodeStatus : Type 0 where
  pub decoded_ids : List ℕ
  pub decoded_str : List ℕ
  pub read_offset : ℕ
  pub surr_offset : ℕ
  pub sent_offset : ℕ

-- Where the text that goes out ends.
unfoldable pub emit_end : DetokenizeMsg → List ℕ → ℕ
emit_end msg output_str =
    if msg.finished
    then elim msg.matched_stop [
      | [] ↦ length output_str
      | c ∷ cs ↦ elim (find_text output_str (c ∷ cs)) [ none ↦ length output_str | some cut ↦ cut ]
    ]
    else elim msg.stop_strs [
      | [] ↦ length output_str
      | stop ∷ stops ↦ length output_str - stop_prefix_holdback output_str (stop ∷ stops)
    ]

unfoldable pub find_printable_text : List ℕ → List ℕ
find_printable_text text = take (printable_length text (reverse text)) text

abbrev pub fresh_status : DecodeStatus
fresh_status = record {
  decoded_ids = [];
  decoded_str = [];
  read_offset = 0;
  surr_offset = 0;
  sent_offset = 0;
}

-- `decode_map.get(uid)`, or a fresh status
abbrev pub status_or : Option DecodeStatus → DecodeStatus
status_or none = fresh_status
status_or (some s) = s

-- U+FFFD, which stands for the bytes of an unfinished character
abbrev pub replacement : ℕ
replacement = 65533

-- The first loop of `_detokenize_wave`: the token is taken up.
unfoldable pub take_up : (ℕ → Bool) → DecodeStatus → DetokenizeMsg → DecodeStatus
take_up is_eos s msg =
    if msg.finished && is_eos msg.next_token
    then s
    else record s { decoded_ids = s.decoded_ids ++ msg.next_token ∷ [] }

-- The new text of a status that has taken up its token.
unfoldable pub new_text : (List ℕ → List ℕ) → DecodeStatus → List ℕ
new_text decode s =
    let read_str = decode (drop s.surr_offset s.decoded_ids) in
    let surr_str = decode (drop s.surr_offset (take s.read_offset s.decoded_ids)) in
    drop (length surr_str) read_str

-- Whether the new text is whole characters, so that the offsets move on.
unfoldable pub is_whole : List ℕ → Bool
is_whole text = ltb 0 (length text) && not (ends_with text (replacement ∷ []))

-- The status after the decoding, and `output_str`.
unfoldable pub move_on : DecodeStatus → List ℕ → DecodeStatus × List ℕ
move_on s text =
    if is_whole text
    then (
      record s {
        decoded_str = s.decoded_str ++ text;
        surr_offset = s.read_offset;
        read_offset = length s.decoded_ids;
      },
      s.decoded_str ++ text,
    )
    else (s, s.decoded_str ++ find_printable_text text)

-- What `_detokenize_wave` does with the one message of a request that is in the wave.
unfoldable pub advance :
    (List ℕ → List ℕ)
    → (ℕ → Bool)
    → Option DecodeStatus
    → DetokenizeMsg
    → Option DecodeStatus × List ℕ
advance decode is_eos old msg =
    let s = take_up is_eos (status_or old) msg in
    let (s', output_str) = move_on s (new_text decode s) in
    let end = emit_end msg output_str in
    (
      if msg.finished then none else some (record s' { sent_offset = max s'.sent_offset end }),
      if ltb s'.sent_offset end then drop s'.sent_offset (take end output_str) else [],
    )
