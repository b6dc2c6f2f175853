-- ===== src/Detokenize/Waves.antt =====
-- `DetokenizeManager.detokenize` of python/maxtoken/tokenizer/detokenize.py: the messages of a batch go through in
-- waves, of which each holds one message of a request at most.
pub mod Own
pub mod Split
pub mod Once
pub mod Order
pub mod Batched
use maxtoken.Prelude.{
  ℕ, zero, suc, ◌+◌, ◌-◌, max, List, [], ◌∷◌, ◌++◌, Option, none, some, Bool, true, false, ltb,
  ◌==◌, if◌then◌else◌, length, take, drop, contains, find, put, remove, map,
}
use maxtoken.Detokenize.{
  DetokenizeMsg, DecodeStatus, status_or, take_up, new_text, move_on, emit_end, advance,
}

-- A message and its place in the batch.
abbrev pub Job : Type 0
Job = ℕ × DetokenizeMsg

-- `decode_map[uid] = s`, or `del decode_map[uid]`
abbrev pub store : ℕ → Option DecodeStatus → List (ℕ × DecodeStatus) → List (ℕ × DecodeStatus)
store uid none d = remove uid d
store uid (some s) d = put uid s d

-- `discard`
abbrev pub discard : ℕ → List (ℕ × DecodeStatus) → List (ℕ × DecodeStatus)
discard uid d = remove uid d

-- What the second loop of `_detokenize_wave` does with a message and its new text.
unfoldable pub emit : DecodeStatus → DetokenizeMsg → List ℕ → Option DecodeStatus × List ℕ
emit s msg text =
    let (s', output_str) = move_on s text in
    let end = emit_end msg output_str in
    (
      if msg.finished then none else some (record s' { sent_offset = max s'.sent_offset end }),
      if ltb s'.sent_offset end then drop s'.sent_offset (take end output_str) else [],
    )

module _ (decode : List ℕ → List ℕ) (is_eos : ℕ → Bool) where
  -- The first loop of `_detokenize_wave` and the decoding: the state and the new texts.
  unfoldable pub take_up_all :
      List (ℕ × DecodeStatus) → List DetokenizeMsg → List (ℕ × DecodeStatus) × List (List ℕ)
  take_up_all d [] = (d, [])
  take_up_all d (msg ∷ msgs) =
      let s = take_up is_eos (status_or (find msg.uid d)) msg in
      let (d', texts) = take_up_all (put msg.uid s d) msgs in (d', new_text decode s ∷ texts)

-- The second loop.
unfoldable pub emit_all :
    List (ℕ × DecodeStatus)
    → List DetokenizeMsg
    → List (List ℕ)
    → List (ℕ × DecodeStatus) × List (List ℕ)
unfolding emit
emit_all d [] texts = (d, [])
emit_all d (msg ∷ msgs) [] = (d, [])
emit_all d (msg ∷ msgs) (text ∷ texts) =
    let (s, out) = emit (status_or (find msg.uid d)) msg text in
    let (d', outs) = emit_all (store msg.uid s d) msgs texts in (d', out ∷ outs)

abbrev pub indices : List Job → List ℕ
indices [] = []
indices ((i, msg) ∷ jobs) = i ∷ indices jobs

abbrev pub messages : List Job → List DetokenizeMsg
messages [] = []
messages ((i, msg) ∷ jobs) = msg ∷ messages jobs

abbrev pub enumerate : ℕ → List DetokenizeMsg → List Job
enumerate n [] = []
enumerate n (msg ∷ msgs) = (n, msg) ∷ enumerate (suc n) msgs

abbrev pub paired : List ℕ → List (List ℕ) → List (ℕ × List ℕ)
paired (i ∷ is) (text ∷ texts) = (i, text) ∷ paired is texts
paired _ _ = []

-- The wave and the later messages; `seen` are the requests that the wave has a message of.
unfoldable pub split : List ℕ → List Job → List Job × List Job
split seen [] = ([], [])
split seen ((i, msg) ∷ jobs) =
    let is_later = contains msg.uid seen in
    let (wave, later) = split (if is_later then seen else msg.uid ∷ seen) jobs in
    if is_later then (wave, (i, msg) ∷ later) else ((i, msg) ∷ wave, later)

-- `results`: each place's text, or none.
abbrev pub text_or : Option (List ℕ) → List ℕ
text_or none = []
text_or (some text) = text

unfoldable pub collect : List (ℕ × List ℕ) → ℕ → ℕ → List (List ℕ)
collect placed n zero = []
collect placed n (suc k) = text_or (find n placed) ∷ collect placed (suc n) k

module _ (decode : List ℕ → List ℕ) (is_eos : ℕ → Bool) where
  -- `_detokenize_wave`
  unfoldable pub detokenize_wave :
      List (ℕ × DecodeStatus) → List DetokenizeMsg → List (ℕ × DecodeStatus) × List (List ℕ)
  unfolding take_up_all emit_all
  detokenize_wave d msgs =
      let (d', texts) = take_up_all decode is_eos d msgs in emit_all d' msgs texts

  -- The loop over the waves, each of which takes a message at least.
  unfoldable pub run_waves :
      ℕ → List (ℕ × DecodeStatus) → List Job → List (ℕ × DecodeStatus) × List (ℕ × List ℕ)
  unfolding detokenize_wave split
  run_waves zero d jobs = (d, [])
  run_waves (suc fuel) d [] = (d, [])
  run_waves (suc fuel) d (job ∷ jobs) =
      let (wave, later) = split [] (job ∷ jobs) in
      let (d', texts) = detokenize_wave d (messages wave) in
      let (d'', placed) = run_waves fuel d' later in (d'', paired (indices wave) texts ++ placed)

  -- `detokenize`
  unfoldable pub detokenize :
      List (ℕ × DecodeStatus) → List DetokenizeMsg → List (ℕ × DecodeStatus) × List (List ℕ)
  unfolding run_waves collect
  detokenize d msgs =
      let (d', placed) = run_waves (length msgs) d (enumerate 0 msgs) in
      (d', collect placed 0 (length msgs))

  -- The specification: one message after the other.
  unfoldable pub one_by_one :
      List (ℕ × DecodeStatus) → List DetokenizeMsg → List (ℕ × DecodeStatus) × List (List ℕ)
  unfolding advance
  one_by_one d [] = (d, [])
  one_by_one d (msg ∷ msgs) =
      let (s, out) = advance decode is_eos (find msg.uid d) msg in
      let (d', outs) = one_by_one (store msg.uid s d) msgs in (d', out ∷ outs)
