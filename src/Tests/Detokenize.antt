-- ===== src/Tests/Detokenize.antt =====
-- A stream whose text ends in the beginning of a stop string, with a decoder that maps each token to
-- one character.
use maxtoken.Prelude.{
  ℕ, ◌≡◌, refl, List, [], ◌∷◌, Option, some, Bool, false, true, find, put, remove, ◌==◌,
}
use maxtoken.Detokenize.{
  take_up, new_text, move_on, stop_prefix_holdback, hold_from, partial_stop, ends_with, same,
  is_whole, DetokenizeMsg, DecodeStatus, emit_end,
}
use maxtoken.Detokenize.Waves.{
  detokenize, one_by_one, run_waves, split, detokenize_wave, take_up_all, emit_all, emit, collect,
}
use maxtoken.Detokenize.Waves.Batched.{detokenize-one_by_one}
use maxtoken.Detokenize.Stops.{IsHeld, emit_end-Ends}

abbrev stop_strs : List (List ℕ)
stop_strs = (66 ∷ 67 ∷ 68 ∷ []) ∷ []

abbrev text : List ℕ
text = 65 ∷ 66 ∷ 67 ∷ []

abbrev msg : DetokenizeMsg
msg = record {
  uid = 4;
  next_token = 67;
  finished = false;
  matched_stop = [];
  stop_strs = stop_strs;
}

abbrev decode : List ℕ → List ℕ
decode ids = ids

abbrev is_eos : ℕ → Bool
is_eos token = token == 0

abbrev begun : Option DecodeStatus
begun = some (record {
  decoded_ids = 65 ∷ 66 ∷ [];
  decoded_str = 65 ∷ 66 ∷ [];
  read_offset = 2;
  surr_offset = 1;
  sent_offset = 1;
})

emit_end-Ends_example : IsHeld stop_strs text (emit_end msg text)
emit_end-Ends_example = emit_end-Ends msg text

abbrev token_of : ℕ → ℕ → Bool → DetokenizeMsg
token_of uid token finished = record {
  uid = uid;
  next_token = token;
  finished = finished;
  matched_stop = [];
  stop_strs = stop_strs;
}

-- Three messages of the request 4 and one of the request 5.
abbrev batch : List DetokenizeMsg
batch = token_of 4 65 false ∷ token_of 4 66 false ∷ token_of 5 70 false ∷ token_of 4 71 true ∷ []

detokenize-one_by_one_example :
    ((detokenize decode is_eos [] batch).1 ≡ (one_by_one decode is_eos [] batch).1)
    × ((u : ℕ)
        → find u (detokenize decode is_eos [] batch).0
          ≡ find u (one_by_one decode is_eos [] batch).0)
detokenize-one_by_one_example = detokenize-one_by_one decode is_eos [] batch

waves_test :
    (detokenize decode is_eos [] batch).1 ≡ (65 ∷ []) ∷ [] ∷ (70 ∷ []) ∷ (66 ∷ 71 ∷ []) ∷ []
unfolding detokenize run_waves split detokenize_wave take_up_all emit_all emit collect put remove
    take_up new_text move_on emit_end stop_prefix_holdback hold_from partial_stop ends_with same
    is_whole
waves_test = refl
