-- ===== src/Reasoning/Texts.antt =====
-- Texts without their spaces or without special tokens, for python/maxtoken/server/reasoning_parser.py.
use maxtoken.Prelude.{
  ℕ, zero, suc, ◌-◌, List, [], ◌∷◌, Bool, ◌==◌, ◌||◌, ◌&&◌, leb, if◌then◌else◌, length,
}
use maxtoken.Detokenize.{starts_with}

-- `str.isspace` for one character
abbrev pub is_space : ℕ → Bool
is_space c =
    (leb 9 c && leb c 13)
    || (leb 28 c && leb c 32)
    || c == 133
    || c == 160
    || c == 5760
    || (leb 8192 c && leb c 8202)
    || c == 8232
    || c == 8233
    || c == 8239
    || c == 8287
    || c == 12288

unfoldable pub lstrip : List ℕ → List ℕ
lstrip [] = []
lstrip (c ∷ cs) = let rest = lstrip cs in if is_space c then rest else c ∷ cs

abbrev pub stripped_cons : ℕ → List ℕ → List ℕ
stripped_cons c [] = if is_space c then [] else c ∷ []
stripped_cons c (d ∷ ds) = c ∷ d ∷ ds

unfoldable pub rstrip : List ℕ → List ℕ
rstrip [] = []
rstrip (c ∷ cs) = stripped_cons c (rstrip cs)

unfoldable pub strip : List ℕ → List ℕ
unfolding lstrip rstrip
strip text = rstrip (lstrip text)

-- `text.replace(token, "")`: `skip` is how much is left of an occurrence.
unfoldable pub erase_from : List ℕ → ℕ → List ℕ → List ℕ
erase_from token skip [] = []
erase_from token (suc skip) (c ∷ cs) = erase_from token skip cs
erase_from token zero (c ∷ cs) =
    let rest = erase_from token (length token - 1) cs in
    let kept = erase_from token zero cs in if starts_with (c ∷ cs) token then rest else c ∷ kept

unfoldable pub erase : List ℕ → List ℕ → List ℕ
unfolding erase_from
erase [] text = text
erase (t ∷ token) text = erase_from (t ∷ token) zero text

-- `strip_special_tokens`
unfoldable pub strip_special_tokens : List ℕ → List (List ℕ) → List ℕ
strip_special_tokens text [] = text
strip_special_tokens text (token ∷ tokens) = strip_special_tokens (erase token text) tokens
