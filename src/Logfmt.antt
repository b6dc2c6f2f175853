-- ===== src/Logfmt.antt =====
-- `LineAssembler` of python/maxtoken/daemon/logfmt.py: raw chunks to display lines. A character is its
-- code point.
pub mod Lines
use maxtoken.Prelude.{ℕ, List, [], ◌∷◌, ◌++◌, Bool, true, false, ◌==◌, if◌then◌else◌}

-- What is emitted: `("line", text)` or `("partial", text)`.
pub data Display : Type 0 where
  line partial : List ℕ → Display

pub record LineAssembler : Type 0 where
  pub cur : List ℕ
  pub cr : Bool

abbrev pub carriage_return : ℕ
carriage_return = 13

abbrev pub line_feed : ℕ
line_feed = 10

abbrev pub create : LineAssembler
create = record { cur = []; cr = false }

-- One round of the loop of `feed`: the state and what the character makes it emit.
unfoldable pub feed_char : LineAssembler → ℕ → LineAssembler × List Display
feed_char a ch =
    if ch == carriage_return
    then (record a { cr = true }, [])
    else if a.cr
    then if ch == line_feed
      then (record { cur = []; cr = false }, line a.cur ∷ [])
      else (record { cur = ch ∷ []; cr = false }, partial a.cur ∷ [])
    else if ch == line_feed
    then (record a { cur = [] }, line a.cur ∷ [])
    else (record a { cur = a.cur ++ ch ∷ [] }, [])

unfoldable pub feed : LineAssembler → List ℕ → LineAssembler × List Display
feed a [] = (a, [])
feed a (ch ∷ text) =
    let (a', out) = feed_char a ch in let (a'', rest) = feed a' text in (a'', out ++ rest)

unfoldable pub flush : LineAssembler → LineAssembler × List Display
flush a =
    if a.cr
    then (record { cur = []; cr = false }, partial a.cur ∷ [])
    else elim a.cur [ [] ↦ (a, []) | _ ↦ (record a { cur = [] }, line a.cur ∷ []) ]

-- `feed` of each chunk, then `flush` at the end of the stream.
unfoldable pub feed_all : LineAssembler → List (List ℕ) → List Display
feed_all a [] = (flush a).1
feed_all a (chunk ∷ chunks) = let (a', out) = feed a chunk in out ++ feed_all a' chunks
