-- ===== src/Tests/Logfmt.antt =====
-- A log of two lines, cut in the middle, and a progress bar.
use maxtoken.Prelude.{◌≡◌, refl, [], ◌∷◌, arith}
use maxtoken.Logfmt.{line, create, feed, feed_all}
use maxtoken.Logfmt.Lines.{feed_all-written, feed-written}

feed_all-written_example :
    feed_all create ((65 ∷ 13 ∷ []) ∷ (10 ∷ 66 ∷ []) ∷ []) ≡ line (65 ∷ []) ∷ line (66 ∷ []) ∷ []
feed_all-written_example =
    feed_all-written ((65 ∷ [], 1) ∷ []) (66 ∷ []) ((65 ∷ 13 ∷ []) ∷ (10 ∷ 66 ∷ []) ∷ [])
      (((ground arith, ground arith), tt), tt) ((ground arith, ground arith), tt) refl

feed-written_example :
    feed create (65 ∷ 13 ∷ 13 ∷ 10 ∷ 66 ∷ 10 ∷ []) ≡ (create, line (65 ∷ []) ∷ line (66 ∷ []) ∷ [])
feed-written_example =
    feed-written ((65 ∷ [], 2) ∷ (66 ∷ [], 0) ∷ [])
      (((ground arith, ground arith), tt), (((ground arith, ground arith), tt), tt))
