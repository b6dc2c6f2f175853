-- ===== src/Logfmt/Lines.antt =====
-- What `LineAssembler` does to a stream: the chunks do not matter, and the lines come out as written.
use maxtoken.Prelude.{
  ℕ, zero, suc, ◌≡◌, ◌≢◌, ◌∙◌, refl, sym, ap, List, [], ◌∷◌, ◌++◌, append_assoc, append-nil, map,
  Bool, true, false, ◌==◌, arith, All,
}
use maxtoken.Logfmt.{
  line, partial, LineAssembler, Display, carriage_return, line_feed, create, feed_char, feed,
  feed_all, flush,
}

feed-append :
    (a : LineAssembler) (s t : List ℕ)
    → feed a (s ++ t) ≡ ((feed (feed a s).0 t).0, (feed a s).1 ++ (feed (feed a s).0 t).1)
unfolding feed
feed-append a [] t = refl
feed-append a (ch ∷ s) t =
    rw
      (
        feed-append (feed_char a ch).0 s t,
        append_assoc (feed_char a ch).1 (feed (feed_char a ch).0 s).1
            (feed (feed (feed_char a ch).0 s).0 t).1,
      )
      refl

abbrev pub joined : List (List ℕ) → List ℕ
joined [] = []
joined (c ∷ cs) = c ++ joined cs

feed_all-joined :
    (a : LineAssembler) (chunks : List (List ℕ))
    → feed_all a chunks ≡ feed_all a (joined chunks ∷ [])
unfolding feed_all
feed_all-joined a [] = unfold feed in refl
feed_all-joined a (c ∷ cs) =
    rw (feed_all-joined (feed a c).0 cs, feed-append a c (joined cs))
      (sym (append_assoc (feed a c).1 _ _))

-- A character of a line's text.
abbrev pub Printed : ℕ → Type 0
Printed ch = (ch ≢ carriage_return) × (ch ≢ line_feed)

-- `n` carriage returns and a line feed.
abbrev pub line_end : ℕ → List ℕ
line_end zero = line_feed ∷ []
line_end (suc n) = carriage_return ∷ line_end n

-- Each line with its text and the number of carriage returns before its line feed.
abbrev pub written : List (List ℕ × ℕ) → List ℕ
written [] = []
written ((text, n) ∷ lines) = text ++ (line_end n ++ written lines)

feed-Printed :
    (cur text : List ℕ)
    → All Printed text
    → feed (record { cur = cur; cr = false }) text ≡ (record { cur = cur ++ text; cr = false }, [])
unfolding feed feed_char
feed-Printed cur [] p = rw (append-nil cur) refl
feed-Printed cur (ch ∷ text) (p, ps) =
    let a : (ch == carriage_return) ≡ false = ground (arith, p.0) in
    let b : (ch == line_feed) ≡ false = ground (arith, p.1) in
    rw (a, b, feed-Printed (cur ++ ch ∷ []) text ps, append_assoc cur (ch ∷ []) text) refl

feed-line_end :
    (cur : List ℕ) (cr : Bool) (n : ℕ)
    → feed (record { cur = cur; cr = cr }) (line_end n)
      ≡ (record { cur = []; cr = false }, line cur ∷ [])
unfolding feed feed_char
feed-line_end cur true zero = refl
feed-line_end cur false zero = refl
feed-line_end cur cr (suc n) = rw (feed-line_end cur true n) refl

-- Lines whose texts hold no carriage return and no line feed, each ended by a line feed with any number
-- of carriage returns before it, come out as exactly these lines, each once, and nothing is left over.
pub feed-written :
    (lines : List (List ℕ × ℕ))
    → All (λ l. All Printed l.0) lines
    → feed create (written lines) ≡ (create, map (λ l. line l.0) lines)
feed-written [] p = unfold feed in refl
feed-written ((text, n) ∷ lines) (p, ps) =
    rw
      (
        feed-append create text (line_end n ++ written lines),
        feed-Printed [] text p,
        feed-append (record { cur = text; cr = false }) (line_end n) (written lines),
        feed-line_end text false n,
        feed-written lines ps,
      )
      refl

-- A text that is not empty and holds no carriage return and no line feed.
abbrev pub IsText : List ℕ → Type 0
IsText [] = ⊥
IsText (ch ∷ text) = All Printed (ch ∷ text)

feed-tail :
    (lines : List (List ℕ × ℕ)) (last : List ℕ)
    → All (λ l. All Printed l.0) lines
    → All Printed last
    → feed create (written lines ++ last)
      ≡ (record { cur = last; cr = false }, map (λ l. line l.0) lines)
feed-tail lines last p q =
    rw
      (
        feed-append create (written lines) last,
        feed-written lines p,
        feed-Printed [] last q,
        append-nil (map (λ l. line l.0) lines),
      )
      refl

-- Lines as in `feed-written`, followed by a text without a line feed that is not empty and holds no carriage
-- return either, come out as exactly these lines and the text, each once and in order, however the
-- stream is cut into chunks.
pub feed_all-written :
    (lines : List (List ℕ × ℕ)) (last : List ℕ) (chunks : List (List ℕ))
    → All (λ l. All Printed l.0) lines
    → IsText last
    → joined chunks ≡ written lines ++ last
    → feed_all create chunks ≡ map (λ l. line l.0) lines ++ line last ∷ []
unfolding feed_all flush
feed_all-written lines [] chunks p q e = absurd q
feed_all-written lines (ch ∷ last) chunks p q e =
    feed_all-joined create chunks
    ∙ ap (λ s. feed_all create (s ∷ [])) e
    ∙ ap (λ (r : LineAssembler × List Display). r.1 ++ feed_all r.0 []) whole
  where
    whole :
        feed create (written lines ++ (ch ∷ last))
        ≡ (record { cur = ch ∷ last; cr = false }, map (λ l. line l.0) lines)
    whole = feed-tail lines (ch ∷ last) p q

-- A line that is drawn over: the texts before each run of carriage returns are shown as partial, and
-- only the last one becomes a line.
abbrev pub returns : ℕ → List ℕ
returns zero = carriage_return ∷ []
returns (suc n) = carriage_return ∷ returns n

abbrev pub drawn : List (List ℕ × ℕ) → List ℕ → List ℕ
drawn [] last = last ++ line_feed ∷ []
drawn ((text, n) ∷ draws) last = text ++ (returns n ++ drawn draws last)

feed-returns :
    (cur : List ℕ) (cr : Bool) (n : ℕ)
    → feed (record { cur = cur; cr = cr }) (returns n) ≡ (record { cur = cur; cr = true }, [])
unfolding feed feed_char
feed-returns cur cr zero = refl
feed-returns cur cr (suc n) = rw (feed-returns cur true n) refl

feed-redraw :
    (cur text : List ℕ)
    → IsText text
    → feed (record { cur = cur; cr = true }) text
      ≡ (record { cur = text; cr = false }, partial cur ∷ [])
unfolding feed feed_char
feed-redraw cur [] p = absurd p
feed-redraw cur (ch ∷ text) (p, ps) =
    let a : (ch == carriage_return) ≡ false = ground (arith, p.0) in
    let b : (ch == line_feed) ≡ false = ground (arith, p.1) in
    rw (a, b, feed-Printed (ch ∷ []) text ps) refl

feed-drawn_over :
    (cur : List ℕ) (draws : List (List ℕ × ℕ)) (last : List ℕ)
    → All (λ d. IsText d.0) draws
    → IsText last
    → feed (record { cur = cur; cr = true }) (drawn draws last)
      ≡ (create, partial cur ∷ (map (λ d. partial d.0) draws ++ line last ∷ []))
feed-drawn_over cur [] last p q =
    rw
      (
        feed-append (record { cur = cur; cr = true }) last (line_feed ∷ []),
        feed-redraw cur last q,
        feed-line_end last false 0,
      )
      refl
feed-drawn_over cur ((text, n) ∷ draws) last (p, ps) q =
    rw
      (
        feed-append (record { cur = cur; cr = true }) text (returns n ++ drawn draws last),
        feed-redraw cur text p,
        feed-append (record { cur = text; cr = false }) (returns n) (drawn draws last),
        feed-returns text false n,
        feed-drawn_over text draws last ps q,
      )
      refl

-- A line that is drawn over, as a progress bar is: texts that each a run of one or more carriage
-- returns ends, then a last text and a line feed, no text being empty or holding a carriage return or a
-- line feed. Each text but the last is shown once, as partial, the last is the one line, and nothing is
-- left over.
pub feed-drawn :
    (text : List ℕ) (n : ℕ) (draws : List (List ℕ × ℕ)) (last : List ℕ)
    → IsText text
    → All (λ d. IsText d.0) draws
    → IsText last
    → feed create (drawn ((text, n) ∷ draws) last)
      ≡ (create, map (λ d. partial d.0) ((text, n) ∷ draws) ++ line last ∷ [])
feed-drawn [] n draws last t p q = absurd t
feed-drawn (ch ∷ text) n draws last t p q =
    rw
      (
        feed-append create (ch ∷ text) (returns n ++ drawn draws last),
        feed-Printed [] (ch ∷ text) t,
        feed-append (record { cur = ch ∷ text; cr = false }) (returns n) (drawn draws last),
        feed-returns (ch ∷ text) false n,
        feed-drawn_over (ch ∷ text) draws last p q,
      )
      refl
