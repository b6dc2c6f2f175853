-- ===== src/Detokenize/Stops.antt =====
-- Stop strings: what is held back, and where the text is cut.
use mathlib.Core.Path.{subst}
use maxtoken.Prelude.{
  ℕ, zero, suc, ◌+◌, ◌-◌, ◌≤◌, ◌<◌, ◌≡◌, ◌∙◌, refl, ap, sym, ◌⊎◌, inl, inr, min, max, List, [], ◌∷◌,
  length, take, drop, Option, none, some, Bool, true, false, leb, ◌==◌, arith, All, Bool-cases,
  Option-cases, length-take, leb→le, leb→lt,
}
use maxtoken.Detokenize.{
  same, ends_with, partial_stop, hold_from, stop_prefix_holdback, starts_with, find_text,
  DetokenizeMsg, emit_end,
}

-- The last `k` characters of the text are the first `k` of the stop string, and more of it would follow.
pub record IsPartial (text stop : List ℕ) (k : ℕ) : Type 0 where
  pub short : k < length stop
  pub fits : k ≤ length text
  pub agrees : drop (length text - k) text ≡ take k stop

same-eq : (xs ys : List ℕ) → same xs ys ≡ true → xs ≡ ys
unfolding same
same-eq [] [] h = refl
same-eq [] (y ∷ ys) h = absurd (ground arith)
same-eq (x ∷ xs) [] h = absurd (ground arith)
same-eq (x ∷ xs) (y ∷ ys) h =
    let e : x ≡ y = ground arith in let es = same-eq xs ys (ground arith) in rw (e, es) refl

same_refl : (xs : List ℕ) → same xs xs ≡ true
unfolding same
same_refl [] = refl
same_refl (x ∷ xs) = ground (arith, same_refl xs)

ends_with-IsPartial :
    (text stop : List ℕ) (k : ℕ)
    → k < length stop
    → k ≤ length text
    → ends_with text (take k stop) ≡ true
    → IsPartial text stop k
unfolding ends_with
ends_with-IsPartial text stop k short fits h =
    let n : length (take k stop) ≡ k = omega (arith, length-take k stop) in
    record {
      short = short;
      fits = fits;
      agrees =
          ap (λ j. drop (length text - j) text) (sym n)
          ∙ same-eq (drop (length text - length (take k stop)) text) (take k stop) (ground arith);
    }

IsPartial-ends_with :
    (text stop : List ℕ) (k : ℕ) → IsPartial text stop k → ends_with text (take k stop) ≡ true
unfolding ends_with
IsPartial-ends_with text stop k p =
    let n : length (take k stop) ≡ k = omega (arith, length-take k stop, p.short) in
    let e : drop (length text - length (take k stop)) text ≡ take k stop =
      ap (λ j. drop (length text - j) text) n ∙ p.agrees in
    let s : same (drop (length text - length (take k stop)) text) (take k stop) ≡ true =
      rw e (same_refl (take k stop)) in
    ground (arith, s, n, p.fits)

-- The loop finds the longest partial stop of at most `i` characters.
partial_stop_lem :
    (text stop : List ℕ) (i : ℕ)
    → i < length stop
    → i ≤ length text
    → ((partial_stop text stop i ≡ 0) ⊎ IsPartial text stop (partial_stop text stop i))
      × ((k : ℕ) → k ≤ i → IsPartial text stop k → k ≤ partial_stop text stop i)
unfolding partial_stop
partial_stop_lem text stop zero short fits = (inl refl, λ k le p. le)
partial_stop_lem text stop (suc i) short fits =
    let r = partial_stop_lem text stop i (omega arith) (omega arith) in
    elim (Bool-cases (ends_with text (take (suc i) stop))) [
      | inl y ↦ rw y (inr (ends_with-IsPartial text stop (suc i) short fits y), λ k le p. le)
      | inr n ↦ rw n (
        r.0,
        λ k le p. elim (Bool-cases (k == suc i)) [
          | inl e ↦
              let e' : k ≡ suc i = ground arith in
              absurd (
                let t = IsPartial-ends_with text stop k p in
                let t' : ends_with text (take (suc i) stop) ≡ true = rw (← e') t in cc)
          | inr e ↦ r.1 k (ground arith) p
        ],
      )
    ]

abbrev pub Any : (List ℕ → Type 0) → List (List ℕ) → Type 0
Any P [] = ⊥
Any P (x ∷ xs) = P x ⊎ Any P xs

-- The bound that the loop over a stop string starts from loses no partial stop.
each_stop :
    (text stop : List ℕ)
    → let i = partial_stop text stop (min (length stop - 1) (length text)) in
      ((i ≡ 0) ⊎ IsPartial text stop i) × ((k : ℕ) → IsPartial text stop k → k ≤ i)
each_stop text [] =
    let z : min (length {A = ℕ} [] - 1) (length text) ≡ 0 = omega arith in
    rw z (unfold partial_stop in (inl refl, λ k p. let s = p.short in absurd (omega arith)))
each_stop text (c ∷ stop) =
    let r =
      partial_stop_lem text (c ∷ stop) (min (length stop) (length text)) (omega arith)
        (omega arith) in
    let z : min (length (c ∷ stop) - 1) (length text) ≡ min (length stop) (length text) =
      omega arith in
    rw z (r.0, λ k p. let s = p.short in let f = p.fits in r.1 k (omega arith) p)

hold_from_lem :
    (text : List ℕ) (hold : ℕ) (stops : List (List ℕ))
    → ((hold_from text hold stops ≡ hold)
        ⊎ Any (λ stop. IsPartial text stop (hold_from text hold stops)) stops)
      × (hold ≤ hold_from text hold stops)
      × All (λ stop. (k : ℕ) → IsPartial text stop k → k ≤ hold_from text hold stops) stops
unfolding hold_from
hold_from_lem text hold [] = (inl refl, omega arith, tt)
hold_from_lem text hold (stop ∷ stops) =
    let i = partial_stop text stop (min (length stop - 1) (length text)) in
    let e = each_stop text stop in
    let r = hold_from_lem text (max hold i) stops in
    let all = hold_from text (max hold i) stops in
    let found : (all ≡ hold) ⊎ Any (λ t. IsPartial text t all) (stop ∷ stops) = elim r.0 [
      | inr a ↦ inr (inr a)
      | inl same_hold ↦ elim (Bool-cases (leb i hold)) [
        | inl less ↦ inl (let le = leb→le i hold less in omega (arith, same_hold))
        | inr more ↦
            let lt = leb→lt i hold more in
            let q : hold_from text (max hold i) stops ≡ i = omega (arith, same_hold) in
            elim e.0 [ inl z ↦ absurd (omega arith) | inr p ↦ inr (inl (rw q p)) ]
      ]
    ] in
    (found, omega (arith, r.1), ((λ k p. let b = e.1 k p in omega (arith, r.1)), r.2))

-- The text that is held back is the longest end of the text that is a proper beginning of one of the
-- stop strings: it is one, if it is not empty, and no longer end is one.
pub stop_prefix_holdback_lem :
    (text : List ℕ) (stops : List (List ℕ))
    → ((stop_prefix_holdback text stops ≡ 0)
        ⊎ Any (λ stop. IsPartial text stop (stop_prefix_holdback text stops)) stops)
      × All (λ stop. (k : ℕ) → IsPartial text stop k → k ≤ stop_prefix_holdback text stops) stops
unfolding stop_prefix_holdback
stop_prefix_holdback_lem text stops = let r = hold_from_lem text 0 stops in (r.0, r.2)

starts_with-take :
    (text stop : List ℕ) → starts_with text stop ≡ true → take (length stop) text ≡ stop
unfolding starts_with
starts_with-take text [] h = refl
starts_with-take [] (y ∷ ys) h = absurd (ground arith)
starts_with-take (x ∷ xs) (y ∷ ys) h =
    let e : x ≡ y = ground arith in
    let es = starts_with-take xs ys (ground arith) in rw (e, es) refl

take-starts_with :
    (text stop : List ℕ) → take (length stop) text ≡ stop → starts_with text stop ≡ true
unfolding starts_with
take-starts_with text [] h = refl
take-starts_with [] (y ∷ ys) h = absurd (let n = ap length h in omega arith)
take-starts_with (x ∷ xs) (y ∷ ys) h =
    let e : x ≡ y = ap first h in ground (arith, take-starts_with xs ys (ap (drop 1) h))
  where
    first : List ℕ → ℕ
    first [] = 0
    first (z ∷ _) = z

-- The stop string stands in the text at `n`.
abbrev pub Occurs : List ℕ → List ℕ → ℕ → Type 0
Occurs text stop n = (n ≤ length text) × (take (length stop) (drop n text) ≡ stop)

not_here : (text stop : List ℕ) → starts_with text stop ≡ false → take (length stop) text ≡ stop → ⊥
not_here text stop f t = let s = take-starts_with text stop t in absurd (cc)

-- What `find` answers: the first place where the stop string stands, if there is one.
abbrev pub IsFirst : List ℕ → List ℕ → Option ℕ → Type 0
IsFirst text stop none = (n : ℕ) → ¬ Occurs text stop n
IsFirst text stop (some cut) = Occurs text stop cut × ((n : ℕ) → Occurs text stop n → cut ≤ n)

absent_nil : (stop : List ℕ) → starts_with [] stop ≡ false → (n : ℕ) → ¬ Occurs [] stop n
absent_nil stop f zero o = not_here [] stop f o.1
absent_nil stop f (suc n) o = let le = o.0 in absurd (omega arith)

absent_cons :
    (x : ℕ) (xs stop : List ℕ)
    → starts_with (x ∷ xs) stop ≡ false
    → IsFirst xs stop none
    → (n : ℕ) → ¬ Occurs (x ∷ xs) stop n
absent_cons x xs stop f r zero o = not_here (x ∷ xs) stop f o.1
absent_cons x xs stop f r (suc n) o = r n ((let le = o.0 in omega arith), o.1)

later_cons :
    (x : ℕ) (xs stop : List ℕ) (cut : ℕ)
    → starts_with (x ∷ xs) stop ≡ false
    → IsFirst xs stop (some cut)
    → (n : ℕ) → Occurs (x ∷ xs) stop n
    → suc cut ≤ n
later_cons x xs stop cut f r zero o = absurd (not_here (x ∷ xs) stop f o.1)
later_cons x xs stop cut f r (suc n) o =
    let le = o.0 in let q = r.1 n (omega arith, o.1) in omega arith

pub find_text-IsFirst : (text stop : List ℕ) → IsFirst text stop (find_text text stop)
unfolding find_text
find_text-IsFirst [] stop = elim (Bool-cases (starts_with [] stop)) [
  | inl y ↦ rw y ((omega arith, starts_with-take [] stop y), λ n o. omega arith)
  | inr f ↦ rw f (absent_nil stop f)
]
find_text-IsFirst (x ∷ xs) stop = elim (Bool-cases (starts_with (x ∷ xs) stop)) [
  | inl y ↦ rw y ((omega arith, starts_with-take (x ∷ xs) stop y), λ n o. omega arith)
  | inr f ↦ elim (Option-cases (find_text xs stop)) [
    | inl e ↦
        let r : IsFirst xs stop none = subst (IsFirst xs stop) e (find_text-IsFirst xs stop) in
        rw (f, e) (absent_cons x xs stop f r)
    | inr (cut, e) ↦
        let r : IsFirst xs stop (some cut) =
          subst (IsFirst xs stop) e (find_text-IsFirst xs stop) in
        rw (f, e) ((let le = r.0.0 in omega arith, r.0.1), later_cons x xs stop cut f r)
  ]
]

fits-Any :
    (text : List ℕ) (h : ℕ) (stops : List (List ℕ))
    → Any (λ stop. IsPartial text stop h) stops
    → h ≤ length text
fits-Any text h [] a = absurd a
fits-Any text h (stop ∷ stops) (inl p) = p.fits
fits-Any text h (stop ∷ stops) (inr a) = fits-Any text h stops a

-- Where the text may end while tokens still come: no end of it that could grow into a stop string goes
-- out, and what stays back is such an end or empty.
pub record IsHeld (stops : List (List ℕ)) (text : List ℕ) (n : ℕ) : Type 0 where
  pub inside : n ≤ length text
  pub enough : All (λ stop. (k : ℕ) → IsPartial text stop k → n + k ≤ length text) stops
  pub least : (n ≡ length text) ⊎ Any (λ stop. IsPartial text stop (length text - n)) stops

-- Where it ends at the end: before the first place of the stop string that matched, if there are both.
abbrev pub IsCut : List ℕ → List ℕ → ℕ → Type 0
IsCut [] text n = n ≡ length text
IsCut (c ∷ cs) text n =
    IsFirst text (c ∷ cs) (some n) ⊎ ((n ≡ length text) × IsFirst text (c ∷ cs) none)

abbrev pub Ends : Bool → List ℕ → List (List ℕ) → List ℕ → ℕ → Type 0
Ends true matched_stop stop_strs text n = IsCut matched_stop text n
Ends false matched_stop stop_strs text n = IsHeld stop_strs text n

enough-All :
    (text : List ℕ) (h : ℕ) (stops : List (List ℕ))
    → h ≤ length text
    → All (λ stop. (k : ℕ) → IsPartial text stop k → k ≤ h) stops
    → All (λ stop. (k : ℕ) → IsPartial text stop k → length text - h + k ≤ length text) stops
enough-All text h [] le a = tt
enough-All text h (stop ∷ stops) le a =
    ((λ k p. let b = a.0 k p in omega arith), enough-All text h stops le a.1)

stop_end-IsHeld :
    (text : List ℕ) (stops : List (List ℕ))
    → IsHeld stops text (length text - stop_prefix_holdback text stops)
stop_end-IsHeld text stops =
    let h = stop_prefix_holdback text stops in
    let r = stop_prefix_holdback_lem text stops in
    elim r.0 [
      | inl z ↦
          let le : h ≤ length text = omega (arith, z) in
          record {
            inside = omega arith;
            enough = enough-All text h stops le r.1;
            least = inl (omega (arith, z));
          }
      | inr a ↦
          let le = fits-Any text h stops a in
          let back : length text - (length text - h) ≡ h = omega arith in
          record {
            inside = omega arith;
            enough = enough-All text h stops le r.1;
            least = inr (rw back a);
          }
    ]

nothing-IsHeld : (text : List ℕ) → IsHeld [] text (length text)
nothing-IsHeld text = record { inside = omega arith; enough = tt; least = inl refl }

emit_end-fields :
    (uid token : ℕ) (finished : Bool) (matched : List ℕ) (stops : List (List ℕ)) (text : List ℕ)
    → Ends finished matched stops text (
        emit_end
          (record {
            uid = uid;
            next_token = token;
            finished = finished;
            matched_stop = matched;
            stop_strs = stops;
          })
          text)
unfolding emit_end
emit_end-fields uid token true [] stops text = refl
emit_end-fields uid token true (c ∷ cs) stops text = elim (Option-cases (find_text text (c ∷ cs))) [
  | inl e ↦ rw e (inr (refl, subst (IsFirst text (c ∷ cs)) e (find_text-IsFirst text (c ∷ cs))))
  | inr (cut, e) ↦ rw e (inl (subst (IsFirst text (c ∷ cs)) e (find_text-IsFirst text (c ∷ cs))))
]
emit_end-fields uid token false matched [] text = nothing-IsHeld text
emit_end-fields uid token false matched (stop ∷ stops) text = stop_end-IsHeld text (stop ∷ stops)

-- Where the text that goes out ends. While a request runs, no end of the text that is a proper
-- beginning of a stop string goes out, and what stays back is the longest such end. When it is
-- finished, all of the text goes out up to the first place of the stop string that matched, if there
-- is one and it stands in the text.
pub emit_end-Ends :
    (msg : DetokenizeMsg) (text : List ℕ)
    → Ends msg.finished msg.matched_stop msg.stop_strs text (emit_end msg text)
emit_end-Ends msg text =
    emit_end-fields msg.uid msg.next_token msg.finished msg.matched_stop msg.stop_strs text
