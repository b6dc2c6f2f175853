-- ===== src/Draft/Lockstep.antt =====
-- The drafter's caches and its pending tokens stand on the committed path, round after round, where every
-- cache can be trimmed.
use mathlib.Core.Path.{subst}
use maxtoken.Prelude.{
  Pairwise, ℕ, zero, suc, ◌-◌, ◌≤◌, ◌<◌, ◌⊎◌, leb, Option, List, [], ◌∷◌, ◌++◌, some, true, false,
  ◌≡◌, ◌∙◌, refl, ap, sym, ltb, if◌then◌else◌, map, length, take, drop, All, Bool-cases, arith,
  append_assoc, append-nil, take-append-drop, length-take, length-drop, take_of_length-le, inl, inr,
}
use maxtoken.Draft.{DraftModel, snapshot, propose, draft, has_state, commit, round, told, last_of}
use maxtoken.Draft.Cache.{Caches}

pub Pairwise-trans :
    {A B C : Type 0} {R : A → B → Type 0} {S : B → C → Type 0} {T : A → C → Type 0}
    → ((x : A) (y : B) (z : C) → R x y → S y z → T x z)
    → (xs : List A) (ys : List B) (zs : List C) → Pairwise R xs ys
    → Pairwise S ys zs
    → Pairwise T xs zs
Pairwise-trans f [] [] [] p q = tt
Pairwise-trans f (x ∷ xs) (y ∷ ys) (z ∷ zs) (p, ps) (q, qs) =
    (f x y z p q, Pairwise-trans f xs ys zs ps qs)
Pairwise-trans f [] [] (z ∷ zs) p q = absurd q
Pairwise-trans f [] (y ∷ ys) zs p q = absurd p
Pairwise-trans f (x ∷ xs) [] zs p q = absurd p
Pairwise-trans f (x ∷ xs) (y ∷ ys) [] p q = absurd q

-- What holds of the first list's elements and of each pair holds of the second's.
pub All-Pairwise :
    {A B : Type 0} {P : A → Type 0} {R : A → B → Type 0} {Q : B → Type 0}
    → ((x : A) (y : B) → P x → R x y → Q y)
    → (xs : List A) (ys : List B) → All P xs
    → Pairwise R xs ys
    → All Q ys
All-Pairwise f [] [] a p = tt
All-Pairwise f (x ∷ xs) (y ∷ ys) (a, rest) (p, ps) = (f x y a p, All-Pairwise f xs ys rest ps)
All-Pairwise f [] (y ∷ ys) a p = absurd p
All-Pairwise f (x ∷ xs) [] a p = absurd p

module _ {C S : Type 0} (caches : Caches C S) where
  -- What a cache becomes that takes in more tokens.
  abbrev pub Took : List ℕ → C → C → Type 0
  Took tokens c d =
      (caches.held d ≡ caches.held c ++ tokens) × (caches.is_plain d ≡ caches.is_plain c)

  pub Took-append : (xs ys : List ℕ) (a b c : C) → Took xs a b → Took ys b c → Took (xs ++ ys) a c
  Took-append xs ys a b c (p, q) (r, s) =
      (r ∙ (ap (λ h. h ++ ys) p ∙ append_assoc (caches.held a) xs ys), s ∙ q)

  -- The caches take in what is fed and every draft but the last.
  pub propose-Took :
      (n : ℕ) (feed : List ℕ) (cs : List C)
      → let (ds, drafts) = propose caches (suc n) feed cs in
        Pairwise (Took (feed ++ take n drafts)) cs ds × (length drafts ≡ suc n)
  unfolding propose
  propose-Took zero feed cs = (
    subst (λ t. Pairwise (Took t) cs (caches.run feed cs).0) (sym (append-nil feed))
        (caches.run-held feed cs),
    refl,
  )
  propose-Took (suc n) feed cs =
      let (ds, tok) = caches.run feed cs in
      let (p, l) = propose-Took n (tok ∷ []) ds in
      (
        Pairwise-trans (Took-append feed (tok ∷ take n (propose caches (suc n) (tok ∷ []) ds).1)) cs
            ds (propose caches (suc n) (tok ∷ []) ds).0 (caches.run-held feed cs) p,
        ap suc l,
      )

  abbrev pub AllPlain : List C → Type 0
  AllPlain cs = All (λ c. caches.is_plain c ≡ true) cs

  -- A cache's tokens and the pending ones are the committed path.
  abbrev pub Lockstep : List ℕ → DraftModel caches → Type 0
  Lockstep path d = All (λ c. caches.held c ++ d.pending ≡ path) d.cache

  abbrev trimmed : ℕ → List C → List C
  trimmed n cs = if ltb 0 n then map (caches.trim n) cs else cs

  trim_all :
      (front back : List ℕ) (cs ds : List C)
      → AllPlain cs
      → Pairwise (Took (front ++ back)) cs ds
      → Pairwise (Took front) cs (map (caches.trim (length back)) ds)
  trim_all front back [] [] a p = tt
  trim_all front back (c ∷ cs) (d ∷ ds) (a, rest) ((p, q), ps) = (
    (
      caches.held-trim d (caches.held c ++ front) back (q ∙ a)
          (p ∙ sym (append_assoc (caches.held c) front back)),
      caches.plain-trim (length back) d ∙ q,
    ),
    trim_all front back cs ds rest ps,
  )
  trim_all front back [] (d ∷ ds) a p = absurd p
  trim_all front back (c ∷ cs) [] a p = absurd p

  trimmed-Took :
      (front back : List ℕ) (cs ds : List C)
      → AllPlain cs
      → Pairwise (Took (front ++ back)) cs ds
      → Pairwise (Took front) cs (trimmed (length back) ds)
  trimmed-Took front [] cs ds a p = subst (λ t. Pairwise (Took t) cs ds) (append-nil front) p
  trimmed-Took front (b ∷ back) cs ds a p =
      let pos : ltb 0 (suc (length back)) ≡ true = ground arith in
      rw pos (trim_all front (b ∷ back) cs ds a p)

  no_state : (cs : List C) → AllPlain cs → has_state caches (map (snapshot caches) cs) ≡ false
  no_state [] a = refl
  no_state (c ∷ cs) (a, rest) = rw a (no_state cs rest)

  joined : (h p t u path : List ℕ) → h ++ p ≡ path → (h ++ (p ++ t)) ++ u ≡ path ++ (t ++ u)
  joined h p t u path e =
      ap (λ x. x ++ u) (sym (append_assoc h p t) ∙ ap (λ x. x ++ t) e) ∙ append_assoc path t u

  Took-AllPlain :
      (t : List ℕ) (cs ds : List C) → AllPlain cs → Pairwise (Took t) cs ds → AllPlain ds
  Took-AllPlain t cs ds a p = All-Pairwise (λ x y e q. q.1 ∙ e) cs ds a p

  Took-Lockstep :
      (p t u path : List ℕ) (cs ds : List C)
      → All (λ c. caches.held c ++ p ≡ path) cs
      → Pairwise (Took (p ++ t)) cs ds
      → All (λ c. caches.held c ++ u ≡ path ++ (t ++ u)) ds
  Took-Lockstep p t u path cs ds a q =
      All-Pairwise (λ x y e r. ap (λ h. h ++ u) r.0 ∙ joined (caches.held x) p t u path e) cs ds a q

  -- What was accepted and what was not of the drafts that the caches hold.
  held_drafts :
      (n a : ℕ) (drafts : List ℕ) → a ≤ n → take n drafts ≡ take a drafts ++ drop a (take n drafts)
  held_drafts n zero drafts le = refl
  held_drafts (suc n) (suc a) [] le = refl
  held_drafts (suc n) (suc a) (x ∷ xs) le = ap (◌∷◌ x) (held_drafts n a xs (omega arith))
  held_drafts zero (suc a) drafts le = absurd (omega arith)

  pub dropped :
      (n a : ℕ) (drafts : List ℕ) → length drafts ≡ suc n → length (drop a (take n drafts)) ≡ n - a
  dropped n a drafts l = omega (arith, length-drop a (take n drafts), length-take n drafts)

  -- A round all of whose drafts are verified.
  abbrev whole : DraftModel caches → ℕ → ℕ → Option (DraftModel caches)
  whole d a token = commit caches (draft caches d).0 a (told (draft caches d).1 a token)

  abbrev Ended : DraftModel caches → List ℕ → ℕ → ℕ → DraftModel caches → Type 0
  Ended d path a token e =
      (whole d a token ≡ some e)
      × Lockstep (path ++ (take a (draft caches d).1 ++ token ∷ [])) e
      × AllPlain e.cache
      × (e.k ≡ d.k)

  -- The caches, the drafts and what is committed after a round.
  abbrev pub Rounded : DraftModel caches → List ℕ → ℕ → ℕ → ℕ → DraftModel caches → Type 0
  Rounded d path room a token e =
      (round caches d room a token ≡ some e)
      × Lockstep (path ++ (take a (draft caches d).1 ++ token ∷ [])) e
      × AllPlain e.cache
      × (e.k ≡ d.k)

  pub drafted-Took :
      (d : DraftModel caches) (n : ℕ)
      → d.k ≡ suc n
      → let (ds, drafts) = propose caches d.k d.pending d.cache in
        Pairwise (Took (d.pending ++ take n drafts)) d.cache ds × (length drafts ≡ suc n)
  drafted-Took d n k = rw k (propose-Took n d.pending d.cache)

  partial_round :
      (d : DraftModel caches) (path : List ℕ) (n a token : ℕ)
      → d.k ≡ suc n
      → a ≤ n
      → AllPlain d.cache
      → Lockstep path d
      → (e : DraftModel caches) × Ended d path a token e
  unfolding draft commit
  partial_round d path n a token k le plain lock =
      let (ds, drafts) = propose caches d.k d.pending d.cache in
      let (held, l) = drafted-Took d n k in
      let back = drop a (take n drafts) in
      let shorter : length back ≡ d.k - 1 - a = omega (arith, dropped n a drafts l) in
      let split =
        subst (λ t. Pairwise (Took t) d.cache ds)
          (ap (λ t. d.pending ++ t) (held_drafts n a drafts le)
            ∙ sym (append_assoc d.pending (take a drafts) back))
          held in
      let kept : Pairwise (Took (d.pending ++ take a drafts)) d.cache (trimmed (d.k - 1 - a) ds) =
        subst (λ m. Pairwise (Took (d.pending ++ take a drafts)) d.cache (trimmed m ds)) shorter
          (trimmed-Took (d.pending ++ take a drafts) back d.cache ds plain split) in
      let few : ltb a (length drafts) ≡ true = let le' : a ≤ n = le in ground (arith, l) in
      (
        record d {
          cache = trimmed (d.k - 1 - a) ds;
          pending = token ∷ [];
          drafted = 0;
          drafted_tokens = drafts;
          snaps = map (snapshot caches) d.cache;
          fed = d.pending;
        },
        (
          rw (no_state d.cache plain, few) refl,
          Took-Lockstep d.pending (take a drafts) (token ∷ []) path d.cache
              (trimmed (d.k - 1 - a) ds) lock kept,
          Took-AllPlain (d.pending ++ take a drafts) d.cache (trimmed (d.k - 1 - a) ds) plain kept,
          refl,
        ),
      )

  whole_round :
      (d : DraftModel caches) (path : List ℕ) (n token : ℕ)
      → d.k ≡ suc n
      → AllPlain d.cache
      → Lockstep path d
      → (e : DraftModel caches) × Ended d path (suc n) token e
  unfolding draft commit
  whole_round d path n token k plain lock =
      let (ds, drafts) = propose caches d.k d.pending d.cache in
      let (held, l) = drafted-Took d n k in
      let none_over : ltb 0 (d.k - 1 - suc n) ≡ false = ground arith in
      let all_of : ltb (suc n) (length drafts) ≡ false = ground (arith, l) in
      let at : length drafts - 1 ≡ n = omega (arith, l) in
      let rejoined : take (suc n) drafts ≡ take n drafts ++ last_of drafts =
        take_of_length-le (suc n) drafts (omega (arith, l))
        ∙ sym (rw at (take-append-drop n drafts)) in
      let e : DraftModel caches = record d {
        cache = ds;
        pending = last_of drafts ++ token ∷ [];
        drafted = 0;
        drafted_tokens = drafts;
        snaps = map (snapshot caches) d.cache;
        fed = d.pending;
      } in
      let path' : path ++ (take n drafts ++ (last_of drafts ++ token ∷ []))
          ≡ path ++ (take (suc n) drafts ++ token ∷ []) =
        ap (λ t. path ++ t)
          (sym (append_assoc (take n drafts) (last_of drafts) (token ∷ []))
            ∙ ap (λ t. t ++ token ∷ []) (sym rejoined)) in
      (
        e,
        (
          rw (no_state d.cache plain, all_of, none_over) refl,
          subst (λ p. Lockstep p e) path'
              (Took-Lockstep d.pending (take n drafts) (last_of drafts ++ token ∷ []) path d.cache
                ds lock held),
          Took-AllPlain (d.pending ++ take n drafts) d.cache ds plain held,
          refl,
        ),
      )

  length-draft : (d : DraftModel caches) → 1 ≤ d.k → length (draft caches d).1 ≡ d.k
  unfolding draft
  length-draft d pos =
      let k : d.k ≡ suc (d.k - 1) = omega arith in
      let l = (drafted-Took d (d.k - 1) k).1 in omega (arith, l)

  whole-Lockstep :
      (d : DraftModel caches) (path : List ℕ) (a token : ℕ)
      → 1 ≤ d.k
      → a ≤ d.k
      → AllPlain d.cache
      → Lockstep path d
      → (e : DraftModel caches) × Ended d path a token e
  whole-Lockstep d path a token pos le plain lock =
      let k : d.k ≡ suc (d.k - 1) = omega arith in
      elim (Bool-cases (ltb a d.k)) [
        | inl less ↦ partial_round d path (d.k - 1) a token k (ground arith) plain lock
        | inr all ↦
            let same : suc (d.k - 1) ≡ a = ground arith in
            subst (λ b. (e : DraftModel caches) × Ended d path b token e) same
              (whole_round d path (d.k - 1) token k plain lock)
      ]

  -- Drafts that are cut off make no difference unless all the others are accepted.
  told-take :
      (room a token : ℕ) (drafts : List ℕ)
      → a ≤ length drafts
      → (a < room) ⊎ (length drafts ≤ room)
      → told (take room drafts) a token ≡ told drafts a token
  told-take room a token drafts le cut = elim (Bool-cases (leb (length drafts) room)) [
    | inl fits ↦
        let short : length drafts ≤ room = ground arith in
        ap (λ xs. told xs a token) (take_of_length-le room drafts short)
    | inr longer ↦
        let early : a < room = ground arith in
        let n = length-take room drafts in
        let few : ltb a (length (take room drafts)) ≡ true = ground arith in
        let few' : ltb a (length drafts) ≡ true = ground arith in rw (few, few') refl
  ]

  round-whole :
      (d : DraftModel caches) (room a token : ℕ)
      → 1 ≤ d.k
      → 1 ≤ room
      → a ≤ d.k
      → (a < room) ⊎ (d.k ≤ room)
      → round caches d room a token ≡ whole d a token
  unfolding round
  round-whole d zero a token pos space le cut = absurd (omega arith)
  round-whole d (suc room) a token pos space le cut =
      let drafts = (draft caches d).1 in
      let l : length drafts ≡ d.k = length-draft d pos in
      ap (commit caches (draft caches d).0 a) (
        told-take (suc room) a token drafts (omega (arith, l))
          (elim cut [ inl x ↦ inl x | inr x ↦ inr (omega (arith, l)) ]))

  -- Where every cache can be trimmed and the drafter stands on the committed path, a round of at least
  -- one draft, in whose window there is room for one at least, leaves the drafter on the committed path: the
  -- tokens that each cache holds and the pending ones are the path before, the accepted drafts and the
  -- target's token. This holds whatever was accepted, unless the window cuts drafts off and all of the
  -- others are accepted.
  pub round-Lockstep :
      (d : DraftModel caches) (path : List ℕ) (room a token : ℕ)
      → 1 ≤ d.k
      → 1 ≤ room
      → a ≤ d.k
      → (a < room) ⊎ (d.k ≤ room)
      → AllPlain d.cache
      → Lockstep path d
      → (e : DraftModel caches) × Rounded d path room a token e
  round-Lockstep d path room a token pos space le cut plain lock =
      let (e, (r, path', plain', same)) = whole-Lockstep d path a token pos le plain lock in
      (e, (round-whole d room a token pos space le cut ∙ r, path', plain', same))
