-- ===== src/Tests/Draft.antt =====
-- A drafter over caches that are lists of tokens, whose model always proposes the token 7.
use maxtoken.Prelude.{
  Pairwise, ℕ, ◌-◌, List, [], ◌∷◌, ◌++◌, Bool, true, false, ◌≡◌, refl, ap, map, length, take, arith,
  length-append, inl,
}
use maxtoken.Draft.{DraftModel, draft, told, propose}
use maxtoken.Draft.Cache.{Caches}
use maxtoken.Draft.Lockstep.{Rounded, round-Lockstep}

abbrev ListCache : Type 0
ListCache = Bool × List ℕ

abbrev fed : List ℕ → ListCache → ListCache
fed tokens (plain, held) = (plain, held ++ tokens)

abbrev shorter : ℕ → ListCache → ListCache
shorter n (plain, held) = (plain, take (length held - n) held)

fed-held :
    (tokens : List ℕ) (cs : List ListCache)
    → Pairwise (λ c d. (d.1 ≡ c.1 ++ tokens) × (d.0 ≡ c.0)) cs (map (fed tokens) cs)
fed-held tokens [] = tt
fed-held tokens ((plain, held) ∷ cs) = ((refl, refl), fed-held tokens cs)

take_front : (front back : List ℕ) → take (length front) (front ++ back) ≡ front
take_front [] back = refl
take_front (x ∷ xs) back = ap (◌∷◌ x) (take_front xs back)

shorter-held :
    (c : ListCache) (front back : List ℕ)
    → c.1 ≡ front ++ back
    → (shorter (length back) c).1 ≡ front
shorter-held (plain, held) front back e =
    let n : length (front ++ back) - length back ≡ length front =
      omega (arith, length-append front back) in
    rw (e, n) (take_front front back)

abbrev list_caches : Caches ListCache (List ℕ)
list_caches = record {
  is_plain = λ c. c.0;
  held = λ c. c.1;
  trim = shorter;
  save = λ c. c.1;
  load = λ c s. (c.0, s);
  run = λ tokens cs. (map (fed tokens) cs, 7);
  run-held = fed-held;
  held-trim = λ c front back p e. shorter-held c front back e;
  plain-trim = λ n c. refl;
  held-load = λ c d. refl;
  plain-load = λ d s. refl;
}

-- Three drafts a round, on the path 1, 2, 3.
abbrev drafter : Bool → DraftModel list_caches
drafter plain = record {
  k = 3;
  cache = (plain, 1 ∷ 2 ∷ []) ∷ [];
  pending = 3 ∷ [];
  drafted = 0;
  drafted_tokens = [];
  snaps = [];
  fed = [];
}

round-Lockstep_example :
    (e : DraftModel list_caches) × Rounded list_caches (drafter true) (1 ∷ 2 ∷ 3 ∷ []) 2 1 9 e
round-Lockstep_example =
    round-Lockstep list_caches (drafter true) (1 ∷ 2 ∷ 3 ∷ []) 2 1 9 (omega arith) (omega arith)
      (omega arith) (inl (omega arith)) (refl, tt) (refl, tt)

-- The path repeats the last draft.
repeated :
    ((3 ∷ [])
      ++ take 3 (draft list_caches (drafter false)).1
      ++ told (draft list_caches (drafter false)).1 3 9)
    ≡ 3 ∷ 7 ∷ 7 ∷ 7 ∷ 7 ∷ 9 ∷ []
unfolding draft propose
repeated = refl
