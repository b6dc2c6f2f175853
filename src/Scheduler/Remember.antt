-- ===== src/Scheduler/Remember.antt =====
-- What `_remember` of python/maxtoken/mlx_backend/worker.py donates to the prefix stores: caches that stand for as
-- many tokens as they are stored under.
use maxtoken.Prelude.{
  ℕ, ◌-◌, List, [], ◌∷◌, ◌++◌, Option, none, some, Bool, true, false, not, ◌==◌, ◌||◌, ltb,
  if◌then◌else◌, ◌≡◌, refl, ap, sym, ◌∙◌, arith, inl, inr, ◌⊎◌, Bool-cases, Option-cases, All,
  All-append, map, length, take, eqb→eq,
}
use mathlib.Core.Bool.{true≢false}
use mathlib.Core.Path.{subst}
use mathlib.Core.Option.{some-injective, none-ne-some}
use maxtoken.Scheduler.State.{
  Engine, Request, StoreCall, disk_done, insert_snapshot, observe_snapshot, first_offset,
  all_trimmable, fitted, remember,
}

abbrev pub less : ℕ → Option ℕ → Option ℕ
less k none = none
less k (some n) = some (n - k)

-- mlx-lm's trim: the offset of a layer that can be trimmed goes back by as much as asked for.
abbrev pub Trims : {L : Type 0} → Engine L → Type 0
Trims engine =
    (k : _) (c : _)
    → engine.is_trimmable c ≡ true
    → engine.offset (engine.trim k c) ≡ less k (engine.offset c)

-- A layer that can be trimmed has no offset, or stands for `n` tokens.
abbrev pub IsAt : {L : Type 0} → Engine L → ℕ → L → Type 0
IsAt engine n c =
    engine.is_trimmable c ≡ true → (engine.offset c ≡ none) ⊎ (engine.offset c ≡ some n)

-- The layers of a cache that a request carries stand for the same number of tokens.
abbrev pub IsLevel : {L : Type 0} → Engine L → Option (List L) → Type 0
IsLevel engine none = Unit
IsLevel engine (some cs) = (m : ℕ) × All (IsAt engine m) cs

abbrev pub IsSound : {L : Type 0} → Engine L → StoreCall L → Type 0
IsSound engine (disk_done tokens) = Unit
IsSound engine (insert_snapshot tokens cache) = All (IsAt engine (length tokens)) cache
IsSound engine (observe_snapshot tokens cache prompt_len) = All (IsAt engine (length tokens)) cache

module _ {L : Type 0} (engine : Engine L) (trims : Trims engine) where
  first_none-All : (n : ℕ) (cs : List L) → first_offset engine cs ≡ none → All (IsAt engine n) cs
  first_none-All n [] h = tt
  first_none-All n (c ∷ cs) h = elim (Bool-cases (engine.is_trimmable c)) [
    | inr e ↦ ((λ y. absurd (true≢false (sym y ∙ e))), first_none-All n cs (rw e at h))
    | inl e ↦ elim (Option-cases (engine.offset c)) [
      | inl o ↦ ((λ y. inl o), first_none-All n cs (rw (e, o) at h))
      | inr (m, o) ↦ absurd (none-ne-some m (sym (rw (e, o) at h)))
    ]
  ]

  first_some-All :
      (m off : ℕ) (cs : List L)
      → All (IsAt engine m) cs
      → first_offset engine cs ≡ some off
      → off ≡ m
  first_some-All m off [] all h = absurd (none-ne-some off h)
  first_some-All m off (c ∷ cs) all h = elim (Bool-cases (engine.is_trimmable c)) [
    | inr e ↦ first_some-All m off cs all.1 (rw e at h)
    | inl e ↦ elim (Option-cases (engine.offset c)) [
      | inl o ↦ first_some-All m off cs all.1 (rw (e, o) at h)
      | inr (j, o) ↦ elim (all.0 e) [
        | inl z ↦ absurd (none-ne-some j (sym z ∙ o))
        | inr z ↦ sym (some-injective j off (rw (e, o) at h)) ∙ some-injective j m (sym o ∙ z)
      ]
    ]
  ]

  trim-All :
      (k m n : ℕ) (cs : List L)
      → m - k ≡ n
      → all_trimmable engine cs ≡ true
      → All (IsAt engine m) cs
      → All (IsAt engine n) (map (engine.trim k) cs)
  trim-All k m n [] e t all = tt
  trim-All k m n (c ∷ cs) e t all =
      let here : engine.is_trimmable c ≡ true = ground arith in
      let later : all_trimmable engine cs ≡ true = ground arith in
      (
        λ _. elim (all.0 here) [
          | inl z ↦ inl (trims k c here ∙ ap (less k) z)
          | inr z ↦ inr (trims k c here ∙ ap (less k) z ∙ ap some e)
        ],
        trim-All k m n cs e later all.1,
      )

  fitted-All :
      (n m : ℕ) (cs ds : List L)
      → All (IsAt engine m) cs
      → fitted engine n cs ≡ some ds
      → All (IsAt engine n) ds
  unfolding fitted
  fitted-All n m cs ds all h = elim (Option-cases (first_offset engine cs)) [
    | inl o ↦
        subst (All (IsAt engine n)) (some-injective cs ds (rw (o, fitted) at h))
          (first_none-All n cs o)
    | inr (off, o) ↦
        let at_m : off ≡ m = first_some-All m off cs all o in
        elim (Bool-cases (off == n)) [
          | inl e ↦
              let m≡n : m ≡ n = sym at_m ∙ eqb→eq off n e in
              subst (All (IsAt engine n)) (some-injective cs ds (rw (o, e, fitted) at h))
                (subst (λ i. All (IsAt engine i) cs) m≡n all)
          | inr e ↦ elim (Bool-cases (ltb off n || not (all_trimmable engine cs))) [
            | inl g ↦ absurd (none-ne-some ds (rw (o, e, g, fitted) at h))
            | inr g ↦
                subst (All (IsAt engine n))
                  (some-injective (map (engine.trim (off - n)) cs) ds (rw (o, e, g, fitted) at h))
                  (trim-All (off - n) m n cs (ground arith) (ground arith) all)
          ]
        ]
  ]

  donated-All :
      (tokens : List ℕ) (o : Option (List L))
      → ((ds : List L) → o ≡ some ds → All (IsAt engine (length tokens)) ds)
      → All (IsSound engine) (elim o [ none ↦ [] | some d ↦ insert_snapshot tokens d ∷ [] ])
  donated-All tokens none holds = tt
  donated-All tokens (some d) holds = (holds d refl, tt)

  cached-All :
      (tokens : List ℕ) (cache : Option (List L))
      → IsLevel engine cache
      → All (IsSound engine) (elim cache [
        | none ↦ []
        | some c ↦ elim (fitted engine (length tokens) c) [
          | none ↦ []
          | some d ↦ insert_snapshot tokens d ∷ []
        ]
      ])
  cached-All tokens none level = tt
  cached-All tokens (some c) (m, level) =
      donated-All tokens (fitted engine (length tokens) c)
        (λ ds. fitted-All (length tokens) m c ds level)

  stored-All :
      (has_store : Bool) (calls : List (StoreCall L))
      → All (IsSound engine) calls
      → All (IsSound engine) (if not has_store then [] else calls)
  stored-All true calls h = h
  stored-All false calls h = tt

  done-All :
      (has_disk : Bool) (tokens : List ℕ)
      → All (IsSound engine) (if has_disk then disk_done tokens ∷ [] else [])
  done-All true tokens = (tt, tt)
  done-All false tokens = tt

  remembered-All :
      (has_store has_disk : Bool) (req : Request L) (cache : Option (List L))
      → IsLevel engine cache
      → let tokens = req.prompt_ids ++ take (length req.output_ids - 1) req.output_ids in
        All (IsSound engine) (
          (if has_disk then disk_done req.prompt_ids ∷ [] else [])
          ++ (if not has_store then [] else elim cache [
            | none ↦ []
            | some c ↦ elim (fitted engine (length tokens) c) [
              | none ↦ []
              | some d ↦ insert_snapshot tokens d ∷ []
            ]
          ]))
  remembered-All has_store has_disk req cache level =
      let tokens = req.prompt_ids ++ take (length req.output_ids - 1) req.output_ids in
      All-append (IsSound engine) (if has_disk then disk_done req.prompt_ids ∷ [] else []) _
        (done-All has_disk req.prompt_ids) (stored-All has_store _ (cached-All tokens cache level))

-- When trimming takes the offset of a layer that can be trimmed back by as much as asked for, and the layers of the
-- request's cache and of the donated one that can be trimmed and have an offset agree on it, each layer of a
-- cache that a request donates at its end that can be trimmed has no offset or stands for as many tokens as the
-- cache is stored under. This holds for every request, every donated cache and whichever stores there are.
pub remember-All :
    {L : Type 0} (engine : Engine L)
    → Trims engine
    → (has_store has_disk : Bool) (req : Request L) (cache : Option (List L))
    → IsLevel engine req.cache
    → IsLevel engine cache
    → All (IsSound engine) (remember engine has_store has_disk req cache)
unfolding remember
remember-All {L = L} engine trims has_store has_disk req none own given =
    remembered-All engine trims has_store has_disk req req.cache own
remember-All {L = L} engine trims has_store has_disk req (some c) own given =
    remembered-All engine trims has_store has_disk req (some c) given
