-- ===== src/Draft.antt =====
-- The drafter of speculative decoding, `DraftModel` of python/maxtoken/mlx_backend/draft.py, and what the
-- scheduler of python/maxtoken/mlx_backend/worker.py tells it after a verification.
pub mod Cache
pub mod Lockstep
pub mod Start
pub mod Hybrid
use maxtoken.Prelude.{
  ℕ, zero, suc, ◌-◌, max, List, [], ◌∷◌, ◌++◌, Option, none, some, Bool, true, false, ◌||◌, ltb,
  if◌then◌else◌, map, length, take, drop,
}
use maxtoken.Draft.Cache.{Rewind, trimming, state_of, Caches}

-- `input_ids[:-1]` and `input_ids[-1:]`
abbrev pub all_but_last : List ℕ → List ℕ
all_but_last xs = take (length xs - 1) xs

abbrev pub last_of : List ℕ → List ℕ
last_of xs = drop (length xs - 1) xs

-- The end of a round of the scheduler, which passes the last committed token, after the last draft
-- if every draft was accepted.
abbrev pub told : List ℕ → ℕ → ℕ → List ℕ
told drafts accepted token =
    if ltb accepted (length drafts) then token ∷ [] else last_of drafts ++ token ∷ []

module _ {C S : Type 0} (caches : Caches C S) where
  pub record DraftModel : Type 0 where
    pub k : ℕ
    pub cache : List C
    pub pending : List ℕ
    pub drafted : ℕ
    pub drafted_tokens : List ℕ
    pub snaps : List (Rewind S)
    pub fed : List ℕ

  -- The constructor; the caches are made by `start`.
  unfoldable pub create : ℕ → DraftModel
  create k = record {
    k = max 1 k;
    cache = [];
    pending = [];
    drafted = 0;
    drafted_tokens = [];
    snaps = [];
    fed = [];
  }

  -- The loop of `start` over chunks of 2048 tokens, on fuel.
  unfoldable pub prefill : ℕ → List ℕ → List C → List C
  prefill zero head cs = cs
  prefill (suc fuel) [] cs = cs
  prefill (suc fuel) (t ∷ head) cs =
      prefill fuel (drop 2048 (t ∷ head)) (caches.run (take 2048 (t ∷ head)) cs).0

  -- `start`; `fresh` is what `make_prompt_cache` returns.
  unfoldable pub start : List C → DraftModel → List ℕ → DraftModel
  unfolding prefill
  start fresh d input_ids =
      let head = all_but_last input_ids in
      record d {
        cache = prefill (length head) head fresh;
        drafted = 0;
        pending = last_of input_ids;
      }

  abbrev pub snapshot : C → Rewind S
  snapshot c = if caches.is_plain c then trimming else state_of (caches.save c)

  abbrev pub restore : C → Rewind S → ℕ → C
  restore c trimming n = caches.trim n c
  restore c (state_of s) n = caches.load c s

  -- The loop of `draft`, which feeds the last draft to the next pass.
  unfoldable pub propose : ℕ → List ℕ → List C → List C × List ℕ
  propose zero feed cs = (cs, [])
  propose (suc n) feed cs =
      let (cs', tok) = caches.run feed cs in
      let (cs'', drafts) = propose n (tok ∷ []) cs' in (cs'', tok ∷ drafts)

  unfoldable pub draft : DraftModel → DraftModel × List ℕ
  unfolding propose
  draft d =
      let (cs, drafts) = propose d.k d.pending d.cache in
      (
        record d {
          cache = cs;
          pending = [];
          drafted = d.k - 1;
          drafted_tokens = drafts;
          snaps = map snapshot d.cache;
          fed = d.pending;
        },
        drafts,
      )

  -- `any(snap is not None for snap in self._snaps)`
  abbrev pub has_state : List (Rewind S) → Bool
  has_state [] = false
  has_state (trimming ∷ snaps) = has_state snaps
  has_state (state_of _ ∷ snaps) = true

  -- Every cache goes back by its snapshot; `none` is the `ValueError` of a strict `zip`.
  unfoldable pub restore_all : List C → List (Rewind S) → ℕ → Option (List C)
  restore_all [] [] n = some []
  restore_all (c ∷ cs) (s ∷ snaps) n = elim (restore_all cs snaps n) [
    | none ↦ none
    | some rest ↦ some (restore c s n ∷ rest)
  ]
  restore_all _ _ n = none

  unfoldable pub commit : DraftModel → ℕ → List ℕ → Option DraftModel
  unfolding restore_all
  commit d accepted tail =
      if has_state d.snaps
      then elim (restore_all d.cache d.snaps d.drafted) [
        | none ↦ none
        | some cs ↦ some (record d {
          cache = cs;
          pending = d.fed ++ take accepted d.drafted_tokens ++ tail;
          drafted = 0;
        })
      ]
      else let overshoot = d.drafted - accepted in
        some (record d {
          cache = if ltb 0 overshoot then map (caches.trim overshoot) d.cache else d.cache;
          pending = d.pending ++ tail;
          drafted = 0;
        })

  -- A round whose window has room for `room` drafts: what is over is not verified, and without room
  -- nothing is drafted.
  unfoldable pub round : DraftModel → ℕ → ℕ → ℕ → Option DraftModel
  unfolding draft commit
  round d zero accepted token = commit d accepted (told [] accepted token)
  round d (suc room) accepted token =
      let (d', drafts) = draft d in
      commit d' accepted (told (take (suc room) drafts) accepted token)
