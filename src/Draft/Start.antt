-- ===== src/Draft/Start.antt =====
-- A new request puts the drafter on its prompt: `DraftModel.start` of
-- python/maxtoken/mlx_backend/draft.py.
use mathlib.Core.Path.{subst}
use maxtoken.Prelude.{
  Pairwise, ℕ, zero, suc, ◌-◌, ◌≤◌, List, [], ◌∷◌, ◌++◌, ◌≡◌, ◌∙◌, refl, ap, sym, length, take,
  drop, All, arith, append-nil, take-append-drop, length-drop,
}
use maxtoken.Draft.{DraftModel, prefill, start, all_but_last, last_of}
use maxtoken.Draft.Cache.{Caches}
use maxtoken.Draft.Lockstep.{Pairwise-trans, All-Pairwise, Took, Took-append, Lockstep}

module _ {C S : Type 0} (caches : Caches C S) where
  same-Took : (cs : List C) → Pairwise (Took caches []) cs cs
  same-Took [] = tt
  same-Took (c ∷ cs) = ((sym (append-nil (caches.held c)), refl), same-Took cs)

  prefill-Took :
      (fuel : ℕ) (head : List ℕ) (cs : List C)
      → length head ≤ fuel
      → Pairwise (Took caches head) cs (prefill caches fuel head cs)
  unfolding prefill
  prefill-Took zero [] cs enough = same-Took cs
  prefill-Took zero (t ∷ head) cs enough = absurd (omega arith)
  prefill-Took (suc fuel) [] cs enough = same-Took cs
  prefill-Took (suc fuel) (t ∷ head) cs enough =
      let front = take 2048 (t ∷ head) in
      let back = drop 2048 (t ∷ head) in
      let ds = (caches.run front cs).0 in
      subst (λ h. Pairwise (Took caches h) cs (prefill caches fuel back ds))
        (take-append-drop 2048 (t ∷ head))
        (Pairwise-trans (Took-append caches front back) cs ds (prefill caches fuel back ds)
          (caches.run-held front cs)
          (prefill-Took fuel back ds (omega (arith, length-drop 2048 (t ∷ head)))))

  -- A new request puts the drafter on its prompt: each cache holds the prompt but for its last token,
  -- which is pending, for any number of chunks.
  pub start-Lockstep :
      (fresh : List C) (d : DraftModel caches) (input_ids : List ℕ)
      → All (λ c. caches.held c ≡ []) fresh
      → Lockstep caches input_ids (start caches fresh d input_ids)
  unfolding start
  start-Lockstep fresh d input_ids empty =
      let head = all_but_last input_ids in
      All-Pairwise
        (λ c e none r.
          ap (λ h. h ++ last_of input_ids) (r.0 ∙ ap (λ h. h ++ head) none)
          ∙ take-append-drop (length input_ids - 1) input_ids)
        fresh (prefill caches (length head) head fresh) empty
        (prefill-Took (length head) head fresh (omega arith))
