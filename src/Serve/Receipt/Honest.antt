-- ===== src/Serve/Receipt/Honest.antt =====
-- What a receipt of a stop says about how it came to be.
use mathlib.Core.Path.{subst}
use mathlib.Core.Option.{some-injective, none-ne-some}
use maxtoken.Prelude.{
  ℕ, ◌≡◌, ◌∙◌, refl, sym, ap, [], ◌∷◌, not, ◌||◌, arith, ◌⊎◌, inl, inr, List, Option, none, some,
  Bool, true, false, Option-cases, Bool-cases,
}
use maxtoken.Serve.Receipt.{
  Json, null, other, text, number, Key, instance_id, instance_id', prompt_tokens, prompt_tokens',
  completion_tokens, completion_tokens', either_key, or_json, valid_number, valid_instance,
  valid_model, or_model, model_id, model_id', uptime_s, uptime_s', Snapshot, Totals, Label, Reason,
  stats_unavailable, Receipt, Prepared, unavailable, failed, answered, snapshot_values,
  sealed_receipt, degraded_receipt, snapshot_receipt, best_effort_receipt, stop_receipt, ◌>>=◌,
  legacy_engine, prepare_stop_failed,
}

-- The value under the first of two keys, or under the second where the first is missing.
abbrev pub Given : Option Json → Option Json → Json → Type 0
Given a b v = (a ≡ some v) ⊎ ((a ≡ none) × (b ≡ some v))

abbrev pub Lacks : Option Json → Option Json → Type 0
Lacks a b = Given a b null ⊎ ((a ≡ none) × (b ≡ none))

-- A number that a document gives under two keys, or, where it has none there, its part on requests.
abbrev pub Counted : Snapshot → Key → Key → ℕ → Type 0
Counted doc k k' n =
    Given (doc.get k) (doc.get k') (number n)
    ⊎ (Lacks (doc.get k) (doc.get k') × Given (doc.requests_get k) (doc.requests_get k') (number n))

-- What a document that can be read says of its engine.
pub record Says (doc : Snapshot) (instance : Option (List ℕ)) (prompt completion : ℕ) : Type 0 where
  pub is_object : doc.is_object ≡ true
  pub reachable : doc.reachable ≡ true
  pub named :
      (c : ℕ) × (cs : List ℕ) × (instance ≡ some (c ∷ cs))
      × Given (doc.get instance_id) (doc.get instance_id') (text (c ∷ cs))
  pub prompt_counted : Counted doc prompt_tokens prompt_tokens' prompt
  pub completion_counted : Counted doc completion_tokens completion_tokens' completion

Given-number :
    (a b : Option Json) (n : ℕ) → valid_number (either_key a b) ≡ some n → Given a b (number n)
Given-number (some null) b n h = absurd (none-ne-some n h)
Given-number (some other) b n h = absurd (none-ne-some n h)
Given-number (some (text xs)) b n h = absurd (none-ne-some n h)
Given-number (some (number m)) b n h = inl (ap (λ k. some (number k)) (some-injective m n h))
Given-number none none n h = absurd (none-ne-some n h)
Given-number none (some null) n h = absurd (none-ne-some n h)
Given-number none (some other) n h = absurd (none-ne-some n h)
Given-number none (some (text xs)) n h = absurd (none-ne-some n h)
Given-number none (some (number m)) n h =
    inr (refl, ap (λ k. some (number k)) (some-injective m n h))

Counted-number :
    (a b c d : Option Json) (n : ℕ)
    → valid_number (or_json (either_key a b) (either_key c d)) ≡ some n
    → Given a b (number n) ⊎ (Lacks a b × Given c d (number n))
Counted-number (some null) b c d n h = inr (inl (inl refl), Given-number c d n h)
Counted-number (some other) b c d n h = absurd (none-ne-some n h)
Counted-number (some (text xs)) b c d n h = absurd (none-ne-some n h)
Counted-number (some (number m)) b c d n h = inl (Given-number (some (number m)) b n h)
Counted-number none none c d n h = inr (inr (refl, refl), Given-number c d n h)
Counted-number none (some null) c d n h = inr (inl (inr (refl, refl)), Given-number c d n h)
Counted-number none (some other) c d n h = absurd (none-ne-some n h)
Counted-number none (some (text xs)) c d n h = absurd (none-ne-some n h)
Counted-number none (some (number m)) c d n h = inl (Given-number none (some (number m)) n h)

Given-instance :
    (a b : Option Json) (i : Option (List ℕ))
    → valid_instance (either_key a b) true ≡ some i
    → (c : ℕ) × (cs : List ℕ) × (i ≡ some (c ∷ cs)) × Given a b (text (c ∷ cs))
Given-instance (some null) b i h = absurd (none-ne-some i h)
Given-instance (some other) b i h = absurd (none-ne-some i h)
Given-instance (some (number m)) b i h = absurd (none-ne-some i h)
Given-instance (some (text [])) b i h = absurd (none-ne-some i h)
Given-instance (some (text (c ∷ cs))) b i h = (c, cs, sym (some-injective _ i h), inl refl)
Given-instance none none i h = absurd (none-ne-some i h)
Given-instance none (some null) i h = absurd (none-ne-some i h)
Given-instance none (some other) i h = absurd (none-ne-some i h)
Given-instance none (some (number m)) i h = absurd (none-ne-some i h)
Given-instance none (some (text [])) i h = absurd (none-ne-some i h)
Given-instance none (some (text (c ∷ cs))) i h =
    (c, cs, sym (some-injective _ i h), inr (refl, refl))

totals_of :
    (oi : Option (Option (List ℕ))) (om : Option (List ℕ)) (op oc ou : Option ℕ) (t : Totals)
    → (oi >>= (λ i. om >>= (λ m. op >>= (λ p. oc >>= (λ c. ou >>= (λ u.
        some
          (record { instance_id = i; model_id = m; prompt = p; completion = c; uptime = u })))))))
      ≡ some t
    → (oi ≡ some t.instance_id) × (op ≡ some t.prompt) × (oc ≡ some t.completion)
totals_of (some i) (some m) (some p) (some c) (some u) t h =
    let e = some-injective _ t h in
    (
      ap (λ (x : Totals). some x.instance_id) e,
      ap (λ (x : Totals). some x.prompt) e,
      ap (λ (x : Totals). some x.completion) e,
    )
totals_of (some i) (some m) (some p) (some c) none t h = absurd (none-ne-some t h)
totals_of (some i) (some m) (some p) none ou t h = absurd (none-ne-some t h)
totals_of (some i) (some m) none oc ou t h = absurd (none-ne-some t h)
totals_of (some i) none op oc ou t h = absurd (none-ne-some t h)
totals_of none om op oc ou t h = absurd (none-ne-some t h)

snapshot_values-Says :
    (doc : Snapshot) (model : Option (List ℕ)) (t : Totals)
    → snapshot_values doc model true ≡ some t
    → Says doc t.instance_id t.prompt t.completion
unfolding snapshot_values
snapshot_values-Says doc model t h = elim (Bool-cases (not doc.is_object || not doc.reachable)) [
  | inl bad ↦ absurd (none-ne-some t (rw bad at h))
  | inr good ↦
      let named =
        or_json (either_key (doc.get model_id) (doc.get model_id'))
          (either_key doc.model_doc_id none) in
      let prompt =
        or_json (either_key (doc.get prompt_tokens) (doc.get prompt_tokens'))
          (either_key (doc.requests_get prompt_tokens) (doc.requests_get prompt_tokens')) in
      let completion =
        or_json (either_key (doc.get completion_tokens) (doc.get completion_tokens'))
          (either_key (doc.requests_get completion_tokens) (doc.requests_get completion_tokens')) in
      let (ei, ep, ec) =
        totals_of (valid_instance (either_key (doc.get instance_id) (doc.get instance_id')) true)
          (valid_model (or_model named model)) (valid_number prompt) (valid_number completion)
          (valid_number (either_key (doc.get uptime_s) (doc.get uptime_s'))) t (rw good at h) in
      record {
        is_object = ground arith;
        reachable = ground arith;
        named = Given-instance (doc.get instance_id) (doc.get instance_id') t.instance_id ei;
        prompt_counted =
            Counted-number (doc.get prompt_tokens) (doc.get prompt_tokens')
              (doc.requests_get prompt_tokens) (doc.requests_get prompt_tokens') t.prompt ep;
        completion_counted =
            Counted-number (doc.get completion_tokens) (doc.get completion_tokens')
              (doc.requests_get completion_tokens) (doc.requests_get completion_tokens')
              t.completion ec;
      }
]

-- A receipt that is not degraded is what the engine answered when it was drained. One that is degraded
-- was made for an engine without the endpoint, or by force; and one without totals only by force.
pub record IsHonest (model : Option (List ℕ)) (prepared : Prepared) (force : Bool) (r : Receipt)
    : Type 0 where
  pub sealed :
      r.rest.degraded ≡ false
      → (doc : Snapshot) × (prompt : ℕ) × (completion : ℕ) × (prepared ≡ answered doc true)
        × Says doc r.rest.instance_id prompt completion
        × (r.rest.prompt_total ≡ some prompt)
        × (r.rest.completion_total ≡ some completion)
        × (r.rest.drain_complete ≡ true)
  pub forced : r.rest.degraded ≡ true → (prepared ≡ unavailable) ⊎ (force ≡ true)
  pub counted : r.rest.prompt_total ≡ none → force ≡ true

module _ (uuid : Label → ℕ) where
  snapshot_receipt-IsHonest :
      (now identity : ℕ) (why : Reason) (t : Totals) (model : Option (List ℕ)) (prepared : Prepared)
      (force : Bool)
      → (prepared ≡ unavailable) ⊎ (force ≡ true)
      → IsHonest model prepared force (snapshot_receipt uuid now identity why t)
  unfolding snapshot_receipt
  snapshot_receipt-IsHonest now identity why t model prepared force u = record {
    sealed = λ d. absurd (cc);
    forced = λ d. u;
    counted = λ n. absurd (cc);
  }

  degraded_receipt-IsHonest :
      (now identity : ℕ) (why : Reason) (model : Option (List ℕ)) (prepared : Prepared)
      (force : Bool)
      → (prepared ≡ unavailable) ⊎ (force ≡ true)
      → force ≡ true
      → IsHonest model prepared force (degraded_receipt uuid now identity model why)
  unfolding degraded_receipt
  degraded_receipt-IsHonest now identity why model prepared force u f = record {
    sealed = λ d. absurd (cc);
    forced = λ d. u;
    counted = λ n. f;
  }

  best_effort-IsHonest :
      (now identity : ℕ) (model : Option (List ℕ)) (prepared : Prepared) (stats : Option Snapshot)
      (why : Reason) (force : Bool) (asked : Bool) (r : Receipt)
      → (prepared ≡ unavailable) ⊎ (force ≡ true)
      → (asked ≡ true → force ≡ true)
      → best_effort_receipt uuid now identity model stats why asked ≡ some r
      → IsHonest model prepared force r
  unfolding best_effort_receipt
  best_effort-IsHonest now identity model prepared stats why force asked r u f e =
      elim (Option-cases (stats >>= (λ s. snapshot_values s model false))) [
        | inr (t, c) ↦
            subst (IsHonest model prepared force)
              (some-injective _ r (rw (c, best_effort_receipt) at e))
              (snapshot_receipt-IsHonest now identity why t model prepared force u)
        | inl c ↦ elim (Bool-cases asked) [
          | inl y ↦
              subst (IsHonest model prepared force)
                (some-injective _ r (rw (c, y, best_effort_receipt) at e))
                (degraded_receipt-IsHonest now identity (stats_unavailable why) model prepared force
                  u (f y))
          | inr n ↦ absurd (none-ne-some r (rw (c, n, best_effort_receipt) at e))
        ]
      ]

  sealed_receipt-IsHonest :
      (now : ℕ) (doc : Snapshot) (drained : Bool) (model : Option (List ℕ)) (force : Bool)
      (r : Receipt)
      → sealed_receipt uuid now doc drained model ≡ some r
      → IsHonest model (answered doc drained) force r
  unfolding sealed_receipt
  sealed_receipt-IsHonest now doc false model force r e =
      elim (Option-cases (snapshot_values doc model true)) [
        | inl c ↦ absurd (none-ne-some r (rw (c, sealed_receipt) at e))
        | inr (t, c) ↦ absurd (none-ne-some r (rw (c, sealed_receipt) at e))
      ]
  sealed_receipt-IsHonest now doc true model force r e =
      elim (Option-cases (snapshot_values doc model true)) [
        | inl c ↦ absurd (none-ne-some r (rw (c, sealed_receipt) at e))
        | inr (t, c) ↦
            subst (IsHonest model (answered doc true) force)
              (some-injective _ r (rw (c, sealed_receipt) at e))
              (record {
                sealed = λ d. (
                  doc,
                  t.prompt,
                  t.completion,
                  refl,
                  snapshot_values-Says doc model t c,
                  refl,
                  refl,
                  refl,
                );
                forced = λ d. absurd (cc);
                counted = λ n. absurd (cc);
              })
      ]

  -- Whatever the engine answers when it is asked to prepare its stop, the receipt of a stop says honestly
  -- how it came to be: one that is not degraded has the instance and the totals that a drained engine's answer,
  -- an object that does not say it is unreachable, gives under their keys; a degraded
  -- one was made for an engine without the endpoint or by force, and one without totals only by force.
  pub stop_receipt-IsHonest :
      (now identity : ℕ) (model : Option (List ℕ)) (prepared : Prepared) (stats : Option Snapshot)
      (force : Bool) (r : Receipt)
      → stop_receipt uuid now identity model prepared stats force ≡ some r
      → IsHonest model prepared force r
  unfolding stop_receipt
  stop_receipt-IsHonest now identity model unavailable stats force r e =
      best_effort-IsHonest now identity model unavailable stats legacy_engine force force r
        (inl refl) (λ y. y) e
  stop_receipt-IsHonest now identity model failed stats force r e = elim (Bool-cases force) [
    | inl y ↦
        best_effort-IsHonest now identity model failed stats prepare_stop_failed force true r
          (inr y) (λ _. y) (rw (y, stop_receipt) at e)
    | inr n ↦ absurd (none-ne-some r (rw (n, stop_receipt) at e))
  ]
  stop_receipt-IsHonest now identity model (answered doc drained) stats force r e =
      elim (Option-cases (sealed_receipt uuid now doc drained model)) [
        | inr (x, s) ↦
            sealed_receipt-IsHonest now doc drained model force r (s ∙ rw (s, stop_receipt) at e)
        | inl s ↦ elim (Bool-cases force) [
          | inl y ↦
              best_effort-IsHonest now identity model (answered doc drained) stats
                prepare_stop_failed force true r (inr y) (λ _. y) (rw (s, y, stop_receipt) at e)
          | inr n ↦ absurd (none-ne-some r (rw (s, n, stop_receipt) at e))
        ]
      ]
