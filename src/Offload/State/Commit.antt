-- ===== src/Offload/State/Commit.antt =====
-- After `commit_token` every routed expert is in its slot, so that the token stands or its second run
-- misses nothing.
use mathlib.Core.Path.{subst}
use maxtoken.Prelude.{
  ℕ, ◌+◌, ◌≤◌, ◌<◌, ◌≡◌, ◌∙◌, refl, sym, ap, List, [], ◌∷◌, length, Option, none, some, Bool, true,
  false, ◌==◌, ◌&&◌, inl, inr, Bool-cases, arith, eqb→eq, has, contains, count, contains-count,
  has-some, All, Pairwise,
}
use maxtoken.Offload.Lru.{lookup}
use maxtoken.Offload.Lru.Valid.{lookup_from-IsValid, find-lookup_from, num_slots-lookup_from}
use maxtoken.Offload.Lru.Lookup.{misses-lookup_from}
use maxtoken.Offload.SlotCache.{SlotCache, touch}
use maxtoken.Offload.SlotCache.Coherent.{Coherent, validity_check}
use maxtoken.Offload.SlotCache.Resident.{acquire_lem}
use maxtoken.Offload.State.{Glu, Pending, is_owner, all_owned, before, commit_layer, commit_token}

-- Every layer had what was routed to it.
abbrev pub all_ok : {W : Type 0} → List (Pending W) → Bool
all_ok [] = true
all_ok (p ∷ pending) = p.ok && all_ok pending

nil_of_count : (xs : List ℕ) → ((k : ℕ) → count k xs ≡ 0) → xs ≡ []
nil_of_count [] h = refl
nil_of_count (x ∷ xs) h = absurd (ground (arith, h x))

and_cases : (a b : Bool) → (a && b) ≡ true → (a ≡ true) × (b ≡ true)
and_cases true b h = (refl, h)
and_cases false b h = absurd (cc)

is_owner_lem : (o : Option ℕ) (e : ℕ) → is_owner o e ≡ true → o ≡ some e
is_owner_lem none e h = absurd (cc)
is_owner_lem (some d) e h = ap some (eqb→eq d e h)

module _ {W : Type 0} (weights : ℕ → W) where
  owner_of :
      (c : SlotCache W) (es : List ℕ) (e : ℕ)
      → all_owned c es ≡ true
      → contains e es ≡ true
      → c.owner (c.lut e) ≡ some e
  owner_of c [] e a m = absurd (cc)
  owner_of c (x ∷ xs) e a m =
      let (here, later) = and_cases (is_owner (c.owner (c.lut x)) x) (all_owned c xs) a in
      elim (Bool-cases (x == e)) [
        | inl y ↦
            let same : x ≡ e = ground arith in
            subst (λ k. c.owner (c.lut k) ≡ some k) same (is_owner_lem (c.owner (c.lut x)) x here)
        | inr n ↦ owner_of c xs e later (ground arith)
      ]

  -- The cache after an access that misses nothing.
  abbrev touched : SlotCache W → List ℕ → SlotCache W
  touched c es =
      let (t, found, missing) = lookup c.lru es in
      record c { lru = t; hits = c.hits + length found }

  touched-Coherent :
      (c : SlotCache W) (es : List ℕ) → Coherent weights c → Coherent weights (touched c es)
  touched-Coherent c es h = record {
    valid = lookup_from-IsValid c.lru [] [] es h.valid;
    resident = λ e s p. h.resident e s (sym (find-lookup_from c.lru [] [] es e) ∙ p);
    owned = λ s e p q.
        find-lookup_from c.lru [] [] es e
        ∙ h.owned s e (rw (← num_slots-lookup_from c.lru [] [] es) p) q;
  }

  touch-touched :
      (c : SlotCache W) (es : List ℕ)
      → ((k : ℕ) → contains k es ≡ true → has k c.lru.slot_of ≡ true)
      → touch c es ≡ some (touched c es)
  unfolding touch
  touch-touched c es there =
      let none_missing : (lookup c.lru es).2 ≡ [] =
        nil_of_count (lookup c.lru es).2 (λ k.
          ground (arith, misses-lookup_from c.lru [] [] es k, contains-count k es, there k)) in
      rw (none_missing, touch) refl

  module _ (unique : List ℕ → List ℕ)
      (unique-count : (xs : List ℕ) (k : ℕ) → count k (unique xs) ≤ 1)
      (unique-contains : (xs : List ℕ) (k : ℕ) → contains k (unique xs) ≡ contains k xs) where
    -- What the forward pass left for a layer: its cache as it then was, the check of its slots, which the
    -- table names in range, and no more experts than there are slots.
    pub record IsChecked (p : Pending W) : Type 0 where
      pub coherent : Coherent weights p.glu.cache
      pub flag : p.ok ≡ all_owned p.glu.cache p.indices
      pub in_range :
          (e : ℕ) → contains e p.indices ≡ true → p.glu.cache.lut e < p.glu.cache.lru.num_slots
      pub room : length (unique p.indices) ≤ p.glu.cache.lru.num_slots

    -- The layer's cache is coherent and has each routed expert's bytes in the slot that its table names.
    pub record IsServed (p : Pending W) (g : Glu W) : Type 0 where
      pub coherent : Coherent weights g.cache
      pub served :
          (e : ℕ)
          → contains e p.indices ≡ true
          → (s : ℕ) × (g.cache.owner s ≡ some e)
            × (g.cache.lut e ≡ s)
            × (g.cache.buffers s ≡ weights e)
      pub routed : g.last_routed ≡ some (unique p.indices)

    all_there :
        (p : Pending W)
        → IsChecked p
        → p.ok ≡ true
        → (e : ℕ) → contains e p.indices ≡ true
        → has e p.glu.cache.lru.slot_of ≡ true
    all_there p c y e m =
        let (back, bytes) = validity_check weights p.glu.cache e c.coherent (c.in_range e m) in
        back.0 (owner_of p.glu.cache p.indices e (sym c.flag ∙ y) m)

    commit_layer-IsServed :
        (p : Pending W)
        → IsChecked p
        → (g : Glu W) × (commit_layer weights unique p ≡ some (g, p.ok)) × IsServed p g
    unfolding commit_layer
    commit_layer-IsServed p c = elim (Bool-cases p.ok) [
      | inl y ↦
          let there = λ (e : ℕ) (m : contains e (unique p.indices) ≡ true).
            all_there p c y e (sym (unique-contains p.indices e) ∙ m) in
          let t = touch-touched p.glu.cache (unique p.indices) there in
          (
            record {
              cache = touched p.glu.cache (unique p.indices);
              last_routed = some (unique p.indices);
            },
            rw (y, t) refl,
            record {
              coherent = touched-Coherent p.glu.cache (unique p.indices) c.coherent;
              served = λ e m.
                  let (s, f) = has-some e p.glu.cache.lru.slot_of (all_there p c y e m) in
                  let (a, b, d) = c.coherent.resident e s f in (s, a, b, d);
              routed = refl;
            },
          )
      | inr n ↦
          let (c', found, a) =
            acquire_lem weights p.glu.cache (unique p.indices) c.coherent (unique-count p.indices)
              c.room in
          (
            record { cache = c'; last_routed = some (unique p.indices) },
            rw (n, a.returned) refl,
            record {
              coherent = a.coherent;
              served = λ e m.
                  let (s, f, o, l, b) = a.served e (unique-contains p.indices e ∙ m) in
                  (s, o, l, b);
              routed = refl;
            },
          )
    ]

    -- With layers whose caches are coherent, whose checks are what the forward pass registered, whose tables
    -- are in range and which were asked for no more distinct experts than they have slots, `commit_token`
    -- does not fail. The token stands exactly if every check held; and either way each layer's cache ends
    -- with the bytes of all its routed experts in the slots that its table names, so that the second run
    -- of a token that does not stand misses nothing.
    pub commit_token-IsServed :
        (pending : List (Pending W))
        → All IsChecked pending
        → (glus : List (Glu W)) × (commit_token weights unique pending
            ≡ some (glus, all_ok pending))
          × Pairwise IsServed pending glus
    unfolding commit_token
    commit_token-IsServed [] c = ([], refl, tt)
    commit_token-IsServed (p ∷ pending) (c, rest) =
        let (g, e, s) = commit_layer-IsServed p c in
        let (glus, f, t) = commit_token-IsServed pending rest in
        (
          g ∷ glus,
          ap (λ o. before o (commit_token weights unique pending)) e
              ∙ ap (before (some (g, p.ok))) f,
          (s, t),
        )
