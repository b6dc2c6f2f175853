-- ===== src/Draft/Cache.antt =====
-- What the drafter relies on of mlx-lm's model and prompt caches, which its package brings: `held` is what
-- a cache has taken in. A plain cache can forget its last tokens; the state of any cache can be saved
-- and loaded again.
use maxtoken.Prelude.{Pairwise, ℕ, List, ◌++◌, length, Bool, true, ◌≡◌}

-- `None` for a cache that is rewound by `trim`, or the state to go back to.
pub data Rewind (S : Type 0) : Type 0 where
  trimming : Rewind S
  state_of : S → Rewind S

pub record Caches (C S : Type 0) : Type 0 where
  -- `is_trimmable()` and no `max_size`
  pub is_plain : C → Bool
  pub held : C → List ℕ
  pub trim : ℕ → C → C
  pub save : C → S
  pub load : C → S → C
  -- a forward pass, which returns the likeliest next token
  pub run : List ℕ → List C → List C × ℕ
  pub run-held :
      (tokens : List ℕ) (cs : List C)
      → Pairwise
          (λ c d. (held d ≡ held c ++ tokens) × (is_plain d ≡ is_plain c))
          cs
          (run tokens cs).0
  pub held-trim :
      (c : C) (front back : List ℕ)
      → is_plain c ≡ true
      → held c ≡ front ++ back
      → held (trim (length back) c) ≡ front
  pub plain-trim : (n : ℕ) (c : C) → is_plain (trim n c) ≡ is_plain c
  pub held-load : (c d : C) → held (load d (save c)) ≡ held c
  pub plain-load : (d : C) (s : S) → is_plain (load d s) ≡ is_plain d
