-- ===== src/Draft/Hybrid.antt =====
-- A round of a drafter that has caches which cannot be trimmed.
use maxtoken.Prelude.{ℕ, List, [], ◌++◌, ◌≡◌, if◌then◌else◌}
use maxtoken.Draft.Cache.{Caches}

module _ {C S : Type 0} (caches : Caches C S) where
  -- What a cache holds after it was rewound: a plain one keeps what was fed before the drafts.
  abbrev pub Rewound : List ℕ → C → C → Type 0
  Rewound fed c e = caches.held e ≡ caches.held c ++ (if caches.is_plain c then fed else [])
