-- ===== src/Offload/State.antt =====
-- Speculate and verify, of python/maxtoken/mlx_backend/offload.py: what the lazy forward of
-- `OffloadSwitchGLU` leaves to check, and `OffloadState.commit_token`, which checks it. A forward pass
-- calls each layer once, so each stands once in `pending`, here with its cache. `unique` is
-- `numpy.unique`.
pub mod Commit
pub mod Budget
use maxtoken.Prelude.{
  ℕ, List, [], ◌∷◌, Option, none, some, Bool, true, false, ◌==◌, ◌&&◌, if◌then◌else◌, contains,
  length,
}
use maxtoken.Offload.SlotCache.{SlotCache, touch, acquire, prefetch, decay_streaks}

-- The host's part of an `OffloadSwitchGLU`.
pub record Glu (W : Type 0) : Type 0 where
  pub cache : SlotCache W
  pub last_routed : Option (List ℕ)

pub record Pending (W : Type 0) : Type 0 where
  pub glu : Glu W
  pub indices : List ℕ
  pub ok : Bool

abbrev pub is_owner : Option ℕ → ℕ → Bool
is_owner none e = false
is_owner (some d) e = d == e

module _ {W : Type 0} where
  -- `mx.all(mx.take(cache.owner, slot_inds) == indices)`
  abbrev pub all_owned : SlotCache W → List ℕ → Bool
  all_owned c [] = true
  all_owned c (e ∷ es) = is_owner (c.owner (c.lut e)) e && all_owned c es

  -- What `_forward_speculative` registers for a layer.
  unfoldable pub forward_speculative : Glu W → List ℕ → Pending W
  forward_speculative glu indices = record {
    glu = glu;
    indices = indices;
    ok = all_owned glu.cache indices;
  }

  -- A layer before the rest.
  abbrev pub before :
      Option (Glu W × Bool) → Option (List (Glu W) × Bool) → Option (List (Glu W) × Bool)
  before none rest = none
  before (some layer) none = none
  before (some (glu, hit)) (some (glus, all_ok)) = some (glu ∷ glus, hit && all_ok)

  module _ (weights : ℕ → W) (unique : List ℕ → List ℕ) where
    -- One turn of the loop; `none` is a failed assertion.
    unfoldable pub commit_layer : Pending W → Option (Glu W × Bool)
    commit_layer p =
        let experts = unique p.indices in
        if p.ok
        then elim (touch p.glu.cache experts) [
          | none ↦ none
          | some c ↦ some (record { cache = c; last_routed = some experts }, true)
        ]
        else elim (acquire weights p.glu.cache experts) [
          | none ↦ none
          | some (c, found) ↦ some (record { cache = c; last_routed = some experts }, false)
        ]

    -- `commit_token`: the layers afterwards, and whether the token stands.
    unfoldable pub commit_token : List (Pending W) → Option (List (Glu W) × Bool)
    unfolding commit_layer
    commit_token [] = some ([], true)
    commit_token (p ∷ pending) = before (commit_layer p) (commit_token pending)

  -- `prefetch_predicted`
  unfoldable pub prefetch_predicted : List (Glu W) → List (Glu W)
  prefetch_predicted [] = []
  prefetch_predicted (g ∷ glus) =
      let aged = decay_streaks g.cache in
      record g { cache = elim g.last_routed [ none ↦ aged | some experts ↦ prefetch aged experts ] }
      ∷ prefetch_predicted glus
