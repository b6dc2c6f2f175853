-- ===== src/Scheduler/Ledger/Rounds.antt =====
-- Rounds of the loop of python/maxtoken/mlx_backend/worker.py tell a client about its requests as they should.
use maxtoken.Prelude.{List, [], ◌∷◌, ℕ, none, ◌≡◌}
use maxtoken.Scheduler.State.{Engine, Scheduler}
use maxtoken.Scheduler.Loop.{Input, goes_on, leaves, dies, run_round}
use maxtoken.Scheduler.Ledger.Loop.{AllFit}

module _ {L : Type 0} (engine : Engine L) where
  -- The messages of every round fit, and no exception comes in the middle of a response of the batcher.
  unfoldable pub RoundsFit : ℕ → Scheduler L → List (Input engine) → Type 0
  RoundsFit u s [] = Unit
  RoundsFit u s (input ∷ inputs) =
      AllFit engine u s input.messages
      × (input.step.torn ≡ none)
      × (elim (run_round engine input s) as (λ r. Type 0) [
        | goes_on s' replies ↦ RoundsFit u s' inputs
        | leaves replies ↦ Unit
        | dies replies ↦ Unit
      ])
