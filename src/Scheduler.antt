-- ===== src/Scheduler.antt =====
-- The scheduler of the MLX backend, `MlxScheduler` of python/maxtoken/mlx_backend/worker.py: the requests that
-- are active, and the loop that takes messages, advances the requests and sends replies.
pub mod State
pub mod Turn
pub mod Batch
pub mod Loop
pub mod Ledger
pub mod Bounds
pub mod Prefill
pub mod Remember
pub mod Slots
pub mod Lookup
