-- ===== src/Offload.antt =====
-- python/maxtoken/mlx_backend/offload.py: the expert offload of the MLX backend.
pub mod Lru
pub mod SlotCache
pub mod State
