-- ===== src/Rings.antt =====
-- The bounded buffers that clients poll with a cursor: python/maxtoken/server/request_ring.py and
-- python/maxtoken/daemon/logring.py.
pub mod Window
pub mod RequestRing
pub mod Percentile
pub mod LogRing
