-- ===== src/Serve.antt =====
-- `ServeManager` of python/maxtoken/daemon/serve_manager.py, and the receipts and the outbox of
-- python/maxtoken/daemon/accounting.py.
pub mod Outbox
pub mod Receipt
pub mod Manager
pub mod Threads
