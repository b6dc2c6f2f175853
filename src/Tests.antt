-- ===== src/Tests.antt =====
-- The theorems at concrete inputs, a module for each part.
mod Offload
mod PrefixCache
mod PrefixDisk
mod Rings
mod Stats
mod Logfmt
mod Detokenize
mod Serve
mod Draft
mod Frontend
mod Scheduler
mod Supervisor
mod Barrier
mod Reasoning
