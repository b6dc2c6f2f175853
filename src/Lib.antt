-- ===== src/Lib.antt =====
-- The caches, the book-keeping and the life of maxtoken, a local server for large language models.
--
-- The parts, with paths from the repository's root (all under python/maxtoken/):
--
-- - Offload: the experts of a mixture model live on disk, and a cache per layer holds some of them in
--   slots on the device. Offload/Lru is `LruTracker` of mlx_backend/offload.py (`lookup`, `assign`,
--   `most_recent`, `reset`), Offload/SlotCache is `SlotCache` (`touch`, `prefetch`, `install`, `acquire`,
--   `split_admission`, `decay_streaks`, `resize`), which owns a tracker. A forward pass reads `lut` and
--   `owner` afterwards to learn whether every expert was resident; Offload/State is that check and
--   `OffloadState.commit_token`, which lets the token stand or serves its misses, and Offload/State/Budget is
--   `resize_total`.
-- - PrefixCache: `PrefixStore` of mlx_backend/prefix_cache.py, snapshots of the model's state in memory,
--   found by the longest prefix that a prompt shares with them.
-- - PrefixDisk: `DiskPrefixStore` of mlx_backend/prefix_disk.py, snapshots in blocks on the disk.
--   PrefixDisk/Chain names the blocks, PrefixDisk/Store is the state and `_make_room`,
--   PrefixDisk/Resume is `lookup`, `cut_points` and `restore`, PrefixDisk/Observe is `observe`,
--   `_flush_snapshot`, `_window_put` and `done`, PrefixDisk/Writer is the writer thread's `_write_job`
--   and the manifest. The scheduler and the writer share the store under a lock and a queue:
--   PrefixDisk/Steps has the calls as steps that may come in any order.
-- - Rings: two bounded buffers with a running number. Rings/LogRing is `LogRing` of daemon/logring.py,
--   Rings/RequestRing is `RequestRing` of server/request_ring.py and `list_requests` of
--   server/control_api.py; Rings/Window is what the two share.
-- - Logfmt: `LineAssembler` of daemon/logfmt.py, which feeds the log ring.
-- - Detokenize: tokenizer/detokenize.py, from a request's tokens to the pieces of text that the client is
--   sent; the tokenizer's decoding is the parameter `decode`, of which nothing is assumed.
--   Detokenize/Waves is `detokenize`, which takes the messages of a batch in waves.
-- - Stats: `StatsTracker` of server/stats.py, the counters of a running server.
-- - Draft: `DraftModel` of mlx_backend/draft.py, the small model that proposes tokens, and the end of a
--   round in mlx_backend/worker.py, which tells it what was accepted. Draft/Cache is what it relies on of
--   mlx-lm's model and caches. Draft/Lockstep is about plain caches, Draft/Hybrid about the others.
-- - Serve: the daemon's manager of the serving process. Serve/Manager is the state of `ServeManager` of
--   daemon/serve_manager.py and what `_start`, `_stop`, `shutdown`, `_reap`, `readopt`,
--   `observe_accounting` and `status` do in each of their locked sections. Serve/Threads lets the threads
--   run these sections in any order. Serve/Receipt makes the receipts of an engine's tokens, which
--   Serve/Outbox keeps: `AccountingOutbox` of daemon/accounting.py.
-- - Barrier: server/accounting.py, which the manager's stop asks for the totals of the engine: it closes
--   admission, drains or aborts the requests that `StatsTracker` counts, and seals the totals.
-- - Supervisor: server/supervisor.py, which waits for the workers' acks and then watches the workers.
-- - Reasoning: `BaseReasoningParser` of server/reasoning_parser.py, which splits the pieces of text from
--   the detokenizer into reasoning and answer.
-- - Scheduler: `MlxScheduler` of mlx_backend/worker.py, the loop of the process that runs the model.
--   Scheduler/State is what it keeps and sends, `_match_stop_str` and `_remember`; Scheduler/Turn is
--   `_step` without a batcher and `_finish`, Scheduler/Batch is `_step_batched` and `_abort_batch`,
--   Scheduler/Loop is `_handle`, `_handle_user_msg`, `_handle_cache_rebuild` and `run_forever`, and
--   Scheduler/Prefill cuts prompts: `offload_prefill_plan`, `_prefill_chunks` and the segments of
--   `_batch_admit`. Scheduler/Slots is `_resolve_slots_per_layer` and `_clamp_draft_k`, Scheduler/Lookup is
--   `_lookup_prefix`. Scheduler/Ledger is what a client may be told about a request.
-- - Frontend: `FrontendManager` of server/api_server.py, which admits requests and brings them the replies:
--   `new_user`, `listen`, `wait_for_ack` and `abort_user`, as the steps of tasks between their awaits. It feeds
--   `StatsTracker`.
-- - Prelude: tests on numbers, lists and dictionaries. Tests: the theorems at concrete inputs.
--
-- Conventions. Python's integers that are never negative are natural numbers. A dictionary is the list
-- of its entries in insertion order. Times are numbers of clock ticks and are arguments of the calls
-- that read the clock. What raises is `none`. A hash is a number; SHA-256 and its hexadecimal name are
-- the parameters `digest` and `name`, of which nothing is assumed. The weights on disk are a function
-- `weights`, a snapshot of the memory cache is an element of a type `S`, and for the disk store a
-- dictionary of tensors is its number of bytes and a file its size. Whether arrays have the expected
-- shapes, can be copied or can be read are arguments, so that each theorem covers both outcomes.
--
-- Fuel. The eviction loop of the memory cache runs on as many rounds as there are entries, that of the
-- disk store on one more than there are blocks. Each round removes an entry, so the loops stop by their
-- own test before the fuel ends, as the theorems on `evict` and `make_room` show. The wait of the
-- barrier has one round for each millisecond of its timeout and one more, and each sleep takes a
-- millisecond at least. The drafter's prefill has a round for each token of the prompt; each round
-- takes in one at least. The loops that cut a prompt have a round for each token, and the waves of a batch
-- of messages one for each message, of which a wave takes one at least.
--
-- Not modelled: tensor code and Metal kernels, the HTTP handlers, processes and sockets, the command
-- line, the tokenizer library; of the scheduler, how models are loaded, the generators (what they and
-- the batcher do is an argument of the steps; an exception of a batched step comes between its
-- responses or, in the middle of one, after its reply), how a window of drafts is verified, sampling,
-- and what it does when idle; of the other files above, the lock file, statistics files, log messages
-- and timings, how processes are spawned and signalled, `detach`, and the parsers of reasoning that do
-- not build on the common one. A message of progress is taken to have its four parts, and a deadline
-- is met on the clock's own grid of milliseconds.
mod Prelude
pub mod Offload
pub mod PrefixCache
pub mod PrefixDisk
pub mod Rings
pub mod Logfmt
pub mod Detokenize
pub mod Stats
pub mod Serve
pub mod Draft
pub mod Supervisor
pub mod Barrier
pub mod Reasoning
pub mod Frontend
pub mod Scheduler
pub mod Tests
