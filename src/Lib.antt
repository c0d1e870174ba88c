-- ===== src/Lib.antt =====
-- DistroSync: a task broker over TCP with its workers' registry, load shedding, retries, a dead
-- letter queue, a write-ahead store for restarts, an HTTP interface, a worker, and a producer that
-- backs off.
--
-- The parts, and the files that model them:
--
--   broker/queue_manager.py     Task, Queue: the named queues, the in-flight registry, the archive of
--                               what is done. Queue/Copies counts the places that hold an id,
--                               Queue/Run is about sequences of calls, Queue/Counters about the
--                               counters, Queue/Views about one queue.
--   broker/dead_letter.py       DeadLetter; its `retry` is `Queue.retry`, as it calls the manager.
--   broker/worker_registry.py   Registry: workers, heartbeats, latencies, eviction. An eviction round
--                               takes the queue manager, to which it gives tasks back;
--                               Registry/Loop is the loop of the rounds, with what the
--                               other coroutines do while it sleeps as functions.
--   broker/load_shedder.py      Shedder: a token bucket for each queue, with a rate that follows the
--                               depth of the queue and the latency of its workers.
--   broker/metrics_collector.py Metrics: counters, sliding windows, percentiles.
--   persistence/wal_store.py    Wal: the tables and their statements. Wal/Rows says what a restart
--                               would recover of each task, Wal/Loads what its query
--                               selects, Wal/Table keeps the primary key.
--   broker/server.py            Broker: one record of the parts. Broker/Commands and Broker/Admin are
--                               the handlers `_handle_produce` … `_handle_dlq_purge`, the handlers of
--                               the dashboard, an eviction round and phase 1 of `start`;
--                               Broker/Reports is STATS and METRICS, Broker/Dispatch `_dispatch`.
--                               Broker/Durable relates the queue manager to the store, and
--                               Broker/Durable/Reach is about whole runs, Broker/Durable/Fate about
--                               what becomes of a task that was accepted, Broker/Durable/Once about
--                               one that was acknowledged. Broker/Connection is `handle_connection`.
--   the frames                  Wire, and Wire/Client for `_send` of the producer and the worker.
--   broker/http_api.py          Http: requests and responses, Http/Pages what each page answers,
--                               Http/Route which page a request gets, Http/Bytes what is written and
--                               `_parse_headers`; Broker/Http has the handlers that `start` gives.
--   worker/base_worker.py       Worker: the phases of its loop; Broker/Worker sets it beside the
--                               broker.
--   worker/task_executor.py     Executor: `cpu_bound_task`; Executor/Pool is `ProcessPoolWorker`.
--   producer/backoff.py         Backoff.
--   producer/client.py          Producer: `produce` and `produce_batch`, Producer/Client the
--                               connection; Broker/Producer sets `produce` beside the broker.
--
-- The modules named Stats are the parts' `get_stats`. Prelude and Dict hold what these share; Tests
-- has runs at concrete inputs.
--
-- How the code is read. A method is a function of the state that returns the new state with the
-- result. No method suspends between its reads and its writes (an uncontended asyncio lock does not
-- suspend), so that a handler is one step; each clock is read once in a handler. Clocks, random
-- draws, new ids and the codec of the payloads (`json`) are arguments, and so is what a producer's
-- commands meet, which Broker/Producer fills with the broker. The codec's one law is that `loads`
-- undoes `dumps`. Times are whole milliseconds. Rates and tokens are whole numbers of units small
-- enough that the constants of the code are exact, and floating point is not modelled (at a depth
-- of 525 Python's depth factor is a rounding error above the 0.05 that it has here); an average
-- latency is rounded down. A Python dict is a list of pairs in the order of insertion, a set a list
-- without repetitions. A table of the store is a dict by its primary key, a statement is committed
-- when it returns, and ORDER BY is a stable sort. Message fields have the types that the clients of
-- the repository send; a connection may also bring an object on whose fields a handler raises an
-- exception, and what the handler has changed by then is given with it, as Python's types are not
-- modelled. (CONSUME with a list as its worker_id takes a task out of its queue and then raises
-- one.) The tuple `(allowed, retry_after)` of the load shedder is the optional hint.
--
-- A stream is the list of the bytes that a peer sends before it disconnects; `json` and UTF-8, on
-- both sides, are parameters, and so are the file system, `Popen` and the drawn number of the HTTP
-- interface. The rounds of one connection are modelled without those of others in between, which
-- Broker/Durable/Reach has in any order. A worker's run is a list of events.
--
-- Fuel: the loop of `produce` has `max_retries + 1` rounds, one for each command that it can send:
-- each rate limit uses an attempt up, and the backoff has `max_retries` of them. The loop of a
-- connection takes a context (the next uuid and the clocks) for each round; a round reads four bytes
-- at least, so a quarter of the length of the stream, and one, are enough. All other loops run over a
-- list, and the digits of a number take the number and one as fuel.
--
-- Not modelled: the processes of the pool of worker/task_executor.py and Python's recursion limit; the
-- dashboard, the scripts and the benchmarks; logging; the connection to SQLite; sockets, signals and
-- asyncio tasks, so of `start` and `stop` only the recovery and the loops. `str.lower` is a parameter
-- of `_parse_headers`, and a byte of a response is read as the character with its number there. Of
-- the dashboard's `_crash_worker_handler` the closing of the worker's connection is left out.
-- `_replay_dlq_handler` is a definition but no step of Broker/Durable/Reach: with a store it enqueues
-- tasks that have no row.
mod Prelude
pub mod Dict
pub mod Task
pub mod DeadLetter
pub mod Http
pub mod Queue
pub mod Registry
pub mod Shedder
pub mod Backoff
pub mod Producer
pub mod Metrics
pub mod Wal
pub mod Wire
pub mod Broker
pub mod Worker
pub mod Executor
pub mod Tests
