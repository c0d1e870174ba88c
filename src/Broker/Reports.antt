-- ===== src/Broker/Reports.antt =====
-- The handlers of broker/server.py that report: `_handle_stats`, `_handle_metrics` with
-- `_get_metrics_snapshot`, and those by which the HTTP interface gets these and the dead tasks.
pub mod Contents
use distro_sync.Prelude.{ℕ, String, Option, none, some, List, [], ◌∷◌, map, length}
use distro_sync.Dict.{Dict, lookup, insert}
use distro_sync.DeadLetter
use distro_sync.Queue.{QueueManager, queue_depth}
use distro_sync.Queue.Stats.{get_all_queue_names, in_flight_count}
use distro_sync.Queue
use distro_sync.Registry
use distro_sync.Registry.{get_active_workers}
use distro_sync.Shedder
use distro_sync.Metrics
use distro_sync.Metrics.Stats.{QueueMetrics}
use distro_sync.Wal
use distro_sync.Wal.{WalStore, Codec}
use distro_sync.Broker.{Broker, Clock, Message, Response, StatsReport, MetricsReport}
use distro_sync.Broker.Admin.{handle_dlq_list}

abbrev pub store_stats : Option WalStore → Option Wal.Stats.Stats
store_stats none = none
store_stats (some s) = some (Wal.Stats.get_stats s)

module _ {P : Type 0} where
  unfoldable pub handle_stats : Clock → Broker P → Broker P × Response P
  handle_stats clock b =
      let (shedder, shed) =
        Shedder.Stats.get_stats clock.tick b.queue_manager b.worker_registry b.load_shedder in
      (
        record b { load_shedder = shedder },
        Response.stats (record {
          queue_manager = Queue.Stats.get_stats b.queue_manager;
          worker_registry = Registry.Stats.get_stats b.worker_registry;
          load_shedder = shed;
          metrics = Metrics.Stats.get_stats clock.tick b.metrics;
          active_connections = b.active_connections;
          wal_store = store_stats b.wal_store;
        }),
      )

  -- the live depths, where the snapshot has the queue
  unfoldable pub fill_depths : List String → QueueManager P → Dict QueueMetrics → Dict QueueMetrics
  fill_depths [] m d = d
  fill_depths (q ∷ qs) m d =
      fill_depths qs m (elim (lookup q d) [
        | none ↦ d
        | some e ↦ insert q (record e { depth = queue_depth q m }) d
      ])

  -- with a store the rows are counted that `get_dlq_tasks` lists, 100 at most
  abbrev pub dlq_total : QueueManager P → Option WalStore → ℕ
  dlq_total m none = length (DeadLetter.peek 1000 m.dead_letter_queue)
  dlq_total m (some s) = length (Wal.get_dlq_tasks none 100 s)

  unfoldable pub get_metrics_snapshot : Clock → Broker P → Broker P × MetricsReport
  get_metrics_snapshot clock b =
      let m = b.queue_manager in
      let (c, snap) = Metrics.Stats.snapshot (get_all_queue_names m) clock.tick b.metrics in
      let (shedder, shed) = Shedder.Stats.get_stats clock.tick m b.worker_registry b.load_shedder in
      (
        record b { load_shedder = shedder; metrics = c },
        record {
          queues = fill_depths (get_all_queue_names m) m snap.queues;
          uptime_seconds = snap.uptime_seconds;
          tracked_in_flight = snap.tracked_in_flight;
          active_workers =
              map (λ w. (w.worker_id, w.status)) (get_active_workers b.worker_registry);
          evicted_count = b.worker_registry.total_evictions;
          dlq_total = dlq_total m b.wal_store;
          in_flight_tasks = in_flight_count m;
          active_connections = b.active_connections;
          load_shedder = shed;
        },
      )

  unfoldable pub handle_metrics : Clock → Broker P → Broker P × Response P
  unfolding get_metrics_snapshot
  handle_metrics clock b =
      let (b', report) = get_metrics_snapshot clock b in (b', Response.metrics report)

  -- `_get_stats_snapshot`
  abbrev pub get_stats_snapshot : Clock → Broker P → Broker P × Response P
  get_stats_snapshot clock b = handle_stats clock b

module _ {P : Type 0} (codec : Codec P) where
  -- `_get_dlq_listing`: DLQ_LIST with no other field
  abbrev pub get_dlq_listing : Broker P → Broker P × Response P
  get_dlq_listing b =
      handle_dlq_list codec
        (record {
          command = some "DLQ_LIST";
          queue = none;
          task = none;
          worker_id = none;
          task_id = none;
          queues = none;
          limit = none;
        })
        b
