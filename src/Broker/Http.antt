-- ===== src/Broker/Http.antt =====
-- The handlers that `start` of broker/server.py gives to the HTTP interface.
pub mod Steps
use distro_sync.Prelude.{ℕ, ◌%◌, String, Option, none, some, List, [], ◌∷◌, length, get_elem?}
use distro_sync.Registry.{WorkerInfo, get_active_workers}
use distro_sync.Wal.{Codec}
use distro_sync.Broker.{Broker, Clock, Response, MetricsReport}
use distro_sync.Broker.Admin.{crash_worker, replay_dlq_handler, reset_handler}
use distro_sync.Broker.Reports.{get_metrics_snapshot, get_dlq_listing}
use distro_sync.Http.{Handlers, Called}

-- what the handlers return
pub data Page (P : Type 0) : Type 0 where
  metrics : MetricsReport → Page P
  listing : Response P → Page P
  no_active_workers : Page P
  crashed : String → Page P
  replayed : ℕ → Page P
  cleared : Page P

module _ {P : Type 0} (clock : Clock) where
  -- `random.choice` of the active workers, by a number that is drawn
  abbrev pub crash_chosen : Broker P → Option WorkerInfo → Broker P × Page P
  crash_chosen b none = (b, Page.no_active_workers)
  crash_chosen b (some w) = (crash_worker w.worker_id clock b, Page.crashed w.worker_id)

  -- `_crash_worker_handler`
  unfoldable pub crash_worker_handler : ℕ → Broker P → Broker P × Page P
  crash_worker_handler draw b =
      let active = get_active_workers b.worker_registry in
      crash_chosen b (get_elem? active (draw % length active))

-- `_get_stats_snapshot` is a coroutine function too, and `_serve_stats` only calls it
unfoldable pub http_handlers : {P : Type 0} → Codec P → Clock → ℕ → Handlers (Broker P) (Page P)
http_handlers codec clock draw = record {
  metrics_handler = some λ b. let (b', r) = get_metrics_snapshot clock b in (b', Page.metrics r);
  dlq_handler = some λ b. let (b', r) = get_dlq_listing codec b in (b', Page.listing r);
  stats_handler = some Called.coroutine_function;
  crash_worker_handler = some λ b. crash_worker_handler clock draw b;
  replay_dlq_handler = some λ b. let (b', n) = replay_dlq_handler b in (b', Page.replayed n);
  reset_handler = some λ b. (reset_handler clock b, Page.cleared);
}
