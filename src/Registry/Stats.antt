-- ===== src/Registry/Stats.antt =====
-- `get_stats` of `WorkerRegistry`.
use distro_sync.Prelude.{ℕ, String, List, map, length}
use distro_sync.Dict.{Dict}
use distro_sync.Registry.{WorkerStatus, WorkerInfo, WorkerRegistry, average_latency_ms, active_of}

pub record QueueLatency : Type 0 where
  pub average_ms : ℕ
  pub sample_count : ℕ

pub record WorkerSummary : Type 0 where
  pub status : WorkerStatus
  pub queues : List String
  pub last_heartbeat : ℕ
  pub in_flight_tasks : ℕ

pub record Stats : Type 0 where
  pub total_workers : ℕ
  pub active_workers : ℕ
  pub total_evictions : ℕ
  pub total_tasks_reassigned : ℕ
  pub queue_latencies : Dict QueueLatency
  pub workers : Dict WorkerSummary

abbrev pub summary : WorkerInfo → WorkerSummary
summary i = record {
  status = i.status;
  queues = i.queues;
  last_heartbeat = i.last_heartbeat;
  in_flight_tasks = length i.in_flight_tasks;
}

unfoldable pub get_stats : WorkerRegistry → Stats
get_stats r = record {
  total_workers = length r.workers;
  active_workers = length (active_of r.workers);
  total_evictions = r.total_evictions;
  total_tasks_reassigned = r.total_tasks_reassigned;
  queue_latencies =
      map (λ e. (e.0, record { average_ms = average_latency_ms e.0 r; sample_count = length e.1 }))
        r.queue_latencies;
  workers = map (λ e. (e.0, summary e.1)) r.workers;
}
