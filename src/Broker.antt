-- ===== src/Broker.antt =====
-- The broker's state, its messages and its responses: broker/server.py. A handler does not suspend
-- between the reads and writes of the parts that it calls, so one call is one step, and its clocks
-- are read once.
pub mod Commands
pub mod Admin
pub mod Reports
pub mod Dispatch
pub mod Durable
pub mod Connection
pub mod Http
pub mod Worker
pub mod Producer
use distro_sync.Prelude.{
  ℕ, ◌+◌, String, Bool, Option, none, some, List, [], ◌∷◌, ◌==◌, if◌then◌else◌,
}
use distro_sync.Dict.{Dict}
use distro_sync.Task.{Task}
use distro_sync.DeadLetter
use distro_sync.Queue
use distro_sync.Queue.{QueueManager, Delivery, Outcome}
use distro_sync.Registry
use distro_sync.Registry.{WorkerRegistry, WorkerStatus}
use distro_sync.Shedder
use distro_sync.Shedder.{AdaptiveLoadShedder}
use distro_sync.Metrics
use distro_sync.Metrics.{MetricsCollector}
use distro_sync.Metrics.Stats.{QueueMetrics}
use distro_sync.Wal
use distro_sync.Wal.{WalStore, DeadRow}

pub record Broker (P : Type 0) : Type 0 where
  pub queue_manager : QueueManager P
  pub worker_registry : WorkerRegistry
  pub load_shedder : AdaptiveLoadShedder
  pub metrics : MetricsCollector
  pub wal_store : Option WalStore
  pub active_connections : ℕ

-- `BrokerServer(db_path=…)`: the store is there if a path is given
abbrev pub init : {P : Type 0} → ℕ → Option WalStore → Broker P
init tick store = record {
  queue_manager = Queue.init 3;
  worker_registry = Registry.init;
  load_shedder = Shedder.init;
  metrics = Metrics.init tick;
  wal_store = store;
  active_connections = 0;
}

-- The wall clock and the monotonic clock.
pub record Clock : Type 0 where
  pub now : ℕ
  pub tick : ℕ

-- The fields that the handlers read of a message, if they are there with the type that the clients
-- of the repository send.
pub record Message (P : Type 0) : Type 0 where
  pub command : Option String
  pub queue : Option String
  pub task : Option P
  pub worker_id : Option String
  pub task_id : Option String
  pub queues : Option (List String)
  pub limit : Option ℕ

pub data Reason : Type 0 where
  missing_command missing_queue missing_task missing_worker_id missing_task_id message_too_large
        invalid_json :
      Reason
  unknown_command unknown_worker not_in_flight not_in_dlq : String → Reason

-- What STATS returns.
pub record StatsReport : Type 0 where
  pub queue_manager : Queue.Stats.Stats
  pub worker_registry : Registry.Stats.Stats
  pub load_shedder : Shedder.Stats.Stats
  pub metrics : Metrics.Stats.Stats
  pub active_connections : ℕ
  pub wal_store : Option Wal.Stats.Stats

-- What METRICS returns; the `latency_ms` of an active worker is always 0.
pub record MetricsReport : Type 0 where
  pub queues : Dict QueueMetrics
  pub uptime_seconds : ℕ
  pub tracked_in_flight : ℕ
  pub active_workers : List (String × WorkerStatus)
  pub evicted_count : ℕ
  pub dlq_total : ℕ
  pub in_flight_tasks : ℕ
  pub active_connections : ℕ
  pub load_shedder : Shedder.Stats.Stats

pub data Response (P : Type 0) : Type 0 where
  error : Reason → Response P
  rate_limited : ℕ → Response P
  produced : String → Response P
  delivered : Delivery P → Response P
  empty : Response P
  registered : Bool → Response P
  alive : Response P
  acknowledged : String → Response P
  rejected : Outcome → Response P
  listed : List (DeadLetter.Summary P) → Response P
  listed_rows : List (DeadRow × P) → Response P
  replayed : String → String → Response P
  purged : ℕ → Response P
  stats : StatsReport → Response P
  metrics : MetricsReport → Response P

-- A field that passes `if not …`: it is there and is not empty.
abbrev pub non_empty : String → Option String
non_empty s = if s == "" then none else some s

abbrev pub given : Option String → Option String
given none = none
given (some s) = non_empty s

-- A field that may be missing, and a handler that needs it.
abbrev pub require :
    {P A : Type 0}
    → Option A
    → Reason
    → Broker P
    → (A → Broker P × Response P)
    → Broker P × Response P
require none reason b k = (b, Response.error reason)
require (some a) reason b k = k a

-- `if self.wal_store:`
abbrev pub on_store : (WalStore → WalStore) → Option WalStore → Option WalStore
on_store f none = none
on_store f (some s) = some (f s)

-- The search for the task that was just enqueued, from the back of its queue.
unfoldable pub find_last : {P : Type 0} → String → List (Task P) → Option (Task P)
find_last id [] = none
find_last id (t ∷ ts) = elim (find_last id ts) [
  | some u ↦ some u
  | none ↦ if t.task_id == id then some t else none
]
