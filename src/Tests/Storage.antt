-- ===== src/Tests/Storage.antt =====
-- Runs of persistence/wal_store.py and broker/server.py.
use distro_sync.Prelude.{◌≡◌, ◌≤◌, ◌↔◌, refl, some, none, [], ◌∷◌, arith, String, eq_iff}
use distro_sync.Dict.{lookup}
use distro_sync.Task.{Status, new_task}
use distro_sync.Queue
use distro_sync.Queue.{QueueManager}
use distro_sync.Queue.Copies.{copies, queued, occurs}
use distro_sync.Queue.Copies.Conserve.{IsConsistent}
use distro_sync.Tests.Workers.{registry}
use distro_sync.Wal.{WalStore, TaskRow, Codec, load_pending_tasks}
use distro_sync.Wal.Rows.{saved}
use distro_sync.Wal.Pending.{IsTable, rows}
use distro_sync.Wal.Loads.{IsOldestFirst, IsListed, IsOpen, load_pending_tasks-exact}
use distro_sync.Broker
use distro_sync.Broker.{Broker, Clock, Message}
use distro_sync.Broker.Admin.{evict, start}
use distro_sync.Broker.Dispatch.{Context, dispatch}
use distro_sync.Broker.Durable.{IsDurable, IsSafe, unfinished}
use distro_sync.Broker.Durable.Settle.{evict-IsSafe}
use distro_sync.Broker.Durable.Commands.{dispatch-IsSafe}
use distro_sync.Broker.Durable.Restart.{start-restores}

-- payloads that are their own text
abbrev pub codec : Codec String
codec = record { dumps = λ p. p; loads = λ p. p; empty_object = "{}"; loads-dumps = λ p. refl }

abbrev row : String → Status → TaskRow
row id st = record {
  task_id = id;
  queue_name = "q";
  payload = "payload";
  status = st;
  attempts = 1;
  assigned_worker = none;
  created_at = 7;
  updated_at = 8;
}

-- one task in flight, and one that is done
abbrev pub store : WalStore
store = record {
  tasks = ("t", row "t" Status.in_flight) ∷ ("d", row "d" Status.done) ∷ [];
  dead_letter_queue = [];
  broker_metadata = [];
}

pub store-IsTable : IsTable store.tasks
unfolding lookup
store-IsTable = record {
  distinct = (refl, (refl, tt));
  keyed = λ k r e. ground (arith, e, eq_iff "t" k, eq_iff "d" k);
}

abbrev pub manager : QueueManager String
manager = record (Queue.init 3) {
  queues = ("q", []) ∷ [];
  in_flight = ("t", Queue.start "w" (new_task "t" "q" "payload" 7)) ∷ [];
}

load_pending_tasks-exact_example :
    IsOldestFirst (load_pending_tasks store)
    × ((r : TaskRow)
        → IsListed r (load_pending_tasks store)
          ↔ ((lookup r.task_id store.tasks ≡ some r) × IsOpen r))
    × ((k : String) → rows k (load_pending_tasks store) ≤ 1)
load_pending_tasks-exact_example = load_pending_tasks-exact store store-IsTable

manager-IsConsistent : IsConsistent manager
unfolding copies queued occurs lookup
manager-IsConsistent = record {
  once = λ j. ground arith;
  in_flight_keyed = record { at_key = λ k t e. ground (arith, e, eq_iff "t" k) };
  dead_keyed = record { at_key = λ k t e. absurd (ground (arith, e)) };
}

manager-IsDurable : IsDurable codec manager store
unfolding copies queued occurs lookup saved
manager-IsDurable = record {
  waiting = (tt, tt);
  running = λ k t e. ground (arith, e);
  nothing_else = λ k n. ground (arith, n);
}

start-restores_example :
    let b = start codec 100 (Broker.init 0 (some store)) in
    IsSafe codec b
    × ((id : String) → queued id b.queue_manager.queues ≡ unfinished codec id manager)
start-restores_example =
    start-restores codec manager store manager-IsConsistent manager-IsDurable 100 0 store-IsTable

abbrev pub broker : Broker String
broker = record (Broker.init 0 (some store)) { queue_manager = manager; worker_registry = registry }

pub broker-IsSafe : IsSafe codec broker
broker-IsSafe = record { consistent = manager-IsConsistent; agrees = manager-IsDurable }

abbrev pub message : Message String
message = record {
  command = some "PRODUCE";
  queue = some "q";
  task = some "new payload";
  worker_id = none;
  task_id = none;
  queues = none;
  limit = none;
}

abbrev pub context : Context
context = record {
  uuid = "u";
  clock = record { now = 100; tick = 100 };
  address = ("host", 1);
  writer = 1;
}

dispatch-IsSafe_example : IsSafe codec (dispatch codec context message broker).0
unfolding copies queued occurs lookup
dispatch-IsSafe_example = dispatch-IsSafe codec context message broker broker-IsSafe (ground arith)

evict-IsSafe_example : IsSafe codec (evict (record { now = 90_000; tick = 90_000 }) broker)
evict-IsSafe_example =
    evict-IsSafe codec (record { now = 90_000; tick = 90_000 }) broker broker-IsSafe
