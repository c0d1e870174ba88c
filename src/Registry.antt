-- ===== src/Registry.antt =====
-- `WorkerRegistry` of broker/worker_registry.py. A time is a number of milliseconds: `now` is the
-- wall clock (`time.time`), `tick` the monotonic one. A connection's writer is a number.
pub mod Stats
pub mod Window
pub mod Evict
pub mod Loop
pub mod Register
use distro_sync.Prelude.{
  ℕ, ◌+◌, ◌-◌, ◌/◌, String, Bool, true, false, Option, none, some, List, [], ◌∷◌, ◌++◌, map, length,
  get_or, ◌==◌, ltb, not, if◌then◌else◌, member, discard, sum,
}
use distro_sync.Dict.{Dict, lookup, insert, erase, is_some}
use distro_sync.Queue.{QueueManager, requeue_by_id}

-- HEARTBEAT_TIMEOUT_SECONDS
abbrev pub heartbeat_timeout : ℕ
heartbeat_timeout = 6000

abbrev pub max_latencies : ℕ
max_latencies = 100

pub data WorkerStatus : Type 0 where
  active evicted : WorkerStatus

-- `in_flight_tasks` is a set, written as a list without repetitions.
pub record WorkerInfo : Type 0 where
  pub worker_id : String
  pub queues : List String
  pub address : String × ℕ
  pub registered_at : ℕ
  pub last_heartbeat : ℕ
  pub in_flight_tasks : List String
  pub task_start_times : Dict ℕ
  pub writer : Option ℕ
  pub status : WorkerStatus

pub record WorkerRegistry : Type 0 where
  pub workers : Dict WorkerInfo
  pub running : Bool
  pub queue_latencies : Dict (List ℕ)
  pub total_evictions : ℕ
  pub total_tasks_reassigned : ℕ

abbrev pub init : WorkerRegistry
init = record {
  workers = [];
  running = false;
  queue_latencies = [];
  total_evictions = 0;
  total_tasks_reassigned = 0;
}

abbrev pub new_worker : String → String × ℕ → Option (List String) → Option ℕ → ℕ → WorkerInfo
new_worker w address queues writer now = record {
  worker_id = w;
  queues = get_or [] queues;
  address = address;
  registered_at = now;
  last_heartbeat = now;
  in_flight_tasks = [];
  task_start_times = [];
  writer = writer;
  status = WorkerStatus.active;
}

unfoldable pub register :
    String
    → String × ℕ
    → Option (List String)
    → Option ℕ
    → ℕ
    → WorkerRegistry
    → WorkerRegistry × Bool
register w address queues writer now r = (
  record r { workers = insert w (new_worker w address queues writer now) r.workers },
  not (is_some (lookup w r.workers)),
)

unfoldable pub unregister : String → WorkerRegistry → WorkerRegistry × Bool
unregister w r = elim (lookup w r.workers) [
  | none ↦ (r, false)
  | some i ↦ (record r { workers = erase w r.workers }, true)
]

abbrev pub beat : ℕ → WorkerInfo → WorkerInfo
beat now i = record i { last_heartbeat = now; status = WorkerStatus.active }

unfoldable pub record_heartbeat : String → ℕ → WorkerRegistry → WorkerRegistry × Bool
record_heartbeat w now r = elim (lookup w r.workers) [
  | none ↦ (r, false)
  | some i ↦ (record r { workers = insert w (beat now i) r.workers }, true)
]

abbrev pub assign : String → ℕ → WorkerInfo → WorkerInfo
assign id tick i = record i {
  in_flight_tasks =
      if member id i.in_flight_tasks then i.in_flight_tasks else i.in_flight_tasks ++ id ∷ [];
  task_start_times = insert id tick i.task_start_times;
}

unfoldable pub assign_task : String → String → ℕ → WorkerRegistry → WorkerRegistry
assign_task w id tick r = elim (lookup w r.workers) [
  | none ↦ r
  | some i ↦ record r { workers = insert w (assign id tick i) r.workers }
]

-- `deque(maxlen=100).append`
abbrev pub drop_first : List ℕ → List ℕ
drop_first [] = []
drop_first (x ∷ xs) = xs

unfoldable pub push : ℕ → List ℕ → List ℕ
push x xs = let ys = xs ++ x ∷ [] in if ltb max_latencies (length ys) then drop_first ys else ys

unfoldable pub record_latency : String → ℕ → Dict (List ℕ) → Dict (List ℕ)
unfolding push
record_latency q ms d = insert q (push ms (get_or [] (lookup q d))) d

unfoldable pub record_latencies : List String → ℕ → Dict (List ℕ) → Dict (List ℕ)
record_latencies [] ms d = d
record_latencies (q ∷ qs) ms d = record_latencies qs ms (record_latency q ms d)

abbrev pub finish : String → WorkerInfo → WorkerInfo
finish id i = record i {
  in_flight_tasks = discard id i.in_flight_tasks;
  task_start_times = erase id i.task_start_times;
}

-- the latency is recorded for every queue that the worker serves
abbrev pub latencies_after : Option ℕ → ℕ → List String → Dict (List ℕ) → Dict (List ℕ)
latencies_after none tick qs d = d
latencies_after (some started) tick qs d = record_latencies qs (tick - started) d

unfoldable pub complete_task : String → String → ℕ → WorkerRegistry → WorkerRegistry
complete_task w id tick r = elim (lookup w r.workers) [
  | none ↦ r
  | some i ↦ record r {
    workers = insert w (finish id i) r.workers;
    queue_latencies =
        latencies_after (lookup id i.task_start_times) tick i.queues r.queue_latencies;
  }
]

-- Python's exact quotient, rounded down to whole milliseconds
abbrev pub mean : List ℕ → ℕ
mean [] = 0
mean (x ∷ xs) = sum (x ∷ xs) / length (x ∷ xs)

unfoldable pub average_latency_ms : String → WorkerRegistry → ℕ
average_latency_ms q r = mean (get_or [] (lookup q r.queue_latencies))

abbrev pub is_dead : ℕ → WorkerInfo → Bool
is_dead now i = ltb (i.last_heartbeat + heartbeat_timeout) now

unfoldable pub dead_workers : ℕ → Dict WorkerInfo → Dict WorkerInfo
dead_workers now [] = []
dead_workers now ((w, i) ∷ d) =
    let rest = dead_workers now d in if is_dead now i then (w, i) ∷ rest else rest

-- `del self._workers[wid]` for each
unfoldable pub delete_all : Dict WorkerInfo → Dict WorkerInfo → Dict WorkerInfo
delete_all [] d = d
delete_all ((w, i) ∷ dead) d = delete_all dead (erase w d)

abbrev pub count_if : Bool → ℕ → ℕ
count_if b n = if b then n + 1 else n

module _ {P : Type 0} where
  -- the tasks of one worker, and the count of those that were requeued
  unfoldable pub requeue_tasks : List String → QueueManager P × ℕ → QueueManager P × ℕ
  requeue_tasks [] acc = acc
  requeue_tasks (id ∷ ids) (m, n) =
      let (m', requeued) = requeue_by_id id m in requeue_tasks ids (m', count_if requeued n)

  unfoldable pub requeue_workers : Dict WorkerInfo → QueueManager P × ℕ → QueueManager P × ℕ
  requeue_workers [] acc = acc
  requeue_workers ((w, i) ∷ dead) acc = requeue_workers dead (requeue_tasks i.in_flight_tasks acc)

  -- The registry has a queue manager here, as it has in the broker.
  unfoldable pub evict_dead_workers :
      ℕ → WorkerRegistry → QueueManager P → WorkerRegistry × QueueManager P
  evict_dead_workers now r m =
      let dead = dead_workers now r.workers in
      let (m', n) = requeue_workers dead (m, r.total_tasks_reassigned) in
      (
        record r {
          workers = delete_all dead r.workers;
          total_evictions = r.total_evictions + length dead;
          total_tasks_reassigned = n;
        },
        m',
      )

unfoldable pub get_worker : String → WorkerRegistry → Option WorkerInfo
get_worker w r = lookup w r.workers

abbrev pub is_active : WorkerStatus → Bool
is_active WorkerStatus.active = true
is_active WorkerStatus.evicted = false

unfoldable pub active_of : Dict WorkerInfo → List WorkerInfo
active_of [] = []
active_of ((w, i) ∷ d) = let rest = active_of d in if is_active i.status then i ∷ rest else rest

unfoldable pub get_active_workers : WorkerRegistry → List WorkerInfo
get_active_workers r = active_of r.workers

unfoldable pub get_worker_count : WorkerRegistry → ℕ
get_worker_count r = length r.workers
