-- ===== src/Broker/Admin.antt =====
-- The admin handlers of broker/server.py: the dead letter queue's commands, the dashboard's actions,
-- the eviction round, and the crash recovery of `start`.
use distro_sync.Prelude.{
  ℕ, suc, ◌-◌, String, Bool, true, false, Option, none, some, List, [], ◌∷◌, map, length, get_or,
  ◌==◌, if◌then◌else◌,
}
use distro_sync.Dict.{Dict, lookup, insert}
use distro_sync.Task.{Status, Task}
use distro_sync.DeadLetter
use distro_sync.DeadLetter.{DeadLetterQueue}
use distro_sync.Queue
use distro_sync.Queue.{QueueManager}
use distro_sync.Registry
use distro_sync.Registry.{WorkerInfo}
use distro_sync.Metrics
use distro_sync.Wal
use distro_sync.Wal.{WalStore, Codec, DeadRow, TaskRow}
use distro_sync.Broker.{Broker, Clock, Message, Reason, Response, given, require, on_store}
use distro_sync.Broker.Commands.{persist}

module _ {P : Type 0} where
  -- `[t for t in tasks if t.get("queue_name") == queue_name]`
  unfoldable pub of_queue :
      Option String → List (DeadLetter.Summary P) → List (DeadLetter.Summary P)
  of_queue none ts = ts
  of_queue (some q) [] = []
  of_queue (some q) (t ∷ ts) =
      let rest = of_queue (some q) ts in if t.queue_name == q then t ∷ rest else rest

  -- the ids of the dead tasks of a queue, and their removal one by one
  unfoldable pub dead_ids : String → Dict (Task P) → List String
  dead_ids q [] = []
  dead_ids q ((id, t) ∷ d) =
      let rest = dead_ids q d in if t.queue_name == q then id ∷ rest else rest

  unfoldable pub remove_all : List String → DeadLetterQueue P → DeadLetterQueue P
  remove_all [] d = d
  remove_all (id ∷ ids) d = remove_all ids (DeadLetter.remove id d).0

  abbrev pub purge_memory : Option String → DeadLetterQueue P → DeadLetterQueue P × ℕ
  purge_memory none d = DeadLetter.purge d
  purge_memory (some q) d = (remove_all (dead_ids q d.tasks) d, length (dead_ids q d.tasks))

  -- with a store only the store's rows go
  unfoldable pub handle_dlq_purge : Message P → Broker P → Broker P × Response P
  handle_dlq_purge msg b = elim b.wal_store [
    | some s ↦
        let (s', n) = Wal.purge_dlq msg.queue s in
        (record b { wal_store = some s' }, Response.purged n)
    | none ↦
        let (d, n) = purge_memory (given msg.queue) b.queue_manager.dead_letter_queue in
        (
          record b { queue_manager = record b.queue_manager { dead_letter_queue = d } },
          Response.purged n,
        )
  ]

  -- `_replay_dlq_handler`: the tasks that were peeked, one by one
  unfoldable pub retry_all : List (DeadLetter.Summary P) → QueueManager P → QueueManager P × ℕ
  retry_all [] m = (m, 0)
  retry_all (t ∷ ts) m =
      let (m', success) = Queue.retry t.task_id m in
      let (m'', n) = retry_all ts m' in (m'', if success then suc n else n)

  unfoldable pub replay_dlq_handler : Broker P → Broker P × ℕ
  unfolding retry_all
  replay_dlq_handler b =
      let (m, n) =
        retry_all (DeadLetter.peek 1000 b.queue_manager.dead_letter_queue) b.queue_manager in
      (record b { queue_manager = m }, n)

  unfoldable pub reset_handler : Clock → Broker P → Broker P
  reset_handler clock b = record b {
    queue_manager = Queue.reset b.queue_manager;
    wal_store = on_store Wal.clear_all_data b.wal_store;
    metrics = Metrics.reset clock.tick b.metrics;
  }

  -- `_crash_worker_handler`, for the active worker that was chosen: its connection is closed, which
  -- changes nothing here, and its last heartbeat is put 10 seconds back
  unfoldable pub crash_worker : String → Clock → Broker P → Broker P
  crash_worker w clock b = elim (lookup w b.worker_registry.workers) [
    | none ↦ b
    | some i ↦ record b {
      worker_registry = record b.worker_registry {
        workers =
            insert w (record i { last_heartbeat = clock.now - 10_000 }) b.worker_registry.workers;
      };
    }
  ]

  -- one round of `start_eviction_loop`; the store is not told
  unfoldable pub evict : Clock → Broker P → Broker P
  evict clock b =
      let (r, m) = Registry.evict_dead_workers clock.now b.worker_registry b.queue_manager in
      record b { worker_registry = r; queue_manager = m }

module _ {P : Type 0} (codec : Codec P) where
  unfoldable pub handle_dlq_list : Message P → Broker P → Broker P × Response P
  handle_dlq_list msg b = elim b.wal_store [
    | some s ↦
        let rows = Wal.get_dlq_tasks msg.queue (get_or 50 msg.limit) s in
        (b, Response.listed_rows (map (λ r. (r, codec.loads r.payload)) rows))
    | none ↦
        let tasks = DeadLetter.peek (get_or 50 msg.limit) b.queue_manager.dead_letter_queue in
        (b, Response.listed (of_queue (given msg.queue) tasks))
  ]

  -- the row that the store gave up is enqueued as a new task
  abbrev pub replay_row :
      String → String → Clock → Broker P → WalStore × Option DeadRow → Broker P × Response P
  replay_row id uuid clock b (s, none) =
      (record b { wal_store = some s }, Response.error (Reason.not_in_dlq id))
  replay_row id uuid clock b (s, some r) =
      let (m, new_id) =
        Queue.enqueue r.queue_name (codec.loads r.payload) uuid clock.now b.queue_manager in
      (
        record b {
          queue_manager = m;
          wal_store = persist codec r.queue_name new_id clock.now m (some s);
        },
        Response.replayed id new_id,
      )

  abbrev pub replay_memory : String → Broker P → QueueManager P × Bool → Broker P × Response P
  replay_memory id b (m, true) = (record b { queue_manager = m }, Response.replayed id id)
  replay_memory id b (m, false) =
      (record b { queue_manager = m }, Response.error (Reason.not_in_dlq id))

  abbrev pub replay_in :
      String → String → Clock → Broker P → Option WalStore → Broker P × Response P
  replay_in id uuid clock b none = replay_memory id b (Queue.retry id b.queue_manager)
  replay_in id uuid clock b (some s) = replay_row id uuid clock b (Wal.replay_dlq_task id s)

  unfoldable pub handle_dlq_replay : String → Clock → Message P → Broker P → Broker P × Response P
  handle_dlq_replay uuid clock msg b =
      require (given msg.task_id) Reason.missing_task_id b
        λ id. replay_in id uuid clock b b.wal_store

  -- the loop of the crash recovery: each row is enqueued and set back to pending
  unfoldable pub recover_rows :
      List TaskRow → ℕ → QueueManager P → WalStore → QueueManager P × WalStore
  recover_rows [] now m s = (m, s)
  recover_rows (r ∷ rs) now m s =
      let m' =
        (Queue.enqueue_recovered r.queue_name r.task_id (codec.loads r.payload) r.attempts now
          m).0 in
      let s' = (Wal.update_task_status r.task_id Status.pending (some r.attempts) none now s).0 in
      recover_rows rs now m' s'

  -- phase 1 of `start`
  unfoldable pub start : ℕ → Broker P → Broker P
  start now b = elim b.wal_store [
    | none ↦ b
    | some s ↦
        let (m, s') = recover_rows (Wal.load_pending_tasks s) now b.queue_manager s in
        record b { queue_manager = m; wal_store = some s' }
  ]
