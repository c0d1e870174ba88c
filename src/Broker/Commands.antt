-- ===== src/Broker/Commands.antt =====
-- The handlers of the producers' and workers' commands: `_handle_produce`, `_handle_consume`,
-- `_handle_register`, `_handle_heartbeat`, `_handle_ack` and `_handle_nack` of broker/server.py.
use distro_sync.Prelude.{
  ℕ, String, Bool, true, false, Option, none, some, List, [], ◌∷◌, get_or, ◌==◌, if◌then◌else◌,
}
use distro_sync.Task.{Status, Task, new_task}
use distro_sync.DeadLetter
use distro_sync.Queue
use distro_sync.Queue.{QueueManager, Delivery, Action, Outcome}
use distro_sync.Registry
use distro_sync.Shedder
use distro_sync.Metrics
use distro_sync.Wal
use distro_sync.Wal.{WalStore, Codec}
use distro_sync.Broker.{
  Broker, Clock, Message, Reason, Response, given, require, on_store, find_last,
}

module _ {P : Type 0} (codec : Codec P) where
  abbrev pub save_found : Option (Task P) → ℕ → WalStore → WalStore
  save_found none now s = s
  save_found (some t) now s = Wal.save_task codec t now s

  -- the loop that persists a task of the queue
  abbrev pub persist : String → String → ℕ → QueueManager P → Option WalStore → Option WalStore
  persist q id now m store = on_store (save_found (find_last id (Queue.queue q m)) now) store

  -- PRODUCE, once it is allowed
  unfoldable pub accept : String → P → String → Clock → Broker P → Broker P × Response P
  accept q p uuid clock b =
      let (m, id) = Queue.enqueue q p uuid clock.now b.queue_manager in
      (
        record b {
          queue_manager = m;
          metrics = Metrics.record_produce q clock.tick b.metrics;
          wal_store = persist q id clock.now m b.wal_store;
        },
        Response.produced id,
      )

  abbrev pub produce_if : String → P → String → Clock → Option ℕ → Broker P → Broker P × Response P
  produce_if q p uuid clock (some hint) b = (b, Response.rate_limited hint)
  produce_if q p uuid clock none b = accept q p uuid clock b

  unfoldable pub handle_produce : String → Clock → Message P → Broker P → Broker P × Response P
  handle_produce uuid clock msg b = require (given msg.queue) Reason.missing_queue b λ q.
      require msg.task Reason.missing_task b λ p.
        let (shedder, hint) =
          Shedder.check_and_consume q clock.tick b.queue_manager b.worker_registry b.load_shedder in
        produce_if q p uuid clock hint (record b { load_shedder = shedder })

abbrev pub mark_done : String → ℕ → WalStore → WalStore
mark_done id now s = (Wal.update_task_status id Status.done none none now s).0

abbrev pub is_dead_lettered : Action → Bool
is_dead_lettered Action.dead_lettered = true
is_dead_lettered Action.requeued = false

module _ {P : Type 0} where
  abbrev pub mark_in_flight : Delivery P → String → ℕ → WalStore → WalStore
  mark_in_flight d w now s =
      (Wal.update_task_status d.task_id Status.in_flight (some d.attempts) (some w) now s).0

  -- what follows a dequeue; the metrics go by the queue of the message
  abbrev pub assign :
      String → String → Clock → Broker P → Option (Delivery P) → Broker P × Response P
  assign q w clock b none = (b, Response.empty)
  assign q w clock b (some d) = (
    record b {
      worker_registry = Registry.assign_task w d.task_id clock.tick b.worker_registry;
      metrics = Metrics.record_consume q d.task_id clock.tick b.metrics;
      wal_store = on_store (mark_in_flight d w clock.now) b.wal_store;
    },
    Response.delivered d,
  )

  unfoldable pub handle_consume : Clock → Message P → Broker P → Broker P × Response P
  handle_consume clock msg b = require (given msg.queue) Reason.missing_queue b λ q.
      require (given msg.worker_id) Reason.missing_worker_id b λ w.
        let (m, d) = Queue.dequeue q w b.queue_manager in
        assign q w clock (record b { queue_manager = m }) d

  -- the address and the writer are those of the connection
  unfoldable pub handle_register :
      String × ℕ → ℕ → Clock → Message P → Broker P → Broker P × Response P
  handle_register address writer clock msg b =
      require (given msg.worker_id) Reason.missing_worker_id b λ w.
        let (r, is_new) =
          Registry.register w address msg.queues (some writer) clock.now b.worker_registry in
        (record b { worker_registry = r }, Response.registered is_new)

  unfoldable pub handle_heartbeat : Clock → Message P → Broker P → Broker P × Response P
  handle_heartbeat clock msg b = require (given msg.worker_id) Reason.missing_worker_id b λ w.
      let (r, found) = Registry.record_heartbeat w clock.now b.worker_registry in
      (
        record b { worker_registry = r },
        if found then Response.alive else Response.error (Reason.unknown_worker w),
      )

  -- after the queue manager has acknowledged
  abbrev pub completed : String → Clock → Message P → Broker P → Broker P
  completed id clock msg b = record b {
    worker_registry =
        Registry.complete_task (get_or "" msg.worker_id) id clock.tick b.worker_registry;
    metrics = Metrics.record_ack (get_or "unknown" msg.queue) id clock.tick b.metrics;
    wal_store = on_store (mark_done id clock.now) b.wal_store;
  }

  abbrev pub acked : String → Clock → Message P → Broker P → Bool → Broker P × Response P
  acked id clock msg b true = (completed id clock msg b, Response.acknowledged id)
  acked id clock msg b false = (b, Response.error (Reason.not_in_flight id))

  unfoldable pub handle_ack : Clock → Message P → Broker P → Broker P × Response P
  handle_ack clock msg b = require (given msg.task_id) Reason.missing_task_id b λ id.
      let (m, success) = Queue.acknowledge id b.queue_manager in
      acked id clock msg (record b { queue_manager = m }) success

  -- the payload of the task among those that were peeked
  unfoldable pub find_payload : String → P → List (DeadLetter.Summary P) → P
  find_payload id p [] = p
  find_payload id p (t ∷ ts) = if t.task_id == id then t.payload else find_payload id p ts

module _ {P : Type 0} (codec : Codec P) where
  -- the `task_stub` of `_handle_nack`
  abbrev pub stub : String → Outcome → ℕ → QueueManager P → Task P
  stub id o now m =
      let dead = DeadLetter.peek 100 m.dead_letter_queue in
      record (new_task id o.queue_name (find_payload id codec.empty_object dead) now) {
        attempts = o.attempts;
      }

  abbrev pub persist_outcome : String → Outcome → Action → ℕ → QueueManager P → WalStore → WalStore
  persist_outcome id o Action.dead_lettered now m s =
      Wal.add_to_dlq codec (stub id o now m) "max retries exceeded" now s
  persist_outcome id o Action.requeued now m s =
      (Wal.update_task_status id Status.pending (some o.attempts) none now s).0

  -- after the queue manager has routed the task
  abbrev pub routed : String → Clock → Message P → Broker P → Option Outcome → Broker P × Response P
  routed id clock msg b none = (b, Response.error (Reason.not_in_flight id))
  routed id clock msg b (some o) = (
    record b {
      worker_registry =
          Registry.complete_task (get_or "" msg.worker_id) id clock.tick b.worker_registry;
      metrics = Metrics.record_nack o.queue_name id (is_dead_lettered o.action) b.metrics;
      wal_store = on_store (persist_outcome id o o.action clock.now b.queue_manager) b.wal_store;
    },
    Response.rejected o,
  )

  unfoldable pub handle_nack : Clock → Message P → Broker P → Broker P × Response P
  handle_nack clock msg b = require (given msg.task_id) Reason.missing_task_id b λ id.
      let (m, result) = Queue.negative_acknowledge id clock.now b.queue_manager in
      routed id clock msg (record b { queue_manager = m }) result
