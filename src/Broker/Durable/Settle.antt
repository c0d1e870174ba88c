-- ===== src/Broker/Durable/Settle.antt =====
-- ACK, NACK and the eviction round keep the queue manager consistent and the store in agreement.
use distro_sync.Prelude.{
  ℕ, String, ◌≡◌, Option, none, some, List, [], ◌∷◌, arith, leb, Option-cases, Bool-cases, inl, inr,
}
use distro_sync.Dict.{Dict, lookup}
use distro_sync.Task.{Task}
use distro_sync.Queue
use distro_sync.Queue.{
  QueueManager, Outcome, Action, outcome, nacked, dead_letter, appendleft, release,
}
use distro_sync.Queue.Copies.Conserve.{IsConsistent}
use distro_sync.Queue.Run.{Op, apply, arrivals, tally, apply-IsConsistent}
use distro_sync.Registry
use distro_sync.Registry.{WorkerInfo, requeue_tasks, requeue_workers, dead_workers, count_if}
use distro_sync.Registry.Evict.{copies-evict_dead_workers, requeue_by_id-Kept, requeue_tasks-Kept}
use distro_sync.Wal.{WalStore, Codec}
use distro_sync.Broker.{Broker, Clock, Message, given, on_store}
use distro_sync.Broker.Commands.{handle_ack, acked, routed, handle_nack, mark_done, persist_outcome}
use distro_sync.Broker.Admin.{evict}
use distro_sync.Broker.Durable.{Agrees, IsSafe, require-IsSafe}
use distro_sync.Broker.Durable.Resolve.{
  ack-IsDurable, nack-IsDurable, bury-IsDurable, requeue-IsDurable,
}

module _ {P : Type 0} (c : Codec P) where
  -- the store that `_handle_ack` leaves
  ack-Agrees :
      (id : String) (now : ℕ) (t : Task P) (m : QueueManager P) (store : Option WalStore)
      → IsConsistent m
      → lookup id m.in_flight ≡ some t
      → Agrees c m store
      → Agrees c (Queue.acknowledge id m).0 (on_store (mark_done id now) store)
  ack-Agrees id now t m none k e d = tt
  ack-Agrees id now t m (some s) k e d = ack-IsDurable c id t m s k e d now

  acked-IsSafe :
      (id : String) (clock : Clock) (msg : Message P) (b : Broker P)
      → IsSafe c b
      → let (m, success) = Queue.acknowledge id b.queue_manager in
        IsSafe c (acked id clock msg (record b { queue_manager = m }) success).0
  unfolding Queue.acknowledge
  acked-IsSafe id clock msg b h = elim (Option-cases (lookup id b.queue_manager.in_flight)) [
    | inl e ↦ rw (Queue.acknowledge, e) h
    | inr (t, e) ↦
        let kept : IsConsistent (Queue.acknowledge id b.queue_manager).0 =
          unfold apply arrivals tally in
          apply-IsConsistent (Op.acknowledge id) b.queue_manager h.consistent
            (λ j. omega (arith, h.consistent.once j)) in
        let agree = ack-Agrees id clock.now t b.queue_manager b.wal_store h.consistent e h.agrees in
        rw (Queue.acknowledge, e)
          (record {
            consistent = rw (Queue.acknowledge, e) at kept;
            agrees = rw (Queue.acknowledge, e) at agree;
          })
  ]

  pub handle_ack-IsSafe :
      (clock : Clock) (msg : Message P) (b : Broker P)
      → IsSafe c b
      → IsSafe c (handle_ack clock msg b).0
  unfolding handle_ack
  handle_ack-IsSafe clock msg b h =
      require-IsSafe c (given msg.task_id) _ b _ h λ id. acked-IsSafe id clock msg b h

  -- the store that `_handle_nack` leaves
  abbrev AfterNack : String → ℕ → QueueManager P × Option Outcome → Option WalStore → Type 0
  AfterNack id now (m, none) store = Agrees c m store
  AfterNack id now (m, some o) store =
      Agrees c m (on_store (persist_outcome c id o o.action now m) store)

  nack-Agrees :
      (id : String) (now : ℕ) (m : QueueManager P) (store : Option WalStore)
      → IsConsistent m
      → Agrees c m store
      → AfterNack id now (Queue.negative_acknowledge id now m) store
  unfolding Queue.negative_acknowledge
  nack-Agrees id now m none k d = ground arith
  nack-Agrees id now m (some s) k d = elim (Option-cases (lookup id m.in_flight)) [
    | inl e ↦ rw (Queue.negative_acknowledge, e) d
    | inr (t, e) ↦ elim (Bool-cases (leb m.max_retries t.attempts)) [
      | inl spent ↦ rw (Queue.negative_acknowledge, e, spent) (bury-IsDurable c id t m s k e d now)
      | inr more ↦ rw (Queue.negative_acknowledge, e, more) (nack-IsDurable c id t m s k e d now)
    ]
  ]

  routed-IsSafe :
      (id : String) (clock : Clock) (msg : Message P) (b : Broker P) (o : Option Outcome)
      → IsConsistent b.queue_manager
      → AfterNack id clock.now (b.queue_manager, o) b.wal_store
      → IsSafe c (routed c id clock msg b o).0
  routed-IsSafe id clock msg b none k d = record { consistent = k; agrees = d }
  routed-IsSafe id clock msg b (some o) k d = record { consistent = k; agrees = d }

  pub handle_nack-IsSafe :
      (clock : Clock) (msg : Message P) (b : Broker P)
      → IsSafe c b
      → IsSafe c (handle_nack c clock msg b).0
  unfolding handle_nack
  handle_nack-IsSafe clock msg b h = require-IsSafe c (given msg.task_id) _ b _ h λ id.
      let (m, o) = Queue.negative_acknowledge id clock.now b.queue_manager in
      routed-IsSafe id clock msg (record b { queue_manager = m }) o
        (unfold apply arrivals tally in
          apply-IsConsistent (Op.negative_acknowledge id clock.now) b.queue_manager h.consistent
            (λ j. omega (arith, h.consistent.once j)))
        (nack-Agrees id clock.now b.queue_manager b.wal_store h.consistent h.agrees)

  requeue_by_id-Agrees :
      (id : String) (m : QueueManager P) (store : Option WalStore)
      → IsConsistent m
      → Agrees c m store
      → Agrees c (Queue.requeue_by_id id m).0 store
  unfolding Queue.requeue_by_id
  requeue_by_id-Agrees id m none k d = tt
  requeue_by_id-Agrees id m (some s) k d = elim (Option-cases (lookup id m.in_flight)) [
    | inl e ↦ rw (Queue.requeue_by_id, e) d
    | inr (t, e) ↦ requeue-IsDurable c id t m s k e d
  ]

  requeue_tasks-Agrees :
      (ids : List String) (m : QueueManager P) (n : ℕ) (store : Option WalStore)
      → IsConsistent m
      → Agrees c m store
      → Agrees c (requeue_tasks ids (m, n)).0 store
  unfolding requeue_tasks
  requeue_tasks-Agrees [] m n store k d = d
  requeue_tasks-Agrees (id ∷ ids) m n store k d =
      let (m', b) = Queue.requeue_by_id id m in
      requeue_tasks-Agrees ids m' (count_if b n) store (requeue_by_id-Kept id m k).0
        (requeue_by_id-Agrees id m store k d)

  requeue_workers-Agrees :
      (dead : Dict WorkerInfo) (acc : QueueManager P × ℕ) (store : Option WalStore)
      → IsConsistent acc.0
      → Agrees c acc.0 store
      → Agrees c (requeue_workers dead acc).0 store
  unfolding requeue_workers
  requeue_workers-Agrees [] acc store k d = d
  requeue_workers-Agrees ((w, i) ∷ dead) acc store k d =
      requeue_workers-Agrees dead (requeue_tasks i.in_flight_tasks acc) store
        (requeue_tasks-Kept i.in_flight_tasks acc.0 acc.1 k).0
        (requeue_tasks-Agrees i.in_flight_tasks acc.0 acc.1 store k d)

  -- An eviction round, which gives the tasks of dead workers back to their queues and writes
  -- nothing to the store, keeps the queue manager consistent and the store in agreement with it.
  pub evict-IsSafe : (clock : Clock) (b : Broker P) → IsSafe c b → IsSafe c (evict clock b)
  unfolding evict Registry.evict_dead_workers
  evict-IsSafe clock b h = record {
    consistent =
        (copies-evict_dead_workers clock.now b.worker_registry b.queue_manager h.consistent).0;
    agrees =
        requeue_workers-Agrees (dead_workers clock.now b.worker_registry.workers)
          (b.queue_manager, b.worker_registry.total_tasks_reassigned) b.wal_store h.consistent
          h.agrees;
  }
