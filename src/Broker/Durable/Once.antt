-- ===== src/Broker/Durable/Once.antt =====
-- No step of the broker brings an id back to the places from which it can be delivered.
pub mod Acknowledged
use distro_sync.Prelude.{
  ℕ, ◌+◌, ◌≤◌, String, ◌≡◌, ◌≢◌, refl, Bool, true, false, Option, none, some, List, [], ◌∷◌, arith,
  ◌==◌, if◌then◌else◌, Option-cases, Bool-cases, inl, inr, eq_iff, ap,
}
use distro_sync.Dict.{Dict, lookup}
use distro_sync.Queue
use distro_sync.Queue.{QueueManager, Delivery}
use distro_sync.Queue.Copies.{copies, queued}
use distro_sync.Queue.Copies.Conserve.{IsConsistent, copies-acknowledge}
use distro_sync.Queue.Copies.Archive.{
  archived, live, copies-live, Archives, requeue_by_id-Archives, acknowledge-archived, dequeue-live,
}
use distro_sync.Registry
use distro_sync.Registry.{WorkerInfo, count_if, dead_workers, requeue_tasks, requeue_workers}
use distro_sync.Registry.Evict.{copies-evict_dead_workers}
use distro_sync.Wal.{WalStore, Codec}
use distro_sync.Broker.{Broker, Clock, Message, Reason, Response, given, require, init}
use distro_sync.Broker.Commands.{acked, handle_ack, assign, handle_consume}
use distro_sync.Broker.Admin.{evict, start, reset_handler, crash_worker}
use distro_sync.Broker.Dispatch.{Context, run_command, dispatch}
use distro_sync.Broker.Durable.{Agrees}
use distro_sync.Broker.Durable.Advance.{HasTable, handle_consume-Advance}
use distro_sync.Broker.Durable.Advance.Admin.{dispatch-Advance}
use distro_sync.Broker.Durable.Restart.{start-copies}
use distro_sync.Broker.Durable.Reach.{Step, Reach, IsSound, Step-IsSound, Reach-IsSound}

module _ {P : Type 0} where
  requeue_tasks-Archives :
      (ids : List String) (m : QueueManager P) (n : ℕ) → Archives m (requeue_tasks ids (m, n)).0
  unfolding requeue_tasks
  requeue_tasks-Archives [] m n j = omega arith
  requeue_tasks-Archives (id ∷ ids) m n j =
      let (m', b) = Queue.requeue_by_id id m in
      omega (arith, requeue_by_id-Archives id m j, requeue_tasks-Archives ids m' (count_if b n) j)

  requeue_workers-Archives :
      (dead : Dict WorkerInfo) (acc : QueueManager P × ℕ)
      → Archives acc.0 (requeue_workers dead acc).0
  unfolding requeue_workers
  requeue_workers-Archives [] acc j = omega arith
  requeue_workers-Archives ((w, i) ∷ dead) acc j = omega (
    arith,
    requeue_tasks-Archives i.in_flight_tasks acc.0 acc.1 j,
    requeue_workers-Archives dead (requeue_tasks i.in_flight_tasks acc) j,
  )

module _ {P : Type 0} (c : Codec P) (j : String) where
  -- the id can be delivered in no more places than before
  abbrev pub Settles : Broker P → Broker P → Type 0
  Settles b b' = live j b'.queue_manager ≤ live j b.queue_manager

  -- no command is given the id for a new task
  abbrev pub IsOld : (b b' : Broker P) → Step c b b' → Type 0
  IsOld _ _ (Step.command x msg _ _ fresh e) = (x.uuid == j) ≡ false
  IsOld _ _ (Step.eviction clock _ _ e) = Unit
  IsOld _ _ (Step.restart now tick _ _ e) = Unit
  IsOld _ _ (Step.crashed_worker w clock _ _ e) = Unit
  IsOld _ _ (Step.cleared clock _ _ e) = Unit
  IsOld _ _ (Step.counted n _ _ e) = Unit

  abbrev pub AllOld : (b b' : Broker P) → Reach c b b' → Type 0
  AllOld b _ Reach.here = Unit
  AllOld b _ (Reach.next m e r s) = AllOld b m r × IsOld m e s

  dispatch-Settles :
      (x : Context) (msg : Message P) (b : Broker P)
      → IsConsistent b.queue_manager
      → (x.uuid == j) ≡ false
      → Settles b (dispatch c x msg b).0
  dispatch-Settles x msg b k old =
      let b' = (dispatch c x msg b).0 in
      let a = dispatch-Advance c x msg b k in
      ground (
        arith,
        old,
        a.brings j,
        a.archives j,
        copies-live j b.queue_manager,
        copies-live j b'.queue_manager,
      )

  evict-Settles :
      (clock : Clock) (b : Broker P) → IsConsistent b.queue_manager → Settles b (evict clock b)
  unfolding evict Registry.evict_dead_workers
  evict-Settles clock b k =
      let b' = evict clock b in
      omega (
        arith,
        (copies-evict_dead_workers clock.now b.worker_registry b.queue_manager k).1 j,
        requeue_workers-Archives (dead_workers clock.now b.worker_registry.workers)
            (b.queue_manager, b.worker_registry.total_tasks_reassigned) j,
        copies-live j b.queue_manager,
        copies-live j b'.queue_manager,
      )

  start-Settles :
      (now tick : ℕ) (b : Broker P) → IsSound c b → Settles b (start c now (init tick b.wal_store))
  unfolding start
  start-Settles now tick b h = from b.wal_store h.safe.agrees h.table
    where
      from :
          (o : Option WalStore)
          → Agrees c b.queue_manager o
          → HasTable o
          → Settles b (start c now (init tick o))
      from none a t = unfold queued lookup in omega arith
      from (some s) a t = omega (
        arith,
        start-copies c b.queue_manager s h.safe.consistent a now tick t j,
        copies-live j (start c now (init tick (some s))).queue_manager,
      )

  crash_worker-Settles :
      (w : String) (clock : Clock) (b : Broker P) → Settles b (crash_worker w clock b)
  unfolding crash_worker
  crash_worker-Settles w clock b = elim (Option-cases (lookup w b.worker_registry.workers)) [
    | inl e ↦ rw (crash_worker, e) (omega arith)
    | inr (i, e) ↦ rw (crash_worker, e) (omega arith)
  ]

  reset-Settles : (clock : Clock) (b : Broker P) → Settles b (reset_handler clock b)
  unfolding reset_handler Queue.reset queued lookup
  reset-Settles clock b = omega arith

  Step-Settles : (b b' : Broker P) (s : Step c b b') → IsSound c b → IsOld b b' s → Settles b b'
  Step-Settles b b' (Step.command x msg _ _ fresh e) h old =
      rw e (dispatch-Settles x msg b h.safe.consistent old)
  Step-Settles b b' (Step.eviction clock _ _ e) h old =
      rw e (evict-Settles clock b h.safe.consistent)
  Step-Settles b b' (Step.restart now tick _ _ e) h old = rw e (start-Settles now tick b h)
  Step-Settles b b' (Step.crashed_worker w clock _ _ e) h old =
      rw e (crash_worker-Settles w clock b)
  Step-Settles b b' (Step.cleared clock _ _ e) h old = rw e (reset-Settles clock b)
  Step-Settles b b' (Step.counted n _ _ e) h old = rw e (omega arith)

  pub Reach-Settles :
      (b b' : Broker P) (r : Reach c b b') → IsSound c b → AllOld b b' r → Settles b b'
  Reach-Settles b _ Reach.here h old = omega arith
  Reach-Settles b _ (Reach.next m e r s) h (all, old) =
      omega (arith, Reach-Settles b m r h all, Step-Settles m e s (Reach-IsSound c b m h r) old)
