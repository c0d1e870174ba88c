-- ===== src/Broker/Worker/Drains.antt =====
-- A worker whose executions succeed, and a queue.
use distro_sync.Prelude.{
  ℕ, ◌+◌, String, ◌≡◌, ◌≢◌, refl, ap, ◌∙◌, Bool, true, some, List, [], ◌∷◌, All, arith, length,
  eq-false,
}
use distro_sync.Dict.{lookup, insert, held}
use distro_sync.Dict.Laws.{lookup-insert, lookup-insert_self}
use distro_sync.Task.{Task}
use distro_sync.Queue.{
  QueueManager, Delivery, queue, take_first, ensure_queue, start, deliver, acknowledge,
  acknowledged, finish,
}
use distro_sync.Queue.Views.{dequeue_named, queue-take_first}
use distro_sync.Wal.{Codec}
use distro_sync.Broker.{Broker, Response}
use distro_sync.Broker.Commands.{handle_consume, handle_ack}
use distro_sync.Broker.Dispatch.{Context, dispatch}
use distro_sync.Broker.Worker.{ask}
use distro_sync.Worker.{BaseWorker, Phase, Event, step, run, consume_message, ack_message}

module _ {P : Type 0} where
  -- what the worker leaves behind
  pub record IsDrained (q : String) (ts : List (Task P)) (w w' : BaseWorker P)
      (m m' : QueueManager P) : Type 0 where
    pub completed : w'.tasks_completed ≡ w.tasks_completed + length ts
    pub failed : w'.tasks_failed ≡ w.tasks_failed
    pub polling : w'.phase ≡ Phase.polling
    pub emptied : queue q m' ≡ []
    pub acked : m'.total_acked ≡ m.total_acked + length ts
    pub archived :
        (j : String) → (held (lookup j m.completed) ≡ 1) → held (lookup j m'.completed) ≡ 1
    pub each : All (λ t. held (lookup t.task_id m'.completed) ≡ 1) ts

  -- two sends for each task
  abbrev pub loops : List (Task P) → List Event
  loops [] = []
  loops (t ∷ ts) = Event.loop ∷ Event.loop ∷ loops ts

module _ {P : Type 0} (c : Codec P) (contexts : ℕ → Context) where
  -- the queue manager after the task at the front is taken, and after it is acknowledged
  abbrev taken : String → String → Task P → List (Task P) → QueueManager P → QueueManager P
  taken q id t ts m = (take_first q id (t ∷ ts) (ensure_queue q m)).0

  -- A worker that polls, and what it left behind.
  module _ (id q : String) (h : q ≢ "*") (h' : q ≢ "") (i : id ≢ "") where
    dispatch-consume :
        (x : Context) (w : BaseWorker P) (t : Task P) (ts : List (Task P)) (b : Broker P)
        → w.worker_id ≡ id
        → w.queue_name ≡ q
        → queue q b.queue_manager ≡ t ∷ ts
        → let (b', r) = dispatch c x (consume_message w) b in
          (b'.queue_manager ≡ taken q id t ts b.queue_manager)
          × (r ≡ Response.delivered (deliver (start id t)))
    unfolding dispatch handle_consume
    dispatch-consume x w t ts b e e' f =
        rw (e, e', eq-false q "" h', eq-false id "" i, dequeue_named q id b.queue_manager h, f)
          (refl, refl)

    dispatch-ack :
        (x : Context) (w : BaseWorker P) (t : Task P) (d : Delivery P) (b : Broker P)
        → d.task_id ≢ ""
        → lookup d.task_id b.queue_manager.in_flight ≡ some t
        → let (b', r) = dispatch c x (ack_message d w) b in
          (b'.queue_manager ≡ acknowledged d.task_id t b.queue_manager)
          × (r ≡ Response.acknowledged d.task_id)
    unfolding dispatch handle_ack acknowledge
    dispatch-ack x w t d b j f = rw (eq-false d.task_id "" j) (rw (acknowledge, f) (refl, refl))

    module _ (execute : P → Bool) where
      -- what a task that is taken and acknowledged leaves
      record Processed (t : Task P) (w w' : BaseWorker P) (m m' : QueueManager P) : Type 0 where
        worker : w' ≡ record w { tasks_completed = w.tasks_completed + 1 }
        manager : m' ≡ acknowledged t.task_id (start id t) m

      cycle :
          (w : BaseWorker P) (n : ℕ) (t : Task P) (ts : List (Task P)) (b : Broker P)
          → w.worker_id ≡ id
          → w.queue_name ≡ q
          → w.phase ≡ Phase.polling
          → w.running ≡ true
          → queue q b.queue_manager ≡ t ∷ ts
          → t.task_id ≢ ""
          → execute t.payload ≡ true
          → let (w', (n', b')) =
              run (ask c contexts) execute (Event.loop ∷ Event.loop ∷ []) (w, (n, b)) in
            Processed t w w' (taken q id t ts b.queue_manager) b'.queue_manager × (n' ≡ n + 2)
      unfolding run step
      cycle w n t ts b e e' p r f j x =
          let (m, a) = dispatch-consume (contexts n) w t ts b e e' f in
          let b₁ = (dispatch c (contexts n) (consume_message w) b).0 in
          let found : lookup t.task_id b₁.queue_manager.in_flight ≡ some (start id t) = rw m (
            lookup-insert_self t.task_id (start id t) (ensure_queue q b.queue_manager).in_flight) in
          let (m', a') =
            dispatch-ack (contexts (n + 1))
              (record w { phase = Phase.holding (deliver (start id t)) }) (start id t)
              (deliver (start id t)) b₁ j found in
          rw (p, r, a, x, a')
            (
              record { worker = refl; manager = m' ∙ ap (acknowledged t.task_id (start id t)) m },
              omega arith,
            )

      -- A worker alone with the broker that polls a named queue whose tasks it all executes
      -- without an exception empties the queue with two sends for each task: it has counted each
      -- as completed and none as failed, the broker has counted as many acknowledgements, and each
      -- task is in the archive, with all that was there before. The names of the worker, the queue
      -- and the tasks are not empty, and the queue is not "*".
      pub run-drains :
          (ts : List (Task P)) (w : BaseWorker P) (n : ℕ) (b : Broker P)
          → w.worker_id ≡ id
          → w.queue_name ≡ q
          → w.phase ≡ Phase.polling
          → w.running ≡ true
          → queue q b.queue_manager ≡ ts
          → All (λ t. (t.task_id ≢ "") × (execute t.payload ≡ true)) ts
          → let (w', (n', b')) = run (ask c contexts) execute (loops ts) (w, (n, b)) in
            IsDrained q ts w w' b.queue_manager b'.queue_manager
      unfolding run ensure_queue
      run-drains [] w n b e e' p r f g = record {
        completed = omega arith;
        failed = refl;
        polling = p;
        emptied = f;
        acked = omega arith;
        archived = λ j k. k;
        each = tt;
      }
      run-drains (t ∷ ts) w n b e e' p r f g =
          let (d, k) = cycle w n t ts b e e' p r f g.0.0 g.0.1 in
          let (w', (n', b')) =
            run (ask c contexts) execute (Event.loop ∷ Event.loop ∷ []) (w, (n, b)) in
          let left : queue q b'.queue_manager ≡ ts =
            rw (d.manager) (queue-take_first q id t ts (ensure_queue q b.queue_manager)) in
          let rest =
            run-drains ts w' n' b' (rw (d.worker) e) (rw (d.worker) e') (rw (d.worker) p)
              (rw (d.worker) r) left g.1 in
          let archive : b'.queue_manager.completed
              ≡ insert t.task_id (finish (start id t)) b.queue_manager.completed =
            ap (λ m. m.completed) d.manager in
          record {
            completed = omega (arith, rest.completed, ap (λ v. v.tasks_completed) d.worker);
            failed = rest.failed ∙ ap (λ v. v.tasks_failed) d.worker;
            polling = rest.polling;
            emptied = rest.emptied;
            acked = omega (arith, rest.acked, ap (λ m. m.total_acked) d.manager);
            archived = λ j k. rest.archived j (
                rw archive (
                  ground (
                    arith,
                    k,
                    lookup-insert j t.task_id (finish (start id t)) b.queue_manager.completed,
                  )));
            each = (
              rest.archived t.task_id (
                  rw
                    (
                      archive,
                      lookup-insert_self t.task_id (finish (start id t)) b.queue_manager.completed,
                    )
                    refl),
              rest.each,
            );
          }
