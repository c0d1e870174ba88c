-- ===== src/Queue/Views/Retry.antt =====
-- The retry policy: a task that always fails is tried `max_retries` times and then lies in the dead
-- letter queue.
use distro_sync.Prelude.{
  ℕ, zero, suc, ◌≤◌, ◌<◌, String, ◌≡◌, ◌≢◌, refl, Option, none, some, List, ◌∷◌, arith, eq_iff, ◌∙◌,
}
use distro_sync.Dict.{lookup}
use distro_sync.Dict.Laws.{lookup-insert, lookup-insert_self}
use distro_sync.Task.{Status, Task}
use distro_sync.DeadLetter
use distro_sync.Queue.{
  QueueManager, Delivery, queue, appendleft, dequeue, start, release, take_first, ensure_queue,
  negative_acknowledge, dead_letter, nacked,
}
use distro_sync.Queue.Views.{queue-appendleft, dequeue_named}

module _ {P : Type 0} where
  -- the NACK of a task that was delivered, if one was
  pub nack_delivery : ℕ → QueueManager P × Option (Delivery P) → QueueManager P
  nack_delivery now (m, none) = m
  nack_delivery now (m, some d) = (negative_acknowledge d.task_id now m).0

  -- a worker takes a task of the queue and fails
  pub fail_once : String → String → ℕ → QueueManager P → QueueManager P
  fail_once q w now m = nack_delivery now (dequeue q w m)

  pub fail_times : ℕ → String → String → ℕ → QueueManager P → QueueManager P
  fail_times zero q w now m = m
  fail_times (suc n) q w now m = fail_times n q w now (fail_once q w now m)

  -- a waiting task that was tried `k` times
  abbrev pub tried : ℕ → Task P → Task P
  tried k t = record t { status = Status.pending; assigned_worker = none; attempts = k }

  -- NACK of a task with attempts left
  nack_requeues :
      (id : String) (now : ℕ) (t : Task P) (m : QueueManager P)
      → lookup id m.in_flight ≡ some t
      → t.attempts < m.max_retries
      → (negative_acknowledge id now m).0 ≡ appendleft (release t) (nacked id m)
  unfolding negative_acknowledge
  nack_requeues id now t m e lt = ground arith

  -- NACK of a task with none left
  pub nack_buries :
      (id : String) (now : ℕ) (t : Task P) (m : QueueManager P)
      → lookup id m.in_flight ≡ some t
      → m.max_retries ≤ t.attempts
      → (negative_acknowledge id now m).0 ≡ dead_letter now t (nacked id m)
  unfolding negative_acknowledge
  nack_buries id now t m e le = ground arith

  module _ (q w : String) (now : ℕ) (t : Task P) (ts : List (Task P)) (home : t.queue_name ≡ q)
      (h : q ≢ "*") (m : QueueManager P) (k : ℕ) (e : queue q m ≡ tried k t ∷ ts) where
    abbrev taken : QueueManager P
    taken = (take_first q w (tried k t ∷ ts) (ensure_queue q m)).0

    found : lookup t.task_id taken.in_flight ≡ some (start w (tried k t))
    found = lookup-insert_self t.task_id (start w (tried k t)) (ensure_queue q m).in_flight

    queue-taken : queue q taken ≡ ts
    queue-taken = ground (arith, lookup-insert q q ts (ensure_queue q m).queues, eq_iff q q)

    fail_once_lem : fail_once q w now m ≡ (negative_acknowledge t.task_id now taken).0
    unfolding fail_once nack_delivery
    fail_once_lem = rw (dequeue_named q w m h, e)

    retry_once :
        suc k < m.max_retries
        → (queue q (fail_once q w now m) ≡ tried (suc k) t ∷ ts)
          × ((fail_once q w now m).max_retries ≡ m.max_retries)
    unfolding ensure_queue
    retry_once lt =
        rw
          (
            fail_once_lem,
            nack_requeues t.task_id now (start w (tried k t)) taken found (omega arith),
          )
          (
            rw queue-appendleft (ground (arith, queue-taken, eq_iff t.queue_name q)),
            unfold appendleft in refl,
          )

  fail_times-suc :
      (n : ℕ) (q w : String) (now : ℕ) (m : QueueManager P)
      → fail_times (suc n) q w now m ≡ fail_once q w now (fail_times n q w now m)
  unfolding fail_times
  fail_times-suc zero q w now m = refl
  fail_times-suc (suc n) q w now m = fail_times-suc n q w now (fail_once q w now m)

  module _ (q w : String) (now : ℕ) (t : Task P) (ts : List (Task P)) (m : QueueManager P)
      (home : t.queue_name ≡ q) (h : q ≢ "*") (e : queue q m ≡ tried 0 t ∷ ts) where
    abbrev after : ℕ → QueueManager P
    after n = fail_times n q w now m

    -- Before the limit, the failed task is back at the front of its queue, with its count.
    pub fail_times-retries :
        (n : ℕ)
        → n < m.max_retries
        → (queue q (after n) ≡ tried n t ∷ ts) × ((after n).max_retries ≡ m.max_retries)
    fail_times-retries zero lt = unfold fail_times in (e, refl)
    fail_times-retries (suc n) lt =
        let (e', r) = fail_times-retries n (omega arith) in
        let (e'', r') = retry_once q w now t ts home h (after n) n e' (omega arith) in
        rw fail_times-suc (e'', r' ∙ r)
