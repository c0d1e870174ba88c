-- ===== src/Queue/Views/Replay.antt =====
-- The way to the dead letter queue and back.
use distro_sync.Prelude.{
  ℕ, ◌≤◌, String, ◌≡◌, refl, true, false, none, some, [], ◌∷◌, ◌++◌, ◌==◌, arith, eq_refl,
  if◌then◌else◌,
}
use distro_sync.Dict.{lookup}
use distro_sync.Dict.Laws.{lookup-erase, lookup-insert_self}
use distro_sync.Task.{Task, Status}
use distro_sync.DeadLetter
use distro_sync.Queue
use distro_sync.Queue.{
  QueueManager, queue, append, requeue, restart, take_dead, negative_acknowledge, nacked,
  dead_letter,
}
use distro_sync.Queue.Views.{queue-append}
use distro_sync.Queue.Views.Retry.{nack_buries}

module _ {P : Type 0} where
  -- a retry of a dead task
  retry_lem :
      (id : String) (t : Task P) (m : QueueManager P)
      → lookup id m.dead_letter_queue.tasks ≡ some t
      → Queue.retry id m ≡ (append (restart t) (take_dead id m), true)
  unfolding Queue.retry requeue
  retry_lem id t m e = rw (Queue.retry, e) refl

  -- a retry of no dead task
  retry_unknown :
      (id : String) (m : QueueManager P)
      → lookup id m.dead_letter_queue.tasks ≡ none
      → Queue.retry id m ≡ (m, false)
  unfolding Queue.retry
  retry_unknown id m e = rw (Queue.retry, e) refl

  -- A task in flight that has used up its attempts and is rejected is found by a retry of its id:
  -- it then waits at the end of its queue, as it was but pending, with no worker, no attempts
  -- counted and the time of its burial, every other queue is what it was, it is in flight no more
  -- and in the dead letter queue no more, and a second retry finds nothing and changes nothing.
  pub retry-negative_acknowledge :
      (q : String) (now : ℕ) (t : Task P) (m : QueueManager P)
      → lookup t.task_id m.in_flight ≡ some t
      → m.max_retries ≤ t.attempts
      → let (m', found) = Queue.retry t.task_id (negative_acknowledge t.task_id now m).0 in
        (found ≡ true)
        × (queue q m' ≡ (
            if t.queue_name == q
            then queue q m
              ++ record t {
                status = Status.pending;
                assigned_worker = none;
                attempts = 0;
                dead_lettered_at = some now;
              }
                ∷ []
            else queue q m))
        × (lookup t.task_id m'.in_flight ≡ none)
        × (lookup t.task_id m'.dead_letter_queue.tasks ≡ none)
        × (Queue.retry t.task_id m' ≡ (m', false))
  retry-negative_acknowledge q now t m e spent =
      let id = t.task_id in
      let b = DeadLetter.bury now t in
      let m' = dead_letter now t (nacked id m) in
      let m'' = append (restart b) (take_dead id m') in
      let buried : lookup id m'.dead_letter_queue.tasks ≡ some b =
        unfold DeadLetter.add in lookup-insert_self id b m.dead_letter_queue.tasks in
      let gone : lookup id m''.dead_letter_queue.tasks ≡ none =
        unfold append in
        ground (arith, lookup-erase id id m'.dead_letter_queue.tasks, eq_refl id) in
      rw (nack_buries id now t m e spent, retry_lem id b m' buried)
        (
          refl,
          queue-append q (restart b) (take_dead id m'),
          unfold append in ground (arith, lookup-erase id id m.in_flight, eq_refl id),
          gone,
          retry_unknown id m'' gone,
        )
