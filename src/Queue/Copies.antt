-- ===== src/Queue/Copies.antt =====
-- Where a task is: how many places of the queue manager hold a task with a given id, and how the
-- two ways of queueing a task change that.
pub mod Conserve
pub mod Archive
use distro_sync.Prelude.{
  ℕ, ◌+◌, String, ◌≡◌, List, [], ◌∷◌, ◌++◌, arith, ◌==◌, get_or, if◌then◌else◌, eq_iff,
}
use distro_sync.Dict.{Dict, lookup, insert, held}
use distro_sync.Dict.Laws.{lookup-insert}
use distro_sync.Task.{Task}
use distro_sync.Queue.{QueueManager, ensured, ensure_queue, append, appendleft}

module _ {P : Type 0} where
  abbrev pub one : String → Task P → ℕ
  one j t = if t.task_id == j then 1 else 0

  -- the tasks of a list that have the id
  unfoldable pub occurs : String → List (Task P) → ℕ
  occurs j [] = 0
  occurs j (t ∷ ts) = one j t + occurs j ts

  unfoldable pub queued : String → Dict (List (Task P)) → ℕ
  queued j [] = 0
  queued j ((q, ts) ∷ d) = occurs j ts + queued j d

  -- the places that hold a task with the id: a queue (counted as often as it stands there), the
  -- in-flight registry, the completed archive, the dead letter queue
  unfoldable pub copies : String → QueueManager P → ℕ
  copies j m =
      queued j m.queues
      + held (lookup j m.in_flight)
      + held (lookup j m.completed)
      + held (lookup j m.dead_letter_queue.tasks)

  occurs-append :
      (j : String) (xs ys : List (Task P)) → occurs j (xs ++ ys) ≡ occurs j xs + occurs j ys
  unfolding occurs
  occurs-append j [] ys = omega arith
  occurs-append j (x ∷ xs) ys = omega (arith, occurs-append j xs ys)

  pub queued-insert :
      (j q : String) (ts : List (Task P)) (d : Dict (List (Task P)))
      → queued j (insert q ts d) + occurs j (get_or [] (lookup q d)) ≡ queued j d + occurs j ts
  unfolding queued insert lookup occurs
  queued-insert j q ts [] = omega arith
  queued-insert j q ts ((k, us) ∷ d) = ground (arith, queued-insert j q ts d)

  queued-ensured : (j q : String) (d : Dict (List (Task P))) → queued j (ensured q d) ≡ queued j d
  unfolding ensured occurs
  queued-ensured j q d = ground (arith, queued-insert j q [] d)

  pub lookup-ensured :
      (j q : String) (d : Dict (List (Task P)))
      → get_or [] (lookup j (ensured q d)) ≡ get_or [] (lookup j d)
  unfolding ensured
  lookup-ensured j q d = ground (arith, lookup-insert j q [] d, eq_iff q j)

  pub copies-ensure_queue :
      (j q : String) (m : QueueManager P) → copies j (ensure_queue q m) ≡ copies j m
  unfolding ensure_queue copies
  copies-ensure_queue j q m = ground (arith, queued-ensured j q m.queues)

  pub queued-ensure_queue :
      (j q : String) (m : QueueManager P) → queued j (ensure_queue q m).queues ≡ queued j m.queues
  unfolding ensure_queue
  queued-ensure_queue j q m = queued-ensured j q m.queues

  pub queued-append :
      (j : String) (t : Task P) (m : QueueManager P)
      → queued j (append t m).queues ≡ queued j m.queues + one j t
  unfolding append occurs
  queued-append j t m =
      let d = ensured t.queue_name m.queues in
      let ts = get_or [] (lookup t.queue_name d) in
      omega (
        arith,
        queued-insert j t.queue_name (ts ++ t ∷ []) d,
        occurs-append j ts (t ∷ []),
        queued-ensured j t.queue_name m.queues,
      )

  pub queued-appendleft :
      (j : String) (t : Task P) (m : QueueManager P)
      → queued j (appendleft t m).queues ≡ queued j m.queues + one j t
  unfolding appendleft occurs
  queued-appendleft j t m =
      let d = ensured t.queue_name m.queues in
      omega (
        arith,
        queued-insert j t.queue_name (t ∷ get_or [] (lookup t.queue_name d)) d,
        queued-ensured j t.queue_name m.queues,
      )

  -- Queueing a task adds one copy of its id and none of another.
  pub copies-append :
      (j : String) (t : Task P) (m : QueueManager P) → copies j (append t m) ≡ copies j m + one j t
  unfolding append copies
  copies-append j t m = omega (arith, queued-append j t m)

  pub copies-appendleft :
      (j : String) (t : Task P) (m : QueueManager P)
      → copies j (appendleft t m) ≡ copies j m + one j t
  unfolding appendleft copies
  copies-appendleft j t m = omega (arith, queued-appendleft j t m)
