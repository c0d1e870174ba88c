-- ===== src/Queue/Counters/Accounts.antt =====
-- The counters of `QueueManager.get_stats` account for what is in its queues and registries.
pub mod Run
use distro_sync.Prelude.{
  ℕ, ◌+◌, ◌≤◌, String, ◌≡◌, refl, Option, none, some, List, [], ◌∷◌, arith, ◌==◌, length, leb,
  if◌then◌else◌, Option-cases, Bool-cases, inl, inr, eq_iff, eq_refl,
}
use distro_sync.Dict.{Dict, IsDict, lookup, insert, erase, held}
use distro_sync.Dict.Laws.{insert-IsDict, erase-IsDict}
use distro_sync.Task.{Task, new_task}
use distro_sync.DeadLetter
use distro_sync.Queue
use distro_sync.Queue.{
  QueueManager, queue, take_first, popleft, pop_target, first_nonempty, ensure_queue, append,
  appendleft, start, finish, release, recovered, restart, take_dead, requeue, nacked, dead_letter,
  taken_out,
}
use distro_sync.Queue.Copies.{copies, occurs, queued, queued-insert}
use distro_sync.Queue.Copies.Conserve.{IsConsistent, ensure_queue-IsConsistent}
use distro_sync.Queue.Counters.{
  tasks_in, waiting, waiting-insert, waiting-append, waiting-appendleft, waiting-ensure_queue,
  length-insert, length-erase,
}

-- Each task that was enqueued is in one place; the archive has what was acknowledged, and the dead
-- letter queue what was dead-lettered and not retried; what is in flight, was acknowledged or was
-- rejected had been dequeued.
pub record IsAccounted {P : Type 0} (m : QueueManager P) : Type 0 where
  pub tasks : tasks_in m ≡ m.total_enqueued
  pub acked : length m.completed ≡ m.total_acked
  pub dead :
      length m.dead_letter_queue.tasks + m.dead_letter_queue.total_retried ≡ m.total_dead_lettered
  pub running : length m.in_flight + m.total_acked + m.total_nacked ≤ m.total_dequeued
  pub in_flight_keys : IsDict m.in_flight
  pub dead_keys : IsDict m.dead_letter_queue.tasks

pub init-IsAccounted : {P : Type 0} (n : ℕ) → IsAccounted {P = P} (Queue.init n)
unfolding waiting
init-IsAccounted n = record {
  tasks = refl;
  acked = refl;
  dead = refl;
  running = omega arith;
  in_flight_keys = tt;
  dead_keys = tt;
}

module _ {P : Type 0} where
  pub appended :
      (t : Task P) (m : QueueManager P)
      → IsAccounted m
      → IsAccounted (Queue.count_enqueued (append t m))
  unfolding append
  appended t m a = record {
    tasks = omega (arith, a.tasks, waiting-append t m);
    acked = a.acked;
    dead = a.dead;
    running = a.running;
    in_flight_keys = a.in_flight_keys;
    dead_keys = a.dead_keys;
  }

  took_first :
      (q w : String) (ts : List (Task P)) (m : QueueManager P)
      → queue q m ≡ ts
      → IsConsistent m
      → IsAccounted m
      → IsAccounted (take_first q w ts m).0
  unfolding occurs copies
  took_first q w [] m e c a = a
  took_first q w (t ∷ ts) m e c a =
      let id = t.task_id in
      let idle : held (lookup id m.in_flight) ≡ 0 =
        ground (arith, e, queued-insert id q ts m.queues, eq_refl id, c.once id) in
      record {
        tasks = ground (
          arith,
          e,
          idle,
          a.tasks,
          waiting-insert q ts m.queues,
          length-insert id (start w t) m.in_flight,
        );
        acked = a.acked;
        dead = a.dead;
        running = omega (arith, a.running, idle, length-insert id (start w t) m.in_flight);
        in_flight_keys = insert-IsDict id (start w t) m.in_flight a.in_flight_keys;
        dead_keys = a.dead_keys;
      }

  popped :
      (q w : String) (m : QueueManager P)
      → IsConsistent m
      → IsAccounted m
      → IsAccounted (popleft q w m).0
  unfolding popleft
  popped q w m c a = took_first q w (queue q m) m refl c a

  popped_target :
      (o : Option String) (w : String) (m : QueueManager P)
      → IsConsistent m
      → IsAccounted m
      → IsAccounted (pop_target o w m).0
  popped_target none w m c a = a
  popped_target (some q) w m c a = elim (Bool-cases (q == "")) [
    | inl e ↦ rw e a
    | inr e ↦ rw e (popped q w m c a)
  ]

  ensured : (q : String) (m : QueueManager P) → IsAccounted m → IsAccounted (ensure_queue q m)
  unfolding ensure_queue
  ensured q m a = record {
    tasks = omega (arith, a.tasks, waiting-ensure_queue q m);
    acked = a.acked;
    dead = a.dead;
    running = a.running;
    in_flight_keys = a.in_flight_keys;
    dead_keys = a.dead_keys;
  }

  pub dequeued :
      (q w : String) (m : QueueManager P)
      → IsConsistent m
      → IsAccounted m
      → IsAccounted (Queue.dequeue q w m).0
  unfolding Queue.dequeue
  dequeued q w m c a = elim (Bool-cases (q == "*")) [
    | inl e ↦ rw e (popped_target (first_nonempty m.queues) w m c a)
    | inr e ↦ rw e (popped q w (ensure_queue q m) (ensure_queue-IsConsistent q m c) (ensured q m a))
  ]
