-- ===== src/Queue/Counters/Accounts/Run.antt =====
-- The same of the other methods, and of any sequence of calls.
use distro_sync.Prelude.{
  ℕ, String, ◌≡◌, some, List, All, [], ◌∷◌, arith, leb, Option-cases, Bool-cases, inl, inr,
}
use distro_sync.Dict.{lookup, held}
use distro_sync.Dict.Laws.{insert-IsDict, erase-IsDict}
use distro_sync.Task.{Status, Task, new_task}
use distro_sync.DeadLetter
use distro_sync.Queue
use distro_sync.Queue.{
  QueueManager, append, appendleft, finish, release, recovered, restart, take_dead, requeue, nacked,
  dead_letter, taken_out,
}
use distro_sync.Queue.Copies.{copies}
use distro_sync.Queue.Copies.Conserve.{IsConsistent}
use distro_sync.Queue.Run.{Op, apply, run, IsNew, apply-copies, apply-IsConsistent}
use distro_sync.Queue.Counters.{waiting-append, waiting-appendleft, length-insert, length-erase}
use distro_sync.Queue.Counters.Accounts.{IsAccounted, appended, dequeued}

module _ {P : Type 0} (id : String) (t : Task P) (m : QueueManager P) (c : IsConsistent m)
    (a : IsAccounted m) where
  -- the task is in flight
  module _ (e : lookup id m.in_flight ≡ some t) where
    acknowledges : IsAccounted (Queue.acknowledged id t m)
    unfolding copies
    acknowledges =
        let new : held (lookup id m.completed) ≡ 0 = ground (arith, e, c.once id) in
        let less = length-erase id m.in_flight a.in_flight_keys in
        let more = length-insert id (finish t) m.completed in
        record {
          tasks = ground (arith, e, new, less, more, a.tasks);
          acked = omega (arith, new, more, a.acked);
          dead = a.dead;
          running = ground (arith, e, less, a.running);
          in_flight_keys = erase-IsDict id m.in_flight a.in_flight_keys;
          dead_keys = a.dead_keys;
        }

    buries : (now : ℕ) → IsAccounted (dead_letter now t (nacked id m))
    unfolding copies DeadLetter.add
    buries now =
        let key = c.in_flight_keyed.at_key id t e in
        let u = DeadLetter.bury now (record t { status = Status.dead_lettered }) in
        let new : held (lookup t.task_id m.dead_letter_queue.tasks) ≡ 0 =
          ground (arith, key, e, c.once id) in
        let less = length-erase id m.in_flight a.in_flight_keys in
        let more = length-insert t.task_id u m.dead_letter_queue.tasks in
        record {
          tasks = ground (arith, e, new, less, more, a.tasks);
          acked = a.acked;
          dead = omega (arith, new, more, a.dead);
          running = ground (arith, e, less, a.running);
          in_flight_keys = erase-IsDict id m.in_flight a.in_flight_keys;
          dead_keys = insert-IsDict t.task_id u m.dead_letter_queue.tasks a.dead_keys;
        }

    rejects : IsAccounted (appendleft (release t) (nacked id m))
    unfolding appendleft
    rejects =
        let less = length-erase id m.in_flight a.in_flight_keys in
        record {
          tasks = ground (arith, e, less, a.tasks, waiting-appendleft (release t) (nacked id m));
          acked = a.acked;
          dead = a.dead;
          running = ground (arith, e, less, a.running);
          in_flight_keys = erase-IsDict id m.in_flight a.in_flight_keys;
          dead_keys = a.dead_keys;
        }

    gives_back : IsAccounted (appendleft (release t) (taken_out id m))
    unfolding appendleft
    gives_back =
        let less = length-erase id m.in_flight a.in_flight_keys in
        record {
          tasks = ground (arith, e, less, a.tasks, waiting-appendleft (release t) (taken_out id m));
          acked = a.acked;
          dead = a.dead;
          running = ground (arith, e, less, a.running);
          in_flight_keys = erase-IsDict id m.in_flight a.in_flight_keys;
          dead_keys = a.dead_keys;
        }

  retries :
      lookup id m.dead_letter_queue.tasks ≡ some t
      → IsAccounted (append (restart t) (take_dead id m))
  unfolding append
  retries e =
      let less = length-erase id m.dead_letter_queue.tasks a.dead_keys in
      record {
        tasks = ground (arith, e, less, a.tasks, waiting-append (restart t) (take_dead id m));
        acked = a.acked;
        dead = ground (arith, e, less, a.dead);
        running = a.running;
        in_flight_keys = a.in_flight_keys;
        dead_keys = erase-IsDict id m.dead_letter_queue.tasks a.dead_keys;
      }

module _ {P : Type 0} (id : String) (m : QueueManager P) (c : IsConsistent m)
    (a : IsAccounted m) where
  acknowledge-IsAccounted : IsAccounted (Queue.acknowledge id m).0
  unfolding Queue.acknowledge
  acknowledge-IsAccounted = elim (Option-cases (lookup id m.in_flight)) [
    | inl e ↦ rw (Queue.acknowledge, e) a
    | inr (t, e) ↦ rw (Queue.acknowledge, e) (acknowledges id t m c a e)
  ]

  negative_acknowledge-IsAccounted : (now : ℕ) → IsAccounted (Queue.negative_acknowledge id now m).0
  unfolding Queue.negative_acknowledge
  negative_acknowledge-IsAccounted now = elim (Option-cases (lookup id m.in_flight)) [
    | inl e ↦ rw (Queue.negative_acknowledge, e) a
    | inr (t, e) ↦ elim (Bool-cases (leb m.max_retries t.attempts)) [
      | inl spent ↦ rw (Queue.negative_acknowledge, e, spent) (buries id t m c a e now)
      | inr more ↦ rw (Queue.negative_acknowledge, e, more) (rejects id t m c a e)
    ]
  ]

  requeue_by_id-IsAccounted : IsAccounted (Queue.requeue_by_id id m).0
  unfolding Queue.requeue_by_id
  requeue_by_id-IsAccounted = elim (Option-cases (lookup id m.in_flight)) [
    | inl e ↦ rw (Queue.requeue_by_id, e) a
    | inr (t, e) ↦ rw (Queue.requeue_by_id, e) (gives_back id t m c a e)
  ]

  retry-IsAccounted : IsAccounted (Queue.retry id m).0
  unfolding Queue.retry requeue
  retry-IsAccounted = elim (Option-cases (lookup id m.dead_letter_queue.tasks)) [
    | inl e ↦ rw (Queue.retry, e) a
    | inr (t, e) ↦ rw (Queue.retry, e) (retries id t m c a e)
  ]

module _ {P : Type 0} where
  -- `reset` clears the dead letters and not their counters, and `requeue` takes any task in.
  abbrev pub IsCounted : Op P → Type 0
  IsCounted Op.reset = ⊥
  IsCounted (Op.requeue t front) = ⊥
  IsCounted other = Unit

  apply-IsAccounted :
      (op : Op P) (m : QueueManager P)
      → IsConsistent m
      → IsCounted op
      → IsAccounted m
      → IsAccounted (apply op m)
  unfolding apply Queue.enqueue Queue.enqueue_recovered
  apply-IsAccounted (Op.enqueue q p id now) m c k a = appended (new_task id q p now) m a
  apply-IsAccounted (Op.enqueue_recovered q id p n now) m c k a =
      appended (recovered q id p n now) m a
  apply-IsAccounted (Op.dequeue q w) m c k a = dequeued q w m c a
  apply-IsAccounted (Op.acknowledge id) m c k a = acknowledge-IsAccounted id m c a
  apply-IsAccounted (Op.negative_acknowledge id now) m c k a =
      negative_acknowledge-IsAccounted id m c a now
  apply-IsAccounted (Op.requeue_by_id id) m c k a = requeue_by_id-IsAccounted id m c a
  apply-IsAccounted (Op.retry id) m c k a = retry-IsAccounted id m c a
  apply-IsAccounted (Op.requeue t front) m c k a = absurd k
  apply-IsAccounted Op.reset m c k a = absurd k

  -- Any sequence of calls of `enqueue`, `enqueue_recovered`, `dequeue`, `acknowledge`,
  -- `negative_acknowledge`, `requeue_by_id` and the dead letter queue's `retry` keeps the counters
  -- of the queue manager true to its contents: the tasks that wait, are in flight, are archived or
  -- are dead are as many as were enqueued, those archived as were acknowledged, those dead as were
  -- dead-lettered and not retried, and those in flight, acknowledged and rejected together at most
  -- as many as were dequeued. All this held before, with no id in two places, no id arrives while
  -- some place holds it, and no call is a `reset`, a `requeue` of a given task, or a `remove` or
  -- `purge` of the dead letter queue.
  pub run-IsAccounted :
      (ops : List (Op P)) (m : QueueManager P)
      → IsConsistent m
      → ((j : String) → IsNew j ops (copies j m))
      → All IsCounted ops
      → IsAccounted m
      → IsAccounted (run ops m)
  unfolding run
  run-IsAccounted [] m c new k a = a
  run-IsAccounted (op ∷ ops) m c new k a =
      run-IsAccounted ops (apply op m) (apply-IsConsistent op m c (λ j. (new j).0))
        (λ j. rw (apply-copies op m c j) (new j).1) k.1 (apply-IsAccounted op m c k.0 a)
