-- ===== src/Queue/Copies/Conserve.antt =====
-- No task is lost and none is duplicated by the methods of `QueueManager`: each keeps the number of
-- places that hold an id, for every id, and an enqueue adds the one new task.
use distro_sync.Prelude.{
  ℕ, suc, ◌+◌, ◌≤◌, String, ◌≡◌, refl, Option, none, some, List, [], ◌∷◌, arith, ◌==◌,
  if◌then◌else◌, Option-cases, inl, inr, eq_iff, eq_refl,
}
use distro_sync.Dict.{Dict, lookup, insert, erase}
use distro_sync.Dict.Laws.{lookup-insert, lookup-erase}
use distro_sync.Task.{Task, new_task}
use distro_sync.DeadLetter
use distro_sync.Queue
use distro_sync.Queue.{
  QueueManager, ensure_queue, queue, take_first, popleft, dequeue, acknowledge,
  negative_acknowledge, requeue_by_id, retry, enqueue, finish, release, restart, take_dead,
  pop_target, recovered, enqueue_recovered, start, first_nonempty,
}
use distro_sync.Queue.Copies.{
  occurs, queued, copies, queued-insert, copies-ensure_queue, copies-append, copies-appendleft,
}

-- A registry files each task under its own id.
pub record IsKeyed {P : Type 0} (d : Dict (Task P)) : Type 0 where
  pub at_key : (k : String) (t : Task P) → lookup k d ≡ some t → t.task_id ≡ k

pub record IsConsistent {P : Type 0} (m : QueueManager P) : Type 0 where
  pub once : (j : String) → copies j m ≤ 1
  pub in_flight_keyed : IsKeyed m.in_flight
  pub dead_keyed : IsKeyed m.dead_letter_queue.tasks

module _ {P : Type 0} where
  pub insert-IsKeyed : (t : Task P) (d : Dict (Task P)) → IsKeyed d → IsKeyed (insert t.task_id t d)
  insert-IsKeyed t d h = record {
    at_key =
        λ k u e. ground (arith, lookup-insert k t.task_id t d, eq_iff t.task_id k, h.at_key k u);
  }

  pub erase-IsKeyed : (id : String) (d : Dict (Task P)) → IsKeyed d → IsKeyed (erase id d)
  erase-IsKeyed id d h = record {
    at_key = λ k u e. ground (arith, lookup-erase k id d, eq_iff id k, h.at_key k u);
  }

  -- A new queue manager is empty.
  pub init-IsConsistent : (n : ℕ) → IsConsistent {P = P} (Queue.init n)
  unfolding copies queued lookup
  init-IsConsistent n = record {
    once = λ j. omega arith;
    in_flight_keyed = record { at_key = λ k t e. absurd (ground (arith, e)) };
    dead_keyed = record { at_key = λ k t e. absurd (ground (arith, e)) };
  }

  module _ (m : QueueManager P) (c : IsConsistent m) where
    -- ACK moves a task from the in-flight registry to the archive.
    pub copies-acknowledge : (j id : String) → copies j (acknowledge id m).0 ≡ copies j m
    unfolding acknowledge copies
    copies-acknowledge j id = elim (Option-cases (lookup id m.in_flight)) [
      | inl unknown ↦ ground arith
      | inr (t, e) ↦ ground (
        arith,
        lookup-erase j id m.in_flight,
        lookup-insert j id (finish t) m.completed,
        eq_iff id j,
        c.once id,
      )
    ]

    -- NACK moves it to the front of its queue or to the dead letter queue.
    pub copies-negative_acknowledge :
        (j id : String) (now : ℕ) → copies j (negative_acknowledge id now m).0 ≡ copies j m
    unfolding negative_acknowledge copies DeadLetter.add
    copies-negative_acknowledge j id now = elim (Option-cases (lookup id m.in_flight)) [
      | inl unknown ↦ ground arith
      | inr (t, e) ↦ ground (
        arith,
        c.in_flight_keyed.at_key id t,
        lookup-erase j id m.in_flight,
        lookup-insert j t.task_id (DeadLetter.bury now t) m.dead_letter_queue.tasks,
        eq_iff id j,
        c.once id,
        copies-appendleft j (release t)
            (record m { in_flight = erase id m.in_flight; total_nacked = m.total_nacked + 1 }),
      )
    ]

    -- An evicted worker's task goes back to the front of its queue.
    pub copies-requeue_by_id : (j id : String) → copies j (requeue_by_id id m).0 ≡ copies j m
    unfolding requeue_by_id copies
    copies-requeue_by_id j id = elim (Option-cases (lookup id m.in_flight)) [
      | inl unknown ↦ ground arith
      | inr (t, e) ↦ ground (
        arith,
        c.in_flight_keyed.at_key id t,
        eq_iff id j,
        lookup-erase j id m.in_flight,
        copies-appendleft j (release t) (record m { in_flight = erase id m.in_flight }),
      )
    ]

    -- A replay moves a task from the dead letter queue to the back of its queue.
    pub copies-retry : (j id : String) → copies j (retry id m).0 ≡ copies j m
    unfolding retry copies
    copies-retry j id = elim (Option-cases (lookup id m.dead_letter_queue.tasks)) [
      | inl unknown ↦ ground arith
      | inr (t, e) ↦ ground (
        arith,
        c.dead_keyed.at_key id t,
        eq_iff id j,
        lookup-erase j id m.dead_letter_queue.tasks,
        copies-append j (restart t) (take_dead id m),
      )
    ]

    -- CONSUME moves a task from a queue to the in-flight registry.
    copies-take_first :
        (j q w : String) (ts : List (Task P))
        → queue q m ≡ ts
        → copies j (take_first q w ts m).0 ≡ copies j m
    unfolding copies occurs
    copies-take_first j q w [] e = refl
    copies-take_first j q w (t ∷ ts) e = ground (
      arith,
      queued-insert j q ts m.queues,
      queued-insert t.task_id q ts m.queues,
      lookup-insert j t.task_id (start w t) m.in_flight,
      eq_iff t.task_id j,
      eq_refl t.task_id,
      c.once t.task_id,
    )

    copies-popleft : (j q w : String) → copies j (popleft q w m).0 ≡ copies j m
    unfolding popleft
    copies-popleft j q w = copies-take_first j q w (queue q m) refl

module _ {P : Type 0} where
  pub ensure_queue-IsConsistent :
      (q : String) (m : QueueManager P) → IsConsistent m → IsConsistent (ensure_queue q m)
  ensure_queue-IsConsistent q m c = record {
    once = λ j. rw copies-ensure_queue (c.once j);
    in_flight_keyed = unfold ensure_queue in c.in_flight_keyed;
    dead_keyed = unfold ensure_queue in c.dead_keyed;
  }

  copies-pop_target :
      (m : QueueManager P) (c : IsConsistent m) (j w : String) (o : Option String)
      → copies j (pop_target o w m).0 ≡ copies j m
  copies-pop_target m c j w none = refl
  copies-pop_target m c j w (some target) = ground (arith, copies-popleft m c j target w)

  -- CONSUME, of a named queue or of any: the number of copies of every id is kept.
  pub copies-dequeue :
      (m : QueueManager P) (c : IsConsistent m) (j q w : String)
      → copies j (dequeue q w m).0 ≡ copies j m
  unfolding dequeue
  copies-dequeue m c j q w = ground (
    arith,
    copies-ensure_queue j q m,
    copies-popleft (ensure_queue q m) (ensure_queue-IsConsistent q m c) j q w,
    copies-pop_target m c j w (first_nonempty m.queues),
  )

  -- PRODUCE adds one copy of the new id.
  pub copies-enqueue :
      (j q : String) (p : P) (id : String) (now : ℕ) (m : QueueManager P)
      → copies j (enqueue q p id now m).0 ≡ copies j m + (if id == j then 1 else 0)
  copies-enqueue j q p id now m = unfold enqueue copies in copies-append j (new_task id q p now) m

  pub copies-enqueue_recovered :
      (j q id : String) (p : P) (attempts now : ℕ) (m : QueueManager P)
      → copies j (enqueue_recovered q id p attempts now m).0
        ≡ copies j m + (if id == j then 1 else 0)
  copies-enqueue_recovered j q id p attempts now m =
      unfold enqueue_recovered copies in copies-append j (recovered q id p attempts now) m

  -- An id that is nowhere is neither waiting nor in flight.
  pub nowhere :
      (id : String) (m : QueueManager P)
      → copies id m ≡ 0
      → (queued id m.queues ≡ 0) × (lookup id m.in_flight ≡ none)
  unfolding copies
  nowhere id m e = elim (Option-cases (lookup id m.in_flight)) [
    | inl missing ↦ (omega arith, missing)
    | inr (t, p) ↦ absurd (ground arith)
  ]

  -- A task that is in flight does not wait.
  pub running-not-queued :
      (id : String) (t : Task P) (m : QueueManager P)
      → IsConsistent m
      → lookup id m.in_flight ≡ some t
      → queued id m.queues ≡ 0
  unfolding copies
  running-not-queued id t m c e = ground (arith, c.once id)

  -- A task that waits is not in flight, and waits once.
  pub queued-not-running :
      (id : String) (n : ℕ) (m : QueueManager P)
      → IsConsistent m
      → queued id m.queues ≡ suc n
      → (n ≡ 0) × (lookup id m.in_flight ≡ none)
  unfolding copies
  queued-not-running id n m c e = elim (Option-cases (lookup id m.in_flight)) [
    | inl missing ↦ (omega (arith, c.once id), missing)
    | inr (t, p) ↦ absurd (ground (arith, c.once id))
  ]
