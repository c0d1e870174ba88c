-- ===== src/Queue/Copies/Archive.antt =====
-- What is in the completed archive stays there, whatever method of `QueueManager` is called.
use distro_sync.Prelude.{
  ℕ, ◌+◌, ◌≤◌, String, ◌≡◌, true, Option, none, some, List, [], ◌∷◌, arith, ◌==◌, Option-cases,
  Bool-cases, inl, inr, eq_refl,
}
use distro_sync.Dict.{lookup, held}
use distro_sync.Dict.Laws.{lookup-insert}
use distro_sync.Task.{Task}
use distro_sync.Queue
use distro_sync.Queue.{
  QueueManager, Delivery, append, appendleft, ensure_queue, enqueue, popleft, pop_target,
  take_first, queue, first_nonempty, dequeue, finish, acknowledge, negative_acknowledge, requeue,
  requeue_by_id, retry,
}
use distro_sync.Queue.Copies.{copies, queued}

module _ {P : Type 0} where
  abbrev pub archived : String → QueueManager P → ℕ
  archived j m = held (lookup j m.completed)

  -- the places from which a task can be delivered, now or after a replay
  abbrev pub live : String → QueueManager P → ℕ
  live j m =
      queued j m.queues + held (lookup j m.in_flight) + held (lookup j m.dead_letter_queue.tasks)

  pub copies-live : (j : String) (m : QueueManager P) → copies j m ≡ live j m + archived j m
  unfolding copies
  copies-live j m = omega arith

  -- One method never takes an id out of the archive.
  abbrev pub Archives : QueueManager P → QueueManager P → Type 0
  Archives m m' = (j : String) → archived j m ≤ archived j m'

  pub enqueue-Archives :
      (q : String) (p : P) (id : String) (now : ℕ) (m : QueueManager P)
      → Archives m (enqueue q p id now m).0
  unfolding enqueue append ensure_queue
  enqueue-Archives q p id now m j = omega arith

  take_first-Archives :
      (q w : String) (ts : List (Task P)) (m : QueueManager P) → Archives m (take_first q w ts m).0
  take_first-Archives q w [] m j = omega arith
  take_first-Archives q w (t ∷ ts) m j = omega arith

  pop_target-Archives :
      (o : Option String) (w : String) (m : QueueManager P) → Archives m (pop_target o w m).0
  unfolding popleft
  pop_target-Archives none w m j = omega arith
  pop_target-Archives (some q) w m j = elim (Bool-cases (q == "")) [
    | inl e ↦ rw e (omega arith)
    | inr e ↦ rw e (take_first-Archives q w (queue q m) m j)
  ]

  pub dequeue-Archives : (q w : String) (m : QueueManager P) → Archives m (dequeue q w m).0
  unfolding dequeue popleft ensure_queue
  dequeue-Archives q w m j = elim (Bool-cases (q == "*")) [
    | inl e ↦ rw e (pop_target-Archives (first_nonempty m.queues) w m j)
    | inr e ↦ rw e (take_first-Archives q w (queue q (ensure_queue q m)) (ensure_queue q m) j)
  ]

  module _ (id : String) (m : QueueManager P) where
    pub acknowledge-Archives : Archives m (acknowledge id m).0
    unfolding acknowledge
    acknowledge-Archives j = elim (Option-cases (lookup id m.in_flight)) [
      | inl e ↦ rw (acknowledge, e) (omega arith)
      | inr (t, e) ↦ rw (acknowledge, e) (ground (arith, lookup-insert j id (finish t) m.completed))
    ]

    -- and an acknowledgement that is accepted puts the id there
    pub acknowledge-archived : (acknowledge id m).1 ≡ true → archived id (acknowledge id m).0 ≡ 1
    unfolding acknowledge
    acknowledge-archived = elim (Option-cases (lookup id m.in_flight)) [
      | inl e ↦ rw (acknowledge, e) (λ f. absurd (ground (arith, f)))
      | inr (t, e) ↦
          rw (acknowledge, e)
            (λ f. ground (arith, lookup-insert id id (finish t) m.completed, eq_refl id))
    ]

    pub negative_acknowledge-Archives : (now : ℕ) → Archives m (negative_acknowledge id now m).0
    unfolding negative_acknowledge appendleft ensure_queue
    negative_acknowledge-Archives now j = ground arith

    pub requeue_by_id-Archives : Archives m (requeue_by_id id m).0
    unfolding requeue_by_id appendleft ensure_queue
    requeue_by_id-Archives j = ground arith

    pub retry-Archives : Archives m (retry id m).0
    unfolding retry requeue append ensure_queue
    retry-Archives j = ground arith

  -- a task that is delivered is in flight
  take_first-live :
      (q w : String) (ts : List (Task P)) (m : QueueManager P) (d : Delivery P)
      → (take_first q w ts m).1 ≡ some d
      → 1 ≤ live d.task_id (take_first q w ts m).0
  take_first-live q w [] m d e = absurd (ground (arith, e))
  take_first-live q w (t ∷ ts) m d e =
      ground (
        arith,
        e,
        lookup-insert d.task_id t.task_id (Queue.start w t) m.in_flight,
        eq_refl t.task_id,
      )

  pop_target-live :
      (o : Option String) (w : String) (m : QueueManager P) (d : Delivery P)
      → (pop_target o w m).1 ≡ some d
      → 1 ≤ live d.task_id (pop_target o w m).0
  unfolding popleft
  pop_target-live none w m d = λ e. absurd (ground (arith, e))
  pop_target-live (some q) w m d = elim (Bool-cases (q == "")) [
    | inl e ↦ rw e (λ f. absurd (ground (arith, f)))
    | inr e ↦ rw e (take_first-live q w (queue q m) m d)
  ]

  pub dequeue-live :
      (q w : String) (m : QueueManager P) (d : Delivery P)
      → (dequeue q w m).1 ≡ some d
      → 1 ≤ live d.task_id (dequeue q w m).0
  unfolding dequeue popleft ensure_queue
  dequeue-live q w m d = elim (Bool-cases (q == "*")) [
    | inl e ↦ rw e (pop_target-live (first_nonempty m.queues) w m d)
    | inr e ↦ rw e (take_first-live q w (queue q (ensure_queue q m)) (ensure_queue q m) d)
  ]
