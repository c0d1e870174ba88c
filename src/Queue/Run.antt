-- ===== src/Queue/Run.antt =====
-- Sequences of calls of the queue manager, and what every such sequence keeps.
use distro_sync.Prelude.{
  ℕ, ◌+◌, ◌≤◌, Bool, true, false, refl, ap, ◌∙◌, String, ◌≡◌, Option, none, some, List, [], ◌∷◌,
  arith, ◌==◌, if◌then◌else◌, Option-cases, inl, inr, eq_iff,
}
use distro_sync.Dict.{lookup}
use distro_sync.Task.{Task}
use distro_sync.DeadLetter
use distro_sync.Queue.{
  QueueManager, queue, take_first, popleft, pop_target, first_nonempty, ensure_queue, append,
  appendleft, start, release,
}
use distro_sync.Queue
use distro_sync.Queue.Copies.{copies, copies-append, copies-appendleft, queued}
use distro_sync.Queue.Copies.Conserve.{
  IsKeyed, IsConsistent, insert-IsKeyed, erase-IsKeyed, copies-enqueue, copies-enqueue_recovered,
  copies-dequeue, copies-acknowledge, copies-negative_acknowledge, copies-requeue_by_id,
  copies-retry, init-IsConsistent,
}

-- The calls of the queue manager that move tasks, and the `retry` of its dead letter queue. An id
-- is what `uuid4` returned, a number is the clock.
pub data Op (P : Type 0) : Type 0 where
  enqueue : String → P → String → ℕ → Op P
  enqueue_recovered : String → String → P → ℕ → ℕ → Op P
  dequeue : String → String → Op P
  acknowledge : String → Op P
  negative_acknowledge : String → ℕ → Op P
  requeue_by_id : String → Op P
  retry : String → Op P
  requeue : Task P → Bool → Op P
  reset : Op P

module _ {P : Type 0} where
  unfoldable pub apply : Op P → QueueManager P → QueueManager P
  apply (Op.enqueue q p id now) m = (Queue.enqueue q p id now m).0
  apply (Op.enqueue_recovered q id p n now) m = (Queue.enqueue_recovered q id p n now m).0
  apply (Op.dequeue q w) m = (Queue.dequeue q w m).0
  apply (Op.acknowledge id) m = (Queue.acknowledge id m).0
  apply (Op.negative_acknowledge id now) m = (Queue.negative_acknowledge id now m).0
  apply (Op.requeue_by_id id) m = (Queue.requeue_by_id id m).0
  apply (Op.retry id) m = (Queue.retry id m).0
  apply (Op.requeue t front) m = Queue.requeue t front m
  apply Op.reset m = Queue.reset m

  unfoldable pub run : List (Op P) → QueueManager P → QueueManager P
  run [] m = m
  run (op ∷ ops) m = run ops (apply op m)

  -- how many tasks with the id a call brings
  unfoldable pub arrivals : String → Op P → ℕ
  arrivals j (Op.enqueue q p id now) = if id == j then 1 else 0
  arrivals j (Op.enqueue_recovered q id p n now) = if id == j then 1 else 0
  arrivals j (Op.requeue t front) = if t.task_id == j then 1 else 0
  arrivals j _ = 0

  -- the places that hold an id after a call, if so many did before
  unfoldable pub tally : String → Op P → ℕ → ℕ
  tally j Op.reset n = 0
  tally j op n = n + arrivals j op

  unfoldable pub total : String → List (Op P) → ℕ → ℕ
  total j [] n = n
  total j (op ∷ ops) n = total j ops (tally j op n)

  -- the id is never brought while some place holds it
  abbrev pub IsNew : String → List (Op P) → ℕ → Type 0
  IsNew j [] n = Unit
  IsNew j (op ∷ ops) n = (tally j op n ≤ 1) × IsNew j ops (tally j op n)

  -- the two registries whose keys matter
  abbrev Keyed : QueueManager P → Type 0
  Keyed m = IsKeyed m.in_flight × IsKeyed m.dead_letter_queue.tasks

  take_first-Keyed :
      (q w : String) (ts : List (Task P)) (m : QueueManager P)
      → Keyed m
      → Keyed (take_first q w ts m).0
  take_first-Keyed q w [] m h = h
  take_first-Keyed q w (t ∷ ts) m h = (insert-IsKeyed (start w t) m.in_flight h.0, h.1)

  popleft-Keyed : (q w : String) (m : QueueManager P) → Keyed m → Keyed (popleft q w m).0
  unfolding popleft
  popleft-Keyed q w m h = take_first-Keyed q w (queue q m) m h

  pop_target-Keyed :
      (o : Option String) (w : String) (m : QueueManager P) → Keyed m → Keyed (pop_target o w m).0
  pop_target-Keyed none w m h = h
  pop_target-Keyed (some t) w m h = ground (arith, popleft-Keyed t w m h)

  apply-Keyed : (op : Op P) (m : QueueManager P) → Keyed m → Keyed (apply op m)
  unfolding apply
  apply-Keyed (Op.enqueue q p id now) m h = unfold Queue.enqueue append in h
  apply-Keyed (Op.enqueue_recovered q id p n now) m h = unfold Queue.enqueue_recovered append in h
  apply-Keyed (Op.dequeue q w) m h =
      unfold Queue.dequeue ensure_queue in
      ground (
        arith,
        popleft-Keyed q w (ensure_queue q m) h,
        pop_target-Keyed (first_nonempty m.queues) w m h,
      )
  apply-Keyed (Op.acknowledge id) m h =
      unfold Queue.acknowledge in ground (arith, erase-IsKeyed id m.in_flight h.0)
  apply-Keyed (Op.negative_acknowledge id now) m h = elim (Option-cases (lookup id m.in_flight)) [
    | inl unknown ↦ unfold Queue.negative_acknowledge in ground arith
    | inr (t, e) ↦
        unfold Queue.negative_acknowledge appendleft DeadLetter.add in
        ground (
          arith,
          erase-IsKeyed id m.in_flight h.0,
          insert-IsKeyed (DeadLetter.bury now t) m.dead_letter_queue.tasks h.1,
        )
  ]
  apply-Keyed (Op.requeue_by_id id) m h =
      unfold Queue.requeue_by_id appendleft in ground (arith, erase-IsKeyed id m.in_flight h.0)
  apply-Keyed (Op.retry id) m h =
      unfold Queue.retry append in ground (arith, erase-IsKeyed id m.dead_letter_queue.tasks h.1)
  apply-Keyed (Op.requeue t true) m h = unfold Queue.requeue appendleft in h
  apply-Keyed (Op.requeue t false) m h = unfold Queue.requeue append in h
  apply-Keyed Op.reset m h =
      let empty = init-IsConsistent {P = P} 0 in
      unfold Queue.reset in (empty.in_flight_keyed, empty.dead_keyed)

  pub apply-copies :
      (op : Op P) (m : QueueManager P)
      → IsConsistent m
      → (j : String) → copies j (apply op m) ≡ tally j op (copies j m)
  unfolding apply arrivals tally
  apply-copies (Op.enqueue q p id now) m c j = copies-enqueue j q p id now m
  apply-copies (Op.enqueue_recovered q id p n now) m c j = copies-enqueue_recovered j q id p n now m
  apply-copies (Op.dequeue q w) m c j = omega (arith, copies-dequeue m c j q w)
  apply-copies (Op.acknowledge id) m c j = omega (arith, copies-acknowledge m c j id)
  apply-copies (Op.negative_acknowledge id now) m c j =
      omega (arith, copies-negative_acknowledge m c j id now)
  apply-copies (Op.requeue_by_id id) m c j = omega (arith, copies-requeue_by_id m c j id)
  apply-copies (Op.retry id) m c j = omega (arith, copies-retry m c j id)
  apply-copies (Op.requeue t true) m c j = unfold Queue.requeue in copies-appendleft j (release t) m
  apply-copies (Op.requeue t false) m c j = unfold Queue.requeue in copies-append j (release t) m
  apply-copies Op.reset m c j = unfold Queue.reset copies queued lookup in refl

  -- One call keeps the queue manager consistent, if an id that it brings is a new one.
  pub apply-IsConsistent :
      (op : Op P) (m : QueueManager P)
      → IsConsistent m
      → ((j : String) → tally j op (copies j m) ≤ 1)
      → IsConsistent (apply op m)
  apply-IsConsistent op m c new =
      let k = apply-Keyed op m (c.in_flight_keyed, c.dead_keyed) in
      record {
        once = λ j. rw (apply-copies op m c j) (new j);
        in_flight_keyed = k.0;
        dead_keyed = k.1;
      }

  pub enqueue-IsConsistent :
      (q : String) (p : P) (id : String) (now : ℕ) (m : QueueManager P)
      → IsConsistent m
      → copies id m ≡ 0
      → IsConsistent (Queue.enqueue q p id now m).0
  unfolding apply arrivals tally
  enqueue-IsConsistent q p id now m c fresh =
      apply-IsConsistent (Op.enqueue q p id now) m c (λ j. ground (arith, c.once j, eq_iff id j))

  pub retry-IsConsistent :
      (id : String) (m : QueueManager P) → IsConsistent m → IsConsistent (Queue.retry id m).0
  unfolding apply arrivals tally
  retry-IsConsistent id m c = apply-IsConsistent (Op.retry id) m c (λ j. omega (arith, c.once j))

  -- After any sequence of calls of `enqueue`, `enqueue_recovered`, `dequeue`, `acknowledge`,
  -- `negative_acknowledge`, `requeue_by_id`, `requeue`, `reset` and the dead letter queue's
  -- `retry`, from a consistent state, each id is in exactly as many places as before and as tasks
  -- were brought in with it, by an enqueue or a `requeue`, where a `reset` starts the count at
  -- none again; no id is brought in while some place holds it. The dead letter queue's `remove`
  -- and `purge`, which drop tasks, are not among the calls.
  pub run-copies :
      (ops : List (Op P)) (m : QueueManager P)
      → IsConsistent m
      → ((j : String) → IsNew j ops (copies j m))
      → (j : String) → copies j (run ops m) ≡ total j ops (copies j m)
  unfolding run total
  run-copies [] m c new j = refl
  run-copies (op ∷ ops) m c new j =
      let c' = apply-IsConsistent op m c (λ k. (new k).0) in
      run-copies ops (apply op m) c' (λ k. rw (apply-copies op m c k) (new k).1) j
      ∙ ap (total j ops) (apply-copies op m c j)
