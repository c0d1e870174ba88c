-- ===== src/Broker/Durable/Consume.antt =====
-- A task that is handed to a worker stays in the store, with its new count of attempts.
use distro_sync.Prelude.{
  ℕ, ◌+◌, String, ◌≡◌, refl, Option, none, some, List, [], ◌∷◌, All, arith, ◌==◌, eq_refl, eq-sym,
  Bool-cases, inl, inr,
}
use distro_sync.Dict.{insert}
use distro_sync.Dict.Laws.{lookup-insert, lookup-insert_self}
use distro_sync.Task.{Status, Task}
use distro_sync.Queue.{
  QueueManager, Delivery, queue, take_first, popleft, pop_target, dequeue, ensure_queue,
  first_nonempty, start, deliver,
}
use distro_sync.Queue.Copies.{queued, occurs, copies, queued-insert}
use distro_sync.Queue.Copies.Conserve.{IsConsistent, ensure_queue-IsConsistent}
use distro_sync.Queue.Everywhere.{Everywhere-insert, Everywhere-change, All-lookup}
use distro_sync.Wal.{WalStore, Codec}
use distro_sync.Wal.Rows.{entry, saved-update}
use distro_sync.Broker.{on_store}
use distro_sync.Broker.Commands.{mark_in_flight}
use distro_sync.Broker.Durable.{
  IsSaved, IsDurable, IsDurable-change, Agrees, ensure_queue-IsDurable,
}

module _ {P : Type 0} (c : Codec P) (w : String) (now : ℕ) where
  -- the store after a dequeue
  abbrev pub marked : Option (Delivery P) → Option WalStore → Option WalStore
  marked none store = store
  marked (some d) store = on_store (mark_in_flight d w now) store

  -- where a task waited: once, and not in flight
  waited :
      (q : String) (t : Task P) (ts : List (Task P)) (m : QueueManager P)
      → IsConsistent m
      → queue q m ≡ t ∷ ts
      → queued t.task_id (insert q ts m.queues) ≡ 0
  unfolding occurs copies
  waited q t ts m k e =
      ground (arith, k.once t.task_id, queued-insert t.task_id q ts m.queues, eq_refl t.task_id)

  take_first-IsDurable :
      (q : String) (t : Task P) (ts : List (Task P)) (m : QueueManager P) (s : WalStore)
      → IsConsistent m
      → queue q m ≡ t ∷ ts
      → IsDurable c m s
      → IsDurable c (take_first q w (t ∷ ts) m).0 (mark_in_flight (deliver (start w t)) w now s)
  unfolding occurs
  take_first-IsDurable q t ts m s k e d =
      let here : All (IsSaved c s) (t ∷ ts) =
        rw e at (All-lookup (IsSaved c s) q m.queues d.waiting) in
      let s' = mark_in_flight (deliver (start w t)) w now s in
      let saves = λ (j : String).
        saved-update j t.task_id now s Status.in_flight (t.attempts + 1) (some w) (entry c t) refl
          here.0 in
      IsDurable-change c t.task_id m (take_first q w (t ∷ ts) m).0 s s' d
        (Everywhere-change (IsSaved c s) (IsSaved c s') t.task_id
          (λ u ne h. rw (saves u.task_id) (rw (eq-sym u.task_id t.task_id ne) h))
          (insert q ts m.queues) (waited q t ts m k e)
          (Everywhere-insert (IsSaved c s) q ts m.queues d.waiting here.1))
        (λ j ne. (
          rw lookup-insert (rw ne),
          rw (saves j) (rw ne),
          ground (arith, queued-insert j q ts m.queues),
        ))
        (λ u p.
          rw (saves t.task_id)
            (rw eq_refl (ground (arith, lookup-insert_self t.task_id (start w t) m.in_flight))))
        (λ n. absurd (ground (arith, lookup-insert_self t.task_id (start w t) m.in_flight)))

  abbrev Keeps : QueueManager P × Option (Delivery P) → Option WalStore → Type 0
  Keeps (m', d) store = Agrees c m' (marked d store)

  take_first-Agrees :
      (q : String) (ts : List (Task P)) (m : QueueManager P) (store : Option WalStore)
      → IsConsistent m
      → queue q m ≡ ts
      → Agrees c m store
      → Keeps (take_first q w ts m) store
  take_first-Agrees q [] m store k e d = d
  take_first-Agrees q (t ∷ ts) m none k e d = tt
  take_first-Agrees q (t ∷ ts) m (some s) k e d = take_first-IsDurable q t ts m s k e d

  popleft-Agrees :
      (q : String) (m : QueueManager P) (store : Option WalStore)
      → IsConsistent m
      → Agrees c m store
      → Keeps (popleft q w m) store
  unfolding popleft
  popleft-Agrees q m store k d = take_first-Agrees q (queue q m) m store k refl d

  pop_target-Agrees :
      (o : Option String) (m : QueueManager P) (store : Option WalStore)
      → IsConsistent m
      → Agrees c m store
      → Keeps (pop_target o w m) store
  pop_target-Agrees none m store k d = d
  pop_target-Agrees (some q) m store k d = elim (Bool-cases (q == "")) [
    | inl unnamed ↦ rw unnamed d
    | inr named ↦ rw named (popleft-Agrees q m store k d)
  ]

  ensure_queue-Agrees :
      (q : String) (m : QueueManager P) (store : Option WalStore)
      → Agrees c m store
      → Agrees c (ensure_queue q m) store
  ensure_queue-Agrees q m none d = tt
  ensure_queue-Agrees q m (some s) d = ensure_queue-IsDurable c q m s d

  -- A dequeue, of one queue or of any, and the status that is persisted after it, keep the store in
  -- agreement.
  pub dequeue-Agrees :
      (q : String) (m : QueueManager P) (store : Option WalStore)
      → IsConsistent m
      → Agrees c m store
      → Agrees c (dequeue q w m).0 (marked (dequeue q w m).1 store)
  unfolding dequeue
  dequeue-Agrees q m store k d = elim (Bool-cases (q == "*")) [
    | inl any ↦ rw any (pop_target-Agrees (first_nonempty m.queues) m store k d)
    | inr one ↦ rw one (
        popleft-Agrees q (ensure_queue q m) store (ensure_queue-IsConsistent q m k)
          (ensure_queue-Agrees q m store d))
  ]
