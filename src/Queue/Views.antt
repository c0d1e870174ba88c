-- ===== src/Queue/Views.antt =====
-- What each method does to each named queue, and to the registries beside it.
pub mod Fifo
pub mod Retry
pub mod Replay
use distro_sync.Prelude.{
  String, ◌≡◌, ◌≢◌, refl, sym, none, some, List, [], ◌∷◌, ◌++◌, arith, ◌==◌, get_or, leb, false,
  if◌then◌else◌, eq_iff, eq-false,
}
use distro_sync.Dict.{lookup, insert}
use distro_sync.Dict.Laws.{lookup-insert}
use distro_sync.Task.{Task}
use distro_sync.Queue.{
  QueueManager, Delivery, queue, ensured, ensure_queue, append, appendleft, take_first, popleft,
  dequeue, deliver, start,
}
use distro_sync.Queue.Copies.{lookup-ensured}

module _ {P : Type 0} where
  module _ (q : String) (t : Task P) (m : QueueManager P) where
    pub queue-append :
        queue q (append t m) ≡ (if t.queue_name == q then queue q m ++ t ∷ [] else queue q m)
    unfolding append
    queue-append =
        let d = ensured t.queue_name m.queues in
        ground (
          arith,
          lookup-insert q t.queue_name (get_or [] (lookup t.queue_name d) ++ t ∷ []) d,
          lookup-ensured q t.queue_name m.queues,
          eq_iff t.queue_name q,
        )

    pub queue-appendleft :
        queue q (appendleft t m) ≡ (if t.queue_name == q then t ∷ queue q m else queue q m)
    unfolding appendleft
    queue-appendleft =
        let d = ensured t.queue_name m.queues in
        ground (
          arith,
          lookup-insert q t.queue_name (t ∷ get_or [] (lookup t.queue_name d)) d,
          lookup-ensured q t.queue_name m.queues,
          eq_iff t.queue_name q,
        )

  pub queue-ensure_queue :
      (j q : String) (m : QueueManager P) → queue j (ensure_queue q m) ≡ queue j m
  unfolding ensure_queue
  queue-ensure_queue j q m = lookup-ensured j q m.queues

  -- CONSUME of a queue that has a name other than "*".
  pub dequeue_named :
      (q w : String) (m : QueueManager P)
      → q ≢ "*"
      → dequeue q w m ≡ take_first q w (queue q m) (ensure_queue q m)
  unfolding dequeue popleft
  dequeue_named q w m h = rw (eq-false q "*" h) (rw queue-ensure_queue refl)

  -- What is left of the queue after the first task is taken.
  pub queue-take_first :
      (q w : String) (t : Task P) (ts : List (Task P)) (m : QueueManager P)
      → queue q (take_first q w (t ∷ ts) m).0 ≡ ts
  queue-take_first q w t ts m = ground (arith, lookup-insert q q ts m.queues, eq_iff q q)
