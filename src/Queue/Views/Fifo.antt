-- ===== src/Queue/Views/Fifo.antt =====
-- A named queue is first in, first out.
use distro_sync.Prelude.{
  ℕ, zero, suc, String, ◌≡◌, ◌≢◌, refl, ap, Option, some, List, [], ◌∷◌, ◌++◌, map, length, eq_refl,
  length-append, length-map, ◌∙◌, ◌+◌,
}
use mathlib.Core.List.{append_assoc, append-nil}
use distro_sync.Task.{Task, new_task}
use distro_sync.Queue.{
  QueueManager, Delivery, queue, enqueue, dequeue, deliver, start, take_first, ensure_queue,
}
use distro_sync.Queue.Views.{queue-append, dequeue_named, queue-take_first}

-- A PRODUCE of some payload, with the new id and the clock.
pub record Arrival (P : Type 0) : Type 0 where
  pub payload : P
  pub task_id : String
  pub now : ℕ

module _ {P : Type 0} where
  pub enqueue_all : String → List (Arrival P) → QueueManager P → QueueManager P
  enqueue_all q [] m = m
  enqueue_all q (a ∷ rest) m = enqueue_all q rest (enqueue q a.payload a.task_id a.now m).0

  -- `n` CONSUMEs in turn
  pub dequeue_all : ℕ → String → String → QueueManager P → List (Option (Delivery P))
  dequeue_all zero q w m = []
  dequeue_all (suc n) q w m = let (m', d) = dequeue q w m in d ∷ dequeue_all n q w m'

  abbrev pub arrived : String → Arrival P → Task P
  arrived q a = new_task a.task_id q a.payload a.now

  -- what a worker should get of a waiting task
  abbrev pub one_more_attempt : Task P → Delivery P
  one_more_attempt t = record {
    task_id = t.task_id;
    queue_name = t.queue_name;
    payload = t.payload;
    attempts = t.attempts + 1;
  }

  queue-enqueue_all :
      (q : String) (arrivals : List (Arrival P)) (m : QueueManager P)
      → queue q (enqueue_all q arrivals m) ≡ queue q m ++ map (arrived q) arrivals
  unfolding enqueue_all enqueue
  queue-enqueue_all q [] m = rw append-nil
  queue-enqueue_all q (a ∷ rest) m =
      rw (queue-enqueue_all q rest (enqueue q a.payload a.task_id a.now m).0)
        (unfold enqueue in rw (queue-append, eq_refl q, append_assoc))

  dequeue_all_lem :
      (q w : String) (ts : List (Task P)) (m : QueueManager P)
      → q ≢ "*"
      → queue q m ≡ ts
      → dequeue_all (length ts) q w m ≡ map (λ t. some (deliver (start w t))) ts
  unfolding dequeue_all
  dequeue_all_lem q w [] m h e = refl
  dequeue_all_lem q w (t ∷ ts) m h e =
      rw (dequeue_named q w m h, e)
        (ap (λ l. some (deliver (start w t)) ∷ l)
          (dequeue_all_lem q w ts (take_first q w (t ∷ ts) (ensure_queue q m)).0 h
            (queue-take_first q w t ts (ensure_queue q m))))

  -- What waits in a queue, not named "*", and what is then produced into it is delivered in that
  -- order, each task once and with one more attempt than it had.
  pub fifo :
      (q w : String) (arrivals : List (Arrival P)) (m : QueueManager P)
      → q ≢ "*"
      → dequeue_all (length (queue q m) + length arrivals) q w (enqueue_all q arrivals m)
        ≡ map (λ t. some (one_more_attempt t)) (queue q m ++ map (arrived q) arrivals)
  fifo q w arrivals m h =
      let all = queue q m ++ map (arrived q) arrivals in
      let n : length all ≡ length (queue q m) + length arrivals =
        length-append (queue q m) (map (arrived q) arrivals)
        ∙ ap (λ k. length (queue q m) + k) (length-map (arrived q) arrivals) in
      rw (← n)
        (dequeue_all_lem q w all (enqueue_all q arrivals m) h (queue-enqueue_all q arrivals m))
