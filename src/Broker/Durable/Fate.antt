-- ===== src/Broker/Durable/Fate.antt =====
-- No handler loses the last row of an id, but for a purge of the dead letters and the replay of the
-- id itself.
pub mod Dispatch
pub mod Reach
use distro_sync.Prelude.{
  ℕ, String, ◌≡◌, refl, Bool, true, false, Option, none, some, eq_iff, arith, ◌==◌, Bool-cases, inl,
  inr,
}
use distro_sync.Task.{Status, Task, new_task}
use distro_sync.Queue
use distro_sync.Queue.{QueueManager, Delivery, Action, Outcome}
use distro_sync.Shedder
use distro_sync.Wal.{WalStore, Codec}
use distro_sync.Wal.Trace.{
  IsTraced, update_task_status-IsTraced, save_task-IsTraced, save_task-traces, add_to_dlq-IsTraced,
}
use distro_sync.Broker.{Broker, Clock, Message, Reason, Response, given, require, on_store}
use distro_sync.Broker.Commands.{
  save_found, persist, accept, produce_if, handle_produce, assign, handle_consume, acked,
  handle_ack, stub, persist_outcome, routed, handle_nack,
}
use distro_sync.Broker.Durable.Intake.{found}

-- there is a store, and it has a row of the id
abbrev pub HasTrace : String → Option WalStore → Type 0
HasTrace k none = ⊥
HasTrace k (some s) = IsTraced k s

pub on_store-HasTrace :
    (k : String) (f : WalStore → WalStore) (o : Option WalStore)
    → ((s : WalStore) → IsTraced k s → IsTraced k (f s))
    → HasTrace k o
    → HasTrace k (on_store f o)
on_store-HasTrace k f none keep h = h
on_store-HasTrace k f (some s) keep h = keep s h

module _ {P : Type 0} where
  -- from one state of the broker to the next
  abbrev pub Keeps : String → Broker P → Broker P → Type 0
  Keeps k b b' = HasTrace k b.wal_store → HasTrace k b'.wal_store

  pub require-Keeps :
      {A : Type 0} (j : String) (o : Option A) (r : Reason) (b : Broker P)
      (k : A → Broker P × Response P)
      → ((a : A) → Keeps j b (k a).0)
      → Keeps j b (require o r b k).0
  require-Keeps j none r b k f h = h
  require-Keeps j (some a) r b k f h = f a h

module _ {P : Type 0} (c : Codec P) (j : String) (clock : Clock) where
  -- the task that was enqueued is saved, which keeps a row of the id
  pub persist-HasTrace :
      (q : String) (p : P) (id : String) (m : QueueManager P) (o : Option WalStore)
      → HasTrace j o
      → HasTrace j (persist c q id clock.now (Queue.enqueue q p id clock.now m).0 o)
  persist-HasTrace q p id m o = rw (found c q p id clock.now m) (
      on_store-HasTrace j _ o
        (λ s. save_task-IsTraced c j (new_task id q p clock.now) clock.now s refl))

  -- and leaves a row of its own id
  pub persist-traces :
      (q : String) (p : P) (m : QueueManager P) (s : WalStore)
      → HasTrace j (persist c q j clock.now (Queue.enqueue q p j clock.now m).0 (some s))
  persist-traces q p m s =
      rw (found c q p j clock.now m)
        (save_task-traces c j (new_task j q p clock.now) clock.now s refl refl)

  -- the task that PRODUCE answers with has a row
  abbrev Leaves : Broker P × Response P → Type 0
  Leaves r = r.1 ≡ Response.produced j → HasTrace j r.0.wal_store

  accept-Leaves :
      (q : String) (p : P) (id : String) (b : Broker P) (s : WalStore)
      → b.wal_store ≡ some s
      → Leaves (accept c q p id clock b)
  unfolding accept Queue.enqueue
  accept-Leaves q p id b s e answered = elim (Bool-cases (id == j)) [
    | inl same ↦
        rw (e, (eq_iff id j).0 same) (unfold Queue.enqueue in persist-traces q p b.queue_manager s)
    | inr other ↦ absurd (ground (arith, eq_iff id j, answered, other))
  ]

  require-Leaves :
      {A : Type 0} (o : Option A) (r : Reason) (b : Broker P) (k : A → Broker P × Response P)
      → ((a : A) → Leaves (k a))
      → Leaves (require o r b k)
  require-Leaves none r b k f answered = absurd (ground (arith, answered))
  require-Leaves (some a) r b k f answered = f a answered

  pub handle_produce-Leaves :
      (id : String) (msg : Message P) (b : Broker P) (s : WalStore)
      → b.wal_store ≡ some s
      → Leaves (handle_produce c id clock msg b)
  unfolding handle_produce
  handle_produce-Leaves id msg b s e = require-Leaves (given msg.queue) _ b _ λ q.
      require-Leaves msg.task _ b _ λ p.
        let (shedder, hint) =
          Shedder.check_and_consume q clock.tick b.queue_manager b.worker_registry b.load_shedder in
        go q p shedder hint
    where
      go :
          (q : String) (p : P) (l : Shedder.AdaptiveLoadShedder) (hint : Option ℕ)
          → Leaves (produce_if c q p id clock hint (record b { load_shedder = l }))
      go q p l none = accept-Leaves q p id (record b { load_shedder = l }) s e
      go q p l (some hint) = λ answered. absurd (ground (arith, answered))

  accept-Keeps :
      (q : String) (p : P) (id : String) (b : Broker P) → Keeps j b (accept c q p id clock b).0
  unfolding accept
  accept-Keeps q p id b =
      unfold Queue.enqueue in persist-HasTrace q p id b.queue_manager b.wal_store

  pub handle_produce-Keeps :
      (id : String) (msg : Message P) (b : Broker P) → Keeps j b (handle_produce c id clock msg b).0
  unfolding handle_produce
  handle_produce-Keeps id msg b = require-Keeps j (given msg.queue) _ b _ λ q.
      require-Keeps j msg.task _ b _ λ p.
        let (shedder, hint) =
          Shedder.check_and_consume q clock.tick b.queue_manager b.worker_registry b.load_shedder in
        go q p shedder hint
    where
      go :
          (q : String) (p : P) (s : Shedder.AdaptiveLoadShedder) (hint : Option ℕ)
          → Keeps j b (produce_if c q p id clock hint (record b { load_shedder = s })).0
      go q p s none = accept-Keeps q p id (record b { load_shedder = s })
      go q p s (some hint) = λ h. h

  assign-Keeps :
      (q w : String) (b : Broker P) (d : Option (Delivery P)) → Keeps j b (assign q w clock b d).0
  assign-Keeps q w b none = λ h. h
  assign-Keeps q w b (some d) =
      on_store-HasTrace j _ b.wal_store
        (λ s. update_task_status-IsTraced j d.task_id _ _ _ clock.now s refl)

  pub handle_consume-Keeps :
      (msg : Message P) (b : Broker P) → Keeps j b (handle_consume clock msg b).0
  unfolding handle_consume
  handle_consume-Keeps msg b = require-Keeps j (given msg.queue) _ b _ λ q.
      require-Keeps j (given msg.worker_id) _ b _ λ w.
        let (m, d) = Queue.dequeue q w b.queue_manager in
        assign-Keeps q w (record b { queue_manager = m }) d

  acked-Keeps :
      (k : String) (msg : Message P) (b : Broker P) (done : Bool)
      → Keeps j b (acked k clock msg b done).0
  acked-Keeps k msg b false = λ h. h
  acked-Keeps k msg b true =
      on_store-HasTrace j _ b.wal_store
        (λ s. update_task_status-IsTraced j k _ none none clock.now s refl)

  pub handle_ack-Keeps : (msg : Message P) (b : Broker P) → Keeps j b (handle_ack clock msg b).0
  unfolding handle_ack
  handle_ack-Keeps msg b = require-Keeps j (given msg.task_id) _ b _ λ k.
      let (m, done) = Queue.acknowledge k b.queue_manager in
      acked-Keeps k msg (record b { queue_manager = m }) done

  persist_outcome-IsTraced :
      (k : String) (o : Outcome) (a : Action) (m : QueueManager P) (s : WalStore)
      → IsTraced j s
      → IsTraced j (persist_outcome c k o a clock.now m s)
  persist_outcome-IsTraced k o Action.dead_lettered m s =
      add_to_dlq-IsTraced c j (stub c k o clock.now m) clock.now s "max retries exceeded"
  persist_outcome-IsTraced k o Action.requeued m s =
      update_task_status-IsTraced j k _ _ none clock.now s refl

  routed-Keeps :
      (k : String) (msg : Message P) (b : Broker P) (o : Option Outcome)
      → Keeps j b (routed c k clock msg b o).0
  routed-Keeps k msg b none = λ h. h
  routed-Keeps k msg b (some o) =
      on_store-HasTrace j _ b.wal_store (persist_outcome-IsTraced k o o.action b.queue_manager)

  pub handle_nack-Keeps : (msg : Message P) (b : Broker P) → Keeps j b (handle_nack c clock msg b).0
  unfolding handle_nack
  handle_nack-Keeps msg b = require-Keeps j (given msg.task_id) _ b _ λ k.
      let (m, o) = Queue.negative_acknowledge k clock.now b.queue_manager in
      routed-Keeps k msg (record b { queue_manager = m }) o
