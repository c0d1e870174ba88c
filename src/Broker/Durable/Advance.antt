-- ===== src/Broker/Durable/Advance.antt =====
-- What every command does besides: it brings at most one task, with the id that it was given, and
-- keeps the primary key of the store's table.
pub mod Admin
use distro_sync.Prelude.{
  ℕ, ◌+◌, ◌≤◌, String, ◌≡◌, refl, Bool, true, false, Option, none, some, List, [], ◌∷◌, arith, ◌==◌,
  if◌then◌else◌, Option-cases, inl, inr, ◌⊎◌, ap,
}
use distro_sync.Dict.{lookup}
use distro_sync.Task.{Status, Task}
use distro_sync.DeadLetter.{DeadLetterQueue}
use distro_sync.Queue
use distro_sync.Queue.{QueueManager, Delivery, Action, Outcome}
use distro_sync.Queue.Copies.{copies}
use distro_sync.Queue.Copies.Conserve.{
  IsConsistent, copies-enqueue, copies-dequeue, copies-acknowledge, copies-negative_acknowledge,
  copies-retry,
}
use distro_sync.Queue.Copies.Archive.{
  Archives, enqueue-Archives, dequeue-Archives, acknowledge-Archives, negative_acknowledge-Archives,
}
use distro_sync.Shedder
use distro_sync.Wal
use distro_sync.Wal.{WalStore, Codec, DeadRow}
use distro_sync.Wal.Pending.{IsTable}
use distro_sync.Wal.Table.{update_task_status-IsTable, save_task-IsTable, add_to_dlq-IsTable}
use distro_sync.Broker.{Broker, Clock, Message, Reason, Response, given, require, on_store}
use distro_sync.Broker.Commands.{
  save_found, persist, accept, produce_if, handle_produce, mark_done, mark_in_flight, assign,
  handle_consume, handle_register, handle_heartbeat, completed, acked, handle_ack, stub,
  persist_outcome, routed, handle_nack,
}

-- the store's table, if there is a store
abbrev pub HasTable : Option WalStore → Type 0
HasTable none = Unit
HasTable (some s) = IsTable s.tasks

on_store-HasTable :
    (f : WalStore → WalStore) (o : Option WalStore)
    → ((s : WalStore) → IsTable s.tasks → IsTable (f s).tasks)
    → HasTable o
    → HasTable (on_store f o)
on_store-HasTable f none keep h = tt
on_store-HasTable f (some s) keep h = keep s h

module _ {P : Type 0} where
  -- from one state of the broker to the next, by a command that is given the id
  pub record Advance (id : String) (b b' : Broker P) : Type 0 where
    pub brings :
        (j : String)
        → copies j b'.queue_manager ≤ copies j b.queue_manager + (if id == j then 1 else 0)
    pub archives : Archives b.queue_manager b'.queue_manager
    pub table : HasTable b.wal_store → HasTable b'.wal_store

  pub same_Advance :
      (id : String) (b b' : Broker P)
      → b'.queue_manager ≡ b.queue_manager
      → b'.wal_store ≡ b.wal_store
      → Advance id b b'
  same_Advance id b b' m s = record {
    brings = λ j. rw m (omega arith);
    archives = λ j. rw m (omega arith);
    table = λ h. rw s h;
  }

  pub require-Advance :
      {A : Type 0} (id : String) (o : Option A) (r : Reason) (b : Broker P)
      (k : A → Broker P × Response P)
      → ((a : A) → Advance id b (k a).0)
      → Advance id b (require o r b k).0
  require-Advance id none r b k f = same_Advance id b b refl refl
  require-Advance id (some a) r b k f = f a

module _ {P : Type 0} (c : Codec P) (id : String) (clock : Clock) where
  pub save_found-IsTable :
      (o : Option (Task P)) (now : ℕ) (s : WalStore)
      → IsTable s.tasks
      → IsTable (save_found c o now s).tasks
  save_found-IsTable none now s h = h
  save_found-IsTable (some t) now s h = save_task-IsTable c t now s h

  pub accept-Advance :
      (q : String) (p : P) (b : Broker P) → Advance id b (accept c q p id clock b).0
  unfolding accept
  accept-Advance q p b = record {
    brings = λ j. omega (arith, copies-enqueue j q p id clock.now b.queue_manager);
    archives = enqueue-Archives q p id clock.now b.queue_manager;
    table = on_store-HasTable _ b.wal_store (save_found-IsTable _ clock.now);
  }

  pub handle_produce-Advance :
      (msg : Message P) (b : Broker P) → Advance id b (handle_produce c id clock msg b).0
  unfolding handle_produce
  handle_produce-Advance msg b = require-Advance id (given msg.queue) _ b _ λ q.
      require-Advance id msg.task _ b _ λ p.
        let (shedder, hint) =
          Shedder.check_and_consume q clock.tick b.queue_manager b.worker_registry b.load_shedder in
        go q p shedder hint
    where
      go :
          (q : String) (p : P) (s : Shedder.AdaptiveLoadShedder) (hint : Option ℕ)
          → Advance id b (produce_if c q p id clock hint (record b { load_shedder = s })).0
      go q p s none =
          let a = accept-Advance q p (record b { load_shedder = s }) in
          record { brings = a.brings; archives = a.archives; table = a.table }
      go q p s (some hint) = same_Advance id b _ refl refl

  assign-Advance :
      (q w : String) (b : Broker P) (d : Option (Delivery P))
      → Advance id b (assign q w clock b d).0
  assign-Advance q w b none = same_Advance id b b refl refl
  assign-Advance q w b (some d) = record {
    brings = λ j. omega arith;
    archives = λ j. omega arith;
    table = on_store-HasTable _ b.wal_store (update_task_status-IsTable d.task_id _ _ _ clock.now);
  }

  pub handle_consume-Advance :
      (msg : Message P) (b : Broker P)
      → IsConsistent b.queue_manager
      → Advance id b (handle_consume clock msg b).0
  unfolding handle_consume
  handle_consume-Advance msg b k = require-Advance id (given msg.queue) _ b _ λ q.
      require-Advance id (given msg.worker_id) _ b _ λ w.
        let (m, d) = Queue.dequeue q w b.queue_manager in
        let a = assign-Advance q w (record b { queue_manager = m }) d in
        record {
          brings = λ j. omega (arith, a.brings j, copies-dequeue b.queue_manager k j q w);
          archives = λ j. omega (arith, a.archives j, dequeue-Archives q w b.queue_manager j);
          table = a.table;
        }

  pub handle_register-Advance :
      (address : String × ℕ) (writer : ℕ) (msg : Message P) (b : Broker P)
      → Advance id b (handle_register address writer clock msg b).0
  unfolding handle_register
  handle_register-Advance address writer msg b =
      require-Advance id (given msg.worker_id) _ b _ λ w. same_Advance id b _ refl refl

  pub handle_heartbeat-Advance :
      (msg : Message P) (b : Broker P) → Advance id b (handle_heartbeat clock msg b).0
  unfolding handle_heartbeat
  handle_heartbeat-Advance msg b =
      require-Advance id (given msg.worker_id) _ b _ λ w. same_Advance id b _ refl refl

  acked-Advance :
      (k : String) (msg : Message P) (b : Broker P) (done : Bool)
      → Advance id b (acked k clock msg b done).0
  acked-Advance k msg b false = same_Advance id b b refl refl
  acked-Advance k msg b true = record {
    brings = λ j. omega arith;
    archives = λ j. omega arith;
    table = on_store-HasTable _ b.wal_store (update_task_status-IsTable k _ _ _ clock.now);
  }

  pub handle_ack-Advance :
      (msg : Message P) (b : Broker P)
      → IsConsistent b.queue_manager
      → Advance id b (handle_ack clock msg b).0
  unfolding handle_ack
  handle_ack-Advance msg b h = require-Advance id (given msg.task_id) _ b _ λ k.
      let (m, done) = Queue.acknowledge k b.queue_manager in
      let a = acked-Advance k msg (record b { queue_manager = m }) done in
      record {
        brings = λ j. omega (arith, a.brings j, copies-acknowledge b.queue_manager h j k);
        archives = λ j. omega (arith, a.archives j, acknowledge-Archives k b.queue_manager j);
        table = a.table;
      }

  persist_outcome-IsTable :
      (k : String) (o : Outcome) (a : Action) (now : ℕ) (m : QueueManager P) (s : WalStore)
      → IsTable s.tasks
      → IsTable (persist_outcome c k o a now m s).tasks
  persist_outcome-IsTable k o Action.dead_lettered now m s h =
      add_to_dlq-IsTable c (stub c k o now m) now s h "max retries exceeded"
  persist_outcome-IsTable k o Action.requeued now m s h = update_task_status-IsTable k _ _ _ now s h

  routed-Advance :
      (k : String) (msg : Message P) (b : Broker P) (o : Option Outcome)
      → Advance id b (routed c k clock msg b o).0
  routed-Advance k msg b none = same_Advance id b b refl refl
  routed-Advance k msg b (some o) = record {
    brings = λ j. omega arith;
    archives = λ j. omega arith;
    table =
        on_store-HasTable _ b.wal_store
          (persist_outcome-IsTable k o o.action clock.now b.queue_manager);
  }

  pub handle_nack-Advance :
      (msg : Message P) (b : Broker P)
      → IsConsistent b.queue_manager
      → Advance id b (handle_nack c clock msg b).0
  unfolding handle_nack
  handle_nack-Advance msg b h = require-Advance id (given msg.task_id) _ b _ λ k.
      let (m, o) = Queue.negative_acknowledge k clock.now b.queue_manager in
      let a = routed-Advance k msg (record b { queue_manager = m }) o in
      record {
        brings = λ j.
            omega (arith, a.brings j, copies-negative_acknowledge b.queue_manager h j k clock.now);
        archives = λ j.
            omega
              (arith, a.archives j, negative_acknowledge-Archives k b.queue_manager clock.now j);
        table = a.table;
      }
