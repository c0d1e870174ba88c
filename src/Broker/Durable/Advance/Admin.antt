-- ===== src/Broker/Durable/Advance/Admin.antt =====
-- The same of the commands of the dead letter queue and of the reports, and of the whole table.
use distro_sync.Prelude.{
  String, ◌≡◌, refl, Bool, true, false, Option, none, some, arith, ◌==◌, if◌then◌else◌,
  Option-cases, inl, inr,
}
use distro_sync.Dict.{lookup}
use distro_sync.Queue
use distro_sync.Queue.{QueueManager}
use distro_sync.Queue.Copies.{copies}
use distro_sync.Queue.Copies.Conserve.{IsConsistent, copies-enqueue, copies-retry}
use distro_sync.Queue.Copies.Archive.{Archives, enqueue-Archives, retry-Archives}
use distro_sync.Wal
use distro_sync.Wal.{WalStore, Codec, DeadRow, TaskRow}
use distro_sync.Broker.{Broker, Clock, Message, Response, given}
use distro_sync.Broker.Admin.{
  handle_dlq_list, handle_dlq_replay, handle_dlq_purge, replay_row, replay_memory, replay_in,
}
use distro_sync.Broker.Reports.{handle_stats, handle_metrics}
use distro_sync.Broker.Dispatch.{Context, dispatch}
use distro_sync.Broker.Durable.Advance.{
  Advance, same_Advance, require-Advance, save_found-IsTable, handle_produce-Advance,
  handle_consume-Advance, handle_register-Advance, handle_heartbeat-Advance, handle_ack-Advance,
  handle_nack-Advance,
}
use distro_sync.Broker.Durable.DeadLetters.{exhumed, not_dead, is_dead}
use distro_sync.Broker.Durable.Purge.{copies-purge_memory}

module _ {P : Type 0} (c : Codec P) (id : String) where
  handle_dlq_list-Advance :
      (msg : Message P) (b : Broker P) → Advance id b (handle_dlq_list c msg b).0
  unfolding handle_dlq_list
  handle_dlq_list-Advance msg b = elim (Option-cases b.wal_store) [
    | inl e ↦ rw e (same_Advance id _ _ refl refl)
    | inr (s, e) ↦ rw e (same_Advance id _ _ refl refl)
  ]

  handle_dlq_purge-Advance :
      (msg : Message P) (b : Broker P) → Advance id b (handle_dlq_purge msg b).0
  unfolding handle_dlq_purge Wal.purge_dlq
  handle_dlq_purge-Advance msg b = elim (Option-cases b.wal_store) [
    | inl e ↦ rw e (record {
      brings = λ j. omega (arith, copies-purge_memory (given msg.queue) b.queue_manager j);
      archives = λ j. omega arith;
      table = λ h. tt;
    })
    | inr (s, e) ↦
        rw e (record { brings = λ j. omega arith; archives = λ j. omega arith; table = λ h. h })
  ]

  module _ (clock : Clock) (b : Broker P) where
    replay_row-Advance :
        (k : String) (s : WalStore) (o : Option DeadRow)
        → b.wal_store ≡ some s
        → (s' : WalStore) → s'.tasks ≡ s.tasks
        → Advance id b (replay_row c k id clock b (s', o)).0
    unfolding Queue.enqueue
    replay_row-Advance k s none e s' t = record {
      brings = λ j. omega arith;
      archives = λ j. omega arith;
      table = λ h. rw t (rw e at h);
    }
    replay_row-Advance k s (some r) e s' t = record {
      brings = λ j.
          omega
            (arith, copies-enqueue j r.queue_name (c.loads r.payload) id clock.now b.queue_manager);
      archives = enqueue-Archives r.queue_name (c.loads r.payload) id clock.now b.queue_manager;
      table = λ h. save_found-IsTable c id clock _ clock.now s' (rw t (rw e at h));
    }

    replay_store-Advance :
        (k : String) (s : WalStore)
        → b.wal_store ≡ some s
        → Advance id b (replay_row c k id clock b (Wal.replay_dlq_task k s)).0
    replay_store-Advance k s e = elim (Option-cases (lookup k s.dead_letter_queue)) [
      | inl missing ↦ rw (not_dead k s missing) (replay_row-Advance k s none e s refl)
      | inr (r, f) ↦ rw (is_dead k s r f) (replay_row-Advance k s (some r) e (exhumed k s) refl)
    ]

    replay_memory-Advance :
        (k : String) (m : QueueManager P) (done : Bool)
        → ((j : String) → copies j m ≡ copies j b.queue_manager)
        → Archives b.queue_manager m
        → Advance id b (replay_memory c k b (m, done)).0
    replay_memory-Advance k m true h a = record {
      brings = λ j. omega (arith, h j);
      archives = a;
      table = λ h. h;
    }
    replay_memory-Advance k m false h a = record {
      brings = λ j. omega (arith, h j);
      archives = a;
      table = λ h. h;
    }

    handle_dlq_replay-Advance :
        (msg : Message P)
        → IsConsistent b.queue_manager
        → Advance id b (handle_dlq_replay c id clock msg b).0
    unfolding handle_dlq_replay
    handle_dlq_replay-Advance msg h =
        require-Advance id (given msg.task_id) _ b _ λ k. replay k b.wal_store refl
      where
        replay :
            (k : String) (o : Option WalStore)
            → b.wal_store ≡ o
            → Advance id b (replay_in c k id clock b o).0
        replay k none e =
            replay_memory-Advance k (Queue.retry k b.queue_manager).0
              (Queue.retry k b.queue_manager).1 (λ j. copies-retry b.queue_manager h j k)
              (retry-Archives k b.queue_manager)
        replay k (some s) e = replay_store-Advance k s e

  if-Advance :
      (t : Bool) (b : Broker P) (x y : Broker P × Response P)
      → Advance id b x.0
      → Advance id b y.0
      → Advance id b (if t then x else y).0
  if-Advance true b x y h k = h
  if-Advance false b x y h k = k

module _ {P : Type 0} (c : Codec P) (x : Context) where
  pub dispatch-Advance :
      (msg : Message P) (b : Broker P)
      → IsConsistent b.queue_manager
      → Advance x.uuid b (dispatch c x msg b).0
  unfolding dispatch handle_stats handle_metrics
  dispatch-Advance msg b k =
      let id = x.uuid in
      require-Advance id (given msg.command) _ b _ λ name.
        if-Advance c id (name == "PRODUCE") b _ _ (handle_produce-Advance c id x.clock msg b) (
          if-Advance c id (name == "CONSUME") b _ _ (handle_consume-Advance c id x.clock msg b k) (
            if-Advance c id (name == "REGISTER") b _ _
              (handle_register-Advance c id x.clock x.address x.writer msg b)
              (if-Advance c id (name == "HEARTBEAT") b _ _
                (handle_heartbeat-Advance c id x.clock msg b)
                (if-Advance c id (name == "ACK") b _ _ (handle_ack-Advance c id x.clock msg b k) (
                  if-Advance c id (name == "NACK") b _ _ (handle_nack-Advance c id x.clock msg b k)
                    (if-Advance c id (name == "DLQ_LIST") b _ _ (handle_dlq_list-Advance c id msg b)
                      (if-Advance c id (name == "DLQ_REPLAY") b _ _
                        (handle_dlq_replay-Advance c id x.clock b msg k)
                        (if-Advance c id (name == "DLQ_PURGE") b _ _
                          (handle_dlq_purge-Advance c id msg b)
                          (if-Advance c id (name == "STATS") b _ _ (same_Advance id b _ refl refl) (
                            if-Advance c id (name == "METRICS") b _ _
                              (same_Advance id b _ refl refl)
                              (same_Advance id b b refl refl)))))))))))
