-- ===== src/Broker/Durable/Fate/Dispatch.antt =====
-- The same of the commands of the dead letter queue, of the whole table, and of the crash recovery.
use distro_sync.Prelude.{
  ℕ, String, ◌≡◌, refl, Bool, true, false, not, Option, none, some, List, [], ◌∷◌, get_or, arith,
  ◌==◌, if◌then◌else◌, Option-cases, inl, inr,
}
use distro_sync.Dict.{lookup}
use distro_sync.Dict.Laws.{lookup-erase}
use distro_sync.Task.{Status}
use distro_sync.Queue
use distro_sync.Queue.{QueueManager}
use distro_sync.Wal
use distro_sync.Wal.{WalStore, Codec, DeadRow, TaskRow}
use distro_sync.Wal.Trace.{IsTraced, update_task_status-IsTraced}
use distro_sync.Broker.{Broker, Clock, Message, Response, given}
use distro_sync.Broker.Commands.{handle_register, handle_heartbeat}
use distro_sync.Broker.Admin.{
  handle_dlq_list, handle_dlq_replay, replay_row, replay_memory, replay_in, recover_rows,
}
use distro_sync.Broker.Reports.{handle_stats, handle_metrics}
use distro_sync.Broker.Dispatch.{Context, run_command, dispatch}
use distro_sync.Broker.Durable.Fate.{
  HasTrace, Keeps, require-Keeps, persist-HasTrace, handle_produce-Keeps, handle_consume-Keeps,
  handle_ack-Keeps, handle_nack-Keeps,
}
use distro_sync.Broker.Durable.DeadLetters.{exhumed, not_dead, is_dead}

-- the replay of another dead letter leaves the row
exhumed-IsTraced :
    (j k : String) (s : WalStore) → (k == j) ≡ false → IsTraced j s → IsTraced j (exhumed k s)
exhumed-IsTraced j k s ne h = rw (lookup-erase, ne) h

module _ {P : Type 0} (c : Codec P) (j : String) where
  handle_dlq_list-Keeps : (msg : Message P) (b : Broker P) → Keeps j b (handle_dlq_list c msg b).0
  unfolding handle_dlq_list
  handle_dlq_list-Keeps msg b = elim (Option-cases b.wal_store) [
    | inl e ↦ rw e (λ h. h)
    | inr (s, e) ↦ rw e (λ h. h)
  ]

  module _ (id : String) (clock : Clock) (b : Broker P) where
    replay_row-HasTrace :
        (k : String) (s : WalStore) (o : Option DeadRow)
        → IsTraced j s
        → HasTrace j (replay_row c k id clock b (s, o)).0.wal_store
    unfolding Queue.enqueue
    replay_row-HasTrace k s none h = h
    replay_row-HasTrace k s (some r) h =
        persist-HasTrace c j clock r.queue_name (c.loads r.payload) id b.queue_manager (some s) h

    replay_store-HasTrace :
        (k : String) (s : WalStore)
        → (k == j) ≡ false
        → IsTraced j s
        → HasTrace j (replay_row c k id clock b (Wal.replay_dlq_task k s)).0.wal_store
    replay_store-HasTrace k s ne h = elim (Option-cases (lookup k s.dead_letter_queue)) [
      | inl missing ↦ rw (not_dead k s missing) (replay_row-HasTrace k s none h)
      | inr (r, f) ↦
          rw (is_dead k s r f)
            (replay_row-HasTrace k (exhumed k s) (some r) (exhumed-IsTraced j k s ne h))
    ]

    replay_memory-Keeps :
        (k : String) (m : QueueManager P) (done : Bool)
        → Keeps j b (replay_memory c k b (m, done)).0
    replay_memory-Keeps k m true h = h
    replay_memory-Keeps k m false h = h

    replay_in-Keeps :
        (k : String) (o : Option WalStore)
        → (k == j) ≡ false
        → HasTrace j o
        → b.wal_store ≡ o
        → HasTrace j (replay_in c k id clock b o).0.wal_store
    replay_in-Keeps k none ne h e =
        replay_memory-Keeps k (Queue.retry k b.queue_manager).0 (Queue.retry k b.queue_manager).1
          (rw e h)
    replay_in-Keeps k (some s) ne h e = replay_store-HasTrace k s ne h

    handle_dlq_replay-Keeps :
        (msg : Message P)
        → (get_or "" msg.task_id == j) ≡ false
        → Keeps j b (handle_dlq_replay c id clock msg b).0
    unfolding handle_dlq_replay
    handle_dlq_replay-Keeps msg ne = elim (Option-cases (given msg.task_id)) [
      | inl e ↦ rw e (λ h. h)
      | inr (k, e) ↦ rw e (λ h. replay_in-Keeps k b.wal_store (ground (arith, e, ne)) h refl)
    ]

module _ {P : Type 0} (j : String) where
  -- the command does not purge the dead letters, and does not replay the id
  abbrev pub spares : Message P → Bool
  spares msg =
      let name = get_or "" msg.command in
      if name == "DLQ_PURGE"
      then false
      else if name == "DLQ_REPLAY"
      then not (get_or "" msg.task_id == j)
      else true

  if-Keeps :
      (t : Bool) (b : Broker P) (x y : Broker P × Response P)
      → (t ≡ true → Keeps j b x.0)
      → (t ≡ false → Keeps j b y.0)
      → Keeps j b (if t then x else y).0
  if-Keeps true b x y h k = h refl
  if-Keeps false b x y h k = k refl

  -- the name of a command that spares the id
  named :
      (msg : Message P) (name : String)
      → given msg.command ≡ some name
      → get_or "" msg.command ≡ name
  named msg name e = ground (arith, e)

module _ {P : Type 0} (c : Codec P) (x : Context) (j : String) where
  registers :
      (msg : Message P) (b : Broker P)
      → Keeps j b (handle_register x.address x.writer x.clock msg b).0
  unfolding handle_register
  registers msg b = require-Keeps j (given msg.worker_id) _ b _ λ w h. h

  beats : (msg : Message P) (b : Broker P) → Keeps j b (handle_heartbeat x.clock msg b).0
  unfolding handle_heartbeat
  beats msg b = require-Keeps j (given msg.worker_id) _ b _ λ w h. h

  -- Every command that spares the id keeps a row of it in the store.
  pub dispatch-Keeps :
      (msg : Message P) (b : Broker P) → spares j msg ≡ true → Keeps j b (dispatch c x msg b).0
  unfolding dispatch run_command handle_stats handle_metrics
  dispatch-Keeps msg b ok = elim (Option-cases (given msg.command)) [
    | inl e ↦ rw e (λ h. h)
    | inr (name, e) ↦ rw e (run name (named j msg name e))
  ]
    where
      run :
          (name : String) → get_or "" msg.command ≡ name → Keeps j b (run_command c x name msg b).0
      run name e =
          if-Keeps j (name == "PRODUCE") b _ _ (λ t. handle_produce-Keeps c j x.clock x.uuid msg b)
            λ t.
              if-Keeps j (name == "CONSUME") b _ _ (λ t. handle_consume-Keeps c j x.clock msg b)
                λ t.
                  if-Keeps j (name == "REGISTER") b _ _ (λ t. registers msg b)
                    λ t.
                      if-Keeps j (name == "HEARTBEAT") b _ _ (λ t. beats msg b)
                        λ t.
                          if-Keeps j (name == "ACK") b _ _ (λ t. handle_ack-Keeps c j x.clock msg b)
                            λ t.
                              if-Keeps j (name == "NACK") b _ _
                                (λ t. handle_nack-Keeps c j x.clock msg b)
                                λ t.
                                  if-Keeps j (name == "DLQ_LIST") b _ _
                                    (λ t. handle_dlq_list-Keeps c j msg b)
                                    λ t.
                                      if-Keeps j (name == "DLQ_REPLAY") b _ _
                                        (λ t.
                                          handle_dlq_replay-Keeps c j x.uuid x.clock b msg
                                            (ground (arith, ok, e, t)))
                                        λ t.
                                          if-Keeps j (name == "DLQ_PURGE") b _ _
                                            (λ t. absurd (ground (arith, ok, e, t)))
                                            λ t.
                                              if-Keeps j (name == "STATS") b _ _ (λ t h. h)
                                                λ t.
                                                  if-Keeps j (name == "METRICS") b _ _ (λ t h. h)
                                                    (λ t h. h)

module _ {P : Type 0} (c : Codec P) (j : String) where
  pub recover_rows-IsTraced :
      (rs : List TaskRow) (now : ℕ) (m : QueueManager P) (s : WalStore)
      → IsTraced j s
      → IsTraced j (recover_rows c rs now m s).1
  unfolding recover_rows
  recover_rows-IsTraced [] now m s h = h
  recover_rows-IsTraced (r ∷ rs) now m s h =
      recover_rows-IsTraced rs now _ _
        (update_task_status-IsTraced j r.task_id Status.pending (some r.attempts) none now s refl h)
