-- ===== src/Broker/Durable/DeadLetters.antt =====
-- The commands of the dead letter queue keep the queue manager consistent and the store in agreement.
use distro_sync.Prelude.{
  String, ◌≡◌, refl, Option, none, some, Option-cases, inl, inr, ◌⊎◌, ap, Bool, true, false, ◌∙◌,
}
use distro_sync.Dict.{Dict, lookup, erase}
use distro_sync.Queue
use distro_sync.Queue.{QueueManager}
use distro_sync.Queue.Copies.{copies}
use distro_sync.Queue.Copies.Conserve.{IsConsistent}
use distro_sync.Queue.Run.{enqueue-IsConsistent, retry-IsConsistent}
use distro_sync.Queue.Everywhere.{Everywhere-map}
use distro_sync.Wal
use distro_sync.Wal.{WalStore, Codec, DeadRow, TaskRow}
use distro_sync.Wal.Rows.{saved, kept}
use distro_sync.Broker.{Broker, Clock, Message, given}
use distro_sync.Broker.Admin.{
  handle_dlq_list, handle_dlq_replay, handle_dlq_purge, replay_row, replay_memory, replay_in,
  purge_memory,
}
use distro_sync.Broker.Durable.{IsDurable, IsSaved, IsSafe, require-IsSafe}
use distro_sync.Broker.Durable.Intake.{persist-Agrees}
use distro_sync.Broker.Durable.Purge.{bury_less, purge_memory-less}

abbrev pub exhumed : String → WalStore → WalStore
exhumed id s = record s { dead_letter_queue = erase id s.dead_letter_queue }

pub not_dead :
    (id : String) (s : WalStore)
    → lookup id s.dead_letter_queue ≡ none
    → Wal.replay_dlq_task id s ≡ (s, none)
unfolding Wal.replay_dlq_task
not_dead id s e = rw (Wal.replay_dlq_task, e)

pub is_dead :
    (id : String) (s : WalStore) (r : DeadRow)
    → lookup id s.dead_letter_queue ≡ some r
    → Wal.replay_dlq_task id s ≡ (exhumed id s, some r)
unfolding Wal.replay_dlq_task
is_dead id s r e = rw (Wal.replay_dlq_task, e)

module _ {P : Type 0} (c : Codec P) where
  -- the store's agreement is about the table of the tasks alone
  same_tasks :
      (m : QueueManager P) (s s' : WalStore)
      → s'.tasks ≡ s.tasks
      → IsDurable c m s
      → IsDurable c m s'
  unfolding saved
  same_tasks m s s' e d =
      let same = λ (j : String). ap (λ (ts : Dict TaskRow). kept (lookup j ts)) e in
      record {
        waiting =
            Everywhere-map (IsSaved c s) (IsSaved c s') (λ t h. same t.task_id ∙ h) m.queues
              d.waiting;
        running = λ k t p. same k ∙ d.running k t p;
        nothing_else = λ k n. same k ∙ d.nothing_else k n;
      }

  pub handle_dlq_list-IsSafe :
      (msg : Message P) (b : Broker P) → IsSafe c b → IsSafe c (handle_dlq_list c msg b).0
  unfolding handle_dlq_list
  handle_dlq_list-IsSafe msg b h = elim (Option-cases b.wal_store) [
    | inl e ↦ rw e (record { consistent = h.consistent; agrees = tt })
    | inr (s, e) ↦ rw e (record { consistent = h.consistent; agrees = rw e at h.agrees })
  ]

  pub handle_dlq_purge-IsSafe :
      (msg : Message P) (b : Broker P) → IsSafe c b → IsSafe c (handle_dlq_purge msg b).0
  unfolding handle_dlq_purge Wal.purge_dlq
  handle_dlq_purge-IsSafe msg b h = elim (Option-cases b.wal_store) [
    | inl e ↦ rw e (record {
      consistent =
          bury_less b.queue_manager
            (purge_memory (given msg.queue) b.queue_manager.dead_letter_queue).0 h.consistent
            (purge_memory-less (given msg.queue) b.queue_manager.dead_letter_queue);
      agrees = tt;
    })
    | inr (s, e) ↦ rw e (record {
      consistent = h.consistent;
      agrees = same_tasks b.queue_manager s _ refl (rw e at h.agrees);
    })
  ]

  replay_row-IsSafe :
      (id uuid : String) (clock : Clock) (b : Broker P) (s : WalStore) (o : Option DeadRow)
      → IsConsistent b.queue_manager
      → IsDurable c b.queue_manager s
      → copies uuid b.queue_manager ≡ 0
      → IsSafe c (replay_row c id uuid clock b (s, o)).0
  unfolding Queue.enqueue
  replay_row-IsSafe id uuid clock b s none k d fresh = record { consistent = k; agrees = d }
  replay_row-IsSafe id uuid clock b s (some r) k d fresh = record {
    consistent =
        enqueue-IsConsistent r.queue_name (c.loads r.payload) uuid clock.now b.queue_manager k
          fresh;
    agrees =
        persist-Agrees c r.queue_name (c.loads r.payload) uuid clock.now b.queue_manager fresh
          clock.now (some s) d;
  }

  replay_store-IsSafe :
      (id uuid : String) (clock : Clock) (b : Broker P) (s : WalStore)
      → IsConsistent b.queue_manager
      → IsDurable c b.queue_manager s
      → copies uuid b.queue_manager ≡ 0
      → IsSafe c (replay_row c id uuid clock b (Wal.replay_dlq_task id s)).0
  replay_store-IsSafe id uuid clock b s k d fresh =
      elim (Option-cases (lookup id s.dead_letter_queue)) [
        | inl missing ↦
            rw (not_dead id s missing) (replay_row-IsSafe id uuid clock b s none k d fresh)
        | inr (r, e) ↦ rw (is_dead id s r e) (
            replay_row-IsSafe id uuid clock b (exhumed id s) (some r) k
              (same_tasks b.queue_manager s _ refl d) fresh)
      ]

  replay_memory-IsSafe :
      (id : String) (b : Broker P) (m : QueueManager P) (done : Bool)
      → IsConsistent m
      → b.wal_store ≡ none
      → IsSafe c (replay_memory c id b (m, done)).0
  replay_memory-IsSafe id b m true k e = record { consistent = k; agrees = rw e tt }
  replay_memory-IsSafe id b m false k e = record { consistent = k; agrees = rw e tt }

  pub handle_dlq_replay-IsSafe :
      (uuid : String) (clock : Clock) (msg : Message P) (b : Broker P)
      → IsSafe c b
      → copies uuid b.queue_manager ≡ 0
      → IsSafe c (handle_dlq_replay c uuid clock msg b).0
  unfolding handle_dlq_replay
  handle_dlq_replay-IsSafe uuid clock msg b h fresh =
      require-IsSafe c (given msg.task_id) _ b _ h λ id. replay id (Option-cases b.wal_store)
    where
      replay :
          (id : String)
          → (b.wal_store ≡ none) ⊎ ((s : WalStore) × (b.wal_store ≡ some s))
          → IsSafe c (replay_in c id uuid clock b b.wal_store).0
      replay id (inl e) =
          rw (replay_in, e)
            (replay_memory-IsSafe id b (Queue.retry id b.queue_manager).0
              (Queue.retry id b.queue_manager).1
              (retry-IsConsistent id b.queue_manager h.consistent) e)
      replay id (inr (s, e)) =
          rw (replay_in, e)
            (replay_store-IsSafe id uuid clock b s h.consistent (rw e at h.agrees) fresh)
