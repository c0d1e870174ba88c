-- ===== src/Broker/Durable/Reach.antt =====
-- Whole runs of the broker: its steps in any order, and what holds in every state they reach.
use distro_sync.Prelude.{
  ℕ, String, ◌≡◌, refl, Option, none, some, List, [], ◌∷◌, arith, Option-cases, inl, inr,
}
use distro_sync.Dict.{lookup}
use distro_sync.Task.{Status}
use distro_sync.Queue
use distro_sync.Queue.{QueueManager}
use distro_sync.Queue.Copies.{copies, queued}
use distro_sync.Queue.Copies.Conserve.{IsConsistent, init-IsConsistent}
use distro_sync.Wal
use distro_sync.Wal.{WalStore, Codec, TaskRow, load_pending_tasks}
use distro_sync.Wal.Rows.{saved}
use distro_sync.Wal.Pending.{IsTable}
use distro_sync.Wal.Table.{empty-IsTable, update_task_status-IsTable}
use distro_sync.Broker
use distro_sync.Broker.{Broker, Clock, Message}
use distro_sync.Broker.Admin.{evict, start, recover_rows, reset_handler, crash_worker}
use distro_sync.Broker.Dispatch.{Context, dispatch}
use distro_sync.Broker.Durable.{IsDurable, IsSafe, Agrees}
use distro_sync.Broker.Durable.Advance.{HasTable}
use distro_sync.Broker.Durable.Advance.Admin.{dispatch-Advance}
use distro_sync.Broker.Durable.Settle.{evict-IsSafe}
use distro_sync.Broker.Durable.Commands.{dispatch-IsSafe}
use distro_sync.Broker.Durable.Restart.{start-restores}

module _ {P : Type 0} (c : Codec P) where
  -- One step of the broker: a command, whose uuid no task has; a round of the eviction; a crash and
  -- a new process on the same store; the crash of a worker and the reset from the dashboard; a
  -- connection that comes or goes.
  pub data Step : Broker P → Broker P → Type 0 where
    command :
        (x : Context) (msg : Message P) (b b' : Broker P)
        → copies x.uuid b.queue_manager ≡ 0
        → b' ≡ (dispatch c x msg b).0
        → Step b b'
    eviction : (clock : Clock) (b b' : Broker P) → b' ≡ evict clock b → Step b b'
    restart :
        (now tick : ℕ) (b b' : Broker P)
        → b' ≡ start c now (Broker.init tick b.wal_store)
        → Step b b'
    crashed_worker :
        (w : String) (clock : Clock) (b b' : Broker P) → b' ≡ crash_worker w clock b → Step b b'
    cleared : (clock : Clock) (b b' : Broker P) → b' ≡ reset_handler clock b → Step b b'
    counted : (n : ℕ) (b b' : Broker P) → b' ≡ record b { active_connections = n } → Step b b'

  -- any number of steps
  pub data Reach (b : Broker P) : Broker P → Type 0 where
    here : Reach b b
    next : (m e : Broker P) → Reach b m → Step m e → Reach b e

  -- what holds between steps
  pub record IsSound (b : Broker P) : Type 0 where
    pub safe : IsSafe c b
    pub table : HasTable b.wal_store

  recover_rows-IsTable :
      (rs : List TaskRow) (now : ℕ) (m : QueueManager P) (s : WalStore)
      → IsTable s.tasks
      → IsTable (recover_rows c rs now m s).1.tasks
  unfolding recover_rows
  recover_rows-IsTable [] now m s h = h
  recover_rows-IsTable (r ∷ rs) now m s h =
      recover_rows-IsTable rs now _ _
        (update_task_status-IsTable r.task_id Status.pending (some r.attempts) none now s h)

  pub restart-IsSound :
      (now tick : ℕ) (b : Broker P)
      → IsSound b
      → IsSound (start c now (Broker.init tick b.wal_store))
  unfolding start
  restart-IsSound now tick b h = from b.wal_store h.safe.agrees h.table
    where
      from :
          (o : Option WalStore)
          → Agrees c b.queue_manager o
          → HasTable o
          → IsSound (start c now (Broker.init tick o))
      from none a t = record {
        safe = record { consistent = init-IsConsistent 3; agrees = tt };
        table = tt;
      }
      from (some s) a t = record {
        safe = (start-restores c b.queue_manager s h.safe.consistent a now tick t).0;
        table = recover_rows-IsTable (load_pending_tasks s) now (Queue.init 3) s t;
      }

  pub crash_worker-IsSound :
      (w : String) (clock : Clock) (b : Broker P) → IsSound b → IsSound (crash_worker w clock b)
  unfolding crash_worker
  crash_worker-IsSound w clock b h = elim (Option-cases (lookup w b.worker_registry.workers)) [
    | inl e ↦ rw (crash_worker, e) h
    | inr (i, e) ↦
        rw (crash_worker, e)
          (record {
            safe = record { consistent = h.safe.consistent; agrees = h.safe.agrees };
            table = h.table;
          })
  ]

  cleared-IsConsistent : (m : QueueManager P) → IsConsistent (Queue.reset m)
  unfolding Queue.reset copies queued lookup
  cleared-IsConsistent m = record {
    once = λ j. omega arith;
    in_flight_keyed = record { at_key = λ k t e. absurd (ground (arith, e)) };
    dead_keyed = record { at_key = λ k t e. absurd (ground (arith, e)) };
  }

  cleared-IsDurable :
      (m : QueueManager P) (s : WalStore) → IsDurable c (Queue.reset m) (Wal.clear_all_data s)
  unfolding Queue.reset Wal.clear_all_data lookup saved
  cleared-IsDurable m s = record {
    waiting = tt;
    running = λ k t e. absurd (ground (arith, e));
    nothing_else = λ k n. refl;
  }

  pub reset-IsSound : (clock : Clock) (b : Broker P) → IsSound (reset_handler clock b)
  unfolding reset_handler Wal.clear_all_data
  reset-IsSound clock b = elim (Option-cases b.wal_store) [
    | inl e ↦ rw e (record {
      safe = record { consistent = cleared-IsConsistent b.queue_manager; agrees = tt };
      table = tt;
    })
    | inr (s, e) ↦ rw e (record {
      safe = record {
        consistent = cleared-IsConsistent b.queue_manager;
        agrees = cleared-IsDurable b.queue_manager s;
      };
      table = empty-IsTable;
    })
  ]

  pub Step-IsSound : (b b' : Broker P) → IsSound b → Step b b' → IsSound b'
  Step-IsSound b b' h (Step.command x msg _ _ fresh e) = rw e (record {
    safe = dispatch-IsSafe c x msg b h.safe fresh;
    table = (dispatch-Advance c x msg b h.safe.consistent).table h.table;
  })
  Step-IsSound b b' h (Step.eviction clock _ _ e) =
      rw e (record { safe = evict-IsSafe c clock b h.safe; table = (unfold evict in h.table) })
  Step-IsSound b b' h (Step.restart now tick _ _ e) = rw e (restart-IsSound now tick b h)
  Step-IsSound b b' h (Step.crashed_worker w clock _ _ e) = rw e (crash_worker-IsSound w clock b h)
  Step-IsSound b b' h (Step.cleared clock _ _ e) = rw e (reset-IsSound clock b)
  Step-IsSound b b' h (Step.counted n _ _ e) = rw e (record {
    safe = record { consistent = h.safe.consistent; agrees = h.safe.agrees };
    table = h.table;
  })

  -- Whatever steps a broker takes, in any order - commands whose new id no task has, eviction
  -- rounds, crashes with a restart on the same store, crashes of workers, resets, connections that
  -- come or go - its queue manager stays consistent (no id in two places), and its store, if there
  -- is one, stays in agreement with it and keeps its rows under their own ids, if all this held
  -- before.
  pub Reach-IsSound : (b b' : Broker P) → IsSound b → Reach b b' → IsSound b'
  Reach-IsSound b _ h Reach.here = h
  Reach-IsSound b _ h (Reach.next m e r s) = Step-IsSound m e (Reach-IsSound b m h r) s
