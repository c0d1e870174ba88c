-- ===== src/Registry/Loop/Spares.antt =====
-- A worker that sends no more heartbeats, and what the handlers of other commands leave of it.
use distro_sync.Prelude.{ℕ, String, ◌≡◌, true, false, some, ◌==◌, Option-cases, inl, inr}
use distro_sync.Dict.{IsDict, lookup}
use distro_sync.Dict.Laws.{lookup-insert, lookup-insert_self, insert-IsDict}
use distro_sync.Registry.{WorkerInfo, WorkerRegistry, beat, assign, record_heartbeat, assign_task}

-- The loop runs, and the worker is registered, with that time of its last heartbeat.
pub record IsWatched (w : String) (last : ℕ) (r : WorkerRegistry) : Type 0 where
  pub distinct : IsDict r.workers
  pub running : r.running ≡ true
  pub info : WorkerInfo
  pub found : lookup w r.workers ≡ some info
  pub silent : info.last_heartbeat ≡ last

module _ (w : String) (last : ℕ) (r : WorkerRegistry) (h : IsWatched w last r) where
  -- another worker's heartbeat
  pub record_heartbeat-IsWatched :
      (v : String) (now : ℕ) → (v == w) ≡ false → IsWatched w last (record_heartbeat v now r).0
  unfolding record_heartbeat
  record_heartbeat-IsWatched v now other = elim (Option-cases (lookup v r.workers)) [
    | inl unknown ↦ rw (record_heartbeat, unknown) h
    | inr (i, e) ↦
        rw (record_heartbeat, e)
          (record {
            distinct = insert-IsDict v (beat now i) r.workers h.distinct;
            running = h.running;
            info = h.info;
            found = rw (lookup-insert, other) h.found;
            silent = h.silent;
          })
  ]

  -- a task that the worker still takes
  pub assign_task-IsWatched : (id : String) (tick : ℕ) → IsWatched w last (assign_task w id tick r)
  unfolding assign_task
  assign_task-IsWatched id tick =
      rw (assign_task, h.found)
        (record {
          distinct = insert-IsDict w (assign id tick h.info) r.workers h.distinct;
          running = h.running;
          info = assign id tick h.info;
          found = lookup-insert_self w (assign id tick h.info) r.workers;
          silent = h.silent;
        })
