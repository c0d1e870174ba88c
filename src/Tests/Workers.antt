-- ===== src/Tests/Workers.antt =====
-- Runs of broker/worker_registry.py.
use distro_sync.Prelude.{
  ◌≡◌, refl, true, none, some, List, All, [], ◌∷◌, arith, String, if◌then◌else◌, member,
}
use distro_sync.Dict.{IsDict, lookup, erase}
use distro_sync.Queue
use distro_sync.Queue.{QueueManager}
use distro_sync.Registry
use distro_sync.Registry.{
  WorkerInfo, WorkerStatus, WorkerRegistry, new_worker, record_heartbeat, register, dead_workers,
  evict_dead_workers, complete_task, mean, assign_task,
}
use distro_sync.Registry.Evict.{tracked, in_flight-evict_dead_workers, heartbeat_protects}
use distro_sync.Registry.Loop.{Sleep}
use distro_sync.Registry.Loop.Spares.{assign_task-IsWatched, record_heartbeat-IsWatched}
use distro_sync.Registry.Loop.Detects.{IsDetected, Spares, eviction_loop-IsDetected}
use distro_sync.Registry.Register.{register_orphans}
use distro_sync.Tests.Delivery.{task}

abbrev busy : WorkerInfo
busy = record (new_worker "w" ("host", 1) (some ("q" ∷ [])) none 0) {
  in_flight_tasks = "t" ∷ [];
  task_start_times = ("t", 5) ∷ [];
}

abbrev idle : WorkerInfo
idle = new_worker "v" ("host", 2) none none 5000

abbrev pub registry : WorkerRegistry
registry = record Registry.init { workers = ("w", busy) ∷ ("v", idle) ∷ [] }

abbrev manager : QueueManager String
manager = record (Queue.init 3) { in_flight = ("t", Queue.start "w" task) ∷ [] }

registry-IsDict : IsDict registry.workers
unfolding lookup
registry-IsDict = (refl, (refl, tt))

busy-found : lookup "w" registry.workers ≡ some busy
unfolding lookup
busy-found = refl

in_flight-evict_dead_workers_example :
    lookup "t" (evict_dead_workers 7000 registry manager).1.in_flight ≡ (
      if tracked "t" (dead_workers 7000 registry.workers)
      then none
      else lookup "t" manager.in_flight)
in_flight-evict_dead_workers_example = in_flight-evict_dead_workers 7000 registry manager "t"

heartbeat_protects_example :
    lookup "w" (evict_dead_workers 7000 (record_heartbeat "w" 3000 registry).0 manager).0.workers
    ≡ some (record busy { last_heartbeat = 3000; status = WorkerStatus.active })
unfolding lookup
heartbeat_protects_example =
    heartbeat_protects "w" busy 3000 7000 registry manager registry-IsDict refl (omega arith)

register_orphans_example :
    lookup "t"
      (evict_dead_workers 90_000
        (register "w" ("host", 3) none none 100 registry).0
        manager).1.in_flight
    ≡ lookup "t" manager.in_flight
unfolding tracked erase member
register_orphans_example =
    register_orphans "w" "t" ("host", 3) none none 100 90_000 registry manager registry-IsDict refl

-- the loop wakes up every two seconds; the worker takes one more task, and the other one beats
abbrev sleeps : List (Sleep String)
sleeps =
    record { meanwhile = λ s. (assign_task "w" "u" 100 s.0, s.1); now = 2000 }
    ∷ record { meanwhile = λ s. ((record_heartbeat "v" 3000 s.0).0, s.1); now = 4000 }
    ∷ record { meanwhile = λ s. s; now = 6000 }
    ∷ record { meanwhile = λ s. s; now = 8000 }
    ∷ []

sleeps-Spares : All (Spares "w" 0 2000) sleeps
sleeps-Spares = (
  λ s h. assign_task-IsWatched "w" 0 s.0 h "u" 100,
  (λ s h. record_heartbeat-IsWatched "w" 0 s.0 h "v" 3000 refl, (λ s h. h, (λ s h. h, tt))),
)

eviction_loop-IsDetected_example :
    IsDetected "w" 0 2000 sleeps (record registry { running = true }, manager)
eviction_loop-IsDetected_example =
    eviction_loop-IsDetected "w" 0 2000 0 sleeps (record registry { running = true }, manager)
      (record {
        distinct = registry-IsDict;
        running = refl;
        info = busy;
        found = busy-found;
        silent = refl;
      })
      sleeps-Spares (omega arith) (omega arith, (omega arith, (omega arith, (omega arith, tt))))
      (omega arith)
