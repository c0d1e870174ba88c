-- ===== src/Registry/Loop.antt =====
-- `start_eviction_loop` and `stop_eviction_loop` of broker/worker_registry.py, by the times at which
-- the loop wakes up and by what the other coroutines do while it sleeps.
pub mod Spares
pub mod Detects
use distro_sync.Prelude.{ℕ, ◌+◌, ◌≤◌, true, false, List, [], ◌∷◌, if◌then◌else◌}
use distro_sync.Queue.{QueueManager}
use distro_sync.Registry.{WorkerRegistry, evict_dead_workers}

-- the sleep of the loop
abbrev pub check_interval : ℕ
check_interval = 2000

-- `await asyncio.sleep(2)`: the handlers that run meanwhile change the state in any way, and then
-- the loop wakes up.
pub record Sleep (P : Type 0) : Type 0 where
  pub meanwhile : WorkerRegistry × QueueManager P → WorkerRegistry × QueueManager P
  pub now : ℕ

module _ {P : Type 0} where
  -- the loop from a sleep on; the test after the sleep and that of the `while` are one, as a round
  -- does not suspend
  unfoldable pub eviction_loop :
      List (Sleep P) → WorkerRegistry × QueueManager P → WorkerRegistry × QueueManager P
  eviction_loop [] s = s
  eviction_loop (sleep ∷ sleeps) s =
      let (r, m) = sleep.meanwhile s in
      let rest = eviction_loop sleeps (evict_dead_workers sleep.now r m) in
      if r.running then rest else (r, m)

  unfoldable pub start_eviction_loop :
      List (Sleep P) → WorkerRegistry × QueueManager P → WorkerRegistry × QueueManager P
  start_eviction_loop sleeps (r, m) = eviction_loop sleeps (record r { running = true }, m)

unfoldable pub stop_eviction_loop : WorkerRegistry → WorkerRegistry
stop_eviction_loop r = record r { running = false }
