-- ===== src/Executor/Pool.antt =====
-- `ProcessPoolWorker` of worker/task_executor.py: the worker whose executions run in a pool of
-- processes. The pool itself is the operating system's: what is modelled is whether it is there.
pub mod Shutdown
use distro_sync.Prelude.{
  ℕ, String, ◌≡◌, refl, Bool, true, false, Option, none, some, List, [], ◌∷◌, ◌++◌, if◌then◌else◌,
}
use distro_sync.Dict.{is_some}
use distro_sync.Broker.{Message}
use distro_sync.Worker
use distro_sync.Worker.{BaseWorker, Answer, Phase, Event, step}

pub data Pool : Type 0 where
  missing : Pool
  running : ℕ → Pool
  shut_down : Pool

pub record ProcessPoolWorker (P : Type 0) : Type 0 where
  pub worker : BaseWorker P
  pub max_workers : ℕ
  pub executor : Pool

-- `ProcessPoolWorker(queue_name, worker_id=…, max_workers=…)`
abbrev pub init : {P : Type 0} → String → String → ℕ → ProcessPoolWorker P
init id q n = record { worker = Worker.init id q; max_workers = n; executor = Pool.missing }

-- the consume loop has ended, with an exception or without
abbrev pub is_over : {P : Type 0} → Phase P → Bool
is_over Phase.returned = true
is_over Phase.raised = true
is_over other = false

-- the `finally`, once the loop has ended
abbrev pub shut_down_if : Bool → Pool → Pool
shut_down_if true pool = Pool.shut_down
shut_down_if false pool = pool

-- The task function is the one that is given, or `cpu_bound_task`; one that raises has no result.
module _ {P R : Type 0} (task_func : P → Option R) where
  -- `run_in_executor`: a pool that is shut down takes no task, and without one the default executor
  -- of the event loop does
  abbrev pub execute : Pool → P → Option R
  execute Pool.shut_down p = none
  execute other p = task_func p

  module _ {S : Type 0} (ask : S → Message P → S × Answer P) where
    abbrev pub base_run : Pool → List Event → BaseWorker P × S → BaseWorker P × S
    base_run pool es x =
        Worker.run ask (λ p. is_some (execute pool p)) es
          (Worker.connect ask (λ p. is_some (execute pool p)) x)

    unfoldable pub run : List Event → ProcessPoolWorker P × S → ProcessPoolWorker P × S
    run es (w, s) =
        let pool = Pool.running w.max_workers in
        let (b, s') = base_run pool es (w.worker, s) in
        (record w { worker = b; executor = shut_down_if (is_over b.phase) pool }, s')
