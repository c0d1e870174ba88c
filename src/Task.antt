-- ===== src/Task.antt =====
-- The unit of work: `Task` of broker/queue_manager.py, over any type of payloads (the producers'
-- JSON objects, which the broker never looks into). A time is a number of milliseconds.
use distro_sync.Prelude.{ℕ, String, Option, none}

pub data Status : Type 0 where
  pending in_flight done failed dead_lettered : Status

pub record Task (P : Type 0) : Type 0 where
  pub task_id : String
  pub queue_name : String
  pub payload : P
  pub status : Status
  pub created_at : ℕ
  pub assigned_worker : Option String
  pub attempts : ℕ
  -- set by the dead letter queue only; `getattr(task, "dead_lettered_at", None)`
  pub dead_lettered_at : Option ℕ

-- `Task(task_id=…, queue_name=…, payload=…)`: the other fields have the dataclass's defaults, and
-- `now` is the clock that `created_at` reads.
abbrev pub new_task : {P : Type 0} → String → String → P → ℕ → Task P
new_task id q p now = record {
  task_id = id;
  queue_name = q;
  payload = p;
  status = Status.pending;
  created_at = now;
  assigned_worker = none;
  attempts = 0;
  dead_lettered_at = none;
}
