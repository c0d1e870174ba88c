-- ===== src/DeadLetter.antt =====
-- `DeadLetterQueue` of broker/dead_letter.py: an insertion-ordered dict of the tasks that have
-- failed for good. `retry`, which also writes to the queue manager, is in Queue.antt.
use distro_sync.Prelude.{
  ℕ, ◌+◌, String, Bool, true, false, Option, none, some, List, [], map, length, take,
}
use distro_sync.Dict.{Dict, lookup, insert, erase}
use distro_sync.Task.{Status, Task}

pub record DeadLetterQueue (P : Type 0) : Type 0 where
  pub tasks : Dict (Task P)
  pub total_received : ℕ
  pub total_retried : ℕ
  pub total_purged : ℕ

-- What `peek` tells of a task.
pub record Summary (P : Type 0) : Type 0 where
  pub task_id : String
  pub queue_name : String
  pub payload : P
  pub attempts : ℕ
  pub status : Status
  pub dead_lettered_at : Option ℕ

pub record Stats : Type 0 where
  pub current_size : ℕ
  pub total_received : ℕ
  pub total_retried : ℕ
  pub total_purged : ℕ

module _ {P : Type 0} where
  abbrev pub empty : DeadLetterQueue P
  empty = record { tasks = []; total_received = 0; total_retried = 0; total_purged = 0 }

  abbrev pub bury : ℕ → Task P → Task P
  bury now t = record t { status = Status.dead_lettered; dead_lettered_at = some now }

  unfoldable pub add : ℕ → Task P → DeadLetterQueue P → DeadLetterQueue P
  add now t d = record d {
    tasks = insert t.task_id (bury now t) d.tasks;
    total_received = d.total_received + 1;
  }

  abbrev pub summary : Task P → Summary P
  summary t = record {
    task_id = t.task_id;
    queue_name = t.queue_name;
    payload = t.payload;
    attempts = t.attempts;
    status = t.status;
    dead_lettered_at = t.dead_lettered_at;
  }

  unfoldable pub peek : ℕ → DeadLetterQueue P → List (Summary P)
  peek limit d = map (λ e. summary e.1) (take limit d.tasks)

  unfoldable pub remove : String → DeadLetterQueue P → DeadLetterQueue P × Bool
  remove id d = elim (lookup id d.tasks) [
    | none ↦ (d, false)
    | some t ↦ (record d { tasks = erase id d.tasks }, true)
  ]

  unfoldable pub purge : DeadLetterQueue P → DeadLetterQueue P × ℕ
  purge d =
      (record d { tasks = []; total_purged = d.total_purged + length d.tasks }, length d.tasks)

  unfoldable pub count : DeadLetterQueue P → ℕ
  count d = length d.tasks

  unfoldable pub get_stats : DeadLetterQueue P → Stats
  get_stats d = record {
    current_size = length d.tasks;
    total_received = d.total_received;
    total_retried = d.total_retried;
    total_purged = d.total_purged;
  }
