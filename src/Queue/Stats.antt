-- ===== src/Queue/Stats.antt =====
-- The accessors of `QueueManager` that report on it.
use distro_sync.Prelude.{ℕ, String, List, map, length}
use distro_sync.Dict.{Dict}
use distro_sync.Task.{Task}
use distro_sync.DeadLetter
use distro_sync.DeadLetter.{DeadLetterQueue}
use distro_sync.Queue.{QueueManager}

pub record Stats : Type 0 where
  pub total_enqueued : ℕ
  pub total_dequeued : ℕ
  pub total_acked : ℕ
  pub total_nacked : ℕ
  pub total_dead_lettered : ℕ
  pub in_flight : ℕ
  pub max_retries : ℕ
  pub queues : List (String × ℕ)
  pub dlq : DeadLetter.Stats

module _ {P : Type 0} where
  unfoldable pub get_all_queue_names : QueueManager P → List String
  get_all_queue_names m = map (λ e. e.0) m.queues

  unfoldable pub in_flight_count : QueueManager P → ℕ
  in_flight_count m = length m.in_flight

  -- a dict here is never shared, so a copy is the dict
  unfoldable pub get_in_flight_tasks : QueueManager P → Dict (Task P)
  get_in_flight_tasks m = m.in_flight

  unfoldable pub get_stats : QueueManager P → Stats
  get_stats m = record {
    total_enqueued = m.total_enqueued;
    total_dequeued = m.total_dequeued;
    total_acked = m.total_acked;
    total_nacked = m.total_nacked;
    total_dead_lettered = m.total_dead_lettered;
    in_flight = length m.in_flight;
    max_retries = m.max_retries;
    queues = map (λ e. (e.0, length e.1)) m.queues;
    dlq = DeadLetter.get_stats m.dead_letter_queue;
  }
