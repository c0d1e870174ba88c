-- ===== src/Queue.antt =====
-- `QueueManager` of broker/queue_manager.py, method by method, and the `retry` of
-- broker/dead_letter.py. A method takes the state last and returns the new one. No method
-- suspends inside its critical section, so one call is one step; `uuid4` and the clock are
-- arguments.
pub mod Stats
pub mod Counters
pub mod Copies
pub mod Run
pub mod Views
pub mod Everywhere
use distro_sync.Prelude.{
  ℕ, ◌+◌, String, Bool, true, false, Option, none, some, List, [], ◌∷◌, ◌++◌, map, length, get_or,
  ◌==◌, leb, if◌then◌else◌,
}
use distro_sync.Dict.{Dict, lookup, insert, erase, is_some}
use distro_sync.Task.{Status, Task, new_task}
use distro_sync.DeadLetter
use distro_sync.DeadLetter.{DeadLetterQueue}

pub record QueueManager (P : Type 0) : Type 0 where
  pub queues : Dict (List (Task P))
  pub in_flight : Dict (Task P)
  pub completed : Dict (Task P)
  pub dead_letter_queue : DeadLetterQueue P
  pub max_retries : ℕ
  pub total_enqueued : ℕ
  pub total_dequeued : ℕ
  pub total_acked : ℕ
  pub total_nacked : ℕ
  pub total_dead_lettered : ℕ

-- The dict that `dequeue` returns.
pub record Delivery (P : Type 0) : Type 0 where
  pub task_id : String
  pub queue_name : String
  pub payload : P
  pub attempts : ℕ

-- The `action` of a NACK.
pub data Action : Type 0 where
  requeued dead_lettered : Action

pub record Outcome : Type 0 where
  pub action : Action
  pub task_id : String
  pub attempts : ℕ
  pub queue_name : String

module _ {P : Type 0} where
  -- `QueueManager(max_retries=n)`
  abbrev pub init : ℕ → QueueManager P
  init n = record {
    queues = [];
    in_flight = [];
    completed = [];
    dead_letter_queue = DeadLetter.empty;
    max_retries = n;
    total_enqueued = 0;
    total_dequeued = 0;
    total_acked = 0;
    total_nacked = 0;
    total_dead_lettered = 0;
  }

  -- The dead letter queue has a `_tasks`, so the first branch of `reset` is the one that runs.
  unfoldable pub reset : QueueManager P → QueueManager P
  reset m = record m {
    queues = [];
    in_flight = [];
    completed = [];
    dead_letter_queue = record m.dead_letter_queue { tasks = [] };
    total_enqueued = 0;
    total_dequeued = 0;
    total_acked = 0;
    total_nacked = 0;
    total_dead_lettered = 0;
  }

  -- nothing is written if the name is there
  unfoldable pub ensured : String → Dict (List (Task P)) → Dict (List (Task P))
  ensured q d = if is_some (lookup q d) then d else insert q [] d

  unfoldable pub ensure_queue : String → QueueManager P → QueueManager P
  ensure_queue q m = record m { queues = ensured q m.queues }

  -- `self._queues.get(q, deque())`; after `_ensure_queue` it is `self._queues[q]`
  abbrev pub queue : String → QueueManager P → List (Task P)
  queue q m = get_or [] (lookup q m.queues)

  abbrev pub put_queue : String → List (Task P) → QueueManager P → QueueManager P
  put_queue q ts m = record m { queues = insert q ts m.queues }

  unfoldable pub append : Task P → QueueManager P → QueueManager P
  unfolding ensure_queue
  append t m =
      let m' = ensure_queue t.queue_name m in
      put_queue t.queue_name (queue t.queue_name m' ++ t ∷ []) m'

  unfoldable pub appendleft : Task P → QueueManager P → QueueManager P
  unfolding ensure_queue
  appendleft t m =
      let m' = ensure_queue t.queue_name m in put_queue t.queue_name (t ∷ queue t.queue_name m') m'

  abbrev pub count_enqueued : QueueManager P → QueueManager P
  count_enqueued m = record m { total_enqueued = m.total_enqueued + 1 }

  unfoldable pub enqueue : String → P → String → ℕ → QueueManager P → QueueManager P × String
  enqueue q p id now m = (count_enqueued (append (new_task id q p now) m), id)

  abbrev pub recovered : String → String → P → ℕ → ℕ → Task P
  recovered q id p attempts now = record (new_task id q p now) { attempts = attempts }

  unfoldable pub enqueue_recovered :
      String → String → P → ℕ → ℕ → QueueManager P → QueueManager P × String
  enqueue_recovered q id p attempts now m =
      (count_enqueued (append (recovered q id p attempts now) m), id)

  -- the `for` loop of `dequeue("*", …)`
  unfoldable pub first_nonempty : Dict (List (Task P)) → Option String
  first_nonempty [] = none
  first_nonempty ((q, []) ∷ d) = first_nonempty d
  first_nonempty ((q, t ∷ ts) ∷ d) = some q

  abbrev pub deliver : Task P → Delivery P
  deliver t = record {
    task_id = t.task_id;
    queue_name = t.queue_name;
    payload = t.payload;
    attempts = t.attempts;
  }

  abbrev pub start : String → Task P → Task P
  start w t = record t {
    status = Status.in_flight;
    assigned_worker = some w;
    attempts = t.attempts + 1;
  }

  abbrev pub take_first :
      String → String → List (Task P) → QueueManager P → QueueManager P × Option (Delivery P)
  take_first q w [] m = (m, none)
  take_first q w (t ∷ ts) m = (
    record m {
      queues = insert q ts m.queues;
      in_flight = insert t.task_id (start w t) m.in_flight;
      total_dequeued = m.total_dequeued + 1;
    },
    some (deliver (start w t)),
  )

  unfoldable pub popleft : String → String → QueueManager P → QueueManager P × Option (Delivery P)
  popleft q w m = take_first q w (queue q m) m

  -- `if not target_q` is also true of the queue whose name is empty
  abbrev pub pop_target :
      Option String → String → QueueManager P → QueueManager P × Option (Delivery P)
  pop_target none w m = (m, none)
  pop_target (some target) w m = if target == "" then (m, none) else popleft target w m

  unfoldable pub dequeue : String → String → QueueManager P → QueueManager P × Option (Delivery P)
  dequeue q w m =
      if q == "*" then pop_target (first_nonempty m.queues) w m else popleft q w (ensure_queue q m)

  abbrev pub finish : Task P → Task P
  finish t = record t { status = Status.done }

  abbrev pub acknowledged : String → Task P → QueueManager P → QueueManager P
  acknowledged id t m = record m {
    in_flight = erase id m.in_flight;
    completed = insert id (finish t) m.completed;
    total_acked = m.total_acked + 1;
  }

  unfoldable pub acknowledge : String → QueueManager P → QueueManager P × Bool
  acknowledge id m = elim (lookup id m.in_flight) [
    | none ↦ (m, false)
    | some t ↦ (acknowledged id t m, true)
  ]

  abbrev pub release : Task P → Task P
  release t = record t { status = Status.pending; assigned_worker = none }

  abbrev pub dead_letter : ℕ → Task P → QueueManager P → QueueManager P
  dead_letter now t m = record m {
    total_dead_lettered = m.total_dead_lettered + 1;
    dead_letter_queue =
        DeadLetter.add now (record t { status = Status.dead_lettered }) m.dead_letter_queue;
  }

  abbrev pub outcome : Action → Task P → Outcome
  outcome a t = record {
    action = a;
    task_id = t.task_id;
    attempts = t.attempts;
    queue_name = t.queue_name;
  }

  abbrev pub nacked : String → QueueManager P → QueueManager P
  nacked id m = record m { in_flight = erase id m.in_flight; total_nacked = m.total_nacked + 1 }

  unfoldable pub negative_acknowledge :
      String → ℕ → QueueManager P → QueueManager P × Option Outcome
  negative_acknowledge id now m = elim (lookup id m.in_flight) [
    | none ↦ (m, none)
    | some t ↦
        if leb m.max_retries t.attempts
        then (dead_letter now t (nacked id m), some (outcome Action.dead_lettered t))
        else (appendleft (release t) (nacked id m), some (outcome Action.requeued t))
  ]

  unfoldable pub requeue : Task P → Bool → QueueManager P → QueueManager P
  requeue t front m = if front then appendleft (release t) m else append (release t) m

  abbrev pub taken_out : String → QueueManager P → QueueManager P
  taken_out id m = record m { in_flight = erase id m.in_flight }

  unfoldable pub requeue_by_id : String → QueueManager P → QueueManager P × Bool
  requeue_by_id id m = elim (lookup id m.in_flight) [
    | none ↦ (m, false)
    | some t ↦ (appendleft (release t) (taken_out id m), true)
  ]

  abbrev pub restart : Task P → Task P
  restart t = record (release t) { attempts = 0 }

  abbrev pub take_dead : String → QueueManager P → QueueManager P
  take_dead id m = record m {
    dead_letter_queue = record m.dead_letter_queue {
      tasks = erase id m.dead_letter_queue.tasks;
      total_retried = m.dead_letter_queue.total_retried + 1;
    };
  }

  -- `DeadLetterQueue.retry(task_id, queue_manager)`
  unfoldable pub retry : String → QueueManager P → QueueManager P × Bool
  unfolding requeue
  retry id m = elim (lookup id m.dead_letter_queue.tasks) [
    | none ↦ (m, false)
    | some t ↦ (requeue (restart t) false (take_dead id m), true)
  ]

  unfoldable pub queue_depth : String → QueueManager P → ℕ
  queue_depth q m = length (queue q m)
