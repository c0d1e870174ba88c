-- ===== src/Worker.antt =====
-- worker/base_worker.py. The lock makes each `_send` one step, so what can come between the sends of
-- the consume loop is heartbeats and `shutdown`: a run is a list of such events, and the loop's
-- place between two of them is a phase. The broker is a function that answers a message.
pub mod Shutdown
use distro_sync.Prelude.{
  ℕ, ◌+◌, String, Bool, true, false, Option, none, some, List, [], ◌∷◌, if◌then◌else◌,
}
use distro_sync.Queue.{Delivery}
use distro_sync.Broker.{Message}

-- The responses, as the worker tells them apart; `lost` is an exception of `_send`.
pub data Answer (P : Type 0) : Type 0 where
  delivered : Delivery P → Answer P
  empty ok refused lost : Answer P

-- Before a CONSUME; with a task that is executed next; after an execution or an ACK that raised;
-- after the `finally` of `run`, which re-raises an exception or does not.
pub data Phase (P : Type 0) : Type 0 where
  polling : Phase P
  holding : Delivery P → Phase P
  failing : Delivery P → Phase P
  returned : Phase P
  raised : Phase P

pub record BaseWorker (P : Type 0) : Type 0 where
  pub worker_id : String
  pub queue_name : String
  pub connected : Bool
  pub running : Bool
  pub tasks_completed : ℕ
  pub tasks_failed : ℕ
  pub phase : Phase P

pub data Event : Type 0 where
  loop : Event
  heartbeat : Event
  shutdown : Event

pub record Stats : Type 0 where
  pub worker_id : String
  pub queue_name : String
  pub connected : Bool
  pub running : Bool
  pub tasks_completed : ℕ
  pub tasks_failed : ℕ

-- `BaseWorker(queue_name, worker_id=…)`
abbrev pub init : {P : Type 0} → String → String → BaseWorker P
init id q = record {
  worker_id = id;
  queue_name = q;
  connected = false;
  running = false;
  tasks_completed = 0;
  tasks_failed = 0;
  phase = Phase.polling;
}

module _ {P : Type 0} where
  abbrev pub message : String → String → Message P
  message command worker_id = record {
    command = some command;
    queue = none;
    task = none;
    worker_id = some worker_id;
    task_id = none;
    queues = none;
    limit = none;
  }

  abbrev pub register_message : BaseWorker P → Message P
  register_message w = record (message "REGISTER" w.worker_id) { queues = some (w.queue_name ∷ []) }

  abbrev pub heartbeat_message : BaseWorker P → Message P
  heartbeat_message w = message "HEARTBEAT" w.worker_id

  abbrev pub consume_message : BaseWorker P → Message P
  consume_message w = record (message "CONSUME" w.worker_id) { queue = some w.queue_name }

  abbrev pub ack_message : Delivery P → BaseWorker P → Message P
  ack_message d w = record (message "ACK" w.worker_id) {
    task_id = some d.task_id;
    queue = some w.queue_name;
  }

  -- the broker does not read the error's text
  abbrev pub nack_message : Delivery P → BaseWorker P → Message P
  nack_message d w = record (ack_message d w) { command = some "NACK" }

  -- the `finally` of `run`
  abbrev pub leave : Phase P → BaseWorker P → BaseWorker P
  leave phase w = record w { running = false; connected = false; phase = phase }

  abbrev pub after_register : Answer P → BaseWorker P → BaseWorker P
  after_register Answer.ok w = record w { running = true }
  after_register (Answer.delivered d) w = record w { running = true }
  after_register other w = record w { phase = Phase.raised }

  -- a success without a task raises a KeyError
  abbrev pub after_consume : Answer P → BaseWorker P → BaseWorker P
  after_consume (Answer.delivered d) w = record w { phase = Phase.holding d }
  after_consume Answer.ok w = leave Phase.raised w
  after_consume Answer.lost w = leave Phase.raised w
  after_consume other w = w

  -- an ACK that raises is caught like an execution that raises
  abbrev pub after_ack : Delivery P → Answer P → BaseWorker P → BaseWorker P
  after_ack d Answer.lost w = record w { phase = Phase.failing d }
  after_ack d other w = record w { tasks_completed = w.tasks_completed + 1; phase = Phase.polling }

  abbrev pub after_nack : Answer P → BaseWorker P → BaseWorker P
  after_nack Answer.lost w = leave Phase.raised w
  after_nack other w = record w { tasks_failed = w.tasks_failed + 1; phase = Phase.polling }

  unfoldable pub get_stats : BaseWorker P → Stats
  get_stats w = record {
    worker_id = w.worker_id;
    queue_name = w.queue_name;
    connected = w.connected;
    running = w.running;
    tasks_completed = w.tasks_completed;
    tasks_failed = w.tasks_failed;
  }

-- what the answer makes of the worker
abbrev pub answered :
    {S P : Type 0}
    → (Answer P → BaseWorker P → BaseWorker P)
    → BaseWorker P
    → S × Answer P
    → BaseWorker P × S
answered f w (s, a) = (f a w, s)

module _ {S P : Type 0} (ask : S → Message P → S × Answer P) (execute : P → Bool) where
  -- `connect`, once there is a connection, and `self._running = True` of `run`
  unfoldable pub connect : BaseWorker P × S → BaseWorker P × S
  connect (w, s) =
      answered after_register (record w { connected = true }) (ask s (register_message w))

  -- the next send of the loop
  abbrev pub loop_at : Phase P → BaseWorker P → S → BaseWorker P × S
  loop_at Phase.polling w s =
      if w.running
      then answered after_consume w (ask s (consume_message w))
      else (leave Phase.returned w, s)
  loop_at (Phase.holding d) w s =
      if execute d.payload
      then answered (after_ack d) w (ask s (ack_message d w))
      else (record w { phase = Phase.failing d }, s)
  loop_at (Phase.failing d) w s = answered after_nack w (ask s (nack_message d w))
  loop_at Phase.returned w s = (w, s)
  loop_at Phase.raised w s = (w, s)

  unfoldable pub step : Event → BaseWorker P × S → BaseWorker P × S
  step Event.loop (w, s) = loop_at w.phase w s
  step Event.heartbeat (w, s) = if w.running then (w, (ask s (heartbeat_message w)).0) else (w, s)
  step Event.shutdown (w, s) = (record w { running = false }, s)

  unfoldable pub run : List Event → BaseWorker P × S → BaseWorker P × S
  unfolding step
  run [] x = x
  run (e ∷ es) x = run es (step e x)
