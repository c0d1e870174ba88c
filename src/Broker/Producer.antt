-- ===== src/Broker/Producer.antt =====
-- A producer of producer/client.py that is alone with the broker: what its PRODUCE commands meet.
pub mod Accepted
use Prim.Native.String.{◌++◌}
use distro_sync.Prelude.{ℕ, ◌+◌, String, Option, none, some}
use distro_sync.Producer
use distro_sync.Producer.{Answer}
use distro_sync.Wal.{Codec}
use distro_sync.Broker.{Broker, Clock, Message, Reason, Response}
use distro_sync.Broker.Dispatch.{Context, dispatch}

-- the field `reason` of the responses
abbrev pub reason_text : Reason → String
reason_text Reason.missing_command = "Missing 'command' field"
reason_text Reason.missing_queue = "Missing 'queue' field"
reason_text Reason.missing_task = "Missing 'task' field"
reason_text Reason.missing_worker_id = "Missing 'worker_id' field"
reason_text Reason.missing_task_id = "Missing 'task_id' field"
reason_text Reason.message_too_large = "Message too large"
reason_text Reason.invalid_json = "Invalid JSON"
reason_text (Reason.unknown_command name) = "Unknown command: " ++ name
reason_text (Reason.unknown_worker w) = "Unknown worker: " ++ w
reason_text (Reason.not_in_flight id) = "Task " ++ id ++ " not found in-flight"
reason_text (Reason.not_in_dlq id) = "Task " ++ id ++ " not found in DLQ"

-- What the producer makes of a response; the others are not given to a PRODUCE.
abbrev pub answer_of : {P : Type 0} → Response P → Answer
answer_of (Response.produced id) = Answer.ok id
answer_of (Response.rate_limited hint) = Answer.rate_limited (some hint)
answer_of (Response.error reason) = Answer.error (reason_text reason)
answer_of other = Answer.error "Unknown error"

-- The broker, the clocks, and the number of commands that were sent.
pub record Net (P : Type 0) : Type 0 where
  pub broker : Broker P
  pub clock : Clock
  pub sent : ℕ

abbrev pub produce_message : {P : Type 0} → String → P → Message P
produce_message q p = record {
  command = some "PRODUCE";
  queue = some q;
  task = some p;
  worker_id = none;
  task_id = none;
  queues = none;
  limit = none;
}

abbrev pub later : ℕ → Clock → Clock
later d t = record { now = t.now + d; tick = t.tick + d }

-- `latency n` is the time that passes besides the wait before the `n`th command is there; the ids
-- are those of `uuid4`, and `connection` has the address and the writer.
module _ {P : Type 0} (codec : Codec P) (connection : Context) (uuids : ℕ → String)
    (latency : ℕ → ℕ) where
  abbrev pub context : Net P → Context
  context s = record connection { uuid = uuids s.sent; clock = s.clock }

  abbrev pub sleep : ℕ → Net P → Net P
  sleep d s = record s { clock = later (d + latency s.sent) s.clock }

  abbrev pub send : String → P → Net P → Net P × Answer
  send q p s =
      let (b, r) = dispatch codec (context s) (produce_message q p) s.broker in
      (record s { broker = b; sent = s.sent + 1 }, answer_of r)

  -- `produce(queue_name, payload, max_retries)` on the broker
  abbrev pub submit : (Net P → ℕ → ℕ) → String → P → ℕ → Net P → Option (Producer.Trace (Net P))
  submit draws q p max_retries s = Producer.produce sleep draws (send q) p max_retries s
