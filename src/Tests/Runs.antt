-- ===== src/Tests/Runs.antt =====
-- Runs of the broker over several steps.
use distro_sync.Prelude.{◌≡◌, ◌≢◌, ◌⊎◌, refl, some, arith, String, sum}
use distro_sync.Queue.{
  Delivery, append, ensure_queue, ensured, queue_depth, enqueue, acknowledge, dequeue, popleft,
  requeue_by_id, appendleft,
}
use distro_sync.Registry.{
  evict_dead_workers, requeue_workers, dead_workers, requeue_tasks, average_latency_ms,
  complete_task, record_latencies, record_latency,
}
use distro_sync.Shedder.{check_and_consume, check_at, compute_adjusted_rate}
use distro_sync.Broker.Commands.{handle_produce, accept, handle_ack, handle_consume}
use distro_sync.Queue.Copies.{copies, queued, occurs}
use distro_sync.Dict.{lookup, insert, erase}
use distro_sync.Wal.{WalStore}
use distro_sync.Broker.{Broker, Clock, Message, Response}
use distro_sync.Broker.Admin.{evict}
use distro_sync.Broker.Dispatch.{dispatch}
use distro_sync.Broker.Durable.Reach.{Step, Reach}
use distro_sync.Broker.Durable.Fate.Reach.{Fate, dispatch-Fate}
use distro_sync.Broker.Durable.Once.Acknowledged.{dispatch-delivers_once}
use distro_sync.Tests.Storage.{codec, store, broker, message, context, manager}
use distro_sync.Producer.{Result}
use distro_sync.Producer.Loop.{Ends}
use distro_sync.Broker.Producer.{Net, submit}
use distro_sync.Broker.Producer.Accepted.{IsLast, submit-accepted}
use distro_sync.Tests.Limits.{fresh-IsSound}
use distro_sync.Tests.Network.{broker-IsSound}

abbrev produced : Broker String
produced = (dispatch codec context message broker).0

abbrev late : Clock
late = record { now = 90_000; tick = 90_000 }

-- a purge is a command that the first run has not; a list of the dead letters is one that it has
abbrev list_dead : Message String
list_dead = record message { command = some "DLQ_LIST" }

abbrev listed : Broker String
listed = (dispatch codec (record context { uuid = "v" }) list_dead (evict late produced)).0

answered : (dispatch codec context message broker).1 ≡ Response.produced "u"
unfolding dispatch handle_produce check_and_consume check_at lookup compute_adjusted_rate
    queue_depth average_latency_ms accept enqueue
answered = refl

new : copies "v" (evict late produced).queue_manager ≡ 0
unfolding copies queued occurs dispatch handle_produce check_and_consume check_at lookup
    compute_adjusted_rate queue_depth average_latency_ms accept enqueue append ensure_queue ensured
    insert erase evict evict_dead_workers requeue_workers dead_workers requeue_tasks requeue_by_id
    appendleft
new = refl

dispatch-Fate_example : (s : WalStore) × (listed.wal_store ≡ some s) × Fate codec "u" listed s
unfolding copies queued occurs lookup
dispatch-Fate_example =
    dispatch-Fate codec context message broker store "u" listed broker-IsSound (ground arith) refl
      refl answered
      (Reach.next (evict late produced) listed
        (Reach.next produced (evict late produced) Reach.here
          (Step.eviction late produced (evict late produced) refl))
        (Step.command (record context { uuid = "v" }) list_dead (evict late produced) listed new
          refl))
      ((tt, tt), refl)

abbrev ack : Message String
ack = record message { command = some "ACK"; task_id = some "t"; worker_id = some "w" }

abbrev consume : Message String
consume = record message { command = some "CONSUME"; worker_id = some "w" }

abbrev acknowledged : Broker String
acknowledged = (dispatch codec context ack broker).0

abbrev refilled : Broker String
refilled = (dispatch codec context message acknowledged).0

abbrev next_one : Delivery String
next_one = record { task_id = "u"; queue_name = "q"; payload = "new payload"; attempts = 1 }

removed : (dispatch codec context ack broker).1 ≡ Response.acknowledged "t"
unfolding dispatch handle_ack acknowledge lookup
removed = refl

free : copies "u" acknowledged.queue_manager ≡ 0
unfolding copies queued occurs lookup dispatch handle_ack acknowledge erase insert
free = refl

delivered : (dispatch codec context consume refilled).1 ≡ Response.delivered next_one
unfolding dispatch handle_produce check_and_consume check_at lookup compute_adjusted_rate
    queue_depth average_latency_ms accept enqueue append ensure_queue ensured insert erase
    handle_ack acknowledge handle_consume dequeue popleft complete_task record_latencies
    record_latency sum
delivered = refl

dispatch-delivers_once_example : next_one.task_id ≢ "t"
unfolding copies queued occurs lookup
dispatch-delivers_once_example =
    dispatch-delivers_once codec context context ack consume broker refilled "t" next_one
      broker-IsSound (ground arith) refl removed
      (Reach.next acknowledged refilled Reach.here
        (Step.command context message acknowledged refilled free refl))
      (tt, refl) refl delivered

-- a command takes 5 ms, and the wait is as long as the hint
abbrev net : Net String
net = record { broker = broker; clock = context.clock; sent = 0 }

submit-accepted_example :
    let r = submit codec context (λ n. "u") (λ n. 5) (λ s c. 0) "q" "payload" 10 net in
    Ends (Result.submitted "u") (IsLast "q" "payload" manager "u") 0 r
    ⊎ Ends (Result.submitted "u") (IsLast "q" "payload" manager "u") 1 r
submit-accepted_example =
    submit-accepted codec context (λ n. "u") (λ n. 5) "q" "payload" refl (λ s c. 0) 10 net
      (λ s c. omega arith) fresh-IsSound (omega arith)
