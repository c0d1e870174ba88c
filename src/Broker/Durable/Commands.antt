-- ===== src/Broker/Durable/Commands.antt =====
-- Every command of the dispatch table keeps the queue manager consistent and the store in agreement.
use distro_sync.Prelude.{ℕ, String, ◌≡◌, ◌==◌, if◌then◌else◌, Bool, true, false}
use distro_sync.Queue.Copies.{copies}
use distro_sync.Wal.{Codec}
use distro_sync.Broker.{Broker, Clock, Message, Response, given}
use distro_sync.Broker.Commands.{handle_register, handle_heartbeat}
use distro_sync.Broker.Dispatch.{Context, dispatch}
use distro_sync.Broker.Reports.{handle_stats, handle_metrics}
use distro_sync.Broker.Durable.{IsSafe, require-IsSafe}
use distro_sync.Broker.Durable.Steps.{handle_produce-IsSafe, handle_consume-IsSafe}
use distro_sync.Broker.Durable.Settle.{handle_ack-IsSafe, handle_nack-IsSafe}
use distro_sync.Broker.Durable.DeadLetters.{
  handle_dlq_list-IsSafe, handle_dlq_replay-IsSafe, handle_dlq_purge-IsSafe,
}

module _ {P : Type 0} (c : Codec P) where
  handle_register-IsSafe :
      (address : String × ℕ) (writer : ℕ) (clock : Clock) (msg : Message P) (b : Broker P)
      → IsSafe c b
      → IsSafe c (handle_register address writer clock msg b).0
  unfolding handle_register
  handle_register-IsSafe address writer clock msg b h =
      require-IsSafe c (given msg.worker_id) _ b _ h
        λ w. record { consistent = h.consistent; agrees = h.agrees }

  handle_heartbeat-IsSafe :
      (clock : Clock) (msg : Message P) (b : Broker P)
      → IsSafe c b
      → IsSafe c (handle_heartbeat clock msg b).0
  unfolding handle_heartbeat
  handle_heartbeat-IsSafe clock msg b h =
      require-IsSafe c (given msg.worker_id) _ b _ h
        λ w. record { consistent = h.consistent; agrees = h.agrees }

  if-Safe :
      (t : Bool) (a b : Broker P × Response P)
      → IsSafe c a.0
      → IsSafe c b.0
      → IsSafe c (if t then a else b).0
  if-Safe true a b h k = h
  if-Safe false a b h k = k

  handle_stats-IsSafe :
      (clock : Clock) (b : Broker P) → IsSafe c b → IsSafe c (handle_stats clock b).0
  unfolding handle_stats
  handle_stats-IsSafe clock b h = record { consistent = h.consistent; agrees = h.agrees }

  handle_metrics-IsSafe :
      (clock : Clock) (b : Broker P) → IsSafe c b → IsSafe c (handle_metrics clock b).0
  unfolding handle_metrics
  handle_metrics-IsSafe clock b h = record { consistent = h.consistent; agrees = h.agrees }

  module _ (x : Context) where
    -- Every command, of the dispatch table or unknown, keeps the queue manager consistent (no id
    -- in two places) and the store, if there is one, in agreement with it: the store would recover
    -- exactly the tasks that wait or are in flight. The id that `uuid4` offers must be one that no
    -- task has.
    pub dispatch-IsSafe :
        (msg : Message P) (b : Broker P)
        → IsSafe c b
        → copies x.uuid b.queue_manager ≡ 0
        → IsSafe c (dispatch c x msg b).0
    unfolding dispatch
    dispatch-IsSafe msg b h fresh = require-IsSafe c (given msg.command) _ b _ h λ name.
        if-Safe (name == "PRODUCE") _ _ (handle_produce-IsSafe c x.uuid x.clock msg b h fresh) (
          if-Safe (name == "CONSUME") _ _ (handle_consume-IsSafe c x.clock msg b h) (
            if-Safe (name == "REGISTER") _ _
              (handle_register-IsSafe x.address x.writer x.clock msg b h)
              (if-Safe (name == "HEARTBEAT") _ _ (handle_heartbeat-IsSafe x.clock msg b h) (
                if-Safe (name == "ACK") _ _ (handle_ack-IsSafe c x.clock msg b h) (
                  if-Safe (name == "NACK") _ _ (handle_nack-IsSafe c x.clock msg b h) (
                    if-Safe (name == "DLQ_LIST") _ _ (handle_dlq_list-IsSafe c msg b h) (
                      if-Safe (name == "DLQ_REPLAY") _ _
                        (handle_dlq_replay-IsSafe c x.uuid x.clock msg b h fresh)
                        (if-Safe (name == "DLQ_PURGE") _ _ (handle_dlq_purge-IsSafe c msg b h) (
                          if-Safe (name == "STATS") _ _ (handle_stats-IsSafe x.clock b h) (
                            if-Safe (name == "METRICS") _ _ (handle_metrics-IsSafe x.clock b h)
                              h))))))))))
