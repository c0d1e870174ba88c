-- ===== src/Broker/Dispatch.antt =====
-- `_dispatch` of broker/server.py: the table of the commands.
use distro_sync.Prelude.{ℕ, String, ◌==◌, if◌then◌else◌}
use distro_sync.Wal.{Codec}
use distro_sync.Broker.{Broker, Clock, Message, Reason, Response, given, require}
use distro_sync.Broker.Commands.{
  handle_produce, handle_consume, handle_register, handle_heartbeat, handle_ack, handle_nack,
}
use distro_sync.Broker.Admin.{handle_dlq_list, handle_dlq_replay, handle_dlq_purge}
use distro_sync.Broker.Reports.{handle_stats, handle_metrics}

-- What a command takes from outside the message: the next `uuid4`, and the connection.
pub record Context : Type 0 where
  pub uuid : String
  pub clock : Clock
  pub address : String × ℕ
  pub writer : ℕ

module _ {P : Type 0} (codec : Codec P) (x : Context) where
  unfoldable pub run_command : String → Message P → Broker P → Broker P × Response P
  run_command name msg b =
      if name == "PRODUCE"
      then handle_produce codec x.uuid x.clock msg b
      else if name == "CONSUME"
      then handle_consume x.clock msg b
      else if name == "REGISTER"
      then handle_register x.address x.writer x.clock msg b
      else if name == "HEARTBEAT"
      then handle_heartbeat x.clock msg b
      else if name == "ACK"
      then handle_ack x.clock msg b
      else if name == "NACK"
      then handle_nack codec x.clock msg b
      else if name == "DLQ_LIST"
      then handle_dlq_list codec msg b
      else if name == "DLQ_REPLAY"
      then handle_dlq_replay codec x.uuid x.clock msg b
      else if name == "DLQ_PURGE"
      then handle_dlq_purge msg b
      else if name == "STATS"
      then handle_stats x.clock b
      else if name == "METRICS"
      then handle_metrics x.clock b
      else (b, Response.error (Reason.unknown_command name))

  unfoldable pub dispatch : Message P → Broker P → Broker P × Response P
  unfolding run_command
  dispatch msg b =
      require (given msg.command) Reason.missing_command b λ name. run_command name msg b
