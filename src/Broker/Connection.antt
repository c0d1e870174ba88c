-- ===== src/Broker/Connection.antt =====
-- `handle_connection` of broker/server.py: the loop that reads the messages of a connection. The
-- stream is everything that the client sends before it disconnects. Each round takes the context
-- that its command will have; where the contexts run out, the connection is still open.
pub mod Sound
pub mod Serves
pub mod Ends
pub mod Call
use distro_sync.Prelude.{ℕ, ◌+◌, ◌-◌, Option, none, some, List, [], ◌∷◌, ◌++◌, if◌then◌else◌, ltb}
use distro_sync.Wal.{Codec}
use distro_sync.Wire.{from_bytes, readexactly, frame}
use distro_sync.Broker.{Broker, Message, Reason, Response}
use distro_sync.Broker.Dispatch.{Context, dispatch}

-- How `json.loads(raw_msg.decode("utf-8"))` ends: with an error, with a value that has no fields,
-- which the dispatch raises an exception on, or with an object. The fields of an object have the
-- types that the handlers take, or they make a handler raise an exception, which may come after some
-- of its changes: those are given here, as the types of Python are not modelled.
pub data Parsed (P : Type 0) : Type 0 where
  invalid : Parsed P
  no_object : Parsed P
  object : Message P → Parsed P
  ill_typed : (Broker P → Broker P) → Parsed P

-- The end of the loop: the client is gone, the length was too large, or an exception.
pub data End : Type 0 where
  serving : End
  disconnected : End
  oversized : End
  failed : End

pub record Session (P : Type 0) : Type 0 where
  pub broker : Broker P
  pub written : List ℕ
  pub end : End

abbrev pub stop : {P : Type 0} → End → Broker P → Session P
stop end b = record { broker = b; written = []; end = end }

-- `writer.write`, before the rest of the session
abbrev pub write : {P : Type 0} → List ℕ → Session P → Session P
write w s = record s { written = w ++ s.written }

-- the `finally`
abbrev pub closed : {P : Type 0} → End → Broker P → Broker P
closed End.serving b = b
closed other b = record b { active_connections = b.active_connections - 1 }

abbrev pub clean_up : {P : Type 0} → Session P → Session P
clean_up s = record s { broker = closed s.end s.broker }

abbrev pub opened : {P : Type 0} → Broker P → Broker P
opened b = record b { active_connections = b.active_connections + 1 }

abbrev pub written_or_failed : {P : Type 0} → Option (List ℕ) → Broker P → Session P → Session P
written_or_failed none b rest = stop End.failed b
written_or_failed (some w) b rest = write w rest

-- 10 * 1024 * 1024
abbrev pub max_length : ℕ
max_length = 10_485_760

module _ {P : Type 0} (codec : Codec P) (decode : List ℕ → Parsed P)
    (encode : Response P → List ℕ) where
  -- `_send_response`, and what follows it
  abbrev pub send_response : Response P → Broker P → Session P → Session P
  send_response r b rest = written_or_failed (frame (encode r)) b rest

  abbrev pub on_answer :
      (List ℕ → Broker P → Session P) → List ℕ → Broker P × Response P → Session P
  on_answer rest stream (b, r) = send_response r b (rest stream b)

  abbrev pub on_parsed :
      (List ℕ → Broker P → Session P) → Context → List ℕ → Broker P → Parsed P → Session P
  on_parsed rest x stream b Parsed.invalid =
      send_response (Response.error Reason.invalid_json) b (rest stream b)
  on_parsed rest x stream b Parsed.no_object = stop End.failed b
  on_parsed rest x stream b (Parsed.ill_typed changed) = stop End.failed (changed b)
  on_parsed rest x stream b (Parsed.object message) =
      on_answer rest stream (dispatch codec x message b)

  abbrev pub on_message :
      (List ℕ → Broker P → Session P) → Context → Broker P → Option (List ℕ × List ℕ) → Session P
  on_message rest x b none = stop End.disconnected b
  on_message rest x b (some (raw_msg, stream)) = on_parsed rest x stream b (decode raw_msg)

  abbrev pub on_length :
      (List ℕ → Broker P → Session P) → Context → Broker P → Option (List ℕ × List ℕ) → Session P
  on_length rest x b none = stop End.disconnected b
  on_length rest x b (some (raw_len, stream)) =
      if ltb max_length (from_bytes raw_len)
      then send_response (Response.error Reason.message_too_large) b (stop End.oversized b)
      else on_message rest x b (readexactly (from_bytes raw_len) stream)

  -- the `while True`
  unfoldable pub serve : List Context → List ℕ → Broker P → Session P
  serve [] stream b = stop End.serving b
  serve (x ∷ xs) stream b = on_length (λ rest b'. serve xs rest b') x b (readexactly 4 stream)

  unfoldable pub handle_connection : List Context → List ℕ → Broker P → Session P
  unfolding serve
  handle_connection xs stream b = clean_up (serve xs stream (opened b))
