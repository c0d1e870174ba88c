-- ===== src/Tests/Network.antt =====
-- Runs of the wire protocol and of whole connections.
use distro_sync.Prelude.{
  ℕ, ◌<◌, ◌≡◌, refl, Bool, true, false, Option, none, some, List, [], ◌∷◌, ◌++◌, map, length,
  get_or, arith, String, eqb, if◌then◌else◌,
}
use distro_sync.Queue.Copies.{copies, queued, occurs}
use distro_sync.Dict.{lookup}
use distro_sync.Http.Text.{codes}
use distro_sync.Broker.Commands.{handle_produce, accept}
use distro_sync.Shedder.{check_and_consume, check_at, compute_adjusted_rate}
use distro_sync.Queue.{queue_depth, enqueue}
use distro_sync.Registry.{average_latency_ms}
use distro_sync.Wire.{to_bytes, frame, read_frame}
use distro_sync.Wire.RoundTrip.{read_frame-frame}
use distro_sync.Wire.Client.{Result, send}
use distro_sync.Broker.{Broker, Message, Response}
use distro_sync.Broker.Admin.{evict}
use distro_sync.Broker.Dispatch.{Context, dispatch}
use distro_sync.Broker.Durable.Reach.{Step, Reach, IsSound, Reach-IsSound}
use distro_sync.Broker.Connection.{Parsed, End, serve}
use distro_sync.Broker.Connection.Serves.{Request, IsCut, frames, dispatch_all, serve-dispatch_all}
use distro_sync.Broker.Connection.Call.{send-serve}
use distro_sync.Broker.Connection.Ends.{IsOver, serve-IsOver}
use distro_sync.Tests.Storage.{codec, store-IsTable, broker, broker-IsSafe, message, context}

pub broker-IsSound : IsSound codec broker
broker-IsSound = record { safe = broker-IsSafe; table = store-IsTable }

abbrev produced : Broker String
produced = (dispatch codec context message broker).0

Reach-IsSound_example : IsSound codec (evict (record { now = 90_000; tick = 90_000 }) produced)
unfolding copies queued occurs lookup
Reach-IsSound_example =
    Reach-IsSound codec broker (evict (record { now = 90_000; tick = 90_000 }) produced)
      broker-IsSound
      (Reach.next produced _
        (Reach.next broker produced Reach.here
          (Step.command context message broker produced (ground arith) refl))
        (Step.eviction (record { now = 90_000; tick = 90_000 }) produced _ refl))

read_frame-frame_example :
    (w : List ℕ) × (frame (123 ∷ 125 ∷ []) ≡ some w)
    × (read_frame (w ++ 9 ∷ []) ≡ some (123 ∷ 125 ∷ [], 9 ∷ []))
read_frame-frame_example = read_frame-frame (123 ∷ 125 ∷ []) (9 ∷ []) (omega arith)

-- a decoder that knows one message, and a printer that tells whether a task was produced
abbrev decode : List ℕ → Parsed String
decode [] = Parsed.invalid
decode (c ∷ cs) = if eqb c 80 then Parsed.object message else Parsed.no_object

abbrev is_produced : Response String → Bool
is_produced (Response.produced id) = true
is_produced other = false

abbrev encode : Response String → List ℕ
encode (Response.produced id) = 1 ∷ codes id
encode other = 0 ∷ []

abbrev loads : List ℕ → Option Bool
loads [] = none
loads (c ∷ cs) = some (eqb c 1)

abbrev dumps : Message String → List ℕ
dumps m = 80 ∷ []

loads-encode : (r : Response String) → loads (encode r) ≡ some (is_produced r)
loads-encode r = ground arith

answer_fits : length (encode (dispatch codec context message broker).1) < 4_294_967_296
unfolding dispatch handle_produce check_and_consume check_at lookup compute_adjusted_rate
    queue_depth average_latency_ms accept enqueue
answer_fits = omega arith

abbrev request : Request String
request = record { raw = 80 ∷ []; message = message }

abbrev later : Context
later = record context { uuid = "v" }

half_a_prefix : IsCut (0 ∷ 0 ∷ [])
unfolding frame to_bytes
half_a_prefix = record {
  raw = 80 ∷ [];
  short = omega arith;
  sent = 2;
  unfinished = omega arith;
  cut = refl;
}

serve-dispatch_all_example :
    let (b', rs) = dispatch_all codec (context ∷ later ∷ []) (message ∷ []) broker in
    serve codec decode encode (context ∷ later ∷ []) (frames ((80 ∷ []) ∷ []) ++ 0 ∷ 0 ∷ []) broker
    ≡ record { broker = b'; written = frames (map encode rs); end = End.disconnected }
unfolding dispatch_all
serve-dispatch_all_example =
    serve-dispatch_all codec decode encode (context ∷ later ∷ []) (request ∷ []) (0 ∷ 0 ∷ []) broker
      (omega arith) ((omega arith, refl), tt) half_a_prefix (answer_fits, tt)

send-serve_example :
    let (b', r) = dispatch codec context message broker in
    let s =
      serve codec decode encode (context ∷ later ∷ []) (get_or [] (frame (dumps message))) broker in
    (s.broker ≡ b')
    × (send dumps loads true message s.written ≡ record {
      written = get_or [] (frame (dumps message));
      result = Result.returned (is_produced r);
      unread = [];
    })
send-serve_example =
    send-serve codec decode encode dumps loads context later message message
      (is_produced (dispatch codec context message broker).1) broker
      (answer_fits, loads-encode (dispatch codec context message broker).1) refl (omega arith)

serve-IsOver_example :
    IsOver (serve codec decode encode (context ∷ later ∷ []) (0 ∷ 0 ∷ 0 ∷ 1 ∷ 80 ∷ []) broker).end
serve-IsOver_example =
    serve-IsOver codec decode encode (context ∷ later ∷ []) (0 ∷ 0 ∷ 0 ∷ 1 ∷ 80 ∷ []) broker
      (omega arith)
