-- ===== src/Tests/Pages.antt =====
-- Runs of the HTTP interface and of a worker.
use distro_sync.Prelude.{
  ℕ, ◌+◌, ◌≡◌, refl, true, false, Option, none, some, List, [], ◌∷◌, ◌++◌, arith, if◌then◌else◌,
  map, String, eq_iff,
}
use distro_sync.Dict.{lookup}
use distro_sync.Task.{Task, new_task}
use distro_sync.Queue
use distro_sync.Queue.{QueueManager, Delivery}
use distro_sync.Broker
use distro_sync.Broker.{Broker, Message}
use distro_sync.Broker.Durable.Reach.{IsSound}
use distro_sync.Broker.Http.{Page, http_handlers}
use distro_sync.Broker.Http.Steps.{request-IsSound, request-ReadOnly}
use distro_sync.Broker.Worker.{ask}
use distro_sync.Broker.Worker.Balance.{handled, run-Balanced}
use distro_sync.Broker.Worker.Drains.{IsDrained, loops, run-drains}
use distro_sync.Http.{Env, Entry, Popen, html_response, Response, parse_request}
use distro_sync.Http.Decimal.{number}
use distro_sync.Http.Bytes.{render, parse_headers, find, body_of, lstrip, rstrip}
use distro_sync.Http.Bytes.Framed.{InLine}
use distro_sync.Http.Bytes.Lines.{to_line}
use distro_sync.Http.Bytes.RoundTrip.{fields, render-framed}
use distro_sync.Http.Text.{codes, same, before, split}
use distro_sync.Http.Pages.{join, lower}
use distro_sync.Http.Route.{handle_connection}
use distro_sync.Http.Confined.{IsInside, handle_connection-confined}
use distro_sync.Worker
use distro_sync.Worker.{BaseWorker, Phase, Event, Answer, run}
use distro_sync.Worker.Shutdown.{IsStopped, shutdown-IsStopped}
use distro_sync.Tests.Storage.{codec, broker, context}
use distro_sync.Tests.Network.{broker-IsSound}

-- a server with no files
abbrev env : Env (Page String)
env = record {
  dashboard_dir = codes "/srv";
  files = λ path. none;
  read_text = λ bytes. some bytes;
  dumps = λ body. [];
  popen = λ args. Popen.started 7;
}

-- a file outside of the directory
abbrev secret : List ℕ → Option Entry
secret path = if same path (codes "/etc") then some (Entry.file (1 ∷ [])) else none

secret-IsInside : (p : List ℕ) → IsInside (codes "/srv") p → none ≡ secret p
unfolding join
secret-IsInside p h = rw (h.joined) (rw (h.relative) refl)

abbrev get : String → List ℕ
get path = codes "GET " ++ codes path ++ codes " HTTP/1.1"

handle_connection-confined_example :
    handle_connection env (http_handlers codec context.clock 0) (get "/static/../../etc") [] broker
    ≡ handle_connection
        (record env { files = secret })
        (http_handlers codec context.clock 0)
        (get "/static/../../etc")
        []
        broker
handle_connection-confined_example =
    handle_connection-confined env (http_handlers codec context.clock 0) secret secret-IsInside
      (get "/static/../../etc") [] broker

request-IsSound_example :
    IsSound codec
      (handle_connection env (http_handlers codec context.clock 0) (get "/metrics") [] broker).state
unfolding parse_request before split
request-IsSound_example =
    request-IsSound codec context.clock 0 env (get "/metrics") [] broker
      (λ e. absurd (ground (arith, e))) broker-IsSound

request-ReadOnly_example :
    let b' =
      (handle_connection env
        (http_handlers codec context.clock 0)
        (get "/metrics")
        []
        broker).state in
    (b'.queue_manager ≡ broker.queue_manager)
    × (b'.wal_store ≡ broker.wal_store)
    × (b'.worker_registry ≡ broker.worker_registry)
unfolding parse_request before split
request-ReadOnly_example =
    request-ReadOnly codec context.clock 0 env (get "/metrics") [] broker
      (λ page e. absurd (ground (arith, e)))

-- a worker that polls, and two tasks
abbrev worker : BaseWorker String
worker = record (Worker.init "w" "q") { connected = true; running = true }

abbrev task : String → Task String
task id = new_task id "q" "payload" 7

abbrev two : List (Task String)
two = task "a" ∷ task "b" ∷ []

abbrev busy : Broker String
busy = record (Broker.init 0 none) {
  queue_manager = record (Queue.init 3) { queues = ("q", two) ∷ [] };
}

run-drains_example :
    let (w', (n', b')) =
      run (ask codec (λ n. context)) (λ p. true) (loops two) (worker, (0, busy)) in
    IsDrained "q" two worker w' busy.queue_manager b'.queue_manager
unfolding lookup
run-drains_example =
    run-drains codec (λ n. context) "w" "q" (λ e. absurd (ground (arith, (eq_iff "q" "*").1 e)))
      (λ e. absurd (ground (arith, (eq_iff "q" "").1 e)))
      (λ e. absurd (ground (arith, (eq_iff "w" "").1 e))) (λ p. true) two worker 0 busy refl refl
      refl refl refl
      (
        ((λ e. absurd (ground (arith, (eq_iff "a" "").1 e))), refl),
        (((λ e. absurd (ground (arith, (eq_iff "b" "").1 e))), refl), tt),
      )

run-Balanced_example :
    let (w', (n', b')) =
      run
        (ask codec (λ n. context))
        (λ p. false)
        (Event.loop ∷ Event.heartbeat ∷ Event.loop ∷ [])
        (worker, (0, busy)) in
    b'.queue_manager.total_dequeued + handled worker
    ≡ busy.queue_manager.total_dequeued + handled w'
run-Balanced_example =
    run-Balanced codec (λ n. context) (λ p. false) (Event.loop ∷ Event.heartbeat ∷ Event.loop ∷ [])
      worker 0 busy

-- a worker that executes a task
abbrev holding : BaseWorker String
holding = record worker {
  phase =
      Phase.holding (record { task_id = "a"; queue_name = "q"; payload = "payload"; attempts = 1 });
}

shutdown-IsStopped_example :
    IsStopped 1
      (run
        (λ (n : ℕ) (m : Message String). (n + 1, Answer.ok))
        (λ p. false)
        (Event.shutdown ∷ Event.loop ∷ Event.loop ∷ Event.loop ∷ [])
        (holding, 0)).0
shutdown-IsStopped_example =
    shutdown-IsStopped (λ (n : ℕ) (m : Message String). (n + 1, Answer.ok)) (λ p. false) (λ n m. tt)
      holding 0 tt

-- a page with one letter
abbrev small : Response
small = html_response (97 ∷ [])

html-InLine : InLine (codes "text/html; charset=utf-8")
html-InLine = to_line (codes "text/html; charset=utf-8") refl

render-framed_example :
    (parse_headers (map lower) (render small) ≡ fields small)
    × ((v : List ℕ) × (find (codes "content-length") (parse_headers (map lower) (render small))
          ≡ some v)
        × (number v 0 ≡ 1))
    × (body_of (render small) ≡ 97 ∷ [])
unfolding lstrip rstrip
render-framed_example =
    render-framed (map lower) small (λ s h. refl)
      (record { in_line = html-InLine; stripped = refl }) refl
