-- ===== src/Http/Route.antt =====
-- `handle_connection` of broker/http_api.py: which page a request gets.
use distro_sync.Prelude.{
  ℕ, Bool, ◌&&◌, ◌||◌, Option, none, some, List, [], ◌∷◌, ◌++◌, if◌then◌else◌,
}
use distro_sync.Http.Text.{codes, same, starts_with}
use distro_sync.Http.{Env, Body, Handlers, Outcome, send_response, head_response, parse_request}
use distro_sync.Http.Pages.{
  serve_dashboard, serve_static, serve_report, serve_stats, handle_reset, trigger_load_test,
  trigger_flood, respond,
}

abbrev pub is_get : List ℕ → Bool
is_get method = same method (codes "GET")

abbrev pub is_post : List ℕ → Bool
is_post method = same method (codes "POST")

abbrev pub is_head : List ℕ → Bool
is_head method = same method (codes "HEAD")

module _ {S B : Type 0} (env : Env B) (h : Handlers S B) where
  -- the pages whose path is all that counts
  unfoldable pub route_path : List ℕ → List ℕ → S → Outcome S
  route_path path loads s =
      if same path (codes "/metrics/dlq")
      then serve_report env 200 (codes "DLQ handler not configured") h.dlq_handler loads s
      else if same path (codes "/stats")
      then serve_stats env h.stats_handler loads s
      else if same path (codes "/health")
      then respond env loads s (send_response env.dumps 200 Body.healthy)
      else if starts_with path (codes "/static/")
      then respond env loads s (serve_static env path)
      else respond env loads s
          (send_response env.dumps 404 (Body.error (codes "Not found: " ++ path)))

  unfoldable pub route : List ℕ → List ℕ → List ℕ → S → Outcome S
  unfolding route_path
  route method path loads s =
      if is_head method
      then respond env loads s (some head_response)
      else if is_get method && (same path (codes "/") || same path (codes "/dashboard"))
      then respond env loads s (serve_dashboard env)
      else if is_get method && (same path (codes "/metrics") || same path (codes "/metrics/"))
      then serve_report env 200 (codes "Metrics handler not configured") h.metrics_handler loads s
      else if is_post method && same path (codes "/admin/load-test")
      then trigger_load_test env loads s
      else if is_post method && same path (codes "/admin/flood")
      then trigger_flood env loads s
      else if is_post method && same path (codes "/admin/crash-worker")
      then serve_report env 500 (codes "Handler not configured") h.crash_worker_handler loads s
      else if is_post method && same path (codes "/admin/dlq/replay-all")
      then serve_report env 500 (codes "Handler not configured") h.replay_dlq_handler loads s
      else if is_post method && same path (codes "/admin/reset")
      then handle_reset env h.reset_handler loads s
      else route_path path loads s

  -- the check of the method
  abbrev pub serve_request : Option (List ℕ × List ℕ) → List ℕ → S → Outcome S
  serve_request none loads s =
      respond env loads s (send_response env.dumps 400 (Body.error (codes "Bad request")))
  serve_request (some (method, path)) loads s =
      if is_get method || is_post method || is_head method
      then route method path loads s
      else respond env loads s
          (send_response env.dumps 405 (Body.error (codes "Method not allowed")))

  -- `except Exception`: the response is then another
  abbrev pub recover : Outcome S → Outcome S
  recover o = record o {
    response = elim o.response [
      | none ↦ send_response env.dumps 500 (Body.error (codes "Internal server error"))
      | some r ↦ some r
    ];
  }

  -- A read that gives nothing has no response.
  unfoldable pub handle_connection : List ℕ → List ℕ → S → Outcome S
  handle_connection [] loads s = respond env loads s none
  handle_connection (c ∷ text) loads s = recover (serve_request (parse_request (c ∷ text)) loads s)
