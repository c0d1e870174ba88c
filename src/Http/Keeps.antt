-- ===== src/Http/Keeps.antt =====
-- A predicate of the state that the handlers keep is kept by each request.
use distro_sync.Prelude.{
  ℕ, ◌≡◌, refl, Bool, true, false, ◌&&◌, ◌||◌, Option, none, some, List, [], ◌∷◌, if◌then◌else◌,
}
use distro_sync.Http.Text.{codes, same, starts_with}
use distro_sync.Http.{Env, Popen, Body, Called, Handlers, Outcome, parse_request}
use distro_sync.Http.Pages.{serve_report, serve_stats, trigger}
use distro_sync.Http.Route.{
  is_get, is_post, is_head, route, route_path, serve_request, handle_connection,
}

-- a POST of the path
abbrev pub IsPost : Option (List ℕ × List ℕ) → List ℕ → Type 0
IsPost none page = ⊥
IsPost (some (method, path)) page = (is_post method && same path page) ≡ true

choose :
    {S : Type 0} (Q : S → Type 0) (t : Bool) (x y : Outcome S)
    → (t ≡ true → Q x.state)
    → Q y.state
    → Q (if t then x else y).state
choose Q true x y h k = h refl
choose Q false x y h k = k

module _ {S B : Type 0} (Q : S → Type 0) where
  abbrev pub Keeps : Option (S → S × B) → Type 0
  Keeps none = Unit
  Keeps (some f) = (s : S) → Q s → Q (f s).0

  abbrev pub StatsKeeps : Option (Called S B) → Type 0
  StatsKeeps (some (Called.returns f)) = (s : S) → Q s → Q (f s).0
  StatsKeeps other = Unit

  -- the handlers that the request can reach keep it
  pub record HandlersKeep (h : Handlers S B) (r : Option (List ℕ × List ℕ)) : Type 0 where
    pub metrics : Keeps h.metrics_handler
    pub dlq : Keeps h.dlq_handler
    pub stats : StatsKeeps h.stats_handler
    pub crash_worker : IsPost r (codes "/admin/crash-worker") → Keeps h.crash_worker_handler
    pub replay_dlq : IsPost r (codes "/admin/dlq/replay-all") → Keeps h.replay_dlq_handler
    pub reset : IsPost r (codes "/admin/reset") → Keeps h.reset_handler

  module _ (env : Env B) (loads : List ℕ) (s : S) (q : Q s) where
    serve_report-Keeps :
        (status : ℕ) (missing loads : List ℕ) (f : Option (S → S × B))
        → Keeps f
        → Q (serve_report env status missing f loads s).state
    serve_report-Keeps status missing loads none k = q
    serve_report-Keeps status missing loads (some f) k = k s q

    serve_stats-Keeps :
        (f : Option (Called S B)) → StatsKeeps f → Q (serve_stats env f loads s).state
    serve_stats-Keeps none k = q
    serve_stats-Keeps (some (Called.returns f)) k = k s q
    serve_stats-Keeps (some Called.coroutine_function) k = q

    trigger-Keeps : (m : Body B) (p : Popen) → Q (trigger env m loads s p).state
    trigger-Keeps m (Popen.started p) = q
    trigger-Keeps m (Popen.raised e) = q

    module _ (h : Handlers S B) where
      route_path-Keeps :
          (path : List ℕ)
          → Keeps h.dlq_handler
          → StatsKeeps h.stats_handler
          → Q (route_path env h path loads s).state
      unfolding route_path
      route_path-Keeps path d k =
          choose Q (same path (codes "/metrics/dlq")) _ _
            (λ _. serve_report-Keeps 200 _ loads h.dlq_handler d)
            (choose Q (same path (codes "/stats")) _ _ (λ _. serve_stats-Keeps h.stats_handler k)
              (choose Q (same path (codes "/health")) _ _ (λ _. q)
                (choose Q (starts_with path (codes "/static/")) _ _ (λ _. q) q)))

      route-Keeps :
          (method path : List ℕ)
          → HandlersKeep h (some (method, path))
          → Q (route env h method path loads s).state
      unfolding route
      route-Keeps method path k =
          choose Q (is_head method) _ _ (λ _. q)
            (choose Q (is_get method && (same path (codes "/") || same path (codes "/dashboard"))) _
              _ (λ _. q)
              (choose Q
                (is_get method && (same path (codes "/metrics") || same path (codes "/metrics/"))) _
                _ (λ _. serve_report-Keeps 200 _ loads h.metrics_handler k.metrics)
                (choose Q (is_post method && same path (codes "/admin/load-test")) _ _
                  (λ _. trigger-Keeps Body.load_test_started _)
                  (choose Q (is_post method && same path (codes "/admin/flood")) _ _
                    (λ _. trigger-Keeps Body.flood_started _)
                    (choose Q (is_post method && same path (codes "/admin/crash-worker")) _ _
                      (λ e.
                        serve_report-Keeps 500 _ loads h.crash_worker_handler (k.crash_worker e))
                      (choose Q (is_post method && same path (codes "/admin/dlq/replay-all")) _ _
                        (λ e. serve_report-Keeps 500 _ loads h.replay_dlq_handler (k.replay_dlq e))
                        (choose Q (is_post method && same path (codes "/admin/reset")) _ _
                          (λ e. serve_report-Keeps 500 _ [] h.reset_handler (k.reset e))
                          (route_path-Keeps path k.dlq k.stats))))))))

      serve_request-Keeps :
          (r : Option (List ℕ × List ℕ))
          → HandlersKeep h r
          → Q (serve_request env h r loads s).state
      serve_request-Keeps none k = q
      serve_request-Keeps (some (method, path)) k =
          choose Q (is_get method || is_post method || is_head method) _ _
            (λ _. route-Keeps method path k) q

      pub handle_connection-Keeps :
          (text : List ℕ)
          → HandlersKeep h (parse_request text)
          → Q (handle_connection env h text loads s).state
      unfolding handle_connection
      handle_connection-Keeps [] k = q
      handle_connection-Keeps (c ∷ text) k = serve_request-Keeps (parse_request (c ∷ text)) k
