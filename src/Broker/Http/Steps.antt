-- ===== src/Broker/Http/Steps.antt =====
-- What the requests of the HTTP interface do to the broker.
use distro_sync.Prelude.{ℕ, ◌≡◌, refl, Option, none, some, List, Option-cases, inl, inr}
use distro_sync.Registry.{WorkerInfo}
use distro_sync.Wal.{Codec}
use distro_sync.Http.Text.{codes}
use distro_sync.Http.{Env, parse_request}
use distro_sync.Http.Route.{handle_connection}
use distro_sync.Http.Keeps.{IsPost, handle_connection-Keeps}
use distro_sync.Broker.{Broker, Clock}
use distro_sync.Broker.Admin.{handle_dlq_list}
use distro_sync.Broker.Reports.{get_metrics_snapshot, get_dlq_listing}
use distro_sync.Broker.Durable.Reach.{IsSound, crash_worker-IsSound, reset-IsSound}
use distro_sync.Broker.Http.{Page, crash_chosen, crash_worker_handler, http_handlers}

module _ {P : Type 0} (c : Codec P) (clock : Clock) (draw : ℕ) (env : Env (Page P)) where
  dlq_listing-same : (b : Broker P) → (get_dlq_listing c b).0 ≡ b
  unfolding handle_dlq_list
  dlq_listing-same b = elim (Option-cases b.wal_store) [
    | inl e ↦ rw e refl
    | inr (s, e) ↦ rw e refl
  ]

  crash_chosen-IsSound :
      (b : Broker P) (o : Option WorkerInfo) → IsSound c b → IsSound c (crash_chosen clock b o).0
  crash_chosen-IsSound b none h = h
  crash_chosen-IsSound b (some w) h = crash_worker-IsSound c w.worker_id clock b h

  -- Every HTTP request, other than a POST of /admin/dlq/replay-all, keeps the broker sound: its
  -- queue manager consistent and its store in agreement with it.
  pub request-IsSound :
      (text loads : List ℕ) (b : Broker P)
      → ¬ IsPost (parse_request text) (codes "/admin/dlq/replay-all")
      → IsSound c b
      → IsSound c (handle_connection env (http_handlers c clock draw) text loads b).state
  unfolding http_handlers get_metrics_snapshot crash_worker_handler
  request-IsSound text loads b other h =
      handle_connection-Keeps (IsSound c) env loads b h (http_handlers c clock draw) text (record {
        metrics = λ b k. record {
          safe = record { consistent = k.safe.consistent; agrees = k.safe.agrees };
          table = k.table;
        };
        dlq = λ b k. rw (dlq_listing-same b) k;
        stats = tt;
        crash_worker = λ _ b k. crash_chosen-IsSound b _ k;
        replay_dlq = λ e. absurd (other e);
        reset = λ _ b k. reset-IsSound c clock b;
      })

  -- An HTTP request that is not a POST changes neither the queues, nor the store, nor the workers.
  pub request-ReadOnly :
      (text loads : List ℕ) (b : Broker P)
      → ((page : List ℕ) → ¬ IsPost (parse_request text) page)
      → let b' = (handle_connection env (http_handlers c clock draw) text loads b).state in
        (b'.queue_manager ≡ b.queue_manager)
        × (b'.wal_store ≡ b.wal_store)
        × (b'.worker_registry ≡ b.worker_registry)
  unfolding http_handlers get_metrics_snapshot
  request-ReadOnly text loads b other =
      handle_connection-Keeps
        (λ b'.
          (b'.queue_manager ≡ b.queue_manager)
          × (b'.wal_store ≡ b.wal_store)
          × (b'.worker_registry ≡ b.worker_registry))
        env loads b (refl, refl, refl) (http_handlers c clock draw) text
        (record {
          metrics = λ b' k. k;
          dlq = λ b' k. rw (dlq_listing-same b') k;
          stats = tt;
          crash_worker = λ e. absurd (other _ e);
          replay_dlq = λ e. absurd (other _ e);
          reset = λ e. absurd (other _ e);
        })
