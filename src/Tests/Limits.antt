-- ===== src/Tests/Limits.antt =====
-- Runs of broker/load_shedder.py, broker/metrics_collector.py, producer/backoff.py and
-- producer/client.py.
use distro_sync.Prelude.{
  ℕ, ◌*◌, ◌≤◌, ◌≡◌, ◌+◌, ◌-◌, zero, suc, refl, max, none, some, [], ◌∷◌, arith, String,
}
use distro_sync.Dict.{lookup}
use distro_sync.Queue
use distro_sync.Queue.{QueueManager}
use distro_sync.Registry
use distro_sync.Shedder
use distro_sync.Shedder.{
  AdaptiveLoadShedder, check_at, check_and_consume, rate, depth_factor, retry_after, token_unit,
  compute_adjusted_rate, min_fill_rate, base_fill_rate, bucket_capacity,
}
use distro_sync.Shedder.Bucket.{IsSound}
use distro_sync.Shedder.Limit.{Request, admitted, window_limit, no_starvation, retry_after_suffices}
use distro_sync.Backoff
use distro_sync.Shedder.Stats.Transparent.{get_stats-transparent}
use distro_sync.Backoff.{next_wait, advance, ExponentialBackoff}
use distro_sync.Backoff.Bounds.{next_wait_bounds}
use distro_sync.Producer.{Answer, Result, produce}
use distro_sync.Producer.Loop.{Ends, scripted, untimed, produce-outcome, produce-exhausted}
use distro_sync.Metrics
use distro_sync.Metrics.{MetricsCollector, throughput, percentile, percentile_latency}
use distro_sync.Metrics.Window.{recent, throughput_exact}

abbrev manager : QueueManager String
manager = Queue.init 3

-- a request for "q" at the time
abbrev request : ℕ → Request String
request now = record { now = now; manager = manager; registry = Registry.init }

pub fresh-IsSound : IsSound Shedder.init
unfolding lookup
fresh-IsSound = record { at_queue = λ q b e. absurd (ground (arith, e)) }

window_limit_example :
    admitted "q" (request 10 ∷ request 20 ∷ request 1010 ∷ []) Shedder.init * token_unit
    ≤ bucket_capacity + (1010 - 10) * base_fill_rate
window_limit_example =
    window_limit "q" Shedder.init fresh-IsSound (request 10) (request 20 ∷ request 1010 ∷ [])
      (omega arith, (omega arith, tt))

no_starvation_example :
    (check_and_consume "q" 210 manager Registry.init
      (check_and_consume "q" 10 manager Registry.init Shedder.init).0).1
    ≡ none
no_starvation_example =
    no_starvation "q" Shedder.init fresh-IsSound (request 10) (request 210) (omega arith)

-- the bucket of "q" is empty
abbrev drained : AdaptiveLoadShedder
drained = record {
  buckets =
      (
        "q",
        record {
          capacity = bucket_capacity;
          nominal_fill_rate = base_fill_rate;
          tokens = 0;
          last_refill = 10;
        },
      )
      ∷ [];
  total_allowed = 0;
  total_rejected = 0;
}

drained-IsSound : IsSound drained
unfolding lookup
drained-IsSound = record { at_queue = λ q b e. ground (arith, e) }

drained-hint : (check_and_consume "q" 10 manager Registry.init drained).1 ≡ some 10
unfolding check_and_consume check_at compute_adjusted_rate rate depth_factor retry_after lookup
    Queue.queue_depth Registry.average_latency_ms
drained-hint = refl

retry_after_suffices_example :
    (check_and_consume "q" 20 manager Registry.init
      (check_and_consume "q" 10 manager Registry.init drained).0).1
    ≡ none
retry_after_suffices_example =
    retry_after_suffices "q" drained drained-IsSound (request 10) (request 20) 10 drained-hint
      (omega arith) (omega arith)

next_wait_bounds_example :
    (d : ℕ) × (next_wait (λ c. 0) (some 300) (Backoff.init 2)
      ≡ (record (Backoff.init 2) { attempt = 1 }, some d))
    × (300 ≤ d)
    × (d ≤ max 60_000 300)
next_wait_bounds_example =
    next_wait_bounds (λ c. 0) (some 300) (Backoff.init 2) (λ c. omega arith) (omega arith)

-- two rate limits, then the id
abbrev twice : ℕ → Answer
twice zero = Answer.rate_limited (some 100)
twice (suc zero) = Answer.rate_limited none
twice (suc (suc n)) = Answer.ok "t"

produce-outcome_example :
    Ends
      (Result.submitted "t")
      (λ m. m ≡ 3)
      2
      (produce untimed (λ n c. 0) (scripted {P = String} twice) "p" 5 0)
produce-outcome_example =
    produce-outcome "p" (λ n c. 0) twice (λ n c. omega arith) 5 0 2 (Result.submitted "t")
      (omega arith) (refl, (refl, tt)) refl

produce-exhausted_example :
    Ends Result.exhausted
      (λ m. m ≡ 2)
      1
      (produce untimed (λ n c. 0) (scripted {P = String} twice) "p" 1 0)
produce-exhausted_example =
    produce-exhausted "p" (λ n c. 0) twice (λ n c. omega arith) 1 0 (refl, (refl, tt))

abbrev collector : MetricsCollector
collector = record (Metrics.init 0) {
  ack_times = ("q", 100 ∷ 9000 ∷ 12_000 ∷ []) ∷ [];
  latency_samples = ("q", 30 ∷ 10 ∷ 20 ∷ []) ∷ [];
}

throughput_exact_example :
    (throughput "q" 15_000 collector).1 ≡ recent 15_000 (100 ∷ 9000 ∷ 12_000 ∷ [])
unfolding lookup
throughput_exact_example =
    throughput_exact "q" 15_000 collector
      ((omega arith, (omega arith, tt)), ((omega arith, tt), (tt, tt)))

-- a bucket with half of its tokens
abbrev half : AdaptiveLoadShedder
half = record {
  buckets =
      (
        "q",
        record {
          capacity = bucket_capacity;
          nominal_fill_rate = base_fill_rate;
          tokens = 5 * token_unit;
          last_refill = 10;
        },
      )
      ∷ [];
  total_allowed = 0;
  total_rejected = 0;
}

get_stats-transparent_example :
    let told = (Shedder.Stats.get_stats 20 manager Registry.init half).0 in
    ((check_and_consume "q" 30 manager Registry.init told).1
      ≡ (check_and_consume "q" 30 manager Registry.init half).1)
    × (lookup "q" (check_and_consume "q" 30 manager Registry.init told).0.buckets
        ≡ lookup "q" (check_and_consume "q" 30 manager Registry.init half).0.buckets)
unfolding lookup
get_stats-transparent_example =
    get_stats-transparent 20 manager Registry.init "q" 30 half (λ b e. ground (arith, e))
      (omega arith)
