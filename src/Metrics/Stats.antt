-- ===== src/Metrics/Stats.antt =====
-- The reports of `MetricsCollector`: `get_stats` and `snapshot`. A rate or a time that the source
-- rounds to one digit is a number of tenths here; a percentile is a whole number of milliseconds.
use distro_sync.Prelude.{ℕ, String, List, [], ◌∷◌, length, get_or, round_div}
use distro_sync.Dict.{Dict, lookup, insert}
use distro_sync.Metrics.{MetricsCollector, produce_rate, throughput, percentile_latency, uptime}

pub record Stats : Type 0 where
  pub total_produced : Dict ℕ
  pub total_consumed : Dict ℕ
  pub total_acked : Dict ℕ
  pub total_nacked : Dict ℕ
  pub total_dlq : Dict ℕ
  pub uptime_seconds : ℕ
  pub tracked_in_flight : ℕ

abbrev pub uptime_shown : ℕ → MetricsCollector → ℕ
uptime_shown tick c = round_div (uptime tick c) 100

unfoldable pub get_stats : ℕ → MetricsCollector → Stats
get_stats tick c = record {
  total_produced = c.total_produced;
  total_consumed = c.total_consumed;
  total_acked = c.total_acked;
  total_nacked = c.total_nacked;
  total_dlq = c.total_dlq;
  uptime_seconds = uptime_shown tick c;
  tracked_in_flight = length c.dequeue_timestamps;
}

pub record QueueMetrics : Type 0 where
  pub depth : ℕ
  pub produce_rate : ℕ
  pub throughput_per_second : ℕ
  pub p50_latency_ms : ℕ
  pub p95_latency_ms : ℕ
  pub p99_latency_ms : ℕ
  pub total_produced : ℕ
  pub total_acked : ℕ
  pub total_nacked : ℕ

-- one round of the loop; the two rates prune their windows
unfoldable pub queue_metrics : String → ℕ → MetricsCollector → MetricsCollector × QueueMetrics
queue_metrics q tick c =
    let (c', produced) = produce_rate q tick c in
    let (c'', done) = throughput q tick c' in
    (
      c'',
      record {
        depth = 0;
        produce_rate = produced;
        throughput_per_second = done;
        p50_latency_ms = percentile_latency q 50 c'';
        p95_latency_ms = percentile_latency q 95 c'';
        p99_latency_ms = percentile_latency q 99 c'';
        total_produced = get_or 0 (lookup q c''.total_produced);
        total_acked = get_or 0 (lookup q c''.total_acked);
        total_nacked = get_or 0 (lookup q c''.total_nacked);
      },
    )

unfoldable pub snapshot_queues :
    List String → ℕ → MetricsCollector → Dict QueueMetrics → MetricsCollector × Dict QueueMetrics
snapshot_queues [] tick c queues = (c, queues)
snapshot_queues (q ∷ qs) tick c queues =
    let (c', e) = queue_metrics q tick c in snapshot_queues qs tick c' (insert q e queues)

pub record Snapshot : Type 0 where
  pub queues : Dict QueueMetrics
  pub uptime_seconds : ℕ
  pub tracked_in_flight : ℕ

-- `snapshot(queue_names=qs)`; the broker always gives the names
unfoldable pub snapshot : List String → ℕ → MetricsCollector → MetricsCollector × Snapshot
snapshot qs tick c =
    let (c', queues) = snapshot_queues qs tick c [] in
    (
      c',
      record {
        queues = queues;
        uptime_seconds = uptime_shown tick c';
        tracked_in_flight = length c'.dequeue_timestamps;
      },
    )
