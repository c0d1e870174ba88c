-- ===== src/Metrics.antt =====
-- `MetricsCollector` of broker/metrics_collector.py. `tick` is the monotonic clock, in milliseconds.
pub mod Stats
pub mod Window
use distro_sync.Prelude.{
  ℕ, zero, suc, ◌+◌, ◌-◌, ◌*◌, ◌/◌, String, Bool, true, false, Option, none, some, List, [], ◌∷◌,
  ◌++◌, length, get_or, get_elem?, ltb, leb, min, if◌then◌else◌,
}
use distro_sync.Dict.{Dict, lookup, insert, erase}

-- THROUGHPUT_WINDOW_SECONDS, in milliseconds
abbrev pub throughput_window : ℕ
throughput_window = 10_000

abbrev pub max_latency_samples : ℕ
max_latency_samples = 1000

pub record MetricsCollector : Type 0 where
  pub start_time : ℕ
  pub produce_times : Dict (List ℕ)
  pub ack_times : Dict (List ℕ)
  pub dequeue_timestamps : Dict ℕ
  pub task_queues : Dict String
  pub latency_samples : Dict (List ℕ)
  pub total_produced : Dict ℕ
  pub total_consumed : Dict ℕ
  pub total_acked : Dict ℕ
  pub total_nacked : Dict ℕ
  pub total_dlq : Dict ℕ

abbrev pub init : ℕ → MetricsCollector
init tick = record {
  start_time = tick;
  produce_times = [];
  ack_times = [];
  dequeue_timestamps = [];
  task_queues = [];
  latency_samples = [];
  total_produced = [];
  total_consumed = [];
  total_acked = [];
  total_nacked = [];
  total_dlq = [];
}

-- `reset` does not clear the two dicts that track the tasks in flight.
unfoldable pub reset : ℕ → MetricsCollector → MetricsCollector
reset tick c = record c {
  produce_times = [];
  ack_times = [];
  latency_samples = [];
  total_produced = [];
  total_consumed = [];
  total_acked = [];
  total_nacked = [];
  total_dlq = [];
  start_time = tick;
}

-- `d[q] += 1` of a `defaultdict(int)`
abbrev pub increment : String → Dict ℕ → Dict ℕ
increment q d = insert q (get_or 0 (lookup q d) + 1) d

-- `d[q].append(t)` of a `defaultdict(deque)`
abbrev pub push : String → ℕ → Dict (List ℕ) → Dict (List ℕ)
push q t d = insert q (get_or [] (lookup q d) ++ t ∷ []) d

abbrev pub keep_last : ℕ → List ℕ → List ℕ
keep_last n [] = []
keep_last n (x ∷ xs) = if ltb n (length (x ∷ xs)) then xs else x ∷ xs

-- the same, of a `deque(maxlen=1000)`
unfoldable pub push_sample : String → ℕ → Dict (List ℕ) → Dict (List ℕ)
push_sample q t d = insert q (keep_last max_latency_samples (get_or [] (lookup q d) ++ t ∷ [])) d

unfoldable pub record_produce : String → ℕ → MetricsCollector → MetricsCollector
record_produce q tick c = record c {
  produce_times = push q tick c.produce_times;
  total_produced = increment q c.total_produced;
}

unfoldable pub record_consume : String → String → ℕ → MetricsCollector → MetricsCollector
record_consume q id tick c = record c {
  dequeue_timestamps = insert id tick c.dequeue_timestamps;
  task_queues = insert id q c.task_queues;
  total_consumed = increment q c.total_consumed;
}

abbrev pub sample_after : Option ℕ → String → ℕ → Dict (List ℕ) → Dict (List ℕ)
sample_after none q tick d = d
sample_after (some dequeued) q tick d = push_sample q (tick - dequeued) d

unfoldable pub record_ack : String → String → ℕ → MetricsCollector → MetricsCollector
record_ack q id tick c = record c {
  ack_times = push q tick c.ack_times;
  total_acked = increment q c.total_acked;
  dequeue_timestamps = erase id c.dequeue_timestamps;
  task_queues = erase id c.task_queues;
  latency_samples = sample_after (lookup id c.dequeue_timestamps) q tick c.latency_samples;
}

unfoldable pub record_nack : String → String → Bool → MetricsCollector → MetricsCollector
record_nack q id dead_lettered c = record c {
  total_nacked = increment q c.total_nacked;
  total_dlq = if dead_lettered then increment q c.total_dlq else c.total_dlq;
  dequeue_timestamps = erase id c.dequeue_timestamps;
  task_queues = erase id c.task_queues;
}

-- the `while` loop of `_prune_window`
unfoldable pub prune_window : ℕ → List ℕ → List ℕ
prune_window tick [] = []
prune_window tick (t ∷ ts) =
    let rest = prune_window tick ts in if ltb (t + throughput_window) tick then rest else t ∷ ts

-- The pruned deque is the one in the dict, if there is one. The count of its entries is the rate in
-- tasks per window: `count / THROUGHPUT_WINDOW_SECONDS` divides it by 10.
abbrev pub prune_entry : String → ℕ → Option (List ℕ) → Dict (List ℕ) → Dict (List ℕ) × ℕ
prune_entry q tick none d = (d, 0)
prune_entry q tick (some ts) d = let kept = prune_window tick ts in (insert q kept d, length kept)

unfoldable pub throughput : String → ℕ → MetricsCollector → MetricsCollector × ℕ
throughput q tick c =
    let (d, n) = prune_entry q tick (lookup q c.ack_times) c.ack_times in
    (record c { ack_times = d }, n)

unfoldable pub produce_rate : String → ℕ → MetricsCollector → MetricsCollector × ℕ
produce_rate q tick c =
    let (d, n) = prune_entry q tick (lookup q c.produce_times) c.produce_times in
    (record c { produce_times = d }, n)

-- `list.sort`
unfoldable pub insert_sorted : ℕ → List ℕ → List ℕ
insert_sorted x [] = x ∷ []
insert_sorted x (y ∷ ys) = if leb x y then x ∷ y ∷ ys else y ∷ insert_sorted x ys

unfoldable pub sort : List ℕ → List ℕ
sort [] = []
sort (x ∷ xs) = insert_sorted x (sort xs)

abbrev pub index_of : ℕ → ℕ → ℕ
index_of n p = min (n * p / 100) (n - 1)

-- `p` is a whole number of percent
unfoldable pub percentile : List ℕ → ℕ → ℕ
unfolding sort
percentile [] p = 0
percentile (x ∷ xs) p = get_or 0 (get_elem? (sort (x ∷ xs)) (index_of (length (x ∷ xs)) p))

unfoldable pub percentile_latency : String → ℕ → MetricsCollector → ℕ
percentile_latency q p c = percentile (get_or [] (lookup q c.latency_samples)) p

unfoldable pub uptime : ℕ → MetricsCollector → ℕ
uptime tick c = tick - c.start_time
