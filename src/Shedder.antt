-- ===== src/Shedder.antt =====
-- `TokenBucket` and `AdaptiveLoadShedder` of broker/load_shedder.py, with exact fractions for the
-- floats. A time is a number of milliseconds. A factor is a number of `10 * threshold`-ths, and a
-- rate, 100 tokens/s times the two factors, is a number of 1/10000 tokens/s (`rate_unit`). So
-- tokens are counted in units of 1/10000000 (`token_unit`), which one millisecond at the rate 1
-- yields. `retry_after` is in milliseconds, rounded up.
pub mod Stats
pub mod Rate
pub mod Bucket
pub mod Limit
use distro_sync.Prelude.{
  ℕ, ◌+◌, ◌-◌, ◌*◌, ◌/◌, String, Bool, true, false, Option, none, some, [], ◌∷◌, leb, min, max,
  if◌then◌else◌, get_or,
}
use distro_sync.Dict.{Dict, lookup, insert}
use distro_sync.Queue.{QueueManager, queue_depth}
use distro_sync.Registry.{WorkerRegistry, average_latency_ms}

-- 10000000 units make a token; 10000 make a token per second
abbrev pub token_unit : ℕ
token_unit = 10_000_000

abbrev pub rate_unit : ℕ
rate_unit = 10_000

abbrev pub base_fill_rate : ℕ
base_fill_rate = 100 * rate_unit

abbrev pub min_fill_rate : ℕ
min_fill_rate = 5 * rate_unit

abbrev pub queue_depth_threshold : ℕ
queue_depth_threshold = 50

abbrev pub latency_threshold_ms : ℕ
latency_threshold_ms = 200

abbrev pub bucket_capacity : ℕ
bucket_capacity = 200 * token_unit

pub record TokenBucket : Type 0 where
  pub capacity : ℕ
  pub nominal_fill_rate : ℕ
  pub tokens : ℕ
  pub last_refill : ℕ

-- `__post_init__`: the bucket starts full
abbrev pub new_bucket : ℕ → TokenBucket
new_bucket now = record {
  capacity = bucket_capacity;
  nominal_fill_rate = base_fill_rate;
  tokens = bucket_capacity;
  last_refill = now;
}

unfoldable pub refill : ℕ → ℕ → TokenBucket → TokenBucket
refill rate now b = record b {
  tokens = min b.capacity (b.tokens + (now - b.last_refill) * rate);
  last_refill = now;
}

unfoldable pub consume : TokenBucket → TokenBucket × Bool
consume b =
    if leb token_unit b.tokens
    then (record b { tokens = b.tokens - token_unit }, true)
    else (b, false)

-- in 500ths: 0.05 is 25
unfoldable pub depth_factor : ℕ → ℕ
depth_factor depth =
    let max_excess = 10 * queue_depth_threshold in
    if leb depth queue_depth_threshold
    then max_excess
    else max 25 (max_excess - (depth - queue_depth_threshold))

-- in 2000ths: 0.1 is 200
unfoldable pub latency_factor : ℕ → ℕ
latency_factor ms =
    let max_excess = 10 * latency_threshold_ms in
    if leb ms latency_threshold_ms
    then max_excess
    else max 200 (max_excess - (ms - latency_threshold_ms))

-- 100 tokens/s times depth/500 times latency/2000 is depth * latency / 10000 tokens/s
unfoldable pub rate : ℕ → ℕ → ℕ
unfolding depth_factor latency_factor
rate depth ms = max min_fill_rate (depth_factor depth * latency_factor ms)

pub record AdaptiveLoadShedder : Type 0 where
  pub buckets : Dict TokenBucket
  pub total_allowed : ℕ
  pub total_rejected : ℕ

abbrev pub init : AdaptiveLoadShedder
init = record { buckets = []; total_allowed = 0; total_rejected = 0 }

abbrev pub get_or_create_bucket : String → ℕ → AdaptiveLoadShedder → TokenBucket
get_or_create_bucket q now s = get_or (new_bucket now) (lookup q s.buckets)

module _ {P : Type 0} where
  unfoldable pub compute_adjusted_rate : String → QueueManager P → WorkerRegistry → ℕ
  unfolding rate
  compute_adjusted_rate q m r = rate (queue_depth q m) (average_latency_ms q r)

-- 1/rate seconds, in milliseconds
unfoldable pub retry_after : ℕ → ℕ
retry_after rate = (token_unit + rate - 1) / rate

-- `check_and_consume` after the rate is known; the result is `none` if the request is allowed, and
-- the hint if not
unfoldable pub check_at : String → ℕ → ℕ → AdaptiveLoadShedder → AdaptiveLoadShedder × Option ℕ
unfolding refill consume retry_after
check_at q rate now s =
    let (b, allowed) = consume (refill rate now (get_or_create_bucket q now s)) in
    let s' = record s { buckets = insert q b s.buckets } in
    if allowed
    then (record s' { total_allowed = s.total_allowed + 1 }, none)
    else (record s' { total_rejected = s.total_rejected + 1 }, some (retry_after rate))

unfoldable pub check_and_consume :
    {P : Type 0}
    → String
    → ℕ
    → QueueManager P
    → WorkerRegistry
    → AdaptiveLoadShedder
    → AdaptiveLoadShedder × Option ℕ
check_and_consume q now m r s = check_at q (compute_adjusted_rate q m r) now s
