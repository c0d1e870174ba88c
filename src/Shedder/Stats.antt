-- ===== src/Shedder/Stats.antt =====
-- The reports of `AdaptiveLoadShedder`: `get_bucket_info` and `get_stats`. To report a bucket is to
-- refill it. Tokens and rates are rounded to hundredths, and are numbers of these here.
pub mod Transparent
use distro_sync.Prelude.{ℕ, ◌+◌, ◌*◌, String, Option, none, some, [], ◌∷◌, map, max, round_div}
use distro_sync.Dict.{Dict, lookup, insert}
use distro_sync.Queue.{QueueManager}
use distro_sync.Registry.{WorkerRegistry}
use distro_sync.Shedder.{
  TokenBucket, AdaptiveLoadShedder, token_unit, rate_unit, refill, compute_adjusted_rate,
}

abbrev pub tokens_shown : ℕ → ℕ
tokens_shown n = round_div (100 * n) token_unit

abbrev pub rate_shown : ℕ → ℕ
rate_shown n = round_div (100 * n) rate_unit

pub record BucketInfo : Type 0 where
  pub tokens : ℕ
  pub capacity : ℕ
  pub nominal_fill_rate : ℕ
  pub adjusted_fill_rate : ℕ

pub record BucketStats : Type 0 where
  pub tokens : ℕ
  pub capacity : ℕ
  pub adjusted_rate : ℕ

-- `rejection_rate` is a fraction, with its numerator and its denominator.
pub record Stats : Type 0 where
  pub total_allowed : ℕ
  pub total_rejected : ℕ
  pub rejection_rate : ℕ × ℕ
  pub buckets : Dict BucketStats

module _ {P : Type 0} where
  unfoldable pub get_bucket_info :
      String
      → ℕ
      → QueueManager P
      → WorkerRegistry
      → AdaptiveLoadShedder
      → AdaptiveLoadShedder × Option BucketInfo
  get_bucket_info q now m r s = elim (lookup q s.buckets) [
    | none ↦ (s, none)
    | some b ↦
        let adjusted = compute_adjusted_rate q m r in
        let b' = refill adjusted now b in
        (
          record s { buckets = insert q b' s.buckets },
          some (record {
            tokens = tokens_shown b'.tokens;
            capacity = b'.capacity;
            nominal_fill_rate = b'.nominal_fill_rate;
            adjusted_fill_rate = rate_shown adjusted;
          }),
        )
  ]

  -- the loop of `get_stats`: the buckets after it, and what it tells of each
  unfoldable pub refill_all :
      ℕ → QueueManager P → WorkerRegistry → Dict TokenBucket → Dict TokenBucket
  refill_all now m r [] = []
  refill_all now m r ((q, b) ∷ d) =
      (q, refill (compute_adjusted_rate q m r) now b) ∷ refill_all now m r d

  abbrev pub bucket_stats :
      QueueManager P → WorkerRegistry → String × TokenBucket → String × BucketStats
  bucket_stats m r (q, b) = (
    q,
    record {
      tokens = tokens_shown b.tokens;
      capacity = b.capacity;
      adjusted_rate = rate_shown (compute_adjusted_rate q m r);
    },
  )

  unfoldable pub get_stats :
      ℕ → QueueManager P → WorkerRegistry → AdaptiveLoadShedder → AdaptiveLoadShedder × Stats
  get_stats now m r s =
      let d = refill_all now m r s.buckets in
      (
        record s { buckets = d },
        record {
          total_allowed = s.total_allowed;
          total_rejected = s.total_rejected;
          rejection_rate = (s.total_rejected, max 1 (s.total_allowed + s.total_rejected));
          buckets = map (bucket_stats m r) d;
        },
      )
