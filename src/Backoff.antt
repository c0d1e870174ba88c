-- ===== src/Backoff.antt =====
-- `ExponentialBackoff` of producer/backoff.py. A delay is a number of milliseconds and the
-- multiplier a whole number; `random.uniform(0, c)` is `uniform c`, for a function that the caller
-- gives.
pub mod Bounds
use distro_sync.Prelude.{
  ℕ, ◌+◌, ◌*◌, ◌^◌, Bool, true, Option, none, some, leb, min, max, if◌then◌else◌,
}

pub record ExponentialBackoff : Type 0 where
  pub base_delay : ℕ
  pub max_delay : ℕ
  pub multiplier : ℕ
  pub jitter : Bool
  pub max_attempts : ℕ
  pub attempt : ℕ

-- `ExponentialBackoff(max_attempts=n)`
abbrev pub init : ℕ → ExponentialBackoff
init n = record {
  base_delay = 1000;
  max_delay = 60_000;
  multiplier = 2;
  jitter = true;
  max_attempts = n;
  attempt = 0;
}

unfoldable pub exhausted : ExponentialBackoff → Bool
exhausted b = leb b.max_attempts b.attempt

abbrev pub capped_delay : ExponentialBackoff → ℕ
capped_delay b = min (b.base_delay * b.multiplier ^ b.attempt) b.max_delay

-- the server's hint as a floor
abbrev pub at_least : Option ℕ → ℕ → ℕ
at_least none delay = delay
at_least (some retry_after) delay = max delay retry_after

abbrev pub advance : ExponentialBackoff → ExponentialBackoff
advance b = record b { attempt = b.attempt + 1 }

-- No delay stands for the RuntimeError, which is raised before anything is written.
unfoldable pub next_wait : (ℕ → ℕ) → Option ℕ → ExponentialBackoff → ExponentialBackoff × Option ℕ
unfolding exhausted
next_wait uniform retry_after b = if exhausted b then (b, none) else (
  advance b,
  some (at_least retry_after (if b.jitter then uniform (capped_delay b) else capped_delay b)),
)

unfoldable pub reset : ExponentialBackoff → ExponentialBackoff
reset b = record b { attempt = 0 }
