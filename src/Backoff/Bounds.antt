-- ===== src/Backoff/Bounds.antt =====
-- The range of the delays, and how many there are.
use distro_sync.Prelude.{ℕ, ◌+◌, ◌≤◌, ◌<◌, ◌≡◌, Option, none, some, arith, max, if◌then◌else◌}
use distro_sync.Backoff.{ExponentialBackoff, capped_delay, at_least, next_wait}

-- A draw from the range that is asked for.
abbrev pub IsDraw : (ℕ → ℕ) → Type 0
IsDraw uniform = (c : ℕ) → uniform c ≤ c

abbrev pub floor_of : Option ℕ → ℕ
floor_of none = 0
floor_of (some r) = r

-- While attempts are left a delay is given, it is at least the server's hint and at most the
-- larger of the hint and of `max_delay`, and one attempt is counted. The draw is within its range.
pub next_wait_bounds :
    (uniform : ℕ → ℕ) (hint : Option ℕ) (b : ExponentialBackoff)
    → IsDraw uniform
    → b.attempt < b.max_attempts
    → (d : ℕ) × (next_wait uniform hint b ≡ (record b { attempt = b.attempt + 1 }, some d))
      × (floor_of hint ≤ d)
      × (d ≤ max b.max_delay (floor_of hint))
unfolding next_wait
next_wait_bounds uniform hint b draw h = (
  at_least hint (if b.jitter then uniform (capped_delay b) else capped_delay b),
  ground arith,
  ground (arith, draw (capped_delay b)),
  ground (arith, draw (capped_delay b)),
)

-- With none left the call raises, and the state is what it was.
pub next_wait_exhausted :
    (uniform : ℕ → ℕ) (hint : Option ℕ) (b : ExponentialBackoff)
    → b.max_attempts ≤ b.attempt
    → next_wait uniform hint b ≡ (b, none)
unfolding next_wait
next_wait_exhausted uniform hint b h = ground arith
