-- ===== src/Prelude/Numbers.antt =====
-- Rounding, on exact fractions.
use Prim.Native.Nat.{ℕ, ◌+◌, ◌*◌, ◌/◌, ◌%◌, compare, Ordering}

-- Python's `round`: the whole number that is nearest to n / d, and of two the even one.
abbrev pub round_div : ℕ → ℕ → ℕ
round_div n d = elim (compare (2 * (n % d)) d) [
  | Ordering.lt ↦ n / d
  | Ordering.gt ↦ n / d + 1
  | Ordering.eq ↦ n / d + n / d % 2
]
