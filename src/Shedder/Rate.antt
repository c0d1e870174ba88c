-- ===== src/Shedder/Rate.antt =====
-- The adjusted fill rate: its range, its answer to pressure, and the hint that is computed from it.
use distro_sync.Prelude.{ℕ, ◌+◌, ◌-◌, ◌*◌, ◌/◌, ◌≤◌, ◌<◌, ◌≡◌, refl, arith, max}
use native.Mathlib.Nat.{le-div_iff_mul-le, div-lt_iff_lt-mul, div-mul-le_self, lt-div-mul-add}
use distro_sync.Shedder.{
  depth_factor, latency_factor, rate, min_fill_rate, base_fill_rate, retry_after, token_unit,
}

depth_factor_bounds : (d : ℕ) → (25 ≤ depth_factor d) × (depth_factor d ≤ 500)
unfolding depth_factor
depth_factor_bounds d = ground arith

latency_factor_bounds : (l : ℕ) → (200 ≤ latency_factor l) × (latency_factor l ≤ 2000)
unfolding latency_factor
latency_factor_bounds l = ground arith

depth_factor_anti : (d e : ℕ) → d ≤ e → depth_factor e ≤ depth_factor d
unfolding depth_factor
depth_factor_anti d e h = ground arith

latency_factor_anti : (k l : ℕ) → k ≤ l → latency_factor l ≤ latency_factor k
unfolding latency_factor
latency_factor_anti k l h = ground arith

-- the rate with its two factors shut
abbrev clamp : ℕ → ℕ → ℕ
clamp d l = max min_fill_rate (d * l)

rate_lem : (d l : ℕ) → rate d l ≡ clamp (depth_factor d) (latency_factor l)
rate_lem d l = unfold rate in refl

pub mul_mono : (a b c d : ℕ) → a ≤ b → c ≤ d → a * c ≤ b * d
mul_mono a b c d h k = grind arith

-- The rate lies between MIN_FILL_RATE and BASE_FILL_RATE, whatever the pressure.
pub rate_bounds : (d l : ℕ) → (min_fill_rate ≤ rate d l) × (rate d l ≤ base_fill_rate)
rate_bounds d l = rw rate_lem (
    omega (
      arith,
      mul_mono (depth_factor d) 500 (latency_factor l) 2000 (depth_factor_bounds d).1
          (latency_factor_bounds l).1,
    ))

-- A deeper queue and slower workers never raise the rate.
pub rate_antitone : (d e k l : ℕ) → d ≤ e → k ≤ l → rate e l ≤ rate d k
rate_antitone d e k l h h' = rw (rate_lem d k) (
    rw (rate_lem e l) (
      omega (
        arith,
        mul_mono (depth_factor e) (depth_factor d) (latency_factor l) (latency_factor k)
            (depth_factor_anti d e h) (latency_factor_anti k l h'),
      )))

-- At a rate above 0 the hint is long enough for one token, and a millisecond less is not.
pub retry_after_exact :
    (rate : ℕ)
    → 0 < rate
    → (token_unit ≤ retry_after rate * rate) × (retry_after rate * rate < token_unit + rate)
unfolding retry_after
retry_after_exact r h =
    let x : ℕ = token_unit + r - 1 in omega (arith, div-mul-le_self x r, lt-div-mul-add {a = x} h)

-- Between the two fill rates the hint is between 10 ms and 200 ms.
pub retry_after_bounds :
    (rate : ℕ)
    → min_fill_rate ≤ rate
    → rate ≤ base_fill_rate
    → (10 ≤ retry_after rate) × (retry_after rate ≤ 200)
unfolding retry_after
retry_after_bounds r h k = (
  (le-div_iff_mul-le (omega arith)).1 (omega arith),
  below ((div-lt_iff_lt-mul (omega arith)).1 (omega arith)),
)
  where
    below : (token_unit + r - 1) / r < 201 → (token_unit + r - 1) / r ≤ 200
    below lt = omega arith
