-- ===== src/Shedder/Limit.antt =====
-- What the token bucket promises: a bound on the requests that pass, and a wait after which one does.
use distro_sync.Prelude.{ℕ, ◌+◌, ◌-◌, ◌*◌, ◌≤◌, String, ◌≡◌, none, some, List, [], ◌∷◌, arith}
use distro_sync.Dict.{lookup}
use distro_sync.Queue.{QueueManager}
use distro_sync.Registry.{WorkerRegistry}
use distro_sync.Shedder.{
  TokenBucket, AdaptiveLoadShedder, check_at, check_and_consume, compute_adjusted_rate, token_unit,
  bucket_capacity, min_fill_rate, base_fill_rate, retry_after,
}
use distro_sync.Shedder.Rate.{mul_mono, rate_bounds, retry_after_exact}
use distro_sync.Shedder.Bucket.{
  passes, left, found, check_at_lem, check_at-cost, IsSound, check_at-capacity, told_hint,
  next_passes,
}

-- What the requests of one queue see of the rest of the broker.
pub record Request (P : Type 0) : Type 0 where
  pub now : ℕ
  pub manager : QueueManager P
  pub registry : WorkerRegistry

module _ {P : Type 0} where
  -- the monotonic clock does not run backwards
  abbrev pub InOrder : ℕ → List (Request P) → Type 0
  InOrder t [] = Unit
  InOrder t (x ∷ xs) = (t ≤ x.now) × InOrder x.now xs

  abbrev pub end_time : ℕ → List (Request P) → ℕ
  end_time t [] = t
  end_time t (x ∷ xs) = end_time x.now xs

  gap_le :
      (gap : ℕ) (q : String) (m : QueueManager P) (r : WorkerRegistry)
      → gap * compute_adjusted_rate q m r ≤ gap * base_fill_rate
  unfolding compute_adjusted_rate
  gap_le gap q m r = mul_mono gap gap _ base_fill_rate (omega arith) (rate_bounds _ _).1

  -- the requests that pass, of a sequence
  pub admitted : String → List (Request P) → AdaptiveLoadShedder → ℕ
  admitted q [] s = 0
  admitted q (x ∷ xs) s =
      let (s', hint) = check_and_consume q x.now x.manager x.registry s in
      passes hint + admitted q xs s'

  end_time-le : (t : ℕ) (xs : List (Request P)) → InOrder t xs → t ≤ end_time t xs
  end_time-le t [] h = omega arith
  end_time-le t (x ∷ xs) h = omega (arith, end_time-le x.now xs h.1, h.0)

  -- In any run of requests for one queue, the tokens that those which pass spend are at most the
  -- tokens that the bucket held and those that flow in at the base rate until the last request.
  pub admitted-le :
      (q : String) (requests : List (Request P)) (s : AdaptiveLoadShedder) (b : TokenBucket)
      → lookup q s.buckets ≡ some b
      → InOrder b.last_refill requests
      → admitted q requests s * token_unit
        ≤ b.tokens + (end_time b.last_refill requests - b.last_refill) * base_fill_rate
  unfolding admitted check_and_consume
  admitted-le q [] s b e h = omega arith
  admitted-le q (x ∷ xs) s b e h =
      let rate = compute_adjusted_rate q x.manager x.registry in
      let s' = (check_at q rate x.now s).0 in
      omega (
        arith,
        rw e at (check_at-cost q rate x.now s),
        admitted-le q xs s' (left rate x.now b) (rw e at ((check_at_lem q rate x.now s).0)) h.1,
        gap_le (x.now - b.last_refill) q x.manager x.registry,
        end_time-le x.now xs h.1,
      )

rate_floor :
    {P : Type 0} (q : String) (m : QueueManager P) (r : WorkerRegistry)
    → min_fill_rate ≤ compute_adjusted_rate q m r
unfolding compute_adjusted_rate
rate_floor q m r = (rate_bounds _ _).0

module _ {P : Type 0} (q : String) (s : AdaptiveLoadShedder) (sound : IsSound s) where
  -- In any window, from a first request to a last one, of requests at times in their order, those
  -- for a queue that pass are at most 200 and 100 for each second of the window, if every bucket
  -- has the capacity of 200.
  pub window_limit :
      (x : Request P) (xs : List (Request P))
      → InOrder x.now xs
      → admitted q (x ∷ xs) s * token_unit
        ≤ bucket_capacity + (end_time x.now xs - x.now) * base_fill_rate
  unfolding admitted check_and_consume
  window_limit x xs h =
      let rate = compute_adjusted_rate q x.manager x.registry in
      let s' = (check_at q rate x.now s).0 in
      omega (
        arith,
        check_at-capacity q rate x.now s sound,
        admitted-le q xs s' (left rate x.now (found q rate x.now s)) (check_at_lem q rate x.now s).0
            h,
      )

  -- Whatever the pressure, and whether the last request for a queue passed or not, a request for
  -- it passes that comes 200 ms or more after that one, if every bucket has its capacity.
  pub no_starvation :
      (x y : Request P)
      → x.now + 200 ≤ y.now
      → let s' = (check_and_consume q x.now x.manager x.registry s).0 in
        (check_and_consume q y.now y.manager y.registry s').1 ≡ none
  unfolding check_and_consume
  no_starvation x y h =
      let r = compute_adjusted_rate q x.manager x.registry in
      let r' = compute_adjusted_rate q y.manager y.registry in
      next_passes q r r' x.now y.now s sound (
        omega (
          arith,
          mul_mono 200 (y.now - x.now) min_fill_rate r' (omega arith)
              (rate_floor q y.manager y.registry),
        ))

  -- A producer that was turned away and waits as long as the hint says, at a rate that has not
  -- fallen, gets through, if every bucket has its capacity and no other request for the queue
  -- comes in between.
  pub retry_after_suffices :
      (x y : Request P) (hint : ℕ)
      → (check_and_consume q x.now x.manager x.registry s).1 ≡ some hint
      → compute_adjusted_rate q x.manager x.registry ≤ compute_adjusted_rate q y.manager y.registry
      → x.now + hint ≤ y.now
      → let s' = (check_and_consume q x.now x.manager x.registry s).0 in
        (check_and_consume q y.now y.manager y.registry s').1 ≡ none
  unfolding check_and_consume
  retry_after_suffices x y hint e up h =
      let r = compute_adjusted_rate q x.manager x.registry in
      let r' = compute_adjusted_rate q y.manager y.registry in
      let told = told_hint q r x.now s hint e in
      next_passes q r r' x.now y.now s sound (
        omega (
          arith,
          (retry_after_exact r (omega (arith, rate_floor q x.manager x.registry))).0,
          mul_mono (retry_after r) (y.now - x.now) r r' (omega arith) up,
        ))
