-- ===== src/Shedder/Bucket.antt =====
-- What one request does to the token bucket of its queue.
use distro_sync.Prelude.{
  ℕ, ◌+◌, ◌-◌, ◌*◌, ◌≤◌, String, ◌≡◌, Option, none, some, arith, leb, min, if◌then◌else◌,
  Option-cases, inl, inr, ◌≢◌, eq-false, ◌∙◌,
}
use distro_sync.Dict.{lookup, insert}
use distro_sync.Dict.Laws.{lookup-insert, lookup-insert_self}
use distro_sync.Shedder.{
  TokenBucket, AdaptiveLoadShedder, refill, consume, check_at, get_or_create_bucket, token_unit,
  bucket_capacity, retry_after,
}

-- 1 for a request that passes
abbrev pub passes : Option ℕ → ℕ
passes none = 1
passes (some hint) = 0

-- what one request sees in a bucket, and how it leaves the bucket
abbrev pub refilled : ℕ → ℕ → TokenBucket → ℕ
refilled rate now b = min b.capacity (b.tokens + (now - b.last_refill) * rate)

abbrev pub left : ℕ → ℕ → TokenBucket → TokenBucket
left rate now b = record b {
  tokens =
      if leb token_unit (refilled rate now b)
      then refilled rate now b - token_unit
      else refilled rate now b;
  last_refill = now;
}

module _ (q : String) (rate now : ℕ) (s : AdaptiveLoadShedder) where
  -- the bucket that the request finds, or the full one that it makes
  abbrev pub found : TokenBucket
  found = get_or_create_bucket q now s

  pub check_at_lem :
      (lookup q (check_at q rate now s).0.buckets ≡ some (left rate now found))
      × ((check_at q rate now s).1
          ≡ (if leb token_unit (refilled rate now found) then none else some (retry_after rate)))
  unfolding check_at refill consume
  check_at_lem = ground (arith, lookup-insert_self q (consume (refill rate now found)).0 s.buckets)

  -- the tokens that the request spends and those that it leaves were in the bucket or flowed in
  pub check_at-cost :
      passes (check_at q rate now s).1 * token_unit + (left rate now found).tokens
      ≤ found.tokens + (now - found.last_refill) * rate
  check_at-cost = rw (check_at_lem.1) (ground arith)

-- Every bucket has the capacity that it was made with.
pub record IsSound (s : AdaptiveLoadShedder) : Type 0 where
  pub at_queue :
      (q : String) (b : TokenBucket) → lookup q s.buckets ≡ some b → b.capacity ≡ bucket_capacity

module _ (q : String) (rate now : ℕ) (s : AdaptiveLoadShedder) (sound : IsSound s) where
  found-capacity : (found q rate now s).capacity ≡ bucket_capacity
  found-capacity = elim (Option-cases (lookup q s.buckets)) [
    | inl new ↦ rw new
    | inr (b, e) ↦ rw e (sound.at_queue q b e)
  ]

  buckets-check_at :
      (check_at q rate now s).0.buckets ≡ insert q (left rate now (found q rate now s)) s.buckets
  unfolding check_at refill consume
  buckets-check_at = ground arith

  pub check_at-IsSound : IsSound (check_at q rate now s).0
  check_at-IsSound = record {
    at_queue = λ j b e. ground (
      arith,
      rw buckets-check_at at e,
      lookup-insert j q (left rate now (found q rate now s)) s.buckets,
      found-capacity,
      sound.at_queue j b,
    );
  }

  -- A request for one queue leaves the buckets of the others alone, if every bucket has its
  -- capacity.
  pub check_at_isolated :
      (j : String) → q ≢ j → lookup j (check_at q rate now s).0.buckets ≡ lookup j s.buckets
  check_at_isolated j h = rw buckets-check_at (rw lookup-insert (rw (eq-false q j h)))

  -- what passes and what is left fits in the bucket
  pub check_at-capacity :
      passes (check_at q rate now s).1 * token_unit + (left rate now (found q rate now s)).tokens
      ≤ bucket_capacity
  check_at-capacity = rw (check_at_lem q rate now s).1 (ground (arith, found-capacity))

  -- a request passes once a whole token has flowed in since the last refill
  check_at_passes :
      (b : TokenBucket)
      → lookup q s.buckets ≡ some b
      → token_unit ≤ (now - b.last_refill) * rate
      → (check_at q rate now s).1 ≡ none
  check_at_passes b e h =
      rw e at (check_at_lem q rate now s).1 ∙ ground (arith, sound.at_queue q b e)

pub told_hint :
    (q : String) (rate now : ℕ) (s : AdaptiveLoadShedder) (hint : ℕ)
    → (check_at q rate now s).1 ≡ some hint
    → hint ≡ retry_after rate
told_hint q rate now s hint e = ground (arith, (check_at_lem q rate now s).1)

pub next_passes :
    (q : String) (rate rate' now now' : ℕ) (s : AdaptiveLoadShedder)
    → IsSound s
    → token_unit ≤ (now' - now) * rate'
    → (check_at q rate' now' (check_at q rate now s).0).1 ≡ none
next_passes q rate rate' now now' s sound flow =
    check_at_passes q rate' now' (check_at q rate now s).0 (check_at-IsSound q rate now s sound)
      (left rate now (found q rate now s)) (check_at_lem q rate now s).0 flow
