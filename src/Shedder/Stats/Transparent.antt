-- ===== src/Shedder/Stats/Transparent.antt =====
-- A report does not change what a later request sees, while the rate stays the same.
use distro_sync.Prelude.{
  ℕ, ◌+◌, ◌-◌, ◌≤◌, String, ◌≡◌, refl, none, some, [], ◌∷◌, arith, ◌==◌, if◌then◌else◌,
  Option-cases, inl, inr, eq_iff, Bool-cases, leb, ◌∙◌, ap, sym,
}
use mathlib.Core.Option
use native.Mathlib.Nat.{add-mul}
use distro_sync.Dict.{Dict, lookup}
use distro_sync.Queue.{QueueManager}
use distro_sync.Registry.{WorkerRegistry}
use distro_sync.Shedder.{
  TokenBucket, AdaptiveLoadShedder, token_unit, retry_after, consume, refill, check_at,
  check_and_consume, compute_adjusted_rate,
}
use distro_sync.Shedder.Bucket.{found, check_at_lem}
use distro_sync.Shedder.Stats.{refill_all, get_stats}

-- To refill twice is to refill once, at the later time.
refill-refill :
    (rate t u : ℕ) (b : TokenBucket)
    → b.last_refill ≤ t
    → t ≤ u
    → refill rate u (refill rate t b) ≡ refill rate u b
unfolding refill
refill-refill rate t u b h k =
    let gap : u - b.last_refill ≡ (t - b.last_refill) + (u - t) = omega arith in
    rw (gap, add-mul) (ground arith)

module _ {P : Type 0} (t : ℕ) (m : QueueManager P) (r : WorkerRegistry) where
  lookup-refill_all :
      (q : String) (d : Dict TokenBucket)
      → lookup q (refill_all t m r d)
        ≡ Option.map (λ b. refill (compute_adjusted_rate q m r) t b) (lookup q d)
  unfolding refill_all lookup
  lookup-refill_all q [] = refl
  lookup-refill_all q ((k, c) ∷ d) = elim (Bool-cases (k == q)) [
    | inl same ↦ rw (same, (eq_iff k q).0 same) refl
    | inr other ↦ rw other (lookup-refill_all q d)
  ]

  module _ (q : String) (u : ℕ) (s : AdaptiveLoadShedder)
      (past : (b : TokenBucket) → lookup q s.buckets ≡ some b → b.last_refill ≤ t)
      (later : t ≤ u) where
    abbrev told : AdaptiveLoadShedder
    told = (get_stats t m r s).0

    abbrev rate : ℕ
    rate = compute_adjusted_rate q m r

    refill-found : refill rate u (found q rate u told) ≡ refill rate u (found q rate u s)
    unfolding get_stats
    refill-found = elim (Option-cases (lookup q s.buckets)) [
      | inl new ↦ rw (lookup-refill_all, new) refl
      | inr (b, e) ↦ rw (lookup-refill_all, e) (refill-refill rate t u b (past b e) later)
    ]

    -- a request is answered by the refilled bucket alone
    answer :
        (v : AdaptiveLoadShedder)
        → ((check_at q rate u v).1 ≡ (
            if leb token_unit (refill rate u (found q rate u v)).tokens
            then none
            else some (retry_after rate)))
          × (lookup q (check_at q rate u v).0.buckets
              ≡ some (consume (refill rate u (found q rate u v))).0)
    unfolding refill consume
    answer v = let (b, hint) = check_at_lem q rate u v in (hint, b ∙ ground arith)

    -- A report of the load shedder does not change what a request for a queue that comes at the
    -- same time or later gets, nor the bucket that it leaves, under the same pressure, if the
    -- bucket was not refilled after the report.
    pub get_stats-transparent :
        ((check_and_consume q u m r told).1 ≡ (check_and_consume q u m r s).1)
        × (lookup q (check_and_consume q u m r told).0.buckets
            ≡ lookup q (check_and_consume q u m r s).0.buckets)
    unfolding check_and_consume
    get_stats-transparent =
        let (hint, b) = answer told in
        let (hint', b') = answer s in
        let same = refill-found in
        (
          hint
              ∙ ap
                  (λ (x : TokenBucket).
                    if leb token_unit x.tokens then none else some (retry_after rate))
                  same
              ∙ sym hint',
          b ∙ ap (λ (x : TokenBucket). some (consume x).0) same ∙ sym b',
        )
