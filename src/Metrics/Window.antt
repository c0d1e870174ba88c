-- ===== src/Metrics/Window.antt =====
-- The sliding window of the throughput and the percentiles of the latency samples.
use distro_sync.Prelude.{
  ℕ, zero, suc, ◌+◌, ◌≤◌, ◌<◌, String, ◌≡◌, List, [], ◌∷◌, All, arith, get_or, get_elem?, length,
  leb, ltb, if◌then◌else◌, Bool-cases, Option-cases, refl, inl, inr,
}
use distro_sync.Dict.{lookup}
use distro_sync.Shedder.Rate.{mul_mono}
use distro_sync.Metrics.{
  MetricsCollector, throughput_window, prune_window, throughput, insert_sorted, sort, index_of,
  percentile, percentile_latency,
}

-- no entry is later than one that follows it
abbrev pub Ascending : List ℕ → Type 0
Ascending [] = Unit
Ascending (t ∷ ts) = All (λ u. t ≤ u) ts × Ascending ts

-- the entries that are at most one window old
pub recent : ℕ → List ℕ → ℕ
recent tick [] = 0
recent tick (t ∷ ts) = (if leb tick (t + throughput_window) then 1 else 0) + recent tick ts

recent-All :
    (tick t : ℕ) (ts : List ℕ)
    → tick ≤ t + throughput_window
    → All (λ u. t ≤ u) ts
    → recent tick ts ≡ length ts
unfolding recent
recent-All tick t [] h k = ground arith
recent-All tick t (u ∷ ts) h k = ground (arith, h, k.0, recent-All tick t ts h k.1)

length-prune_window :
    (tick : ℕ) (ts : List ℕ) → Ascending ts → length (prune_window tick ts) ≡ recent tick ts
unfolding recent prune_window
length-prune_window tick [] h = ground arith
length-prune_window tick (t ∷ ts) h = elim (Bool-cases (ltb (t + throughput_window) tick)) [
  | inl old ↦ ground (arith, old, length-prune_window tick ts h.1)
  | inr new ↦ ground (arith, new, recent-All tick t ts (ground (arith, new)) h.0)
]

-- The throughput that is reported of a queue counts the recorded acknowledgements that are at most
-- ten seconds old, if their times stand in their order.
pub throughput_exact :
    (q : String) (tick : ℕ) (c : MetricsCollector)
    → Ascending (get_or [] (lookup q c.ack_times))
    → (throughput q tick c).1 ≡ recent tick (get_or [] (lookup q c.ack_times))
unfolding throughput recent
throughput_exact q tick c h = elim (Option-cases (lookup q c.ack_times)) [
  | inl none' ↦ rw none' refl
  | inr (ts, e) ↦ rw e (length-prune_window tick ts (rw e at h))
]

All-insert_sorted :
    (Q : ℕ → Type 0) (x : ℕ) (ys : List ℕ) → Q x → All Q ys → All Q (insert_sorted x ys)
unfolding insert_sorted
All-insert_sorted Q x [] h k = (h, tt)
All-insert_sorted Q x (y ∷ ys) h k = elim (Bool-cases (leb x y)) [
  | inl first ↦ rw first (h, k)
  | inr later ↦ rw later (k.0, All-insert_sorted Q x ys h k.1)
]

All-weaken : (x y : ℕ) (ys : List ℕ) → x ≤ y → All (λ u. y ≤ u) ys → All (λ u. x ≤ u) ys
All-weaken x y [] h k = tt
All-weaken x y (z ∷ ys) h k = (omega (arith, h, k.0), All-weaken x y ys h k.1)

insert_sorted-Ascending : (x : ℕ) (ys : List ℕ) → Ascending ys → Ascending (insert_sorted x ys)
unfolding insert_sorted
insert_sorted-Ascending x [] h = (tt, tt)
insert_sorted-Ascending x (y ∷ ys) h = elim (Bool-cases (leb x y)) [
  | inl first ↦
      let le : x ≤ y = ground (arith, first) in rw first ((le, All-weaken x y ys le h.0), h)
  | inr later ↦
      rw later
        (All-insert_sorted _ x ys (ground (arith, later)) h.0, insert_sorted-Ascending x ys h.1)
]

length-insert_sorted : (x : ℕ) (ys : List ℕ) → length (insert_sorted x ys) ≡ suc (length ys)
unfolding insert_sorted
length-insert_sorted x [] = ground arith
length-insert_sorted x (y ∷ ys) = ground (arith, length-insert_sorted x ys)

length-sort : (xs : List ℕ) → length (sort xs) ≡ length xs
unfolding sort
length-sort [] = ground arith
length-sort (x ∷ xs) = ground (arith, length-sort xs, length-insert_sorted x (sort xs))

sort-Ascending : (xs : List ℕ) → Ascending (sort xs)
unfolding sort
sort-Ascending [] = tt
sort-Ascending (x ∷ xs) = insert_sorted-Ascending x (sort xs) (sort-Ascending xs)

All-sort : (Q : ℕ → Type 0) (xs : List ℕ) → All Q xs → All Q (sort xs)
unfolding sort
All-sort Q [] h = tt
All-sort Q (x ∷ xs) h = All-insert_sorted Q x (sort xs) h.0 (All-sort Q xs h.1)

abbrev at_index : List ℕ → ℕ → ℕ
at_index xs i = get_or 0 (get_elem? xs i)

All-at : (Q : ℕ → Type 0) (xs : List ℕ) (i : ℕ) → i < length xs → All Q xs → Q (at_index xs i)
All-at Q [] i h k = absurd (ground (arith, h))
All-at Q (x ∷ xs) zero h k = k.0
All-at Q (x ∷ xs) (suc i) h k = All-at Q xs i (omega (arith, h)) k.1

at_mono :
    (xs : List ℕ) (i j : ℕ) → Ascending xs → i ≤ j → j < length xs → at_index xs i ≤ at_index xs j
at_mono [] i j a h k = omega arith
at_mono (x ∷ xs) zero zero a h k = omega arith
at_mono (x ∷ xs) zero (suc j) a h k = All-at _ xs j (omega (arith, k)) a.0
at_mono (x ∷ xs) (suc i) zero a h k = absurd (omega (arith, h))
at_mono (x ∷ xs) (suc i) (suc j) a h k = at_mono xs i j a.1 (omega (arith, h)) (omega (arith, k))

index-bound : (n p : ℕ) → index_of (suc n) p < suc n
index-bound n p = ground arith

index_mono : (n p r : ℕ) → p ≤ r → index_of n p ≤ index_of n r
index_mono n p r h = ground (arith, mul_mono n n p r (omega arith) h)

-- A percentile of some samples has each property that all of the samples have.
pub percentile-All :
    (Q : ℕ → Type 0) (x : ℕ) (xs : List ℕ) (p : ℕ) → All Q (x ∷ xs) → Q (percentile (x ∷ xs) p)
unfolding percentile
percentile-All Q x xs p h =
    All-at Q (sort (x ∷ xs)) (index_of (length (x ∷ xs)) p)
      (rw (length-sort (x ∷ xs)) (index-bound (length xs) p)) (All-sort Q (x ∷ xs) h)

-- A higher percentile of a queue's latencies is not below a lower one.
pub percentile_mono :
    (q : String) (p r : ℕ) (c : MetricsCollector)
    → p ≤ r
    → percentile_latency q p c ≤ percentile_latency q r c
unfolding percentile_latency percentile
percentile_mono q p r c h = go (get_or [] (lookup q c.latency_samples))
  where
    go : (xs : List ℕ) → percentile xs p ≤ percentile xs r
    go [] = omega arith
    go (x ∷ xs) =
        at_mono (sort (x ∷ xs)) (index_of (length (x ∷ xs)) p) (index_of (length (x ∷ xs)) r)
          (sort-Ascending (x ∷ xs)) (index_mono (length (x ∷ xs)) p r h)
          (rw (length-sort (x ∷ xs)) (index-bound (length xs) r))
