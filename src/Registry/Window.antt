-- ===== src/Registry/Window.antt =====
-- The latency window: at most the last 100 samples of each queue, and a mean within their range.
use distro_sync.Prelude.{
  ℕ, suc, ◌*◌, ◌/◌, ◌≤◌, ◌<◌, String, Option, none, some, List, [], ◌∷◌, arith, get_or, length,
  length-append, sum, All, Option-cases, inl, inr,
}
use native.Mathlib.Nat.{le-div_iff_mul-le, div-lt_iff_lt-mul}
use distro_sync.Dict.{Dict, lookup}
use distro_sync.Dict.Laws.{lookup-insert}
use distro_sync.Registry.{
  WorkerRegistry, max_latencies, push, record_latency, record_latencies, latencies_after,
  complete_task, mean,
}

-- Every queue has at most `max_latencies` samples.
pub record IsBounded (d : Dict (List ℕ)) : Type 0 where
  pub at_queue : (q : String) → length (get_or [] (lookup q d)) ≤ max_latencies

push-le : (x : ℕ) (xs : List ℕ) → length xs ≤ max_latencies → length (push x xs) ≤ max_latencies
unfolding push
push-le x [] h = ground arith
push-le x (y ∷ ys) h = ground (arith, length-append ys (x ∷ []))

record_latency-IsBounded :
    (q : String) (ms : ℕ) (d : Dict (List ℕ)) → IsBounded d → IsBounded (record_latency q ms d)
unfolding record_latency
record_latency-IsBounded q ms d h = record {
  at_queue = λ j. ground (
    arith,
    lookup-insert j q (push ms (get_or [] (lookup q d))) d,
    push-le ms (get_or [] (lookup q d)),
    h.at_queue q,
    h.at_queue j,
  );
}

record_latencies-IsBounded :
    (qs : List String) (ms : ℕ) (d : Dict (List ℕ))
    → IsBounded d
    → IsBounded (record_latencies qs ms d)
unfolding record_latencies
record_latencies-IsBounded [] ms d h = h
record_latencies-IsBounded (q ∷ qs) ms d h =
    record_latencies-IsBounded qs ms (record_latency q ms d) (record_latency-IsBounded q ms d h)

latencies_after-IsBounded :
    (o : Option ℕ) (tick : ℕ) (qs : List String) (d : Dict (List ℕ))
    → IsBounded d
    → IsBounded (latencies_after o tick qs d)
latencies_after-IsBounded none tick qs d h = h
latencies_after-IsBounded (some s) tick qs d h = record_latencies-IsBounded qs _ d h

-- Completing a task keeps the latency window of every queue within its 100 samples.
pub complete_task-IsBounded :
    (w id : String) (tick : ℕ) (r : WorkerRegistry)
    → IsBounded r.queue_latencies
    → IsBounded (complete_task w id tick r).queue_latencies
unfolding complete_task
complete_task-IsBounded w id tick r h = elim (Option-cases (lookup w r.workers)) [
  | inl unknown ↦ rw (complete_task, unknown) h
  | inr (i, e) ↦
      rw (complete_task, e)
        (latencies_after-IsBounded (lookup id i.task_start_times) tick i.queues r.queue_latencies h)
]

sum-le : (b : ℕ) (xs : List ℕ) → All (λ x. x ≤ b) xs → sum xs ≤ b * length xs
unfolding sum
sum-le b [] h = omega arith
sum-le b (x ∷ xs) h = grind (arith, sum-le b xs h.1, h.0)

le-sum : (b : ℕ) (xs : List ℕ) → All (λ x. b ≤ x) xs → b * length xs ≤ sum xs
unfolding sum
le-sum b [] h = omega arith
le-sum b (x ∷ xs) h = grind (arith, le-sum b xs h.1, h.0)

-- The mean of some samples lies between any bounds of them.
pub mean_bounds :
    (lo hi x : ℕ) (xs : List ℕ)
    → All (λ y. lo ≤ y) (x ∷ xs)
    → All (λ y. y ≤ hi) (x ∷ xs)
    → (lo ≤ mean (x ∷ xs)) × (mean (x ∷ xs) ≤ hi)
mean_bounds lo hi x xs a b = (
  (le-div_iff_mul-le (omega arith)).1 (omega (arith, le-sum lo (x ∷ xs) a)),
  omega (arith, div-lt (omega (arith, sum-le hi (x ∷ xs) b))),
)
  where
    div-lt : sum (x ∷ xs) < suc hi * length (x ∷ xs) → sum (x ∷ xs) / length (x ∷ xs) < suc hi
    div-lt = (div-lt_iff_lt-mul (omega arith)).1
