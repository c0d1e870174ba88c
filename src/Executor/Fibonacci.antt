-- ===== src/Executor/Fibonacci.antt =====
-- The naive recursion of the fibonacci task against a loop.
use distro_sync.Prelude.{ℕ, zero, suc, ◌+◌, ◌≡◌, refl, some, List, arith}
use distro_sync.Executor.{ℤ, Payload, Result, fib, run_type, cpu_bound_task}

-- the two last numbers, carried along
unfoldable pub iterate : ℕ → ℕ → ℕ → ℕ
iterate a b zero = a
iterate a b (suc n) = iterate b (a + b) n

iterate_lem : (a b n : ℕ) → iterate a b (suc (suc n)) ≡ iterate a b (suc n) + iterate a b n
unfolding iterate
iterate_lem a b zero = omega arith
iterate_lem a b (suc n) = iterate_lem b (a + b) n

fib_lem : (n : ℕ) → (fib n ≡ iterate 0 1 n) × (fib (suc n) ≡ iterate 0 1 (suc n))
unfolding iterate fib
fib_lem zero = (refl, refl)
fib_lem (suc n) = let (e, e') = fib_lem n in (e', omega (arith, e, e', iterate_lem 0 1 n))

-- The fibonacci task returns, for a number that is not negative, what a loop computes that carries
-- the last two numbers along from 0 and 1.
pub fibonacci-iterate :
    (sort : List ℤ → List ℤ) (pid n : ℕ) (payload : Payload)
    → payload.task_type ≡ some "fibonacci"
    → payload.n ≡ some (ℤ.pos n)
    → cpu_bound_task sort pid payload ≡ Result.fibonacci (ℤ.pos (iterate 0 1 n)) (ℤ.pos n) pid
unfolding cpu_bound_task run_type
fibonacci-iterate sort pid n payload e f = rw (e, f, (fib_lem n).0) refl
