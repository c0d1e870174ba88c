-- ===== src/Executor.antt =====
-- `cpu_bound_task` of worker/task_executor.py, the default function of a ProcessPoolWorker, on
-- payloads of whole numbers. The recursion limit of Python is not modelled.
pub mod Fibonacci
pub mod Pool
use distro_sync.Prelude.{
  ℕ, zero, suc, ◌+◌, ◌*◌, String, Bool, true, false, Option, none, some, List, [], ◌∷◌, length, map,
  take, get_or, sum, leb, ◌==◌, if◌then◌else◌,
}

-- `negsuc n` is -(n + 1)
pub data ℤ : Type 0 where
  pos : ℕ → ℤ
  negsuc : ℕ → ℤ

abbrev pub magnitude : ℤ → ℕ
magnitude (pos n) = n
magnitude (negsuc n) = suc n

-- The fields that the function reads; `items` is the field `data`.
pub record Payload : Type 0 where
  pub task_type : Option String
  pub items : Option (List ℤ)
  pub n : Option ℤ

-- What it returns; the last number is the process id.
pub data Result : Type 0 where
  computed : ℕ → ℕ → ℕ → Result
  fibonacci : ℤ → ℤ → ℕ → Result
  sorted : List ℤ → ℕ → ℕ → Result
  echoed : Payload → ℕ → Result

-- `x ** 2`
abbrev pub square : ℤ → ℕ
square x = magnitude x * magnitude x

unfoldable pub fib : ℕ → ℕ
fib zero = 0
fib (suc zero) = 1
fib (suc (suc n)) = fib (suc n) + fib n

-- `if x <= 1: return x` holds of every negative number
abbrev pub fib_of : ℤ → ℤ
fib_of (pos n) = pos (fib n)
fib_of (negsuc n) = negsuc n

-- `sorted` is the builtin of Python.
module _ (sort : List ℤ → List ℤ) where
  unfoldable pub run_type : String → ℕ → Payload → Result
  run_type task_type pid payload =
      let items = get_or [] payload.items in
      let n = get_or (pos 10) payload.n in
      if task_type == "compute"
      then Result.computed (sum (map square items)) (length items) pid
      else if task_type == "fibonacci"
      then Result.fibonacci (fib_of n) n pid
      else if task_type == "sort"
      then Result.sorted (take 10 (sort items)) (length (sort items)) pid
      else Result.echoed payload pid

  unfoldable pub cpu_bound_task : ℕ → Payload → Result
  unfolding run_type
  cpu_bound_task pid payload = run_type (get_or "compute" payload.task_type) pid payload
