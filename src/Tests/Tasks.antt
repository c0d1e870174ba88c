-- ===== src/Tests/Tasks.antt =====
-- Runs of the default tasks of a worker.
use distro_sync.Prelude.{◌≡◌, refl, some, none}
use distro_sync.Executor.{ℤ, Payload, Result, cpu_bound_task}
use distro_sync.Executor.Fibonacci.{iterate, fibonacci-iterate}

abbrev fibonacci : Payload
fibonacci = record { task_type = some "fibonacci"; items = none; n = some (ℤ.pos 12) }

fibonacci-iterate_example :
    cpu_bound_task (λ xs. xs) 7 fibonacci ≡ Result.fibonacci (ℤ.pos (iterate 0 1 12)) (ℤ.pos 12) 7
fibonacci-iterate_example = fibonacci-iterate (λ xs. xs) 7 12 fibonacci refl refl
