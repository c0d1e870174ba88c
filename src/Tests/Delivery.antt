-- ===== src/Tests/Delivery.antt =====
-- Runs of broker/queue_manager.py.
use distro_sync.Prelude.{
  ◌+◌, ◌≡◌, ◌≢◌, refl, true, false, none, ◌==◌, if◌then◌else◌, some, List, [], ◌∷◌, ◌++◌, map,
  length, arith, String, eq_iff,
}
use distro_sync.Dict.{lookup}
use distro_sync.Task.{Task, new_task}
use distro_sync.DeadLetter
use distro_sync.Queue
use distro_sync.Queue.{QueueManager, queue}
use distro_sync.Queue.Copies.{queued, copies}
use distro_sync.Queue.Copies.Conserve.{init-IsConsistent}
use distro_sync.Queue.Counters.Accounts.{IsAccounted, init-IsAccounted}
use distro_sync.Queue.Counters.Accounts.Run.{run-IsAccounted}
use distro_sync.Queue.Run.{Op, run, total, tally, arrivals, IsNew, run-copies}
use distro_sync.Queue.Views.Fifo.{
  Arrival, enqueue_all, dequeue_all, arrived, one_more_attempt, fifo,
}
use distro_sync.Queue.Views.Replay.{retry-negative_acknowledge}

abbrev manager : QueueManager String
manager = Queue.init 3

-- a task is produced, taken and failed
abbrev calls : List (Op String)
calls = Op.enqueue "q" "payload" "t" 0 ∷ Op.dequeue "q" "w" ∷ Op.negative_acknowledge "t" 1 ∷ []

calls-IsNew : (j : String) → IsNew j calls (copies j manager)
unfolding copies queued lookup tally arrivals
calls-IsNew j = ground arith

run-copies_example : copies "t" (run calls manager) ≡ total "t" calls (copies "t" manager)
run-copies_example = run-copies calls manager (init-IsConsistent 3) calls-IsNew "t"

run-IsAccounted_example : IsAccounted (run calls manager)
run-IsAccounted_example =
    run-IsAccounted calls manager (init-IsConsistent 3) calls-IsNew (tt, (tt, (tt, tt)))
      (init-IsAccounted 3)

abbrev q : String
q = "q"

q_named : q ≢ "*"
q_named e = absurd (ground (arith, (eq_iff q "*").1 e))

abbrev two : List (Arrival String)
two =
    record { payload = "a"; task_id = "t1"; now = 1 }
    ∷ record { payload = "b"; task_id = "t2"; now = 2 }
    ∷ []

fifo_example :
    dequeue_all (length (queue "q" manager) + 2) "q" "w" (enqueue_all "q" two manager)
    ≡ map (λ t. some (one_more_attempt t)) (queue "q" manager ++ map (arrived "q") two)
fifo_example = fifo "q" "w" two manager q_named

abbrev pub task : Task String
task = new_task "t" "q" "payload" 0

abbrev waiting : QueueManager String
waiting = record manager { queues = ("q", task ∷ []) ∷ [] }

-- a task on its last attempt
abbrev failing : QueueManager String
failing = record manager {
  queues = ("q", new_task "v" "q" "payload" 4 ∷ []) ∷ [];
  in_flight = ("t", record task { attempts = 3 }) ∷ [];
}

retry-negative_acknowledge_example :
    let (m', found) = Queue.retry "t" (Queue.negative_acknowledge "t" 9 failing).0 in
    (found ≡ true)
    × (queue "q" m' ≡ (
        if "q" == "q"
        then queue "q" failing ++ record task { dead_lettered_at = some 9 } ∷ []
        else queue "q" failing))
    × (lookup "t" m'.in_flight ≡ none)
    × (lookup "t" m'.dead_letter_queue.tasks ≡ none)
    × (Queue.retry "t" m' ≡ (m', false))
unfolding lookup
retry-negative_acknowledge_example =
    retry-negative_acknowledge "q" 9 (record task { attempts = 3 }) failing refl (omega arith)
