-- ===== src/Queue/Counters.antt =====
-- How many tasks the queue manager has, and how the writes to its queues and registries change that.
pub mod Accounts
use distro_sync.Prelude.{
  ℕ, suc, ◌+◌, String, ◌≡◌, refl, none, some, List, [], ◌∷◌, ◌++◌, arith, ◌==◌, get_or, length,
  length-append, if◌then◌else◌, eq_iff,
}
use distro_sync.Dict.{Dict, IsDict, lookup, insert, erase, held}
use distro_sync.Dict.Laws.{lookup-erase}
use distro_sync.Task.{Task}
use distro_sync.Queue.{QueueManager, ensured, ensure_queue, append, appendleft}
use distro_sync.Queue.Copies.{lookup-ensured}

module _ {V : Type 0} where
  pub length-insert :
      (k : String) (v : V) (d : Dict V) → length (insert k v d) + held (lookup k d) ≡ length d + 1
  unfolding insert lookup
  length-insert k v [] = refl
  length-insert k v ((j, w) ∷ d) = ground (arith, length-insert k v d)

  length-erase-none : (k : String) (d : Dict V) → lookup k d ≡ none → length (erase k d) ≡ length d
  unfolding erase lookup
  length-erase-none k [] h = refl
  length-erase-none k ((j, w) ∷ d) h = ground (arith, h, length-erase-none k d)

  pub length-erase :
      (k : String) (d : Dict V) → IsDict d → length (erase k d) + held (lookup k d) ≡ length d
  unfolding erase lookup
  length-erase k [] h = refl
  length-erase k ((j, w) ∷ d) h =
      ground (arith, length-erase k d h.1, length-erase-none k d, h.0, eq_iff j k)

module _ {P : Type 0} where
  -- the tasks that wait, in all the queues
  unfoldable pub waiting : Dict (List (Task P)) → ℕ
  waiting [] = 0
  waiting ((q, ts) ∷ d) = length ts + waiting d

  pub waiting-insert :
      (q : String) (ts : List (Task P)) (d : Dict (List (Task P)))
      → waiting (insert q ts d) + length (get_or [] (lookup q d)) ≡ waiting d + length ts
  unfolding waiting insert lookup
  waiting-insert q ts [] = omega arith
  waiting-insert q ts ((k, us) ∷ d) = ground (arith, waiting-insert q ts d)

  waiting-ensured : (q : String) (d : Dict (List (Task P))) → waiting (ensured q d) ≡ waiting d
  unfolding ensured
  waiting-ensured q d = ground (arith, waiting-insert q [] d)

  pub waiting-ensure_queue :
      (q : String) (m : QueueManager P) → waiting (ensure_queue q m).queues ≡ waiting m.queues
  unfolding ensure_queue
  waiting-ensure_queue q m = waiting-ensured q m.queues

  pub waiting-append :
      (t : Task P) (m : QueueManager P) → waiting (append t m).queues ≡ waiting m.queues + 1
  unfolding append
  waiting-append t m =
      let d = ensured t.queue_name m.queues in
      let ts = get_or [] (lookup t.queue_name d) in
      omega (
        arith,
        waiting-insert t.queue_name (ts ++ t ∷ []) d,
        length-append ts (t ∷ []),
        waiting-ensured t.queue_name m.queues,
      )

  pub waiting-appendleft :
      (t : Task P) (m : QueueManager P) → waiting (appendleft t m).queues ≡ waiting m.queues + 1
  unfolding appendleft
  waiting-appendleft t m =
      let d = ensured t.queue_name m.queues in
      omega (
        arith,
        waiting-insert t.queue_name (t ∷ get_or [] (lookup t.queue_name d)) d,
        waiting-ensured t.queue_name m.queues,
      )

  -- every task that was enqueued is in one of the four places
  abbrev pub tasks_in : QueueManager P → ℕ
  tasks_in m =
      waiting m.queues + length m.in_flight + length m.completed + length m.dead_letter_queue.tasks
