-- ===== src/Broker/Durable/Intake.antt =====
-- A task that is produced is in the store too.
use distro_sync.Prelude.{
  ℕ, String, ◌≡◌, refl, Option, none, some, List, [], ◌∷◌, ◌++◌, arith, eq_iff, eq_refl, eq-sym,
}
use distro_sync.Task.{Task, new_task}
use distro_sync.Queue.{QueueManager, append, queue, enqueue}
use distro_sync.Queue.Copies.{copies, queued-append}
use distro_sync.Queue.Copies.Conserve.{nowhere}
use distro_sync.Queue.Everywhere.{Everywhere-append, Everywhere-change}
use distro_sync.Queue.Views.{queue-append}
use distro_sync.Wal.{WalStore, Codec, save_task}
use distro_sync.Wal.Rows.{saved-save_task}
use distro_sync.Broker.{find_last}
use distro_sync.Broker.Commands.{persist}
use distro_sync.Broker.Durable.{IsSaved, IsDurable, IsDurable-change, Agrees}

module _ {P : Type 0} (c : Codec P) where
  find_last-append :
      (id : String) (ts : List (Task P)) (t : Task P)
      → t.task_id ≡ id
      → find_last id (ts ++ t ∷ []) ≡ some t
  unfolding find_last
  find_last-append id [] t e = ground (arith, eq_iff t.task_id id)
  find_last-append id (u ∷ ts) t e = rw (find_last-append id ts t e)

  module _ (q : String) (p : P) (id : String) (now : ℕ) (m : QueueManager P) where
    abbrev task : Task P
    task = new_task id q p now

    abbrev after : QueueManager P
    after = (enqueue q p id now m).0

    -- the search of the handlers finds the task that was just enqueued
    pub found : find_last id (queue q after) ≡ some task
    found =
        unfold enqueue in rw (queue-append, eq_refl q) (find_last-append id (queue q m) task refl)

    module _ (fresh : copies id m ≡ 0) where
      save_task-IsDurable :
          (now' : ℕ) (s : WalStore) → IsDurable c m s → IsDurable c after (save_task c task now' s)
      unfolding enqueue append
      save_task-IsDurable now' s d =
          let s' = save_task c task now' s in
          let saves = λ (k : String). saved-save_task c k task now' s refl in
          let (unqueued, idle) = nowhere id m fresh in
          IsDurable-change c id m after s s' d
            (Everywhere-append (IsSaved c s') task m
              (Everywhere-change (IsSaved c s) (IsSaved c s') id
                (λ t ne h. rw (saves t.task_id) (rw (eq-sym t.task_id id ne) h)) m.queues unqueued
                d.waiting)
              (rw (saves id) (rw eq_refl)))
            (λ k ne. (refl, rw (saves k) (rw ne), rw (queued-append k task m, ne) (omega arith)))
            (λ t e. absurd (ground arith))
            (λ n. absurd (ground (arith, n, queued-append id task m, eq_refl id)))

      -- Enqueueing a task with a new id, and persisting it, keeps the store in agreement.
      pub persist-Agrees :
          (now' : ℕ) (store : Option WalStore)
          → Agrees c m store
          → Agrees c after (persist c q id now' after store)
      persist-Agrees now' none d = tt
      persist-Agrees now' (some s) d = rw found (save_task-IsDurable now' s d)
