-- ===== src/Broker/Durable/Resume.antt =====
-- The loop of the crash recovery: what it keeps from one row to the next.
use distro_sync.Prelude.{
  ℕ, ◌+◌, String, ◌≡◌, refl, none, some, List, [], ◌∷◌, All, arith, ◌==◌, if◌then◌else◌, eq_iff,
  eq_refl, ◌∙◌,
}
use distro_sync.Dict.{lookup, held}
use distro_sync.Task.{Status, Task}
use distro_sync.Queue
use distro_sync.Queue.{QueueManager, recovered, append, count_enqueued}
use distro_sync.Queue.Copies.{copies, queued, queued-append}
use distro_sync.Queue.Copies.Conserve.{IsConsistent, copies-enqueue_recovered}
use distro_sync.Queue.Run.{Op, apply, arrivals, tally, apply-IsConsistent}
use distro_sync.Queue.Everywhere.{Everywhere, Everywhere-append, Everywhere-map}
use distro_sync.Wal
use distro_sync.Wal.{WalStore, TaskRow, Codec, load_pending_tasks}
use distro_sync.Wal.Rows.{row_entry, saved, saved-update}
use distro_sync.Wal.Pending.{rows}
use distro_sync.Broker.Admin.{recover_rows}
use distro_sync.Broker.Durable.{IsSaved}

module _ {P : Type 0} (c : Codec P) where
  -- a row as the store saved it, with a payload that the codec printed
  abbrev pub IsLoaded : WalStore → TaskRow → Type 0
  IsLoaded s r =
      (saved r.task_id s ≡ some (row_entry r)) × (c.dumps (c.loads r.payload) ≡ r.payload)

  -- The loop with the rows still to come.
  pub record IsResuming (rs : List TaskRow) (m : QueueManager P) (s : WalStore) : Type 0 where
    pub consistent : IsConsistent m
    pub waiting : Everywhere (IsSaved c s) m.queues
    pub idle : (k : String) → lookup k m.in_flight ≡ none
    pub only : (k : String) → copies k m ≡ queued k m.queues
    pub counted : (k : String) → queued k m.queues + rows k rs ≡ held (saved k s)
    pub loaded : All (IsLoaded s) rs

  module _ (r : TaskRow) (rs : List TaskRow) (now : ℕ) (m : QueueManager P) (s : WalStore)
      (h : IsResuming (r ∷ rs) m s) where
    abbrev task : Task P
    task = recovered r.queue_name r.task_id (c.loads r.payload) r.attempts now

    abbrev next : QueueManager P
    next = (Queue.enqueue_recovered r.queue_name r.task_id (c.loads r.payload) r.attempts now m).0

    abbrev store : WalStore
    store = (Wal.update_task_status r.task_id Status.pending (some r.attempts) none now s).0

    -- the row keeps what a restart needs
    unchanged : (k : String) → saved k store ≡ saved k s
    unchanged k =
        saved-update k r.task_id now s Status.pending r.attempts none (row_entry r) refl
          h.loaded.0.0
        ∙ ground (arith, h.loaded.0.0, eq_iff r.task_id k)

    fresh : copies r.task_id m ≡ 0
    unfolding rows
    fresh = ground (arith, h.only r.task_id, h.counted r.task_id, h.loaded.0.0, eq_refl r.task_id)

    keep : (x : TaskRow) → IsLoaded s x → IsLoaded store x
    keep x l = (unchanged x.task_id ∙ l.0, l.1)

    All-keep : (xs : List TaskRow) → All (IsLoaded s) xs → All (IsLoaded store) xs
    All-keep [] l = tt
    All-keep (x ∷ xs) l = (keep x l.0, All-keep xs l.1)

    next-waiting : Everywhere (IsSaved c store) next.queues
    unfolding Queue.enqueue_recovered
    next-waiting =
        Everywhere-append (IsSaved c store) task m
          (Everywhere-map (IsSaved c s) (IsSaved c store) (λ t e. unchanged t.task_id ∙ e) m.queues
            h.waiting)
          (rw (unchanged r.task_id, h.loaded.0.1) h.loaded.0.0)

    queued-next :
        (k : String) → queued k next.queues ≡ queued k m.queues + (if r.task_id == k then 1 else 0)
    unfolding Queue.enqueue_recovered
    queued-next k = queued-append k task m

    step : IsResuming rs next store
    unfolding rows
    step = record {
      consistent =
          unfold apply arrivals tally in
          apply-IsConsistent
            (Op.enqueue_recovered r.queue_name r.task_id (c.loads r.payload) r.attempts now) m
            h.consistent (λ k. ground (arith, h.consistent.once k, fresh, eq_iff r.task_id k));
      waiting = next-waiting;
      idle = unfold Queue.enqueue_recovered append in h.idle;
      only = λ k. omega (
        arith,
        queued-next k,
        h.only k,
        copies-enqueue_recovered k r.queue_name r.task_id (c.loads r.payload) r.attempts now m,
      );
      counted = λ k. rw (unchanged k) (omega (arith, queued-next k, h.counted k));
      loaded = All-keep rs h.loaded.1;
    }

  -- The loop enqueues every row and leaves what the store would recover as it is.
  pub record IsResumed (m' : QueueManager P) (s' s : WalStore) : Type 0 where
    pub resuming : IsResuming [] m' s'
    pub unchanged : (k : String) → saved k s' ≡ saved k s

  pub recover_rows-IsResumed :
      (rs : List TaskRow) (now : ℕ) (m : QueueManager P) (s : WalStore)
      → IsResuming rs m s
      → let (m', s') = recover_rows c rs now m s in IsResumed m' s' s
  unfolding recover_rows
  recover_rows-IsResumed [] now m s h = record { resuming = h; unchanged = λ k. refl }
  recover_rows-IsResumed (r ∷ rs) now m s h =
      let rest =
        recover_rows-IsResumed rs now (next r rs now m s h) (store r rs now m s h)
          (step r rs now m s h) in
      record {
        resuming = rest.resuming;
        unchanged = λ k. rest.unchanged k ∙ unchanged r rs now m s h k;
      }
