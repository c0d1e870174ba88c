-- ===== src/Broker/Durable/Restart.antt =====
-- A restart after a crash: phase 1 of `start` on the store that the broker left behind.
use distro_sync.Prelude.{
  ℕ, String, ◌≡◌, refl, Option, some, List, [], ◌∷◌, All, arith, ◌==◌, Bool-cases, inl, inr, eq_iff,
  ◌∙◌, sym, ap, Option-cases, get_or,
}
use distro_sync.Dict.{Dict, lookup, held}
use distro_sync.Task.{Task}
use distro_sync.Queue
use distro_sync.Queue.{QueueManager, recovered, append, count_enqueued}
use distro_sync.Queue.Copies.{occurs, copies, queued}
use distro_sync.Queue.Copies.Conserve.{IsConsistent, init-IsConsistent}
use distro_sync.Queue.Everywhere.{Everywhere}
use distro_sync.Wal.{WalStore, TaskRow, Codec, load_pending_tasks}
use distro_sync.Wal.Rows.{Entry, entry, row_entry, saved}
use distro_sync.Wal.Pending.{IsTable, rows, rows-load_pending_tasks, load_pending_tasks-saved}
use distro_sync.Broker
use distro_sync.Broker.Admin.{recover_rows, start}
use distro_sync.Broker.Durable.{IsSaved, IsDurable, IsSafe, unfinished}
use distro_sync.Broker.Durable.Resume.{IsLoaded, IsResuming, IsResumed, recover_rows-IsResumed}

module _ {P : Type 0} (c : Codec P) where
  -- A waiting task with the id, if there is one.
  find-occurs :
      {R : Type 0} (Q : Task P → Type 0) (k : String) (ts : List (Task P))
      → All Q ts
      → ((t : Task P) → t.task_id ≡ k → Q t → R)
      → (occurs k ts ≡ 0 → R)
      → R
  unfolding occurs
  find-occurs Q k [] h f none' = none' refl
  find-occurs Q k (t ∷ ts) h f none' = elim (Bool-cases (t.task_id == k)) [
    | inl same ↦ f t ((eq_iff t.task_id k).0 same) h.0
    | inr other ↦ find-occurs Q k ts h.1 f (λ e. none' (rw other (omega (arith, e))))
  ]

  find-queued :
      {R : Type 0} (Q : Task P → Type 0) (k : String) (d : Dict (List (Task P)))
      → Everywhere Q d
      → ((t : Task P) → t.task_id ≡ k → Q t → R)
      → (queued k d ≡ 0 → R)
      → R
  unfolding queued
  find-queued Q k [] h f none' = none' refl
  find-queued Q k ((q, ts) ∷ d) h f none' =
      find-occurs Q k ts h.0 f λ e. find-queued Q k d h.1 f λ e'. none' (omega (arith, e, e'))

  -- What a restart finds in the store that the broker left behind.
  module _ (m : QueueManager P) (s : WalStore) (k : IsConsistent m) (d : IsDurable c m s) where
    find :
        {R : Type 0} (id : String)
        → ((t : Task P) → saved id s ≡ some (entry c t) → R)
        → (unfinished c id m ≡ 0 → R)
        → R
    find id f none' = elim (Option-cases (lookup id m.in_flight)) [
      | inr (t, e) ↦ f t (d.running id t e)
      | inl idle ↦
          find-queued (IsSaved c s) id m.queues d.waiting
            (λ t e h. f t (sym (ap (λ j. saved j s) e) ∙ h)) (λ n. none' (rw (n, idle) refl))
    ]

    printed :
        (id : String) (e : Entry) → saved id s ≡ some e → c.dumps (c.loads e.payload) ≡ e.payload
    printed id e p =
        find id
          (λ t h.
            let same = ap (λ (o : Option Entry). (get_or e o).payload) (sym p ∙ h) in
            rw (same, c.loads-dumps t.payload) refl)
          (λ n. absurd (ground (arith, p, d.nothing_else id n)))

    pub saved-unfinished : (id : String) → held (saved id s) ≡ unfinished c id m
    saved-unfinished id =
        unfold copies in
        find id (λ t h. ground (arith, h, k.once id, d.nothing_else id))
          (λ n. ground (arith, n, d.nothing_else id n))

    printed_rows :
        (rs : List TaskRow)
        → All (λ r. saved r.task_id s ≡ some (row_entry r)) rs
        → All (IsLoaded c s) rs
    printed_rows [] h = tt
    printed_rows (r ∷ rs) h = ((h.0, printed r.task_id (row_entry r) h.0), printed_rows rs h.1)

    -- The queue manager of a new process, before the loop.
    initially : IsTable s.tasks → IsResuming c (load_pending_tasks s) (Queue.init 3) s
    unfolding queued copies lookup rows
    initially t = record {
      consistent = init-IsConsistent 3;
      waiting = tt;
      idle = λ j. refl;
      only = λ j. refl;
      counted = λ j. omega (arith, rows-load_pending_tasks j s t);
      loaded = printed_rows (load_pending_tasks s) (load_pending_tasks-saved s t);
    }

    resumed :
        (now : ℕ)
        → IsTable s.tasks
        → let (m', s') = recover_rows c (load_pending_tasks s) now (Queue.init 3) s in
          IsResumed c m' s' s
    resumed now t =
        recover_rows-IsResumed c (load_pending_tasks s) now (Queue.init 3) s (initially t)

    -- each task that waited or was in flight is in one place after the restart
    pub start-copies :
        (now tick : ℕ)
        → IsTable s.tasks
        → (id : String)
        → copies id (start c now (Broker.init tick (some s))).queue_manager ≡ unfinished c id m
    unfolding start rows
    start-copies now tick t id =
        let r = (resumed now t).resuming in
        omega (
          arith,
          r.only id,
          r.counted id,
          ap held ((resumed now t).unchanged id),
          saved-unfinished id,
        )

    -- Crash recovery: when a broker stops that was consistent, with a store whose rows stand under
    -- their own ids and agree with the queue manager, a new broker that starts on the same store
    -- is consistent and in agreement with the store again, and each id waits there as often as it
    -- waited or was in flight before.
    pub start-restores :
        (now tick : ℕ)
        → IsTable s.tasks
        → let b = start c now (Broker.init tick (some s)) in
          IsSafe c b × ((id : String) → queued id b.queue_manager.queues ≡ unfinished c id m)
    unfolding start rows
    start-restores now tick t =
        let r = (resumed now t).resuming in
        let counts = λ (j : String). r.counted j in
        (
          record {
            consistent = r.consistent;
            agrees = record {
              waiting = r.waiting;
              running = λ id x e. absurd (ground (arith, e, r.idle id));
              nothing_else = λ id n. ground (arith, n, counts id);
            };
          },
          λ id.
              omega (arith, counts id, ap held ((resumed now t).unchanged id), saved-unfinished id),
        )
