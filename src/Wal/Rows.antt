-- ===== src/Wal/Rows.antt =====
-- What the store would recover of each task, and how each statement changes that.
use distro_sync.Prelude.{
  ℕ, String, ◌≡◌, true, Option, none, some, arith, ◌==◌, if◌then◌else◌, Option-cases, inl, inr,
  eq_iff,
}
use distro_sync.Dict.{Dict, lookup, erase}
use distro_sync.Dict.Laws.{lookup-insert, lookup-erase}
use distro_sync.Task.{Status, Task}
use distro_sync.Wal.{
  WalStore, TaskRow, Codec, replace, save_task, add_to_dlq, updated, update_task_status,
  is_recoverable,
}

-- The part of a task that a restart keeps.
pub record Entry : Type 0 where
  pub task_id : String
  pub queue_name : String
  pub payload : String
  pub attempts : ℕ

abbrev pub entry : {P : Type 0} → Codec P → Task P → Entry
entry c t = record {
  task_id = t.task_id;
  queue_name = t.queue_name;
  payload = c.dumps t.payload;
  attempts = t.attempts;
}

abbrev pub row_entry : TaskRow → Entry
row_entry r = record {
  task_id = r.task_id;
  queue_name = r.queue_name;
  payload = r.payload;
  attempts = r.attempts;
}

abbrev pub kept : Option TaskRow → Option Entry
kept none = none
kept (some r) = if is_recoverable r.status then some (row_entry r) else none

-- what a restart would recover under the id
unfoldable pub saved : String → WalStore → Option Entry
saved k s = kept (lookup k s.tasks)

pub lookup-replace :
    {V : Type 0} (j k : String) (v : V) (d : Dict V)
    → lookup j (replace k v d) ≡ (if k == j then some v else lookup j d)
lookup-replace j k v d = ground (arith, lookup-insert j k v (erase k d), lookup-erase j k d)

module _ {P : Type 0} (c : Codec P) where
  pub saved-save_task :
      (j : String) (t : Task P) (now : ℕ) (s : WalStore)
      → t.status ≡ Status.pending
      → saved j (save_task c t now s) ≡ (if t.task_id == j then some (entry c t) else saved j s)
  unfolding saved save_task
  saved-save_task j t now s e = rw lookup-replace (ground arith)

  pub saved-add_to_dlq :
      (j : String) (t : Task P) (error : String) (now : ℕ) (s : WalStore)
      → saved j (add_to_dlq c t error now s) ≡ (if t.task_id == j then none else saved j s)
  unfolding saved add_to_dlq
  saved-add_to_dlq j t error now s = ground (arith, lookup-erase j t.task_id s.tasks)

module _ (j id : String) (now : ℕ) (s : WalStore) where
  pub saved-update_done :
      saved j (update_task_status id Status.done none none now s).0
      ≡ (if id == j then none else saved j s)
  unfolding saved update_task_status
  saved-update_done = elim (Option-cases (lookup id s.tasks)) [
    | inl missing ↦ ground (arith, eq_iff id j)
    | inr (r, e) ↦ ground (arith, lookup-insert j id (updated Status.done none none now r) s.tasks)
  ]

  pub saved-update :
      (st : Status) (n : ℕ) (w : Option String) (e : Entry)
      → is_recoverable st ≡ true
      → saved id s ≡ some e
      → saved j (update_task_status id st (some n) w now s).0
        ≡ (if id == j then some (record e { attempts = n }) else saved j s)
  unfolding saved update_task_status
  saved-update st n none e ok h = elim (Option-cases (lookup id s.tasks)) [
    | inl missing ↦ ground arith
    | inr (r, p) ↦ ground (arith, lookup-insert j id (updated st (some n) none now r) s.tasks)
  ]
  saved-update st n (some w) e ok h = elim (Option-cases (lookup id s.tasks)) [
    | inl missing ↦ ground arith
    | inr (r, p) ↦ ground (arith, lookup-insert j id (updated st (some n) (some w) now r) s.tasks)
  ]
