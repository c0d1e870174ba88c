-- ===== src/Wal/Trace.antt =====
-- A row, in the one table or in the other, that a statement on the tasks does not lose.
use distro_sync.Prelude.{
  ℕ, ◌+◌, ◌≤◌, String, ◌≡◌, refl, Bool, true, false, Option, none, some, arith, if◌then◌else◌,
  Option-cases, inl, inr, eq_iff,
}
use distro_sync.Dict.{lookup, held}
use distro_sync.Dict.Laws.{lookup-insert, lookup-erase}
use distro_sync.Task.{Status, Task}
use distro_sync.Wal.{WalStore, TaskRow, Codec, save_task, add_to_dlq, updated, update_task_status}
use distro_sync.Wal.Rows.{lookup-replace}

-- the statuses that the broker writes
abbrev pub is_current : Status → Bool
is_current Status.pending = true
is_current Status.in_flight = true
is_current Status.done = true
is_current _ = false

abbrev pub current : Option TaskRow → ℕ
current none = 0
current (some r) = if is_current r.status then 1 else 0

-- the rows of an id, in both tables
abbrev pub traces : String → WalStore → ℕ
traces k s = current (lookup k s.tasks) + held (lookup k s.dead_letter_queue)

abbrev pub IsTraced : String → WalStore → Type 0
IsTraced k s = 1 ≤ traces k s

updated-status :
    (st : Status) (n : Option ℕ) (w : Option String) (now : ℕ) (r : TaskRow)
    → (updated st n w now r).status ≡ st
updated-status st (some n) (some w) now r = refl
updated-status st (some n) none now r = refl
updated-status st none (some w) now r = refl
updated-status st none none now r = refl

pub update_task_status-IsTraced :
    (k id : String) (st : Status) (n : Option ℕ) (w : Option String) (now : ℕ) (s : WalStore)
    → is_current st ≡ true
    → IsTraced k s
    → IsTraced k (update_task_status id st n w now s).0
unfolding update_task_status
update_task_status-IsTraced k id st n w now s ok h = elim (Option-cases (lookup id s.tasks)) [
  | inl e ↦ rw (update_task_status, e) h
  | inr (r, e) ↦
      rw (update_task_status, e, lookup-insert)
        (ground (arith, h, ok, updated-status st n w now r, eq_iff id k))
]

module _ {P : Type 0} (c : Codec P) (k : String) (t : Task P) (now : ℕ) (s : WalStore) where
  pub save_task-IsTraced :
      is_current t.status ≡ true → IsTraced k s → IsTraced k (save_task c t now s)
  unfolding save_task
  save_task-IsTraced ok h = rw lookup-replace (ground (arith, h, ok))

  -- a task that is saved leaves a trace
  pub save_task-traces :
      is_current t.status ≡ true → t.task_id ≡ k → IsTraced k (save_task c t now s)
  unfolding save_task
  save_task-traces ok e = rw lookup-replace (ground (arith, ok, e, eq_iff t.task_id k))

  pub add_to_dlq-IsTraced :
      (error : String) → IsTraced k s → IsTraced k (add_to_dlq c t error now s)
  unfolding add_to_dlq
  add_to_dlq-IsTraced error h =
      rw lookup-replace (ground (arith, h, lookup-erase k t.task_id s.tasks))
