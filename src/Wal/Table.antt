-- ===== src/Wal/Table.antt =====
-- Each statement keeps the primary key of the table of the tasks.
use distro_sync.Prelude.{
  ℕ, String, ◌≡◌, refl, Option, none, some, [], arith, Option-cases, inl, inr, eq_iff, ◌∙◌,
}
use distro_sync.Dict.{Dict, lookup, insert, erase}
use distro_sync.Dict.Laws.{lookup-insert, lookup-erase, insert-IsDict, erase-IsDict}
use distro_sync.Task.{Status, Task}
use distro_sync.Wal.{
  WalStore, TaskRow, Codec, save_task, add_to_dlq, updated, update_task_status, row_of,
}
use distro_sync.Wal.Pending.{IsTable}

pub empty-IsTable : IsTable []
unfolding lookup
empty-IsTable = record { distinct = tt; keyed = λ k r e. absurd (ground (arith, e)) }

insert-IsTable :
    (r : TaskRow) (id : String) (d : Dict TaskRow)
    → r.task_id ≡ id
    → IsTable d
    → IsTable (insert id r d)
insert-IsTable r id d e h = record {
  distinct = insert-IsDict id r d h.distinct;
  keyed = λ k x p. ground (arith, e, p, lookup-insert k id r d, eq_iff id k, h.keyed k x);
}

erase-IsTable : (id : String) (d : Dict TaskRow) → IsTable d → IsTable (erase id d)
erase-IsTable id d h = record {
  distinct = erase-IsDict id d h.distinct;
  keyed = λ k x p. ground (arith, p, lookup-erase k id d, eq_iff id k, h.keyed k x);
}

pub update_task_status-IsTable :
    (id : String) (st : Status) (n : Option ℕ) (w : Option String) (now : ℕ) (s : WalStore)
    → IsTable s.tasks
    → IsTable (update_task_status id st n w now s).0.tasks
unfolding update_task_status
update_task_status-IsTable id st n w now s h = elim (Option-cases (lookup id s.tasks)) [
  | inl missing ↦ rw (update_task_status, missing) h
  | inr (r, e) ↦
      rw (update_task_status, e)
        (insert-IsTable (updated st n w now r) id s.tasks (same n w r ∙ h.keyed id r e) h)
]
  where
    same :
        (n : Option ℕ) (w : Option String) (r : TaskRow)
        → (updated st n w now r).task_id ≡ r.task_id
    same (some n) (some w) r = refl
    same (some n) none r = refl
    same none (some w) r = refl
    same none none r = refl

module _ {P : Type 0} (c : Codec P) (t : Task P) (now : ℕ) (s : WalStore)
    (h : IsTable s.tasks) where
  pub save_task-IsTable : IsTable (save_task c t now s).tasks
  unfolding save_task
  save_task-IsTable =
      insert-IsTable (row_of c t now) t.task_id (erase t.task_id s.tasks) refl
        (erase-IsTable t.task_id s.tasks h)

  pub add_to_dlq-IsTable : (error : String) → IsTable (add_to_dlq c t error now s).tasks
  unfolding add_to_dlq
  add_to_dlq-IsTable error = erase-IsTable t.task_id s.tasks h
