-- ===== src/Wal/Pending.antt =====
-- The rows that a restart loads are those that the store would recover, each once.
use distro_sync.Prelude.{
  ℕ, ◌+◌, String, ◌≡◌, refl, true, some, List, [], ◌∷◌, All, arith, ◌==◌, if◌then◌else◌, eq_iff,
  leb, Bool-cases, inl, inr, ◌∙◌,
}
use distro_sync.Dict.{Dict, IsDict, lookup, held}
use distro_sync.Wal.{
  WalStore, TaskRow, is_recoverable, recoverable, insert_by_age, order_by_age, load_pending_tasks,
}
use distro_sync.Wal.Rows.{row_entry, kept, saved}

-- The primary key: no id is there twice, and each row is filed under its own.
pub record IsTable (d : Dict TaskRow) : Type 0 where
  pub distinct : IsDict d
  pub keyed : (k : String) (r : TaskRow) → lookup k d ≡ some r → r.task_id ≡ k

abbrev pub one_row : String → TaskRow → ℕ
one_row k r = if r.task_id == k then 1 else 0

-- the rows of a list that have the id
unfoldable pub rows : String → List TaskRow → ℕ
rows k [] = 0
rows k (r ∷ rs) = one_row k r + rows k rs

rows-insert_by_age :
    (k : String) (r : TaskRow) (rs : List TaskRow)
    → rows k (insert_by_age r rs) ≡ one_row k r + rows k rs
unfolding rows insert_by_age
rows-insert_by_age k r [] = refl
rows-insert_by_age k r (x ∷ xs) = ground (arith, rows-insert_by_age k r xs)

rows-order_by_age : (k : String) (rs : List TaskRow) → rows k (order_by_age rs) ≡ rows k rs
unfolding rows order_by_age
rows-order_by_age k [] = refl
rows-order_by_age k (r ∷ rs) =
    omega (arith, rows-insert_by_age k r (order_by_age rs), rows-order_by_age k rs)

module _ (Q : TaskRow → Type 0) where
  pub All-insert_by_age :
      (r : TaskRow) (rs : List TaskRow) → Q r → All Q rs → All Q (insert_by_age r rs)
  unfolding insert_by_age
  All-insert_by_age r [] h k = (h, tt)
  All-insert_by_age r (x ∷ xs) h k = elim (Bool-cases (leb r.created_at x.created_at)) [
    | inl before ↦ rw before (h, k)
    | inr later ↦ rw later (k.0, All-insert_by_age r xs h k.1)
  ]

  All-order_by_age : (rs : List TaskRow) → All Q rs → All Q (order_by_age rs)
  unfolding order_by_age
  All-order_by_age [] h = tt
  All-order_by_age (r ∷ rs) h = All-insert_by_age r (order_by_age rs) h.0 (All-order_by_age rs h.1)

-- a table without its first row
pub tail-IsTable : (k : String) (r : TaskRow) (d : Dict TaskRow) → IsTable ((k, r) ∷ d) → IsTable d
unfolding lookup
tail-IsTable k r d h = record {
  distinct = h.distinct.1;
  keyed = λ j x e. elim (Bool-cases (k == j)) [
    | inl same ↦ absurd (ground (arith, h.distinct.0, eq_iff k j))
    | inr other ↦ h.keyed j x (rw other e)
  ];
}

rows-recoverable :
    (k : String) (d : Dict TaskRow) → IsTable d → rows k (recoverable d) ≡ held (kept (lookup k d))
unfolding rows recoverable lookup
rows-recoverable k [] h = refl
rows-recoverable k ((j, r) ∷ d) h = ground (
  arith,
  rows-recoverable k d (tail-IsTable j r d h),
  h.keyed j r (rw ((eq_iff j j).1 refl)),
  h.distinct.0,
  eq_iff j k,
)

All-recoverable :
    (Q : TaskRow → Type 0) (d : Dict TaskRow)
    → ((k : String) (r : TaskRow) → lookup k d ≡ some r → is_recoverable r.status ≡ true → Q r)
    → IsTable d
    → All Q (recoverable d)
unfolding recoverable lookup
All-recoverable Q [] f h = tt
All-recoverable Q ((j, r) ∷ d) f h =
    let rest =
      All-recoverable Q d
        (λ k x e ok. elim (Bool-cases (j == k)) [
          | inl same ↦ absurd (ground (arith, h.distinct.0, eq_iff j k))
          | inr other ↦ f k x (rw other e) ok
        ])
        (tail-IsTable j r d h) in
    elim (Bool-cases (is_recoverable r.status)) [
      | inl ok ↦ rw ok (f j r (rw ((eq_iff j j).1 refl)) ok, rest)
      | inr no' ↦ rw no' rest
    ]

-- Of the rows that a restart loads, each id that the store would recover has one, and no other id
-- has any, if the rows stand under their own ids, each id once.
pub rows-load_pending_tasks :
    (k : String) (s : WalStore) → IsTable s.tasks → rows k (load_pending_tasks s) ≡ held (saved k s)
unfolding load_pending_tasks saved
rows-load_pending_tasks k s h =
    rows-order_by_age k (recoverable s.tasks) ∙ rows-recoverable k s.tasks h

-- Each row that is loaded is what the store would recover under its id.
pub load_pending_tasks-saved :
    (s : WalStore)
    → IsTable s.tasks
    → All (λ r. saved r.task_id s ≡ some (row_entry r)) (load_pending_tasks s)
unfolding load_pending_tasks saved
load_pending_tasks-saved s h =
    All-order_by_age _ (recoverable s.tasks)
      (All-recoverable _ s.tasks (λ k r e ok. ground (arith, h.keyed k r e)) h)
