-- ===== src/Wal/Loads.antt =====
-- `load_pending_tasks` against what its statement says: SELECT * FROM tasks WHERE status IN
-- ('pending', 'in_flight') ORDER BY created_at ASC.
use distro_sync.Prelude.{
  ℕ, ◌≤◌, String, ◌≡◌, ◌↔◌, ◌⊎◌, refl, sym, ap, ◌∙◌, Bool, true, false, Option, none, some, List,
  [], ◌∷◌, All, arith, ◌==◌, eq_iff, leb, Bool-cases, inl, inr, if◌then◌else◌,
}
use distro_sync.Dict.{Dict, lookup, held}
use distro_sync.Task.{Status}
use distro_sync.Wal.{
  WalStore, TaskRow, is_recoverable, recoverable, insert_by_age, order_by_age, load_pending_tasks,
}
use distro_sync.Wal.Rows.{saved}
use distro_sync.Wal.Pending.{
  IsTable, rows, rows-load_pending_tasks, All-insert_by_age, tail-IsTable,
}

abbrev pub IsOpen : TaskRow → Type 0
IsOpen r = (r.status ≡ Status.pending) ⊎ (r.status ≡ Status.in_flight)

abbrev pub IsListed : TaskRow → List TaskRow → Type 0
IsListed r [] = ⊥
IsListed r (x ∷ xs) = (r ≡ x) ⊎ IsListed r xs

-- by created_at
abbrev pub IsOldestFirst : List TaskRow → Type 0
IsOldestFirst [] = Unit
IsOldestFirst (r ∷ rs) = All (λ x. r.created_at ≤ x.created_at) rs × IsOldestFirst rs

open_lem :
    (st : Status) → (is_recoverable st ≡ true) ↔ ((st ≡ Status.pending) ⊎ (st ≡ Status.in_flight))
open_lem Status.pending = (λ h. inl refl, λ h. refl)
open_lem Status.in_flight = (λ h. inr refl, λ h. refl)
open_lem Status.done = (λ h. absurd (ground (arith, h)), λ h. ground (arith, h))
open_lem Status.failed = (λ h. absurd (ground (arith, h)), λ h. ground (arith, h))
open_lem Status.dead_lettered = (λ h. absurd (ground (arith, h)), λ h. ground (arith, h))

All-weaken :
    (a b : ℕ) (rs : List TaskRow)
    → a ≤ b
    → All (λ x. b ≤ x.created_at) rs
    → All (λ x. a ≤ x.created_at) rs
All-weaken a b [] l h = tt
All-weaken a b (r ∷ rs) l h = (omega (arith, l, h.0), All-weaken a b rs l h.1)

insert_by_age-IsOldestFirst :
    (r : TaskRow) (rs : List TaskRow) → IsOldestFirst rs → IsOldestFirst (insert_by_age r rs)
unfolding insert_by_age
insert_by_age-IsOldestFirst r [] h = (tt, tt)
insert_by_age-IsOldestFirst r (x ∷ xs) h = elim (Bool-cases (leb r.created_at x.created_at)) [
  | inl before ↦
      let l : r.created_at ≤ x.created_at = ground (arith, before) in
      rw before ((l, All-weaken r.created_at x.created_at xs l h.0), h)
  | inr later ↦ rw later (
    All-insert_by_age (λ y. x.created_at ≤ y.created_at) r xs (ground (arith, later)) h.0,
    insert_by_age-IsOldestFirst r xs h.1,
  )
]

order_by_age-IsOldestFirst : (rs : List TaskRow) → IsOldestFirst (order_by_age rs)
unfolding order_by_age
order_by_age-IsOldestFirst [] = tt
order_by_age-IsOldestFirst (r ∷ rs) =
    insert_by_age-IsOldestFirst r (order_by_age rs) (order_by_age-IsOldestFirst rs)

module _ (r : TaskRow) where
  insert_by_age-IsListed :
      (x : TaskRow) (xs : List TaskRow)
      → IsListed r (insert_by_age x xs) ↔ ((r ≡ x) ⊎ IsListed r xs)
  unfolding insert_by_age
  insert_by_age-IsListed x [] = (λ h. h, λ h. h)
  insert_by_age-IsListed x (y ∷ ys) = elim (Bool-cases (leb x.created_at y.created_at)) [
    | inl before ↦ rw before (λ h. h, λ h. h)
    | inr later ↦
        let (to, from) = insert_by_age-IsListed x ys in
        rw later (
          λ h. elim h [
            | inl e ↦ inr (inl e)
            | inr l ↦ elim (to l) [ inl e ↦ inl e | inr k ↦ inr (inr k) ]
          ],
          λ h. elim h [
            | inl e ↦ inr (from (inl e))
            | inr l ↦ elim l [ inl e ↦ inl e | inr k ↦ inr (from (inr k)) ]
          ],
        )
  ]

  order_by_age-IsListed : (rs : List TaskRow) → IsListed r (order_by_age rs) ↔ IsListed r rs
  unfolding order_by_age
  order_by_age-IsListed [] = (λ h. h, λ h. h)
  order_by_age-IsListed (x ∷ xs) =
      let (to, from) = insert_by_age-IsListed x (order_by_age xs) in
      let (to', from') = order_by_age-IsListed xs in
      (
        λ h. elim (to h) [ inl e ↦ inl e | inr l ↦ inr (to' l) ],
        λ h. elim h [ inl e ↦ from (inl e) | inr l ↦ from (inr (from' l)) ],
      )

  -- a row is put before the others if the test says so
  of_cons :
      (b : Bool) (x : TaskRow) (xs : List TaskRow)
      → IsListed r (if b then x ∷ xs else xs)
      → ((r ≡ x) × (b ≡ true)) ⊎ IsListed r xs
  of_cons true x xs (inl e) = inl (e, refl)
  of_cons true x xs (inr l) = inr l
  of_cons false x xs l = inr l

  to_cons :
      (b : Bool) (x : TaskRow) (xs : List TaskRow)
      → ((r ≡ x) × (b ≡ true)) ⊎ IsListed r xs
      → IsListed r (if b then x ∷ xs else xs)
  to_cons true x xs (inl (e, b)) = inl e
  to_cons true x xs (inr l) = inr l
  to_cons false x xs (inl (e, b)) = absurd (ground (arith, b))
  to_cons false x xs (inr l) = l

  recoverable-IsListed :
      (d : Dict TaskRow)
      → IsTable d
      → IsListed r (recoverable d)
      → (lookup r.task_id d ≡ some r) × (is_recoverable r.status ≡ true)
  unfolding recoverable lookup
  recoverable-IsListed [] h l = absurd l
  recoverable-IsListed ((j, x) ∷ d) h l =
      elim (of_cons (is_recoverable x.status) x (recoverable d) l) [
        | inl (e, ok) ↦
            let key = h.keyed j x (rw ((eq_iff j j).1 refl) refl) in
            rw e (ground (arith, key, eq_iff j x.task_id), ok)
        | inr k ↦
            let (e, ok) = recoverable-IsListed d (tail-IsTable j x d h) k in
            (ground (arith, h.distinct.0, e, eq_iff j r.task_id), ok)
      ]

  IsListed-recoverable :
      (d : Dict TaskRow)
      → IsTable d
      → lookup r.task_id d ≡ some r
      → is_recoverable r.status ≡ true
      → IsListed r (recoverable d)
  unfolding recoverable lookup
  IsListed-recoverable [] h e ok = absurd (ground (arith, e))
  IsListed-recoverable ((j, x) ∷ d) h e ok =
      to_cons (is_recoverable x.status) x (recoverable d) (elim (Bool-cases (j == r.task_id)) [
        | inl same ↦
            let e' : x ≡ r = ground (arith, e, same) in
            inl (sym e', ap (λ y. is_recoverable y.status) e' ∙ ok)
        | inr other ↦
            inr (IsListed-recoverable d (tail-IsTable j x d h) (ground (arith, e, other)) ok)
      ])

held_bound : {A : Type 0} (o : Option A) → held o ≤ 1
held_bound none = omega arith
held_bound (some x) = omega arith

rows_once : (k : String) (s : WalStore) → IsTable s.tasks → rows k (load_pending_tasks s) ≤ 1
rows_once k s h = rw (rows-load_pending_tasks k s h) (held_bound (saved k s))

-- What a restart loads is the rows of the table whose status is pending or in_flight, those and no
-- others, each id once at most, in the order of their `created_at`, if the rows stand under their
-- own ids, each id once.
pub load_pending_tasks-exact :
    (s : WalStore)
    → IsTable s.tasks
    → IsOldestFirst (load_pending_tasks s)
      × ((r : TaskRow)
          → IsListed r (load_pending_tasks s) ↔ ((lookup r.task_id s.tasks ≡ some r) × IsOpen r))
      × ((k : String) → rows k (load_pending_tasks s) ≤ 1)
unfolding load_pending_tasks
load_pending_tasks-exact s h = (
  order_by_age-IsOldestFirst (recoverable s.tasks),
  λ r.
      let (to, from) = order_by_age-IsListed r (recoverable s.tasks) in
      let (is_open, opens) = open_lem r.status in
      (
        λ l. let (e, ok) = recoverable-IsListed r s.tasks h (to l) in (e, is_open ok),
        λ (e, o). from (IsListed-recoverable r s.tasks h e (opens o)),
      ),
  λ k. rows_once k s h,
)
