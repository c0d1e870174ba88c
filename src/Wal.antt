-- ===== src/Wal.antt =====
-- `WALStore` of persistence/wal_store.py: the tables as dicts by their primary keys. A payload is
-- stored as the JSON text that `json.dumps` makes. ORDER BY is a stable insertion sort; SQLite
-- leaves the order of equal keys open. A call is one committed transaction.
pub mod Stats
pub mod Rows
pub mod Pending
pub mod Loads
pub mod Table
pub mod Trace
use distro_sync.Prelude.{
  ℕ, ◌≡◌, String, Bool, true, false, not, Option, none, some, List, [], ◌∷◌, map, length, take, leb,
  ltb, ◌==◌, if◌then◌else◌,
}
use distro_sync.Dict.{Dict, lookup, insert, erase, is_some}
use distro_sync.Task.{Status, Task}

-- `json.dumps` and `json.loads` on payloads, and the payload `{}`.
pub record Codec (P : Type 0) : Type 0 where
  pub dumps : P → String
  pub loads : String → P
  pub empty_object : P
  pub loads-dumps : (p : P) → loads (dumps p) ≡ p

pub record TaskRow : Type 0 where
  pub task_id : String
  pub queue_name : String
  pub payload : String
  pub status : Status
  pub attempts : ℕ
  pub assigned_worker : Option String
  pub created_at : ℕ
  pub updated_at : ℕ

pub record DeadRow : Type 0 where
  pub task_id : String
  pub queue_name : String
  pub payload : String
  pub final_error : String
  pub attempts : ℕ
  pub dead_lettered_at : ℕ

pub record WalStore : Type 0 where
  pub tasks : Dict TaskRow
  pub dead_letter_queue : Dict DeadRow
  pub broker_metadata : Dict String

abbrev pub init : WalStore
init = record { tasks = []; dead_letter_queue = []; broker_metadata = [] }

-- INSERT OR REPLACE: the old row goes, the new one comes last
abbrev pub replace : {V : Type 0} → String → V → Dict V → Dict V
replace k v d = insert k v (erase k d)

module _ {P : Type 0} (codec : Codec P) where
  abbrev pub row_of : Task P → ℕ → TaskRow
  row_of t now = record {
    task_id = t.task_id;
    queue_name = t.queue_name;
    payload = codec.dumps t.payload;
    status = t.status;
    attempts = t.attempts;
    assigned_worker = t.assigned_worker;
    created_at = t.created_at;
    updated_at = now;
  }

  unfoldable pub save_task : Task P → ℕ → WalStore → WalStore
  save_task t now s = record s { tasks = replace t.task_id (row_of t now) s.tasks }

  abbrev pub dead_row_of : Task P → String → ℕ → DeadRow
  dead_row_of t error now = record {
    task_id = t.task_id;
    queue_name = t.queue_name;
    payload = codec.dumps t.payload;
    final_error = error;
    attempts = t.attempts;
    dead_lettered_at = now;
  }

  -- one transaction: a row in the one table, none in the other
  unfoldable pub add_to_dlq : Task P → String → ℕ → WalStore → WalStore
  add_to_dlq t error now s = record s {
    dead_letter_queue = replace t.task_id (dead_row_of t error now) s.dead_letter_queue;
    tasks = erase t.task_id s.tasks;
  }

-- the four UPDATE statements, by the arguments that are given
abbrev pub updated : Status → Option ℕ → Option String → ℕ → TaskRow → TaskRow
updated st (some n) (some w) now r = record r {
  status = st;
  attempts = n;
  assigned_worker = some w;
  updated_at = now;
}
updated st (some n) none now r = record r { status = st; attempts = n; updated_at = now }
updated st none (some w) now r = record r {
  status = st;
  assigned_worker = some w;
  updated_at = now;
}
updated st none none now r = record r { status = st; updated_at = now }

unfoldable pub update_task_status :
    String → Status → Option ℕ → Option String → ℕ → WalStore → WalStore × Bool
update_task_status id st attempts worker now s = elim (lookup id s.tasks) [
  | none ↦ (s, false)
  | some r ↦ (record s { tasks = insert id (updated st attempts worker now r) s.tasks }, true)
]

unfoldable pub delete_task : String → WalStore → WalStore × Bool
delete_task id s = (record s { tasks = erase id s.tasks }, is_some (lookup id s.tasks))

-- WHERE status IN ('pending', 'in_flight')
abbrev pub is_recoverable : Status → Bool
is_recoverable Status.pending = true
is_recoverable Status.in_flight = true
is_recoverable _ = false

unfoldable pub recoverable : Dict TaskRow → List TaskRow
recoverable [] = []
recoverable ((k, r) ∷ d) =
    let rest = recoverable d in if is_recoverable r.status then r ∷ rest else rest

-- ORDER BY created_at ASC
unfoldable pub insert_by_age : TaskRow → List TaskRow → List TaskRow
insert_by_age r [] = r ∷ []
insert_by_age r (x ∷ xs) =
    if leb r.created_at x.created_at then r ∷ x ∷ xs else x ∷ insert_by_age r xs

unfoldable pub order_by_age : List TaskRow → List TaskRow
order_by_age [] = []
order_by_age (r ∷ rs) = insert_by_age r (order_by_age rs)

unfoldable pub load_pending_tasks : WalStore → List TaskRow
load_pending_tasks s = order_by_age (recoverable s.tasks)

unfoldable pub load_all_tasks : WalStore → List TaskRow
load_all_tasks s = order_by_age (map (λ e. e.1) s.tasks)

-- `if queue_name`: no filter for None and for the empty text
abbrev pub wanted : Option String → String → Bool
wanted none q = true
wanted (some name) q = if name == "" then true else q == name

unfoldable pub dead_rows : Option String → Dict DeadRow → List DeadRow
dead_rows name [] = []
dead_rows name ((k, r) ∷ d) =
    let rest = dead_rows name d in if wanted name r.queue_name then r ∷ rest else rest

-- ORDER BY dead_lettered_at DESC
unfoldable pub insert_newest : DeadRow → List DeadRow → List DeadRow
insert_newest r [] = r ∷ []
insert_newest r (x ∷ xs) =
    if leb x.dead_lettered_at r.dead_lettered_at then r ∷ x ∷ xs else x ∷ insert_newest r xs

unfoldable pub order_newest : List DeadRow → List DeadRow
order_newest [] = []
order_newest (r ∷ rs) = insert_newest r (order_newest rs)

unfoldable pub get_dlq_tasks : Option String → ℕ → WalStore → List DeadRow
get_dlq_tasks name limit s = take limit (order_newest (dead_rows name s.dead_letter_queue))

unfoldable pub get_dlq_count : Option String → WalStore → ℕ
get_dlq_count name s = length (dead_rows name s.dead_letter_queue)

unfoldable pub replay_dlq_task : String → WalStore → WalStore × Option DeadRow
replay_dlq_task id s = elim (lookup id s.dead_letter_queue) [
  | none ↦ (s, none)
  | some r ↦ (record s { dead_letter_queue = erase id s.dead_letter_queue }, some r)
]

-- DELETE FROM dead_letter_queue, of the rows that are wanted
unfoldable pub unwanted : Option String → Dict DeadRow → Dict DeadRow
unwanted name [] = []
unwanted name ((k, r) ∷ d) =
    let rest = unwanted name d in if wanted name r.queue_name then rest else (k, r) ∷ rest

unfoldable pub purge_dlq : Option String → WalStore → WalStore × ℕ
purge_dlq name s = (
  record s { dead_letter_queue = unwanted name s.dead_letter_queue },
  length (dead_rows name s.dead_letter_queue),
)

unfoldable pub set_metadata : String → String → WalStore → WalStore
set_metadata k v s = record s { broker_metadata = replace k v s.broker_metadata }

unfoldable pub get_metadata : String → WalStore → Option String
get_metadata k s = lookup k s.broker_metadata

unfoldable pub clear_all_data : WalStore → WalStore
clear_all_data s = init
