-- ===== src/Wal/Stats.antt =====
-- `get_stats` of `WALStore`, but for `db_path`, which names the file.
use distro_sync.Prelude.{
  ℕ, zero, suc, Bool, true, false, Option, none, some, [], ◌∷◌, length, if◌then◌else◌,
}
use distro_sync.Dict.{Dict}
use distro_sync.Task.{Status}
use distro_sync.Wal.{WalStore, TaskRow}

abbrev pub same_status : Status → Status → Bool
same_status Status.pending Status.pending = true
same_status Status.in_flight Status.in_flight = true
same_status Status.done Status.done = true
same_status Status.failed Status.failed = true
same_status Status.dead_lettered Status.dead_lettered = true
same_status _ _ = false

unfoldable pub count_status : Status → Dict TaskRow → ℕ
count_status st [] = 0
count_status st ((k, r) ∷ d) =
    let n = count_status st d in if same_status st r.status then suc n else n

-- GROUP BY status: a status that no row has gives no group
abbrev pub group : ℕ → Option ℕ
group zero = none
group (suc n) = some (suc n)

pub record Stats : Type 0 where
  pub tasks_by_status : Status → Option ℕ
  pub dlq_count : ℕ

unfoldable pub get_stats : WalStore → Stats
get_stats s = record {
  tasks_by_status = λ st. group (count_status st s.tasks);
  dlq_count = length s.dead_letter_queue;
}
