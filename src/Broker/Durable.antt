-- ===== src/Broker/Durable.antt =====
-- The agreement of the store with the queue manager: the store would recover exactly the tasks that
-- wait or are in flight, each with its queue, its payload and its count of attempts.
pub mod Intake
pub mod Consume
pub mod Resolve
pub mod Steps
pub mod Settle
pub mod Advance
pub mod Purge
pub mod DeadLetters
pub mod Commands
pub mod Resume
pub mod Restart
pub mod Reach
pub mod Fate
pub mod Once
use distro_sync.Prelude.{
  ℕ, ◌+◌, String, ◌≡◌, Option, none, some, arith, ◌==◌, false, Bool-cases, inl, inr, eq_iff, sym,
  ap, ◌∙◌,
}
use mathlib.Core.Path.{ap₂}
use distro_sync.Dict.{lookup, held}
use distro_sync.Task.{Task}
use distro_sync.Queue.{QueueManager, ensure_queue}
use distro_sync.Queue.Copies.{queued, copies, queued-ensure_queue}
use distro_sync.Queue.Copies.Conserve.{IsConsistent}
use distro_sync.Queue.Everywhere.{Everywhere, Everywhere-ensure_queue}
use distro_sync.Wal.{WalStore, Codec}
use distro_sync.Broker.{Broker, Response, Reason, require}
use distro_sync.Wal.Rows.{Entry, entry, saved}

module _ {P : Type 0} (c : Codec P) where
  -- the store has what a restart needs of the task
  abbrev pub IsSaved : WalStore → Task P → Type 0
  IsSaved s t = saved t.task_id s ≡ some (entry c t)

  abbrev pub unfinished : String → QueueManager P → ℕ
  unfinished k m = queued k m.queues + held (lookup k m.in_flight)

  pub record IsDurable (m : QueueManager P) (s : WalStore) : Type 0 where
    pub waiting : Everywhere (IsSaved s) m.queues
    pub running :
        (k : String) (t : Task P) → lookup k m.in_flight ≡ some t → saved k s ≡ some (entry c t)
    pub nothing_else : (k : String) → unfinished k m ≡ 0 → saved k s ≡ none

  -- without a store there is nothing to agree with
  abbrev pub Agrees : QueueManager P → Option WalStore → Type 0
  Agrees m none = Unit
  Agrees m (some s) = IsDurable m s

  pub ensure_queue-IsDurable :
      (q : String) (m : QueueManager P) (s : WalStore)
      → IsDurable m s
      → IsDurable (ensure_queue q m) s
  unfolding ensure_queue
  ensure_queue-IsDurable q m s d = record {
    waiting = Everywhere-ensure_queue (IsSaved s) q m d.waiting;
    running = d.running;
    nothing_else = λ k n. d.nothing_else k (omega (arith, n, queued-ensure_queue k q m));
  }

  -- A step that concerns one id: it is enough to look at that id, and at the tasks that wait.
  pub IsDurable-change :
      (id : String) (m m' : QueueManager P) (s s' : WalStore)
      → IsDurable m s
      → Everywhere (IsSaved s') m'.queues
      → ((k : String)
          → (id == k) ≡ false
          → (lookup k m'.in_flight ≡ lookup k m.in_flight)
            × (saved k s' ≡ saved k s)
            × (queued k m'.queues ≡ queued k m.queues))
      → ((t : Task P) → lookup id m'.in_flight ≡ some t → saved id s' ≡ some (entry c t))
      → (unfinished id m' ≡ 0 → saved id s' ≡ none)
      → IsDurable m' s'
  IsDurable-change id m m' s s' d waits others runs rest = record {
    waiting = waits;
    running = λ k t e. elim (Bool-cases (id == k)) [
      | inl same ↦ rw (← (eq_iff id k).0 same) (runs t (rw (← (eq_iff id k).0 same) at e))
      | inr other ↦ let o = others k other in o.1 ∙ d.running k t (sym o.0 ∙ e)
    ];
    nothing_else = λ k n. elim (Bool-cases (id == k)) [
      | inl same ↦ rw (← (eq_iff id k).0 same) (rest (rw (← (eq_iff id k).0 same) at n))
      | inr other ↦
          let o = others k other in
          o.1 ∙ d.nothing_else k (sym (ap₂ (λ (a b : ℕ). a + b) o.2 (ap held o.0)) ∙ n)
    ];
  }

  -- what every step of the broker keeps
  pub record IsSafe (b : Broker P) : Type 0 where
    pub consistent : IsConsistent b.queue_manager
    pub agrees : Agrees b.queue_manager b.wal_store

  pub require-IsSafe :
      {A : Type 0} (o : Option A) (r : Reason) (b : Broker P) (k : A → Broker P × Response P)
      → IsSafe b
      → ((a : A) → IsSafe (k a).0)
      → IsSafe (require o r b k).0
  require-IsSafe none r b k h f = h
  require-IsSafe (some a) r b k h f = f a
