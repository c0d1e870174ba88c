-- ===== src/Broker/Durable/Resolve.antt =====
-- A task that is acknowledged or buried leaves the tasks that a restart recovers; one that is
-- requeued, by a NACK or by an eviction, stays.
use distro_sync.Prelude.{
  ℕ, String, ◌≡◌, refl, none, some, arith, ◌==◌, eq_iff, eq_refl, eq-sym, if◌then◌else◌, false, ap,
  ◌∙◌,
}
use distro_sync.Dict.{lookup, erase}
use distro_sync.Dict.Laws.{lookup-erase}
use distro_sync.Task.{Status, Task}
use distro_sync.Queue.{
  QueueManager, Action, acknowledge, requeue_by_id, appendleft, release, outcome, acknowledged,
  nacked, dead_letter, taken_out,
}
use distro_sync.Queue.Copies.{queued-appendleft}
use distro_sync.Queue.Copies.Conserve.{IsConsistent, running-not-queued}
use distro_sync.Queue.Everywhere.{Everywhere, Everywhere-change, Everywhere-appendleft}
use distro_sync.Wal.{WalStore, Codec}
use distro_sync.Wal.Rows.{entry, saved, saved-update, saved-update_done, saved-add_to_dlq}
use distro_sync.Broker.Commands.{mark_done, persist_outcome, stub}
use distro_sync.Broker.Durable.{IsSaved, IsDurable, IsDurable-change}

module _ {P : Type 0} (c : Codec P) (id : String) (t : Task P) (m : QueueManager P) (s : WalStore)
    (k : IsConsistent m) (e : lookup id m.in_flight ≡ some t) (d : IsDurable c m s) where
  home : t.task_id ≡ id
  home = k.in_flight_keyed.at_key id t e

  -- the tasks that wait, after the store has changed at `id` alone
  still_waiting :
      (s' : WalStore)
      → ((j : String) → (id == j) ≡ false → saved j s' ≡ saved j s)
      → Everywhere (IsSaved c s') m.queues
  still_waiting s' others =
      Everywhere-change (IsSaved c s) (IsSaved c s') id
        (λ u ne h. rw (others u.task_id (eq-sym u.task_id id ne)) h) m.queues
        (running-not-queued id t m k e) d.waiting

  -- the task is taken out of the registry, and the store forgets it
  leaves :
      (m' : QueueManager P) (s' : WalStore)
      → m'.queues ≡ m.queues
      → m'.in_flight ≡ erase id m.in_flight
      → ((j : String) → saved j s' ≡ (if id == j then none else saved j s))
      → IsDurable c m' s'
  leaves m' s' same taken saves =
      let others = λ (j : String) (ne : (id == j) ≡ false).
        let r : saved j s' ≡ saved j s = rw (saves j) (rw ne) in r in
      IsDurable-change c id m m' s s' d (rw same (still_waiting s' others))
        (λ j ne. (rw taken (rw lookup-erase (rw ne)), others j ne, rw same))
        (λ u p. absurd (ground (arith, rw taken at p, lookup-erase id id m.in_flight, eq_refl id)))
        (λ n. rw (saves id) (rw eq_refl))

  -- the task goes back to its queue, and the store keeps it
  returns :
      (m' : QueueManager P) (s' : WalStore)
      → m'.queues ≡ m.queues
      → m'.in_flight ≡ erase id m.in_flight
      → ((j : String) → saved j s' ≡ (if id == j then some (entry c t) else saved j s))
      → IsDurable c (appendleft (release t) m') s'
  unfolding appendleft
  returns m' s' same taken saves =
      let others = λ (j : String) (ne : (id == j) ≡ false).
        let r : saved j s' ≡ saved j s = rw (saves j) (rw ne) in r in
      IsDurable-change c id m (appendleft (release t) m') s s' d
        (Everywhere-appendleft (IsSaved c s') (release t) m' (rw same (still_waiting s' others))
          (ap (λ (j : String). saved j s') home ∙ rw (saves id) (rw eq_refl)))
        (λ j ne. (
          rw taken (rw lookup-erase (rw ne)),
          others j ne,
          queued-appendleft j (release t) m' ∙ rw (same, home, ne) (omega arith),
        ))
        (λ u p. absurd (ground (arith, rw taken at p, lookup-erase id id m.in_flight, eq_refl id)))
        (λ n. absurd (ground (arith, n, queued-appendleft id (release t) m', home, eq_refl id)))

  -- ACK
  pub ack-IsDurable : (now : ℕ) → IsDurable c (acknowledge id m).0 (mark_done id now s)
  unfolding acknowledge
  ack-IsDurable now =
      rw (acknowledge, e)
        (leaves (acknowledged id t m) (mark_done id now s) refl refl
          (λ j. saved-update_done j id now s))

  -- NACK with attempts left
  pub nack-IsDurable :
      (now : ℕ)
      → IsDurable c (appendleft (release t) (nacked id m)) (
          persist_outcome c id
            (outcome Action.requeued t)
            Action.requeued
            now
            (appendleft (release t) (nacked id m))
            s)
  nack-IsDurable now = returns (nacked id m) _ refl refl (λ j.
      saved-update j id now s Status.pending t.attempts none (entry c t) refl (d.running id t e))

  -- NACK with none left
  pub bury-IsDurable :
      (now : ℕ)
      → IsDurable c (dead_letter now t (nacked id m)) (
          persist_outcome c id
            (outcome Action.dead_lettered t)
            Action.dead_lettered
            now
            (dead_letter now t (nacked id m))
            s)
  bury-IsDurable now = leaves (dead_letter now t (nacked id m)) _ refl refl (λ j.
      saved-add_to_dlq c j
        (stub c id (outcome Action.dead_lettered t) now (dead_letter now t (nacked id m)))
        "max retries exceeded" now s)

  -- an eviction
  pub requeue-IsDurable : IsDurable c (requeue_by_id id m).0 s
  unfolding requeue_by_id
  requeue-IsDurable = rw (requeue_by_id, e) (returns (taken_out id m) s refl refl kept_saved)
    where
      kept_saved : (j : String) → saved j s ≡ (if id == j then some (entry c t) else saved j s)
      kept_saved j = ground (arith, eq_iff id j, d.running id t e)
