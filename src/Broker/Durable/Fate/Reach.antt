-- ===== src/Broker/Durable/Fate/Reach.antt =====
-- What has become of a task that PRODUCE accepted, after any later steps of the broker.
use distro_sync.Prelude.{
  ℕ, String, ◌≡◌, refl, true, Option, none, some, arith, Option-cases, inl, inr, sym, ◌∙◌,
}
use distro_sync.Dict.{lookup, held}
use distro_sync.Task.{Status}
use distro_sync.Queue
use distro_sync.Queue.{QueueManager}
use distro_sync.Queue.Copies.{copies}
use distro_sync.Queue.Copies.Conserve.{IsConsistent}
use distro_sync.Wal
use distro_sync.Wal.{WalStore, Codec, TaskRow, DeadRow, load_pending_tasks}
use distro_sync.Wal.Rows.{saved}
use distro_sync.Wal.Trace.{IsTraced}
use distro_sync.Broker.{Broker, Clock, Message, Response, init}
use distro_sync.Broker.Commands.{handle_produce}
use distro_sync.Broker.Admin.{evict, start, crash_worker}
use distro_sync.Broker.Dispatch.{Context, run_command, dispatch}
use distro_sync.Broker.Durable.{IsDurable, Agrees, unfinished}
use distro_sync.Broker.Durable.Restart.{saved-unfinished}
use distro_sync.Broker.Durable.Reach.{Step, Reach, IsSound, Step-IsSound, Reach-IsSound}
use distro_sync.Broker.Durable.Fate.{HasTrace, Keeps, handle_produce-Leaves}
use distro_sync.Broker.Durable.Fate.Dispatch.{spares, dispatch-Keeps, recover_rows-IsTraced}

module _ {P : Type 0} (c : Codec P) where
  -- A step that is no purge of the dead letters, no replay of the id and no reset.
  abbrev pub Spares : String → (b b' : Broker P) → Step c b b' → Type 0
  Spares j _ _ (Step.command x msg _ _ fresh e) = spares j msg ≡ true
  Spares j _ _ (Step.eviction clock _ _ e) = Unit
  Spares j _ _ (Step.restart now tick _ _ e) = Unit
  Spares j _ _ (Step.crashed_worker w clock _ _ e) = Unit
  Spares j _ _ (Step.cleared clock _ _ e) = ⊥
  Spares j _ _ (Step.counted n _ _ e) = Unit

  abbrev pub AllSpare : String → (b b' : Broker P) → Reach c b b' → Type 0
  AllSpare j b _ Reach.here = Unit
  AllSpare j b _ (Reach.next m e r s) = AllSpare j b m r × Spares j m e s

  module _ (j : String) where
    start-Keeps : (now tick : ℕ) (b : Broker P) → Keeps j b (start c now (init tick b.wal_store))
    unfolding start
    start-Keeps now tick b = from b.wal_store
      where
        from :
            (o : Option WalStore) → HasTrace j o → HasTrace j (start c now (init tick o)).wal_store
        from none h = h
        from (some s) h = recover_rows-IsTraced c j (load_pending_tasks s) now (Queue.init 3) s h

    crash_worker-Keeps :
        (w : String) (clock : Clock) (b : Broker P) → Keeps j b (crash_worker w clock b)
    unfolding crash_worker
    crash_worker-Keeps w clock b = elim (Option-cases (lookup w b.worker_registry.workers)) [
      | inl e ↦ rw (crash_worker, e) (λ h. h)
      | inr (i, e) ↦ rw (crash_worker, e) (λ h. h)
    ]

    Step-Keeps : (b b' : Broker P) (s : Step c b b') → Spares j b b' s → Keeps j b b'
    unfolding evict
    Step-Keeps b b' (Step.command x msg _ _ fresh e) ok = rw e (dispatch-Keeps c x j msg b ok)
    Step-Keeps b b' (Step.eviction clock _ _ e) ok = rw e (λ h. h)
    Step-Keeps b b' (Step.restart now tick _ _ e) ok = rw e (start-Keeps now tick b)
    Step-Keeps b b' (Step.crashed_worker w clock _ _ e) ok = rw e (crash_worker-Keeps w clock b)
    Step-Keeps b b' (Step.cleared clock _ _ e) ok = absurd ok
    Step-Keeps b b' (Step.counted n _ _ e) ok = rw e (λ h. h)

    pub Reach-Keeps : (b b' : Broker P) (r : Reach c b b') → AllSpare j b b' r → Keeps j b b'
    Reach-Keeps b _ Reach.here ok h = h
    Reach-Keeps b _ (Reach.next m e r s) (ok, spared) h =
        Step-Keeps m e s spared (Reach-Keeps b m r ok h)

  -- Where a task can be: it waits or is in flight, once, in the queue manager; or the store has
  -- filed it as done; or it is among the store's dead letters.
  pub data Fate (j : String) (b : Broker P) (s : WalStore) : Type 0 where
    unfinished_once : unfinished c j b.queue_manager ≡ 1 → Fate j b s
    completed : (r : TaskRow) → lookup j s.tasks ≡ some r → r.status ≡ Status.done → Fate j b s
    buried : (r : DeadRow) → lookup j s.dead_letter_queue ≡ some r → Fate j b s

  module _ (j : String) (b : Broker P) (s : WalStore) (k : IsConsistent b.queue_manager)
      (d : IsDurable c b.queue_manager s) where
    to_run :
        (r : TaskRow)
        → lookup j s.tasks ≡ some r
        → (Wal.is_recoverable r.status ≡ true)
        → Fate j b s
    unfolding saved
    to_run r e ok =
        Fate.unfinished_once (sym (saved-unfinished c b.queue_manager s k d j) ∙ rw (e, ok) refl)

    dead : held (lookup j s.dead_letter_queue) ≡ 1 → Fate j b s
    dead h = elim (Option-cases (lookup j s.dead_letter_queue)) [
      | inl e ↦ absurd (ground (arith, e, h))
      | inr (r, e) ↦ Fate.buried r e
    ]

    traced : IsTraced j s → Fate j b s
    traced h = elim (Option-cases (lookup j s.tasks)) [
      | inl e ↦ dead (ground (arith, e, h))
      | inr (r, e) ↦ by_status r e r.status refl
    ]
      where
        by_status :
            (r : TaskRow) → lookup j s.tasks ≡ some r → (st : Status) → r.status ≡ st → Fate j b s
        by_status r e Status.pending f = to_run r e (rw f refl)
        by_status r e Status.in_flight f = to_run r e (rw f refl)
        by_status r e Status.done f = Fate.completed r e f
        by_status r e Status.failed f = dead (ground (arith, e, f, h))
        by_status r e Status.dead_lettered f = dead (ground (arith, e, f, h))

  accounted :
      (j : String) (b : Broker P)
      → IsSound c b
      → HasTrace j b.wal_store
      → (s : WalStore) × (b.wal_store ≡ some s) × Fate j b s
  accounted j b h = at_store b.wal_store refl h.safe.agrees
    where
      at_store :
          (o : Option WalStore)
          → b.wal_store ≡ o
          → Agrees c b.queue_manager o
          → HasTrace j o
          → (s : WalStore) × (b.wal_store ≡ some s) × Fate j b s
      at_store none e a t = absurd t
      at_store (some s) e a t = (s, e, traced j b s h.safe.consistent a t)

  to_handle_produce :
      (x : Context) (msg : Message P) (b : Broker P)
      → msg.command ≡ some "PRODUCE"
      → dispatch c x msg b ≡ handle_produce c x.uuid x.clock msg b
  unfolding dispatch run_command
  to_handle_produce x msg b e = rw e refl

  -- No accepted task is lost: after a PRODUCE that answers with an id, in a broker with a store in
  -- which everything is sound, and after any further steps of which none is a purge of the dead
  -- letters, a replay of that id or a reset, the broker still has its store, and the task waits or
  -- is in flight, exactly once, or the store has it filed as done, or it is among the store's dead
  -- letters. The id that a command offers for a new task is one that no task has.
  pub dispatch-Fate :
      (x : Context) (msg : Message P) (b : Broker P) (s : WalStore) (j : String) (e : Broker P)
      → IsSound c b
      → copies x.uuid b.queue_manager ≡ 0
      → b.wal_store ≡ some s
      → msg.command ≡ some "PRODUCE"
      → (dispatch c x msg b).1 ≡ Response.produced j
      → (r : Reach c (dispatch c x msg b).0 e) → AllSpare j (dispatch c x msg b).0 e r
      → (s' : WalStore) × (e.wal_store ≡ some s') × Fate j e s'
  dispatch-Fate x msg b s j e h fresh stored produce answered r ok =
      let b' = (dispatch c x msg b).0 in
      let produced = to_handle_produce x msg b produce in
      accounted j e
        (Reach-IsSound c b' e (Step-IsSound c b b' h (Step.command x msg b b' fresh refl)) r)
        (Reach-Keeps j b' e r ok (
          rw produced
            (handle_produce-Leaves c j x.clock x.uuid msg b s stored (rw produced at answered))))
