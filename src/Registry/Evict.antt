-- ===== src/Registry/Evict.antt =====
-- What an eviction round does: to the registry, and to the tasks of the queue manager.
use distro_sync.Prelude.{
  ℕ, ◌+◌, ◌≤◌, String, ◌≡◌, refl, Bool, false, ◌||◌, Option, none, some, List, [], ◌∷◌, arith, ◌==◌,
  if◌then◌else◌, Option-cases, inl, inr, eq_iff, member, ◌∙◌,
}
use distro_sync.Dict.{Dict, IsDict, lookup, insert, erase, is_some}
use distro_sync.Dict.Laws.{lookup-erase, lookup-insert_self, insert-IsDict}
use distro_sync.Queue.{QueueManager, requeue_by_id, appendleft}
use distro_sync.Queue.Copies.{copies}
use distro_sync.Queue.Copies.Conserve.{IsConsistent, copies-requeue_by_id}
use distro_sync.Queue.Run.{Op, apply, arrivals, tally, apply-IsConsistent}
use distro_sync.Registry.{
  WorkerInfo, WorkerStatus, WorkerRegistry, is_dead, dead_workers, delete_all, requeue_tasks,
  requeue_workers, count_if, evict_dead_workers, record_heartbeat, beat, heartbeat_timeout,
}

abbrev pub alive : ℕ → Option WorkerInfo → Option WorkerInfo
alive now none = none
alive now (some i) = if is_dead now i then none else some i

-- the task is tracked for one of the workers
unfoldable pub tracked : String → Dict WorkerInfo → Bool
tracked j [] = false
tracked j ((w, i) ∷ d) = member j i.in_flight_tasks || tracked j d

lookup-delete_all :
    (w : String) (dead d : Dict WorkerInfo)
    → lookup w (delete_all dead d) ≡ (if is_some (lookup w dead) then none else lookup w d)
unfolding delete_all lookup
lookup-delete_all w [] d = refl
lookup-delete_all w ((v, i) ∷ dead) d =
    ground (arith, lookup-delete_all w dead (erase v d), lookup-erase w v d, eq_iff v w)

module _ (now : ℕ) where
  lookup-dead_workers-none :
      (w : String) (d : Dict WorkerInfo) → lookup w d ≡ none → lookup w (dead_workers now d) ≡ none
  unfolding dead_workers lookup
  lookup-dead_workers-none w [] h = refl
  lookup-dead_workers-none w ((v, i) ∷ d) h = ground (arith, lookup-dead_workers-none w d)

  -- of the registered workers, those that are not dead
  alive-lookup :
      (w : String) (d : Dict WorkerInfo)
      → IsDict d
      → (if is_some (lookup w (dead_workers now d)) then none else lookup w d)
        ≡ alive now (lookup w d)
  unfolding dead_workers lookup
  alive-lookup w [] h = refl
  alive-lookup w ((v, i) ∷ d) h =
      ground (arith, alive-lookup w d h.1, lookup-dead_workers-none w d, eq_iff v w, h.0)

module _ {P : Type 0} where
  pub lookup-requeue_by_id :
      (j id : String) (m : QueueManager P)
      → lookup j (requeue_by_id id m).0.in_flight ≡ (if id == j then none else lookup j m.in_flight)
  lookup-requeue_by_id j id m = elim (Option-cases (lookup id m.in_flight)) [
    | inl unknown ↦ unfold requeue_by_id in ground (arith, eq_iff id j)
    | inr (t, e) ↦ unfold requeue_by_id appendleft in ground (arith, lookup-erase j id m.in_flight)
  ]

  lookup-requeue_tasks :
      (j : String) (ids : List String) (m : QueueManager P) (n : ℕ)
      → lookup j (requeue_tasks ids (m, n)).0.in_flight
        ≡ (if member j ids then none else lookup j m.in_flight)
  unfolding requeue_tasks member
  lookup-requeue_tasks j [] m n = refl
  lookup-requeue_tasks j (id ∷ ids) m n =
      let (m', b) = requeue_by_id id m in
      ground (arith, lookup-requeue_tasks j ids m' (count_if b n), lookup-requeue_by_id j id m)

  lookup-requeue_workers :
      (j : String) (dead : Dict WorkerInfo) (acc : QueueManager P × ℕ)
      → lookup j (requeue_workers dead acc).0.in_flight
        ≡ (if tracked j dead then none else lookup j acc.0.in_flight)
  unfolding requeue_workers tracked
  lookup-requeue_workers j [] acc = refl
  lookup-requeue_workers j ((w, i) ∷ dead) acc = ground (
    arith,
    lookup-requeue_workers j dead (requeue_tasks i.in_flight_tasks acc),
    lookup-requeue_tasks j i.in_flight_tasks acc.0 acc.1,
  )

  abbrev pub Kept : QueueManager P → QueueManager P → Type 0
  Kept m m' = IsConsistent m' × ((j : String) → copies j m' ≡ copies j m)

  pub requeue_by_id-Kept :
      (id : String) (m : QueueManager P) → IsConsistent m → Kept m (requeue_by_id id m).0
  unfolding apply arrivals tally
  requeue_by_id-Kept id m c = (
    apply-IsConsistent (Op.requeue_by_id id) m c (λ j. omega (arith, c.once j)),
    λ j. copies-requeue_by_id m c j id,
  )

  pub requeue_tasks-Kept :
      (ids : List String) (m : QueueManager P) (n : ℕ)
      → IsConsistent m
      → Kept m (requeue_tasks ids (m, n)).0
  unfolding requeue_tasks
  requeue_tasks-Kept [] m n c = (c, λ j. refl)
  requeue_tasks-Kept (id ∷ ids) m n c =
      let (m', b) = requeue_by_id id m in
      let (c', e) = requeue_by_id-Kept id m c in
      let (c'', e') = requeue_tasks-Kept ids m' (count_if b n) c' in (c'', λ j. e' j ∙ e j)

  requeue_workers-Kept :
      (dead : Dict WorkerInfo) (acc : QueueManager P × ℕ)
      → IsConsistent acc.0
      → Kept acc.0 (requeue_workers dead acc).0
  unfolding requeue_workers
  requeue_workers-Kept [] acc c = (c, λ j. refl)
  requeue_workers-Kept ((w, i) ∷ dead) acc c =
      let (c', e) = requeue_tasks-Kept i.in_flight_tasks acc.0 acc.1 c in
      let (c'', e') = requeue_workers-Kept dead (requeue_tasks i.in_flight_tasks acc) c' in
      (c'', λ j. e' j ∙ e j)

  module _ (now : ℕ) (r : WorkerRegistry) (m : QueueManager P) where
    pub lookup-evict_dead_workers :
        (w : String)
        → IsDict r.workers
        → lookup w (evict_dead_workers now r m).0.workers ≡ alive now (lookup w r.workers)
    unfolding evict_dead_workers
    lookup-evict_dead_workers w h =
        lookup-delete_all w (dead_workers now r.workers) r.workers ∙ alive-lookup now w r.workers h

    -- After an eviction round a task is in flight exactly if it was before and no worker that was
    -- evicted had it.
    pub in_flight-evict_dead_workers :
        (j : String)
        → lookup j (evict_dead_workers now r m).1.in_flight
          ≡ (if tracked j (dead_workers now r.workers) then none else lookup j m.in_flight)
    unfolding evict_dead_workers
    in_flight-evict_dead_workers j =
        lookup-requeue_workers j (dead_workers now r.workers) (m, r.total_tasks_reassigned)

    -- An eviction round keeps a consistent queue manager consistent, loses no task and duplicates
    -- none.
    pub copies-evict_dead_workers :
        IsConsistent m
        → IsConsistent (evict_dead_workers now r m).1
          × ((j : String) → copies j (evict_dead_workers now r m).1 ≡ copies j m)
    unfolding evict_dead_workers
    copies-evict_dead_workers c =
        requeue_workers-Kept (dead_workers now r.workers) (m, r.total_tasks_reassigned) c

module _ {P : Type 0} where
  -- A registered worker whose last heartbeat is within the timeout is still registered after the
  -- round, just as it was before the heartbeat, tasks included, but for the time of the heartbeat
  -- and the status, which is active; no worker is listed twice.
  pub heartbeat_protects :
      (w : String) (i : WorkerInfo) (beat_at now : ℕ) (r : WorkerRegistry) (m : QueueManager P)
      → IsDict r.workers
      → lookup w r.workers ≡ some i
      → now ≤ beat_at + heartbeat_timeout
      → lookup w (evict_dead_workers now (record_heartbeat w beat_at r).0 m).0.workers
        ≡ some (record i { last_heartbeat = beat_at; status = WorkerStatus.active })
  unfolding record_heartbeat
  heartbeat_protects w i beat_at now r m h e le =
      let ws = insert w (beat beat_at i) r.workers in
      rw (record_heartbeat, e)
        (lookup-evict_dead_workers now (record r { workers = ws }) m w
            (insert-IsDict w (beat beat_at i) r.workers h)
          ∙ rw lookup-insert_self (ground arith))
