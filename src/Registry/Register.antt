-- ===== src/Registry/Register.antt =====
-- What a registration does to the tasks that the worker had before.
use distro_sync.Prelude.{
  ℕ, String, ◌≡◌, refl, false, ◌||◌, Option, [], ◌∷◌, List, arith, eq_iff, member, ◌∙◌,
}
use distro_sync.Dict.{Dict, IsDict, lookup, insert, erase}
use distro_sync.Queue.{QueueManager}
use distro_sync.Registry.{
  WorkerInfo, WorkerRegistry, new_worker, register, dead_workers, evict_dead_workers,
}
use distro_sync.Registry.Evict.{tracked, in_flight-evict_dead_workers}

-- a key that is not there is not erased
erase-eq_self : {V : Type 0} (k : String) (d : Dict V) → lookup k d ≡ Option.none → erase k d ≡ d
unfolding erase lookup
erase-eq_self k [] h = refl
erase-eq_self k ((j, v) ∷ d) h = ground (arith, erase-eq_self k d)

tracked-insert :
    (j w : String) (i : WorkerInfo) (d : Dict WorkerInfo)
    → IsDict d
    → tracked j (insert w i d) ≡ (member j i.in_flight_tasks || tracked j (erase w d))
unfolding tracked insert erase
tracked-insert j w i [] h = refl
tracked-insert j w i ((v, k) ∷ d) h =
    ground (arith, tracked-insert j w i d h.1, erase-eq_self w d, eq_iff v w, h.0)

tracked-dead_workers :
    (j : String) (now : ℕ) (d : Dict WorkerInfo)
    → tracked j d ≡ false
    → tracked j (dead_workers now d) ≡ false
unfolding tracked dead_workers
tracked-dead_workers j now [] h = refl
tracked-dead_workers j now ((v, k) ∷ d) h = ground (arith, tracked-dead_workers j now d)

-- After a worker registers again, an eviction round at any time leaves a task in flight that no
-- other worker had, as the worker's new entry does not list it; no worker is listed twice.
pub register_orphans :
    {P : Type 0} (w j : String) (address : String × ℕ) (queues : Option (List String))
    (writer : Option ℕ) (at now : ℕ) (r : WorkerRegistry) (m : QueueManager P)
    → IsDict r.workers
    → tracked j (erase w r.workers) ≡ false
    → lookup j (evict_dead_workers now (register w address queues writer at r).0 m).1.in_flight
      ≡ lookup j m.in_flight
unfolding register member
register_orphans w j address queues writer at now r m h e =
    let ws = insert w (new_worker w address queues writer at) r.workers in
    in_flight-evict_dead_workers now (record r { workers = ws }) m j
    ∙ rw (tracked-dead_workers j now ws (tracked-insert j w _ r.workers h ∙ e)) refl
