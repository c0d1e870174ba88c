-- ===== src/Registry/Loop/Detects.antt =====
-- When the eviction loop finds out that a worker is dead.
use distro_sync.Prelude.{
  ℕ, ◌+◌, ◌≤◌, ◌<◌, String, ◌≡◌, refl, true, false, All, none, some, List, [], ◌∷◌, ◌++◌, arith,
  if◌then◌else◌, Bool-cases, inl, inr, member, ap, ◌∙◌,
}
use distro_sync.Dict.{Dict, IsDict, lookup}
use distro_sync.Dict.Laws.{erase-IsDict}
use distro_sync.Queue.{QueueManager}
use distro_sync.Registry.{
  WorkerInfo, WorkerRegistry, is_dead, dead_workers, delete_all, evict_dead_workers,
  heartbeat_timeout,
}
use distro_sync.Registry.Evict.{tracked, lookup-evict_dead_workers, in_flight-evict_dead_workers}
use distro_sync.Registry.Loop.{Sleep, eviction_loop}
use distro_sync.Registry.Loop.Spares.{IsWatched}

-- the time from which on the heartbeat is too old
abbrev pub deadline : ℕ → ℕ
deadline last = last + heartbeat_timeout

delete_all-IsDict : (dead d : Dict WorkerInfo) → IsDict d → IsDict (delete_all dead d)
unfolding delete_all
delete_all-IsDict [] d h = h
delete_all-IsDict ((w, i) ∷ dead) d h = delete_all-IsDict dead _ (erase-IsDict w d h)

-- a dead worker's tasks are among those that a round gives back
tracked-dead_workers :
    (now : ℕ) (j w : String) (i : WorkerInfo) (d : Dict WorkerInfo)
    → lookup w d ≡ some i
    → is_dead now i ≡ true
    → member j i.in_flight_tasks ≡ true
    → tracked j (dead_workers now d) ≡ true
unfolding tracked dead_workers lookup
tracked-dead_workers now j w i [] e dead has = absurd (ground (arith, e))
tracked-dead_workers now j w i ((v, k) ∷ d) e dead has =
    ground (arith, e, dead, has, tracked-dead_workers now j w i d)

module _ {P : Type 0} where
  -- each time is at most so much after the one before
  abbrev pub IsPaced : ℕ → ℕ → List (Sleep P) → Type 0
  IsPaced gap t [] = Unit
  IsPaced gap t (sleep ∷ sleeps) = (sleep.now ≤ t + gap) × IsPaced gap sleep.now sleeps

  abbrev pub last_time : ℕ → List (Sleep P) → ℕ
  last_time t [] = t
  last_time t (sleep ∷ sleeps) = last_time sleep.now sleeps

  -- a round of a loop that was not stopped
  awake :
      (sleep : Sleep P) (sleeps : List (Sleep P)) (s : WorkerRegistry × QueueManager P)
      → (sleep.meanwhile s).0.running ≡ true
      → eviction_loop (sleep ∷ sleeps) s
        ≡ eviction_loop sleeps
            (evict_dead_workers sleep.now (sleep.meanwhile s).0 (sleep.meanwhile s).1)
  unfolding eviction_loop
  awake sleep sleeps s on =
      let (r, m) = sleep.meanwhile s in
      ap (λ b. if b then eviction_loop sleeps (evict_dead_workers sleep.now r m) else (r, m)) on

  module _ (w : String) (last gap : ℕ) where
    -- What happens during the sleep leaves the loop running and the worker registered, and brings
    -- no heartbeat of it.
    abbrev pub Spares : Sleep P → Type 0
    Spares sleep =
        (s : WorkerRegistry × QueueManager P)
        → IsWatched w last s.0
        → IsWatched w last (sleep.meanwhile s).0

    -- Some wake-up is the one at which the worker goes.
    pub record IsDetected (sleeps : List (Sleep P)) (s : WorkerRegistry × QueueManager P)
        : Type 0 where
      pub before : List (Sleep P)
      pub sleep : Sleep P
      pub after : List (Sleep P)
      pub split : sleeps ≡ before ++ sleep ∷ after
      pub info : WorkerInfo
      pub kept : lookup w (sleep.meanwhile (eviction_loop before s)).0.workers ≡ some info
      pub silent : info.last_heartbeat ≡ last
      pub gone : lookup w (eviction_loop (before ++ sleep ∷ []) s).0.workers ≡ none
      pub late : deadline last < sleep.now
      pub soon : sleep.now ≤ deadline last + gap
      pub given_back :
          (j : String)
          → member j info.in_flight_tasks ≡ true
          → lookup j (eviction_loop (before ++ sleep ∷ []) s).1.in_flight ≡ none

    module _ (t : ℕ) (sleep : Sleep P) (sleeps : List (Sleep P))
        (s : WorkerRegistry × QueueManager P) (h : IsWatched w last (sleep.meanwhile s).0) where
      at_once :
          t ≤ deadline last
          → sleep.now ≤ t + gap
          → is_dead sleep.now h.info ≡ true
          → IsDetected (sleep ∷ sleeps) s
      unfolding eviction_loop
      at_once le paced dead =
          let (r, m) = sleep.meanwhile s in
          record {
            before = [];
            sleep = sleep;
            after = sleeps;
            split = refl;
            info = h.info;
            kept = h.found;
            silent = h.silent;
            gone =
                rw (awake sleep [] s h.running)
                  (lookup-evict_dead_workers sleep.now r m w h.distinct ∙ rw (h.found, dead) refl);
            late = ground (arith, dead, h.silent);
            soon = omega (arith, le, paced);
            given_back = λ j has. rw (awake sleep [] s h.running) (
                in_flight-evict_dead_workers sleep.now r m j
                ∙ rw (tracked-dead_workers sleep.now j w h.info r.workers h.found dead has) refl);
          }

      one_later :
          IsDetected sleeps
            (evict_dead_workers sleep.now (sleep.meanwhile s).0 (sleep.meanwhile s).1)
          → IsDetected (sleep ∷ sleeps) s
      one_later d = record {
        before = sleep ∷ d.before;
        sleep = d.sleep;
        after = d.after;
        split = ap (λ ts. sleep ∷ ts) d.split;
        info = d.info;
        kept = rw (awake sleep d.before s h.running) d.kept;
        silent = d.silent;
        gone = rw (awake sleep (d.before ++ d.sleep ∷ []) s h.running) d.gone;
        late = d.late;
        soon = d.soon;
        given_back =
            λ j has. rw (awake sleep (d.before ++ d.sleep ∷ []) s h.running) (d.given_back j has);
      }

      -- the next round finds the worker as this one did
      outlives :
          is_dead sleep.now h.info ≡ false
          → IsWatched w last
              (evict_dead_workers sleep.now (sleep.meanwhile s).0 (sleep.meanwhile s).1).0
      unfolding evict_dead_workers
      outlives well =
          let (r, m) = sleep.meanwhile s in
          record {
            distinct = delete_all-IsDict (dead_workers sleep.now r.workers) r.workers h.distinct;
            running = h.running;
            info = h.info;
            found = lookup-evict_dead_workers sleep.now r m w h.distinct ∙ rw (h.found, well) refl;
            silent = h.silent;
          }

    -- When the eviction loop runs, and wakes up at times of which each is at most `gap` after the
    -- one before, a registered worker that sends no more heartbeats is still registered, with the
    -- same last heartbeat, until some wake-up, and that one removes it and leaves none of the
    -- tasks in flight that it has by then; it comes after the timeout of the last heartbeat, and
    -- at most `gap` after it. During each sleep the other coroutines may do whatever leaves the
    -- loop running, no worker listed twice, and this worker registered without a new heartbeat.
    -- The times start before that timeout and go beyond it.
    pub eviction_loop-IsDetected :
        (t : ℕ) (sleeps : List (Sleep P)) (s : WorkerRegistry × QueueManager P)
        → IsWatched w last s.0
        → All Spares sleeps
        → t ≤ deadline last
        → IsPaced gap t sleeps
        → deadline last < last_time t sleeps
        → IsDetected sleeps s
    eviction_loop-IsDetected t [] s h spares le paced far = absurd (omega (arith, le, far))
    eviction_loop-IsDetected t (sleep ∷ sleeps) s h spares le paced far =
        let h' = spares.0 s h in
        elim (Bool-cases (is_dead sleep.now h'.info)) [
          | inl dead ↦ at_once t sleep sleeps s h' le paced.0 dead
          | inr well ↦
              let (r, m) = sleep.meanwhile s in
              one_later t sleep sleeps s h' (
                eviction_loop-IsDetected sleep.now sleeps (evict_dead_workers sleep.now r m)
                  (outlives t sleep sleeps s h' well) spares.1 (ground (arith, well, h'.silent))
                  paced.1 far)
        ]
