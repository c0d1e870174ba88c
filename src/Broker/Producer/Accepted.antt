-- ===== src/Broker/Producer/Accepted.antt =====
-- A producer that is alone with the broker gets its task in after at most one wait.
use distro_sync.Prelude.{
  ℕ, zero, suc, ◌+◌, ◌≤◌, ◌<◌, String, ◌≡◌, refl, false, Option, none, some, [], ◌∷◌, ◌++◌, arith,
  ◌==◌, Option-cases, inl, inr, ◌⊎◌, eq_refl,
}
use distro_sync.Task.{new_task}
use distro_sync.Queue
use distro_sync.Queue.{QueueManager, queue}
use distro_sync.Queue.Views.{queue-append}
use distro_sync.Shedder.{AdaptiveLoadShedder, check_and_consume}
use distro_sync.Shedder.Bucket.{IsSound}
use distro_sync.Shedder.Limit.{retry_after_suffices}
use distro_sync.Backoff
use distro_sync.Backoff.{ExponentialBackoff, advance}
use distro_sync.Backoff.Bounds.{IsDraw}
use distro_sync.Producer
use distro_sync.Producer.{Answer, Result, Trace, respond, produce_loop}
use distro_sync.Producer.Loop.{Ends, respond-limited, respond-outcome}
use distro_sync.Wal.{Codec}
use distro_sync.Broker.Commands.{accept, handle_produce}
use distro_sync.Broker.Dispatch.{Context, run_command, dispatch}
use distro_sync.Broker.Producer.{Net, sleep, send, submit}

-- The task waits at the back of its queue, behind what waited there before.
abbrev pub IsLast : {P : Type 0} → String → P → QueueManager P → String → Net P → Type 0
IsLast q p m id s =
    (now : ℕ) × (queue q s.broker.queue_manager ≡ queue q m ++ new_task id q p now ∷ [])

module _ {P : Type 0} (c : Codec P) (connection : Context) (uuids : ℕ → String) (latency : ℕ → ℕ)
    (q : String) (p : P) (named : (q == "") ≡ false) where
  -- what the load shedder decides for the next command
  abbrev decision : Net P → AdaptiveLoadShedder × Option ℕ
  decision s =
      check_and_consume q s.clock.tick s.broker.queue_manager s.broker.worker_registry
        s.broker.load_shedder

  -- the state after the command with the load shedder's decision
  abbrev decided : Net P → Net P
  decided s = record s {
    broker = record s.broker { load_shedder = (decision s).0 };
    sent = s.sent + 1;
  }

  sends-limited :
      (s : Net P) (hint : ℕ)
      → (decision s).1 ≡ some hint
      → send c connection uuids latency q p s ≡ (decided s, Answer.rate_limited (some hint))
  unfolding dispatch run_command handle_produce
  sends-limited s hint e = rw (named, e) refl

  abbrev accepted : Net P → Net P
  accepted s = record s {
    broker = (accept c q p (uuids s.sent) s.clock (decided s).broker).0;
    sent = s.sent + 1;
  }

  sends-accepted :
      (s : Net P)
      → (decision s).1 ≡ none
      → send c connection uuids latency q p s ≡ (accepted s, Answer.ok (uuids s.sent))
  unfolding dispatch run_command handle_produce accept Queue.enqueue
  sends-accepted s e = rw (named, e) refl

  accepted-IsLast : (s : Net P) → IsLast q p s.broker.queue_manager (uuids s.sent) (accepted s)
  unfolding accept Queue.enqueue
  accepted-IsLast s = (s.clock.now, rw (queue-append, eq_refl q) refl)

  module _ (draws : Net P → ℕ → ℕ) where
    abbrev loop : ℕ → Net P → ExponentialBackoff → Option (Trace (Net P))
    loop =
        produce_loop (sleep c connection uuids latency) draws (send c connection uuids latency q) p

    -- a command that passes ends the loop
    passes :
        (fuel : ℕ) (s : Net P) (b : ExponentialBackoff)
        → (decision s).1 ≡ none
        → Ends
            (Result.submitted (uuids s.sent))
            (IsLast q p s.broker.queue_manager (uuids s.sent))
            0
            (loop (suc fuel) s b)
    unfolding produce_loop
    passes fuel s b e = rw (sends-accepted s e) (
        respond-outcome (sleep c connection uuids latency) draws (loop fuel) (accepted s) b
          (Answer.ok (uuids s.sent)) _ (IsLast q p s.broker.queue_manager (uuids s.sent)) refl
          (accepted-IsLast s))

    -- the command after a wait as long as the hint passes
    next_passes :
        (s : Net P) (hint d : ℕ)
        → IsSound s.broker.load_shedder
        → (decision s).1 ≡ some hint
        → hint ≤ d
        → (decision (sleep c connection uuids latency d (decided s))).1 ≡ none
    next_passes s hint d sound e le =
        retry_after_suffices q s.broker.load_shedder sound
          (record {
            now = s.clock.tick;
            manager = s.broker.queue_manager;
            registry = s.broker.worker_registry;
          })
          (record {
            now = s.clock.tick + (d + latency (s.sent + 1));
            manager = s.broker.queue_manager;
            registry = s.broker.worker_registry;
          })
          hint e (omega arith) (omega arith)

    waits_once :
        (fuel hint : ℕ) (s : Net P) (b : ExponentialBackoff)
        → ((s' : Net P) → IsDraw (draws s'))
        → IsSound s.broker.load_shedder
        → b.attempt < b.max_attempts
        → (decision s).1 ≡ some hint
        → Ends
            (Result.submitted (uuids (s.sent + 1)))
            (IsLast q p s.broker.queue_manager (uuids (s.sent + 1)))
            1
            (loop (suc (suc fuel)) s b)
    unfolding produce_loop
    waits_once fuel hint s b fair sound more e = rw (sends-limited s hint e) (
        respond-limited (sleep c connection uuids latency) draws (loop (suc fuel)) (decided s) b
          (some hint) _ (IsLast q p s.broker.queue_manager (uuids (s.sent + 1))) 0
          (fair (decided s)) more
          (λ d le.
            passes fuel (sleep c connection uuids latency d (decided s)) (advance b)
              (next_passes s hint d sound e le)))

    -- A producer that is alone with the broker, and may retry at least once, gets its task into a
    -- queue with a name that is not empty: the first PRODUCE is answered with its id, or it is
    -- rate-limited, and the one after a single wait is, whatever the latencies; the task then
    -- waits at the back of its queue, behind what waited there before. The draws are within their
    -- ranges, and every bucket has its capacity.
    pub submit-accepted :
        (max_retries : ℕ) (s : Net P)
        → ((s' : Net P) → IsDraw (draws s'))
        → IsSound s.broker.load_shedder
        → 1 ≤ max_retries
        → let r = submit c connection uuids latency draws q p max_retries s in
          let m = s.broker.queue_manager in
          Ends (Result.submitted (uuids s.sent)) (IsLast q p m (uuids s.sent)) 0 r
          ⊎ Ends (Result.submitted (uuids (s.sent + 1))) (IsLast q p m (uuids (s.sent + 1))) 1 r
    unfolding Producer.produce
    submit-accepted zero s fair sound le = absurd (omega (arith, le))
    submit-accepted (suc n) s fair sound le = elim (Option-cases (decision s).1) [
      | inl e ↦ inl (passes (suc n) s (Backoff.init (suc n)) e)
      | inr (hint, e) ↦ inr (waits_once n hint s (Backoff.init (suc n)) fair sound (omega arith) e)
    ]
