-- ===== src/Worker/Shutdown.antt =====
-- `shutdown` of worker/base_worker.py.
use distro_sync.Prelude.{ℕ, ◌+◌, ◌≡◌, refl, Bool, false, [], ◌∷◌, arith, Bool-cases, inl, inr}
use distro_sync.Queue.{Delivery}
use distro_sync.Broker.{Message}
use distro_sync.Worker.{
  BaseWorker, Phase, Event, Answer, answered, leave, after_ack, after_nack, loop_at, step, run,
  ack_message, nack_message,
}

-- a response, and not an exception
abbrev pub IsResponse : {P : Type 0} → Answer P → Type 0
IsResponse Answer.lost = ⊥
IsResponse other = Unit

-- the task that waits for its ACK or NACK
abbrev pub outstanding : {P : Type 0} → Phase P → ℕ
outstanding (Phase.holding d) = 1
outstanding (Phase.failing d) = 1
outstanding other = 0

-- `run` goes on
abbrev pub IsActive : {P : Type 0} → Phase P → Type 0
IsActive Phase.returned = ⊥
IsActive Phase.raised = ⊥
IsActive other = Unit

-- how a graceful end looks, for a worker that had answered `n` tasks
pub record IsStopped {P : Type 0} (n : ℕ) (w : BaseWorker P) : Type 0 where
  pub phase : w.phase ≡ Phase.returned
  pub disconnected : w.connected ≡ false
  pub answered : w.tasks_completed + w.tasks_failed ≡ n

module _ {S P : Type 0} (ask : S → Message P → S × Answer P) (execute : P → Bool)
    (responds : (s : S) (m : Message P) → IsResponse (ask s m).1) where
  -- the phases one by one, the last first
  from_polling :
      (w : BaseWorker P) (s : S)
      → w.phase ≡ Phase.polling
      → w.running ≡ false
      → IsStopped (w.tasks_completed + w.tasks_failed) (step ask execute Event.loop (w, s)).0
  unfolding step
  from_polling w s p r = rw (p, r) (record { phase = refl; disconnected = refl; answered = refl })

  returned-stays :
      (n : ℕ) (x : BaseWorker P × S)
      → IsStopped n x.0
      → IsStopped n (step ask execute Event.loop x).0
  unfolding step
  returned-stays n (w, s) h =
      rw (h.phase) (record { phase = refl; disconnected = h.disconnected; answered = h.answered })

  nacked-IsStopped :
      (w : BaseWorker P) (a : S × Answer P)
      → w.running ≡ false
      → IsResponse a.1
      → IsStopped
          (w.tasks_completed + w.tasks_failed + 1)
          (step ask execute Event.loop (answered after_nack w a)).0
  unfolding step
  nacked-IsStopped w (s, Answer.lost) r h = absurd h
  nacked-IsStopped w (s, a) r h =
      rw r (record { phase = refl; disconnected = refl; answered = omega arith })

  acked-IsStopped :
      (d : Delivery P) (w : BaseWorker P) (a : S × Answer P)
      → w.running ≡ false
      → IsResponse a.1
      → IsStopped
          (w.tasks_completed + w.tasks_failed + 1)
          (step ask execute Event.loop (answered (after_ack d) w a)).0
  unfolding step
  acked-IsStopped d w (s, Answer.lost) r h = absurd h
  acked-IsStopped d w (s, a) r h =
      rw r (record { phase = refl; disconnected = refl; answered = omega arith })

  -- After `shutdown`, a worker whose `run` has not ended and whose sends all get a response leaves
  -- `run`, disconnected, within three rounds of its loop, and by then the task that it held, if it
  -- held one, is counted as completed or as failed, and no other.
  pub shutdown-IsStopped :
      (w : BaseWorker P) (s : S)
      → IsActive w.phase
      → IsStopped
          (w.tasks_completed + w.tasks_failed + outstanding w.phase)
          (run ask execute (Event.shutdown ∷ Event.loop ∷ Event.loop ∷ Event.loop ∷ []) (w, s)).0
  unfolding run step
  shutdown-IsStopped w s active = go w.phase refl active
    where
      v : BaseWorker P
      v = record w { running = false }

      n : ℕ
      n = w.tasks_completed + w.tasks_failed

      go :
          (p : Phase P)
          → w.phase ≡ p
          → IsActive p
          → IsStopped
              (n + outstanding p)
              (step ask execute Event.loop
                (step ask execute Event.loop (loop_at ask execute p v s))).0
      go Phase.polling e h =
          returned-stays (n + 0) (step ask execute Event.loop (leave Phase.returned v, s)) (
            returned-stays (n + 0) (leave Phase.returned v, s)
              (record { phase = refl; disconnected = refl; answered = omega arith }))
      go (Phase.failing d) e h =
          returned-stays (n + 1)
            (step ask execute Event.loop (answered after_nack v (ask s (nack_message d v))))
            (nacked-IsStopped v (ask s (nack_message d v)) refl (responds s (nack_message d v)))
      go (Phase.holding d) e h = elim (Bool-cases (execute d.payload)) [
        | inl fine ↦ rw fine (
            returned-stays (n + 1)
              (step ask execute Event.loop (answered (after_ack d) v (ask s (ack_message d v))))
              (acked-IsStopped d v (ask s (ack_message d v)) refl (responds s (ack_message d v))))
        | inr bad ↦ rw bad (
            let u = record v { phase = Phase.failing d } in
            nacked-IsStopped u (ask s (nack_message d u)) refl (responds s (nack_message d u)))
      ]
      go Phase.returned e h = absurd h
      go Phase.raised e h = absurd h
