-- ===== src/Broker/Worker/Balance.antt =====
-- What the broker hands out, against what a worker counts.
use distro_sync.Prelude.{
  ℕ, ◌+◌, ◌≡◌, refl, ap, Bool, true, false, List, [], ◌∷◌, arith, if◌then◌else◌,
}
use distro_sync.Queue.{Delivery}
use distro_sync.Wal.{Codec}
use distro_sync.Broker.{Broker, Response}
use distro_sync.Broker.Dispatch.{Context, dispatch}
use distro_sync.Broker.Worker.{answer_of, ask}
use distro_sync.Worker.{
  BaseWorker, Phase, Event, Answer, answered, leave, after_consume, after_ack, after_nack, loop_at,
  step, run, consume_message, ack_message, nack_message, heartbeat_message,
}
use distro_sync.Worker.Shutdown.{outstanding, IsResponse}
use distro_sync.Broker.Worker.Dequeued.{
  gain, dequeued, dispatch-consume-gain, dispatch-heartbeat-same, dispatch-ack-same,
  dispatch-nack-same,
}

-- the tasks that a worker has had: it has counted them, or holds them
abbrev pub handled : {P : Type 0} → BaseWorker P → ℕ
handled w = w.tasks_completed + w.tasks_failed + outstanding w.phase

module _ {P : Type 0} where
  answer_of-IsResponse : (r : Response P) → IsResponse (answer_of r)
  answer_of-IsResponse (Response.delivered d) = tt
  answer_of-IsResponse (Response.error e) = tt
  answer_of-IsResponse other = tt

  after_consume-handled :
      (r : Response P) (w : BaseWorker P)
      → w.phase ≡ Phase.polling
      → handled (after_consume (answer_of r) w) ≡ handled w + gain r
  after_consume-handled (Response.delivered d) w p = omega (arith, ap outstanding p)
  after_consume-handled other w p = omega (arith, ap outstanding p)

  after_ack-handled :
      (d : Delivery P) (a : Answer P) (w : BaseWorker P)
      → IsResponse a
      → w.phase ≡ Phase.holding d
      → handled (after_ack d a w) ≡ handled w
  after_ack-handled d Answer.lost w h p = absurd h
  after_ack-handled d other w h p = omega (arith, ap outstanding p)

  after_nack-handled :
      (d : Delivery P) (a : Answer P) (w : BaseWorker P)
      → IsResponse a
      → w.phase ≡ Phase.failing d
      → handled (after_nack a w) ≡ handled w
  after_nack-handled d Answer.lost w h p = absurd h
  after_nack-handled d other w h p = omega (arith, ap outstanding p)

module _ {P : Type 0} (c : Codec P) (contexts : ℕ → Context) (execute : P → Bool) where
  -- the two counts grow alike
  abbrev IsBalanced : BaseWorker P → Broker P → BaseWorker P × (ℕ × Broker P) → Type 0
  IsBalanced w b (w', (n', b')) = dequeued b' + handled w ≡ dequeued b + handled w'

  module _ (w : BaseWorker P) (n : ℕ) (b : Broker P) where
    loop_at-Balanced :
        (p : Phase P) → w.phase ≡ p → IsBalanced w b (loop_at (ask c contexts) execute p w (n, b))
    loop_at-Balanced Phase.polling e = go w.running
      where
        go :
            (t : Bool)
            → IsBalanced w b (
                if t
                then answered after_consume w (ask c contexts (n, b) (consume_message w))
                else (leave Phase.returned w, (n, b)))
        go true =
            let (b', r) = dispatch c (contexts n) (consume_message w) b in
            omega (arith, dispatch-consume-gain c (contexts n) w b, after_consume-handled r w e)
        go false = omega (arith, ap outstanding e)
    loop_at-Balanced (Phase.holding d) e = go (execute d.payload)
      where
        go :
            (t : Bool)
            → IsBalanced w b (
                if t
                then answered (after_ack d) w (ask c contexts (n, b) (ack_message d w))
                else (record w { phase = Phase.failing d }, (n, b)))
        go true =
            let (b', r) = dispatch c (contexts n) (ack_message d w) b in
            omega (
              arith,
              dispatch-ack-same c (contexts n) w b d,
              after_ack-handled d (answer_of r) w (answer_of-IsResponse r) e,
            )
        go false = omega (arith, ap outstanding e)
    loop_at-Balanced (Phase.failing d) e =
        let (b', r) = dispatch c (contexts n) (nack_message d w) b in
        omega (
          arith,
          dispatch-nack-same c (contexts n) w b d,
          after_nack-handled d (answer_of r) w (answer_of-IsResponse r) e,
        )
    loop_at-Balanced Phase.returned e = refl
    loop_at-Balanced Phase.raised e = refl

  step-Balanced :
      (v : Event) (w : BaseWorker P) (n : ℕ) (b : Broker P)
      → IsBalanced w b (step (ask c contexts) execute v (w, (n, b)))
  unfolding step
  step-Balanced Event.loop w n b = loop_at-Balanced w n b w.phase refl
  step-Balanced Event.heartbeat w n b = go w.running
    where
      go :
          (t : Bool)
          → IsBalanced w b
              (if t then (w, (ask c contexts (n, b) (heartbeat_message w)).0) else (w, (n, b)))
      go true = omega (arith, dispatch-heartbeat-same c (contexts n) w b)
      go false = refl
  step-Balanced Event.shutdown w n b = refl

  -- In any run of a worker alone with the broker, with heartbeats and a shutdown anywhere in it,
  -- the dequeues that the broker counts grow as the tasks that the worker counts as completed or
  -- failed or still holds.
  pub run-Balanced :
      (es : List Event) (w : BaseWorker P) (n : ℕ) (b : Broker P)
      → let (w', (n', b')) = run (ask c contexts) execute es (w, (n, b)) in
        b'.queue_manager.total_dequeued + handled w ≡ b.queue_manager.total_dequeued + handled w'
  unfolding run
  run-Balanced [] w n b = refl
  run-Balanced (v ∷ es) w n b =
      let (w₁, (n₁, b₁)) = step (ask c contexts) execute v (w, (n, b)) in
      omega (arith, step-Balanced v w n b, run-Balanced es w₁ n₁ b₁)
