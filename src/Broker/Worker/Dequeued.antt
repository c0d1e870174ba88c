-- ===== src/Broker/Worker/Dequeued.antt =====
-- Which commands of a worker make the queue manager count a dequeue.
use distro_sync.Prelude.{
  ℕ, ◌+◌, String, ◌≡◌, refl, ◌∙◌, Bool, true, false, Option, none, some, List, [], ◌∷◌, arith, ◌==◌,
  Option-cases, Bool-cases, inl, inr,
}
use distro_sync.Dict.{lookup, held}
use distro_sync.Task.{Task}
use distro_sync.Queue.{
  QueueManager, Delivery, take_first, popleft, pop_target, first_nonempty, ensure_queue, dequeue,
  acknowledge, negative_acknowledge, appendleft, queue, Outcome,
}
use distro_sync.Wal.{Codec}
use distro_sync.Broker.{Broker, Clock, Message, Response, Reason, given, require}
use distro_sync.Broker.Commands.{
  assign, handle_consume, handle_ack, handle_nack, handle_heartbeat, acked, routed,
}
use distro_sync.Broker.Dispatch.{Context, dispatch}
use distro_sync.Worker.{BaseWorker, consume_message, ack_message, nack_message, heartbeat_message}

-- a task in the answer
abbrev pub gain : {P : Type 0} → Response P → ℕ
gain (Response.delivered d) = 1
gain other = 0

module _ {P : Type 0} where
  take_first-held :
      (q w : String) (ts : List (Task P)) (m : QueueManager P)
      → (take_first q w ts m).0.total_dequeued ≡ m.total_dequeued + held (take_first q w ts m).1
  take_first-held q w [] m = omega arith
  take_first-held q w (t ∷ ts) m = refl

  pop_target-held :
      (o : Option String) (w : String) (m : QueueManager P)
      → (pop_target o w m).0.total_dequeued ≡ m.total_dequeued + held (pop_target o w m).1
  unfolding popleft
  pop_target-held none w m = omega arith
  pop_target-held (some q) w m = elim (Bool-cases (q == "")) [
    | inl e ↦ rw e (omega arith)
    | inr e ↦ rw e (take_first-held q w (queue q m) m)
  ]

  dequeue-held :
      (q w : String) (m : QueueManager P)
      → (dequeue q w m).0.total_dequeued ≡ m.total_dequeued + held (dequeue q w m).1
  unfolding dequeue popleft ensure_queue
  dequeue-held q w m = elim (Bool-cases (q == "*")) [
    | inl e ↦ rw e (pop_target-held (first_nonempty m.queues) w m)
    | inr e ↦ rw e (take_first-held q w (queue q (ensure_queue q m)) (ensure_queue q m))
  ]

  abbrev pub dequeued : Broker P → ℕ
  dequeued b = b.queue_manager.total_dequeued

  require-gain :
      {A : Type 0} (o : Option A) (r : Reason) (b : Broker P) (k : A → Broker P × Response P)
      → ((a : A) → dequeued (k a).0 ≡ dequeued b + gain (k a).1)
      → dequeued (require o r b k).0 ≡ dequeued b + gain (require o r b k).1
  require-gain none r b k h = omega arith
  require-gain (some a) r b k h = h a

  require-same :
      {A : Type 0} (o : Option A) (r : Reason) (b : Broker P) (k : A → Broker P × Response P)
      → ((a : A) → dequeued (k a).0 ≡ dequeued b)
      → dequeued (require o r b k).0 ≡ dequeued b
  require-same none r b k h = refl
  require-same (some a) r b k h = h a

  acknowledge-same :
      (id : String) (m : QueueManager P) → (acknowledge id m).0.total_dequeued ≡ m.total_dequeued
  unfolding acknowledge
  acknowledge-same id m = elim (Option-cases (lookup id m.in_flight)) [
    | inl e ↦ rw (acknowledge, e) refl
    | inr (t, e) ↦ rw (acknowledge, e) refl
  ]

  negative_acknowledge-same :
      (id : String) (now : ℕ) (m : QueueManager P)
      → (negative_acknowledge id now m).0.total_dequeued ≡ m.total_dequeued
  unfolding negative_acknowledge appendleft ensure_queue
  negative_acknowledge-same id now m = ground arith

  module _ (c : Codec P) (clock : Clock) (msg : Message P) (b : Broker P) where
    assign-gain :
        (q w : String) (b' : Broker P) (d : Option (Delivery P))
        → (dequeued (assign q w clock b' d).0 ≡ dequeued b')
          × (gain (assign q w clock b' d).1 ≡ held d)
    assign-gain q w b' none = (refl, refl)
    assign-gain q w b' (some d) = (refl, refl)

    handle_consume-gain :
        dequeued (handle_consume clock msg b).0 ≡ dequeued b + gain (handle_consume clock msg b).1
    unfolding handle_consume
    handle_consume-gain = require-gain (given msg.queue) _ b _ λ q.
        require-gain (given msg.worker_id) _ b _ λ w.
          let (m, d) = dequeue q w b.queue_manager in
          let (e, g) = assign-gain q w (record b { queue_manager = m }) d in
          omega (arith, e, g, dequeue-held q w b.queue_manager)

    handle_heartbeat-same : dequeued (handle_heartbeat clock msg b).0 ≡ dequeued b
    unfolding handle_heartbeat
    handle_heartbeat-same = require-same (given msg.worker_id) _ b _ λ w. refl

    acked-same :
        (id : String) (b' : Broker P) (t : Bool)
        → dequeued (acked id clock msg b' t).0 ≡ dequeued b'
    acked-same id b' true = refl
    acked-same id b' false = refl

    handle_ack-same : dequeued (handle_ack clock msg b).0 ≡ dequeued b
    unfolding handle_ack
    handle_ack-same = require-same (given msg.task_id) _ b _ λ id.
        let (m, t) = acknowledge id b.queue_manager in
        acked-same id (record b { queue_manager = m }) t ∙ acknowledge-same id b.queue_manager

    routed-same :
        (id : String) (b' : Broker P) (o : Option Outcome)
        → dequeued (routed c id clock msg b' o).0 ≡ dequeued b'
    routed-same id b' none = refl
    routed-same id b' (some o) = refl

    handle_nack-same : dequeued (handle_nack c clock msg b).0 ≡ dequeued b
    unfolding handle_nack
    handle_nack-same = require-same (given msg.task_id) _ b _ λ id.
        let (m, o) = negative_acknowledge id clock.now b.queue_manager in
        routed-same id (record b { queue_manager = m }) o
        ∙ negative_acknowledge-same id clock.now b.queue_manager

  module _ (c : Codec P) (x : Context) (w : BaseWorker P) (b : Broker P) where
    pub dispatch-consume-gain :
        let (b', r) = dispatch c x (consume_message w) b in dequeued b' ≡ dequeued b + gain r
    unfolding dispatch
    dispatch-consume-gain = handle_consume-gain c x.clock (consume_message w) b

    pub dispatch-heartbeat-same : dequeued (dispatch c x (heartbeat_message w) b).0 ≡ dequeued b
    unfolding dispatch
    dispatch-heartbeat-same = handle_heartbeat-same c x.clock (heartbeat_message w) b

    pub dispatch-ack-same :
        (d : Delivery P) → dequeued (dispatch c x (ack_message d w) b).0 ≡ dequeued b
    unfolding dispatch
    dispatch-ack-same d = handle_ack-same c x.clock (ack_message d w) b

    pub dispatch-nack-same :
        (d : Delivery P) → dequeued (dispatch c x (nack_message d w) b).0 ≡ dequeued b
    unfolding dispatch
    dispatch-nack-same d = handle_nack-same c x.clock (nack_message d w) b
