-- ===== src/Broker/Durable/Once/Acknowledged.antt =====
-- A task that was acknowledged is never delivered again, whatever the broker goes through.
use distro_sync.Prelude.{
  ◌≤◌, String, ◌≡◌, ◌≢◌, refl, Bool, true, false, Option, none, some, arith, ◌==◌, Option-cases,
  Bool-cases, inl, inr, eq_iff, ap,
}
use distro_sync.Queue
use distro_sync.Queue.{QueueManager, Delivery}
use distro_sync.Queue.Copies.{copies}
use distro_sync.Queue.Copies.Conserve.{IsConsistent}
use distro_sync.Queue.Copies.Archive.{
  archived, live, copies-live, acknowledge-archived, dequeue-live,
}
use distro_sync.Wal.{Codec}
use distro_sync.Broker.{Broker, Clock, Message, Reason, Response, given, require}
use distro_sync.Broker.Commands.{acked, handle_ack, assign, handle_consume}
use distro_sync.Broker.Dispatch.{Context, run_command, dispatch}
use distro_sync.Broker.Durable.Advance.{handle_consume-Advance}
use distro_sync.Broker.Durable.Reach.{Step, Reach, IsSound, Step-IsSound, Reach-IsSound}
use distro_sync.Broker.Durable.Once.{Settles, AllOld, Reach-Settles}

another : (j : String) → (id : String) × ((id == j) ≡ false)
another j = elim (Bool-cases ("" == j)) [
  | inl same ↦ ("other", rw (← (eq_iff "" j).0 same) refl)
  | inr other ↦ ("", other)
]

module _ {P : Type 0} (c : Codec P) (j : String) where
  -- an answer that says that the id is acknowledged comes with the id in the archive
  abbrev Spends : Broker P × Response P → Type 0
  Spends r = r.1 ≡ Response.acknowledged j → archived j r.0.queue_manager ≡ 1

  acked-Spends :
      (k : String) (clock : Clock) (msg : Message P) (b : Broker P) (done : Bool)
      → (done ≡ true → archived k b.queue_manager ≡ 1)
      → Spends (acked k clock msg b done)
  acked-Spends k clock msg b false h answered = absurd (ground (arith, answered))
  acked-Spends k clock msg b true h answered = ground (arith, h refl, answered)

  handle_ack-Spends :
      (clock : Clock) (msg : Message P) (b : Broker P) → Spends (handle_ack clock msg b)
  unfolding handle_ack
  handle_ack-Spends clock msg b = elim (Option-cases (given msg.task_id)) [
    | inl e ↦ rw e (λ answered. absurd (ground (arith, answered)))
    | inr (k, e) ↦
        let (m, done) = Queue.acknowledge k b.queue_manager in
        rw e (
          acked-Spends k clock msg (record b { queue_manager = m }) done
            (acknowledge-archived k b.queue_manager))
  ]

  -- an answer that delivers the id comes with the id in flight
  abbrev Delivers : Broker P × Response P → Type 0
  Delivers r =
      (d : Delivery P) → r.1 ≡ Response.delivered d → d.task_id ≡ j → 1 ≤ live j r.0.queue_manager

  assign-Delivers :
      (q w : String) (clock : Clock) (b : Broker P) (o : Option (Delivery P))
      → ((d : Delivery P) → o ≡ some d → 1 ≤ live d.task_id b.queue_manager)
      → Delivers (assign q w clock b o)
  assign-Delivers q w clock b none h d answered e = absurd (ground (arith, answered))
  assign-Delivers q w clock b (some x) h d answered e = ground (arith, h x refl, answered, e)

  require-Delivers :
      {A : Type 0} (o : Option A) (r : Reason) (b : Broker P) (k : A → Broker P × Response P)
      → ((a : A) → Delivers (k a))
      → Delivers (require o r b k)
  require-Delivers none r b k f = λ d answered e. absurd (ground (arith, answered))
  require-Delivers (some a) r b k f = f a

  handle_consume-Delivers :
      (clock : Clock) (msg : Message P) (b : Broker P) → Delivers (handle_consume clock msg b)
  unfolding handle_consume
  handle_consume-Delivers clock msg b = require-Delivers (given msg.queue) _ b _ λ q.
      require-Delivers (given msg.worker_id) _ b _ λ w.
        let (m, d) = Queue.dequeue q w b.queue_manager in
        assign-Delivers q w clock (record b { queue_manager = m }) d
          (dequeue-live q w b.queue_manager)

  -- CONSUME brings no task, whatever id it is given
  handle_consume-Settles :
      (clock : Clock) (msg : Message P) (b : Broker P)
      → IsConsistent b.queue_manager
      → Settles c j b (handle_consume clock msg b).0
  handle_consume-Settles clock msg b k =
      let (id, new) = another j in
      let a = handle_consume-Advance c id clock msg b k in
      ground (
        arith,
        new,
        a.brings j,
        a.archives j,
        copies-live j b.queue_manager,
        copies-live j (handle_consume clock msg b).0.queue_manager,
      )

module _ {P : Type 0} (c : Codec P) (x : Context) (msg : Message P) (b : Broker P) where
  to_handle_ack : msg.command ≡ some "ACK" → dispatch c x msg b ≡ handle_ack x.clock msg b
  unfolding dispatch run_command
  to_handle_ack e = rw e refl

  to_handle_consume :
      msg.command ≡ some "CONSUME" → dispatch c x msg b ≡ handle_consume x.clock msg b
  unfolding dispatch run_command
  to_handle_consume e = rw e refl

module _ {P : Type 0} (c : Codec P) where
  -- In a broker in which everything is sound, after an ACK that is answered as acknowledged, and
  -- after any further steps - crashes with a restart, evictions, replays and resets among them -
  -- in which no command is given the same id for a new task, a CONSUME does not deliver the task
  -- with that id. The id that a command offers for a new task is one that no task has.
  pub dispatch-delivers_once :
      (x y : Context) (ack consume : Message P) (b e : Broker P) (j : String) (d : Delivery P)
      → IsSound c b
      → copies x.uuid b.queue_manager ≡ 0
      → ack.command ≡ some "ACK"
      → (dispatch c x ack b).1 ≡ Response.acknowledged j
      → (r : Reach c (dispatch c x ack b).0 e) → AllOld c j (dispatch c x ack b).0 e r
      → consume.command ≡ some "CONSUME"
      → (dispatch c y consume e).1 ≡ Response.delivered d
      → d.task_id ≢ j
  dispatch-delivers_once x y ack consume b e j d h fresh is_ack acked r old is_consume sent same =
      let b' = (dispatch c x ack b).0 in
      let h' = Step-IsSound c b b' h (Step.command x ack b b' fresh refl) in
      let to_ack = to_handle_ack c x ack b is_ack in
      let to_consume = to_handle_consume c y consume e is_consume in
      let archive = handle_ack-Spends c j x.clock ack b (rw to_ack at acked) in
      let placed = handle_consume-Delivers c j y.clock consume e d (rw to_consume at sent) same in
      omega (
        arith,
        archive,
        placed,
        ap (λ z. archived j z.0.queue_manager) to_ack,
        copies-live j b'.queue_manager,
        h'.safe.consistent.once j,
        Reach-Settles c j b' e r h' old,
        handle_consume-Settles c j y.clock consume e (Reach-IsSound c b' e h' r).safe.consistent,
      )
