-- ===== src/Broker/Durable/Steps.antt =====
-- PRODUCE and CONSUME keep the queue manager consistent and the store in agreement with it.
use distro_sync.Prelude.{ℕ, String, ◌≡◌, Option, none, some, arith}
use distro_sync.Queue
use distro_sync.Queue.{
  QueueManager, Outcome, Action, outcome, nacked, dead_letter, appendleft, release,
}
use distro_sync.Queue.Copies.{copies}
use distro_sync.Queue.Copies.Conserve.{IsConsistent}
use distro_sync.Queue.Run.{Op, apply, arrivals, tally, apply-IsConsistent, enqueue-IsConsistent}
use distro_sync.Shedder
use distro_sync.Wal.{Codec}
use distro_sync.Broker.{Broker, Clock, Message, given}
use distro_sync.Broker.Commands.{accept, produce_if, handle_produce, assign, handle_consume}
use distro_sync.Broker.Durable.{Agrees, IsSafe, require-IsSafe}
use distro_sync.Broker.Durable.Intake.{persist-Agrees}
use distro_sync.Broker.Durable.Consume.{marked, dequeue-Agrees}

module _ {P : Type 0} (c : Codec P) where
  accept-IsSafe :
      (q : String) (p : P) (uuid : String) (clock : Clock) (b : Broker P)
      → IsSafe c b
      → copies uuid b.queue_manager ≡ 0
      → IsSafe c (accept c q p uuid clock b).0
  unfolding accept
  accept-IsSafe q p uuid clock b h fresh = record {
    consistent = enqueue-IsConsistent q p uuid clock.now b.queue_manager h.consistent fresh;
    agrees =
        unfold Queue.enqueue in
        persist-Agrees c q p uuid clock.now b.queue_manager fresh clock.now b.wal_store h.agrees;
  }

  -- PRODUCE, with an id that no task has
  pub handle_produce-IsSafe :
      (uuid : String) (clock : Clock) (msg : Message P) (b : Broker P)
      → IsSafe c b
      → copies uuid b.queue_manager ≡ 0
      → IsSafe c (handle_produce c uuid clock msg b).0
  unfolding handle_produce
  handle_produce-IsSafe uuid clock msg b h fresh = require-IsSafe c (given msg.queue) _ b _ h λ q.
      require-IsSafe c msg.task _ b _ h λ p.
        let (shedder, hint) =
          Shedder.check_and_consume q clock.tick b.queue_manager b.worker_registry b.load_shedder in
        go q p shedder hint
    where
      go :
          (q : String) (p : P) (s : Shedder.AdaptiveLoadShedder) (hint : Option ℕ)
          → IsSafe c (produce_if c q p uuid clock hint (record b { load_shedder = s })).0
      go q p s none =
          accept-IsSafe q p uuid clock (record b { load_shedder = s })
            (record { consistent = h.consistent; agrees = h.agrees }) fresh
      go q p s (some hint) = record { consistent = h.consistent; agrees = h.agrees }

  assign-IsSafe :
      (q w : String) (clock : Clock) (b : Broker P) (d : Option (Queue.Delivery P))
      → IsConsistent b.queue_manager
      → Agrees c b.queue_manager (marked c w clock.now d b.wal_store)
      → IsSafe c (assign q w clock b d).0
  assign-IsSafe q w clock b none k d = record { consistent = k; agrees = d }
  assign-IsSafe q w clock b (some x) k d = record { consistent = k; agrees = d }

  pub handle_consume-IsSafe :
      (clock : Clock) (msg : Message P) (b : Broker P)
      → IsSafe c b
      → IsSafe c (handle_consume clock msg b).0
  unfolding handle_consume
  handle_consume-IsSafe clock msg b h = require-IsSafe c (given msg.queue) _ b _ h λ q.
      require-IsSafe c (given msg.worker_id) _ b _ h λ w.
        let (m, d) = Queue.dequeue q w b.queue_manager in
        assign-IsSafe q w clock (record b { queue_manager = m }) d
          (unfold apply arrivals tally in
            apply-IsConsistent (Op.dequeue q w) b.queue_manager h.consistent
              (λ j. omega (arith, h.consistent.once j)))
          (dequeue-Agrees c w clock.now q b.queue_manager b.wal_store h.consistent h.agrees)
