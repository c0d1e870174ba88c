-- ===== src/Broker/Reports/Contents.antt =====
-- What a METRICS report says of the queues and of the dead tasks.
use distro_sync.Prelude.{
  ℕ, String, ◌≡◌, refl, ◌∙◌, ◌||◌, Option, none, some, List, [], ◌∷◌, map, length, min, arith,
  if◌then◌else◌, length-take, Option-cases, inl, inr, eq_iff, member,
}
use mathlib.Core.Option
use distro_sync.Dict.{Dict, lookup, insert, is_some}
use distro_sync.Dict.Laws.{lookup-insert}
use distro_sync.Queue.{QueueManager, queue_depth}
use distro_sync.Queue.Stats.{get_all_queue_names}
use distro_sync.Metrics.{MetricsCollector}
use distro_sync.Metrics.Stats.{QueueMetrics, queue_metrics, snapshot_queues, snapshot}
use distro_sync.Wal
use distro_sync.Wal.{WalStore, DeadRow, dead_rows, insert_newest, order_newest}
use distro_sync.Broker.{Broker, Clock}
use distro_sync.Broker.Reports.{fill_depths, dlq_total, get_metrics_snapshot}

held-snapshot_queues :
    (q : String) (qs : List String) (tick : ℕ) (c : MetricsCollector) (d : Dict QueueMetrics)
    → is_some (lookup q (snapshot_queues qs tick c d).1) ≡ (member q qs || is_some (lookup q d))
unfolding snapshot_queues member
held-snapshot_queues q [] tick c d = refl
held-snapshot_queues q (p ∷ qs) tick c d =
    let (c', e) = queue_metrics p tick c in
    ground (arith, held-snapshot_queues q qs tick c' (insert p e d), lookup-insert q p e d)

module _ {P : Type 0} (m : QueueManager P) where
  -- the depths that a dict of metrics shows
  abbrev depth_of : String → Dict QueueMetrics → Option ℕ
  depth_of q d = Option.map (λ e. e.depth) (lookup q d)

  depth-fill_depths :
      (q : String) (qs : List String) (d : Dict QueueMetrics)
      → depth_of q (fill_depths qs m d) ≡ (
          if member q qs
          then (if is_some (lookup q d) then some (queue_depth q m) else none)
          else depth_of q d)
  unfolding fill_depths member
  depth-fill_depths q [] d = refl
  depth-fill_depths q (p ∷ qs) d = elim (Option-cases (lookup p d)) [
    | inl missing ↦ rw missing (ground (arith, missing, eq_iff p q, depth-fill_depths q qs d))
    | inr (e, h) ↦
        let e' = record e { depth = queue_depth p m } in
        rw h (
          ground
            (arith, h, eq_iff p q, lookup-insert q p e' d, depth-fill_depths q qs (insert p e' d)))
  ]

member-names :
    {V : Type 0} (q : String) (d : Dict V) → member q (map (λ e. e.0) d) ≡ is_some (lookup q d)
unfolding member lookup
member-names q [] = refl
member-names q ((k, v) ∷ d) = ground (arith, member-names q d)

-- METRICS shows each queue of the queue manager, with the number of tasks that wait in it, and no
-- other queue.
pub metrics_depths :
    {P : Type 0} (clock : Clock) (b : Broker P) (q : String)
    → Option.map (λ e. e.depth) (lookup q (get_metrics_snapshot clock b).1.queues) ≡ (
        if is_some (lookup q b.queue_manager.queues)
        then some (queue_depth q b.queue_manager)
        else none)
unfolding get_metrics_snapshot snapshot lookup get_all_queue_names
metrics_depths clock b q =
    let m = b.queue_manager in
    let names = map (λ e. e.0) m.queues in
    let shown = (snapshot_queues names clock.tick b.metrics []).1 in
    let held = held-snapshot_queues q names clock.tick b.metrics [] in
    let named = member-names q m.queues in
    depth-fill_depths m q names shown ∙ elim (Option-cases (lookup q shown)) [
      | inl none' ↦ rw none' (ground (arith, none', held, named))
      | inr (e, h) ↦ rw h (ground (arith, h, held, named))
    ]

length-insert_newest :
    (r : DeadRow) (rs : List DeadRow) → length (insert_newest r rs) ≡ length (r ∷ rs)
unfolding insert_newest
length-insert_newest r [] = refl
length-insert_newest r (x ∷ xs) = ground (arith, length-insert_newest r xs)

length-order_newest : (rs : List DeadRow) → length (order_newest rs) ≡ length rs
unfolding order_newest
length-order_newest [] = refl
length-order_newest (r ∷ rs) =
    omega (arith, length-insert_newest r (order_newest rs), length-order_newest rs)

-- With a store METRICS counts at most 100 dead tasks: their number, or 100 if there are more.
pub dlq_total-capped :
    {P : Type 0} (m : QueueManager P) (s : WalStore)
    → dlq_total m (some s) ≡ min 100 (Wal.get_dlq_count none s)
unfolding Wal.get_dlq_tasks Wal.get_dlq_count
dlq_total-capped m s = rw (length-take, length-order_newest) refl
