-- ===== src/Queue/Everywhere.antt =====
-- A predicate of every waiting task, and how queueing keeps it.
use distro_sync.Prelude.{
  String, ◌≡◌, List, [], ◌∷◌, ◌++◌, All, arith, ◌==◌, get_or, Bool-cases, inl, inr, false,
}
use distro_sync.Dict.{Dict, lookup, insert, is_some}
use distro_sync.Task.{Task}
use distro_sync.Queue.{QueueManager, ensured, ensure_queue, append, appendleft}
use distro_sync.Queue.Copies.{occurs, queued}

module _ {P : Type 0} (Q : Task P → Type 0) where
  abbrev pub Everywhere : Dict (List (Task P)) → Type 0
  Everywhere [] = Unit
  Everywhere ((q, ts) ∷ d) = All Q ts × Everywhere d

  All-append : (xs ys : List (Task P)) → All Q xs → All Q ys → All Q (xs ++ ys)
  All-append [] ys h k = k
  All-append (x ∷ xs) ys h k = (h.0, All-append xs ys h.1 k)

  pub Everywhere-insert :
      (q : String) (ts : List (Task P)) (d : Dict (List (Task P)))
      → Everywhere d
      → All Q ts
      → Everywhere (insert q ts d)
  unfolding insert
  Everywhere-insert q ts [] h k = (k, tt)
  Everywhere-insert q ts ((j, us) ∷ d) h k = elim (Bool-cases (j == q)) [
    | inl same ↦ rw same (k, h.1)
    | inr other ↦ rw other (h.0, Everywhere-insert q ts d h.1 k)
  ]

  pub All-lookup :
      (q : String) (d : Dict (List (Task P))) → Everywhere d → All Q (get_or [] (lookup q d))
  unfolding lookup
  All-lookup q [] h = tt
  All-lookup q ((j, us) ∷ d) h = elim (Bool-cases (j == q)) [
    | inl same ↦ rw same h.0
    | inr other ↦ rw other (All-lookup q d h.1)
  ]

  Everywhere-ensured :
      (q : String) (d : Dict (List (Task P))) → Everywhere d → Everywhere (ensured q d)
  unfolding ensured
  Everywhere-ensured q d h = elim (Bool-cases (is_some (lookup q d))) [
    | inl old ↦ rw old h
    | inr new ↦ rw new (Everywhere-insert q [] d h tt)
  ]

  pub Everywhere-ensure_queue :
      (q : String) (m : QueueManager P) → Everywhere m.queues → Everywhere (ensure_queue q m).queues
  unfolding ensure_queue
  Everywhere-ensure_queue q m h = Everywhere-ensured q m.queues h

  pub Everywhere-append :
      (t : Task P) (m : QueueManager P) → Everywhere m.queues → Q t → Everywhere (append t m).queues
  unfolding append
  Everywhere-append t m h k =
      let d = ensured t.queue_name m.queues in
      let e = Everywhere-ensured t.queue_name m.queues h in
      Everywhere-insert t.queue_name _ d e
        (All-append _ (t ∷ []) (All-lookup t.queue_name d e) (k, tt))

  pub Everywhere-appendleft :
      (t : Task P) (m : QueueManager P)
      → Everywhere m.queues
      → Q t
      → Everywhere (appendleft t m).queues
  unfolding appendleft
  Everywhere-appendleft t m h k =
      let d = ensured t.queue_name m.queues in
      let e = Everywhere-ensured t.queue_name m.queues h in
      Everywhere-insert t.queue_name _ d e (k, All-lookup t.queue_name d e)

-- A change that concerns one id alone, of which no task waits.
module _ {P : Type 0} (Q R : Task P → Type 0) (id : String)
    (other : (t : Task P) → (t.task_id == id) ≡ false → Q t → R t) where
  All-change : (ts : List (Task P)) → occurs id ts ≡ 0 → All Q ts → All R ts
  unfolding occurs
  All-change [] n h = tt
  All-change (t ∷ ts) n h = (other t (ground arith) h.0, All-change ts (ground arith) h.1)

  pub Everywhere-change :
      (d : Dict (List (Task P))) → queued id d ≡ 0 → Everywhere Q d → Everywhere R d
  unfolding queued
  Everywhere-change [] n h = tt
  Everywhere-change ((q, ts) ∷ d) n h =
      (All-change ts (omega arith) h.0, Everywhere-change d (omega arith) h.1)

-- A change that concerns every task alike.
module _ {P : Type 0} (Q R : Task P → Type 0) (all : (t : Task P) → Q t → R t) where
  All-map : (ts : List (Task P)) → All Q ts → All R ts
  All-map [] h = tt
  All-map (t ∷ ts) h = (all t h.0, All-map ts h.1)

  pub Everywhere-map : (d : Dict (List (Task P))) → Everywhere Q d → Everywhere R d
  Everywhere-map [] h = tt
  Everywhere-map ((q, ts) ∷ d) h = (All-map ts h.0, Everywhere-map d h.1)
