-- ===== src/Broker/Durable/Purge.antt =====
-- A purge of the in-memory dead letter queue takes tasks away and leaves the others alone.
use distro_sync.Prelude.{
  String, ◌≡◌, ◌≤◌, refl, Option, none, some, List, [], ◌∷◌, arith, ◌==◌, Option-cases, inl, inr,
  ◌⊎◌, sym, Bool-cases, ◌∙◌,
}
use distro_sync.Dict.{lookup}
use distro_sync.Dict.Laws.{lookup-erase}
use distro_sync.DeadLetter
use distro_sync.DeadLetter.{DeadLetterQueue}
use distro_sync.Queue.{QueueManager}
use distro_sync.Queue.Copies.{copies}
use distro_sync.Queue.Copies.Conserve.{IsConsistent}
use distro_sync.Wal.Rows.{kept}
use distro_sync.Broker.Admin.{remove_all, dead_ids, purge_memory}

module _ {P : Type 0} where
  -- fewer dead tasks
  pub bury_less :
      (m : QueueManager P) (d : DeadLetterQueue P)
      → IsConsistent m
      → ((j : String)
          → (lookup j d.tasks ≡ none) ⊎ (lookup j d.tasks ≡ lookup j m.dead_letter_queue.tasks))
      → IsConsistent (record m { dead_letter_queue = d })
  bury_less m d k less = record {
    once = λ j. elim (less j) [
      | inl gone ↦ unfold copies in rw gone (omega (arith, k.once j))
      | inr same ↦ unfold copies in rw same (k.once j)
    ];
    in_flight_keyed = k.in_flight_keyed;
    dead_keyed = record {
      at_key = λ j t e. elim (less j) [
        | inl gone ↦ absurd (ground (arith, gone))
        | inr same ↦ k.dead_keyed.at_key j t (sym same ∙ e)
      ];
    };
  }

  remove-less :
      (id : String) (d : DeadLetterQueue P) (j : String)
      → (lookup j (DeadLetter.remove id d).0.tasks ≡ none)
        ⊎ (lookup j (DeadLetter.remove id d).0.tasks ≡ lookup j d.tasks)
  unfolding DeadLetter.remove
  remove-less id d j = elim (Option-cases (lookup id d.tasks)) [
    | inl missing ↦ rw (DeadLetter.remove, missing) (inr refl)
    | inr (t, e) ↦
        rw (DeadLetter.remove, e)
          (elim (Bool-cases (id == j)) [
            | inl same ↦ inl (rw lookup-erase (rw same))
            | inr other ↦ inr (rw lookup-erase (rw other))
          ])
  ]

  remove_all-less :
      (ids : List String) (d : DeadLetterQueue P) (j : String)
      → (lookup j (remove_all ids d).tasks ≡ none)
        ⊎ (lookup j (remove_all ids d).tasks ≡ lookup j d.tasks)
  unfolding remove_all
  remove_all-less [] d j = inr refl
  remove_all-less (id ∷ ids) d j = elim (remove_all-less ids (DeadLetter.remove id d).0 j) [
    | inl gone ↦ inl gone
    | inr same ↦ elim (remove-less id d j) [
      | inl gone ↦ inl (same ∙ gone)
      | inr kept ↦ inr (same ∙ kept)
    ]
  ]

  pub purge_memory-less :
      (q : Option String) (d : DeadLetterQueue P) (j : String)
      → (lookup j (purge_memory q d).0.tasks ≡ none)
        ⊎ (lookup j (purge_memory q d).0.tasks ≡ lookup j d.tasks)
  purge_memory-less none d j = unfold DeadLetter.purge lookup in inl refl
  purge_memory-less (some q) d j = remove_all-less (dead_ids q d.tasks) d j

  pub copies-purge_memory :
      (q : Option String) (m : QueueManager P) (j : String)
      → copies j (record m { dead_letter_queue = (purge_memory q m.dead_letter_queue).0 })
        ≤ copies j m
  unfolding copies
  copies-purge_memory q m j = elim (purge_memory-less q m.dead_letter_queue j) [
    | inl gone ↦ rw gone (omega arith)
    | inr same ↦ rw same (omega arith)
  ]
