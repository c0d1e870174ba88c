-- ===== src/Dict/Laws.antt =====
-- What a reader of a dictionary sees after each write.
use distro_sync.Prelude.{
  String, ◌≡◌, refl, inl, inr, Bool-cases, eq-sym, none, some, [], ◌∷◌, arith, ◌==◌, eq_iff,
  eq_refl, if◌then◌else◌,
}
use distro_sync.Dict.{Dict, IsDict, lookup, insert, erase}

module _ {ℓ} {V : Type ℓ} where
  pub lookup-insert :
      (j k : String) (v : V) (d : Dict V)
      → lookup j (insert k v d) ≡ (if k == j then some v else lookup j d)
  unfolding lookup insert
  lookup-insert j k v [] = refl
  lookup-insert j k v ((i, w) ∷ d) =
      ground (arith, eq_iff k j, eq_iff i k, eq_iff i j, lookup-insert j k v d)

  pub lookup-insert_self : (k : String) (v : V) (d : Dict V) → lookup k (insert k v d) ≡ some v
  lookup-insert_self k v d = simp (lookup-insert, eq_refl)

  pub lookup-erase :
      (j k : String) (d : Dict V) → lookup j (erase k d) ≡ (if k == j then none else lookup j d)
  unfolding lookup erase
  lookup-erase j k [] = ground arith
  lookup-erase j k ((i, w) ∷ d) =
      ground (arith, lookup-erase j k d, eq_iff i k, eq_iff i j, eq_iff k j)

  pub insert-IsDict : (k : String) (v : V) (d : Dict V) → IsDict d → IsDict (insert k v d)
  unfolding insert lookup
  insert-IsDict k v [] h = (refl, tt)
  insert-IsDict k v ((j, w) ∷ d) h = elim (Bool-cases (j == k)) [
    | inl same ↦ rw same (rw (← (eq_iff j k).0 same) h.0, h.1)
    | inr other ↦ rw other (rw (lookup-insert, eq-sym j k other) h.0, insert-IsDict k v d h.1)
  ]

  pub erase-IsDict : (k : String) (d : Dict V) → IsDict d → IsDict (erase k d)
  unfolding erase lookup
  erase-IsDict k [] h = tt
  erase-IsDict k ((j, w) ∷ d) h = elim (Bool-cases (j == k)) [
    | inl same ↦ rw same (erase-IsDict k d h.1)
    | inr other ↦ rw other (rw (lookup-erase j k d, eq-sym j k other) h.0, erase-IsDict k d h.1)
  ]

pub ruleset dict_laws = (lookup-insert, lookup-erase)
