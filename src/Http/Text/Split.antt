-- ===== src/Http/Text/Split.antt =====
-- The parts of a text that is split.
use distro_sync.Prelude.{
  ℕ, ◌≡◌, ◌≢◌, refl, Bool, true, false, List, [], ◌∷◌, if◌then◌else◌, eqb, All, arith, Bool-cases,
  inl, inr,
}
use distro_sync.Http.Text.{starts_with, contains, split, onto_first}

-- the first part, if a text is split
abbrev first : List (List ℕ) → List ℕ
first [] = []
first (w ∷ ws) = w

starts_with-first :
    (d : ℕ) (s : List ℕ) (w : List ℕ) → first (split d s) ≡ w → starts_with s w ≡ true
unfolding split
starts_with-first d s [] e = refl
starts_with-first d [] (x ∷ w) e = absurd (ground (arith, e))
starts_with-first d (c ∷ s) (x ∷ w) e = elim (Bool-cases (eqb c d)) [
  | inl here ↦ absurd (ground (arith, here, e))
  | inr other ↦ go (split d s) (starts_with-first d s w) (rw other at e)
]
  where
    go :
        (ws : List (List ℕ))
        → (first ws ≡ w → starts_with s w ≡ true)
        → first (onto_first c ws) ≡ x ∷ w
        → starts_with (c ∷ s) (x ∷ w) ≡ true
    go [] h e = ground (arith, h, e)
    go (v ∷ vs) h e = ground (arith, h, e)

-- A part is not a text that does not occur.
pub All-split : (d : ℕ) (p s : List ℕ) → contains p s ≡ false → All (λ w. w ≢ p) (split d s)
unfolding split contains
All-split d p [] h = ((λ e. absurd (ground (arith, h, starts_with-first d [] p e))), tt)
All-split d p (c ∷ s) h =
    go (split d (c ∷ s)) (starts_with-first d (c ∷ s) p)
      (rest (eqb c d) (split d s) (All-split d p s (ground (arith, h))))
  where
    tail : List (List ℕ) → List (List ℕ)
    tail [] = []
    tail (w ∷ ws) = ws

    rest :
        (t : Bool) (ws : List (List ℕ))
        → All (λ w. w ≢ p) ws
        → All (λ w. w ≢ p) (tail (if t then [] ∷ ws else onto_first c ws))
    rest true ws k = k
    rest false [] k = tt
    rest false (w ∷ ws) k = k.1

    go :
        (ws : List (List ℕ))
        → (first ws ≡ p → starts_with (c ∷ s) p ≡ true)
        → All (λ w. w ≢ p) (tail ws)
        → All (λ w. w ≢ p) ws
    go [] f k = tt
    go (w ∷ ws) f k = ((λ e. absurd (ground (arith, h, f e))), k)
