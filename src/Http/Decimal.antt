-- ===== src/Http/Decimal.antt =====
-- `str(n)` of a number, by its code points, and that its digits tell the number.
use distro_sync.Prelude.{
  ℕ, zero, suc, ◌+◌, ◌*◌, ◌-◌, ◌/◌, ◌%◌, ◌≤◌, ◌<◌, ◌≡◌, refl, true, false, List, [], ◌∷◌, All,
  arith, ltb, Bool-cases, inl, inr, ap, ◌∙◌,
}

-- the digits before `out`; the fuel is enough if it is more than the number
unfoldable pub digits : ℕ → ℕ → List ℕ → List ℕ
digits zero n out = out
digits (suc fuel) n out = elim (ltb n 10) [
  | true ↦ (48 + n) ∷ out
  | false ↦ digits fuel (n / 10) ((48 + n % 10) ∷ out)
]

abbrev pub decimal : ℕ → List ℕ
decimal n = digits (suc n) n []

-- what the digits say, after a number that was read before them
unfoldable pub number : List ℕ → ℕ → ℕ
number [] n = n
number (c ∷ s) n = number s (n * 10 + (c - 48))

abbrev pub IsDigit : ℕ → Type 0
IsDigit c = (48 ≤ c) × (c ≤ 57)

module _ (fuel n : ℕ) (out : List ℕ) where
  digits-small : ltb n 10 ≡ true → digits (suc fuel) n out ≡ (48 + n) ∷ out
  unfolding digits
  digits-small e = rw (digits, e) refl

  digits-large :
      ltb n 10 ≡ false → digits (suc fuel) n out ≡ digits fuel (n / 10) ((48 + n % 10) ∷ out)
  unfolding digits
  digits-large e = rw (digits, e) refl

digits-IsDigit : (fuel n : ℕ) (out : List ℕ) → All IsDigit out → All IsDigit (digits fuel n out)
unfolding digits
digits-IsDigit zero n out h = h
digits-IsDigit (suc fuel) n out h = elim (Bool-cases (ltb n 10)) [
  | inl small ↦ rw (digits-small fuel n out small) ((omega arith, ground (arith, small)), h)
  | inr large ↦
      rw (digits-large fuel n out large)
        (digits-IsDigit fuel (n / 10) ((48 + n % 10) ∷ out) ((omega arith, omega arith), h))
]

number-digits : (fuel n : ℕ) (out : List ℕ) → n < fuel → number (digits fuel n out) 0 ≡ number out n
unfolding digits number
number-digits zero n out h = elim h [ ]
number-digits (suc fuel) n out h = elim (Bool-cases (ltb n 10)) [
  | inl small ↦ rw (digits-small fuel n out small) (ap (λ m. number out m) (omega arith))
  | inr large ↦ rw (digits-large fuel n out large) (
      number-digits fuel (n / 10) ((48 + n % 10) ∷ out) (ground (arith, large, h))
      ∙ ap (λ m. number out m) (omega arith))
]

pub decimal-IsDigit : (n : ℕ) → All IsDigit (decimal n)
decimal-IsDigit n = digits-IsDigit (suc n) n [] tt

pub number-decimal : (n : ℕ) → number (decimal n) 0 ≡ n
unfolding number
number-decimal n = number-digits (suc n) n [] (omega arith)
