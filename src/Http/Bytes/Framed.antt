-- ===== src/Http/Bytes/Framed.antt =====
-- The lines of a response, one by one: each field is read as it was written.
use distro_sync.Prelude.{
  ℕ, ◌≡◌, refl, Bool, true, false, ◌&&◌, ◌||◌, not, List, [], ◌∷◌, ◌++◌, All, arith, eqb, ap, ◌∙◌,
}
use distro_sync.Http.Text.{contains, before, onto_first}
use distro_sync.Http.Decimal.{decimal, IsDigit, decimal-IsDigit}
use distro_sync.Http.Bytes.{
  line, field, split_lines, is_space, lstrip, rstrip, strip, after_colon, Headers, put, add_header,
  read_headers, body_of,
}

-- no line ends within the text
abbrev pub InLine : List ℕ → Type 0
InLine s = All (λ c. eqb c 13 ≡ false) s

pub split_lines-line :
    (s rest : List ℕ) → InLine s → split_lines (line s rest) ≡ s ∷ split_lines rest
unfolding split_lines
split_lines-line [] rest h = refl
split_lines-line (c ∷ []) rest h = rw (split_lines, h.0) refl
split_lines-line (c ∷ d ∷ s) rest h =
    rw (split_lines, h.0) (ap (onto_first c) (split_lines-line (d ∷ s) rest h.1))

-- what does not start with the end of a line
abbrev pub Starts : List ℕ → Type 0
Starts [] = Unit
Starts (c ∷ s) = eqb c 13 ≡ false

body_of-step : (c : ℕ) (s : List ℕ) → eqb c 13 ≡ false → body_of (c ∷ s) ≡ body_of s
unfolding body_of
body_of-step c s k = rw (body_of, k) refl

pub body_of-line : (s rest : List ℕ) → InLine s → Starts rest → body_of (line s rest) ≡ body_of rest
unfolding body_of
body_of-line [] [] h k = refl
body_of-line [] (c ∷ rest) h k = rw (body_of, k) (body_of-step c rest k)
body_of-line (c ∷ s) rest h k = body_of-step c (line s rest) (h.0) ∙ body_of-line s rest h.1 k

pub body_of-end : (s body : List ℕ) → InLine s → body_of (line s (line [] body)) ≡ body
unfolding body_of
body_of-end [] body h = refl
body_of-end (c ∷ s) body h = body_of-step c (line s (line [] body)) (h.0) ∙ body_of-end s body h.1

pub InLine-append : (s t : List ℕ) → InLine s → InLine t → InLine (s ++ t)
InLine-append [] t h k = k
InLine-append (c ∷ s) t h k = (h.0, InLine-append s t h.1 k)

-- a text that `strip` leaves as it is
abbrev pub IsSolid : List ℕ → Type 0
IsSolid s = All (λ c. is_space c ≡ false) s

lstrip-IsSolid : (s : List ℕ) → IsSolid s → lstrip s ≡ s
unfolding lstrip
lstrip-IsSolid [] h = refl
lstrip-IsSolid (c ∷ s) h = rw (h.0) refl

rstrip-IsSolid : (s : List ℕ) → IsSolid s → rstrip s ≡ s
unfolding rstrip
rstrip-IsSolid [] h = refl
rstrip-IsSolid (c ∷ []) h = rw (h.0) refl
rstrip-IsSolid (c ∷ d ∷ s) h = rw (rstrip-IsSolid (d ∷ s) h.1) refl

pub strip-IsSolid : (s : List ℕ) → IsSolid s → strip s ≡ s
strip-IsSolid s h = rw (lstrip-IsSolid s h) (rstrip-IsSolid s h)

-- the digits are neither spaces nor ends of lines
digits-IsSolid : (s : List ℕ) → All IsDigit s → IsSolid s × InLine s
digits-IsSolid [] h = (tt, tt)
digits-IsSolid (c ∷ s) h =
    let (solid, in_line) = digits-IsSolid s h.1 in
    ((ground (arith, h.0), solid), (ground (arith, h.0), in_line))

module _ (rest : List ℕ) where
  contains-colon :
      (name : List ℕ)
      → All (λ c. eqb c 58 ≡ false) name
      → contains (58 ∷ []) (name ++ 58 ∷ rest) ≡ true
  unfolding contains
  contains-colon [] h = refl
  contains-colon (c ∷ name) h = rw (contains, h.0) (contains-colon name h.1)

  before-colon :
      (name : List ℕ)
      → All (λ c. eqb c 58 ≡ false) name
      → before (58 ∷ []) (name ++ 58 ∷ rest) ≡ name
  unfolding before
  before-colon [] h = refl
  before-colon (c ∷ name) h = rw (before, h.0) (ap (λ s. c ∷ s) (before-colon name h.1))

  after_colon-colon :
      (name : List ℕ) → All (λ c. eqb c 58 ≡ false) name → after_colon (name ++ 58 ∷ rest) ≡ rest
  unfolding after_colon
  after_colon-colon [] h = refl
  after_colon-colon (c ∷ name) h = rw (after_colon, h.0) (after_colon-colon name h.1)

-- a name of a field, as a test
abbrev pub is_name : List ℕ → Bool
is_name [] = true
is_name (c ∷ s) = not (eqb c 58 || eqb c 13 || is_space c) && is_name s

pub record IsName (s : List ℕ) : Type 0 where
  pub no_colon : All (λ c. eqb c 58 ≡ false) s
  pub in_line : InLine s
  pub solid : IsSolid s

pub to_name : (s : List ℕ) → is_name s ≡ true → IsName s
to_name [] h = record { no_colon = tt; in_line = tt; solid = tt }
to_name (c ∷ s) h =
    let n = to_name s (ground (arith, h)) in
    record {
      no_colon = (ground (arith, h), n.no_colon);
      in_line = (ground (arith, h), n.in_line);
      solid = (ground (arith, h), n.solid);
    }

-- a value of a field: no end of a line, and no space at its ends
pub record IsValue (v : List ℕ) : Type 0 where
  pub in_line : InLine v
  pub stripped : strip v ≡ v

pub decimal-IsValue : (n : ℕ) → IsValue (decimal n)
decimal-IsValue n =
    let (solid, in_line) = digits-IsSolid (decimal n) (decimal-IsDigit n) in
    record { in_line = in_line; stripped = strip-IsSolid (decimal n) solid }

module _ (lower : List ℕ → List ℕ) where
  -- the line of a field is read as the field
  add_header-field :
      (name value : List ℕ) (d : Headers)
      → IsName name
      → strip value ≡ value
      → add_header lower (name ++ 58 ∷ 32 ∷ value) d ≡ put (lower name) value d
  add_header-field name value d h v =
      rw
        (
          contains-colon (32 ∷ value) name h.no_colon,
          before-colon (32 ∷ value) name h.no_colon,
          after_colon-colon (32 ∷ value) name h.no_colon,
          strip-IsSolid name h.solid,
        )
        (unfold lstrip in ap (λ x. put (lower name) x d) v)

  pub read_headers-field :
      (c : ℕ) (name value rest : List ℕ) (d : Headers)
      → is_name (c ∷ name) ≡ true
      → IsValue value
      → read_headers lower (split_lines (field (c ∷ name) value rest)) d
        ≡ read_headers lower (split_lines rest) (put (lower (c ∷ name)) value d)
  unfolding read_headers
  read_headers-field c name value rest d h v =
      let n = to_name (c ∷ name) h in
      ap (λ ls. read_headers lower ls d)
        (split_lines-line (c ∷ name ++ 58 ∷ 32 ∷ value) rest
          (InLine-append (c ∷ name) (58 ∷ 32 ∷ value) n.in_line (refl, (refl, v.in_line))))
      ∙ ap (λ e. read_headers lower (split_lines rest) e)
          (add_header-field (c ∷ name) value d n v.stripped)
