-- ===== src/Http/Bytes/Lines.antt =====
-- The lines of a response have no end of a line in them.
use distro_sync.Prelude.{
  ℕ, ◌≡◌, refl, Bool, true, false, ◌&&◌, not, eqb, List, [], ◌∷◌, ◌++◌, arith, if◌then◌else◌, leb,
}
use distro_sync.Http.Text.{codes}
use distro_sync.Http.Decimal.{decimal}
use distro_sync.Http.Bytes.{status_line, status_text, lstrip, rstrip, strip}
use distro_sync.Http.Bytes.Framed.{
  InLine, InLine-append, IsValue, is_name, to_name, decimal-IsValue,
}

-- `str.lower`, on ASCII text
abbrev pub is_ascii : List ℕ → Bool
is_ascii [] = true
is_ascii (c ∷ s) = leb c 127 && is_ascii s

-- the name of a field: it is not empty
abbrev pub is_token : List ℕ → Bool
is_token [] = false
is_token (c ∷ s) = is_name (c ∷ s) && is_ascii (c ∷ s)

-- a literal value
pub literal : (v : List ℕ) → is_name v ≡ true → strip v ≡ v → IsValue v
literal v h e = record { in_line = (to_name v h).in_line; stripped = e }

pub star : IsValue (codes "*")
star = literal (codes "*") refl (unfold lstrip rstrip in refl)

pub no_cache : IsValue (codes "no-cache")
no_cache = literal (codes "no-cache") refl (unfold lstrip rstrip in refl)

pub close : IsValue (codes "close")
close = literal (codes "close") refl (unfold lstrip rstrip in refl)

abbrev pub is_line : List ℕ → Bool
is_line [] = true
is_line (c ∷ s) = not (eqb c 13) && is_line s

pub to_line : (s : List ℕ) → is_line s ≡ true → InLine s
to_line [] h = tt
to_line (c ∷ s) h = (ground (arith, h), to_line s (ground (arith, h)))

pub if-InLine : (t : Bool) (x y : List ℕ) → InLine x → InLine y → InLine (if t then x else y)
if-InLine true x y h k = h
if-InLine false x y h k = k

pub status_text-InLine : (status : ℕ) → InLine (status_text status)
unfolding status_text
status_text-InLine status = if-InLine (eqb status 200) _ _ (to_line (codes "OK") refl) (
    if-InLine (eqb status 400) _ _ (to_line (codes "Bad Request") refl) (
      if-InLine (eqb status 404) _ _ (to_line (codes "Not Found") refl) (
        if-InLine (eqb status 405) _ _ (to_line (codes "Method Not Allowed") refl) (
          if-InLine (eqb status 500) _ _ (to_line (codes "Internal Server Error") refl)
            (to_line (codes "Unknown") refl)))))

-- the status line is one line
pub status-InLine : (status : ℕ) → InLine (status_line status)
status-InLine status = InLine-append (codes "HTTP/1.1 ") _ (to_line (codes "HTTP/1.1 ") refl) (
    InLine-append (decimal status) _ (decimal-IsValue status).in_line
      (refl, status_text-InLine status))

-- the line of a field is one line
pub field-InLine :
    (name value : List ℕ) → is_token name ≡ true → IsValue value → InLine (name ++ 58 ∷ 32 ∷ value)
field-InLine [] value h v = absurd (ground (arith, h))
field-InLine (c ∷ name) value h v =
    InLine-append (c ∷ name) _ (to_name (c ∷ name) (ground (arith, h))).in_line
      (refl, (refl, v.in_line))
