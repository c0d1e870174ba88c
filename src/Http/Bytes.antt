-- ===== src/Http/Bytes.antt =====
-- The bytes that broker/http_api.py writes for a response, and `_parse_headers`.
pub mod Framed
pub mod Lines
pub mod Skips
pub mod RoundTrip
use distro_sync.Prelude.{
  ℕ, Bool, true, false, ◌&&◌, ◌||◌, Option, none, some, List, [], ◌∷◌, ◌++◌, if◌then◌else◌, eqb,
  leb,
}
use distro_sync.Http.{Response}
use distro_sync.Http.Decimal.{decimal}
use distro_sync.Http.Text.{codes, same, contains, before, onto_first, starts_with, drop}

-- the `status_text` of `_send_response`
unfoldable pub status_text : ℕ → List ℕ
status_text status =
    if eqb status 200
    then codes "OK"
    else if eqb status 400
    then codes "Bad Request"
    else if eqb status 404
    then codes "Not Found"
    else if eqb status 405
    then codes "Method Not Allowed"
    else if eqb status 500
    then codes "Internal Server Error"
    else codes "Unknown"

-- a line, before what follows it
abbrev pub line : List ℕ → List ℕ → List ℕ
line s rest = s ++ 13 ∷ 10 ∷ rest

abbrev pub field : List ℕ → List ℕ → List ℕ → List ℕ
field name value rest = line (name ++ 58 ∷ 32 ∷ value) rest

abbrev pub field_if : Bool → List ℕ → List ℕ → List ℕ → List ℕ
field_if true name value rest = field name value rest
field_if false name value rest = rest

abbrev pub length_field : Option ℕ → List ℕ → List ℕ
length_field none rest = rest
length_field (some n) rest = field (codes "Content-Length") (decimal n) rest

abbrev pub status_line : ℕ → List ℕ
status_line status = codes "HTTP/1.1 " ++ decimal status ++ 32 ∷ status_text status

-- `_send_response`, `_send_html_response`, `_serve_static` and the answer to HEAD
unfoldable pub render : Response → List ℕ
render r = line (status_line r.status) (
    field (codes "Content-Type") r.content_type (
      length_field r.content_length (
        field_if r.allow_origin (codes "Access-Control-Allow-Origin") (codes "*") (
          field_if r.no_cache (codes "Cache-Control") (codes "no-cache")
            (field (codes "Connection") (codes "close") (line [] r.body))))))

-- `s.split("\r\n")`
unfoldable pub split_lines : List ℕ → List (List ℕ)
split_lines [] = [] ∷ []
split_lines (c ∷ []) = (c ∷ []) ∷ []
split_lines (c ∷ d ∷ s) = elim (eqb c 13 && eqb d 10) [
  | true ↦ [] ∷ split_lines s
  | false ↦ onto_first c (split_lines (d ∷ s))
]

-- `c.isspace()`
abbrev pub is_space : ℕ → Bool
is_space c =
    (leb 9 c && leb c 13)
    || (leb 28 c && leb c 32)
    || eqb c 133
    || eqb c 160
    || eqb c 5760
    || (leb 8192 c && leb c 8202)
    || (leb 8232 c && leb c 8233)
    || eqb c 8239
    || eqb c 8287
    || eqb c 12_288

unfoldable pub lstrip : List ℕ → List ℕ
lstrip [] = []
lstrip (c ∷ s) = let rest = lstrip s in if is_space c then rest else c ∷ s

abbrev pub keep_before : ℕ → List ℕ → List ℕ
keep_before c [] = if is_space c then [] else c ∷ []
keep_before c (d ∷ s) = c ∷ d ∷ s

unfoldable pub rstrip : List ℕ → List ℕ
rstrip [] = []
rstrip (c ∷ s) = keep_before c (rstrip s)

abbrev pub strip : List ℕ → List ℕ
strip s = rstrip (lstrip s)

-- `s.split(":", 1)[1]`
unfoldable pub after_colon : List ℕ → List ℕ
after_colon [] = []
after_colon (c ∷ s) = let rest = after_colon s in if eqb c 58 then s else rest

-- The dict of the headers.
abbrev pub Headers : Type 0
Headers = List (List ℕ × List ℕ)

unfoldable pub put : List ℕ → List ℕ → Headers → Headers
put k v [] = (k, v) ∷ []
put k v ((j, w) ∷ d) = let rest = put k v d in if same j k then (k, v) ∷ d else (j, w) ∷ rest

unfoldable pub find : List ℕ → Headers → Option (List ℕ)
find k [] = none
find k ((j, w) ∷ d) = let rest = find k d in if same j k then some w else rest

-- `lower` is `str.lower`
module _ (lower : List ℕ → List ℕ) where
  abbrev pub add_header : List ℕ → Headers → Headers
  add_header l d =
      if contains (58 ∷ []) l
      then put (lower (strip (before (58 ∷ []) l))) (strip (after_colon l)) d
      else d

  -- the loop ends at an empty line
  unfoldable pub read_headers : List (List ℕ) → Headers → Headers
  read_headers [] d = d
  read_headers ([] ∷ ls) d = d
  read_headers ((c ∷ l) ∷ ls) d = read_headers ls (add_header (c ∷ l) d)

  abbrev pub headers_after : List (List ℕ) → Headers
  headers_after [] = []
  headers_after (l ∷ ls) = read_headers ls []

  unfoldable pub parse_headers : List ℕ → Headers
  parse_headers text = headers_after (split_lines text)

-- what follows the first empty line
unfoldable pub body_of : List ℕ → List ℕ
body_of [] = []
body_of (c ∷ s) = elim (starts_with (c ∷ s) (13 ∷ 10 ∷ 13 ∷ 10 ∷ [])) [
  | true ↦ drop 3 s
  | false ↦ body_of s
]
