-- ===== src/Http/Bytes/RoundTrip.antt =====
-- What a reader of the bytes of a response gets: its fields, and its body.
use distro_sync.Prelude.{
  ℕ, ◌≡◌, refl, Bool, true, false, Option, none, some, List, [], ◌∷◌, map, length, arith, ap, ◌∙◌,
}
use distro_sync.Http.{Response}
use distro_sync.Http.Pages
use distro_sync.Http.Text.{codes}
use distro_sync.Http.Decimal.{decimal, number, number-decimal}
use distro_sync.Http.Bytes.{
  line, field, field_if, length_field, status_line, render, split_lines, Headers, put, find,
  read_headers, headers_after, parse_headers, body_of,
}
use distro_sync.Http.Bytes.Framed.{IsValue, decimal-IsValue, split_lines-line, read_headers-field}
use distro_sync.Http.Bytes.Lines.{is_ascii, is_token, star, no_cache, close, status-InLine}
use distro_sync.Http.Bytes.Skips.{body_of-render}

abbrev pub IsLower : (List ℕ → List ℕ) → Type 0
IsLower lower = (s : List ℕ) → is_ascii s ≡ true → lower s ≡ map Pages.lower s

abbrev put_length : Option ℕ → Headers → Headers
put_length none d = d
put_length (some n) d = put (codes "content-length") (decimal n) d

abbrev put_if : Bool → List ℕ → List ℕ → Headers → Headers
put_if true k v d = put k v d
put_if false k v d = d

-- the fields of a response, as a reader finds them
abbrev pub fields : Response → Headers
fields r = put (codes "connection") (codes "close") (
    put_if r.no_cache (codes "cache-control") (codes "no-cache") (
      put_if r.allow_origin (codes "access-control-allow-origin") (codes "*")
        (put_length r.content_length (put (codes "content-type") r.content_type []))))

module _ (lower : List ℕ → List ℕ) (lowers : IsLower lower) where
  abbrev reading : List ℕ → Headers → Headers
  reading rest d = read_headers lower (split_lines rest) d

  reads :
      (name value rest : List ℕ) (d : Headers)
      → is_token name ≡ true
      → IsValue value
      → reading (field name value rest) d ≡ reading rest (put (map Pages.lower name) value d)
  reads [] value rest d h v = absurd (ground (arith, h))
  reads (c ∷ name) value rest d h v =
      read_headers-field lower c name value rest d (ground (arith, h)) v
      ∙ ap (λ k. reading rest (put k value d)) (lowers (c ∷ name) (ground (arith, h)))

  reads-if :
      (t : Bool) (name value rest : List ℕ) (d : Headers)
      → is_token name ≡ true
      → IsValue value
      → reading (field_if t name value rest) d
        ≡ reading rest (put_if t (map Pages.lower name) value d)
  reads-if true name value rest d h v = reads name value rest d h v
  reads-if false name value rest d h v = refl

  reads-length :
      (n : Option ℕ) (rest : List ℕ) (d : Headers)
      → reading (length_field n rest) d ≡ reading rest (put_length n d)
  reads-length none rest d = refl
  reads-length (some n) rest d =
      reads (codes "Content-Length") (decimal n) rest d refl (decimal-IsValue n)

  reads-end : (body : List ℕ) (d : Headers) → reading (line [] body) d ≡ d
  unfolding split_lines read_headers
  reads-end body d = refl

  reads-fields :
      (r : Response) (v : IsValue r.content_type)
      → reading
          (field (codes "Content-Type") r.content_type (
            length_field r.content_length (
              field_if r.allow_origin (codes "Access-Control-Allow-Origin") (codes "*") (
                field_if r.no_cache
                  (codes "Cache-Control")
                  (codes "no-cache")
                  (field (codes "Connection") (codes "close") (line [] r.body))))))
          []
        ≡ fields r
  reads-fields r v =
      reads (codes "Content-Type") r.content_type _ [] refl v
      ∙ reads-length r.content_length _ _
      ∙ reads-if r.allow_origin (codes "Access-Control-Allow-Origin") (codes "*") _ _ refl star
      ∙ reads-if r.no_cache (codes "Cache-Control") (codes "no-cache") _ _ refl no_cache
      ∙ reads (codes "Connection") (codes "close") (line [] r.body) _ refl close
      ∙ reads-end r.body _

-- the length is among the fields
find-fields :
    (n : ℕ) (kind : List ℕ) (origin cache : Bool)
    → find (codes "content-length") (
        put (codes "connection") (codes "close") (
          put_if cache (codes "cache-control") (codes "no-cache") (
            put_if origin
              (codes "access-control-allow-origin")
              (codes "*")
              (put_length (some n) (put (codes "content-type") kind [])))))
      ≡ some (decimal n)
unfolding find put
find-fields n kind true true = refl
find-fields n kind true false = refl
find-fields n kind false true = refl
find-fields n kind false false = refl

parse_headers-render :
    (lower : List ℕ → List ℕ) (r : Response)
    → IsLower lower
    → IsValue r.content_type
    → parse_headers lower (render r) ≡ fields r
unfolding parse_headers render
parse_headers-render lower r lowers v =
    let rest = field (codes "Content-Type") r.content_type (
      length_field r.content_length (
        field_if r.allow_origin (codes "Access-Control-Allow-Origin") (codes "*") (
          field_if r.no_cache (codes "Cache-Control") (codes "no-cache")
            (field (codes "Connection") (codes "close") (line [] r.body))))) in
    ap (headers_after lower) (split_lines-line (status_line r.status) rest (status-InLine r.status))
    ∙ reads-fields lower lowers r v

-- From the bytes of a response `_parse_headers` reads exactly the fields of the response, among
-- them a Content-Length whose digits tell the length of the body, and what follows the first empty
-- line is the body. The response has the length of its body for its length, its content type is a
-- value without the end of a line and without spaces at its ends, `str.lower` does on ASCII text
-- what it should, and a byte is read as the character with its number.
pub render-framed :
    (lower : List ℕ → List ℕ) (r : Response)
    → IsLower lower
    → IsValue r.content_type
    → r.content_length ≡ some (length r.body)
    → (parse_headers lower (render r) ≡ fields r)
      × ((v : List ℕ) × (find (codes "content-length") (parse_headers lower (render r)) ≡ some v)
          × (number v 0 ≡ length r.body))
      × (body_of (render r) ≡ r.body)
render-framed lower r lowers v e =
    let same = parse_headers-render lower r lowers v in
    (
      same,
      (
        decimal (length r.body),
        ap (find (codes "content-length")) same
            ∙ rw e (find-fields (length r.body) r.content_type r.allow_origin r.no_cache),
        number-decimal (length r.body),
      ),
      body_of-render r v,
    )
