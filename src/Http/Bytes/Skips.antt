-- ===== src/Http/Bytes/Skips.antt =====
-- What follows the empty line of a response is its body.
use distro_sync.Prelude.{
  ℕ, ◌≡◌, refl, Bool, true, false, Option, none, some, List, [], ◌∷◌, ◌++◌, arith, ◌∙◌,
}
use distro_sync.Http.{Response}
use distro_sync.Http.Text.{codes}
use distro_sync.Http.Decimal.{decimal}
use distro_sync.Http.Bytes.{line, field, field_if, length_field, status_line, render, body_of}
use distro_sync.Http.Bytes.Framed.{IsValue, decimal-IsValue, body_of-line, body_of-end, Starts}
use distro_sync.Http.Bytes.Lines.{is_token, star, no_cache, to_line, status-InLine, field-InLine}

-- a text that goes on with a field or ends
record Skips (text rest : List ℕ) : Type 0 where
  starts : Starts text
  body : body_of text ≡ body_of rest

field-Skips :
    (name value rest : List ℕ)
    → is_token name ≡ true
    → IsValue value
    → Starts rest
    → Skips (field name value rest) rest
field-Skips [] value rest h v k = absurd (ground (arith, h))
field-Skips (c ∷ name) value rest h v k = record {
  starts = ground (arith, h);
  body = body_of-line (c ∷ name ++ 58 ∷ 32 ∷ value) rest (field-InLine (c ∷ name) value h v) k;
}

field_if-Skips :
    (t : Bool) (name value rest : List ℕ)
    → is_token name ≡ true
    → IsValue value
    → Starts rest
    → Skips (field_if t name value rest) rest
field_if-Skips true name value rest h v k = field-Skips name value rest h v k
field_if-Skips false name value rest h v k = record { starts = k; body = refl }

length_field-Skips : (n : Option ℕ) (rest : List ℕ) → Starts rest → Skips (length_field n rest) rest
length_field-Skips none rest k = record { starts = k; body = refl }
length_field-Skips (some n) rest k =
    field-Skips (codes "Content-Length") (decimal n) rest refl (decimal-IsValue n) k

pub body_of-render : (r : Response) → IsValue r.content_type → body_of (render r) ≡ r.body
unfolding render
body_of-render r v =
    let last = field (codes "Connection") (codes "close") (line [] r.body) in
    let cache =
      field_if-Skips r.no_cache (codes "Cache-Control") (codes "no-cache") last refl no_cache
        refl in
    let origin =
      field_if-Skips r.allow_origin (codes "Access-Control-Allow-Origin") (codes "*") _ refl star
        cache.starts in
    let len = length_field-Skips r.content_length _ origin.starts in
    let kind = field-Skips (codes "Content-Type") r.content_type _ refl v len.starts in
    body_of-line (status_line r.status) _ (status-InLine r.status) kind.starts
    ∙ kind.body
    ∙ len.body
    ∙ origin.body
    ∙ cache.body
    ∙ body_of-end (codes "Connection: close") r.body (to_line (codes "Connection: close") refl)
