-- ===== src/Http/Confined.antt =====
-- What the HTTP interface reads of the file system.
use distro_sync.Prelude.{
  ℕ, ◌≡◌, ◌≢◌, refl, ap, false, Option, none, some, List, [], ◌∷◌, All, arith, Bool-cases, inl, inr,
}
use distro_sync.Http.Text.{codes, starts_with, contains, split, drop}
use distro_sync.Http.Text.Split.{All-split}
use distro_sync.Http.{Env, Entry, Handlers, parse_request}
use distro_sync.Http.Pages.{join, serve_dashboard, serve_static, static_page, dashboard_page}
use distro_sync.Http.Route.{route, route_path, serve_request, recover, handle_connection}

-- A path of the directory: a relative name, no part of which leads up.
pub record IsInside (dir path : List ℕ) : Type 0 where
  pub name : List ℕ
  pub joined : path ≡ join dir name
  pub relative : starts_with name (codes "/") ≡ false
  pub stays : All (λ w. w ≢ codes "..") (split 47 name)

module _ {S B : Type 0} (env : Env B) (h : Handlers S B) (files : List ℕ → Option Entry)
    (agree : (p : List ℕ) → IsInside env.dashboard_dir p → env.files p ≡ files p) where
  -- the same server on another file system
  abbrev elsewhere : Env B
  elsewhere = record env { files = files }

  serve_dashboard-elsewhere : serve_dashboard env ≡ serve_dashboard elsewhere
  unfolding serve_dashboard split
  serve_dashboard-elsewhere = ap (dashboard_page env) (
      agree _ (record {
        name = codes "index.html";
        joined = refl;
        relative = refl;
        stays = ((λ e. absurd (ground (arith, e))), tt);
      }))

  serve_static-elsewhere : (path : List ℕ) → serve_static env path ≡ serve_static elsewhere path
  unfolding serve_static
  serve_static-elsewhere path = elim (Bool-cases (contains (codes "..") (drop 8 path))) [
    | inl up ↦ rw up refl
    | inr inside ↦ elim (Bool-cases (starts_with (drop 8 path) (codes "/"))) [
      | inl absolute ↦ rw (inside, absolute) refl
      | inr relative ↦
          rw (inside, relative)
            (ap (static_page env (join env.dashboard_dir (drop 8 path))) (
              agree _ (record {
                name = drop 8 path;
                joined = refl;
                relative = relative;
                stays = All-split 47 (codes "..") (drop 8 path) inside;
              })))
    ]
  ]

  route-elsewhere :
      (method path loads : List ℕ) (s : S)
      → route env h method path loads s ≡ route elsewhere h method path loads s
  unfolding route route_path
  route-elsewhere method path loads s =
      rw (serve_dashboard-elsewhere, serve_static-elsewhere path) refl

  serve_request-elsewhere :
      (r : Option (List ℕ × List ℕ)) (loads : List ℕ) (s : S)
      → serve_request env h r loads s ≡ serve_request elsewhere h r loads s
  serve_request-elsewhere none loads s = refl
  serve_request-elsewhere (some (method, path)) loads s =
      rw (route-elsewhere method path loads s) refl

  -- Whatever request comes, what the HTTP interface answers and does depends only on files whose
  -- path is the dashboard directory joined with a relative name of which no part is "..": it is
  -- the same on any two file systems that agree there.
  pub handle_connection-confined :
      (text loads : List ℕ) (s : S)
      → handle_connection env h text loads s
        ≡ handle_connection (record env { files = files }) h text loads s
  unfolding handle_connection
  handle_connection-confined [] loads s = refl
  handle_connection-confined (c ∷ text) loads s =
      ap (recover env h) (serve_request-elsewhere (parse_request (c ∷ text)) loads s)
