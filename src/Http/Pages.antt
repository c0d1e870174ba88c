-- ===== src/Http/Pages.antt =====
-- The pages of broker/http_api.py: `_serve_*`, `_trigger_*`, and the admin actions.
use distro_sync.Prelude.{
  ℕ, Bool, true, false, not, ◌&&◌, ◌||◌, Option, none, some, List, [], ◌∷◌, ◌++◌, length, map,
  if◌then◌else◌, eqb, leb, ◌+◌,
}
use distro_sync.Http.Text.{codes, same, starts_with, contains, split, drop}
use distro_sync.Http.{
  Env, Entry, Popen, Body, Called, Response, Outcome, send_response, html_response,
}

-- `os.path.join(dir, name)`
abbrev pub ends_with_slash : List ℕ → Bool
ends_with_slash [] = false
ends_with_slash (c ∷ []) = eqb c 47
ends_with_slash (c ∷ d ∷ s) = ends_with_slash (d ∷ s)

unfoldable pub join : List ℕ → List ℕ → List ℕ
join dir name =
    if starts_with name (codes "/")
    then name
    else if same dir [] || ends_with_slash dir
    then dir ++ name
    else dir ++ 47 ∷ name

-- `os.path.splitext(path)[1].lower()`: from the last dot of the name on, if there is something
-- other than dots before it
abbrev pub last_part : List (List ℕ) → List ℕ
last_part [] = []
last_part (w ∷ []) = w
last_part (w ∷ v ∷ ws) = last_part (v ∷ ws)

unfoldable pub last_dot : Bool → List ℕ → Option (List ℕ)
last_dot seen [] = none
last_dot seen (c ∷ s) = elim (last_dot (seen || not (eqb c 46)) s) [
  | some e ↦ some e
  | none ↦ if eqb c 46 && seen then some (c ∷ s) else none
]

abbrev pub lower : ℕ → ℕ
lower c = if leb 65 c && leb c 90 then c + 32 else c

abbrev pub extension_of : Option (List ℕ) → List ℕ
extension_of none = []
extension_of (some e) = map lower e

unfoldable pub extension : List ℕ → List ℕ
extension path = extension_of (last_dot false (last_part (split 47 path)))

unfoldable pub content_type : List ℕ → List ℕ
content_type ext =
    if same ext (codes ".css")
    then codes "text/css"
    else if same ext (codes ".js")
    then codes "application/javascript"
    else if same ext (codes ".png")
    then codes "image/png"
    else if same ext (codes ".svg")
    then codes "image/svg+xml"
    else if same ext (codes ".ico")
    then codes "image/x-icon"
    else codes "application/octet-stream"

abbrev pub static_response : List ℕ → List ℕ → Response
static_response path bytes = record {
  status = 200;
  content_type = content_type (extension path);
  content_length = some (length bytes);
  allow_origin = true;
  no_cache = false;
  body = bytes;
}

module _ {B : Type 0} (env : Env B) where
  abbrev pub not_found : List ℕ → Option Response
  not_found what = send_response env.dumps 404 (Body.error what)

  abbrev pub html_of : Option (List ℕ) → Option Response
  html_of none = none
  html_of (some html) = some (html_response html)

  -- opening a directory raises
  abbrev pub dashboard_page : Option Entry → Option Response
  dashboard_page none = not_found (codes "Dashboard not found. Create dashboard/index.html")
  dashboard_page (some Entry.directory) = none
  dashboard_page (some (Entry.file bytes)) = html_of (env.read_text bytes)

  -- `_serve_dashboard`
  unfoldable pub serve_dashboard : Option Response
  serve_dashboard = dashboard_page (env.files (join env.dashboard_dir (codes "index.html")))

  abbrev pub static_page : List ℕ → Option Entry → Option Response
  static_page path (some (Entry.file bytes)) = some (static_response path bytes)
  static_page path other = not_found (codes "Not found")

  -- `_serve_static`
  unfoldable pub serve_static : List ℕ → Option Response
  serve_static path =
      let relative = drop 8 path in
      if contains (codes "..") relative || starts_with relative (codes "/")
      then not_found (codes "Not found")
      else let file_path = join env.dashboard_dir relative in
        static_page file_path (env.files file_path)

module _ {S B : Type 0} (env : Env B) where
  abbrev pub respond : List ℕ → S → Option Response → Outcome S
  respond loads s r = record { active_loads = loads; state = s; response = r }

  -- an awaited handler's report, or what is sent without one
  abbrev pub serve_report : ℕ → List ℕ → Option (S → S × B) → List ℕ → S → Outcome S
  serve_report status missing none loads s =
      respond loads s (send_response env.dumps status (Body.error missing))
  serve_report status missing (some f) loads s =
      let (s', r) = f s in respond loads s' (send_response env.dumps 200 (Body.report r))

  -- `_serve_stats` does not await its handler
  abbrev pub serve_stats : Option (Called S B) → List ℕ → S → Outcome S
  serve_stats none loads s =
      respond loads s
        (send_response env.dumps 200 (Body.error (codes "Stats handler not registered")))
  serve_stats (some (Called.returns f)) loads s =
      let (s', r) = f s in respond loads s' (send_response env.dumps 200 (Body.report r))
  serve_stats (some Called.coroutine_function) loads s =
      respond loads s (send_response env.dumps 200 Body.coroutine)

  -- `_handle_reset`; what `kill` does to the processes is outside
  abbrev pub handle_reset : Option (S → S × B) → List ℕ → S → Outcome S
  handle_reset h loads s = serve_report 500 (codes "Handler not configured") h [] s

  abbrev pub trigger : Body B → List ℕ → S → Popen → Outcome S
  trigger message loads s (Popen.started p) =
      respond (loads ++ p ∷ []) s (send_response env.dumps 200 message)
  trigger message loads s (Popen.raised e) =
      respond loads s (send_response env.dumps 500 (Body.not_started e))

  -- `_trigger_load_test`
  abbrev pub trigger_load_test : List ℕ → S → Outcome S
  trigger_load_test loads s =
      trigger Body.load_test_started loads s
        (env.popen ("--port" ∷ "5555" ∷ "--delay" ∷ "0.6" ∷ []))

  -- `_trigger_flood`
  abbrev pub trigger_flood : List ℕ → S → Outcome S
  trigger_flood loads s =
      trigger Body.flood_started loads s
        (env.popen ("--producers" ∷ "200" ∷ "--tasks" ∷ "500" ∷ "--port" ∷ "5555" ∷ []))
