-- ===== src/Http.antt =====
-- The HTTP interface, broker/http_api.py: its requests and responses. A request is the decoded text
-- of the one read; the file system, the JSON printer and `Popen` are parameters.
pub mod Text
pub mod Decimal
pub mod Bytes
pub mod Pages
pub mod Route
pub mod Confined
pub mod Keeps
use Prim.Native.String.{String}
use distro_sync.Prelude.{ℕ, Bool, true, false, Option, none, some, List, [], ◌∷◌, ◌++◌, length}
use distro_sync.Http.Text.{codes, before, split}

-- What is in the file system at a path.
pub data Entry : Type 0 where
  directory : Entry
  file : List ℕ → Entry

-- what `Popen` does: it starts a process, or raises
pub data Popen : Type 0 where
  started : ℕ → Popen
  raised : List ℕ → Popen

-- The bodies of the JSON responses, by what they say. `report` is what a handler returned, and
-- `coroutine` what the call of an `async` handler gives that is not awaited.
pub data Body (B : Type 0) : Type 0 where
  error : List ℕ → Body B
  healthy load_test_started flood_started : Body B
  not_started : List ℕ → Body B
  report : B → Body B
  coroutine : Body B

-- `read_text` is the reading in text mode with the encoding that follows, and can raise.
pub record Env (B : Type 0) : Type 0 where
  pub dashboard_dir : List ℕ
  pub files : List ℕ → Option Entry
  pub read_text : List ℕ → Option (List ℕ)
  pub dumps : Body B → List ℕ
  pub popen : List String → Popen

-- A handler that is called and not awaited.
pub data Called (S B : Type 0) : Type 0 where
  returns : (S → S × B) → Called S B
  coroutine_function : Called S B

pub record Handlers (S B : Type 0) : Type 0 where
  pub metrics_handler : Option (S → S × B)
  pub dlq_handler : Option (S → S × B)
  pub stats_handler : Option (Called S B)
  pub crash_worker_handler : Option (S → S × B)
  pub replay_dlq_handler : Option (S → S × B)
  pub reset_handler : Option (S → S × B)

-- A response: its status, its headers, its body.
pub record Response : Type 0 where
  pub status : ℕ
  pub content_type : List ℕ
  pub content_length : Option ℕ
  pub allow_origin : Bool
  pub no_cache : Bool
  pub body : List ℕ

-- The state after a request is served, and the response; none is an exception.
pub record Outcome (S : Type 0) : Type 0 where
  pub active_loads : List ℕ
  pub state : S
  pub response : Option Response

abbrev pub json_response : ℕ → List ℕ → Response
json_response status bytes = record {
  status = status;
  content_type = codes "application/json";
  content_length = some (length bytes);
  allow_origin = true;
  no_cache = false;
  body = bytes;
}

-- `_send_response`: the printer has no text for a coroutine
abbrev pub send_response : {B : Type 0} → (Body B → List ℕ) → ℕ → Body B → Option Response
send_response dumps status Body.coroutine = none
send_response dumps status body = some (json_response status (dumps body))

-- `_send_html_response`
abbrev pub html_response : List ℕ → Response
html_response bytes = record {
  status = 200;
  content_type = codes "text/html; charset=utf-8";
  content_length = some (length bytes);
  allow_origin = true;
  no_cache = true;
  body = bytes;
}

-- what HEAD gets
abbrev pub head_response : Response
head_response = record {
  status = 200;
  content_type = codes "text/html";
  content_length = none;
  allow_origin = false;
  no_cache = false;
  body = [];
}

-- The request line: a method and a path without its query, if it has two parts.
abbrev pub method_and_path : List (List ℕ) → Option (List ℕ × List ℕ)
method_and_path (method ∷ target ∷ more) = some (method, before (codes "?") target)
method_and_path other = none

-- the line ends where "\r\n" is
unfoldable pub parse_request : List ℕ → Option (List ℕ × List ℕ)
parse_request text = method_and_path (split 32 (before (13 ∷ 10 ∷ []) text))
