-- ===== src/Redirect.antt =====
-- EnsureNoOpenRedirect and SelectHTTPHandler of utils/http.go.
use wpoven_nobot.Url
use wpoven_nobot.Url.{Url}
use wpoven_nobot.Base.{
  text_equality, if◌then◌else◌, drop, is_empty, Text, ascii, lookup, true, not, ◌&&◌, Option, none,
  some, List, [], ◌++◌,
}
use wpoven_nobot.Text.{has_prefix, split, join}

pub data RedirectError : Type 0 where
  parse_error invalid_redirect_path : RedirectError

pub data RedirectResult : Type 0 where
  redirect_to : Text → RedirectResult
  refused : RedirectError → RedirectResult

-- EnsureNoOpenRedirect; `parse` is `url.Parse`, `none` its error
unfoldable pub ensure_no_open_redirect : (Text → Option Url) → Text → RedirectResult
unfolding Url.string
ensure_no_open_redirect parse redirect = elim (parse redirect) [
  | none ↦ refused parse_error
  | some uri ↦
      if not (is_empty uri.path) && not (has_prefix uri.path (ascii "/"))
      then refused invalid_redirect_path
      else redirect_to (
          Url.string
            (record uri { scheme = []; host = []; user = none; opaque = []; omit_host = true }))
]

-- `strings.Join(strings.Split(host, ".")[1:], ".")`
abbrev parent_domain : Text → Text
parent_domain host = join b'.' (drop 1 (split b'.' host))

abbrev pub or_else {ℓ} : {A : Type ℓ} → Option A → Option A → Option A
or_else none o = o
or_else (some a) o = some a

-- SelectHTTPHandler; `none` is a nil handler
unfoldable pub select_http_handler {ℓ} : {B : Type ℓ} → List (Text × B) → Text → Option B
select_http_handler backends host =
    or_else (lookup host backends)
      (or_else (lookup (ascii "*." ++ parent_domain host) backends) (lookup (ascii "*") backends))
