-- ===== src/Action.antt =====
-- lib/action: the handlers of rules. The handlers that a policy can build are one data type, and
-- Handle is one function over it.
pub mod Handle
pub mod Build
use wpoven_nobot.Mime
use wpoven_nobot.Challenge.State.{response_headers}
use wpoven_nobot.Base.{text_equality}
use wpoven_nobot.Mime.{Header, canonical_mime_header_key}
use wpoven_nobot.Challenge.Data.{set_opt}
use wpoven_nobot.Challenge.World.{
  RequestData, RuleAction, write_header, served, World, emit, set_header,
}
use wpoven_nobot.Challenge.Registration.{Registration, State, get_backend}
use wpoven_nobot.Base.{Text, ascii, insert, ℕ, Bool, Option, none, some, List, [], ◌∷◌}

-- Where a request is passed on to: a backend, or the handler that does nothing.
pub data Backend : Type 0 where
  backend : ℕ → Backend
  empty_backend : Backend

-- The argument `done` of Handle: it sets headers and gives the backend.
abbrev pub Done : Type 0
Done = World → Backend × World

pub data HandleError : Type 0 where
  backend_not_found : Text → HandleError
  rule_evaluation : Text → HandleError
  rule_execution : Text → HandleError → HandleError

-- How Handle and Evaluate return: `(true, nil)`, `(false, nil)`, or an error.
pub data Handled : Type 0 where
  next stop : World → Handled
  failed : HandleError → World → Handled

-- the settings of a CHALLENGE or CHECK action, its challenges looked up
pub record ChallengeAction : Type 0 where
  pub code : ℕ
  pub continue : Bool
  pub challenges : List Registration
  pub pass_action : RuleAction
  pub fail_action : RuleAction

-- ContextSettings
pub record ContextSettings : Type 0 where
  pub context_set : List (Text × Text)
  pub response_headers : Header
  pub request_headers : Header

-- The types that implement Handler. The rewriting of a path by a PROXY action is a parameter.
pub data Handler : Type 0 where
  none_handler pass_handler drop_handler : Handler
  deny_handler block_handler : ℕ → Text → Handler
  code_handler : ℕ → Handler
  context_handler : ContextSettings → Handler
  proxy_handler : Option (Text → Text) → Text → Handler
  challenge_handler : ChallengeAction → Handler → Handler → Handler

-- `backend.ServeHTTP(w, r)`
abbrev pub serve_http : Backend → World → World
serve_http (backend b) w = emit (served b w.request) w
serve_http empty_backend w = w

-- Pass.Handle
unfoldable pub handle_pass : Done → World → Handled
handle_pass done w = let (b, w') = done w in stop (serve_http b w')

abbrev no_cache : World → World
no_cache w = set_header (ascii "Cache-Control") (ascii "no-cache, no-store, must-revalidate") w

-- Block.Handle
unfoldable pub handle_block : State → ℕ → World → Handled
handle_block state code w =
    let w' =
      set_header (ascii "Connection") (ascii "close")
        (no_cache (set_header (ascii "Content-Type") (ascii "text/plain") w)) in
    stop (emit (write_header code) (response_headers state w'))

-- Code.Handle
unfoldable pub handle_code : State → ℕ → World → Handled
handle_code state code w = stop (emit (write_header code) (response_headers state (no_cache w)))

set_opts : List (Text × Text) → RequestData → RequestData
set_opts [] d = d
set_opts ((k, v) ∷ opts) d = set_opts opts (set_opt k v d)

add_all : Text → List Text → Header → Header
add_all k [] h = h
add_all k (v ∷ vs) h = add_all k vs (Mime.add k v h)

replace_all : Header → Header → Header
replace_all [] h = h
replace_all ((k, vs) ∷ opts) h =
    replace_all opts (add_all k vs (insert (canonical_mime_header_key k) [] h))

-- Context.Handle
unfoldable pub handle_context : ContextSettings → World → Handled
unfolding set_opts add_all replace_all
handle_context opts w =
    let r = w.request in
    next (record w {
      request_data = set_opts opts.context_set w.request_data;
      response = replace_all opts.response_headers w.response;
      request = record r { header = replace_all opts.request_headers r.header };
    })

abbrev pub rewritten : Option (Text → Text) → World → World
rewritten none w = w
rewritten (some rewrite) w =
    let r = w.request in
    let u = r.url in record w { request = record r { url = record u { path = rewrite u.path } } }

-- Proxy.Handle
unfoldable pub handle_proxy : State → Option (Text → Text) → Text → Done → World → Handled
handle_proxy state rewrite name done w = elim (get_backend state name) [
  | none ↦ failed (backend_not_found name) w
  | some b ↦ stop (serve_http (backend b) (done (rewritten rewrite w)).1)
]
