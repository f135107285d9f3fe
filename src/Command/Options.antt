-- ===== src/Command/Options.antt =====
-- The options of cmd/go-away/main.go: the seed of the key, the backends, and the directories of the
-- cache. A fatal error ends the program before it serves anything.
pub mod Seed
use wpoven_nobot.Hex
use wpoven_nobot.Base.{
  text_equality, eqb, if◌then◌else◌, length, is_empty, Text, ascii, ◌==◌, insert, ℕ, Bool, false,
  not, ◌&&◌, Option, none, some, List, [], ◌∷◌, ◌++◌,
}
use wpoven_nobot.Text.{split, to_lower}
use wpoven_nobot.Hex.{Decoded}
use wpoven_nobot.Policy.Networks.{◌>>=◌}
use wpoven_nobot.Challenge.Data.{backend_host}
use wpoven_nobot.Challenge.Types.{transparent}
use wpoven_nobot.Proxy.Director.{BackendSettings}

-- the value that names the seed: two variables of the environment, then the flag
unfoldable pub seed_value : Text → Text → Text → Text
seed_value env old_env flag =
    if not (is_empty env) then env else if not (is_empty old_env) then old_env else flag

-- What main makes of the value: a seed, empty for a random key; the end of the program after a new
-- seed is printed; or a fatal error.
pub data SeedChoice : Type 0 where
  seed_given : Text → SeedChoice
  seed_generated seed_refused : SeedChoice

abbrev pub decoded_seed : Decoded → SeedChoice
decoded_seed (out, some err) = seed_refused
decoded_seed (out, none) = if eqb (length out) 32 then seed_given out else seed_refused

unfoldable pub choose_seed : Text → SeedChoice
choose_seed value =
    if is_empty value
    then seed_given []
    else if to_lower value == ascii "generate"
    then seed_generated
    else decoded_seed (Hex.decode value)

-- what is printed for a new seed
abbrev pub printed_seed : Text → Text
printed_seed seed = Hex.encode seed ++ 10 ∷ []

-- the backend's header for the address of the client, by default that of the client
unfoldable pub backend_ip_header_or : Text → Text → Text
backend_ip_header_or backend_header client_header =
    if is_empty backend_header then client_header else backend_header

-- Backend of lib/settings/backend.go: its URL, and what its director reads
pub record BackendOption : Type 0 where
  pub target_url : Text
  pub director_settings : BackendSettings

-- a backend of the command line, which has no settings
abbrev pub plain_backend : Text → Text → BackendOption
plain_backend header target = record {
  target_url = target;
  director_settings = record { backend_host = []; ip_header = header; transparent = false };
}

abbrev pub named_backend :
    Text → List Text → List (Text × BackendOption) → Option (List (Text × BackendOption))
named_backend header (name ∷ target ∷ []) m = some (insert name (plain_backend header target) m)
named_backend header _ m = none

-- the loop over the backends of the command line; `none` is a fatal error
unfoldable pub add_backends :
    Text → List Text → List (Text × BackendOption) → Option (List (Text × BackendOption))
add_backends header [] m = some m
add_backends header (definition ∷ more) m =
    (if is_empty definition then some m else named_backend header (split b'=' definition) m)
    >>= add_backends header more

-- the default of a backend's header
abbrev pub with_header : Text → BackendOption → BackendOption
with_header header b =
    if is_empty b.director_settings.ip_header
    then record b { director_settings = record b.director_settings { ip_header = header } }
    else b

-- the loop that creates the backends; `create_backend` is Create of lib/settings/backend.go
unfoldable pub create_backends :
    (BackendOption → Option ℕ)
    → Text
    → List (Text × BackendOption)
    → List (Text × ℕ)
    → Option (List (Text × ℕ))
create_backends create_backend header [] so_far = some so_far
create_backends create_backend header ((name, b) ∷ more) so_far =
    create_backend (with_header header b) >>= λ number.
    create_backends create_backend header more (insert name number so_far)

abbrev some_backends : List (Text × ℕ) → Option (List (Text × ℕ))
some_backends [] = none
some_backends (b ∷ bs) = some (b ∷ bs)

-- the backends that the program starts with, from its settings and the command line
unfoldable pub program_backends :
    (BackendOption → Option ℕ)
    → Text
    → List Text
    → List (Text × BackendOption)
    → Option (List (Text × ℕ))
unfolding add_backends create_backends
program_backends create_backend header definitions settings =
    add_backends header definitions settings >>= λ m.
    create_backends create_backend header m [] >>= some_backends

-- What the cache needs of the file system: MkdirAll, Join, and CacheDirectory.
pub record CacheSystem : Type 0 where
  pub make_directory : Text → Bool
  pub join_path : Text → Text → Text
  pub cache_opens : Text → Bool

-- the directory of the cache, none where it is turned off, and that of certificates; `none` is a fatal
-- error
unfoldable pub open_cache : CacheSystem → Text → Option (Option Text × Text)
open_cache fs path =
    if is_empty path
    then some (none, [])
    else if fs.make_directory path
        && fs.make_directory (fs.join_path path (ascii "networks"))
        && fs.make_directory (fs.join_path path (ascii "acme"))
        && fs.cache_opens path
    then some (some path, fs.join_path path (ascii "acme"))
    else none
