-- ===== src/Embed.antt =====
-- GetFallbackFS of embed/embed.go, Get of utils/strings.go, and ServeChallengeScript of
-- lib/challenge/script.go. Files and the text of scripts are left out.
use wpoven_nobot.Base.{
  text_equality, if◌then◌else◌, Text, ascii, lookup, ◌≡◌, refl, Bool, true, Option, none, some,
  List, ◌++◌,
}
use wpoven_nobot.Challenge.State.{response_headers}
use wpoven_nobot.Challenge.World.{write_header, panicked, World, emit, set_header}
use wpoven_nobot.Challenge.Registration.{State}

-- What GetFallbackFS asks: whether a path is a directory of the machine, whether it is one of the
-- embedded files, and fs.Sub.
pub record Directories (F : Type 0) : Type 0 where
  pub is_local_directory : Text → Bool
  pub is_embedded_directory : Text → Bool
  pub sub_directory : Text → Option F

-- GetFallbackFS
unfoldable pub get_fallback_fs : {F : Type 0} → Directories F → F → Text → Option F
get_fallback_fs d embedded prefix =
    if d.is_local_directory prefix
    then some embedded
    else if d.is_embedded_directory prefix
    then d.sub_directory prefix
    else none

-- Strings.Get: a text that is missing is shown by its key
unfoldable pub get_string : Text → List (Text × Text) → Text
get_string value strings = elim (lookup value strings) [
  | none ↦ ascii "string:" ++ value
  | some v ↦ v
]

-- ServeChallengeScript; `marshals` says whether the parameters have a JSON text
unfoldable pub serve_challenge_script : State → Bool → World → World
serve_challenge_script state marshals w =
    let w' =
      set_header (ascii "Content-Type") (ascii "text/javascript; charset=utf-8")
        (set_header (ascii "Cache-Control") (ascii "no-cache, no-store, must-revalidate") w) in
    if marshals then emit (write_header 200) (response_headers state w') else emit panicked w'

-- A path that is a directory of the machine is answered with all embedded files, whatever it holds.
get_fallback_fs_local :
    {F : Type 0} (d : Directories F) (embedded : F) (prefix : Text)
    → d.is_local_directory prefix ≡ true
    → get_fallback_fs d embedded prefix ≡ some embedded
unfolding get_fallback_fs
get_fallback_fs_local d embedded prefix h = rw h refl
