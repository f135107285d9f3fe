-- ===== src/Mime.antt =====
-- utils/inline/mime.go: MIME headers under canonical keys. The headers of Go's `net/http` are kept
-- in the same way, and go by these definitions too.
use wpoven_nobot.Base.{
  ℕ, ◌+◌, ◌-◌, Bool, true, false, not, ◌&&◌, ◌||◌, Option, none, some, List, [], ◌∷◌, ◌++◌, Text,
  leb, eqb, if◌then◌else◌, lookup, insert, delete, text_equality,
}
use wpoven_nobot.Text.{upper}

abbrev pub Header : Type 0
Header = List (Text × List Text)

abbrev pub is_lower : ℕ → Bool
is_lower c = leb b'a' c && leb c b'z'

abbrev pub is_upper : ℕ → Bool
is_upper c = leb b'A' c && leb c b'Z'

abbrev is_digit : ℕ → Bool
is_digit c = leb b'0' c && leb c b'9'

-- the bytes that the mask of `validHeaderFieldByte` has besides letters and digits
abbrev is_token_sign : ℕ → Bool
is_token_sign c =
    eqb c b'!'
    || leb 35 c && leb c 39
    || eqb c b'*'
    || eqb c b'+'
    || eqb c b'-'
    || eqb c b'.'
    || leb 94 c && leb c 96
    || eqb c b'|'
    || eqb c b'~'

unfoldable pub valid_header_field_byte : ℕ → Bool
valid_header_field_byte c = is_lower c || is_upper c || is_digit c || is_token_sign c

-- the quick check of `CanonicalMIMEHeaderKey`: `some true` when a byte has the wrong case,
-- `some false` when all have the right one, `none` at the first byte that is not valid
quick_check : Bool → Text → Option Bool
quick_check upper [] = some false
quick_check upper (c ∷ s) =
    let rest = quick_check (eqb c b'-') s in
    if not (valid_header_field_byte c)
    then none
    else if upper && is_lower c
    then some true
    else if not upper && is_upper c
    then some true
    else rest

abbrev all_valid : Text → Bool
all_valid [] = true
all_valid (c ∷ s) = valid_header_field_byte c && all_valid s

-- the rewriting loop of `canonicalMIMEHeaderKey`
unfoldable pub set_case : Bool → Text → Text
set_case upper [] = []
set_case upper (c ∷ s) =
    let d = if upper && is_lower c then c - 32 else if not upper && is_upper c then c + 32 else c in
    d ∷ set_case (eqb d b'-') s

-- `canonicalMIMEHeaderKey`: a key with a byte that is not valid, a space too, stays as it is; the
-- table `commonHeader` maps its keys to themselves
unfoldable pub canonical_mime_header_key_bytes : Text → Text
unfolding set_case
canonical_mime_header_key_bytes a = if all_valid a then set_case true a else a

unfoldable pub canonical_mime_header_key : Text → Text
unfolding quick_check canonical_mime_header_key_bytes valid_header_field_byte
canonical_mime_header_key s = elim (quick_check true s) [
  | none ↦ s
  | some wrong ↦ if wrong then canonical_mime_header_key_bytes s else s
]

unfoldable pub add : Text → Text → Header → Header
add key value h = elim (lookup (canonical_mime_header_key key) h) [
  | none ↦ insert (canonical_mime_header_key key) (value ∷ []) h
  | some vs ↦ insert (canonical_mime_header_key key) (vs ++ value ∷ []) h
]

unfoldable pub set : Text → Text → Header → Header
set key value h = insert (canonical_mime_header_key key) (value ∷ []) h

abbrev pub first : Option (List Text) → Text
first none = []
first (some []) = []
first (some (v ∷ vs)) = v

unfoldable pub get : Text → Header → Text
get key h = first (lookup (canonical_mime_header_key key) h)

abbrev pub all_of : Option (List Text) → List Text
all_of none = []
all_of (some vs) = vs

unfoldable pub values : Text → Header → List Text
values key h = all_of (lookup (canonical_mime_header_key key) h)

unfoldable pub del : Text → Header → Header
del key h = delete (canonical_mime_header_key key) h
