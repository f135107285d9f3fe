-- ===== src/Url.antt =====
-- What the program uses of `net/url`: a parsed URL, percent encoding, Query, Encode and String.
-- A URL's own RawPath is left out: a path is escaped as `String` escapes it by default.
use wpoven_nobot.Query.{Values, append_value, sorted_pairs}
use wpoven_nobot.Text.{has_prefix, contains, before, after, split, join}
use wpoven_nobot.Base.{
  ltb, leb, if◌then◌else◌, is_empty, Text, ascii, ℕ, ◌+◌, ◌-◌, ◌*◌, ◌/◌, ◌%◌, Bool, true, false,
  not, ◌&&◌, ◌||◌, Option, none, some, List, [], ◌∷◌, ◌++◌, map, eqb,
}

pub record Url : Type 0 where
  pub scheme : Text
  pub opaque : Text
  pub user : Option Text
  pub host : Text
  pub path : Text
  pub omit_host : Bool
  pub raw_query : Text
  pub fragment : Text

abbrev hex_digit : ℕ → ℕ
hex_digit n = if ltb n 10 then 48 + n else 55 + n

abbrev is_unreserved : ℕ → Bool
is_unreserved c =
    leb b'a' c && leb c b'z'
    || leb b'A' c && leb c b'Z'
    || leb b'0' c && leb c b'9'
    || eqb c b'-'
    || eqb c b'_'
    || eqb c b'.'
    || eqb c b'~'

-- the signs that a path may hold as they are
abbrev is_path_sign : ℕ → Bool
is_path_sign c =
    eqb c b'$'
    || eqb c b'&'
    || eqb c b'+'
    || eqb c b','
    || eqb c b'/'
    || eqb c b':'
    || eqb c b';'
    || eqb c b'='
    || eqb c b'@'

abbrev escape_byte : ℕ → Text → Text
escape_byte c rest = b'%' ∷ hex_digit (c / 16) ∷ hex_digit (c % 16) ∷ rest

-- `url.QueryEscape`
unfoldable pub query_escape : Text → Text
query_escape [] = []
query_escape (c ∷ s) =
    let rest = query_escape s in
    if is_unreserved c then c ∷ rest else if eqb c 32 then b'+' ∷ rest else escape_byte c rest

-- `u.EscapedPath()`
unfoldable pub escape_path : Text → Text
escape_path [] = []
escape_path (c ∷ s) =
    let rest = escape_path s in
    if is_unreserved c || is_path_sign c then c ∷ rest else escape_byte c rest

abbrev hex_value : ℕ → Option ℕ
hex_value c =
    if leb 48 c && leb c 57
    then some (c - 48)
    else if leb 97 c && leb c 102
    then some (c - 87)
    else if leb 65 c && leb c 70
    then some (c - 55)
    else none

abbrev hex_pair : ℕ → ℕ → Option ℕ
hex_pair a b = elim (hex_value a) [
  | none ↦ none
  | some x ↦ elim (hex_value b) [ none ↦ none | some y ↦ some (16 * x + y) ]
]

abbrev cons_byte : Option ℕ → Option Text → Option Text
cons_byte none rest = none
cons_byte (some c) none = none
cons_byte (some c) (some s) = some (c ∷ s)

-- `url.QueryUnescape`; `none` is its error
unfoldable pub query_unescape : Text → Option Text
query_unescape [] = some []
query_unescape (c ∷ []) = if eqb c b'%' then none else some ((if eqb c b'+' then 32 else c) ∷ [])
query_unescape (c ∷ a ∷ []) =
    if eqb c b'%'
    then none
    else cons_byte (some (if eqb c b'+' then 32 else c)) (query_unescape (a ∷ []))
query_unescape (c ∷ a ∷ b ∷ s) =
    let coded = cons_byte (hex_pair a b) (query_unescape s) in
    let plain = cons_byte (some (if eqb c b'+' then 32 else c)) (query_unescape (a ∷ b ∷ s)) in
    if eqb c b'%' then coded else plain

abbrev add_unescaped : Option Text → Option Text → Values → Values
add_unescaped none value m = m
add_unescaped (some key) none m = m
add_unescaped (some key) (some value) m = append_value key value m

add_query : List Text → Values → Values
add_query [] m = m
add_query (seg ∷ segs) m = add_query segs (
    if contains b';' seg || is_empty seg
    then m
    else add_unescaped (query_unescape (before b'=' seg)) (query_unescape (after b'=' seg)) m)

-- `u.Query()`: segments that do not decode are dropped
unfoldable pub query : Url → Values
unfolding add_query
query u = add_query (split b'&' u.raw_query) []

escape_values : Values → Values
escape_values [] = []
escape_values ((key, vs) ∷ m) = (query_escape key, map query_escape vs) ∷ escape_values m

-- `v.Encode()`: keys in byte order, keys and values escaped
unfoldable pub encode : Values → Text
unfolding sorted_pairs escape_values query_escape
encode m = join b'&' (sorted_pairs (escape_values m))

abbrev is_none : Option Text → Bool
is_none none = true
is_none (some t) = false

abbrev user_info : Option Text → Text
user_info none = []
user_info (some t) = t ++ b'@' ∷ []

abbrev scheme_part : Url → Text
scheme_part u = if is_empty u.scheme then [] else u.scheme ++ b':' ∷ []

abbrev authority : Url → Text
authority u =
    if is_empty u.scheme && is_empty u.host && is_none u.user
    then []
    else if u.omit_host && is_empty u.host && is_none u.user
    then []
    else (if is_empty u.host && is_empty u.path && is_none u.user then [] else ascii "//")
      ++ user_info u.user
      ++ u.host

-- what stands between the authority and the path
abbrev separator : Url → Text → Text
separator u path =
    if not (is_empty path) && not (has_prefix path (ascii "/")) && not (is_empty u.host)
    then ascii "/"
    else if is_empty (scheme_part u) && is_empty (authority u) && contains b':' (before b'/' path)
    then ascii "./"
    else []

abbrev query_part : Url → Text
query_part u = if is_empty u.raw_query then [] else b'?' ∷ u.raw_query

abbrev fragment_part : Url → Text
fragment_part u = if is_empty u.fragment then [] else b'#' ∷ u.fragment

-- `u.String()`; the host and the fragment are kept as they are written
unfoldable pub string : Url → Text
unfolding escape_path
string u =
    scheme_part u
    ++ (if is_empty u.opaque
        then authority u ++ separator u (escape_path u.path) ++ escape_path u.path
        else u.opaque)
    ++ query_part u
    ++ fragment_part u
