-- ===== src/Challenge/Query.antt =====
-- The query parameters that the program adds to URLs and takes off again: the constants of
-- lib/challenge/helper.go, and the loops that delete what starts with QueryArgPrefix.
pub mod Clean
use wpoven_nobot.Base.{text_equality, if◌then◌else◌, Text, ascii, Bool, false, ◌||◌, [], ◌∷◌}
use wpoven_nobot.Query.{Values}
use wpoven_nobot.Text.{has_prefix}

abbrev pub query_arg_prefix : Text
query_arg_prefix = ascii "__goaway"

abbrev pub query_arg_referer : Text
query_arg_referer = ascii "__goaway_referer"

abbrev pub query_arg_redirect : Text
query_arg_redirect = ascii "__goaway_redirect"

abbrev pub query_arg_request_id : Text
query_arg_request_id = ascii "__goaway_id"

abbrev pub query_arg_challenge : Text
query_arg_challenge = ascii "__goaway_challenge"

abbrev pub query_arg_token : Text
query_arg_token = ascii "__goaway_token"

abbrev pub query_arg_bust : Text
query_arg_bust = ascii "__goaway_bust"

-- `for k := range q { if strings.HasPrefix(k, QueryArgPrefix) { q.Del(k) } }`
unfoldable pub delete_args : Values → Values
delete_args [] = []
delete_args ((k, vs) ∷ q) =
    let rest = delete_args q in if has_prefix k query_arg_prefix then rest else (k, vs) ∷ rest

-- whether some key starts with QueryArgPrefix
unfoldable pub has_args : Values → Bool
has_args [] = false
has_args ((k, vs) ∷ q) = has_prefix k query_arg_prefix || has_args q
