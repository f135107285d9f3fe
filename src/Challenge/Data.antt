-- ===== src/Challenge/Data.antt =====
-- RequestData of lib/challenge/data.go: names that conditions read, options, and the tokens that
-- challenges issue.
pub mod Expiry
use wpoven_nobot.Mime
use wpoven_nobot.Base.{
  nat_equality, text_equality, if◌then◌else◌, is_empty, Text, ascii, ◌==◌, lookup, insert, delete,
  ℕ, ◌+◌, Bool, true, false, not, ◌&&◌, ◌||◌, Option, none, some, [],
}
use wpoven_nobot.Time.{Time, Duration, round, unix}
use wpoven_nobot.Net.{as_slice}
use wpoven_nobot.Challenge.Types.{
  VerifyState, state_none, VerifyResult, result_none, is_ok, Value, text_value, bytes_value,
  values_value, map_value,
}
use wpoven_nobot.Challenge.World.{TokenChallenge, RequestData, World}
use wpoven_nobot.Challenge.Registration.{Key, State, get_backend}

-- RequestData.ResolveName
unfoldable pub resolve_name : World → Text → Option Value
resolve_name w name =
    if name == ascii "host"
    then some (text_value w.request.host)
    else if name == ascii "method"
    then some (text_value w.request.method)
    else if name == ascii "remoteAddress"
    then some (bytes_value (as_slice w.request_data.remote_address))
    else if name == ascii "userAgent"
    then some (text_value (Mime.get (ascii "User-Agent") w.request.header))
    else if name == ascii "path"
    then some (text_value w.request.url.path)
    else if name == ascii "query"
    then some (values_value w.request_data.query)
    else if name == ascii "headers"
    then some (values_value w.request.header)
    else if name == ascii "fp"
    then some (map_value w.request_data.fp)
    else none

-- RequestData.SetOpt
abbrev pub set_opt : Text → Text → RequestData → RequestData
set_opt n v d = record d { opts = insert n v d.opts }

-- RequestData.GetOpt
unfoldable pub get_opt : Text → Text → RequestData → Text
get_opt n default d = elim (lookup n d.opts) [ none ↦ default | some v ↦ v ]

abbrev is_true_word : Text → Bool
is_true_word v =
    v == ascii "true"
    || v == ascii "t"
    || v == ascii "1"
    || v == ascii "yes"
    || v == ascii "yep"
    || v == ascii "y"
    || v == ascii "ok"

abbrev is_false_word : Text → Bool
is_false_word v =
    v == ascii "false"
    || v == ascii "f"
    || v == ascii "0"
    || v == ascii "no"
    || v == ascii "nope"
    || v == ascii "n"
    || v == ascii "err"

-- RequestData.GetOptBool
unfoldable pub get_opt_bool : Text → Bool → RequestData → Bool
get_opt_bool n default d = elim (lookup n d.opts) [
  | none ↦ default
  | some v ↦ if is_true_word v then true else if is_false_word v then false else default
]

abbrev pub backend_host_opt : Text
backend_host_opt = ascii "backend-host"

-- RequestData.BackendHost; under the option the source assigns the request's host once more
unfoldable pub backend_host : State → World → Option ℕ × Text
unfolding get_opt
backend_host state w =
    let opt = get_opt backend_host_opt [] w.request_data in
    let host =
      if not (is_empty opt) && not (opt == w.request.host)
      then w.request.host
      else w.request.host in
    (get_backend state host, host)

-- RequestData.ClearChallengeToken
unfoldable pub clear_challenge_token : Text → RequestData → RequestData
clear_challenge_token name d = record d {
  challenge_map = delete name d.challenge_map;
  challenge_map_modified = true;
}

-- RequestData.IssueChallengeToken; `name` is the registration's
unfoldable pub issue_challenge_token : Text → Key → Text → Time → Bool → World → World
issue_challenge_token name key result until ok w =
    let token : TokenChallenge = record {
      key = key;
      result = result;
      ok = ok;
      expiry = unix until;
      not_before = 0;
      issued_at = unix w.now;
    } in
    let d = w.request_data in
    record w {
      request_data = record d {
        challenge_map = insert name token d.challenge_map;
        challenge_map_modified = true;
      };
    }

-- RequestData.Expiration
unfoldable pub expiration : Duration → RequestData → Time
unfolding round
expiration duration d = round duration (d.time + duration)

-- a missing entry of the map reads as VerifyResultNone
abbrev pub verify_of : ℕ → RequestData → VerifyResult
verify_of id d = elim (lookup id d.challenge_verify) [ none ↦ result_none | some r ↦ r ]

abbrev pub state_of : ℕ → RequestData → VerifyState
state_of id d = elim (lookup id d.challenge_state) [ none ↦ state_none | some s ↦ s ]

-- RequestData.HasValidChallenge
unfoldable pub has_valid_challenge : ℕ → RequestData → Bool
has_valid_challenge id d = is_ok (verify_of id d)
