-- ===== src/Challenge/Verify.antt =====
-- lib/challenge/helper.go: the verifier of keys, the URLs of a challenge, and the handler that
-- takes a client's answer.
pub mod Keys
use wpoven_nobot.Mime
use wpoven_nobot.Hex
use wpoven_nobot.Base.{
  nat_equality, text_equality, eqb, if◌then◌else◌, length, is_empty, Text, ascii, ◌==◌, insert, ℕ,
  true, false, not, ◌&&◌, Option, none, some, [], ◌++◌,
}
use wpoven_nobot.Query.{Values, get_value, set_value, parse_raw_query, encode_raw_query}
use wpoven_nobot.Mime.{values}
use wpoven_nobot.Text.{decimal}
use wpoven_nobot.Url.{Url, query_escape, query, string}
use wpoven_nobot.Url.{encode}
use wpoven_nobot.Redirect.{redirect_to, refused, ensure_no_open_redirect}
use wpoven_nobot.Challenge.Key.{key_size, get_flag, get_challenge_key_for_request}
use wpoven_nobot.Challenge.Query.{
  query_arg_referer, query_arg_redirect, query_arg_request_id, query_arg_challenge, query_arg_token,
  query_arg_bust, delete_args,
}
use wpoven_nobot.Challenge.Token.{with_data}
use wpoven_nobot.Challenge.Data.{issue_challenge_token, expiration}
use wpoven_nobot.Challenge.State.{response_headers, error_page}
use wpoven_nobot.Challenge.Types.{
  VerifyResult, result_fail, result_ok, is_ok, Err, invalid_token, mismatched_token,
  mismatched_token_happy_eyeballs, other, wrap, is_happy_eyeballs,
}
use wpoven_nobot.Challenge.World.{
  Request, challenge_failed, challenge_passed, redirected, World, emit,
}
use wpoven_nobot.Challenge.Registration.{Key, VerifyFunc, Registration, State}

-- KeyFromString
unfoldable pub key_from_string : Text → Option Key
key_from_string s = elim (Hex.decode s).1 [
  | some e ↦ none
  | none ↦ if eqb (length (Hex.decode s).0) key_size then some (Hex.decode s).0 else none
]

-- the verifier of NewKeyVerifier
unfoldable pub verify_key : VerifyFunc
verify_key key token r =
    let (expected_key, err) = Hex.decode token in
    elim err [
      | some e ↦ (result_fail, some (other (ascii "hex")))
      | none ↦
          if not (eqb (length expected_key) key_size)
          then (result_fail, some invalid_token)
          else if key == expected_key
          then (result_ok, none)
          else if not (get_flag key) && get_flag expected_key
          then (result_ok, some mismatched_token_happy_eyeballs)
          else (result_fail, some mismatched_token)
    ]

-- the issuer of NewKeyVerifier
abbrev pub issue_key : Key → Text
issue_key key = Hex.encode key

-- GetVerifyInformation: the request's identifier, where to redirect to, and the token
pub data VerifyInformation : Type 0 where
  information : Text → Text → Text → VerifyInformation
  no_information : Err → VerifyInformation

unfoldable pub get_verify_information :
    (Text → Option Url) → Registration → Request → VerifyInformation
unfolding ensure_no_open_redirect
get_verify_information parse reg r =
    let q = query r.url in
    let id_hex = get_value query_arg_request_id q in
    let (id, err) = Hex.decode id_hex in
    if not (get_value query_arg_challenge q == reg.name)
    then no_information (other (ascii "unexpected challenge"))
    else if not (eqb 16 (Hex.decoded_len (length id_hex)))
    then no_information (other (ascii "invalid request id"))
    else elim err [
      | some e ↦ no_information (other (ascii "hex"))
      | none ↦
          if not (eqb (length id) 16)
          then no_information (other (ascii "invalid request id"))
          else elim (ensure_no_open_redirect parse (get_value query_arg_redirect q)) [
            | refused e ↦ no_information (other (ascii "redirect"))
            | redirect_to redirect ↦ information id redirect (get_value query_arg_token q)
          ]
    ]

-- RedirectUrl; parsing the text of the request's URL gives that URL again
unfoldable pub redirect_url : Registration → World → Url
redirect_url reg w =
    let u = w.request.url in
    let referer = Mime.get (ascii "Referer") w.request.header in
    let values =
      set_value query_arg_request_id (query_escape (Hex.encode w.request_data.id))
        (parse_raw_query u.raw_query) in
    let values' =
      if is_empty referer
      then values
      else set_value query_arg_referer (query_escape referer) values in
    record u {
      raw_query = encode_raw_query (set_value query_arg_challenge (query_escape reg.name) values');
    }

-- VerifyUrl; `bust` is the time in milliseconds
unfoldable pub verify_url : Registration → Text → ℕ → World → Url
unfolding redirect_url
verify_url reg token bust w =
    let values = set_value query_arg_bust (query_escape (decimal bust)) (
      set_value query_arg_challenge (query_escape reg.name) (
        set_value query_arg_token (query_escape token) (
          set_value query_arg_redirect (query_escape (string (redirect_url reg w))) (
            set_value query_arg_request_id (query_escape (Hex.encode w.request_data.id))
              (parse_raw_query w.request.url.raw_query))))) in
    record {
      scheme = [];
      opaque = [];
      user = none;
      host = [];
      path = reg.path ++ ascii "/verify-challenge";
      omit_host = false;
      raw_query = encode_raw_query values;
      fragment = [];
    }

-- the values of a retry: the program's own taken off, the referer kept
abbrev retry_values : Values → Values
retry_values q =
    let ref = get_value query_arg_referer q in
    if is_empty ref then delete_args q else set_value query_arg_referer ref (delete_args q)

-- VerifyHandlerChallengeResponseFunc
unfoldable pub challenge_response : State → VerifyResult → Option Err → Text → World → World
challenge_response state r (some e) redirect w =
    let u = w.request.url in
    let retry = record u { raw_query = encode (retry_values (query u)) } in
    if is_happy_eyeballs e
    then emit (redirected (string retry)) (response_headers state w)
    else error_page state 400 w
challenge_response state r none redirect w =
    if is_ok r
    then emit (redirected redirect) (response_headers state w)
    else error_page state 403 w

-- The argument `responseFunc` of VerifyHandlerFunc.
abbrev pub ResponseFunc : Type 0
ResponseFunc = VerifyResult → Option Err → Text → World → World

-- the inner function of VerifyHandlerFunc, behind GetVerifyInformation, and what handles its error
unfoldable pub check_answer :
    State → Registration → VerifyFunc → ResponseFunc → Text → Text → World → World
check_answer state reg verify respond redirect token w =
    let until = expiration reg.duration w.request_data in
    let key =
      get_challenge_key_for_request state reg until w.request w.request_data.remote_address in
    let (r, err) = verify key token w.request in
    elim err [
      | some e ↦
          respond result_fail (some (wrap (ascii "access denied") e)) redirect
            (emit (challenge_failed reg.name) w)
      | none ↦
          if not (is_ok r)
          then respond r none redirect (emit (challenge_failed reg.name) w)
          else let w' = issue_challenge_token reg.name key token until true w in
            let d = w'.request_data in
            respond r none redirect (
              emit (challenge_passed reg.name)
                (with_data w' (record d { challenge_verify = insert reg.id r d.challenge_verify })))
    ]

-- VerifyHandlerFunc
unfoldable pub verify_handler :
    State → (Text → Option Url) → Registration → VerifyFunc → ResponseFunc → World → World
unfolding check_answer
verify_handler state parse reg verify respond w =
    elim (get_verify_information parse reg w.request) [
      | no_information e ↦
          respond result_fail (some (wrap (ascii "internal error") e)) []
            (emit (challenge_failed reg.name) w)
      | information id redirect token ↦
          let d = w.request_data in
          check_answer state reg verify respond redirect token (with_data w (record d { id = id }))
    ]
