-- ===== src/Challenge/Types.antt =====
-- lib/challenge/types.go, and the errors of the package. Condition programs are compiled by a
-- library: a program is a parameter, a function of what its activation resolves.
use wpoven_nobot.Base.{
  nat_equality, text_equality, leb, eqb, Text, ascii, ℕ, Bool, true, false, Option, none, some,
  List,
}

pub data Class : Type 0 where
  transparent blocking : Class

pub data VerifyState : Type 0 where
  state_none state_pass state_brief state_full : VerifyState

pub data VerifyResult : Type 0 where
  result_none result_fail result_skip result_not_ok result_ok : VerifyResult

-- the value of the constant, which `Ok` compares
abbrev pub ordinal : VerifyResult → ℕ
ordinal result_none = 0
ordinal result_fail = 1
ordinal result_skip = 2
ordinal result_not_ok = 3
ordinal result_ok = 4

-- VerifyResult.Ok
abbrev pub is_ok : VerifyResult → Bool
is_ok r = leb 4 (ordinal r)

-- VerifyState.String; `none` is its panic
abbrev pub state_string : VerifyState → Option Text
state_string state_pass = some (ascii "PASS")
state_string state_brief = some (ascii "BRIEF")
state_string state_full = some (ascii "FULL")
state_string state_none = none

-- VerifyResult.String
abbrev pub result_string : VerifyResult → Text
result_string result_none = ascii "None"
result_string result_fail = ascii "Fail"
result_string result_skip = ascii "Skip"
result_string result_not_ok = ascii "NotOK"
result_string result_ok = ascii "OK"

abbrev pub same_result : VerifyResult → VerifyResult → Bool
same_result r s = eqb (ordinal r) (ordinal s)

abbrev pub is_pass : VerifyState → Bool
is_pass state_pass = true
is_pass _ = false

-- The errors that the package tells apart. `wrap` is `fmt.Errorf` with `%w`.
pub data Err : Type 0 where
  token_expired token_not_valid_yet verify_key_mismatch verify_verify_mismatch no_cookie : Err
  invalid_token mismatched_token mismatched_token_happy_eyeballs : Err
  other : Text → Err
  wrap : Text → Err → Err

-- `errors.Is(err, http.ErrNoCookie)`
abbrev pub is_no_cookie : Err → Bool
is_no_cookie no_cookie = true
is_no_cookie (wrap _ e) = is_no_cookie e
is_no_cookie _ = false

-- `errors.Is(err, ErrVerifyKeyMismatch)`
abbrev pub is_key_mismatch : Err → Bool
is_key_mismatch verify_key_mismatch = true
is_key_mismatch (wrap _ e) = is_key_mismatch e
is_key_mismatch _ = false

-- `errors.Is(err, ErrMismatchedTokenHappyEyeballs)`
abbrev pub is_happy_eyeballs : Err → Bool
is_happy_eyeballs mismatched_token_happy_eyeballs = true
is_happy_eyeballs (wrap _ e) = is_happy_eyeballs e
is_happy_eyeballs _ = false

-- What an activation resolves a name to.
pub data Value : Type 0 where
  text_value bytes_value : Text → Value
  values_value : List (Text × List Text) → Value
  map_value : List (Text × Text) → Value

-- How a condition program ends: an error, a nil value, a Boolean, a value of another type.
pub data Outcome : Type 0 where
  eval_error eval_nil eval_other : Outcome
  eval_bool : Bool → Outcome

-- `cel.Program.Eval`, over the activation's ResolveName
abbrev pub Program : Type 0
Program = (Text → Option Value) → Outcome
