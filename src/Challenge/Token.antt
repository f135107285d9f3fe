-- ===== src/Challenge/Token.antt =====
-- VerifyChallengeToken, verifyChallenge and EvaluateChallenges of lib/challenge/data.go.
pub mod Accepts
pub mod Frame
pub mod Loop
use wpoven_nobot.Base.{
  nat_equality, text_equality, ltb, if◌then◌else◌, Text, ◌==◌, lookup, insert, ℕ, Bool, false, not,
  ◌&&◌, Option, none, some, [], ◌∷◌,
}
use wpoven_nobot.Time.{Time, date_time}
use wpoven_nobot.Challenge.Key.{get_challenge_key_for_request}
use wpoven_nobot.Challenge.Data.{resolve_name, clear_challenge_token, expiration}
use wpoven_nobot.Challenge.Types.{
  VerifyState, state_none, state_brief, state_full, VerifyResult, result_fail, result_skip,
  result_not_ok, result_ok, is_ok, same_result, Err, token_expired, token_not_valid_yet,
  verify_key_mismatch, verify_verify_mismatch, is_no_cookie, is_key_mismatch, eval_bool, Value,
  Program,
}
use wpoven_nobot.Challenge.World.{Request, TokenChallenge, RequestData, World}
use wpoven_nobot.Challenge.Registration.{Key, Registration, Register, State}

-- What the outside gives to the verification of one token: two readings of the clock, and the
-- random number, in units of 2 ^ -53.
pub record Draw : Type 0 where
  pub expiry_now : Time
  pub not_before_now : Time
  pub roll : ℕ

abbrev pub Verdict : Type 0
Verdict = VerifyResult × VerifyState × Option Err

-- the answer of a token that is not checked against its challenge
abbrev brief : TokenChallenge → Verdict
brief token =
    if token.ok then (result_ok, state_brief, none) else (result_not_ok, state_brief, none)

-- the answer of the registration's own check
abbrev full : VerifyResult × Option Err → Verdict
full (r, some e) = (result_fail, state_full, some e)
full (r, none) =
    if same_result r result_not_ok
    then (result_not_ok, state_full, none)
    else if not (is_ok r)
    then (r, state_full, some verify_verify_mismatch)
    else (r, state_full, none)

-- RequestData.VerifyChallengeToken
unfoldable pub verify_challenge_token :
    Registration → TokenChallenge → Key → Draw → Request → Verdict
verify_challenge_token reg token expected_key draw r =
    if ltb (date_time token.expiry) draw.expiry_now
    then (result_fail, state_none, some token_expired)
    else if ltb draw.not_before_now (date_time token.not_before)
    then (result_fail, state_none, some token_not_valid_yet)
    else if not (expected_key == token.key)
    then (result_fail, state_none, some verify_key_mismatch)
    else elim reg.verify [
      | none ↦ brief token
      | some check ↦
          if ltb draw.roll reg.verify_probability
          then full (check expected_key token.result r)
          else brief token
    ]

-- whether verifyChallenge clears the token itself
abbrev clears : Option Err → Bool
clears none = false
clears (some e) = not (is_no_cookie e) && not (is_key_mismatch e)

-- whether a condition is there and evaluates to a Boolean that is not true
abbrev pub condition_fails : Option Program → (Text → Option Value) → Bool
condition_fails none activation = false
condition_fails (some program) activation = elim (program activation) [
  | eval_bool b ↦ not b
  | _ ↦ false
]

-- whether the registration's condition keeps the challenge from being asked
unfoldable pub precondition_fails : Registration → World → Bool
precondition_fails reg w = condition_fails reg.condition (resolve_name w)

-- the last test of verifyChallenge: a challenge that this client was just sent is skipped
abbrev skip_issued : Registration → World → Verdict → Verdict
skip_issued reg w (r, s, e) =
    if not (is_ok r) && w.request_data.issued_challenge == reg.name
    then (result_skip, s, e)
    else (r, s, e)

abbrev pub with_data : World → RequestData → World
with_data w d = record w { request_data = d }

-- RequestData.verifyChallenge
unfoldable pub verify_challenge : Registration → Key → Draw → World → Verdict × World
verify_challenge reg key draw w = elim (lookup reg.name w.request_data.challenge_map) [
  | none ↦ (skip_issued reg w (result_fail, state_none, none), w)
  | some token ↦
      let v = verify_challenge_token reg token key draw w.request in
      let w' =
        if clears v.2 then with_data w (clear_challenge_token reg.name w.request_data) else w in
      if not (is_ok v.0) && precondition_fails reg w'
      then ((result_skip, v.1, none), w')
      else (skip_issued reg w' v, w')
]

-- an error of verifyChallenge clears the token, once more where it was cleared
abbrev cleared : Option Err → Text → RequestData → RequestData
cleared none name d = d
cleared (some e) name d = clear_challenge_token name d

-- the two maps that take the answer
abbrev record_verdict : ℕ → Verdict → RequestData → RequestData
record_verdict id v d = record d {
  challenge_verify = insert id v.0 d.challenge_verify;
  challenge_state = insert id v.1 d.challenge_state;
}

-- the body of the loop of EvaluateChallenges
unfoldable pub evaluate_challenge : State → (Text → Draw) → Registration → World → World
evaluate_challenge state draws reg w =
    let key =
      get_challenge_key_for_request state reg (expiration reg.duration w.request_data) w.request
        w.request_data.remote_address in
    let (v, w') = verify_challenge reg key (draws reg.name) w in
    with_data w' (record_verdict reg.id v (cleared v.2 reg.name w'.request_data))

-- the loop, over the registrations in the order that the map gives them
unfoldable pub evaluate_each : State → (Text → Draw) → Register → World → World
evaluate_each state draws [] w = w
evaluate_each state draws ((_, reg) ∷ regs) w =
    evaluate_each state draws regs (evaluate_challenge state draws reg w)
