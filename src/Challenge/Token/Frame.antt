-- ===== src/Challenge/Token/Frame.antt =====
-- What one round of the loop of EvaluateChallenges leaves alone: the verdicts on other
-- registrations.
use wpoven_nobot.Base.{
  nat_equality, text_equality, Text, lookup, ◌≡◌, ◌≢◌, arith, text_eq_iff, lookup-delete, refl,
  if◌then◌else◌, ◌==◌, ap, Bool, true, false, not, ◌&&◌, Option, none, some,
}
use wpoven_nobot.Challenge.Key.{get_challenge_key_for_request}
use wpoven_nobot.Challenge.Token.{
  Draw, Verdict, verify_challenge, evaluate_challenge, precondition_fails, with_data,
  verify_challenge_token, condition_fails, clears, cleared, record_verdict,
}
use wpoven_nobot.Challenge.Data.{resolve_name, expiration, clear_challenge_token}
use wpoven_nobot.Challenge.World.{World, Request, TokenChallenge}
use wpoven_nobot.Challenge.Registration.{Key, Registration, State}
use mathlib.Core.Path.{fun_ext}
use wpoven_nobot.Challenge.Types.{state_none, result_fail, result_skip, is_ok}

-- Two worlds that the verification of a registration of this name cannot tell apart.
pub record IsSameFor (name : Text) (w w' : World) : Type 0 where
  pub same_request : w'.request ≡ w.request
  pub same_time : w'.request_data.time ≡ w.request_data.time
  pub same_address : w'.request_data.remote_address ≡ w.request_data.remote_address
  pub same_issued : w'.request_data.issued_challenge ≡ w.request_data.issued_challenge
  pub same_query : w'.request_data.query ≡ w.request_data.query
  pub same_fp : w'.request_data.fp ≡ w.request_data.fp
  pub same_token :
      lookup name w'.request_data.challenge_map ≡ lookup name w.request_data.challenge_map

-- What EvaluateChallenges concludes of a registration.
unfoldable pub verdict : State → (Text → Draw) → Registration → World → Verdict
verdict state draws reg w =
    (verify_challenge reg
      (get_challenge_key_for_request state reg (expiration reg.duration w.request_data) w.request
        w.request_data.remote_address)
      (draws reg.name) w).0

pub IsSameFor-refl : (name : Text) (w : World) → IsSameFor name w w
IsSameFor-refl name w = ground arith

resolve_name_same :
    (name : Text) (w w' : World) → IsSameFor name w w' → resolve_name w' ≡ resolve_name w
unfolding resolve_name
resolve_name_same name w w' s = fun_ext (λ n. ground arith)

precondition_fails_same :
    (reg : Registration) (name : Text) (w w' : World)
    → IsSameFor name w w'
    → precondition_fails reg w' ≡ precondition_fails reg w
unfolding precondition_fails
precondition_fails_same reg name w w' s =
    ap (condition_fails reg.condition) (resolve_name_same name w w' s)

-- Clearing a token changes nothing that a condition reads.
precondition_fails-clear :
    (reg : Registration) (name : Text) (w : World) (b : Bool)
    → precondition_fails reg
        (if b then with_data w (clear_challenge_token name w.request_data) else w)
      ≡ precondition_fails reg w
unfolding precondition_fails clear_challenge_token resolve_name
precondition_fails-clear reg name w true = refl
precondition_fails-clear reg name w false = refl

-- The verdict of verifyChallenge, as a function of what it reads.
abbrev skip : Bool → Verdict → Verdict
skip issued v = if not (is_ok v.0) && issued then (result_skip, v.1, v.2) else v

abbrev conclude :
    Registration → Key → Draw → Request → Bool → Bool → Option TokenChallenge → Verdict
conclude reg key draw r issued fails none = skip issued (result_fail, state_none, none)
conclude reg key draw r issued fails (some token) =
    let v = verify_challenge_token reg token key draw r in
    if not (is_ok v.0) && fails then (result_skip, v.1, none) else skip issued v

verify_challenge-conclude_at :
    (reg : Registration) (key : Key) (draw : Draw) (w : World) (token : Option TokenChallenge)
    → lookup reg.name w.request_data.challenge_map ≡ token
    → (verify_challenge reg key draw w).0
      ≡ conclude reg key draw w.request
          (w.request_data.issued_challenge == reg.name)
          (precondition_fails reg w)
          token
unfolding verify_challenge clear_challenge_token
verify_challenge-conclude_at reg key draw w none e = ground arith
verify_challenge-conclude_at reg key draw w (some token) e = ground (
  arith,
  precondition_fails-clear reg reg.name w
      (clears (verify_challenge_token reg token key draw w.request).2),
)

verify_challenge-conclude :
    (reg : Registration) (key : Key) (draw : Draw) (w : World)
    → (verify_challenge reg key draw w).0
      ≡ conclude reg key draw w.request
          (w.request_data.issued_challenge == reg.name)
          (precondition_fails reg w)
          (lookup reg.name w.request_data.challenge_map)
verify_challenge-conclude reg key draw w = verify_challenge-conclude_at reg key draw w _ refl

verify_challenge_same :
    (reg : Registration) (key : Key) (draw : Draw) (w w' : World)
    → IsSameFor reg.name w w'
    → (verify_challenge reg key draw w').0 ≡ (verify_challenge reg key draw w).0
verify_challenge_same reg key draw w w' s = rw (
  verify_challenge-conclude reg key draw w,
  verify_challenge-conclude reg key draw w',
  precondition_fails_same reg reg.name w w' s,
  s.same_issued,
  s.same_token,
  s.same_request,
)

pub verdict_same :
    (state : State) (draws : Text → Draw) (reg : Registration) (w w' : World)
    → IsSameFor reg.name w w'
    → verdict state draws reg w' ≡ verdict state draws reg w
unfolding verdict expiration
verdict_same state draws reg w w' s = ground (
  arith,
  verify_challenge_same reg
      (get_challenge_key_for_request state reg (expiration reg.duration w.request_data) w.request
        w.request_data.remote_address)
      (draws reg.name) w w' s,
)

-- verifyChallenge changes nothing but the token of its own registration.
verify_challenge-IsSameFor :
    (reg : Registration) (key : Key) (draw : Draw) (name : Text) (w : World)
    → reg.name ≢ name
    → IsSameFor name w (verify_challenge reg key draw w).1
unfolding verify_challenge clear_challenge_token
verify_challenge-IsSameFor reg key draw name w h =
    ground
      (arith, text_eq_iff reg.name name, lookup-delete reg.name name w.request_data.challenge_map)

-- Clearing a token and putting a verdict down change nothing for other registrations.
record_verdict-IsSameFor :
    (reg : Registration) (name : Text) (w w' : World) (v : Verdict)
    → reg.name ≢ name
    → IsSameFor name w w'
    → IsSameFor name w
        (with_data w' (record_verdict reg.id v (cleared v.2 reg.name w'.request_data)))
unfolding clear_challenge_token
record_verdict-IsSameFor reg name w w' v h s =
    ground
      (arith, text_eq_iff reg.name name, lookup-delete reg.name name w'.request_data.challenge_map)

pub evaluate_challenge-IsSameFor :
    (state : State) (draws : Text → Draw) (reg : Registration) (name : Text) (w : World)
    → reg.name ≢ name
    → IsSameFor name w (evaluate_challenge state draws reg w)
unfolding evaluate_challenge
evaluate_challenge-IsSameFor state draws reg name w h =
    record_verdict-IsSameFor reg name w _ _ h (verify_challenge-IsSameFor reg _ _ name w h)
