-- ===== src/Challenge/State/Sound.antt =====
-- EvaluateChallenges of lib/challenge/data.go as a whole, from the request's cookies on.
use wpoven_nobot.Base.{nat_equality, text_equality, All, Text, ◌≡◌, ◌↔◌, true, [], ◌∷◌, arith}
use wpoven_nobot.Challenge.Key.{get_challenge_key_for_request}
use wpoven_nobot.Challenge.Token.{Draw, evaluate_each}
use wpoven_nobot.Challenge.Data.{expiration, has_valid_challenge}
use wpoven_nobot.Challenge.State.{load_challenge_map, evaluate_challenges}
use wpoven_nobot.Challenge.World.{World}
use wpoven_nobot.Challenge.Registration.{Key, Registration, Register, State}
use wpoven_nobot.Challenge.Token.Loop.{IsDistinct, Holds, evaluate_each-Holds}
use wpoven_nobot.Challenge.Token.Frame.{verdict}
use wpoven_nobot.Challenge.Token.Accepts.{
  Vouches, verify_challenge-Vouches, verify_challenge_accepts,
}

-- The key that a registration's token is to have in this request.
abbrev pub key_for : State → Registration → World → Key
key_for state reg w =
    get_challenge_key_for_request state reg (expiration reg.duration w.request_data) w.request
      w.request_data.remote_address

-- A challenge counts as valid exactly if the request's own tokens vouch for it.
abbrev pub IsSound : State → (Text → Draw) → World → World → Registration → Type 0
IsSound state draws before_loop final reg =
    (has_valid_challenge reg.id final.request_data ≡ true)
    ↔ Vouches reg (key_for state reg before_loop) (draws reg.name) before_loop

IsSound-of_Holds :
    (state : State) (draws : Text → Draw) (w final : World) (reg : Registration)
    → Holds final.request_data reg (verdict state draws reg w)
    → IsSound state draws w final reg
unfolding verdict has_valid_challenge
IsSound-of_Holds state draws w final reg (h, _) = (
  λ valid. verify_challenge-Vouches reg (key_for state reg w) (draws reg.name) w (ground arith),
  λ vouched.
      ground (arith, verify_challenge_accepts reg (key_for state reg w) (draws reg.name) w vouched),
)

All-IsSound :
    (state : State) (draws : Text → Draw) (w final : World) (regs : Register)
    → All (λ e. Holds final.request_data e.1 (verdict state draws e.1 w)) regs
    → All (λ e. IsSound state draws w final e.1) regs
All-IsSound state draws w final [] h = tt
All-IsSound state draws w final (e ∷ regs) (h, hs) =
    (IsSound-of_Holds state draws w final e.1 h, All-IsSound state draws w final regs hs)

-- Where identifiers and names are distinct, each registered challenge is valid after
-- EvaluateChallenges exactly if the cookie's tokens, as they were before the loop, hold one of its
-- name that is in date, has the key of this client and passes its check, or was stored as passed
-- where there is no check or the random number does not call for it.
pub evaluate_challenges-IsSound :
    (state : State) (draws : Text → Draw) (w : World)
    → IsDistinct state.challenges
    → All
        (λ e.
          IsSound state draws (load_challenge_map state w) (evaluate_challenges state draws w) e.1)
        state.challenges
unfolding evaluate_challenges
evaluate_challenges-IsSound state draws w h =
    let w' = load_challenge_map state w in
    All-IsSound state draws w' (evaluate_each state draws state.challenges w') state.challenges
      (evaluate_each-Holds state draws state.challenges w' h)
