-- ===== src/Challenge/Token/Accepts.antt =====
-- When VerifyChallengeToken and verifyChallenge of lib/challenge/data.go accept a token.
use wpoven_nobot.Base.{
  text_equality, ℕ, ◌≤◌, ◌<◌, ◌≡◌, ◌⊎◌, true, Option, none, some, Option-cases, text_eq_iff, lookup,
  refl, inl, inr, arith,
}
use wpoven_nobot.Time.{date_time}
use wpoven_nobot.Challenge.Token.{Draw, verify_challenge_token, verify_challenge}
use wpoven_nobot.Challenge.Types.{result_ok, is_ok}
use wpoven_nobot.Challenge.World.{Request, TokenChallenge, World}
use wpoven_nobot.Challenge.Registration.{Key, VerifyFunc, Registration}

-- What a registration's check says of a token, if the random number calls for it; else the flag
-- that was stored in the token decides.
abbrev pub IsChecked : Option VerifyFunc → ℕ → TokenChallenge → Key → Draw → Request → Type 0
IsChecked none probability token key draw r = token.ok ≡ true
IsChecked (some check) probability token key draw r =
    ((draw.roll < probability) × (check key token.result r ≡ (result_ok, none)))
    ⊎ ((probability ≤ draw.roll) × (token.ok ≡ true))

-- A token that is in date, bound to this client's key, and passes its check.
abbrev pub IsAccepted : Registration → TokenChallenge → Key → Draw → Request → Type 0
IsAccepted reg token key draw r =
    (draw.expiry_now ≤ date_time token.expiry)
    × (date_time token.not_before ≤ draw.not_before_now)
    × (key ≡ token.key)
    × IsChecked reg.verify reg.verify_probability token key draw r

-- By cases on the registration's check, at its answer.
IsAccepted-of_checks :
    (reg : Registration) (token : TokenChallenge) (key : Key) (draw : Draw) (r : Request)
    (check : Option VerifyFunc)
    → reg.verify ≡ check
    → is_ok (verify_challenge_token reg token key draw r).0 ≡ true
    → IsAccepted reg token key draw r
unfolding verify_challenge_token
IsAccepted-of_checks reg token key draw r none e h =
    rw e (ground (arith, text_eq_iff key token.key))
IsAccepted-of_checks reg token key draw r (some check) e h =
    rw e (ground (arith, text_eq_iff key token.key))

pub verify_challenge_token-IsAccepted :
    (reg : Registration) (token : TokenChallenge) (key : Key) (draw : Draw) (r : Request)
    → is_ok (verify_challenge_token reg token key draw r).0 ≡ true
    → IsAccepted reg token key draw r
verify_challenge_token-IsAccepted reg token key draw r =
    IsAccepted-of_checks reg token key draw r reg.verify refl

accepts_of_checks :
    (reg : Registration) (token : TokenChallenge) (key : Key) (draw : Draw) (r : Request)
    (check : Option VerifyFunc)
    → reg.verify ≡ check
    → (draw.expiry_now ≤ date_time token.expiry)
    → (date_time token.not_before ≤ draw.not_before_now)
    → (key ≡ token.key)
    → IsChecked check reg.verify_probability token key draw r
    → is_ok (verify_challenge_token reg token key draw r).0 ≡ true
unfolding verify_challenge_token
accepts_of_checks reg token key draw r none e a b c d = ground (arith, text_eq_iff key token.key)
accepts_of_checks reg token key draw r (some check) e a b c d =
    ground (arith, text_eq_iff key token.key)

pub verify_challenge_token_accepts :
    (reg : Registration) (token : TokenChallenge) (key : Key) (draw : Draw) (r : Request)
    → IsAccepted reg token key draw r
    → is_ok (verify_challenge_token reg token key draw r).0 ≡ true
verify_challenge_token_accepts reg token key draw r (a, b, c, d) =
    accepts_of_checks reg token key draw r reg.verify refl a b c d

-- verifyChallenge accepts exactly the stored token that IsAccepted describes, whatever the
-- condition and the issued challenge are.
abbrev pub Vouches : Registration → Key → Draw → World → Type 0
Vouches reg key draw w =
    (token : TokenChallenge) × (lookup reg.name w.request_data.challenge_map ≡ some token)
    × IsAccepted reg token key draw w.request

pub verify_challenge-Vouches :
    (reg : Registration) (key : Key) (draw : Draw) (w : World)
    → is_ok (verify_challenge reg key draw w).0.0 ≡ true
    → Vouches reg key draw w
unfolding verify_challenge
verify_challenge-Vouches reg key draw w h =
    elim (Option-cases (lookup reg.name w.request_data.challenge_map)) [
      | inl e ↦ absurd (ground arith)
      | inr (token, e) ↦
          (token, e, verify_challenge_token-IsAccepted reg token key draw w.request (ground arith))
    ]

pub verify_challenge_accepts :
    (reg : Registration) (key : Key) (draw : Draw) (w : World)
    → Vouches reg key draw w
    → is_ok (verify_challenge reg key draw w).0.0 ≡ true
unfolding verify_challenge
verify_challenge_accepts reg key draw w (token, e, a) =
    ground (arith, verify_challenge_token_accepts reg token key draw w.request a)
