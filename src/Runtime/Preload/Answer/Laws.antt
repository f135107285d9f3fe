-- ===== src/Runtime/Preload/Answer/Laws.antt =====
-- What the handler of lib/challenge/preload-link/preload-link.go tells the waiting calls.
use wpoven_nobot.Hex
use wpoven_nobot.Base.{
  text_equality, length, All, Text, ==_refl, ◌≡◌, refl, Option, [], ◌∷◌, ◌++◌, Any, ℕ, ◌⊎◌, true,
  false, none, List,
}
use wpoven_nobot.Url.{Url}
use wpoven_nobot.Server.Private.{response_headers_keeps}
use wpoven_nobot.Hex.Laws.{IsByte}
use wpoven_nobot.Challenge.Key.{key_size, get_challenge_key_for_request, get_flag}
use wpoven_nobot.Challenge.Data.{expiration}
use wpoven_nobot.Challenge.Types.{result_ok, VerifyResult, is_ok}
use wpoven_nobot.Challenge.World.{write_header, World, Request}
use wpoven_nobot.Challenge.Verify.{issue_key, information, get_verify_information}
use wpoven_nobot.Challenge.Registration.{Key, Registration, State}
use wpoven_nobot.Challenge.Verify.Keys.{verify_key-issue_key}
use wpoven_nobot.Runtime.Preload.Answer.{answer_token, preload_answer}
use wpoven_nobot.Hex.{HexError}
use wpoven_nobot.Text.{after}

-- An early request with the token of the client's own key, which has its full length, is answered by
-- the status 200, and tells the waiting call under this token, and no other, that the challenge is
-- passed.
pub preload_answer_own :
    (state : State) (parse : Text → Option Url) (reg : Registration) (w : World) (key : Key)
    (id redirect : Text)
    → get_challenge_key_for_request state reg
        (expiration reg.duration w.request_data)
        w.request
        w.request_data.remote_address
      ≡ key
    → All IsByte key
    → length key ≡ key_size
    → get_verify_information parse reg w.request ≡ information id redirect (issue_key key)
    → ((preload_answer state parse reg w).1 ≡ (issue_key key, result_ok) ∷ [])
      × ((preload_answer state parse reg w).0.events ≡ w.events ++ write_header 200 ∷ [])
unfolding preload_answer answer_token
preload_answer_own state parse reg w key id redirect is_key bytes long info =
    rw (info, is_key, verify_key-issue_key key key w.request bytes long, ==_refl key)
      (refl, rw ((response_headers_keeps state _).0) refl)

-- What a token is accepted for: it spells the key, or, to a client with an IPv4 address, the key of any
-- client with an IPv6 address, since the handler passes over the verifier's error.
abbrev pub IsOwn : Key → Text × Option HexError → Type 0
IsOwn key (bytes, err) =
    (err ≡ none) × ((bytes ≡ key) ⊎ (get_flag key ≡ false) × (get_flag bytes ≡ true))

abbrev pub CarriesKey : (Text → Option Url) → Registration → Request → Key → Type 0
CarriesKey parse reg r key =
    (id redirect token : Text) × (get_verify_information parse reg r
      ≡ information id redirect token)
    × IsOwn key (Hex.decode token)

-- Some waiting call is told that its challenge is passed.
abbrev pub TellsOk : List (Text × VerifyResult) → Type 0
TellsOk calls = Any (λ c. is_ok c.1 ≡ true) calls

-- An answer of one status, by which a waiting call is told that its challenge is passed exactly if the
-- status is 200, and then the request carried a token for the key.
abbrev pub IsHonest :
    (Text → Option Url) → Registration → World → Key → World × List (Text × VerifyResult) → Type 0
IsHonest parse reg w key (after, calls) =
    (status : ℕ) × (after.events ≡ w.events ++ write_header status ∷ [])
    × (TellsOk calls → (status ≡ 200) × CarriesKey parse reg w.request key)
    × (status ≡ 200 → TellsOk calls)
