-- ===== src/Examples/Challenges.antt =====
-- The theorems on challenges, tokens and cookies, at examples.
use wpoven_nobot.Hex
use wpoven_nobot.Base.{
  text_equality, nat_equality, if◌then◌else◌, All, Text, ascii, ◌==◌, ℕ, ◌*◌, ◌≡◌, Bool, true,
  false, Option, none, some, [], ◌∷◌, arith, text_eq_iff, ◌+◌, ◌≤◌, ◌<◌, refl, ◌≢◌,
}
use wpoven_nobot.Examples.{
  example_address, example_request, example_data, example_world, example_token,
  example_registration, example_register, example_state, example_draw, at,
}
use wpoven_nobot.Time.{hour}
use wpoven_nobot.Challenge.Key.{get_challenge_key_for_request}
use wpoven_nobot.Challenge.Data.{expiration, issue_challenge_token}
use wpoven_nobot.Challenge.State.{
  load_challenge_map, evaluate_challenges, state_ok, verify_challenge_state_cookie,
  verify_challenge_state, issue_challenge_state,
}
use wpoven_nobot.Challenge.World.{TokenChallengeMap, Token, Request, World}
use wpoven_nobot.Challenge.Registration.{State, Key}
use wpoven_nobot.Challenge.Token.Loop.{IsDistinct}
use wpoven_nobot.Challenge.State.Sound.{IsSound, evaluate_challenges-IsSound}
use wpoven_nobot.Net.{ip4, unmap, network_prefix}
use wpoven_nobot.Hex.Laws.{IsByte}
use wpoven_nobot.Challenge.Token.{verify_challenge}
use wpoven_nobot.Challenge.Types.{result_ok, is_ok, mismatched_token_happy_eyeballs}
use wpoven_nobot.Challenge.Verify.{verify_key, issue_key}
use wpoven_nobot.Challenge.Verify.Keys.{verify_key-issue_key, verify_key_sound}
use wpoven_nobot.Challenge.Key.Laws.{get_challenge_key_for_request_same}
use wpoven_nobot.Challenge.State.Cookie.{
  verify_challenge_state_first, verify_challenge_state-issue_challenge_state,
}
use wpoven_nobot.Challenge.Data.Expiry.{
  expiration_bounds, expiration_window, verify_challenge-issue_challenge_token,
}

example_register-IsDistinct : IsDistinct example_register
example_register-IsDistinct = (((ground arith, ground arith), tt), (tt, tt))

-- The world of a client that brings the token for the first challenge.
abbrev token_state : State
token_state = record example_state {
  unseal = λ k v. some (record {
    state =
        (
          ascii "first",
          example_token (
              get_challenge_key_for_request example_state (example_registration 1 (ascii "first"))
                (expiration (24 * hour) example_data) example_request example_address),
        )
        ∷ [];
    expiry = 1700003600;
    not_before = 0;
    issued_at = 1700000000;
  });
}

evaluate_challenges-IsSound_example :
    All
      (λ e.
        IsSound token_state
          (λ name. example_draw)
          (load_challenge_map token_state example_world)
          (evaluate_challenges token_state (λ name. example_draw) example_world)
          e.1)
      example_register
evaluate_challenges-IsSound_example =
    evaluate_challenges-IsSound token_state (λ name. example_draw) example_world
      example_register-IsDistinct

-- a seal for the token sets with one entry, for the first challenge
abbrev seal_entry : Text → Text → Text → Bool → ℕ → ℕ → ℕ → ℕ → ℕ → ℕ → Option Text
seal_entry name key [] true a b c e n i =
    if name == ascii "first" then some (a ∷ b ∷ c ∷ e ∷ n ∷ i ∷ key) else none
seal_entry name key _ _ a b c e n i = none

abbrev seal_map : TokenChallengeMap → ℕ → ℕ → ℕ → Option Text
seal_map ((name, t) ∷ []) e n i =
    seal_entry name t.key t.result t.ok t.expiry t.not_before t.issued_at e n i
seal_map _ e n i = none

abbrev unseal_text : Text → Option Token
unseal_text (a ∷ b ∷ c ∷ e ∷ n ∷ i ∷ key) = some (record {
  state =
      (
        ascii "first",
        record { key = key; result = []; ok = true; expiry = a; not_before = b; issued_at = c },
      )
      ∷ [];
  expiry = e;
  not_before = n;
  issued_at = i;
})
unseal_text _ = none

abbrev sealing_state : State
sealing_state = record example_state {
  seal = λ k t. seal_map t.state t.expiry t.not_before t.issued_at;
  unseal = λ k v. unseal_text v;
}

opens_entry :
    (name key result : Text) (ok : Bool) (a b c e n i : ℕ) (v : Text)
    → seal_entry name key result ok a b c e n i ≡ some v
    → unseal_text v
      ≡ some (record {
        state =
            (
              name,
              record {
                key = key;
                result = result;
                ok = ok;
                expiry = a;
                not_before = b;
                issued_at = c;
              },
            )
            ∷ [];
        expiry = e;
        not_before = n;
        issued_at = i;
      })
opens_entry name key [] true a b c e n i v h = ground (arith, text_eq_iff name (ascii "first"))
opens_entry name key [] false a b c e n i v h = ground arith
opens_entry name key (x ∷ result) ok a b c e n i v h = ground arith

opens_map :
    (m : TokenChallengeMap) (e n i : ℕ) (v : Text)
    → seal_map m e n i ≡ some v
    → unseal_text v ≡ some (record { state = m; expiry = e; not_before = n; issued_at = i })
opens_map [] e n i v h = ground arith
opens_map ((name, t) ∷ []) e n i v h = opens_entry name t.key t.result t.ok _ _ _ e n i v h
opens_map (p ∷ q ∷ m) e n i v h = ground arith

-- the world in which the first challenge was passed
abbrev passed_world : World
passed_world = record example_world {
  request_data = record example_data {
    challenge_map = (ascii "first", example_token (ascii "key")) ∷ [];
  };
}

abbrev sealed_value : Text
sealed_value = 1700003600 ∷ 0 ∷ 1700000000 ∷ 1700086400 ∷ 1699913600 ∷ 1700000000 ∷ ascii "key"

-- the request that brings the cookie back
abbrev returning_world : World
returning_world = record example_world {
  request = record example_request { cookies = (ascii ".go-away-state", sealed_value) ∷ [] };
}

verify_challenge_state-issue_challenge_state_example :
    verify_challenge_state sealing_state returning_world
    ≡ state_ok ((ascii "first", example_token (ascii "key")) ∷ [])
unfolding issue_challenge_state network_prefix unmap
verify_challenge_state-issue_challenge_state_example =
    verify_challenge_state-issue_challenge_state sealing_state
      (λ k v t. opens_map t.state t.expiry t.not_before t.issued_at v) (at + 24 * hour) passed_world
      returning_world sealed_value (omega arith) (omega arith) (omega arith) refl refl refl refl

verify_challenge-issue_challenge_token_example :
    is_ok
      (verify_challenge
        (example_registration 1 (ascii "first"))
        (ascii "key")
        example_draw
        (issue_challenge_token (ascii "first") (ascii "key") [] (at + hour) true example_world)).0.0
    ≡ true
verify_challenge-issue_challenge_token_example =
    verify_challenge-issue_challenge_token (example_registration 1 (ascii "first")) (ascii "key") []
      (at + hour) example_world example_draw (omega arith) (omega arith) refl

expiration_window_example : expiration (24 * hour) example_data ≡ (738838 + 1) * (24 * hour)
expiration_window_example =
    expiration_window (24 * hour) 738838 example_data (omega arith) (omega arith) (omega arith)

expiration_bounds_example :
    (2 * at + 24 * hour < 2 * expiration (24 * hour) example_data)
    × (2 * expiration (24 * hour) example_data ≤ 2 * at + 3 * (24 * hour))
expiration_bounds_example = expiration_bounds (24 * hour) example_data (omega arith)

-- another page, asked for from the same network
abbrev other_request : Request
other_request = record example_request { method = ascii "POST"; host = ascii "other.example" }

get_challenge_key_for_request_same_example :
    get_challenge_key_for_request example_state
      (example_registration 1 (ascii "first"))
      at
      example_request
      example_address
    ≡ get_challenge_key_for_request example_state
        (example_registration 1 (ascii "first"))
        at
        other_request
        (ip4 (192 ∷ 0 ∷ 2 ∷ 200 ∷ []))
unfolding network_prefix unmap
get_challenge_key_for_request_same_example =
    get_challenge_key_for_request_same example_state (example_registration 1 (ascii "first")) at
      example_request other_request example_address (ip4 (192 ∷ 0 ∷ 2 ∷ 200 ∷ [])) refl refl
      (refl, tt)

hash_not_empty : (s : Text) → example_state.sha256 s ≢ []
hash_not_empty s = ground arith

verify_challenge_state_first_example :
    verify_challenge_state example_state example_world
    ≡ verify_challenge_state_cookie example_state example_world []
verify_challenge_state_first_example = verify_challenge_state_first example_state example_world

-- keys of full length, for IPv4 and for IPv6
abbrev some_key : ℕ → Key
some_key b =
    b ∷ 1 ∷ 2 ∷ 3 ∷ 4 ∷ 5 ∷ 6 ∷ 7 ∷ 8 ∷ 9 ∷ 10 ∷ 11 ∷ 12 ∷ 13 ∷ 14 ∷ 15 ∷ 16 ∷ 17 ∷ 18 ∷ 19 ∷ 20
    ∷ 21 ∷ 22 ∷ 23 ∷ 24 ∷ 25 ∷ 26 ∷ 27 ∷ 28 ∷ 29 ∷ 30 ∷ 31 ∷ []

some_key-IsByte : All IsByte (some_key 1)
some_key-IsByte = ground arith

verify_key-issue_key_example :
    verify_key (some_key 0) (issue_key (some_key 1)) example_request
    ≡ (result_ok, some mismatched_token_happy_eyeballs)
verify_key-issue_key_example =
    verify_key-issue_key (some_key 0) (some_key 1) example_request some_key-IsByte refl

verify_key_sound_example :
    ((verify_key (some_key 1) (issue_key (some_key 1)) example_request).0 ≡ result_ok)
    × (Hex.decode (issue_key (some_key 1)) ≡ (some_key 1, none))
unfolding verify_key Hex.encode Hex.decode Hex.reverse_hex Hex.hex_char
verify_key_sound_example =
    verify_key_sound (some_key 1) (issue_key (some_key 1)) example_request refl
