-- ===== src/Examples/Waiting.antt =====
-- The theorems on calls that run side by side, at examples.
use wpoven_nobot.Base.{
  text_equality, nat_equality, ascii, ◌≡◌, refl, true, false, Option, none, some, List, [], ◌∷◌,
  ◌++◌, arith, Text, leb, any, All,
}
use wpoven_nobot.Challenge.Awaiter
use wpoven_nobot.Hex
use wpoven_nobot.Url
use wpoven_nobot.Wasm.{output_ok}
use wpoven_nobot.Examples.{
  example_address, example_url, example_request, example_data, example_world, example_registration,
  example_state,
}
use wpoven_nobot.Challenge.Key.{get_challenge_key_for_request}
use wpoven_nobot.Challenge.Query.{query_arg_request_id, query_arg_challenge, query_arg_token}
use wpoven_nobot.Challenge.Awaiter.{
  waiting, returned, solved, Awaiter, new_awaiter, Action, enter, step,
}
use wpoven_nobot.Challenge.Data.{expiration}
use wpoven_nobot.Challenge.Types.{result_none, result_fail, result_ok}
use wpoven_nobot.Challenge.World.{write_header, World}
use wpoven_nobot.Challenge.Verify.{
  issue_key, get_verify_information, VerifyInformation, information, no_information,
}
use wpoven_nobot.Challenge.Registration.{Key, Registration, State}
use wpoven_nobot.Challenge.Awaiter.Returned.{returned-IsGiven}
use wpoven_nobot.Challenge.Awaiter.Delivery.{
  result_of, delivery, result_of-delivery, overlap, solver_of, waiter_of, overlap_lost,
}
use wpoven_nobot.Challenge.Awaiter.Honesty.{IsGiven}
use wpoven_nobot.Runtime.Js.{JsState, JsAction, instantiate, error_of, js_step, js_run, finish_call}
use wpoven_nobot.Runtime.Preload.Answer.{preload_answer}
use wpoven_nobot.Runtime.Preload.Answer.Laws.{preload_answer_own}
use wpoven_nobot.Runtime.Js.Overlap.{no_calls, js_run_sound, verdict_after, js_run_overlapped}
use wpoven_nobot.Redirect.{ensure_no_open_redirect}
use wpoven_nobot.Url.{Url}
use wpoven_nobot.Net.{unmap}
use wpoven_nobot.Hex.Laws.{IsByte}

abbrev example_delivery : List Action
example_delivery = enter 0 (ascii "k") ∷ delivery 0 0 (ascii "k") result_ok

abbrev awaiter_or_new : Option Awaiter → Awaiter
awaiter_or_new none = new_awaiter
awaiter_or_new (some a) = a

abbrev delivered : Awaiter
delivered = awaiter_or_new (Awaiter.run example_delivery new_awaiter)

returned-IsGiven_example : IsGiven (ascii "k") result_ok ((ascii "k", result_ok) ∷ [])
unfolding Awaiter.run step
returned-IsGiven_example =
    returned-IsGiven example_delivery delivered 0
      (record { key = ascii "k"; result = result_ok; is_done = true; phase = returned result_ok })
      result_ok refl refl refl

abbrev one_waiter : Awaiter
one_waiter = awaiter_or_new (step (enter 0 (ascii "k")) new_awaiter)

result_of-delivery_example :
    result_of 0 (Awaiter.run (delivery 0 5 (ascii "k") result_fail) one_waiter) ≡ some result_fail
unfolding step
result_of-delivery_example =
    result_of-delivery 0 5 (ascii "k") result_fail
      (record { key = ascii "k"; result = result_none; is_done = false; phase = waiting })
      one_waiter refl refl refl refl

overlap_lost_example :
    (solver_of 0 (Awaiter.run (overlap 1 2 0 (ascii "k") result_ok) new_awaiter) ≡ some solved)
    × (waiter_of 2 (Awaiter.run (overlap 1 2 0 (ascii "k") result_ok) new_awaiter)
        ≡ some (record { key = ascii "k"; result = result_none; is_done = false; phase = waiting }))
overlap_lost_example =
    overlap_lost 1 2 0 (ascii "k") result_ok new_awaiter (ground arith) refl refl refl

abbrev js_state_or_none : Option JsState → JsState
js_state_or_none none = no_calls none
js_state_or_none (some s) = s

abbrev example_calls : List JsAction
example_calls = instantiate 0 none ∷ instantiate 1 (some output_ok) ∷ finish_call 1 ∷ []

js_run_sound_example : some output_ok ≡ some output_ok
unfolding js_run js_step
js_run_sound_example =
    js_run_sound example_calls none (js_state_or_none (js_run example_calls (no_calls none))) 1
      (some output_ok) none refl refl

js_run_overlapped_example :
    (verdict_after 3 (
        js_run
          (instantiate 3 (some output_ok) ∷ instantiate 4 none ∷ finish_call 3 ∷ finish_call 3 ∷ [])
          (no_calls none))
      ≡ some (result_fail, error_of none))
    × (verdict_after 3 (
          js_run
            (instantiate 3 (some output_ok) ∷ finish_call 3 ∷ instantiate 4 none ∷ [])
            (no_calls none))
        ≡ some (result_ok, none))
js_run_overlapped_example = js_run_overlapped 3 4 none (ground arith)

-- a server whose hash has the length of a key
abbrev key_state : State
key_state = record example_state {
  sha256 = λ s.
      1 ∷ 2 ∷ 3 ∷ 4 ∷ 5 ∷ 6 ∷ 7 ∷ 8 ∷ 9 ∷ 10 ∷ 11 ∷ 12 ∷ 13 ∷ 14 ∷ 15 ∷ 16 ∷ 1 ∷ 2 ∷ 3 ∷ 4 ∷ 5 ∷ 6
      ∷ 7 ∷ 8 ∷ 9 ∷ 10 ∷ 11 ∷ 12 ∷ 13 ∷ 14 ∷ 15 ∷ 255 ∷ [];
}

abbrev first_challenge : Registration
first_challenge = example_registration 1 (ascii "first")

abbrev example_key : Key
example_key =
    get_challenge_key_for_request key_state first_challenge
      (expiration first_challenge.duration example_data) example_request example_address

bytes_below : (s : Text) → any (λ b. leb 256 b) s ≡ false → All IsByte s
bytes_below [] h = tt
bytes_below (b ∷ s) h = (ground arith, bytes_below s (ground arith))

example_key-IsByte : All IsByte example_key
unfolding get_challenge_key_for_request unmap
example_key-IsByte = bytes_below example_key refl

-- the early request for the link
abbrev early_world : World
early_world = record example_world {
  request = record example_request {
    url = record example_url {
      raw_query =
          query_arg_challenge
          ++ ascii "=first&"
          ++ query_arg_request_id
          ++ ascii "=00112233445566778899aabbccddeeff&"
          ++ query_arg_token
          ++ ascii "="
          ++ issue_key example_key;
    };
  };
}

abbrev early_information : VerifyInformation
early_information =
    get_verify_information (λ t. some example_url) first_challenge early_world.request

abbrev id_of : VerifyInformation → Text
id_of (information id redirect token) = id
id_of (no_information e) = []

abbrev redirect_of : VerifyInformation → Text
redirect_of (information id redirect token) = redirect
redirect_of (no_information e) = []

preload_answer_own_example :
    ((preload_answer key_state (λ t. some example_url) first_challenge early_world).1
      ≡ (issue_key example_key, result_ok) ∷ [])
    × ((preload_answer key_state (λ t. some example_url) first_challenge early_world).0.events
        ≡ write_header 200 ∷ [])
unfolding get_challenge_key_for_request get_verify_information Hex.decode Hex.encode Hex.hex_char
    Hex.reverse_hex ensure_no_open_redirect unmap Url.query Url.query_unescape
preload_answer_own_example =
    preload_answer_own key_state (λ t. some example_url) first_challenge early_world example_key
      (id_of early_information) (redirect_of early_information) refl example_key-IsByte refl refl
