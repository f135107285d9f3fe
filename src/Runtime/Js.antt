-- ===== src/Runtime/Js.antt =====
-- The rest of lib/challenge/wasm/registration.go: the handler that makes a challenge, the two ends of
-- the call into the module in lib/challenge/wasm/interface/interface.go, and calls of Verify that run
-- side by side: all of them assign the variable `err` of FillJavaScriptRegistration.
pub mod Overlap
use wpoven_nobot.Base.{
  nat_equality, text_equality, eqb, if◌then◌else◌, length, Text, ascii, insert, ℕ, ◌⊎◌, inl, inr,
  Option, none, some, List, [], ◌∷◌,
}
use wpoven_nobot.Wasm.{VerifyOutput, output_ok, output_error}
use wpoven_nobot.Mime.{Header}
use wpoven_nobot.Text.{decimal}
use wpoven_nobot.Policy.Networks.{◌>>=◌}
use wpoven_nobot.Challenge.Awaiter.{update}
use wpoven_nobot.Challenge.State.{response_headers, error_page}
use wpoven_nobot.Challenge.Types.{VerifyResult, result_fail, result_ok, Err, other}
use wpoven_nobot.Challenge.World.{write_header, World, emit, set_header}
use wpoven_nobot.Challenge.Registration.{State}

-- MakeChallengeOutput; `data_out` is its Data
pub record MakeOutput : Type 0 where
  pub data_out : Text
  pub code : ℕ
  pub headers : Header
  pub error : Text

-- What a callback leaves behind: the output as it stood, and where it panicked the text of an error,
-- or none for another value.
pub record Callback : Type 0 where
  pub out : MakeOutput
  pub recovered : Option (Option Text)

-- the deferred function
abbrev recover : MakeOutput → Option (Option Text) → MakeOutput
recover out none = out
recover out (some err) = record out {
  code = if eqb out.code 200 then 500 else out.code;
  error = elim err [ none ↦ ascii "error" | some e ↦ e ];
}

-- MakeChallengeDecode, less the memory and the JSON of the output; `input` is the decoded input, or the
-- text of the error, and the callback gets the output as it is before it
unfoldable pub make_challenge_decode {ℓ} :
    {I : Type ℓ} → (I → MakeOutput → Callback) → (Text ⊎ I) → MakeOutput
make_challenge_decode callback (inl err) = record {
  data_out = [];
  code = 500;
  headers = [];
  error = err;
}
make_challenge_decode callback (inr input) =
    let called = callback input (record { data_out = []; code = 200; headers = []; error = [] }) in
    recover called.out called.recovered

-- VerifyChallengeDecode; the callback gives none for a panic
unfoldable pub verify_challenge_decode {ℓ} :
    {I : Type ℓ} → (I → Option VerifyOutput) → Option I → VerifyOutput
verify_challenge_decode callback none = output_error
verify_challenge_decode callback (some input) = elim (callback input) [
  | none ↦ output_error
  | some out ↦ out
]

-- `w.Header()[k] = v` for each header of the output
abbrev put_headers : Header → Header → Header
put_headers [] h = h
put_headers ((k, vs) ∷ more) h = put_headers more (insert k vs h)

-- the handler that makes a challenge, with the output of the module, or an error of running it
unfoldable pub make_challenge_handler : State → Option MakeOutput → World → World
make_challenge_handler state none w = error_page state 500 w
make_challenge_handler state (some out) w =
    let w' = set_header (ascii "Cache-Control") (ascii "no-cache, no-store, must-revalidate") (
      set_header (ascii "Content-Length") (decimal (length out.data_out))
        (record w { response = put_headers out.headers w.response })) in
    emit (write_header out.code) (response_headers state w')

-- a call of Verify: behind Instantiate, with the module's answer; behind the test of an error, which it
-- is about to return; or at its end
pub data JsCall : Type 0 where
  instantiated refusing : Option VerifyOutput → JsCall
  answered_with : Option VerifyOutput → VerifyResult → Option Err → JsCall

-- the variable that the calls share, and the calls
pub record JsState : Type 0 where
  pub shared_err : Option Err
  pub js_calls : ℕ → Option JsCall

pub data JsAction : Type 0 where
  instantiate : ℕ → Option VerifyOutput → JsAction
  finish_call : ℕ → JsAction

-- what Instantiate returns
abbrev pub error_of : Option VerifyOutput → Option Err
error_of none = some (other (ascii "runtime"))
error_of (some output_error) = some (other (ascii "error checking challenge"))
error_of (some _) = none

-- what a call returns where the test finds no error
abbrev pub verdict_of : Option VerifyOutput → VerifyResult
verdict_of (some output_ok) = result_ok
verdict_of _ = result_fail

-- the test behind Instantiate, which reads the shared variable, and where it finds an error the
-- return, which reads the variable again
abbrev pub after_test : Option VerifyOutput → Option Err → JsCall
after_test answer (some e) = refusing answer
after_test answer none = answered_with answer (verdict_of answer) none

abbrev pub js_instantiate : ℕ → Option VerifyOutput → Option JsCall → JsState → Option JsState
js_instantiate i answer (some c) s = none
js_instantiate i answer none s = some (record {
  shared_err = error_of answer;
  js_calls = update s.js_calls i (some (instantiated answer));
})

abbrev pub js_finish : ℕ → Option JsCall → JsState → Option JsState
js_finish i (some (instantiated answer)) s =
    some (record s { js_calls = update s.js_calls i (some (after_test answer s.shared_err)) })
js_finish i (some (refusing answer)) s = some (record s {
  js_calls = update s.js_calls i (some (answered_with answer result_fail s.shared_err));
})
js_finish i _ s = none

-- one step of a call of Verify, `none` where the call is not there to take it
unfoldable pub js_step : JsAction → JsState → Option JsState
js_step (instantiate i answer) s = js_instantiate i answer (s.js_calls i) s
js_step (finish_call i) s = js_finish i (s.js_calls i) s

unfoldable pub js_run : List JsAction → JsState → Option JsState
unfolding js_step
js_run [] s = some s
js_run (action ∷ actions) s = js_step action s >>= js_run actions
