-- ===== src/Runtime/Js/Overlap.antt =====
-- Calls of Verify in lib/challenge/wasm/registration.go that run side by side.
use wpoven_nobot.Base.{
  nat_equality, if◌then◌else◌, ◌==◌, ℕ, ◌≡◌, refl, ◌≢◌, Bool, true, false, Option, none, some, List,
  [], ◌∷◌, arith,
}
use wpoven_nobot.Wasm.{VerifyOutput, output_ok, output_failed, output_error}
use wpoven_nobot.Runtime.Js.{
  finish_call, JsCall, instantiated, answered_with, JsState, JsAction, instantiate, error_of,
  js_instantiate, js_finish, js_step, js_run, refusing, after_test,
}
use wpoven_nobot.Policy.Networks.{◌>>=◌}
use wpoven_nobot.Challenge.Types.{result_fail, result_ok, Err, VerifyResult}
use mathlib.Core.Path.{subst}

-- A call that accepts has the module's word for it.
abbrev JsHonest : Option JsCall → Type 0
JsHonest (some (answered_with answer r err)) = r ≡ result_ok → answer ≡ some output_ok
JsHonest _ = Unit

abbrev IsHonestJs : JsState → Type 0
IsHonestJs s = (i : ℕ) → JsHonest (s.js_calls i)

after_test-JsHonest :
    (answer : Option VerifyOutput) (err : Option Err) → JsHonest (some (after_test answer err))
after_test-JsHonest answer (some e) = tt
after_test-JsHonest (some output_ok) none = λ h. refl
after_test-JsHonest (some output_failed) none = λ h. absurd (ground (arith, h))
after_test-JsHonest (some output_error) none = λ h. absurd (ground (arith, h))
after_test-JsHonest none none = λ h. absurd (ground (arith, h))

either_call :
    (b : Bool) (c d : Option JsCall) → JsHonest c → JsHonest d → JsHonest (if b then c else d)
either_call true c d h k = h
either_call false c d h k = k

-- What an action leaves, where it is taken.
abbrev LeavesHonest : Option JsState → Type 0
LeavesHonest none = Unit
LeavesHonest (some s) = IsHonestJs s

js_instantiate_keeps :
    (i : ℕ) (answer : Option VerifyOutput) (c : Option JsCall) (s : JsState)
    → IsHonestJs s
    → LeavesHonest (js_instantiate i answer c s)
js_instantiate_keeps i answer (some c) s h = tt
js_instantiate_keeps i answer none s h = λ j. either_call (j == i) _ _ tt (h j)

js_finish_keeps :
    (i : ℕ) (c : Option JsCall) (s : JsState) → IsHonestJs s → LeavesHonest (js_finish i c s)
js_finish_keeps i none s h = tt
js_finish_keeps i (some (answered_with a r e)) s h = tt
js_finish_keeps i (some (instantiated answer)) s h =
    λ j. either_call (j == i) _ _ (after_test-JsHonest answer s.shared_err) (h j)
js_finish_keeps i (some (refusing answer)) s h =
    λ j. either_call (j == i) _ _ (λ k. absurd (ground (arith, k))) (h j)

js_step_keeps : (action : JsAction) (s : JsState) → IsHonestJs s → LeavesHonest (js_step action s)
unfolding js_step
js_step_keeps (instantiate i answer) s h = js_instantiate_keeps i answer (s.js_calls i) s h
js_step_keeps (finish_call i) s h = js_finish_keeps i (s.js_calls i) s h

leaves_bind :
    (o : Option JsState) (f : JsState → Option JsState)
    → LeavesHonest o
    → ((s : JsState) → IsHonestJs s → LeavesHonest (f s))
    → LeavesHonest (o >>= f)
leaves_bind none f h k = tt
leaves_bind (some s) f h k = k s h

js_run_keeps :
    (actions : List JsAction) (s : JsState) → IsHonestJs s → LeavesHonest (js_run actions s)
unfolding js_run
js_run_keeps [] s h = h
js_run_keeps (action ∷ actions) s h =
    leaves_bind (js_step action s) (js_run actions) (js_step_keeps action s h)
      (λ after k. js_run_keeps actions after k)

abbrev pub no_calls : Option Err → JsState
no_calls err = record { shared_err = err; js_calls = λ i. none }

-- Whatever calls of Verify run side by side, and whatever stands in the variable that they share, a
-- call accepts a token only where the module's answer to it was that it is right.
pub js_run_sound :
    (actions : List JsAction) (err : Option Err) (s : JsState) (i : ℕ)
    (answer : Option VerifyOutput) (verdict_err : Option Err)
    → js_run actions (no_calls err) ≡ some s
    → s.js_calls i ≡ some (answered_with answer result_ok verdict_err)
    → answer ≡ some output_ok
js_run_sound actions err s i answer verdict_err ran call =
    let h = subst LeavesHonest ran (js_run_keeps actions (no_calls err) (λ j. tt)) in
    subst JsHonest call (h i) refl

abbrev call_verdict : Option JsCall → Option (VerifyResult × Option Err)
call_verdict (some (answered_with answer r err)) = some (r, err)
call_verdict _ = none

-- What a call has returned, after a schedule that could be run.
abbrev pub verdict_after : ℕ → Option JsState → Option (VerifyResult × Option Err)
verdict_after i none = none
verdict_after i (some s) = call_verdict (s.js_calls i)

-- Of two calls that run side by side, the one to which the module's answer is that the token is right
-- refuses it, with the error of the other call, when the other's Instantiate fails between its own and
-- the test behind it; by itself it accepts.
pub js_run_overlapped :
    (i j : ℕ) (err : Option Err)
    → i ≢ j
    → (verdict_after i (
          js_run
            (instantiate i (some output_ok)
              ∷ instantiate j none
              ∷ finish_call i
              ∷ finish_call i
              ∷ [])
            (no_calls err))
        ≡ some (result_fail, error_of none))
      × (verdict_after i (
            js_run
              (instantiate i (some output_ok) ∷ finish_call i ∷ instantiate j none ∷ [])
              (no_calls err))
          ≡ some (result_ok, none))
unfolding js_run js_step
js_run_overlapped i j err apart = (ground arith, ground arith)
