-- ===== src/Challenge/Awaiter/Delivery.antt =====
-- Which results reach the calls of Await of lib/challenge/awaiter.go.
use wpoven_nobot.Base.{nat_equality, text_equality, text_eq_iff, arith}
use wpoven_nobot.Challenge.Awaiter.{
  run, Phase, waiting, returned, Waiter, Solver, solved, Awaiter, Action, enter, end_context, load,
  clean, take_callback, store, cancel, step,
}
use wpoven_nobot.Challenge.Types.{VerifyResult, result_none}
use wpoven_nobot.Base.{Text, ℕ, ◌≡◌, ◌≢◌, false, Option, none, some, List, [], ◌∷◌}

abbrev phase_result : Phase → Option VerifyResult
phase_result (returned r) = some r
phase_result _ = none

abbrev waiter_result : Option Waiter → Option VerifyResult
waiter_result none = none
waiter_result (some w) = phase_result w.phase

-- What a call of Await has returned, after a schedule that could be run.
abbrev pub result_of : ℕ → Option Awaiter → Option VerifyResult
result_of i none = none
result_of i (some a) = waiter_result (a.waiters i)

-- the steps of one call of Solve, and of the call of Await that it wakes
abbrev pub delivery : ℕ → ℕ → Text → VerifyResult → List Action
delivery i t key r = take_callback t key r ∷ store t ∷ cancel t ∷ load i ∷ clean i ∷ []

-- While the callback of a waiting call of Await stands under its key, a new call of Solve for that
-- key can run to its end, and the call of Await then returns the result of that call.
pub result_of-delivery :
    (i t : ℕ) (key : Text) (r : VerifyResult) (w : Waiter) (a : Awaiter)
    → a.callbacks key ≡ some i
    → a.waiters i ≡ some w
    → w.phase ≡ waiting
    → a.solvers t ≡ none
    → result_of i (run (delivery i t key r) a) ≡ some r
unfolding run step
result_of-delivery i t key r w a c e p s = ground (arith, text_eq_iff key key)

-- two calls of Await for one key, of which the first ends by its context before Solve is called
abbrev pub overlap : ℕ → ℕ → ℕ → Text → VerifyResult → List Action
overlap i j t key r =
    enter i key ∷ enter j key ∷ end_context i ∷ load i ∷ clean i ∷ take_callback t key r ∷ []

abbrev pub solver_of : ℕ → Option Awaiter → Option Solver
solver_of t none = none
solver_of t (some a) = a.solvers t

abbrev pub waiter_of : ℕ → Option Awaiter → Option Waiter
waiter_of i none = none
waiter_of i (some a) = a.waiters i

-- When two calls of Await wait for one key and the first ends by its context, its cleanup takes the
-- callback of the second away: Solve then ends without having found one, and the second call still
-- waits with no result and a context that goes on.
pub overlap_lost :
    (i j t : ℕ) (key : Text) (r : VerifyResult) (a : Awaiter)
    → i ≢ j
    → a.waiters i ≡ none
    → a.waiters j ≡ none
    → a.solvers t ≡ none
    → (solver_of t (run (overlap i j t key r) a) ≡ some solved)
      × (waiter_of j (run (overlap i j t key r) a)
          ≡ some (record { key = key; result = result_none; is_done = false; phase = waiting }))
unfolding run step
overlap_lost i j t key r a ne ei ej s = ground (arith, text_eq_iff key key)
