-- ===== src/Challenge/Awaiter/Returned.antt =====
-- Every step of Await and Solve of lib/challenge/awaiter.go keeps what Awaiter/Honesty states.
use wpoven_nobot.Base.{nat_equality, text_equality}
use wpoven_nobot.Challenge.Awaiter.{
  step, run, Phase, waiting, loaded, returned, Waiter, Solver, called, stored, solved, Awaiter,
  update, new_awaiter, Action, enter, end_context, load, clean, take_callback, store, cancel,
  then_run, put_waiter, await_enter, await_end, load_at, await_load, clean_at, await_clean, taken,
  solve_take, store_result, solve_store, cancel_waiter, solve_cancel,
}
use wpoven_nobot.Challenge.Types.{VerifyResult, result_none}
use wpoven_nobot.Challenge.Awaiter.Honesty.{
  IsGiven, PhaseIsGiven, HasKey, IsOwed, WaiterIsGiven, RegisteredIsOwn, SolverIsHonest, IsHonest,
  new_awaiter-IsHonest, eqb_self, put_waiter-IsHonest, put_solver-IsHonest, put_callback-IsHonest,
  call-IsHonest,
}
use wpoven_nobot.Base.{
  if◌then◌else◌, Text, ℕ, ◌≡◌, refl, sym, inl, inr, Bool, true, false, Option, none, some, List, [],
  ◌∷◌,
}
use mathlib.Core.Path.{subst}

abbrev HonestNext : Option Awaiter → Type 0
HonestNext none = Unit
HonestNext (some a) = IsHonest a

enter-IsHonest :
    (i : ℕ) (key : Text) (o : Option Waiter) (a : Awaiter)
    → a.waiters i ≡ o
    → IsHonest a
    → HonestNext (await_enter i key o a)
unfolding await_enter
enter-IsHonest i key (some w) a e h = tt
enter-IsHonest i key none a e h =
    let w : Waiter = record { key = key; result = result_none; is_done = false; phase = waiting } in
    put_callback-IsHonest key (some i) (put_waiter i w a)
      (put_waiter-IsHonest i w a h (rw e tt) (inl refl, tt)) (rw (eqb_self i) refl)

end-IsHonest :
    (i : ℕ) (o : Option Waiter) (a : Awaiter)
    → a.waiters i ≡ o
    → IsHonest a
    → HonestNext (await_end i o a)
unfolding await_end
end-IsHonest i none a e h = tt
end-IsHonest i (some w) a e h =
    put_waiter-IsHonest i (record w { is_done = true }) a h (rw e refl)
      (subst (λ o. WaiterIsGiven o a.calls) e (h.given i))

-- What the record of a call says of it.
given_at :
    (i : ℕ) (w : Waiter) (a : Awaiter)
    → a.waiters i ≡ some w
    → IsHonest a
    → WaiterIsGiven (some w) a.calls
given_at i w a e h = subst (λ o. WaiterIsGiven o a.calls) e (h.given i)

if-HonestNext : (b : Bool) (o : Option Awaiter) → HonestNext o → HonestNext (if b then o else none)
if-HonestNext true o h = h
if-HonestNext false o h = tt

load_at-IsHonest :
    (i : ℕ) (w : Waiter) (p : Phase) (a : Awaiter)
    → a.waiters i ≡ some w
    → IsHonest a
    → HonestNext (load_at i w p a)
unfolding load_at
load_at-IsHonest i w (loaded r) a e h = tt
load_at-IsHonest i w (returned r) a e h = tt
load_at-IsHonest i w waiting a e h =
    let g = (given_at i w a e h).0 in
    if-HonestNext w.is_done (some (put_waiter i (record w { phase = loaded w.result }) a))
      (put_waiter-IsHonest i (record w { phase = loaded w.result }) a h (rw e refl) (g, g))

load-IsHonest :
    (i : ℕ) (o : Option Waiter) (a : Awaiter)
    → a.waiters i ≡ o
    → IsHonest a
    → HonestNext (await_load i o a)
unfolding await_load
load-IsHonest i none a e h = tt
load-IsHonest i (some w) a e h = load_at-IsHonest i w w.phase a e h

clean_at-IsHonest :
    (i : ℕ) (w : Waiter) (p : Phase) (a : Awaiter)
    → a.waiters i ≡ some w
    → w.phase ≡ p
    → IsHonest a
    → HonestNext (clean_at i w p a)
unfolding clean_at
clean_at-IsHonest i w waiting a e ph h = tt
clean_at-IsHonest i w (returned r) a e ph h = tt
clean_at-IsHonest i w (loaded r) a e ph h =
    let (g, p) = given_at i w a e h in
    put_waiter-IsHonest i (record w { phase = returned r })
      (record a { callbacks = update a.callbacks w.key none })
      (put_callback-IsHonest w.key none a h tt) (rw e refl)
      (g, subst (λ q. PhaseIsGiven w.key q a.calls) ph p)

clean-IsHonest :
    (i : ℕ) (o : Option Waiter) (a : Awaiter)
    → a.waiters i ≡ o
    → IsHonest a
    → HonestNext (await_clean i o a)
unfolding await_clean
clean-IsHonest i none a e h = tt
clean-IsHonest i (some w) a e h = clean_at-IsHonest i w w.phase a e refl h

-- A result that Solve was called with for a key is owed to the call under the key.
IsOwed-of_call :
    (key : Text) (r : VerifyResult) (o : Option Waiter) (calls : List (Text × VerifyResult))
    → HasKey key o
    → IsOwed r ((key, r) ∷ calls) o
IsOwed-of_call key r none calls h = h
IsOwed-of_call key r (some w) calls h = inl (sym h, refl)

taken-IsHonest :
    (t : ℕ) (key : Text) (r : VerifyResult) (o : Option ℕ) (a : Awaiter)
    → RegisteredIsOwn key o a.waiters
    → IsHonest a
    → IsHonest (
        taken t r o
          (record a { callbacks = update a.callbacks key none; calls = (key, r) ∷ a.calls }))
unfolding taken
taken-IsHonest t key r none a g h =
    put_solver-IsHonest t solved _
      (put_callback-IsHonest key none (record a { calls = (key, r) ∷ a.calls })
        (call-IsHonest (key, r) a h) tt)
      tt
taken-IsHonest t key r (some i) a g h =
    put_solver-IsHonest t (called i r)
      (record a { callbacks = update a.callbacks key none; calls = (key, r) ∷ a.calls })
      (put_callback-IsHonest key none (record a { calls = (key, r) ∷ a.calls })
        (call-IsHonest (key, r) a h) tt)
      (IsOwed-of_call key r (a.waiters i) a.calls g)

take-IsHonest :
    (t : ℕ) (key : Text) (r : VerifyResult) (o : Option Solver) (a : Awaiter)
    → IsHonest a
    → HonestNext (solve_take t key r o a)
unfolding solve_take
take-IsHonest t key r (some s) a h = tt
take-IsHonest t key r none a h = taken-IsHonest t key r (a.callbacks key) a (h.registered key) h

store_result-IsHonest :
    (t : ℕ) (r : VerifyResult) (i : ℕ) (o : Option Waiter) (a : Awaiter)
    → a.waiters i ≡ o
    → IsOwed r a.calls o
    → IsHonest a
    → HonestNext (store_result t r i o a)
unfolding store_result
store_result-IsHonest t r i none a e owed h = tt
store_result-IsHonest t r i (some w) a e owed h =
    put_solver-IsHonest t (stored i) (put_waiter i (record w { result = r }) a)
      (put_waiter-IsHonest i (record w { result = r }) a h (rw e refl)
        (inr owed, (given_at i w a e h).1))
      tt

store-IsHonest :
    (t : ℕ) (o : Option Solver) (a : Awaiter)
    → SolverIsHonest o a.waiters a.calls
    → IsHonest a
    → HonestNext (solve_store t o a)
unfolding solve_store
store-IsHonest t none a g h = tt
store-IsHonest t (some (stored i)) a g h = tt
store-IsHonest t (some solved) a g h = tt
store-IsHonest t (some (called i r)) a g h = store_result-IsHonest t r i (a.waiters i) a refl g h

cancel_waiter-IsHonest :
    (t i : ℕ) (o : Option Waiter) (a : Awaiter)
    → a.waiters i ≡ o
    → IsHonest a
    → HonestNext (cancel_waiter t i o a)
unfolding cancel_waiter
cancel_waiter-IsHonest t i none a e h = tt
cancel_waiter-IsHonest t i (some w) a e h =
    put_solver-IsHonest t solved (put_waiter i (record w { is_done = true }) a)
      (put_waiter-IsHonest i (record w { is_done = true }) a h (rw e refl) (given_at i w a e h)) tt

cancel-IsHonest :
    (t : ℕ) (o : Option Solver) (a : Awaiter) → IsHonest a → HonestNext (solve_cancel t o a)
unfolding solve_cancel
cancel-IsHonest t none a h = tt
cancel-IsHonest t (some (called i r)) a h = tt
cancel-IsHonest t (some solved) a h = tt
cancel-IsHonest t (some (stored i)) a h = cancel_waiter-IsHonest t i (a.waiters i) a refl h

step-IsHonest : (action : Action) (a : Awaiter) → IsHonest a → HonestNext (step action a)
unfolding step
step-IsHonest (enter i key) a h = enter-IsHonest i key (a.waiters i) a refl h
step-IsHonest (end_context i) a h = end-IsHonest i (a.waiters i) a refl h
step-IsHonest (load i) a h = load-IsHonest i (a.waiters i) a refl h
step-IsHonest (clean i) a h = clean-IsHonest i (a.waiters i) a refl h
step-IsHonest (take_callback t key r) a h = take-IsHonest t key r (a.solvers t) a h
step-IsHonest (store t) a h = store-IsHonest t (a.solvers t) a (h.underway t) h
step-IsHonest (cancel t) a h = cancel-IsHonest t (a.solvers t) a h

then_run-HonestNext :
    (o : Option Awaiter) (f : Awaiter → Option Awaiter)
    → HonestNext o
    → ((a : Awaiter) → IsHonest a → HonestNext (f a))
    → HonestNext (then_run o f)
then_run-HonestNext none f h k = tt
then_run-HonestNext (some a) f h k = k a h

run-IsHonest : (actions : List Action) (a : Awaiter) → IsHonest a → HonestNext (run actions a)
unfolding run
run-IsHonest [] a h = h
run-IsHonest (action ∷ actions) a h =
    then_run-HonestNext (step action a) (run actions) (step-IsHonest action a h)
      (λ b k. run-IsHonest actions b k)

-- In whatever order the steps of calls of Await and Solve come, a call of Await that has returned
-- gave VerifyResultNone, or a result that Solve was called with for the key of that call.
pub returned-IsGiven :
    (actions : List Action) (a : Awaiter) (i : ℕ) (w : Waiter) (r : VerifyResult)
    → run actions new_awaiter ≡ some a
    → a.waiters i ≡ some w
    → w.phase ≡ returned r
    → IsGiven w.key r a.calls
returned-IsGiven actions a i w r ran e ph =
    let h = subst HonestNext ran (run-IsHonest actions new_awaiter new_awaiter-IsHonest) in
    subst (λ q. PhaseIsGiven w.key q a.calls) ph (given_at i w a e h).1
