-- ===== src/Challenge/Awaiter.antt =====
-- lib/challenge/awaiter.go: calls of Await and Solve that run side by side. The concurrent map is a
-- function from keys, whose Set, Del and GetAndDel are single steps; so is each access to the atomic
-- result and to the context of a call.
pub mod Delivery
pub mod Honesty
pub mod Returned
use wpoven_nobot.Base.{nat_equality, text_equality}
use wpoven_nobot.Challenge.Types.{VerifyResult, result_none}
use wpoven_nobot.Base.{
  if◌then◌else◌, Text, HasTest, ◌==◌, ℕ, Bool, true, false, Option, none, some, List, [], ◌∷◌,
}

-- where a call of Await stands: before `<-ctx.Done()`, before the deferred Del, or behind it
pub data Phase : Type 0 where
  waiting : Phase
  loaded returned : VerifyResult → Phase

-- a call of Await: its key, the atomic result, and whether its context is over
pub record Waiter : Type 0 where
  pub key : Text
  pub result : VerifyResult
  pub is_done : Bool
  pub phase : Phase

-- where a call of Solve stands: with the callback of an Await and the result for it, behind the
-- callback's Store, or at the end
pub data Solver : Type 0 where
  called : ℕ → VerifyResult → Solver
  stored : ℕ → Solver
  solved : Solver

-- The callback under a key is known by the number of its call of Await. `calls` keeps what Solve was
-- called with, for the statements about it.
pub record Awaiter : Type 0 where
  pub callbacks : Text → Option ℕ
  pub waiters : ℕ → Option Waiter
  pub solvers : ℕ → Option Solver
  pub calls : List (Text × VerifyResult)

abbrev pub update {ℓ κ} :
    {K : Type ℓ} {V : Type κ} ⦃e : HasTest K⦄ → (K → Option V) → K → Option V → K → Option V
update f k v j = if j == k then v else f j

-- NewAwaiter
abbrev pub new_awaiter : Awaiter
new_awaiter = record { callbacks = λ k. none; waiters = λ i. none; solvers = λ t. none; calls = [] }

-- the steps of the calls, and the end of the context that Await was given
pub data Action : Type 0 where
  enter : ℕ → Text → Action
  end_context load clean : ℕ → Action
  take_callback : ℕ → Text → VerifyResult → Action
  store cancel : ℕ → Action

abbrev put_waiter : ℕ → Waiter → Awaiter → Awaiter
put_waiter i w a = record a { waiters = update a.waiters i (some w) }

abbrev put_solver : ℕ → Solver → Awaiter → Awaiter
put_solver t s a = record a { solvers = update a.solvers t (some s) }

-- the start of Await, up to Set
await_enter : ℕ → Text → Option Waiter → Awaiter → Option Awaiter
await_enter i key (some w) a = none
await_enter i key none a =
    let w : Waiter = record { key = key; result = result_none; is_done = false; phase = waiting } in
    some (put_waiter i w (record a { callbacks = update a.callbacks key (some i) }))

await_end : ℕ → Option Waiter → Awaiter → Option Awaiter
await_end i none a = none
await_end i (some w) a = some (put_waiter i (record w { is_done = true }) a)

-- `<-ctx.Done()` and the Load behind it
load_at : ℕ → Waiter → Phase → Awaiter → Option Awaiter
load_at i w waiting a =
    if w.is_done then some (put_waiter i (record w { phase = loaded w.result }) a) else none
load_at i w _ a = none

await_load : ℕ → Option Waiter → Awaiter → Option Awaiter
unfolding load_at
await_load i none a = none
await_load i (some w) a = load_at i w w.phase a

-- the deferred Del, and the return
clean_at : ℕ → Waiter → Phase → Awaiter → Option Awaiter
clean_at i w (loaded r) a = some (
    put_waiter i (record w { phase = returned r })
      (record a { callbacks = update a.callbacks w.key none }))
clean_at i w _ a = none

await_clean : ℕ → Option Waiter → Awaiter → Option Awaiter
unfolding clean_at
await_clean i none a = none
await_clean i (some w) a = clean_at i w w.phase a

-- the callback that GetAndDel gave, or none
taken : ℕ → VerifyResult → Option ℕ → Awaiter → Awaiter
taken t r none a = put_solver t solved a
taken t r (some i) a = put_solver t (called i r) a

-- GetAndDel of Solve, under the number of a new call
solve_take : ℕ → Text → VerifyResult → Option Solver → Awaiter → Option Awaiter
unfolding taken
solve_take t key r (some s) a = none
solve_take t key r none a = some (
    taken t r (a.callbacks key)
      (record a { callbacks = update a.callbacks key none; calls = (key, r) ∷ a.calls }))

-- the callback's Store, of the call of Await that it belongs to
store_result : ℕ → VerifyResult → ℕ → Option Waiter → Awaiter → Option Awaiter
store_result t r i none a = none
store_result t r i (some w) a =
    some (put_solver t (stored i) (put_waiter i (record w { result = r }) a))

solve_store : ℕ → Option Solver → Awaiter → Option Awaiter
unfolding store_result
solve_store t (some (called i r)) a = store_result t r i (a.waiters i) a
solve_store t _ a = none

-- the callback's call of `cancel`
cancel_waiter : ℕ → ℕ → Option Waiter → Awaiter → Option Awaiter
cancel_waiter t i none a = none
cancel_waiter t i (some w) a =
    some (put_solver t solved (put_waiter i (record w { is_done = true }) a))

solve_cancel : ℕ → Option Solver → Awaiter → Option Awaiter
unfolding cancel_waiter
solve_cancel t (some (stored i)) a = cancel_waiter t i (a.waiters i) a
solve_cancel t _ a = none

-- one step, `none` where the call is not there to take it
unfoldable pub step : Action → Awaiter → Option Awaiter
unfolding await_enter await_end await_load await_clean solve_take solve_store solve_cancel
step (enter i key) a = await_enter i key (a.waiters i) a
step (end_context i) a = await_end i (a.waiters i) a
step (load i) a = await_load i (a.waiters i) a
step (clean i) a = await_clean i (a.waiters i) a
step (take_callback t key r) a = solve_take t key r (a.solvers t) a
step (store t) a = solve_store t (a.solvers t) a
step (cancel t) a = solve_cancel t (a.solvers t) a

abbrev pub then_run : Option Awaiter → (Awaiter → Option Awaiter) → Option Awaiter
then_run none f = none
then_run (some a) f = f a

-- a schedule of steps
unfoldable pub run : List Action → Awaiter → Option Awaiter
unfolding step
run [] a = some a
run (action ∷ actions) a = then_run (step action a) (run actions)
