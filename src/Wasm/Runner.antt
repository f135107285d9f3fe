-- ===== src/Wasm/Runner.antt =====
-- lib/challenge/wasm/runner.go: the modules that a Runner has compiled, and their instances, which
-- other goroutines may have at the same time. Compiling and instantiating are a library's.
pub mod Laws
pub mod Overlap
use wpoven_nobot.Base.{
  text_equality, nat_equality, if◌then◌else◌, Text, ascii, text_eq, ◌==◌, lookup, insert, ℕ, Bool,
  true, false, not, Option, none, some, List, [], ◌∷◌,
}
use wpoven_nobot.Policy.Networks.{◌>>=◌}
use wpoven_nobot.Challenge.Awaiter.{update}

-- api.ValueTypeI32 and api.ValueTypeI64
abbrev pub value_i32 : ℕ
value_i32 = 127

abbrev pub value_i64 : ℕ
value_i64 = 126

-- ParamTypes and ResultTypes of an exported function
pub record Signature : Type 0 where
  pub param_types : List ℕ
  pub result_types : List ℕ

-- a compiled module, known by a number, and its exported functions
pub record Module : Type 0 where
  pub module_number : ℕ
  pub functions : Text → Option Signature

pub record Runner : Type 0 where
  pub modules : List (Text × Module)
  pub closed_modules : List ℕ

pub data InterfaceCheck : Type 0 where
  follows mismatched missing_export : InterfaceCheck

-- what the interface wants of one function
abbrev pub Wanted : Type 0
Wanted = Text × Signature

abbrev pub wanted : List Wanted
wanted =
    (ascii "MakeChallenge", record { param_types = value_i64 ∷ []; result_types = value_i64 ∷ [] })
    ∷ (
      ascii "VerifyChallenge",
      record { param_types = value_i64 ∷ []; result_types = value_i64 ∷ [] },
    )
    ∷ (ascii "malloc", record { param_types = value_i32 ∷ []; result_types = value_i32 ∷ [] })
    ∷ (ascii "free", record { param_types = value_i32 ∷ []; result_types = [] })
    ∷ []

-- the tests on one function
unfoldable pub check_function : Option Signature → Signature → InterfaceCheck
check_function none want = missing_export
check_function (some f) want =
    if not (text_eq f.param_types want.param_types)
    then mismatched
    else if not (text_eq f.result_types want.result_types)
    then mismatched
    else follows

-- the tests one after the other, up to the first that fails
unfoldable pub check_interface : Module → List Wanted → InterfaceCheck
unfolding check_function
check_interface m [] = follows
check_interface m ((name, want) ∷ more) = elim (check_function (m.functions name) want) [
  | follows ↦ check_interface m more
  | mismatched ↦ mismatched
  | missing_export ↦ missing_export
]

pub data RunnerError : Type 0 where
  compile_error interface_error module_not_found instance_error callback_error : RunnerError

abbrev pub registered : Text → Module → InterfaceCheck → Runner → Option RunnerError × Runner
registered key m follows r = (none, record r { modules = insert key m r.modules })
registered key m mismatched r = (some interface_error, r)
registered key m missing_export r =
    (some interface_error, record r { closed_modules = m.module_number ∷ r.closed_modules })

-- Runner.Compile; `compiled` is what CompileModule makes of the binary
unfoldable pub compile : Option Module → Text → Runner → Option RunnerError × Runner
unfolding check_interface
compile none key r = (some compile_error, r)
compile (some m) key r = registered key m (check_interface m wanted) r

-- Runner.Close, over the modules in the order of the map: whether the runtime is closed at the end,
-- and the modules that were closed; `closes` says which of them close without an error
unfoldable pub close_modules : (ℕ → Bool) → List (Text × Module) → List ℕ → Bool × List ℕ
close_modules closes [] closed = (true, closed)
close_modules closes ((key, m) ∷ more) closed =
    if closes m.module_number
    then close_modules closes more (m.module_number ∷ closed)
    else (false, m.module_number ∷ closed)

-- A call of Instantiate: its callback runs on an instance, or it has returned.
pub data RunnerCall : Type 0 where
  in_callback : Text → RunnerCall
  returned_with : Option RunnerError → RunnerCall

-- the runner, the names of the instances that are there, and the calls
pub record RunnerState : Type 0 where
  pub runner : Runner
  pub instance_names : List Text
  pub runner_calls : ℕ → Option RunnerCall

pub data RunnerStep : Type 0 where
  enter_instance : ℕ → Text → RunnerStep
  leave_instance : ℕ → Bool → RunnerStep

-- the name goes when its instance is closed
abbrev pub drop_name : Text → List Text → List Text
drop_name name [] = []
drop_name name (n ∷ names) = if n == name then names else n ∷ drop_name name names

-- Whether the library instantiates a module under a name beside the instances that there are.
abbrev pub Library : Type 0
Library = List Text → Text → Module → Bool

abbrev returns : ℕ → Option RunnerError → RunnerState → RunnerState
returns i err s = record s { runner_calls = update s.runner_calls i (some (returned_with err)) }

abbrev pub instantiate_module : Library → ℕ → Text → Option Module → RunnerState → RunnerState
instantiate_module lib i key none s = returns i (some module_not_found) s
instantiate_module lib i key (some m) s =
    if lib s.instance_names key m
    then record s {
      instance_names = key ∷ s.instance_names;
      runner_calls = update s.runner_calls i (some (in_callback key));
    }
    else returns i (some instance_error) s

abbrev pub finish_instance : ℕ → Bool → Option RunnerCall → RunnerState → Option RunnerState
finish_instance i ok (some (in_callback key)) s =
    some (record (returns i (if ok then none else some callback_error) s) {
      instance_names = drop_name key s.instance_names;
    })
finish_instance i ok _ s = none

abbrev pub begin_instance :
    Library → ℕ → Text → Option RunnerCall → RunnerState → Option RunnerState
begin_instance lib i key none s =
    some (instantiate_module lib i key (lookup key s.runner.modules) s)
begin_instance lib i key (some c) s = none

-- Runner.Instantiate in its two halves: up to the callback, and behind it; `none` where the call is
-- not there to take the step
unfoldable pub runner_step : Library → RunnerStep → RunnerState → Option RunnerState
runner_step lib (enter_instance i key) s = begin_instance lib i key (s.runner_calls i) s
runner_step lib (leave_instance i ok) s = finish_instance i ok (s.runner_calls i) s

unfoldable pub runner_run : Library → List RunnerStep → RunnerState → Option RunnerState
unfolding runner_step
runner_run lib [] s = some s
runner_run lib (a ∷ steps) s = runner_step lib a s >>= runner_run lib steps
