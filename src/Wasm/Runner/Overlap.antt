-- ===== src/Wasm/Runner/Overlap.antt =====
-- Calls of Instantiate of lib/challenge/wasm/runner.go that run side by side.
use wpoven_nobot.Base.{
  text_equality, nat_equality, eqb_iff, Bool-cases, Any, Text, text_eq_iff, ◌==◌, ℕ, ◌≡◌, sym, ◌∙◌,
  ◌≢◌, ◌⊎◌, inl, inr, false, Option, some, List, [], ◌∷◌, if◌then◌else◌, lookup, refl, ap, Bool,
  true, none, arith,
}
use wpoven_nobot.Wasm.Runner.{
  Module, RunnerCall, in_callback, RunnerState, drop_name, Library, Runner, RunnerError,
  module_not_found, instance_error, callback_error, returned_with, RunnerStep, enter_instance,
  leave_instance, instantiate_module, finish_instance, begin_instance, runner_step, runner_run,
}
use wpoven_nobot.Challenge.Awaiter.{update}
use wpoven_nobot.Policy.Networks.{◌>>=◌}
use mathlib.Core.Path.{subst}

abbrev pub IsNamed : Text → List Text → Type 0
IsNamed name names = Any (λ n. n ≡ name) names

-- The library instantiates no second module under a name that is in use.
abbrev pub RefusesUsed : Library → Type 0
RefusesUsed lib =
    (names : List Text) (name : Text) (m : Module) → IsNamed name names → lib names name m ≡ false

IsNamed-drop_name :
    (name other : Text) (names : List Text)
    → other ≢ name
    → IsNamed other names
    → IsNamed other (drop_name name names)
IsNamed-drop_name name other [] d h = h
IsNamed-drop_name name other (n ∷ names) d h = elim (Bool-cases (n == name)) [
  | inl e ↦
      rw e (elim h [ inl same ↦ absurd (d (sym same ∙ (text_eq_iff n name).0 e)) | inr k ↦ k ])
  | inr e ↦
      rw e (elim h [ inl same ↦ inl same | inr k ↦ inr (IsNamed-drop_name name other names d k) ])
]

update_cases :
    (f : ℕ → Option RunnerCall) (i j : ℕ) (v : Option RunnerCall) (c : RunnerCall)
    → update f i v j ≡ some c
    → ((j ≡ i) × (v ≡ some c)) ⊎ ((j ≢ i) × (f j ≡ some c))
update_cases f i j v c h = split (j == i) refl h
  where
    split :
        (b : Bool)
        → (j == i) ≡ b
        → (if b then v else f j) ≡ some c
        → ((j ≡ i) × (v ≡ some c)) ⊎ ((j ≢ i) × (f j ≡ some c))
    split true e k = inl ((eqb_iff j i).0 e, k)
    split false e k = inr (λ same. ground (arith, e, same), k)

abbrev key_of_call : Option RunnerCall → Text
key_of_call (some (in_callback key)) = key
key_of_call _ = []

-- The instances of the calls that are in their callbacks are there, each under a name of its own.
abbrev IsApart : RunnerState → Type 0
IsApart s =
    (j : ℕ) (key : Text)
    → s.runner_calls j ≡ some (in_callback key)
    → IsNamed key s.instance_names × ((i : ℕ) → s.runner_calls i ≡ some (in_callback key) → i ≡ j)

not_returned :
    (err : Option RunnerError) (key : Text) → some (returned_with err) ≢ some (in_callback key)
not_returned err key e = ground arith

-- A call that returns leaves the others apart, if the names of their instances stay.
returns-IsApart :
    (i : ℕ) (err : Option RunnerError) (names : List Text) (s : RunnerState)
    → IsApart s
    → ((j : ℕ) (key : Text) → j ≢ i → s.runner_calls j ≡ some (in_callback key) → IsNamed key names)
    → IsApart (record s {
      instance_names = names;
      runner_calls = update s.runner_calls i (some (returned_with err));
    })
returns-IsApart i err names s h stay j key called =
    elim (update_cases s.runner_calls i j (some (returned_with err)) (in_callback key) called) [
      | inl (same, e) ↦ absurd (not_returned err key e)
      | inr (apart, e) ↦ (
        stay j key apart e,
        λ k other.
            elim (update_cases s.runner_calls i k (some (returned_with err)) (in_callback key)
              other) [
                | inl (same, o) ↦ absurd (not_returned err key o)
                | inr (_, o) ↦ (h j key e).1 k o
              ],
      )
    ]

enter-IsApart :
    (lib : Library) (i : ℕ) (key : Text) (m : Module) (s : RunnerState)
    → RefusesUsed lib
    → lib s.instance_names key m ≡ true
    → IsApart s
    → IsApart (record s {
      instance_names = key ∷ s.instance_names;
      runner_calls = update s.runner_calls i (some (in_callback key));
    })
enter-IsApart lib i key m s refuses ok h j other called =
    elim (update_cases s.runner_calls i j (some (in_callback key)) (in_callback other) called) [
      | inl (same, e) ↦ (
        inl (ap key_of_call e),
        λ k again.
            elim (update_cases s.runner_calls i k (some (in_callback key)) (in_callback other)
              again) [
                | inl (too, o) ↦ too ∙ sym same
                | inr (apart, o) ↦ absurd (unused other (ap key_of_call e) (h k other o).0)
              ],
      )
      | inr (apart, e) ↦ (
        inr (h j other e).0,
        λ k again.
            elim (update_cases s.runner_calls i k (some (in_callback key)) (in_callback other)
              again) [
                | inl (too, o) ↦ absurd (unused other (ap key_of_call o) (h j other e).0)
                | inr (_, o) ↦ (h j other e).1 k o
              ],
      )
    ]
  where
    unused : (name : Text) → key ≡ name → IsNamed name s.instance_names → ⊥
    unused name e named =
        let used : lib s.instance_names key m ≡ false =
          refuses s.instance_names key m (subst (λ n. IsNamed n s.instance_names) (sym e) named) in
        ground (arith, used, ok)

abbrev LeavesApart : Option RunnerState → Type 0
LeavesApart none = Unit
LeavesApart (some s) = IsApart s

instantiate-IsApart :
    (lib : Library) (i : ℕ) (key : Text) (m : Option Module) (s : RunnerState)
    → RefusesUsed lib
    → IsApart s
    → IsApart (instantiate_module lib i key m s)
instantiate-IsApart lib i key none s refuses h =
    returns-IsApart i (some module_not_found) s.instance_names s h (λ j k d e. (h j k e).0)
instantiate-IsApart lib i key (some m) s refuses h =
    elim (Bool-cases (lib s.instance_names key m)) [
      | inl ok ↦ rw ok (enter-IsApart lib i key m s refuses ok h)
      | inr used ↦
          rw used
            (returns-IsApart i (some instance_error) s.instance_names s h (λ j k d e. (h j k e).0))
    ]

begin-LeavesApart :
    (lib : Library) (i : ℕ) (key : Text) (c : Option RunnerCall) (s : RunnerState)
    → RefusesUsed lib
    → IsApart s
    → LeavesApart (begin_instance lib i key c s)
begin-LeavesApart lib i key (some c) s refuses h = tt
begin-LeavesApart lib i key none s refuses h =
    instantiate-IsApart lib i key (lookup key s.runner.modules) s refuses h

finish-LeavesApart :
    (i : ℕ) (ok : Bool) (c : Option RunnerCall) (s : RunnerState)
    → s.runner_calls i ≡ c
    → IsApart s
    → LeavesApart (finish_instance i ok c s)
finish-LeavesApart i ok none s e h = tt
finish-LeavesApart i ok (some (returned_with err)) s e h = tt
finish-LeavesApart i ok (some (in_callback key)) s e h =
    returns-IsApart i (if ok then none else some callback_error) (drop_name key s.instance_names) s
      h
      (λ j other d called.
        IsNamed-drop_name key other s.instance_names
          (λ same. d (sym ((h j other called).1 i (e ∙ ap (λ n. some (in_callback n)) (sym same)))))
          (h j other called).0)

step-LeavesApart :
    (lib : Library) (a : RunnerStep) (s : RunnerState)
    → RefusesUsed lib
    → IsApart s
    → LeavesApart (runner_step lib a s)
unfolding runner_step
step-LeavesApart lib (enter_instance i key) s refuses h =
    begin-LeavesApart lib i key (s.runner_calls i) s refuses h
step-LeavesApart lib (leave_instance i ok) s refuses h =
    finish-LeavesApart i ok (s.runner_calls i) s refl h

bind-LeavesApart :
    (o : Option RunnerState) (f : RunnerState → Option RunnerState)
    → LeavesApart o
    → ((s : RunnerState) → IsApart s → LeavesApart (f s))
    → LeavesApart (o >>= f)
bind-LeavesApart none f h k = tt
bind-LeavesApart (some s) f h k = k s h

run-LeavesApart :
    (lib : Library) (steps : List RunnerStep) (s : RunnerState)
    → RefusesUsed lib
    → IsApart s
    → LeavesApart (runner_run lib steps s)
unfolding runner_run
run-LeavesApart lib [] s refuses h = h
run-LeavesApart lib (a ∷ steps) s refuses h =
    bind-LeavesApart (runner_step lib a s) (runner_run lib steps)
      (step-LeavesApart lib a s refuses h) (λ after k. run-LeavesApart lib steps after refuses k)

abbrev pub no_instances : Runner → RunnerState
no_instances r = record { runner = r; instance_names = []; runner_calls = λ i. none }

-- With a library that refuses a name in use: while one call of Instantiate is in its callback, any
-- other call for the same key returns with an error, and its own callback does not run.
pub instantiate_overlapped :
    (lib : Library) (r : Runner) (steps : List RunnerStep) (s : RunnerState) (i j : ℕ) (key : Text)
    → RefusesUsed lib
    → runner_run lib steps (no_instances r) ≡ some s
    → s.runner_calls j ≡ some (in_callback key)
    → s.runner_calls i ≡ none
    → (err : RunnerError) × (runner_step lib (enter_instance i key) s
        ≡ some
            (record s { runner_calls = update s.runner_calls i (some (returned_with (some err))) }))
unfolding runner_step
instantiate_overlapped lib r steps s i j key refuses ran called new =
    let apart =
      subst LeavesApart ran
        (run-LeavesApart lib steps (no_instances r) refuses (λ k name e. absurd (ground arith))) in
    rw new (refused (lookup key s.runner.modules) (apart j key called).0)
  where
    refused :
        (m : Option Module)
        → IsNamed key s.instance_names
        → (err : RunnerError) × (some (instantiate_module lib i key m s)
            ≡ some (record s {
              runner_calls = update s.runner_calls i (some (returned_with (some err)));
            }))
    refused none named = (module_not_found, refl)
    refused (some m) named = (instance_error, rw (refuses s.instance_names key m named) refl)
