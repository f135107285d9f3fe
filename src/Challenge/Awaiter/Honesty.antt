-- ===== src/Challenge/Awaiter/Honesty.antt =====
-- What Await of lib/challenge/awaiter.go can return.
use wpoven_nobot.Base.{
  nat_equality, text_equality, eqb_iff, Bool-cases, text_eq_iff, ◌==◌, sym, ◌∙◌, inl, inr, ◌∷◌, eqb,
  true, arith,
}
use wpoven_nobot.Challenge.Awaiter.{
  Phase, waiting, loaded, returned, Waiter, Solver, called, Awaiter, new_awaiter, stored, solved,
  update, put_waiter, put_solver,
}
use wpoven_nobot.Challenge.Types.{VerifyResult, result_none}
use wpoven_nobot.Base.{Any, Text, ℕ, ◌≡◌, ◌⊎◌, Option, none, some, List}
use mathlib.Core.Path.{subst}

-- Solve was called with this key and result.
abbrev pub WasCalled : Text → VerifyResult → List (Text × VerifyResult) → Type 0
WasCalled key r calls = Any (λ c. (c.0 ≡ key) × (c.1 ≡ r)) calls

-- A result that nobody gave, or one that Solve was called with for the key.
abbrev pub IsGiven : Text → VerifyResult → List (Text × VerifyResult) → Type 0
IsGiven key r calls = (r ≡ result_none) ⊎ WasCalled key r calls

abbrev pub PhaseIsGiven : Text → Phase → List (Text × VerifyResult) → Type 0
PhaseIsGiven key waiting calls = Unit
PhaseIsGiven key (loaded r) calls = IsGiven key r calls
PhaseIsGiven key (returned r) calls = IsGiven key r calls

abbrev pub HasKey : Text → Option Waiter → Type 0
HasKey key none = ⊥
HasKey key (some w) = w.key ≡ key

-- A result on its way to a call of Await.
abbrev pub IsOwed : VerifyResult → List (Text × VerifyResult) → Option Waiter → Type 0
IsOwed r calls none = ⊥
IsOwed r calls (some w) = WasCalled w.key r calls

abbrev pub WaiterIsGiven : Option Waiter → List (Text × VerifyResult) → Type 0
WaiterIsGiven none calls = Unit
WaiterIsGiven (some w) calls = IsGiven w.key w.result calls × PhaseIsGiven w.key w.phase calls

abbrev pub RegisteredIsOwn : Text → Option ℕ → (ℕ → Option Waiter) → Type 0
RegisteredIsOwn key none ws = Unit
RegisteredIsOwn key (some i) ws = HasKey key (ws i)

abbrev pub SolverIsHonest :
    Option Solver → (ℕ → Option Waiter) → List (Text × VerifyResult) → Type 0
SolverIsHonest (some (called i r)) ws calls = IsOwed r calls (ws i)
SolverIsHonest _ ws calls = Unit

-- Callbacks stand under the keys of their calls, results on their way are for the calls that they
-- go to, and what calls of Await hold or have returned was given for their keys.
pub record IsHonest (a : Awaiter) : Type 0 where
  pub registered : (key : Text) → RegisteredIsOwn key (a.callbacks key) a.waiters
  pub underway : (t : ℕ) → SolverIsHonest (a.solvers t) a.waiters a.calls
  pub given : (i : ℕ) → WaiterIsGiven (a.waiters i) a.calls

pub new_awaiter-IsHonest : IsHonest new_awaiter
new_awaiter-IsHonest = record { registered = λ key. tt; underway = λ t. tt; given = λ i. tt }

-- The call of Await under this number, if there is one, has the key of the new state.
abbrev Fits : Option Waiter → Waiter → Type 0
Fits none w = Unit
Fits (some v) w = v.key ≡ w.key

pub eqb_self : (i : ℕ) → eqb i i ≡ true
eqb_self i = ground arith

HasKey-update :
    (key : Text) (i j : ℕ) (w : Waiter) (ws : ℕ → Option Waiter)
    → Fits (ws i) w
    → HasKey key (ws j)
    → HasKey key (update ws i (some w) j)
HasKey-update key i j w ws f h = elim (Bool-cases (j == i)) [
  | inr e ↦ rw e h
  | inl e ↦ rw e (fitting (ws i) f (subst (λ n. HasKey key (ws n)) ((eqb_iff j i).0 e) h))
]
  where
    fitting : (o : Option Waiter) → Fits o w → HasKey key o → w.key ≡ key
    fitting none f h = absurd h
    fitting (some v) f h = sym f ∙ h

IsOwed-update :
    (r : VerifyResult) (calls : List (Text × VerifyResult)) (i j : ℕ) (w : Waiter)
    (ws : ℕ → Option Waiter)
    → Fits (ws i) w
    → IsOwed r calls (ws j)
    → IsOwed r calls (update ws i (some w) j)
IsOwed-update r calls i j w ws f h = elim (Bool-cases (j == i)) [
  | inr e ↦ rw e h
  | inl e ↦ rw e (fitting (ws i) f (subst (λ n. IsOwed r calls (ws n)) ((eqb_iff j i).0 e) h))
]
  where
    fitting : (o : Option Waiter) → Fits o w → IsOwed r calls o → WasCalled w.key r calls
    fitting none f h = absurd h
    fitting (some v) f h = subst (λ k. WasCalled k r calls) f h

registered_after :
    (key : Text) (o : Option ℕ) (i : ℕ) (w : Waiter) (a : Awaiter)
    → Fits (a.waiters i) w
    → RegisteredIsOwn key o a.waiters
    → RegisteredIsOwn key o (update a.waiters i (some w))
registered_after key none i w a f h = tt
registered_after key (some j) i w a f h = HasKey-update key i j w a.waiters f h

underway_after :
    (o : Option Solver) (i : ℕ) (w : Waiter) (a : Awaiter)
    → Fits (a.waiters i) w
    → SolverIsHonest o a.waiters a.calls
    → SolverIsHonest o (update a.waiters i (some w)) a.calls
underway_after none i w a f h = tt
underway_after (some (called j r)) i w a f h = IsOwed-update r a.calls i j w a.waiters f h
underway_after (some (stored j)) i w a f h = tt
underway_after (some solved) i w a f h = tt

pub put_waiter-IsHonest :
    (i : ℕ) (w : Waiter) (a : Awaiter)
    → IsHonest a
    → Fits (a.waiters i) w
    → WaiterIsGiven (some w) a.calls
    → IsHonest (put_waiter i w a)
put_waiter-IsHonest i w a h f g = record {
  registered = λ key. registered_after key (a.callbacks key) i w a f (h.registered key);
  underway = λ t. underway_after (a.solvers t) i w a f (h.underway t);
  given = λ j. elim (Bool-cases (j == i)) [ inr e ↦ rw e (h.given j) | inl e ↦ rw e g ];
}

pub put_solver-IsHonest :
    (t : ℕ) (s : Solver) (a : Awaiter)
    → IsHonest a
    → SolverIsHonest (some s) a.waiters a.calls
    → IsHonest (put_solver t s a)
put_solver-IsHonest t s a h g = record {
  registered = λ key. h.registered key;
  underway = λ u. elim (Bool-cases (u == t)) [ inr e ↦ rw e (h.underway u) | inl e ↦ rw e g ];
  given = λ i. h.given i;
}

pub put_callback-IsHonest :
    (key : Text) (o : Option ℕ) (a : Awaiter)
    → IsHonest a
    → RegisteredIsOwn key o a.waiters
    → IsHonest (record a { callbacks = update a.callbacks key o })
put_callback-IsHonest key o a h g = record {
  registered = λ k. elim (Bool-cases (k == key)) [
    | inr e ↦ rw e (h.registered k)
    | inl e ↦ rw (e, (text_eq_iff k key).0 e) g
  ];
  underway = λ t. h.underway t;
  given = λ i. h.given i;
}

IsGiven-later :
    (key : Text) (r : VerifyResult) (c : Text × VerifyResult) (calls : List (Text × VerifyResult))
    → IsGiven key r calls
    → IsGiven key r (c ∷ calls)
IsGiven-later key r c calls (inl e) = inl e
IsGiven-later key r c calls (inr h) = inr (inr h)

PhaseIsGiven-later :
    (key : Text) (p : Phase) (c : Text × VerifyResult) (calls : List (Text × VerifyResult))
    → PhaseIsGiven key p calls
    → PhaseIsGiven key p (c ∷ calls)
PhaseIsGiven-later key waiting c calls h = tt
PhaseIsGiven-later key (loaded r) c calls h = IsGiven-later key r c calls h
PhaseIsGiven-later key (returned r) c calls h = IsGiven-later key r c calls h

WaiterIsGiven-later :
    (o : Option Waiter) (c : Text × VerifyResult) (calls : List (Text × VerifyResult))
    → WaiterIsGiven o calls
    → WaiterIsGiven o (c ∷ calls)
WaiterIsGiven-later none c calls h = tt
WaiterIsGiven-later (some w) c calls (g, p) =
    (IsGiven-later w.key w.result c calls g, PhaseIsGiven-later w.key w.phase c calls p)

IsOwed-later :
    (r : VerifyResult) (o : Option Waiter) (c : Text × VerifyResult)
    (calls : List (Text × VerifyResult))
    → IsOwed r calls o
    → IsOwed r (c ∷ calls) o
IsOwed-later r none c calls h = h
IsOwed-later r (some w) c calls h = inr h

underway_later :
    (o : Option Solver) (c : Text × VerifyResult) (a : Awaiter)
    → SolverIsHonest o a.waiters a.calls
    → SolverIsHonest o a.waiters (c ∷ a.calls)
underway_later none c a h = tt
underway_later (some (called i r)) c a h = IsOwed-later r (a.waiters i) c a.calls h
underway_later (some (stored i)) c a h = tt
underway_later (some solved) c a h = tt

pub call-IsHonest :
    (c : Text × VerifyResult) (a : Awaiter)
    → IsHonest a
    → IsHonest (record a { calls = c ∷ a.calls })
call-IsHonest c a h = record {
  registered = λ key. h.registered key;
  underway = λ t. underway_later (a.solvers t) c a (h.underway t);
  given = λ i. WaiterIsGiven-later (a.waiters i) c a.calls (h.given i);
}
