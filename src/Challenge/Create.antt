-- ===== src/Challenge/Create.antt =====
-- Create and Add of lib/challenge/register.go: the register of challenges and its identifiers.
pub mod Numbered
use wpoven_nobot.Base.{
  nat_equality, eqb, if◌then◌else◌, Text, ascii, insert, ℕ, ◌+◌, Option, none, some, List, [], ◌∷◌,
  ◌++◌,
}
use wpoven_nobot.Time.{Duration}
use wpoven_nobot.Challenge.State.{default_duration}
use wpoven_nobot.Challenge.Types.{transparent, result_none, Program}
use wpoven_nobot.Challenge.Registration.{Registration, Register, get_by_name}

-- the Register with the package's `idCounter`
pub record Registered : Type 0 where
  pub register : Register
  pub counter : ℕ

pub data CreateError : Type 0 where
  unknown_runtime condition_error fill_error : CreateError

-- what Create reads of policy.Challenge: `conditions` says whether there are any, and what they
-- compile to; `none` is an error of RegisterCondition
pub record PolicyChallenge : Type 0 where
  pub conditions : Option (Option Program)
  pub duration : Duration

abbrev pub default_key_headers : List Text
default_key_headers = ascii "User-Agent" ∷ ascii "Accept-Language" ∷ []

-- the registration that Create starts from, before it has an identifier
unfoldable pub new_registration : Text → Text → PolicyChallenge → Option Program → Registration
new_registration url_path name pol condition = record {
  id = 0;
  name = name;
  class = transparent;
  condition = condition;
  path = url_path ++ ascii "/challenge/" ++ name;
  duration = if eqb pol.duration 0 then default_duration else pol.duration;
  verify = none;
  verify_probability = 0;
  key_headers = default_key_headers;
  issue_challenge = λ w key expiry. (result_none, w);
}

-- the identifier of a name that is there, or the next one, with the counter after it
unfoldable pub identifier : Text → Registered → ℕ × ℕ
unfolding get_by_name
identifier name s = elim (get_by_name name s.register) [
  | some (c, old) ↦ (old, s.counter)
  | none ↦ (s.counter + 1, s.counter + 1)
]

-- the end of Create: the identifier is taken before the runtime fills the registration in
unfoldable pub fill :
    (Registration → Option Registration)
    → Registration
    → Registered
    → Option CreateError × Registered
unfolding identifier
fill runtime reg s =
    let (id, counter) = identifier reg.name s in
    elim (runtime (record reg { id = id })) [
      | none ↦ (some fill_error, record s { counter = counter })
      | some filled ↦
          (none, record { register = insert filled.id filled s.register; counter = counter })
    ]

-- Register.Create; `runtime` is the entry of Runtimes for the policy's runtime
unfoldable pub create :
    Option (Registration → Option Registration)
    → Text
    → Text
    → PolicyChallenge
    → Registered
    → Option CreateError × Registered
unfolding fill new_registration
create none url_path name pol s = (some unknown_runtime, s)
create (some runtime) url_path name pol s = elim pol.conditions [
  | none ↦ fill runtime (new_registration url_path name pol none) s
  | some none ↦ (some condition_error, s)
  | some (some program) ↦ fill runtime (new_registration url_path name pol (some program)) s
]

-- Register.Add
unfoldable pub add : Registration → Registered → ℕ × Registered
unfolding identifier
add c s =
    let (id, counter) = identifier c.name s in
    (id, record { register = insert id (record c { id = id }) s.register; counter = counter })
