-- ===== src/Startup/Building/Distinct.antt =====
-- The register of challenges that NewState of lib/state.go makes from a policy.
use wpoven_nobot.Base.{
  nat_equality, text_equality, All, Text, ℕ, ◌≤◌, ◌≡◌, refl, sym, ap, ◌≢◌, Option, none, some, List,
  [], ◌∷◌, arith,
}
use wpoven_nobot.Rule.{Rules}
use wpoven_nobot.Policy.Networks.{◌>>=◌}
use wpoven_nobot.Startup.Building.{
  choose_key, compile_conditions, ChallengeEntry, created, create_challenges, Setup, made_rules,
  new_state,
}
use wpoven_nobot.Startup.Building.Adding.{IsUnused, KeepsNames, IsAdded, create-IsAdded}
use wpoven_nobot.Challenge.Create.{Registered, CreateError, PolicyChallenge, create}
use wpoven_nobot.Challenge.Registration.{Registration, Register, State}
use wpoven_nobot.Challenge.Token.Loop.{IsDistinct}
use wpoven_nobot.Challenge.Create.Numbered.{IsNumbered, create-IsNumbered}
use wpoven_nobot.Rule.Build.{BuiltRule, made, broken}
use mathlib.Core.Path.{subst}

-- Names that tell the challenges of a policy apart, and runtimes that leave them alone.
abbrev pub IsPolicy : List ChallengeEntry → Type 0
IsPolicy [] = Unit
IsPolicy (c ∷ cs) =
    All (λ d. c.name ≢ d.name) cs
    × ((runtime : Registration → Option Registration)
        → c.runtime ≡ some runtime
        → KeepsNames runtime)
    × IsPolicy cs

create_each :
    (runtime : Option (Registration → Option Registration)) (url_path name : Text)
    (pol : PolicyChallenge) (s : Registered)
    → ((r : Registration → Option Registration) → runtime ≡ some r → KeepsNames r)
    → IsUnused name s.register
    → IsNumbered s
    → IsDistinct s.register
    → IsAdded name s (create runtime url_path name pol s)
      × IsNumbered (create runtime url_path name pol s).1
unfolding create
create_each none url_path name pol s keeps unused numbered distinct = (tt, numbered)
create_each (some runtime) url_path name pol s keeps unused numbered distinct =
    let names = keeps runtime refl in
    (
      create-IsAdded runtime url_path name pol s names unused numbered distinct,
      create-IsNumbered runtime url_path name pol s (λ reg filled e. (names reg filled e).0)
          numbered,
    )

-- What a register is after the loop, when it succeeds.
abbrev IsMade : Option Registered → Type 0
IsMade none = Unit
IsMade (some s) = IsDistinct s.register × IsNumbered s

created-IsMade :
    (name : Text) (s : Registered) (cs : List ChallengeEntry)
    (rest : Registered → Option Registered) (r : Option CreateError × Registered)
    → IsAdded name s r × IsNumbered r.1
    → All (λ d. name ≢ d.name) cs
    → All (λ d. IsUnused d.name s.register) cs
    → ((after : Registered)
        → All (λ d. IsUnused d.name after.register) cs
        → IsNumbered after
        → IsDistinct after.register
        → IsMade (rest after))
    → IsMade (created r >>= rest)
created-IsMade name s cs rest (some err, after) h apart us go = tt
created-IsMade name s cs rest (none, after) ((distinct, unused), numbered) apart us go =
    go after (others cs apart us) numbered distinct
  where
    others :
        (ds : List ChallengeEntry)
        → All (λ d. name ≢ d.name) ds
        → All (λ d. IsUnused d.name s.register) ds
        → All (λ d. IsUnused d.name after.register) ds
    others [] a u = tt
    others (d ∷ ds) (a, as') (u, us') = (unused d.name a u, others ds as' us')

create_challenges-IsMade :
    (url_path : Text) (cs : List ChallengeEntry) (s : Registered)
    → IsPolicy cs
    → All (λ c. IsUnused c.name s.register) cs
    → IsNumbered s
    → IsDistinct s.register
    → IsMade (create_challenges url_path cs s)
unfolding create_challenges
create_challenges-IsMade url_path [] s h u numbered distinct = (distinct, numbered)
create_challenges-IsMade url_path (c ∷ cs) s (apart, keeps, h) (u, us) numbered distinct =
    created-IsMade c.name s cs (create_challenges url_path cs)
      (create c.runtime url_path c.name c.challenge s)
      (create_each c.runtime url_path c.name c.challenge s keeps u numbered distinct) apart us
      (λ after unused n d. create_challenges-IsMade url_path cs after h unused n d)

pub bind_some {ℓ κ} :
    {A : Type ℓ} {B : Type κ} (o : Option A) (f : A → Option B) (b : B)
    → (o >>= f) ≡ some b
    → (a : A) × (o ≡ some a) × (f a ≡ some b)
bind_some none f b e = absurd (ground arith)
bind_some (some a) f b e = (a, refl, e)

abbrev challenges_of : Option (State × Rules) → Register
challenges_of none = []
challenges_of (some (state, rules)) = state.challenges

made_rules_challenges :
    (state out : State) (rules : Rules) (r : BuiltRule Rules)
    → made_rules state r ≡ some (out, rules)
    → out.challenges ≡ state.challenges
made_rules_challenges state out rules (broken err) e = absurd (ground arith)
made_rules_challenges state out rules (made rs) e = sym (ap challenges_of e)

All-IsUnused : (cs : List ChallengeEntry) → All (λ c. IsUnused c.name []) cs
All-IsUnused [] = tt
All-IsUnused (c ∷ cs) = (tt, All-IsUnused cs)

numbered_keys :
    (n : ℕ) (r : Register) → All (λ p. (p.0 ≡ p.1.id) × p.0 ≤ n) r → All (λ p. p.0 ≡ p.1.id) r
numbered_keys n [] h = tt
numbered_keys n (p ∷ r) ((e, l), h) = (e, numbered_keys n r h)

-- In a server that NewState makes from a policy, whose challenges have different names and runtimes
-- that leave identifiers and names alone, identifiers and names tell the registered challenges apart,
-- and each stands under its own identifier.
pub new_state-IsDistinct :
    (u : Setup) (state : State) (rules : Rules)
    → ((replacements : List Text) → IsPolicy (u.challenges replacements))
    → new_state u ≡ some (state, rules)
    → IsDistinct state.challenges × All (λ p. p.0 ≡ p.1.id) state.challenges
unfolding new_state
new_state-IsDistinct u state rules policy e =
    let (key, _, e) = bind_some (choose_key u.new_key_from_seed u.generate_key u.seed) _ _ e in
    let (texts, _, e) =
      bind_some (compile_conditions u.new_ast u.ast_to_string u.conditions) _ _ e in
    let start : Registered = record { register = []; counter = u.counter } in
    let (end, was, e) =
      bind_some (create_challenges u.base.url_path (u.challenges texts) start) _ _ e in
    let (distinct, numbered) = subst IsMade was (
      create_challenges-IsMade u.base.url_path (u.challenges texts) start (policy texts)
        (All-IsUnused (u.challenges texts)) tt tt) in
    rw (made_rules_challenges _ state rules _ e)
      (distinct, numbered_keys end.counter end.register numbered)
