-- ===== src/Startup/Building/Adding.antt =====
-- What Create of lib/challenge/register.go does to a register that has no challenge of the name.
use wpoven_nobot.Base.{
  nat_equality, text_equality, eqb_iff, Bool-cases, All, option_cases, option_keeps, Text,
  text_eq_iff, ◌==◌, insert, ℕ, ◌+◌, ◌≤◌, ◌<◌, ◌≡◌, refl, sym, ◌∙◌, ◌≢◌, inl, inr, Option, none,
  some, [], ◌∷◌, arith,
}
use wpoven_nobot.Text.{after}
use wpoven_nobot.Challenge.Create.{
  Registered, CreateError, PolicyChallenge, new_registration, identifier, fill, create,
}
use wpoven_nobot.Challenge.Registration.{Registration, Register, get_by_name}
use wpoven_nobot.Challenge.Token.Loop.{IsFresh, IsDistinct}
use wpoven_nobot.Challenge.Create.Numbered.{IsNumbered}

-- No registration has this name.
abbrev pub IsUnused : Text → Register → Type 0
IsUnused name r = All (λ e. e.1.name ≢ name) r

get_by_name_unused : (name : Text) (r : Register) → IsUnused name r → get_by_name name r ≡ none
unfolding get_by_name
get_by_name_unused name [] h = refl
get_by_name_unused name ((i, c) ∷ r) (h, hs) =
    ground (arith, text_eq_iff c.name name, h, get_by_name_unused name r hs)

IsFresh-insert :
    (c reg : Registration) (k : ℕ) (r : Register)
    → reg.id ≢ c.id
    → reg.name ≢ c.name
    → IsFresh c r
    → IsFresh c (insert k reg r)
IsFresh-insert c reg k [] i n h = ((i, n), tt)
IsFresh-insert c reg k ((j, d) ∷ r) i n (h, hs) = elim (Bool-cases (j == k)) [
  | inl e ↦ rw e ((i, n), hs)
  | inr e ↦ rw e (h, IsFresh-insert c reg k r i n hs)
]

IsUnused-insert :
    (name : Text) (reg : Registration) (k : ℕ) (r : Register)
    → reg.name ≢ name
    → IsUnused name r
    → IsUnused name (insert k reg r)
IsUnused-insert name reg k [] n h = (n, tt)
IsUnused-insert name reg k ((j, d) ∷ r) n (h, hs) = elim (Bool-cases (j == k)) [
  | inl e ↦ rw e (n, hs)
  | inr e ↦ rw e (h, IsUnused-insert name reg k r n hs)
]

-- A registration with a new identifier and a new name.
IsDistinct-insert :
    (reg : Registration) (n : ℕ) (r : Register)
    → n < reg.id
    → All (λ p. (p.0 ≡ p.1.id) × p.0 ≤ n) r
    → IsUnused reg.name r
    → IsDistinct r
    → IsDistinct (insert reg.id reg r)
IsDistinct-insert reg n [] l k u d = (tt, tt)
IsDistinct-insert reg n ((i, c) ∷ r) l ((e, b), k) (u, us) (f, d) =
    elim (Bool-cases (i == reg.id)) [
      | inl h ↦ absurd (omega (arith, (eqb_iff i reg.id).0 h, l, b))
      | inr h ↦ rw h (
        IsFresh-insert c reg reg.id r (λ same. omega (arith, same, e, l, b)) (λ same. u (sym same))
            f,
        IsDistinct-insert reg n r l k us d,
      )
    ]

-- A runtime that leaves the identifier and the name alone.
abbrev pub KeepsNames : (Registration → Option Registration) → Type 0
KeepsNames runtime =
    (reg filled : Registration)
    → runtime reg ≡ some filled
    → (filled.id ≡ reg.id) × (filled.name ≡ reg.name)

-- What a step that adds a challenge of this name leaves, when it succeeds.
abbrev pub IsAdded : Text → Registered → Option CreateError × Registered → Type 0
IsAdded name s (some err, after) = Unit
IsAdded name s (none, after) =
    IsDistinct after.register
    × ((other : Text) → name ≢ other → IsUnused other s.register → IsUnused other after.register)

identifier_unused :
    (name : Text) (s : Registered)
    → IsUnused name s.register
    → identifier name s ≡ (s.counter + 1, s.counter + 1)
unfolding identifier
identifier_unused name s unused = rw (identifier, get_by_name_unused name s.register unused) refl

fill-IsAdded :
    (runtime : Registration → Option Registration) (reg : Registration) (s : Registered)
    → KeepsNames runtime
    → IsUnused reg.name s.register
    → IsNumbered s
    → IsDistinct s.register
    → IsAdded reg.name s (fill runtime reg s)
unfolding fill
fill-IsAdded runtime reg s keeps unused numbered distinct =
    rw (fill, identifier_unused reg.name s unused)
      (option_cases (λ (r : Option CreateError × Registered). IsAdded reg.name s r)
        (runtime (record reg { id = s.counter + 1 })) _ _ (λ e. tt)
        (λ filled e.
          let (same_id, same_name) = keeps (record reg { id = s.counter + 1 }) filled e in
          (
            IsDistinct-insert filled s.counter s.register (omega (arith, same_id)) numbered
                (rw same_name unused) distinct,
            λ other apart u.
                IsUnused-insert other filled filled.id s.register
                  (λ same. apart (sym same_name ∙ same)) u,
          )))

pub create-IsAdded :
    (runtime : Registration → Option Registration) (url_path name : Text) (pol : PolicyChallenge)
    (s : Registered)
    → KeepsNames runtime
    → IsUnused name s.register
    → IsNumbered s
    → IsDistinct s.register
    → IsAdded name s (create (some runtime) url_path name pol s)
unfolding create new_registration
create-IsAdded runtime url_path name pol s keeps unused numbered distinct =
    option_keeps (λ (r : Option CreateError × Registered). IsAdded name s r) pol.conditions _ _
      (fill-IsAdded runtime (new_registration url_path name pol none) s keeps unused numbered
        distinct)
      (λ compiled.
        option_keeps (λ (r : Option CreateError × Registered). IsAdded name s r) compiled _ _ tt
          (λ program.
            fill-IsAdded runtime (new_registration url_path name pol (some program)) s keeps unused
              numbered distinct))
