-- ===== src/Challenge/Create/Numbered.antt =====
-- The identifiers that Create of lib/challenge/register.go gives.
use wpoven_nobot.Base.{
  nat_equality, text_equality, Bool-cases, All, Text, ◌==◌, insert, ℕ, ◌≤◌, ◌≡◌, refl, inl, inr,
  Option, some, [], ◌∷◌, arith, option_cases, option_keeps, none,
}
use wpoven_nobot.Challenge.Create.{
  Registered, create, fill, identifier, PolicyChallenge, CreateError, new_registration,
}
use wpoven_nobot.Challenge.Registration.{get_by_name, Registration, Register}

-- Each entry stands under its registration's own identifier, which was given before.
abbrev pub IsNumbered : Registered → Type 0
IsNumbered s = All (λ p. (p.0 ≡ p.1.id) × p.0 ≤ s.counter) s.register

-- A runtime that leaves the identifier alone.
abbrev pub KeepsId : (Registration → Option Registration) → Type 0
KeepsId runtime = (reg filled : Registration) → runtime reg ≡ some filled → filled.id ≡ reg.id

numbered_mono :
    (m n : ℕ) (r : Register)
    → m ≤ n
    → All (λ p. (p.0 ≡ p.1.id) × p.0 ≤ m) r
    → All (λ p. (p.0 ≡ p.1.id) × p.0 ≤ n) r
numbered_mono m n [] h k = tt
numbered_mono m n (p ∷ r) h ((e, l), k) = ((e, omega arith), numbered_mono m n r h k)

numbered_insert :
    (n : ℕ) (reg : Registration) (r : Register)
    → reg.id ≤ n
    → All (λ p. (p.0 ≡ p.1.id) × p.0 ≤ n) r
    → All (λ p. (p.0 ≡ p.1.id) × p.0 ≤ n) (insert reg.id reg r)
numbered_insert n reg [] h k = ((refl, h), tt)
numbered_insert n reg ((id, c) ∷ r) h (k, ks) = elim (Bool-cases (id == reg.id)) [
  | inl e ↦ rw e ((refl, h), ks)
  | inr e ↦ rw e (k, numbered_insert n reg r h ks)
]

get_by_name_bound :
    (name : Text) (n : ℕ) (r : Register) (c : Registration) (id : ℕ)
    → All (λ p. (p.0 ≡ p.1.id) × p.0 ≤ n) r
    → get_by_name name r ≡ some (c, id)
    → id ≤ n
unfolding get_by_name
get_by_name_bound name n [] c id k e = ground arith
get_by_name_bound name n ((i, d) ∷ r) c id (k, ks) e =
    ground (arith, get_by_name_bound name n r c id ks)

identifier_bounds :
    (name : Text) (s : Registered)
    → IsNumbered s
    → (identifier name s).0 ≤ (identifier name s).1 × s.counter ≤ (identifier name s).1
unfolding identifier
identifier_bounds name s k =
    option_cases (λ (p : ℕ × ℕ). p.0 ≤ p.1 × s.counter ≤ p.1) (get_by_name name s.register) _ _
      (λ e. (omega arith, omega arith))
      (λ found e. (get_by_name_bound name s.counter s.register found.0 found.1 k e, omega arith))

fill-IsNumbered :
    (runtime : Registration → Option Registration) (reg : Registration) (s : Registered)
    → KeepsId runtime
    → IsNumbered s
    → IsNumbered (fill runtime reg s).1
unfolding fill
fill-IsNumbered runtime reg s kr k =
    let (id, counter) = identifier reg.name s in
    let (given, more) = identifier_bounds reg.name s k in
    let grown = numbered_mono s.counter counter s.register more k in
    option_cases (λ (r : Option CreateError × Registered). IsNumbered r.1)
      (runtime (record reg { id = id })) _ _ (λ e. grown)
      (λ filled e.
        numbered_insert counter filled s.register
          (omega (arith, kr (record reg { id = id }) filled e)) grown)

-- Creating a challenge keeps every entry of the register under its registration's identifier, and
-- every identifier at most the counter, whether it succeeds or not, when the runtime leaves the
-- identifier alone that it is given.
pub create-IsNumbered :
    (runtime : Registration → Option Registration) (url_path name : Text) (pol : PolicyChallenge)
    (s : Registered)
    → KeepsId runtime
    → IsNumbered s
    → IsNumbered (create (some runtime) url_path name pol s).1
unfolding create
create-IsNumbered runtime url_path name pol s kr k =
    option_keeps (λ (r : Option CreateError × Registered). IsNumbered r.1) pol.conditions _ _
      (fill-IsNumbered runtime (new_registration url_path name pol none) s kr k)
      (λ compiled.
        option_keeps (λ (r : Option CreateError × Registered). IsNumbered r.1) compiled _ _ k
          (λ program.
            fill-IsNumbered runtime (new_registration url_path name pol (some program)) s kr k))
