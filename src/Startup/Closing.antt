-- ===== src/Startup/Closing.antt =====
-- Close of lib/state.go, and setupRoutes of lib/http.go.
use wpoven_nobot.Base.{
  nat_equality, if◌then◌else◌, Bool-cases, Text, ascii, ℕ, ◌≡◌, refl, inl, inr, Bool, true, false,
  Option, none, some, List, [], ◌∷◌, ◌++◌,
}
use wpoven_nobot.Challenge.Registration.{Registration, Register, State}

-- the state's channel `close`, whether it is closed, and the objects of challenges that Close was
-- called on, the last one first
pub record Closing : Type 0 where
  pub channel_closed : Bool
  pub closed_objects : List ℕ

-- the loop over the challenges, each with its object if it has one; `closes` says which objects close
-- without an error, and the answer whether all of them did
unfoldable pub close_objects : (ℕ → Bool) → List (Option ℕ) → List ℕ → Bool × List ℕ
close_objects closes [] closed = (true, closed)
close_objects closes (none ∷ objects) closed = close_objects closes objects closed
close_objects closes (some o ∷ objects) closed =
    if closes o then close_objects closes objects (o ∷ closed) else (false, o ∷ closed)

-- State.Close
unfoldable pub close_state : (ℕ → Bool) → List (Option ℕ) → Closing → Bool × Closing
unfolding close_objects
close_state closes objects s =
    let (ok, closed) = close_objects closes objects s.closed_objects in
    if s.channel_closed
    then (true, s)
    else (ok, record { channel_closed = true; closed_objects = closed })

-- A second Close calls no object again and has no error, whatever the first one met.
close_state_twice :
    (closes : ℕ → Bool) (objects : List (Option ℕ)) (s : Closing)
    → close_state closes objects (close_state closes objects s).1
      ≡ (true, (close_state closes objects s).1)
unfolding close_state
close_state_twice closes objects s = elim (Bool-cases s.channel_closed) [
  | inl e ↦ rw e refl
  | inr e ↦ rw e refl
]

pub data RouteTarget : Type 0 where
  route_requests route_assets : RouteTarget
  route_handler route_verify : Registration → RouteTarget

-- the loop over the challenges; `has_handler` says which of them have a handler of their own
unfoldable pub challenge_routes : (Registration → Bool) → Register → List (Text × RouteTarget)
challenge_routes has_handler [] = []
challenge_routes has_handler ((id, reg) ∷ r) =
    let rest = challenge_routes has_handler r in
    if has_handler reg then (reg.path ++ ascii "/", route_handler reg) ∷ rest else elim reg.verify [
      | none ↦ rest
      | some v ↦ (reg.path ++ ascii "/verify-challenge", route_verify reg) ∷ rest
    ]

-- setupRoutes: the patterns of the state's ServeMux
unfoldable pub setup_routes : (Registration → Bool) → State → List (Text × RouteTarget)
unfolding challenge_routes
setup_routes has_handler state =
    (ascii "/", route_requests)
    ∷ (ascii "GET " ++ state.url_path ++ ascii "/assets/", route_assets)
    ∷ challenge_routes has_handler state.challenges
