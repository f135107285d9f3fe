-- ===== src/Action/Handle/Solved.antt =====
-- Who passes a CHALLENGE or CHECK action of lib/action/challenge.go.
use wpoven_nobot.Base.{
  Bool, true, if◌then◌else◌, nat_equality, All, ◌≡◌, refl, ◌≢◌, ◌⊎◌, inl, inr, false, none, List,
  [], ◌∷◌, Any, Text,
}
use wpoven_nobot.Action.{Handled, stop, ChallengeAction}
use wpoven_nobot.Challenge.Data.{has_valid_challenge}
use wpoven_nobot.Challenge.Types.{
  VerifyResult, result_none, result_fail, result_skip, result_not_ok, result_ok,
}
use wpoven_nobot.Challenge.World.{RequestData, challenge_failed, World, emit, action_hit}
use wpoven_nobot.Challenge.Registration.{Registration, State}
use wpoven_nobot.Action.Handle.{
  first_valid, is_skipped, issue, is_transparent, after_issue, issue_each, handle_challenge,
}
use wpoven_nobot.Startup.Conditions.{asked}

-- No challenge of the list counts as passed.
abbrev pub NoneValid : RequestData → List Registration → Type 0
NoneValid d regs = All (λ reg. has_valid_challenge reg.id d ≡ false) regs

-- Issuing none of the challenges passes it at once, whatever happened before.
abbrev pub NoneSolved : State → List Registration → Type 0
NoneSolved state regs = All (λ reg. (w : World) → (issue state reg w).0 ≢ result_ok) regs

-- What the world becomes while challenges are issued one after the other, each in the world that the
-- one before has left, and failures are put down.
pub data IsReached (state : State) (before : World) : World → Type 0 where
  not_changed : IsReached state before before
  issued_next :
      (reg : Registration) (w : World)
      → IsReached state before w
      → IsReached state before (issue state reg w).1
  failure_noted :
      (name : Text) (w : World)
      → IsReached state before w
      → IsReached state before (emit (challenge_failed name) w)

-- A blocking challenge of the list was issued and is still to be solved, and the request ends with what
-- issuing it has answered.
abbrev pub IsAsked : State → List Registration → World → Handled → Type 0
IsAsked state regs before result =
    Any
      (λ reg.
        (w : World) × IsReached state before w
        × (is_transparent reg.class ≡ false)
        × ((issue state reg w).0 ≡ result_none)
        × (result ≡ stop (issue state reg w).1))
      regs

-- The request ends with the failure handler, behind a hit of the failure action, or with the answer of
-- a challenge.
abbrev pub IsRefused :
    State → ChallengeAction → List Registration → (World → Handled) → World → Handled → Type 0
IsRefused state a regs fail before result =
    ((w : World) × IsReached state before w × (result ≡ fail (emit (action_hit a.fail_action) w)))
    ⊎ IsAsked state regs before result

IsRefused-later :
    (state : State) (a : ChallengeAction) (reg : Registration) (regs : List Registration)
    (fail : World → Handled) (before : World) (result : Handled)
    → IsRefused state a regs fail before result
    → IsRefused state a (reg ∷ regs) fail before result
IsRefused-later state a reg regs fail before result (inl f) = inl f
IsRefused-later state a reg regs fail before result (inr asked) = inr (inr asked)

first_valid-none :
    (d : RequestData) (regs : List Registration) → NoneValid d regs → first_valid d regs ≡ none
unfolding first_valid
first_valid-none d [] h = refl
first_valid-none d (reg ∷ regs) (e, h) = rw e (first_valid-none d regs h)

if-IsRefused :
    (state : State) (a : ChallengeAction) (regs : List Registration) (fail : World → Handled)
    (before : World) (test : Bool) (x y : Handled)
    → (test ≡ true → IsRefused state a regs fail before x)
    → (test ≡ false → IsRefused state a regs fail before y)
    → IsRefused state a regs fail before (if test then x else y)
if-IsRefused state a regs fail before true x y holds fails = holds refl
if-IsRefused state a regs fail before false x y holds fails = fails refl

after_issue-IsRefused :
    (state : State) (a : ChallengeAction) (pass fail : World → Handled) (reg : Registration)
    (regs : List Registration) (rest : World → Handled) (before w : World) (r : VerifyResult)
    → IsReached state before w
    → (issue state reg w).0 ≡ r
    → r ≢ result_ok
    → ((w : World) → IsReached state before w → IsRefused state a regs fail before (rest w))
    → IsRefused state a
        (reg ∷ regs)
        fail
        before
        (after_issue a pass fail reg rest r (issue state reg w).1)
after_issue-IsRefused state a pass fail reg regs rest before w result_ok q e ne h = absurd (ne refl)
after_issue-IsRefused state a pass fail reg regs rest before w result_not_ok q e ne h =
    let w' = (issue state reg w).1 in
    IsRefused-later state a reg regs fail before (rest w') (h w' (issued_next reg w q))
after_issue-IsRefused state a pass fail reg regs rest before w result_skip q e ne h =
    let w' = (issue state reg w).1 in
    IsRefused-later state a reg regs fail before (rest w') (h w' (issued_next reg w q))
after_issue-IsRefused state a pass fail reg regs rest before w result_fail q e ne h =
    let w' = emit (challenge_failed reg.name) (issue state reg w).1 in
    let q' = failure_noted reg.name (issue state reg w).1 (issued_next reg w q) in
    if-IsRefused state a (reg ∷ regs) fail before (is_transparent reg.class) (rest w')
      (fail (emit (action_hit a.fail_action) w'))
      (λ b. IsRefused-later state a reg regs fail before (rest w') (h w' q'))
      (λ b. inl (w', q', refl))
after_issue-IsRefused state a pass fail reg regs rest before w result_none q e ne h =
    let w' = (issue state reg w).1 in
    if-IsRefused state a (reg ∷ regs) fail before (is_transparent reg.class) (rest w') (stop w')
      (λ b. IsRefused-later state a reg regs fail before (rest w') (h w' (issued_next reg w q)))
      (λ b. inr (inl (w, q, b, e, refl)))

issue_each-IsRefused :
    (state : State) (a : ChallengeAction) (pass fail : World → Handled) (regs : List Registration)
    (before : World)
    → NoneSolved state regs
    → (w : World) → IsReached state before w
    → IsRefused state a regs fail before (issue_each state a pass fail regs w)
unfolding issue_each
issue_each-IsRefused state a pass fail [] before h w q = inl (w, q, refl)
issue_each-IsRefused state a pass fail (reg ∷ regs) before (ne, h) w q =
    let rest = issue_each state a pass fail regs in
    if-IsRefused state a (reg ∷ regs) fail before (is_skipped w.request_data reg) (rest w)
      (after_issue a pass fail reg rest (issue state reg w).0 (issue state reg w).1)
      (λ b.
        IsRefused-later state a reg regs fail before (rest w)
          (issue_each-IsRefused state a pass fail regs before h w q))
      (λ b.
        after_issue-IsRefused state a pass fail reg regs rest before w (issue state reg w).0 q refl
          (ne w) (issue_each-IsRefused state a pass fail regs before h))

-- Where none of the action's challenges counts as passed and issuing any of them never answers OK,
-- Handle ends as the handler for a failure does, behind a hit of the failure action, or with what one
-- of its blocking challenges answered that was issued and is still to be solved, each in a world that
-- issuing challenges has made of the given one.
pub handle_challenge-IsRefused :
    (state : State) (a : ChallengeAction) (pass fail : World → Handled) (w : World)
    → NoneValid w.request_data a.challenges
    → NoneSolved state a.challenges
    → IsRefused state a a.challenges fail w (handle_challenge state a pass fail w)
unfolding handle_challenge
handle_challenge-IsRefused state a pass fail w none_valid none_solved =
    rw (first_valid-none w.request_data a.challenges none_valid, handle_challenge)
      (issue_each-IsRefused state a pass fail a.challenges w none_solved w not_changed)
