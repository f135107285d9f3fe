-- ===== src/Challenge/Token/Loop.antt =====
-- The loop of EvaluateChallenges, against the verdict on each registration by itself.
use wpoven_nobot.Base.{
  nat_equality, text_equality, All, Text, lookup, lookup-insert_self, ◌≡◌, sym, ◌≢◌, some, [], ◌∷◌,
  arith, eqb_iff, lookup-insert,
}
use wpoven_nobot.Challenge.Token.{
  Draw, Verdict, verify_challenge, evaluate_challenge, evaluate_each, cleared, record_verdict,
}
use wpoven_nobot.Challenge.Data.{clear_challenge_token}
use wpoven_nobot.Challenge.World.{RequestData, World}
use wpoven_nobot.Challenge.Registration.{Key, Registration, Register, State}
use wpoven_nobot.Challenge.Token.Frame.{verdict, verdict_same, evaluate_challenge-IsSameFor}
use mathlib.Core.Path.{subst}

-- No registration of the list has this identifier, or this name.
abbrev pub IsFresh : Registration → Register → Type 0
IsFresh reg regs = All (λ e. (e.1.id ≢ reg.id) × (e.1.name ≢ reg.name)) regs

-- Identifiers and names tell the registrations apart.
abbrev pub IsDistinct : Register → Type 0
IsDistinct [] = Unit
IsDistinct (e ∷ regs) = IsFresh e.1 regs × IsDistinct regs

-- What the maps of the request hold for a registration.
abbrev pub Holds : RequestData → Registration → Verdict → Type 0
Holds d reg v =
    (lookup reg.id d.challenge_verify ≡ some v.0) × (lookup reg.id d.challenge_state ≡ some v.1)

evaluate_challenge-Holds :
    (state : State) (draws : Text → Draw) (reg : Registration) (w : World)
    → Holds (evaluate_challenge state draws reg w).request_data reg (verdict state draws reg w)
unfolding evaluate_challenge verdict
evaluate_challenge-Holds state draws reg w =
    (lookup-insert_self reg.id _ _, lookup-insert_self reg.id _ _)

verify_challenge_maps :
    (reg : Registration) (key : Key) (draw : Draw) (w : World)
    → ((verify_challenge reg key draw w).1.request_data.challenge_verify
        ≡ w.request_data.challenge_verify)
      × ((verify_challenge reg key draw w).1.request_data.challenge_state
          ≡ w.request_data.challenge_state)
unfolding verify_challenge clear_challenge_token
verify_challenge_maps reg key draw w = ground arith

record_verdict_keeps :
    (reg other : Registration) (v u : Verdict) (d d' : RequestData)
    → reg.id ≢ other.id
    → d'.challenge_verify ≡ d.challenge_verify
    → d'.challenge_state ≡ d.challenge_state
    → Holds d other v
    → Holds (record_verdict reg.id u (cleared u.2 reg.name d')) other v
unfolding clear_challenge_token
record_verdict_keeps reg other v u d d' ne same_verify same_state h = ground (
  arith,
  eqb_iff reg.id other.id,
  lookup-insert reg.id other.id u.0 d'.challenge_verify,
  lookup-insert reg.id other.id u.1 d'.challenge_state,
)

-- A round keeps what the maps hold for another identifier.
evaluate_challenge_keeps :
    (state : State) (draws : Text → Draw) (reg other : Registration) (w : World) (v : Verdict)
    → reg.id ≢ other.id
    → Holds w.request_data other v
    → Holds (evaluate_challenge state draws reg w).request_data other v
unfolding evaluate_challenge
evaluate_challenge_keeps state draws reg other w v ne h =
    let (same_verify, same_state) = verify_challenge_maps reg _ _ w in
    record_verdict_keeps reg other v _ w.request_data _ ne same_verify same_state h

evaluate_each_keeps :
    (state : State) (draws : Text → Draw) (regs : Register) (other : Registration) (w : World)
    (v : Verdict)
    → IsFresh other regs
    → Holds w.request_data other v
    → Holds (evaluate_each state draws regs w).request_data other v
unfolding evaluate_each
evaluate_each_keeps state draws [] other w v f h = h
evaluate_each_keeps state draws ((i, reg) ∷ regs) other w v ((ne, _), f) h =
    evaluate_each_keeps state draws regs other _ v f
      (evaluate_challenge_keeps state draws reg other w v ne h)

-- Verdicts on the later registrations do not depend on the round before.
later_verdicts :
    (state : State) (draws : Text → Draw) (reg : Registration) (regs : Register) (w : World)
    (d : RequestData)
    → IsFresh reg regs
    → All (λ e. Holds d e.1 (verdict state draws e.1 (evaluate_challenge state draws reg w))) regs
    → All (λ e. Holds d e.1 (verdict state draws e.1 w)) regs
later_verdicts state draws reg [] w d f h = tt
later_verdicts state draws reg ((i, r) ∷ regs) w d ((_, ne), f) (h, hs) =
    let same =
      verdict_same state draws r w _
        (evaluate_challenge-IsSameFor state draws reg r.name w (λ e. ne (sym e))) in
    (subst (Holds d r) same h, later_verdicts state draws reg regs w d f hs)

-- Whatever the order of the registrations, each gets the verdict of the tokens at the start.
pub evaluate_each-Holds :
    (state : State) (draws : Text → Draw) (regs : Register) (w : World)
    → IsDistinct regs
    → All
        (λ e. Holds (evaluate_each state draws regs w).request_data e.1 (verdict state draws e.1 w))
        regs
unfolding evaluate_each
evaluate_each-Holds state draws [] w h = tt
evaluate_each-Holds state draws ((i, reg) ∷ regs) w (f, h) =
    let w' = evaluate_challenge state draws reg w in
    (
      evaluate_each_keeps state draws regs reg w' (verdict state draws reg w) f
          (evaluate_challenge-Holds state draws reg w),
      later_verdicts state draws reg regs w (evaluate_each state draws regs w').request_data f
          (evaluate_each-Holds state draws regs w' h),
    )
