-- ===== src/Server/Serving.antt =====
-- The rules and handleRequest of lib/http.go keep the promise of Server/Private.
use wpoven_nobot.Rule.{nil, cons, outcome_of}
use wpoven_nobot.Server.Handlers.{
  HandlerKeeps, IsPrivateDone, error_page_keeps, top_done-IsPrivateDone, IsKeeping,
  rule_done-IsPrivateDone, handle_pass_keeps, handle_keeps,
}
use wpoven_nobot.Action.{Done, Handled, next, stop, failed}
use wpoven_nobot.Rule.{RuleState, rule, Rules, wrapped, and_next, evaluate, evaluate_children}
use wpoven_nobot.Server.{
  name_of, action_of, evaluate_rules, default_pass, finish, handle_request, top_done,
}
use wpoven_nobot.Server.Private.{IsClean, IsCleanResult, emit-IsClean}
use wpoven_nobot.Challenge.State.{error_page}
use wpoven_nobot.Challenge.World.{
  pass_action, rule_hit, action_hit, panicked, World, emit, rule_miss, http_error,
}
use wpoven_nobot.Challenge.Registration.{State, get_backend}
use wpoven_nobot.Base.{Text, ascii, ℕ, true, false, option_keeps}
use wpoven_nobot.Challenge.Types.{Outcome, eval_error, eval_nil, eval_other, eval_bool}

unfoldable mutual
  -- The challenges of the rule and of its children issue nothing that is not private.
  pub RuleKeeps : RuleState → Type 0
  RuleKeeps (rule name hash condition action handler children) =
      HandlerKeeps handler × RulesKeep children

  pub RulesKeep : Rules → Type 0
  RulesKeep nil = Unit
  RulesKeep (cons r rules) = RuleKeeps r × RulesKeep rules

and_next_keeps :
    (r : Handled) (f : World → Handled)
    → IsCleanResult r
    → IsKeeping f
    → IsCleanResult (and_next r f)
and_next_keeps (next w) f h k = k w h
and_next_keeps (stop w) f h k = h
and_next_keeps (failed e w) f h k = h

wrapped_keeps : (hash : Text) (r : Handled) → IsCleanResult r → IsCleanResult (wrapped hash r)
wrapped_keeps hash (next w) h = h
wrapped_keeps hash (stop w) h = h
wrapped_keeps hash (failed e w) h = h

outcome_keeps :
    (o : Outcome) (error absent miss hit : Handled)
    → IsCleanResult error
    → IsCleanResult absent
    → IsCleanResult miss
    → IsCleanResult hit
    → IsCleanResult (elim o as (λ x. Handled) [
      | eval_error ↦ error
      | eval_other ↦ error
      | eval_nil ↦ absent
      | eval_bool b ↦ elim b as (λ x. Handled) [ false ↦ miss | true ↦ hit ]
    ])
outcome_keeps eval_error error absent miss hit e a m h = e
outcome_keeps eval_other error absent miss hit e a m h = e
outcome_keeps eval_nil error absent miss hit e a m h = a
outcome_keeps (eval_bool true) error absent miss hit e a m h = h
outcome_keeps (eval_bool false) error absent miss hit e a m h = m

mutual
  unfolding evaluate evaluate_children RuleKeeps RulesKeep

  evaluate_keeps :
      (state : State) (r : RuleState) (done : Done)
      → RuleKeeps r
      → IsPrivateDone done
      → IsKeeping (evaluate state r done)
  evaluate_keeps state (rule name hash condition action handler children) done (k, ks) d w h =
      let hit = rule_hit name in
      outcome_keeps (outcome_of condition w) _ _ _ _ h h (emit-IsClean (rule_miss name) w tt h) (
        wrapped_keeps hash _ (
          and_next_keeps _ _
            (handle_keeps state handler _ k (rule_done-IsPrivateDone name hash action done d)
              (emit (action_hit action) (emit hit w))
              (emit-IsClean (action_hit action) (emit hit w) tt (emit-IsClean hit w tt h)))
            (evaluate_children_keeps state children done ks d)))

  evaluate_children_keeps :
      (state : State) (rules : Rules) (done : Done)
      → RulesKeep rules
      → IsPrivateDone done
      → IsKeeping (evaluate_children state rules done)
  evaluate_children_keeps state nil done k d w h = h
  evaluate_children_keeps state (cons r rules) done (k, ks) d w h =
      and_next_keeps (evaluate state r done w) _ (evaluate_keeps state r done k d w h)
        (evaluate_children_keeps state rules done ks d)

evaluate_rules_keeps :
    (state : State) (host : Text) (first : ℕ) (rules : Rules)
    → RulesKeep rules
    → IsKeeping (evaluate_rules state host first rules)
unfolding evaluate_rules RulesKeep
evaluate_rules_keeps state host first nil k w h = h
evaluate_rules_keeps state host first (cons r rules) (k, ks) w h =
    and_next_keeps _ _
      (evaluate_keeps state r _ k
        (top_done-IsPrivateDone state host first true (name_of r) (action_of r)) w h)
      (evaluate_rules_keeps state host first rules ks)

default_pass_keeps :
    (state : State) (host : Text) (first : ℕ) → IsKeeping (default_pass state host first)
unfolding default_pass
default_pass_keeps state host first w h =
    let hit = rule_hit (ascii "DEFAULT") in
    handle_pass_keeps (top_done state host first false (ascii "DEFAULT") pass_action)
      (top_done-IsPrivateDone state host first false (ascii "DEFAULT") pass_action)
      (emit (action_hit pass_action) (emit hit w))
      (emit-IsClean (action_hit pass_action) (emit hit w) tt (emit-IsClean hit w tt h))

finish_keeps : (state : State) (r : Handled) → IsCleanResult r → IsClean (finish state r)
finish_keeps state (next w) h = h
finish_keeps state (stop w) h = h
finish_keeps state (failed e w) h =
    emit-IsClean panicked (error_page state 500 w) tt (error_page_keeps state 500 w h)

-- Whatever the rules do, errors and requests without a backend included: when no request that was
-- handed to a backend to be served had the program's own query parameters or cookies, and issuing a
-- challenge hands on none that has, then the same holds after handle_request. The parameters are those
-- whose names stand in the query as they are, and not in an escaped spelling; the requests by which the
-- program itself asks a backend about a client or for its tags are not among those that are served.
pub handle_request-IsClean :
    (state : State) (rules : Rules) (w : World)
    → RulesKeep rules
    → IsClean w
    → IsClean (handle_request state rules w)
unfolding handle_request
handle_request-IsClean state rules w k h =
    option_keeps IsClean (get_backend state w.request.host) _ _
      (emit-IsClean (http_error 503) w tt h)
      (λ first. finish_keeps state _ (
        and_next_keeps _ _ (evaluate_rules_keeps state w.request.host first rules k w h)
          (default_pass_keeps state w.request.host first)))
