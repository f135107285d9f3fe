-- ===== src/Rule.antt =====
-- RuleState of lib/rule.go: the tree of rules, and Evaluate.
pub mod Build
use wpoven_nobot.Mime
use wpoven_nobot.Action.{
  Done, rule_evaluation, rule_execution, Handled, next, stop, failed, Handler,
}
use wpoven_nobot.Challenge.Data.{resolve_name}
use wpoven_nobot.Challenge.Types.{Outcome, eval_error, eval_nil, eval_other, eval_bool, Program}
use wpoven_nobot.Challenge.World.{
  RuleAction, none_action, pass_action, deny_action, block_action, code_action, drop_action,
  challenge_action, check_action, proxy_action, context_action, rule_hit, rule_miss, action_hit,
  World, emit,
}
use wpoven_nobot.Challenge.Registration.{State}
use wpoven_nobot.Action.Handle.{handle}
use wpoven_nobot.Base.{Text, ascii, true, false, Option, none, some}

mutual
  -- RuleState; its children are a list of their own
  pub data RuleState : Type 0 where
    rule : Text → Text → Option Program → RuleAction → Handler → Rules → RuleState

  pub data Rules : Type 0 where
    nil : Rules
    cons : RuleState → Rules → Rules

-- `string(rule.Action)`
abbrev pub action_name : RuleAction → Text
action_name none_action = ascii "NONE"
action_name pass_action = ascii "PASS"
action_name deny_action = ascii "DENY"
action_name block_action = ascii "BLOCK"
action_name code_action = ascii "CODE"
action_name drop_action = ascii "DROP"
action_name challenge_action = ascii "CHALLENGE"
action_name check_action = ascii "CHECK"
action_name proxy_action = ascii "PROXY"
action_name context_action = ascii "CONTEXT"

abbrev pub set_request_header : Text → Text → World → World
set_request_header name value w =
    let r = w.request in record w { request = record r { header = Mime.set name value r.header } }

-- the `done` that Evaluate hands to the rule's handler
unfoldable pub rule_done : Text → Text → RuleAction → Done → Done
rule_done name hash action done w = done (
    set_request_header (ascii "X-Away-Action") (action_name action) (
      set_request_header (ascii "X-Away-Hash") hash
        (set_request_header (ascii "X-Away-Rule") name w)))

-- no condition reads as true
abbrev pub outcome_of : Option Program → World → Outcome
outcome_of none w = eval_bool true
outcome_of (some program) w = program (resolve_name w)

-- errors of a child carry the parent's hash too
abbrev pub wrapped : Text → Handled → Handled
wrapped hash (failed e w) = failed (rule_execution hash e) w
wrapped hash (next w) = next w
wrapped hash (stop w) = stop w

-- what follows only if the step says to continue
abbrev pub and_next : Handled → (World → Handled) → Handled
and_next (next w) f = f w
and_next (stop w) f = stop w
and_next (failed e w) f = failed e w

unfoldable mutual
  -- RuleState.Evaluate
  pub evaluate : State → RuleState → Done → World → Handled
  evaluate state (rule name hash condition action handler children) done w =
      elim (outcome_of condition w) [
        | eval_error ↦ failed (rule_evaluation hash) w
        | eval_other ↦ failed (rule_evaluation hash) w
        | eval_nil ↦ next w
        | eval_bool b ↦ elim b [
          | false ↦ next (emit (rule_miss name) w)
          | true ↦ wrapped hash (
              and_next
                (handle state handler (rule_done name hash action done)
                  (emit (action_hit action) (emit (rule_hit name) w)))
                (evaluate_children state children done))
        ]
      ]

  -- the loop over the children
  pub evaluate_children : State → Rules → Done → World → Handled
  evaluate_children state nil done w = next w
  evaluate_children state (cons child children) done w =
      and_next (evaluate state child done w) (evaluate_children state children done)
