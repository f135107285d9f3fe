-- ===== src/Rule/Build.antt =====
-- NewRuleState of lib/rule.go: the tree of rules of a policy becomes a tree of rule states.
use wpoven_nobot.Hex
use wpoven_nobot.Action.{Handler}
use wpoven_nobot.Rule.{RuleState, rule, Rules}
use wpoven_nobot.Challenge.Types.{Program}
use wpoven_nobot.Challenge.World.{RuleAction}
use wpoven_nobot.Challenge.Registration.{State}
use wpoven_nobot.Action.Build.{
  ActionSettings, BuildError, Built, built, build_failed, new_handler, rule_action,
}
use wpoven_nobot.Base.{take, Text, Option, none, some, [], ◌∷◌, ◌++◌}

mutual
  -- policy.Rule; its conditions are none, or what RegisterCondition makes of them
  pub data PolicyRule : Type 0 where
    policy_rule : Text → Option (Option Program) → Text → ActionSettings → PolicyRules → PolicyRule

  pub data PolicyRules : Type 0 where
    nil : PolicyRules
    cons : PolicyRule → PolicyRules → PolicyRules

pub data RuleError : Type 0 where
  unknown_rule_action condition_error : RuleError
  handler_error : BuildError → RuleError

pub data BuiltRule {ℓ} (A : Type ℓ) : Type ℓ where
  made : A → BuiltRule A
  broken : RuleError → BuiltRule A

-- the name below a parent
abbrev pub full_name : Option Text → Text → Text
full_name none name = name
full_name (some parent) name = parent ++ b'/' ∷ name

abbrev hash_text : Option Text → Text
hash_text none = []
hash_text (some parent) = parent ++ 0 ∷ []

-- the rule's Hash: ten bytes in hexadecimal
unfoldable pub rule_hash : State → Option Text → Text → Text
rule_hash state parent name = Hex.encode (
    take 10 (
      state.sha256
        (hash_text parent ++ full_name parent name ++ 0 ∷ state.sha256 state.private_key)))

abbrev with_children :
    Text → Text → Option Program → RuleAction → Handler → BuiltRule Rules → BuiltRule RuleState
with_children name hash condition action handler (broken e) = broken e
with_children name hash condition action handler (made children) =
    made (rule name hash condition action handler children)

-- the condition, behind the handler and before the children
abbrev with_condition :
    Text
    → Text
    → Option (Option Program)
    → RuleAction
    → Handler
    → BuiltRule Rules
    → BuiltRule RuleState
with_condition name hash none action handler children =
    with_children name hash none action handler children
with_condition name hash (some none) action handler children = broken condition_error
with_condition name hash (some (some program)) action handler children =
    with_children name hash (some program) action handler children

abbrev with_handler :
    Text
    → Text
    → Option (Option Program)
    → RuleAction
    → Built
    → BuiltRule Rules
    → BuiltRule RuleState
with_handler name hash conditions action (build_failed e) children = broken (handler_error e)
with_handler name hash conditions action (built handler) children =
    with_condition name hash conditions action handler children

abbrev with_action :
    State
    → Text
    → Text
    → Option (Option Program)
    → Option RuleAction
    → ActionSettings
    → BuiltRule Rules
    → BuiltRule RuleState
with_action state name hash conditions none opts children = broken unknown_rule_action
with_action state name hash conditions (some action) opts children =
    with_handler name hash conditions action (new_handler state hash opts action) children

abbrev add_rule : BuiltRule RuleState → BuiltRule Rules → BuiltRule Rules
add_rule (broken e) rest = broken e
add_rule (made r) (broken e) = broken e
add_rule (made r) (made rs) = made (Rules.cons r rs)

unfoldable mutual
  -- NewRuleState
  pub new_rule_state : State → Option Text → PolicyRule → BuiltRule RuleState
  new_rule_state state parent (policy_rule name conditions action opts children) =
      with_action state (full_name parent name) (rule_hash state parent name) conditions
        (rule_action action) opts (new_rule_states state (some (full_name parent name)) children)

  -- the loop over the children, and over the rules of a policy
  pub new_rule_states : State → Option Text → PolicyRules → BuiltRule Rules
  new_rule_states state parent nil = made Rules.nil
  new_rule_states state parent (cons r rs) =
      add_rule (new_rule_state state parent r) (new_rule_states state parent rs)
