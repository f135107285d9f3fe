-- ===== src/Action/Build.antt =====
-- The NewFunc of each action, in the files of lib/action: from decoded settings to a handler.
use wpoven_nobot.Base.{
  text_equality, eqb, if◌then◌else◌, Text, ascii, ◌==◌, ℕ, Bool, true, false, Option, none, some,
  List, [], ◌∷◌,
}
use wpoven_nobot.Action.{
  ContextSettings, Handler, none_handler, pass_handler, drop_handler, deny_handler, block_handler,
  code_handler, context_handler, proxy_handler, challenge_handler,
}
use wpoven_nobot.Text.{to_upper}
use wpoven_nobot.Challenge.World.{
  RuleAction, none_action, deny_action, block_action, code_action, drop_action, challenge_action,
  check_action, proxy_action, context_action, pass_action,
}
use wpoven_nobot.Challenge.Registration.{Registration, State, get_by_name}

-- What the YAML settings of a rule decode to. Settings of another action decode to its defaults.
pub data ActionSettings : Type 0 where
  no_settings : ActionSettings
  code_settings : ℕ → ActionSettings
  context_settings : ContextSettings → ActionSettings
  proxy_settings : Option (Text → Text) → Text → ActionSettings
  challenge_settings :
      (code : ℕ) (names : List Text) (pass_name fail_name : Text)
      → ActionSettings
      → ActionSettings
      → ActionSettings

pub data BuildError : Type 0 where
  unknown_action challenge_not_found no_challenges code_not_set : BuildError

pub data Built : Type 0 where
  built : Handler → Built
  build_failed : BuildError → Built

-- `policy.RuleAction(strings.ToUpper(name))`, where it is a key of Register
unfoldable pub rule_action : Text → Option RuleAction
rule_action name =
    let s = to_upper name in
    if s == ascii "NONE"
    then some none_action
    else if s == ascii "PASS"
    then some pass_action
    else if s == ascii "DENY"
    then some deny_action
    else if s == ascii "BLOCK"
    then some block_action
    else if s == ascii "CODE"
    then some code_action
    else if s == ascii "DROP"
    then some drop_action
    else if s == ascii "CHALLENGE"
    then some challenge_action
    else if s == ascii "CHECK"
    then some check_action
    else if s == ascii "PROXY"
    then some proxy_action
    else if s == ascii "CONTEXT"
    then some context_action
    else none

-- the loop over the names of challenges; `none` is a name that is not registered
unfoldable pub find_challenges : State → List Text → Option (List Registration)
find_challenges state [] = some []
find_challenges state (name ∷ names) =
    let rest = find_challenges state names in
    elim (get_by_name name state.challenges) [
      | none ↦ none
      | some (reg, _) ↦ elim rest [ none ↦ none | some regs ↦ some (reg ∷ regs) ]
    ]

-- the end of the constructor of challenges, with the handlers for a pass and a failure
abbrev assemble :
    State
    → ℕ
    → Bool
    → List Registration
    → Option RuleAction
    → Option RuleAction
    → (RuleAction → Built)
    → (RuleAction → Built)
    → Built
assemble state code continue [] p f pass fail = build_failed no_challenges
assemble state code continue (reg ∷ regs) none f pass fail = build_failed unknown_action
assemble state code continue (reg ∷ regs) (some p) f pass fail = elim (pass p) [
  | build_failed e ↦ build_failed e
  | built on_pass ↦ elim f [
    | none ↦ build_failed unknown_action
    | some f' ↦ elim (fail f') [
      | build_failed e ↦ build_failed e
      | built on_fail ↦ built (
          challenge_handler
            (record {
              code = if eqb code 0 then state.settings.challenge_response_code else code;
              continue = continue;
              challenges = reg ∷ regs;
              pass_action = p;
              fail_action = f';
            })
            on_pass on_fail)
    ]
  ]
]

abbrev assemble_found :
    State
    → ℕ
    → Bool
    → Option (List Registration)
    → Option RuleAction
    → Option RuleAction
    → (RuleAction → Built)
    → (RuleAction → Built)
    → Built
assemble_found state code continue none p f pass fail = build_failed challenge_not_found
assemble_found state code continue (some regs) p f pass fail =
    assemble state code continue regs p f pass fail

-- the constructor `i` of lib/action/challenge.go
abbrev new_challenge :
    State → Bool → ℕ → List Text → Text → Text → (RuleAction → Built) → (RuleAction → Built) → Built
new_challenge state continue code names p f pass fail =
    assemble_found state code continue (find_challenges state names) (rule_action p) (rule_action f)
      pass fail

abbrev new_plain : Text → RuleAction → Built
new_plain hash none_action = built none_handler
new_plain hash pass_action = built pass_handler
new_plain hash drop_action = built drop_handler
new_plain hash deny_action = built (deny_handler 403 hash)
new_plain hash block_action = built (block_handler 403 hash)
new_plain hash code_action = build_failed code_not_set
new_plain hash challenge_action = build_failed no_challenges
new_plain hash check_action = build_failed no_challenges
new_plain hash proxy_action = built (proxy_handler none [])
new_plain hash context_action =
    built
      (context_handler (record { context_set = []; response_headers = []; request_headers = [] }))

abbrev new_code : Text → ℕ → RuleAction → Built
new_code hash code code_action =
    if eqb code 0 then build_failed code_not_set else built (code_handler code)
new_code hash code action = new_plain hash action

abbrev new_context : Text → ContextSettings → RuleAction → Built
new_context hash opts context_action = built (context_handler opts)
new_context hash opts action = new_plain hash action

abbrev new_proxy : Text → Option (Text → Text) → Text → RuleAction → Built
new_proxy hash rewrite name proxy_action = built (proxy_handler rewrite name)
new_proxy hash rewrite name action = new_plain hash action

-- `action.Register[action](state, name, hash, settings)`
unfoldable pub new_handler : State → Text → ActionSettings → RuleAction → Built
unfolding find_challenges rule_action
new_handler state hash no_settings action = new_plain hash action
new_handler state hash (code_settings code) action = new_code hash code action
new_handler state hash (context_settings opts) action = new_context hash opts action
new_handler state hash (proxy_settings rewrite name) action = new_proxy hash rewrite name action
new_handler state hash (challenge_settings code names p f ps fs) challenge_action =
    new_challenge state false code names p f (new_handler state hash ps) (new_handler state hash fs)
new_handler state hash (challenge_settings code names p f ps fs) check_action =
    new_challenge state true code names p f (new_handler state hash ps) (new_handler state hash fs)
new_handler state hash (challenge_settings code names p f ps fs) action = new_plain hash action
