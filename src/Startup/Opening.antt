-- ===== src/Startup/Opening.antt =====
-- NewState of lib/state.go as its caller sees it: the seed of the key that both share, the template
-- of the pages, with initTemplate of lib/template.go, and what it leaves behind where it fails.
pub mod Pages
use wpoven_nobot.Base.{
  text_equality, lookup, insert, length, eqb, if◌then◌else◌, Text, ascii, Bool, Option, none, some,
  List, [], ◌∷◌, ◌++◌,
}
use wpoven_nobot.Rule.{Rules}
use wpoven_nobot.Startup.Building.{Setup, new_state, choose_key}
use wpoven_nobot.Challenge.Registration.{State}

-- The key under which ChallengePage and ErrorPage of lib/template.go look a template up.
unfoldable pub page_name : Text → Text
page_name name = ascii "challenge-" ++ name ++ ascii ".gohtml"

-- What NewState finds outside: the files, the parser of templates, path.Base, and the database of
-- countries.
pub record Surroundings (T : Type 0) : Type 0 where
  pub read_template : Text → Option Text
  pub parse_template : Text → Text → Option T
  pub base_name : Text → Text
  pub challenge_template : Text
  pub database_opens : Bool

module _ {T : Type 0} where
  abbrev pub add_parsed : Text → List (Text × T) → Option T → Option (List (Text × T))
  add_parsed name templates none = none
  add_parsed name templates (some tpl) = some (insert name tpl templates)

  -- initTemplate: a text that does not parse changes nothing
  unfoldable pub init_template :
      Surroundings T → Text → Text → List (Text × T) → Option (List (Text × T))
  init_template env name text templates = add_parsed name templates (env.parse_template name text)

  abbrev pub with_name : Text → Option (List (Text × T)) → Option (Text × List (Text × T))
  with_name name none = none
  with_name name (some templates) = some (name, templates)

  abbrev pub from_file :
      Surroundings T → List (Text × T) → Option Text → Option (Text × List (Text × T))
  from_file env templates none = none
  from_file env templates (some []) = none
  from_file env templates (some (b ∷ text)) =
      let name = env.base_name env.challenge_template in
      with_name name (init_template env name (b ∷ text) templates)

  -- the name of the template that the state keeps, and the templates afterwards
  unfoldable pub choose_template :
      Surroundings T → List (Text × T) → Option (Text × List (Text × T))
  unfolding init_template
  choose_template env templates = elim (lookup (page_name env.challenge_template) templates) [
    | none ↦ from_file env templates (env.read_template env.challenge_template)
    | some tpl ↦ some (env.challenge_template, templates)
  ]

-- `clear(state.settings.PrivateKeySeed)`
unfoldable pub clear_bytes : Text → Text
clear_bytes [] = []
clear_bytes (b ∷ seed) = 0 ∷ clear_bytes seed

-- What NewState leaves in the seed that its settings share with the caller: the key is made before
-- anything else can fail.
unfoldable pub seed_left : Text → Text
unfolding clear_bytes
seed_left seed = if eqb (length seed) 32 then clear_bytes seed else seed

-- A server that NewState made, with the name of the template that it keeps.
pub record Opened : Type 0 where
  pub state : State
  pub rules : Rules
  pub template : Text

abbrev pub opened : Text → Option (State × Rules) → Option Opened
opened name none = none
opened name (some (state, rules)) = some (record { state = state; rules = rules; template = name })

module _ {T : Type 0} where
  abbrev pub after_template :
      Surroundings T
      → Setup
      → List (Text × T)
      → Option (Text × List (Text × T))
      → Option Opened × List (Text × T)
  after_template env u templates none = (none, templates)
  after_template env u templates (some (name, ts)) =
      (if env.database_opens then opened name (new_state u) else none, ts)

  -- NewState, with the templates afterwards, which all servers share
  unfoldable pub open_state :
      Surroundings T → Setup → List (Text × T) → Option Opened × List (Text × T)
  unfolding choose_template
  open_state env u templates = elim (choose_key u.new_key_from_seed u.generate_key u.seed) [
    | none ↦ (none, templates)
    | some key ↦ after_template env u templates (choose_template env templates)
  ]
