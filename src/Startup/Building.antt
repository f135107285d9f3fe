-- ===== src/Startup/Building.antt =====
-- The rest of NewState of lib/state.go: the key, the conditions of a policy, its challenges and its
-- rules, of which each can end it with an error. The template of the pages, the routes, the country
-- database and the connection to the whois server are left out.
pub mod Adding
pub mod Distinct
use wpoven_nobot.Base.{
  text_equality, eqb, if◌then◌else◌, length, is_empty, Text, ascii, ℕ, Option, none, some, List, [],
  ◌∷◌, ◌++◌,
}
use wpoven_nobot.Rule.{Rules}
use wpoven_nobot.Policy.Networks.{◌>>=◌}
use wpoven_nobot.Startup.Conditions.{OutputType, bool_output, Ast}
use wpoven_nobot.Challenge.Create.{Registered, PolicyChallenge, create, CreateError}
use wpoven_nobot.Challenge.Registration.{Registration, State}
use wpoven_nobot.Rule.Build.{PolicyRules, BuiltRule, made, broken, new_rule_states}

-- NewKeyFromSeed of the package ed25519 where there is a seed, else its GenerateKey
unfoldable pub choose_key : (Text → Text) → Option Text → Text → Option Text
choose_key new_key_from_seed generate_key seed =
    if is_empty seed
    then generate_key
    else if eqb (length seed) 32
    then some (new_key_from_seed seed)
    else none

-- the two texts that a named condition adds to the replacer: a reference to it, and what it stands for
abbrev replacement : Text → Text → List Text
replacement name cond = (ascii "($" ++ name ++ ascii ")") ∷ (ascii "(" ++ cond ++ ascii ")") ∷ []

-- a condition whose output is no bool is an error
abbrev bool_only : Ast → OutputType → Option Ast
bool_only tree bool_output = some tree
bool_only tree _ = none

-- the loop over the conditions; NewAst of the package http-cel gives an expression and its output, or
-- an error, and AstToString the text of an expression
unfoldable pub compile_conditions :
    (List Text → Option Ast) → (Ast → Option Text) → List (Text × List Text) → Option (List Text)
compile_conditions new_ast ast_to_string [] = some []
compile_conditions new_ast ast_to_string ((name, entries) ∷ conditions) =
    let rest = compile_conditions new_ast ast_to_string conditions in
    new_ast entries >>= λ tree. bool_only tree tree.output >>= λ out.
    ast_to_string out >>= λ cond. rest >>= λ texts. some (replacement name cond ++ texts)

-- a challenge of a policy, with the entry of Runtimes for it
pub record ChallengeEntry : Type 0 where
  pub name : Text
  pub runtime : Option (Registration → Option Registration)
  pub challenge : PolicyChallenge

abbrev pub created : Option CreateError × Registered → Option Registered
created (some err, s) = none
created (none, s) = some s

-- the loop over the challenges, which ends at the first error
unfoldable pub create_challenges : Text → List ChallengeEntry → Registered → Option Registered
create_challenges url_path [] s = some s
create_challenges url_path (c ∷ cs) s =
    created (create c.runtime url_path c.name c.challenge s) >>= create_challenges url_path cs

-- What NewState is given: a policy, whose challenges and rules have their conditions compiled with
-- the replacements, the settings and what it calls of other libraries.
pub record Setup : Type 0 where
  pub base : State
  pub seed : Text
  pub new_key_from_seed : Text → Text
  pub generate_key : Option Text
  pub new_ast : List Text → Option Ast
  pub ast_to_string : Ast → Option Text
  pub conditions : List (Text × List Text)
  pub challenges : List Text → List ChallengeEntry
  pub rules : List Text → PolicyRules
  pub counter : ℕ

abbrev pub made_rules : State → BuiltRule Rules → Option (State × Rules)
made_rules state (broken err) = none
made_rules state (made rules) = some (state, rules)

-- NewState
unfoldable pub new_state : Setup → Option (State × Rules)
unfolding create_challenges choose_key
new_state u = choose_key u.new_key_from_seed u.generate_key u.seed >>= λ key.
    compile_conditions u.new_ast u.ast_to_string u.conditions >>= λ replacements.
    create_challenges u.base.url_path (u.challenges replacements)
      (record { register = []; counter = u.counter })
    >>= λ created.
        let state = record u.base { private_key = key; challenges = created.register } in
        made_rules state (new_rule_states state none (u.rules replacements))
