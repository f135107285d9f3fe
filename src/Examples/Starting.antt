-- ===== src/Examples/Starting.antt =====
-- The theorems on policies, networks and the start of a server, at examples.
use wpoven_nobot.Base.{
  text_equality, nat_equality, Text, ascii, ◌+◌, ◌*◌, ◌≡◌, refl, true, false, none, some, List, [],
  ◌∷◌, ◌++◌, arith, eqb, length, All, lookup, ℕ, Option, sym, ap,
}
use wpoven_nobot.Text.{decimal}
use wpoven_nobot.Examples.{at, example_state}
use wpoven_nobot.Time.{hour}
use wpoven_nobot.Cache.{missing, expired, directory, file, Files, Disk, dir_get, dir_set, dir_cache}
use wpoven_nobot.Policy.Radb.{trim_line, fetch_as_nets}
use wpoven_nobot.Policy.Networks.{
  IpNet, Network, Outside, parse_cidr_or_ip, parse_all, fetch_prefixes,
}
use wpoven_nobot.Policy.Radb.Routes.{stream, fetch_as_nets_replies}
use wpoven_nobot.Startup.Loading.{Loader, cache_key, use_cache, load_prefixes, load_entries}
use wpoven_nobot.Startup.Loading.Reloading.{elsewhere, load_prefixes_again}
use wpoven_nobot.Startup.Loading.Fetching.{load_entries_failing}
use wpoven_nobot.Cache.Laws.{IsCache, dir_cache-IsCache}
use wpoven_nobot.Rule.{Rules}
use wpoven_nobot.Policy.Snippets.{Policy, snippet_files, new_policy}
use wpoven_nobot.Policy.Snippets.Laws.{first_in, new_policy_lem}
use wpoven_nobot.Startup.Conditions.{
  Expr, unspecified, string_literal, ident, call_expr, no_exprs, arg, bool_output, Ast,
  register_condition, Tests, network_condition,
}
use wpoven_nobot.Startup.Building.{ChallengeEntry, Setup, new_state, compile_conditions}
use wpoven_nobot.Startup.Conditions.Preloading.{register_condition_network}
use wpoven_nobot.Startup.Conditions.Walking.{here, in_args, in_first, in_rest}
use wpoven_nobot.Startup.Building.Distinct.{IsPolicy, new_state-IsDistinct}
use wpoven_nobot.Challenge.Types.{blocking}
use wpoven_nobot.Challenge.Registration.{State, Registration}
use wpoven_nobot.Challenge.Token.Loop.{IsDistinct}
use wpoven_nobot.Startup.Building.Adding.{KeepsNames}
use wpoven_nobot.Rule.Build.{PolicyRules, new_rule_states}
use mathlib.Core.Path.{subst}
use wpoven_nobot.Challenge.Create.{create}

abbrev some_net : IpNet
some_net = record { ip = ascii "10.0.0.0"; ones = 8 }

-- an outside whose answers are the simplest of their types
abbrev example_outside : Outside
example_outside = record {
  parse_cidr = λ t. some (record { ip = t; ones = 8 });
  parse_ip = λ t. none;
  http_get = λ url. some (200, some (ascii "10.0.0.0/8"));
  read_file = λ name. none;
  as_nets = λ asn. some (some_net ∷ []);
  run_query = λ path text. none;
  find_all = λ expr text. some (text ∷ []);
}

abbrev as_network : Network
as_network = record {
  url = none;
  file = none;
  asn = some 64500;
  jq_path = none;
  regex = none;
  prefixes = ascii "192.0.2.0" ∷ [];
}

fetch_as_nets_replies_example :
    fetch_as_nets
      (λ t. t ∷ [])
      (λ t. some (record { ip = t; ones = 0 }))
      64500
      (some (record {
        incoming =
            stream
              ((ascii "A9" ∷ ascii "192.0.2.0/24" ∷ [])
                ∷ (ascii "A7" ∷ ascii "2001:db8::/32" ∷ [])
                ∷ [])
              [];
        scan_error = true;
        writable = 4;
        sent = [];
      }))
    ≡ some (record { ip = ascii " 192.0.2.0/24 2001:db8::/32"; ones = 0 } ∷ [])
unfolding trim_line
fetch_as_nets_replies_example =
    fetch_as_nets_replies (λ t. t ∷ []) (λ t. some (record { ip = t; ones = 0 })) 64500 true 0
      (ascii "A9" ∷ ascii "192.0.2.0/24" ∷ []) (ascii "A7" ∷ ascii "2001:db8::/32" ∷ []) []
      (record { ip = ascii " 192.0.2.0/24 2001:db8::/32"; ones = 0 } ∷ []) (refl, (refl, tt))
      (refl, (refl, tt)) (refl, tt)

-- a directory with a file in it
abbrev example_disk : Disk
example_disk = record {
  join = λ dir key. dir ++ ascii "/" ++ key;
  parent = λ name. ascii "d";
  room = λ name. 100;
}

dir_cache-IsCache_example :
    IsCache (dir_cache example_disk (ascii "d")) (λ key. ascii "d" ++ ascii "/" ++ key)
dir_cache-IsCache_example = dir_cache-IsCache example_disk (ascii "d")

abbrev example_loader : Loader (List IpNet)
example_loader = record {
  outside = example_outside;
  sha256 = λ s. 1 ∷ 2 ∷ 3 ∷ 4 ∷ 5 ∷ [];
  marshal = λ texts. elim texts [ [] ↦ none | t ∷ ts ↦ some t ];
  unmarshal = λ t. t ∷ [];
  net_string = λ net. net.ip;
  empty_ranger = [];
  insert_net = λ net ranger. some (net ∷ ranger);
}

abbrev as_key : Text
as_key = cache_key example_loader (ascii "own") 0 as_network

load_prefixes_again_example :
    (load_prefixes example_loader
        (some (dir_cache example_disk (ascii "d")))
        (ascii "own")
        0
        as_network
        at
        ((ascii "d", directory) ∷ [])
      ≡ (
        record { prefixes = some_net ∷ []; failed = false },
        (dir_set example_disk
            (ascii "d")
            as_key
            (ascii "10.0.0.0")
            at
            ((ascii "d", directory) ∷ [])).0,
      ))
    × (load_prefixes
          (elsewhere example_loader (λ url. none) (λ asn. none))
          (some (dir_cache example_disk (ascii "d")))
          (ascii "own")
          0
          as_network
          (at + 23 * hour)
          (dir_set example_disk
            (ascii "d")
            as_key
            (ascii "10.0.0.0")
            at
            ((ascii "d", directory) ∷ [])).0
        ≡ load_prefixes example_loader
            (some (dir_cache example_disk (ascii "d")))
            (ascii "own")
            0
            as_network
            at
            ((ascii "d", directory) ∷ []))
unfolding use_cache fetch_prefixes parse_all parse_cidr_or_ip dir_get dir_set cache_key decimal
load_prefixes_again_example =
    load_prefixes_again example_loader (dir_cache example_disk (ascii "d"))
      (λ key. ascii "d" ++ ascii "/" ++ key) (ascii "own") 0 as_network (some_net ∷ [])
      (ascii "10.0.0.0") missing at (at + 23 * hour) ((ascii "d", directory) ∷ []) (λ url. none)
      (λ asn. none) (dir_cache-IsCache example_disk (ascii "d")) refl refl refl refl refl (refl, tt)
      refl (ground arith)

-- the same loader when the server of the routes does not answer
abbrev silent_loader : Loader (List IpNet)
silent_loader = elsewhere example_loader (λ url. none) (λ asn. none)

-- what the cache kept a while ago
abbrev old_files : Files
old_files = (ascii "d", directory) ∷ (ascii "d/own-0-64500", file (ascii "10.0.0.0") at) ∷ []

load_entries_failing_example :
    load_entries silent_loader
      (some (dir_cache example_disk (ascii "d")))
      (ascii "own")
      0
      (as_network ∷ [])
      (at + 48 * hour)
      old_files
      []
    ≡ load_entries silent_loader
        (some (dir_cache example_disk (ascii "d")))
        (ascii "own")
        1
        []
        (at + 48 * hour)
        old_files
        []
unfolding fetch_prefixes parse_all parse_cidr_or_ip dir_get cache_key decimal
load_entries_failing_example =
    load_entries_failing silent_loader (dir_cache example_disk (ascii "d")) (ascii "own") 0
      as_network [] expired (at + 48 * hour) old_files [] refl refl

abbrev own_policy : Policy Text Text Text Text
own_policy = record {
  networks = (ascii "office", ascii "own") ∷ [];
  conditions = [];
  challenges = [];
  rules = ascii "rule" ∷ [];
}

abbrev snippet_policy : Policy Text Text Text Text
snippet_policy = record {
  networks = (ascii "office", ascii "other") ∷ (ascii "bots", ascii "listed") ∷ [];
  conditions = (ascii "is-bot", ascii "condition") ∷ [];
  challenges = [];
  rules = ascii "ignored" ∷ [];
}

abbrev list_files : Text → Option (List Text)
list_files dir = some (ascii "bots.yml" ∷ [])

new_policy_lem_example :
    (q : Policy Text Text Text Text) × (new_policy list_files
        (λ f. some snippet_policy)
        (λ fs. some own_policy)
        (ascii "d" ∷ [])
      ≡ some q)
    × (q.rules ≡ ascii "rule" ∷ [])
    × ((name : Text)
        → lookup name q.networks
          ≡ first_in name (own_policy.networks ∷ snippet_policy.networks ∷ []))
    × ((name : Text)
        → lookup name q.conditions
          ≡ first_in name (own_policy.conditions ∷ snippet_policy.conditions ∷ []))
    × ((name : Text)
        → lookup name q.challenges
          ≡ first_in name (own_policy.challenges ∷ snippet_policy.challenges ∷ []))
unfolding snippet_files
new_policy_lem_example =
    new_policy_lem list_files (λ f. some snippet_policy) (λ fs. some own_policy) (ascii "d") []
      (ascii "bots.yml" ∷ []) own_policy (snippet_policy ∷ []) refl refl (refl, tt)

abbrev example_tests : Tests ℕ
example_tests = record {
  contains = λ ranger ip. some (eqb ranger (length ip));
  parse_cidr = λ t. none;
  net_contains = λ net ip. false;
}

abbrev asks_network : Expr
asks_network =
    call_expr (ascii "network") (ident (ascii "remoteAddress"))
      (arg (string_literal (ascii "own")) no_exprs)

-- a condition that asks for a network in one of its operands
abbrev example_tree : Ast
example_tree = record {
  root = call_expr (ascii "_||_") unspecified (arg (ident (ascii "x")) (arg asks_network no_exprs));
  output = bool_output;
}

register_condition_network_example :
    network_condition length example_tests
      (some (1 ∷ 2 ∷ 3 ∷ []))
      (some (ascii "own"))
      (register_condition length (λ t. some t) (some example_tree) ((ascii "own", none) ∷ [])).1
    ≡ (
      some true,
      (register_condition length (λ t. some t) (some example_tree) ((ascii "own", none) ∷ [])).1,
    )
register_condition_network_example =
    register_condition_network length (λ t. some t) example_tests example_tree (ascii "own")
      (1 ∷ 2 ∷ 3 ∷ []) (ident (ascii "remoteAddress")) ((ascii "own", none) ∷ []) refl refl
      (in_args (in_rest (in_first here))) refl

-- a challenge whose runtime only sets its class
abbrev example_entry : Text → ChallengeEntry
example_entry name = record {
  name = name;
  runtime = some (λ reg. some (record reg { class = blocking }));
  challenge = record { conditions = none; duration = 0 };
}

abbrev example_setup : Setup
example_setup = record {
  base = example_state;
  seed = [];
  new_key_from_seed = λ seed. seed;
  generate_key = some (ascii "key");
  new_ast = λ entries. none;
  ast_to_string = λ tree. none;
  conditions = [];
  challenges = λ texts. example_entry (ascii "first") ∷ example_entry (ascii "second") ∷ [];
  rules = λ texts. PolicyRules.nil;
  counter = 0;
}

abbrev made_state : Option (State × Rules) → State
made_state none = example_state
made_state (some (state, rules)) = state

abbrev RuntimeKeepsNames : Option (Registration → Option Registration) → Type 0
RuntimeKeepsNames none = Unit
RuntimeKeepsNames (some runtime) = KeepsNames runtime

abbrev id_or_zero : Option Registration → ℕ
id_or_zero none = 0
id_or_zero (some reg) = reg.id

abbrev name_or_empty : Option Registration → Text
name_or_empty none = []
name_or_empty (some reg) = reg.name

set_class-KeepsNames : KeepsNames (λ reg. some (record reg { class = blocking }))
set_class-KeepsNames reg filled e = (sym (ap id_or_zero e), sym (ap name_or_empty e))

example_setup-IsPolicy : (texts : List Text) → IsPolicy (example_setup.challenges texts)
example_setup-IsPolicy texts = (
  (ground arith, tt),
  (λ runtime e. subst RuntimeKeepsNames e set_class-KeepsNames),
  (tt, (λ runtime e. subst RuntimeKeepsNames e set_class-KeepsNames), tt),
)

new_state-IsDistinct_example :
    IsDistinct (made_state (new_state example_setup)).challenges
    × All (λ p. p.0 ≡ p.1.id) (made_state (new_state example_setup)).challenges
unfolding new_state compile_conditions create new_rule_states
new_state-IsDistinct_example =
    new_state-IsDistinct example_setup (made_state (new_state example_setup)) Rules.nil
      example_setup-IsPolicy refl
