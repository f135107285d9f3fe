-- ===== src/Examples/Commands.antt =====
-- The theorems on the commands, the WebAssembly modules and the tags of pages, at examples.
use wpoven_nobot.DecayMap
use wpoven_nobot.Base.{
  text_equality, nat_equality, eqb, if◌then◌else◌, length, All, Text, ascii, text_eq_iff, ◌==◌,
  lookup, ℕ, zero, suc, ◌+◌, ◌≡◌, refl, ◌≢◌, inl, inr, Bool, true, false, not, ◌||◌, Option, none,
  some, List, [], ◌∷◌, arith,
}
use wpoven_nobot.Rule.{Rules}
use wpoven_nobot.Wasm.{new_allocation, VerifyInput}
use wpoven_nobot.Tags.{Node, filter_tags}
use wpoven_nobot.Examples.{at, example_url, example_state}
use wpoven_nobot.Time.{hour}
use wpoven_nobot.Wasm.Call.{Guest, Instance}
use wpoven_nobot.Wasm.Runner.{
  Module, Runner, wanted, RunnerError, compile, in_callback, returned_with, RunnerState,
  enter_instance, Library, runner_step, runner_run,
}
use wpoven_nobot.Wasm.Runner.Overlap.{IsNamed, RefusesUsed, instantiate_overlapped}
use wpoven_nobot.Wasm.Runner.Laws.{IsRunnable, compile-IsRunnable}
use wpoven_nobot.Wasm.Call.Laws.{output_number, run_verify, ModuleBuilt}
use wpoven_nobot.Startup.Opening.{
  page_name, Surroundings, init_template, choose_template, open_state,
}
use wpoven_nobot.Startup.Building.{Setup, new_state, compile_conditions}
use wpoven_nobot.Startup.Opening.Pages.{choose_template_unused}
use wpoven_nobot.Challenge.Awaiter.{update}
use wpoven_nobot.Command.Options.{seed_value, seed_given, choose_seed, seed_refused, printed_seed}
use wpoven_nobot.Command.Reload.{
  Load, Shared, create_state, load_policy_state, Process, Signal, hangup, other_signal,
  first_process, start, on_signal, on_signals, LoadedServer,
}
use wpoven_nobot.Command.Reload.Keys.{on_signals_key, zero_bytes}
use wpoven_nobot.Command.Reload.Serving.{serving-IsOpen, failed_reload_leaks}
use wpoven_nobot.Rule.Build.{PolicyRules, new_rule_states}
use wpoven_nobot.Tags.Fetch.{fetch_page_tags, wanted_kinds, TagCache, fetch_tags, PageReply}
use wpoven_nobot.Tags.Fetch.Laws.{fetch_tags_again}
use wpoven_nobot.Metrics.{Metrics, reset_metrics, count_events, Label, label_eq, CounterVec}
use wpoven_nobot.Metrics.Laws.{results, count_events_lem}
use wpoven_nobot.Challenge.World.{Event, rule_hit, challenge_passed, challenge_issued}
use wpoven_nobot.Text.{before}
use wpoven_nobot.Command.Options.Seed.{choose_seed-printed_seed}

abbrev seed_of : ℕ → Text
seed_of zero = []
seed_of (suc n) = 7 ∷ seed_of n

choose_seed-printed_seed_example :
    (choose_seed (seed_value [] [] (before 10 (printed_seed (seed_of 32))))
      ≡ seed_given (seed_of 32))
    × (choose_seed (printed_seed (seed_of 32)) ≡ seed_refused)
unfolding seed_value
choose_seed-printed_seed_example =
    choose_seed-printed_seed (seed_of 32) [] [] (before 10 (printed_seed (seed_of 32))) refl
      (ground arith) refl

-- a policy without challenges
abbrev command_setup : Setup
command_setup = record {
  base = example_state;
  seed = [];
  new_key_from_seed = λ seed. seed;
  generate_key = none;
  new_ast = λ entries. none;
  ast_to_string = λ tree. none;
  conditions = [];
  challenges = λ texts. [];
  rules = λ texts. PolicyRules.nil;
  counter = 0;
}

-- a template in a file
abbrev example_surroundings : Surroundings ℕ
example_surroundings = record {
  read_template = λ name. some (ascii "page");
  parse_template = λ name text. some (length text);
  base_name = λ name. ascii "own.gohtml";
  challenge_template = ascii "/etc/own.gohtml";
  database_opens = true;
}

abbrev example_load : Load ℕ Text
example_load = record {
  policy_text = some (ascii "rules: []");
  parse_policy = λ text. some text;
  setup = λ p. command_setup;
  surroundings = example_surroundings;
}

abbrev missing_policy : Load ℕ Text
missing_policy = record example_load { policy_text = none }

abbrev example_shared : Shared ℕ
example_shared = record { seed = seed_of 32; templates = []; reporter = none }

abbrev no_server : LoadedServer
no_server = record {
  number = 0;
  server = record { state = example_state; rules = Rules.nil; template = [] };
}

abbrev process_of : Option (Process ℕ) → Process ℕ
process_of none = first_process example_shared no_server
process_of (some p) = p

abbrev same_seed : Text → Text
same_seed seed = seed

abbrev example_process : Process ℕ
example_process = process_of (start same_seed example_load example_shared)

abbrev two_loads : List (Signal ℕ Text)
two_loads = hangup missing_policy ∷ other_signal ∷ hangup example_load ∷ []

on_signals_key_example :
    (on_signals same_seed two_loads example_process).serving.server.state.private_key
    ≡ same_seed (
        if eqb (on_signals same_seed two_loads example_process).serving.number 0
        then seed_of 32
        else zero_bytes 32)
unfolding start load_policy_state create_state open_state choose_template new_state
    compile_conditions new_rule_states
on_signals_key_example =
    on_signals_key same_seed example_load example_shared example_process two_loads refl refl

serving-IsOpen_example :
    All
      (λ n. n ≢ (on_signals same_seed two_loads example_process).serving.number)
      (on_signals same_seed two_loads example_process).closed
unfolding start load_policy_state create_state open_state choose_template new_state
    compile_conditions new_rule_states
serving-IsOpen_example =
    serving-IsOpen same_seed example_load example_shared example_process two_loads refl

abbrev no_loads : List (Signal ℕ Text)
no_loads = []

failed_reload_leaks_example :
    All
      (λ n. n ≢ (on_signals same_seed no_loads example_process).serving.number)
      (on_signals same_seed (hangup example_load ∷ []) (
        on_signal same_seed
          (hangup missing_policy)
          (on_signals same_seed no_loads example_process))).closed
unfolding start load_policy_state create_state open_state choose_template new_state on_signals
    compile_conditions new_rule_states
failed_reload_leaks_example =
    failed_reload_leaks same_seed example_load example_shared example_process no_loads
      (hangup example_load ∷ []) missing_policy refl refl

choose_template_unused_example :
    lookup (page_name (ascii "own.gohtml")) ((ascii "own.gohtml", 4) ∷ [])
    ≡ lookup {V = ℕ} (page_name (ascii "own.gohtml")) []
unfolding choose_template init_template
choose_template_unused_example =
    choose_template_unused example_surroundings [] ((ascii "own.gohtml", 4) ∷ [])
      (ascii "own.gohtml") refl

abbrev asked_thirteen : List (Text × Text)
asked_thirteen = (ascii "difficulty", ascii "13") ∷ []

-- a module whose memory is the text that was written last, and whose hash is that of 13 zero bits
abbrev example_built : ModuleBuilt
example_built = record {
  sha256 = λ t. 0 ∷ 7 ∷ [];
  parse_uint = λ t. if t == ascii "13" then some 13 else none;
  marshal = λ input. some input.answer;
  unmarshal = λ t. some (record { key = []; parameters = asked_thirteen; answer = t });
}

abbrev example_guest : Guest Text
example_guest = record {
  malloc = λ n m. (some 64, m);
  free = λ ptr m. [];
  guest_make = λ p m. (some (new_allocation 64 2), m);
  guest_verify = λ p m. (some (output_number (run_verify example_built m)), m);
  write_memory = λ ptr bytes m. some bytes;
  read_memory = λ ptr n m. some m;
}

abbrev fresh_instance : Instance Text
fresh_instance = record { memory = []; calls = [] }

abbrev example_input : VerifyInput
example_input = record {
  key = [];
  parameters = asked_thirteen;
  answer = ascii "00070000000000000000";
}

abbrev text_or_empty : Option Text → Text
text_or_empty none = []
text_or_empty (some t) = t

abbrev example_module : Module
example_module = record { module_number = 1; functions = λ name. lookup name wanted }

abbrev empty_runner : Runner
empty_runner = record { modules = []; closed_modules = [] }

compile-IsRunnable_example :
    IsRunnable (compile (some example_module) (ascii "runtime") empty_runner).1
compile-IsRunnable_example =
    compile-IsRunnable (some example_module) (ascii "runtime") empty_runner tt

abbrev one_module : Runner
one_module = record empty_runner { modules = (ascii "runtime", example_module) ∷ [] }

abbrev is_used : Text → List Text → Bool
is_used name [] = false
is_used name (n ∷ names) = n == name || is_used name names

abbrev example_library : Library
example_library names name m = not (is_used name names)

is_used_named : (name : Text) (names : List Text) → IsNamed name names → is_used name names ≡ true
is_used_named name [] h = elim h [ ]
is_used_named name (n ∷ names) (inl e) = ground (arith, (text_eq_iff n name).1 e)
is_used_named name (n ∷ names) (inr h) = ground (arith, is_used_named name names h)

example_library-RefusesUsed : RefusesUsed example_library
example_library-RefusesUsed names name m h = rw (is_used_named name names h) refl

-- one call in its callback
abbrev one_call : RunnerState
one_call = record {
  runner = one_module;
  instance_names = ascii "runtime" ∷ [];
  runner_calls = update (λ i. none) 1 (some (in_callback (ascii "runtime")));
}

instantiate_overlapped_example :
    (err : RunnerError) × (runner_step example_library (enter_instance 2 (ascii "runtime")) one_call
      ≡ some (record one_call {
        runner_calls = update one_call.runner_calls 2 (some (returned_with (some err)));
      }))
unfolding runner_run runner_step
instantiate_overlapped_example =
    instantiate_overlapped example_library one_module (enter_instance 1 (ascii "runtime") ∷ [])
      one_call 2 1 (ascii "runtime") example_library-RefusesUsed refl refl refl

abbrev example_tag : Text → Text → Node
example_tag tag key = record {
  namespace = [];
  tag = tag;
  attr = record { namespace = []; key = key; val = ascii "author" } ∷ [];
}

-- a page with a tag of each kind
abbrev example_reply : PageReply
example_reply = record {
  status = 200;
  media_type = ascii "text/html";
  elements =
      some
        (example_tag (ascii "meta") (ascii "name") ∷ example_tag (ascii "link") (ascii "rel") ∷ []);
}

abbrev example_events : List Event
example_events =
    rule_hit (ascii "rule")
    ∷ challenge_issued (ascii "first")
    ∷ challenge_issued (ascii "second")
    ∷ challenge_passed (ascii "first")
    ∷ challenge_issued (ascii "first")
    ∷ []

-- a vector of counters that is the function from labels to values
abbrev counting : CounterVec (Label → ℕ)
counting = record {
  inc = λ l c k. c k + (if label_eq l k then 1 else 0);
  value_of_counter = λ k c. c k;
  clear_all = λ c k. 0;
}

-- counters that an earlier server left
abbrev old_metrics : Metrics (Label → ℕ)
old_metrics = record { rule_counts = λ k. 0; action_counts = λ k. 0; challenge_counts = λ k. 5 }

count_events_lem_example :
    (count_events counting example_events (reset_metrics counting old_metrics)).challenge_counts
      (ascii "first", ascii "issue")
    ≡ results (ascii "first") (ascii "issue") example_events
count_events_lem_example =
    count_events_lem counting ((λ l k c. refl), (λ k c. refl)) example_events old_metrics
      (ascii "first") (ascii "issue")

fetch_tags_again_example :
    (after : TagCache) × (fetch_tags
        (λ b url. example_reply)
        at
        (λ m. m)
        (ascii "site.example")
        (some 0)
        example_url
        true
        false
        []
      ≡ some (filter_tags (example_tag (ascii "meta") (ascii "name") ∷ []), after))
    × (fetch_tags
          (λ b url. example_reply)
          (at + hour)
          (λ m. m)
          (ascii "site.example")
          none
          example_url
          false
          true
          after
        ≡ some (filter_tags (example_tag (ascii "meta") (ascii "name") ∷ []), after))
unfolding fetch_page_tags wanted_kinds DecayMap.get DecayMap.read
fetch_tags_again_example =
    fetch_tags_again (λ b url. example_reply) (λ b url. example_reply) at (at + hour) (λ m. m)
      (λ m. m) (ascii "site.example") 0 none example_url true false false true
      (example_tag (ascii "meta") (ascii "name")) [] [] [] refl refl (omega arith)
