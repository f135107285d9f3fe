-- ===== src/Command/Reload.antt =====
-- loadPolicyState and the loop over signals in cmd/go-away/main.go. All loads share the bytes of the
-- seed, the templates and the backends; a server is known by the number of the load that made it.
pub mod Keys
pub mod Serving
use wpoven_nobot.Base.{Text, ◌+◌, ℕ, Option, none, some, List, [], ◌∷◌}
use wpoven_nobot.Startup.Building.{Setup}
use wpoven_nobot.Startup.Opening.{Surroundings, Opened, open_state, seed_left}

-- What one load finds outside: the file of the policy, NewPolicy on it, and what NewState is given
-- with it, whose seed and whose NewKeyFromSeed are the program's.
pub record Load (T P : Type 0) : Type 0 where
  pub policy_text : Option Text
  pub parse_policy : Text → Option P
  pub setup : P → Setup
  pub surroundings : Surroundings T

-- What the loads share: the bytes of the seed, the templates, and the server whose error handler the
-- backends have.
pub record Shared (T : Type 0) : Type 0 where
  pub seed : Text
  pub templates : List (Text × T)
  pub reporter : Option ℕ

pub record LoadedServer : Type 0 where
  pub number : ℕ
  pub server : Opened

-- The backends get the error handler of a new server where they have none.
abbrev pub reporter_after : ℕ → Option ℕ → Option ℕ
reporter_after n none = some n
reporter_after n (some k) = some k

abbrev pub as_loaded : ℕ → Option Opened → Option LoadedServer
as_loaded n none = none
as_loaded n (some server) = some (record { number = n; server = server })

abbrev pub seeded : (Text → Text) → Text → Setup → Setup
seeded new_key_from_seed seed u = record u { seed = seed; new_key_from_seed = new_key_from_seed }

module _ (new_key_from_seed : Text → Text) {T P : Type 0} where
  -- the call of NewState
  unfoldable pub create_state : Load T P → ℕ → Shared T → P → Option LoadedServer × Shared T
  unfolding open_state
  create_state l n s p =
      let (server, templates) =
        open_state l.surroundings (seeded new_key_from_seed s.seed (l.setup p)) s.templates in
      (
        as_loaded n server,
        record {
          seed = seed_left s.seed;
          templates = templates;
          reporter = reporter_after n s.reporter;
        },
      )

  -- loadPolicyState, the load of this number
  unfoldable pub load_policy_state : Load T P → ℕ → Shared T → Option LoadedServer × Shared T
  unfolding create_state
  load_policy_state l n s = elim l.policy_text [
    | none ↦ (none, s)
    | some text ↦ elim (l.parse_policy text) [ none ↦ (none, s) | some p ↦ create_state l n s p ]
  ]

-- The goroutine that loads: its variable `handler`, the server that `swap` was called with last, the
-- servers that it closed, and how many loads there were.
pub record Process (T : Type 0) : Type 0 where
  pub shared : Shared T
  pub handler : Option LoadedServer
  pub serving : LoadedServer
  pub closed : List ℕ
  pub loads : ℕ

-- `oldHandler.Close()`, where there is one
abbrev pub close_old : Option LoadedServer → List ℕ → List ℕ
close_old none closed = closed
close_old (some old) closed = old.number ∷ closed

pub data Signal (T P : Type 0) : Type 0 where
  hangup : Load T P → Signal T P
  other_signal : Signal T P

abbrev pub first_process : {T : Type 0} → Shared T → LoadedServer → Process T
first_process shared server = record {
  shared = shared;
  handler = some server;
  serving = server;
  closed = [];
  loads = 1;
}

abbrev pub started : {T : Type 0} → Option LoadedServer × Shared T → Option (Process T)
started (none, shared) = none
started (some server, shared) = some (first_process shared server)

abbrev pub after_load : {T : Type 0} → Process T → Option LoadedServer × Shared T → Process T
after_load p (none, shared) = record p { shared = shared; handler = none; loads = p.loads + 1 }
after_load p (some server, shared) = record {
  shared = shared;
  handler = some server;
  serving = server;
  closed = close_old p.handler p.closed;
  loads = p.loads + 1;
}

module _ (new_key_from_seed : Text → Text) {T P : Type 0} where
  -- the first load, which ends the program where it fails
  unfoldable pub start : Load T P → Shared T → Option (Process T)
  unfolding load_policy_state
  start l s = started (load_policy_state new_key_from_seed l 0 s)

  -- the body of the loop over signals
  unfoldable pub on_signal : Signal T P → Process T → Process T
  unfolding load_policy_state
  on_signal other_signal p = p
  on_signal (hangup l) p = after_load p (load_policy_state new_key_from_seed l p.loads p.shared)

  unfoldable pub on_signals : List (Signal T P) → Process T → Process T
  unfolding on_signal
  on_signals [] p = p
  on_signals (signal ∷ signals) p = on_signals signals (on_signal signal p)
