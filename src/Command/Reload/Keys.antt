-- ===== src/Command/Reload/Keys.antt =====
-- The keys of the servers that loadPolicyState of cmd/go-away/main.go makes.
use wpoven_nobot.Base.{
  Text, length, ℕ, zero, suc, ◌≡◌, refl, ap, Option, some, [], ◌∷◌, arith, sym, none, List,
  Bool-cases, option_keeps, ◌⊎◌, inl, inr, eqb, if◌then◌else◌, ◌<◌, ◌∙◌,
}
use wpoven_nobot.Rule.{Rules}
use wpoven_nobot.Startup.Opening.{
  seed_left, Surroundings, clear_bytes, Opened, open_state, choose_template, opened, after_template,
}
use wpoven_nobot.Startup.Building.{
  choose_key, compile_conditions, create_challenges, Setup, made_rules, new_state,
}
use wpoven_nobot.Startup.Building.Distinct.{bind_some}
use wpoven_nobot.Challenge.Registration.{State}
use wpoven_nobot.Rule.Build.{BuiltRule, made, broken}
use wpoven_nobot.Command.Reload.{
  LoadedServer, Load, Shared, seeded, create_state, load_policy_state, Process, after_load, Signal,
  hangup, other_signal, started, start, on_signal, on_signals, as_loaded,
}
use mathlib.Core.Path.{subst}

-- a seed of zero bytes
abbrev pub zero_bytes : ℕ → Text
zero_bytes zero = []
zero_bytes (suc n) = 0 ∷ zero_bytes n

clear_bytes_lem : (seed : Text) → clear_bytes seed ≡ zero_bytes (length seed)
unfolding clear_bytes
clear_bytes_lem [] = refl
clear_bytes_lem (b ∷ seed) = ap (λ (t : Text). 0 ∷ t) (clear_bytes_lem seed)

seed_left_zeros : (seed : Text) → length seed ≡ 32 → seed_left seed ≡ zero_bytes 32
unfolding seed_left
seed_left_zeros seed h = rw (h, clear_bytes_lem seed, h) refl

choose_key_seeded :
    (new_key_from_seed : Text → Text) (generate_key : Option Text) (seed : Text)
    → length seed ≡ 32
    → choose_key new_key_from_seed generate_key seed ≡ some (new_key_from_seed seed)
unfolding choose_key
choose_key_seeded new_key_from_seed generate_key [] h = absurd (omega arith)
choose_key_seeded new_key_from_seed generate_key (b ∷ seed) h = rw h refl

abbrev key_of : Option (State × Rules) → Text
key_of none = []
key_of (some (state, rules)) = state.private_key

made_rules_key :
    (state out : State) (rules : Rules) (r : BuiltRule Rules)
    → made_rules state r ≡ some (out, rules)
    → out.private_key ≡ state.private_key
made_rules_key state out rules (broken err) e = absurd (ground arith)
made_rules_key state out rules (made rs) e = sym (ap key_of e)

-- The key of a server that NewState makes is the one that it chooses.
pub new_state_key :
    (u : Setup) (state : State) (rules : Rules)
    → new_state u ≡ some (state, rules)
    → choose_key u.new_key_from_seed u.generate_key u.seed ≡ some state.private_key
unfolding new_state
new_state_key u state rules e =
    let (key, chosen, e) = bind_some (choose_key u.new_key_from_seed u.generate_key u.seed) _ _ e in
    let (texts, _, e) =
      bind_some (compile_conditions u.new_ast u.ast_to_string u.conditions) _ _ e in
    let (end, _, e) = bind_some (create_challenges u.base.url_path (u.challenges texts) _) _ _ e in
    rw (made_rules_key _ state rules _ e) chosen

abbrev value_of : Text → Option Text → Text
value_of t none = t
value_of t (some x) = x

option_value : {x y : Text} → some x ≡ some y → x ≡ y
option_value {x} e = ap (value_of x) e

-- A server that was made, if one was, has the key that is chosen for its setup.
abbrev IsKeyed : Setup → Option Opened → Type 0
IsKeyed u none = Unit
IsKeyed u (some o) = choose_key u.new_key_from_seed u.generate_key u.seed ≡ some o.state.private_key

opened-IsKeyed :
    (u : Setup) (name : Text) (r : Option (State × Rules))
    → new_state u ≡ r
    → IsKeyed u (opened name r)
opened-IsKeyed u name none e = tt
opened-IsKeyed u name (some (state, rules)) e = new_state_key u state rules e

module _ {T : Type 0} where
  after_template-IsKeyed :
      (env : Surroundings T) (u : Setup) (ts : List (Text × T))
      (r : Option (Text × List (Text × T)))
      → IsKeyed u (after_template env u ts r).0
  after_template-IsKeyed env u ts none = tt
  after_template-IsKeyed env u ts (some (name, after)) = elim (Bool-cases env.database_opens) [
    | inl e ↦ rw e (opened-IsKeyed u name (new_state u) refl)
    | inr e ↦ rw e tt
  ]

  open_state-IsKeyed :
      (env : Surroundings T) (u : Setup) (ts : List (Text × T)) → IsKeyed u (open_state env u ts).0
  unfolding open_state
  open_state-IsKeyed env u ts =
      option_keeps (λ (r : Option Opened × List (Text × T)). IsKeyed u r.0)
        (choose_key u.new_key_from_seed u.generate_key u.seed) _ _ tt
        (λ key. after_template-IsKeyed env u ts (choose_template env ts))

module _ (new_key_from_seed : Text → Text) {T : Type 0} where
  -- What a load with a seed of 32 bytes leaves: the seed as it was or cleared, and the key of the
  -- server, if there is one, in which case the seed is cleared.
  abbrev IsSeeded : ℕ → Shared T → Option LoadedServer × Shared T → Type 0
  IsSeeded n s (none, after) = (after.seed ≡ s.seed) ⊎ (after.seed ≡ zero_bytes 32)
  IsSeeded n s (some sv, after) =
      (sv.number ≡ n)
      × (sv.server.state.private_key ≡ new_key_from_seed s.seed)
      × (after.seed ≡ zero_bytes 32)

  as_loaded-IsSeeded :
      (n : ℕ) (s after : Shared T) (u : Setup) (r : Option Opened)
      → length s.seed ≡ 32
      → after.seed ≡ zero_bytes 32
      → IsKeyed (seeded new_key_from_seed s.seed u) r
      → IsSeeded n s (as_loaded n r, after)
  as_loaded-IsSeeded n s after u none h a k = inr a
  as_loaded-IsSeeded n s after u (some o) h a k =
      (refl, option_value (sym k ∙ choose_key_seeded new_key_from_seed u.generate_key s.seed h), a)

module _ (new_key_from_seed : Text → Text) {T P : Type 0} where
  load-IsSeeded :
      (l : Load T P) (n : ℕ) (s : Shared T)
      → length s.seed ≡ 32
      → IsSeeded new_key_from_seed n s (load_policy_state new_key_from_seed l n s)
  unfolding load_policy_state create_state
  load-IsSeeded l n s h =
      option_keeps (IsSeeded new_key_from_seed n s) l.policy_text _ _ (inl refl) (λ text.
        option_keeps (IsSeeded new_key_from_seed n s) (l.parse_policy text) _ _ (inl refl) (λ p.
          as_loaded-IsSeeded new_key_from_seed n s _ (l.setup p)
            (open_state l.surroundings (seeded new_key_from_seed s.seed (l.setup p)) s.templates).0
            h (seed_left_zeros s.seed h)
            (open_state-IsKeyed l.surroundings (seeded new_key_from_seed s.seed (l.setup p))
              s.templates)))

-- the key of the server that requests go to, by the number of its load
abbrev key_expected : (Text → Text) → Text → ℕ → Text
key_expected new_key_from_seed seed n = new_key_from_seed (if eqb n 0 then seed else zero_bytes 32)

key_expected_later :
    (new_key_from_seed : Text → Text) (seed : Text) (n : ℕ)
    → 0 < n
    → key_expected new_key_from_seed seed n ≡ new_key_from_seed (zero_bytes 32)
key_expected_later new_key_from_seed seed n l = ground arith

module _ (new_key_from_seed : Text → Text) {T : Type 0} where
  abbrev HasKeyOf : Text → Process T → Type 0
  HasKeyOf seed p =
      (p.shared.seed ≡ zero_bytes 32)
      × 0 < p.loads
      × (p.serving.server.state.private_key ≡ key_expected new_key_from_seed seed p.serving.number)

  after_load-HasKeyOf :
      (seed : Text) (p : Process T) (r : Option LoadedServer × Shared T)
      → HasKeyOf seed p
      → IsSeeded new_key_from_seed p.loads p.shared r
      → HasKeyOf seed (after_load p r)
  after_load-HasKeyOf seed p (none, after) (z, l, k) (inl same) = (same ∙ z, omega (arith, l), k)
  after_load-HasKeyOf seed p (none, after) (z, l, k) (inr wiped) = (wiped, omega (arith, l), k)
  after_load-HasKeyOf seed p (some sv, after) (z, l, k) (n, key, wiped) = (
    wiped,
    omega (arith, l),
    key
        ∙ ap new_key_from_seed z
        ∙ sym (key_expected_later new_key_from_seed seed sv.number (omega (arith, n, l))),
  )

  abbrev IsStarted : Text → Option (Process T) → Type 0
  IsStarted seed none = Unit
  IsStarted seed (some p) = HasKeyOf seed p

module _ (new_key_from_seed : Text → Text) {T P : Type 0} where
  on_signals-HasKeyOf :
      (seed : Text) (signals : List (Signal T P)) (p : Process T)
      → HasKeyOf new_key_from_seed seed p
      → HasKeyOf new_key_from_seed seed (on_signals new_key_from_seed signals p)
  unfolding on_signals on_signal
  on_signals-HasKeyOf seed [] p h = h
  on_signals-HasKeyOf seed (other_signal ∷ signals) p h = on_signals-HasKeyOf seed signals p h
  on_signals-HasKeyOf seed (hangup l ∷ signals) p h = on_signals-HasKeyOf seed signals _ (
      after_load-HasKeyOf new_key_from_seed seed p _ h
        (load-IsSeeded new_key_from_seed l p.loads p.shared (ap (λ (t : Text). length t) h.0)))

  start-IsStarted :
      (l : Load T P) (s : Shared T)
      → length s.seed ≡ 32
      → IsStarted new_key_from_seed s.seed (start new_key_from_seed l s)
  unfolding start
  start-IsStarted l s h =
      first_key (load_policy_state new_key_from_seed l 0 s)
        (load-IsSeeded new_key_from_seed l 0 s h)
    where
      first_key :
          (r : Option LoadedServer × Shared T)
          → IsSeeded new_key_from_seed 0 s r
          → IsStarted new_key_from_seed s.seed (started r)
      first_key (none, after) k = tt
      first_key (some sv, after) (n, key, wiped) = (wiped, omega arith, rw n key)

  -- Of a program that starts with a seed of 32 bytes, the first server has the key of that seed. The
  -- servers that reloads put in its place, after any signals, have the key of 32 zero bytes.
  pub on_signals_key :
      (l : Load T P) (s : Shared T) (p : Process T) (signals : List (Signal T P))
      → length s.seed ≡ 32
      → start new_key_from_seed l s ≡ some p
      → let now = (on_signals new_key_from_seed signals p).serving in
        now.server.state.private_key
        ≡ new_key_from_seed (if eqb now.number 0 then s.seed else zero_bytes 32)
  on_signals_key l s p signals h e =
      (on_signals-HasKeyOf s.seed signals p
        (subst (IsStarted new_key_from_seed s.seed) e (start-IsStarted l s h))).2
