-- ===== src/Command/Reload/Serving.antt =====
-- Which servers are closed, and which one answers for the errors of backends.
use wpoven_nobot.Base.{
  Text, option_keeps, ℕ, ◌≡◌, refl, ◌⊎◌, inl, inr, Option, none, some, List, All, ◌+◌, ◌<◌, ap, ◌∙◌,
  ◌≢◌, [], ◌∷◌, arith,
}
use wpoven_nobot.Startup.Opening.{Opened, open_state}
use wpoven_nobot.Command.Reload.{
  LoadedServer, Load, Shared, reporter_after, seeded, create_state, load_policy_state, Process,
  Signal, started, after_load, start, on_signals, close_old, hangup, other_signal, first_process,
  on_signal, as_loaded,
}
use mathlib.Core.Path.{subst}

module _ {T : Type 0} where
  -- What a load says about numbers.
  abbrev IsNumber : ℕ → Shared T → Option LoadedServer × Shared T → Type 0
  IsNumber n s (none, after) =
      (after.reporter ≡ s.reporter) ⊎ (after.reporter ≡ reporter_after n s.reporter)
  IsNumber n s (some sv, after) = (sv.number ≡ n) × (after.reporter ≡ reporter_after n s.reporter)

  as_loaded-IsNumber :
      (n : ℕ) (s after : Shared T) (r : Option Opened)
      → after.reporter ≡ reporter_after n s.reporter
      → IsNumber n s (as_loaded n r, after)
  as_loaded-IsNumber n s after none h = inr h
  as_loaded-IsNumber n s after (some o) h = (refl, h)

  abbrev IsBegun : (Process T → Type 0) → Option (Process T) → Type 0
  IsBegun I none = Unit
  IsBegun I (some p) = I p

module _ (new_key_from_seed : Text → Text) {T P : Type 0} where
  load-IsNumber :
      (l : Load T P) (n : ℕ) (s : Shared T)
      → IsNumber n s (load_policy_state new_key_from_seed l n s)
  unfolding load_policy_state create_state
  load-IsNumber l n s = option_keeps (IsNumber n s) l.policy_text _ _ (inl refl) (λ text.
      option_keeps (IsNumber n s) (l.parse_policy text) _ _ (inl refl) (λ p.
        as_loaded-IsNumber n s _
          (open_state l.surroundings (seeded new_key_from_seed s.seed (l.setup p)) s.templates).0
          refl))

  -- What every load keeps, signals keep.
  on_signals_induction :
      (I : Process T → Type 0) (signals : List (Signal T P))
      → ((q : Process T) (r : Option LoadedServer × Shared T)
          → I q
          → IsNumber q.loads q.shared r
          → I (after_load q r))
      → (p : Process T) → I p
      → I (on_signals new_key_from_seed signals p)
  unfolding on_signals on_signal
  on_signals_induction I [] keeps p h = h
  on_signals_induction I (other_signal ∷ signals) keeps p h =
      on_signals_induction I signals keeps p h
  on_signals_induction I (hangup l ∷ signals) keeps p h = on_signals_induction I signals keeps _ (
      keeps p (load_policy_state new_key_from_seed l p.loads p.shared) h
        (load-IsNumber l p.loads p.shared))

  -- What the first load establishes, a started program has.
  start_induction :
      (I : Process T → Type 0) (l : Load T P) (s : Shared T)
      → ((sv : LoadedServer) (after : Shared T)
          → IsNumber 0 s (some sv, after)
          → I (first_process after sv))
      → (p : Process T) → start new_key_from_seed l s ≡ some p
      → I p
  unfolding start
  start_induction I l s begins p e =
      subst (IsBegun I) e (begun (load_policy_state new_key_from_seed l 0 s) (load-IsNumber l 0 s))
    where
      begun : (r : Option LoadedServer × Shared T) → IsNumber 0 s r → IsBegun I (started r)
      begun (none, after) h = tt
      begun (some sv, after) h = begins sv after h

abbrev HasNumber : ℕ → Option LoadedServer → Type 0
HasNumber n none = Unit
HasNumber n (some sv) = sv.number ≡ n

abbrev IsOther : ℕ → Option LoadedServer → Type 0
IsOther n none = Unit
IsOther n (some sv) = sv.number ≢ n

close_old-apart :
    (k : ℕ) (old : Option LoadedServer) (closed : List ℕ)
    → IsOther k old
    → All (λ n. n ≢ k) closed
    → All (λ n. n ≢ k) (close_old old closed)
close_old-apart k none closed h a = a
close_old-apart k (some old) closed h a = (h, a)

below-later : (n : ℕ) (closed : List ℕ) → All (λ k. k < n) closed → All (λ k. k < n + 1) closed
below-later n [] h = tt
below-later n (k ∷ closed) (l, h) = (omega (arith, l), below-later n closed h)

below-apart :
    (n m : ℕ) (closed : List ℕ) → m ≡ n → All (λ k. k < n) closed → All (λ k. k ≢ m) closed
below-apart n m [] e h = tt
below-apart n m (k ∷ closed) e (l, h) =
    (λ same. omega (arith, same, l, e), below-apart n m closed e h)

close_old-below :
    (n k : ℕ) (old : Option LoadedServer) (closed : List ℕ)
    → k < n
    → HasNumber k old
    → All (λ i. i < n) closed
    → All (λ i. i < n) (close_old old closed)
close_old-below n k none closed l h b = b
close_old-below n k (some old) closed l h b = (omega (arith, h, l), b)

module _ {T : Type 0} where
  -- The server is none of the closed ones; the variable of the goroutine holds it or nothing.
  abbrev IsOpen : Process T → Type 0
  IsOpen p =
      All (λ n. n ≢ p.serving.number) p.closed
      × All (λ n. n < p.loads) p.closed
      × p.serving.number < p.loads
      × HasNumber p.serving.number p.handler

  after_load-IsOpen :
      (p : Process T) (r : Option LoadedServer × Shared T)
      → IsOpen p
      → IsNumber p.loads p.shared r
      → IsOpen (after_load p r)
  after_load-IsOpen p (none, after) (a, b, l, h) i =
      (a, below-later p.loads p.closed b, omega (arith, l), tt)
  after_load-IsOpen p (some sv, after) (a, b, l, h) (n, i) =
      let below = close_old-below p.loads p.serving.number p.handler p.closed l h b in
      (
        below-apart p.loads sv.number (close_old p.handler p.closed) n below,
        below-later p.loads (close_old p.handler p.closed) below,
        omega (arith, n),
        refl,
      )

  -- Whether a server that is still open has been forgotten.
  abbrev IsForgotten : ℕ → Process T → Type 0
  IsForgotten k p = All (λ n. n ≢ k) p.closed × k < p.loads × IsOther k p.handler

  after_load-IsForgotten :
      (k : ℕ) (p : Process T) (r : Option LoadedServer × Shared T)
      → IsForgotten k p
      → IsNumber p.loads p.shared r
      → IsForgotten k (after_load p r)
  after_load-IsForgotten k p (none, after) (a, l, h) i = (a, omega (arith, l), tt)
  after_load-IsForgotten k p (some sv, after) (a, l, h) (n, i) = (
    close_old-apart k p.handler p.closed h a,
    omega (arith, l),
    λ same. omega (arith, same, n, l),
  )

  forgotten :
      (p : Process T) (r : Option LoadedServer × Shared T)
      → r.0 ≡ none
      → IsOpen p
      → IsForgotten p.serving.number (after_load p r)
  forgotten p (none, after) e (a, b, l, h) = (a, omega (arith, l), tt)
  forgotten p (some sv, after) e (a, b, l, h) = absurd (ground arith)

  reporter_kept :
      (q : Process T) (r : Option LoadedServer × Shared T)
      → q.shared.reporter ≡ some 0
      → IsNumber q.loads q.shared r
      → (after_load q r).shared.reporter ≡ some 0
  reporter_kept q (none, after) h (inl i) = i ∙ h
  reporter_kept q (none, after) h (inr i) = i ∙ ap (reporter_after q.loads) h
  reporter_kept q (some sv, after) h (n, i) = i ∙ ap (reporter_after q.loads) h

module _ (new_key_from_seed : Text → Text) {T P : Type 0} where
  started-IsOpen :
      (l : Load T P) (s : Shared T) (p : Process T) (signals : List (Signal T P))
      → start new_key_from_seed l s ≡ some p
      → IsOpen (on_signals new_key_from_seed signals p)
  started-IsOpen l s p signals e =
      on_signals_induction new_key_from_seed IsOpen signals after_load-IsOpen p (
        start_induction new_key_from_seed IsOpen l s
          (λ sv after i. (tt, tt, omega (arith, i.0), refl)) p e)

  -- Requests never go to a server that was closed: whatever loads follow the first, and whichever of
  -- them fail, the server that `swap` was given last is none of those that were closed.
  pub serving-IsOpen :
      (l : Load T P) (s : Shared T) (p : Process T) (signals : List (Signal T P))
      → start new_key_from_seed l s ≡ some p
      → let now = on_signals new_key_from_seed signals p in
        All (λ n. n ≢ now.serving.number) now.closed
  serving-IsOpen l s p signals e = (started-IsOpen l s p signals e).0

  -- After a reload that fails, the server that requests go to is never closed, not even by a reload
  -- that succeeds later.
  pub failed_reload_leaks :
      (l : Load T P) (s : Shared T) (p : Process T) (signals later : List (Signal T P))
      (failing : Load T P)
      → start new_key_from_seed l s ≡ some p
      → let now = on_signals new_key_from_seed signals p in
        (load_policy_state new_key_from_seed failing now.loads now.shared).0 ≡ none
        → All
            (λ n. n ≢ now.serving.number)
            (on_signals new_key_from_seed later
              (on_signal new_key_from_seed (hangup failing) now)).closed
  unfolding on_signal
  failed_reload_leaks l s p signals later failing e fails =
      let now = on_signals new_key_from_seed signals p in
      let opens = started-IsOpen l s p signals e in
      (on_signals_induction new_key_from_seed (IsForgotten now.serving.number) later
        (after_load-IsForgotten now.serving.number) _ (forgotten now _ fails opens)).0

  -- The errors of backends are answered by the first server for ever, also when it is closed.
  pub reporter_first :
      (l : Load T P) (s : Shared T) (p : Process T) (signals : List (Signal T P))
      → s.reporter ≡ none
      → start new_key_from_seed l s ≡ some p
      → (on_signals new_key_from_seed signals p).shared.reporter ≡ some 0
  reporter_first l s p signals unset e =
      on_signals_induction new_key_from_seed (λ q. q.shared.reporter ≡ some 0) signals reporter_kept
        p
        (start_induction new_key_from_seed (λ q. q.shared.reporter ≡ some 0) l s
          (λ sv after i. rw (i.1, unset) refl) p e)
