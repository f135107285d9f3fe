-- ===== src/Wasm/Call/Freed.antt =====
-- What the calls into a module leave allocated.
use wpoven_nobot.Base.{
  text_equality, eqb, Text, ℕ, ◌≡◌, Bool, true, false, not, ◌&&◌, ◌||◌, none, some, List, [], ◌∷◌,
  ◌⊎◌,
}
use wpoven_nobot.Wasm.{pointer, size}
use wpoven_nobot.Text.{before, after}
use wpoven_nobot.Wasm.Call.{Guest, GuestCall, malloc_call, free_call, Instance, handed_over}

-- Whether the host holds what malloc or MakeChallenge gave it at a pointer.
abbrev pub is_held : ℕ → List GuestCall → Bool
is_held p [] = false
is_held p (malloc_call n none ∷ calls) = is_held p calls
is_held p (malloc_call n (some q) ∷ calls) = eqb q p || is_held p calls
is_held p (handed_over q ∷ calls) = eqb q p || is_held p calls
is_held p (free_call q ∷ calls) = not (eqb q p) && is_held p calls

module _ {M : Type 0} where
  -- Behind a step the host holds nothing at a pointer that it did not hold before, with an exception.
  abbrev pub IsReleased : {A : Type 0} → Type 0 → ℕ → Instance M → A × Instance M → Type 0
  IsReleased except p before (out, after) =
      is_held p after.calls ≡ true → (is_held p before.calls ≡ true) ⊎ except

  -- The exception: an output at this pointer could not be read.
  abbrev pub IsUnreadable : Guest M → ℕ → Type 0
  IsUnreadable g p =
      (result : ℕ) × (m : M) × (pointer result ≡ p)
      × (g.read_memory (pointer result) (size result) m ≡ none)
