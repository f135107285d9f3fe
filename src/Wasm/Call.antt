-- ===== src/Wasm/Call.antt =====
-- lib/challenge/wasm/utils.go: how the host calls the functions of a module over its memory, and the
-- function VerifyChallenge of embed/challenge/js-pow-sha256/runtime/runtime.go that it calls. The
-- memory and the JSON of the inputs are a library's.
pub mod Laws
pub mod Freed
use wpoven_nobot.Base.{text_equality, length, Text, ℕ, ◌%◌, ◌^◌, Option, none, some, List, ◌∷◌}
use wpoven_nobot.Wasm.{new_allocation, pointer, size}
use wpoven_nobot.Text.{after}

-- An instance of a module, its memory of the type M: the functions that it exports, with `none` for a
-- trap, and Write and Read of its memory, with `none` out of its range.
pub record Guest (M : Type 0) : Type 0 where
  pub malloc : ℕ → M → Option ℕ × M
  pub free : ℕ → M → M
  pub guest_make : ℕ → M → Option ℕ × M
  pub guest_verify : ℕ → M → Option ℕ × M
  pub write_memory : ℕ → Text → M → Option M
  pub read_memory : ℕ → ℕ → M → Option Text

-- the calls of malloc and free that the host makes, and the pointers that MakeChallenge hands over, whose
-- memory the host has to free
pub data GuestCall : Type 0 where
  malloc_call : ℕ → Option ℕ → GuestCall
  handed_over : ℕ → GuestCall
  free_call : ℕ → GuestCall

-- the memory, and the calls, the last one first
pub record Instance (M : Type 0) : Type 0 where
  pub memory : M
  pub calls : List GuestCall

module _ {M : Type 0} where
  abbrev pub call_malloc : Guest M → ℕ → Instance M → Option ℕ × Instance M
  call_malloc g n s =
      let (ptr, m) = g.malloc n s.memory in
      (ptr, record { memory = m; calls = malloc_call n ptr ∷ s.calls })

  abbrev pub call_free : Guest M → ℕ → Instance M → Instance M
  call_free g ptr s = record { memory = g.free ptr s.memory; calls = free_call ptr ∷ s.calls }

  abbrev pub call_export : (ℕ → M → Option ℕ × M) → ℕ → Instance M → Option ℕ × Instance M
  call_export f n s = let (result, m) = f n s.memory in (result, record s { memory = m })

  -- What the host writes into the memory, and the function that it calls on it.
  abbrev pub call_with_input :
      Guest M → (ℕ → M → Option ℕ × M) → Text → ℕ → Instance M → Option ℕ × Instance M
  call_with_input g f in_data ptr s = elim (g.write_memory (ptr % 2 ^ 32) in_data s.memory) [
    | none ↦ (none, s)
    | some m ↦
        call_export f (new_allocation (ptr % 2 ^ 32) (length in_data % 2 ^ 32))
          (record s { memory = m })
  ]

  abbrev pub hand_over : ℕ → Instance M → Instance M
  hand_over ptr s = record s { calls = handed_over ptr ∷ s.calls }

  -- The output of MakeChallenge is read and then freed, by a deferred call that comes before the one
  -- for the input; where it cannot be read, it is not freed.
  abbrev pub read_output :
      {A : Type 0} → Guest M → (Text → Option A) → Option ℕ × Instance M → Option A × Instance M
  read_output g unmarshal (none, s) = (none, s)
  read_output g unmarshal (some result, s) =
      let t = hand_over (pointer result) s in
      elim (g.read_memory (pointer result) (size result) t.memory) [
        | none ↦ (none, t)
        | some out_data ↦ (unmarshal out_data, call_free g (pointer result) t)
      ]

  -- the input between its malloc and its deferred free
  abbrev pub freed_after :
      {A : Type 0}
      → Guest M
      → (ℕ → Instance M → Option A × Instance M)
      → Option ℕ × Instance M
      → Option A × Instance M
  freed_after g body (none, s) = (none, s)
  freed_after g body (some ptr, s) = let (out, after) = body ptr s in (out, call_free g ptr after)

  -- MakeChallengeCall; `none` is an error
  unfoldable pub make_challenge_call :
      {A : Type 0} → Guest M → Option Text → (Text → Option A) → Instance M → Option A × Instance M
  make_challenge_call g none unmarshal s = (none, s)
  make_challenge_call g (some in_data) unmarshal s =
      freed_after g
        (λ ptr t. read_output g unmarshal (call_with_input g g.guest_make in_data ptr t))
        (call_malloc g (length in_data) s)

  -- VerifyChallengeCall; `none` is VerifyChallengeOutputError with an error
  unfoldable pub verify_challenge_call : Guest M → Option Text → Instance M → Option ℕ × Instance M
  verify_challenge_call g none s = (none, s)
  verify_challenge_call g (some in_data) s =
      freed_after g (λ ptr t. call_with_input g g.guest_verify in_data ptr t)
        (call_malloc g (length in_data) s)
