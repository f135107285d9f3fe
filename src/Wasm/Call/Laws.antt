-- ===== src/Wasm/Call/Laws.antt =====
-- What VerifyChallengeCall of lib/challenge/wasm/utils.go answers for the module of the js runtime.
use wpoven_nobot.Base.{
  text_equality, length, Text, ℕ, ◌≡◌, Option, none, some, List, ascii, lookup, ◌⊎◌,
}
use wpoven_nobot.Wasm.{
  pointer, size, VerifyOutput, output_ok, output_failed, output_error, verify_challenge_answer,
  difficulty_of, VerifyInput, check_input,
}
use wpoven_nobot.Wasm.Call.{Guest}
use wpoven_nobot.Runtime.Js.{verify_challenge_decode}

-- the number of a VerifyChallengeOutput, and what the host makes of one: it asks for the first and
-- the last
abbrev pub output_number : VerifyOutput → ℕ
output_number output_ok = 0
output_number output_failed = 1
output_number output_error = 2

-- What the module was built from: SHA-256, ParseUint, and the JSON of the input.
pub record ModuleBuilt : Type 0 where
  pub sha256 : Text → Text
  pub parse_uint : Text → Option ℕ
  pub marshal : VerifyInput → Option Text
  pub unmarshal : Text → Option VerifyInput

-- VerifyChallenge of the module, on the bytes of its allocation
unfoldable pub run_verify : ModuleBuilt → Text → VerifyOutput
run_verify b in_data =
    verify_challenge_decode (check_input b.sha256 b.parse_uint) (b.unmarshal in_data)

-- what the answer to an input should be
abbrev pub deserved : ModuleBuilt → VerifyInput → VerifyOutput
deserved b input = elim (difficulty_of b.parse_uint input.parameters) [
  | none ↦ output_error
  | some difficulty ↦ verify_challenge_answer b.sha256 input.key difficulty input.answer
]

-- The difficulty that the parameters ask for: 20, unless they have one.
abbrev pub AsksFor : (Text → Option ℕ) → List (Text × Text) → ℕ → Type 0
AsksFor parse_uint parameters difficulty =
    (lookup (ascii "difficulty") parameters ≡ none) × (difficulty ≡ 20)
    ⊎ (digits : Text) × (lookup (ascii "difficulty") parameters ≡ some digits)
      × (parse_uint digits ≡ some difficulty)

module _ {M : Type 0} (g : Guest M) (b : ModuleBuilt) (bytes_at : ℕ → ℕ → M → Text) where
  -- The guest's export is the function of the module, on the bytes that PtrToBytes finds.
  abbrev RunsModule : Type 0
  RunsModule =
      (p : ℕ) (m : M)
      → (g.guest_verify p m).0
        ≡ some (output_number (run_verify b (bytes_at (pointer p) (size p) m)))

  -- What is written into the memory is there for the guest.
  abbrev ShowsWritten : Type 0
  ShowsWritten =
      (ptr : ℕ) (bytes : Text) (m after : M)
      → g.write_memory ptr bytes m ≡ some after
      → bytes_at ptr (length bytes) after ≡ bytes
