-- ===== src/Wasm.antt =====
-- The proof of work in WebAssembly: NewAllocation of lib/challenge/wasm/interface/interface.go, and
-- embed/challenge/js-pow-sha256/runtime/runtime.go.
pub mod Laws
pub mod Call
pub mod Runner
pub mod Solution
use wpoven_nobot.Hex
use wpoven_nobot.Base.{text_equality, lookup, ◌&&◌, ascii, Option, List}
use wpoven_nobot.Challenge.Key.{little_endian}
use wpoven_nobot.Base.{
  ltb, leb, eqb, if◌then◌else◌, length, take, Text, text_eq, ℕ, zero, suc, ◌+◌, ◌-◌, ◌*◌, ◌/◌, ◌%◌,
  ◌^◌, not, none, some, [], ◌∷◌, ◌++◌,
}

-- NewAllocation: the pointer in the high half of 64 bits
unfoldable pub new_allocation : ℕ → ℕ → ℕ
new_allocation ptr size = (ptr % 2 ^ 32 * 2 ^ 32) % 2 ^ 64 + size % 2 ^ 32

-- Allocation.Pointer and Allocation.Size
unfoldable pub pointer : ℕ → ℕ
pointer p = p / 2 ^ 32 % 2 ^ 32

unfoldable pub size : ℕ → ℕ
size p = p % 2 ^ 32

-- getChallenge behind the parsing of the parameter
unfoldable pub get_challenge : (Text → Text) → Text → ℕ → Text
get_challenge sha256 key difficulty = sha256 (little_endian 8 difficulty ++ key)

-- the inner loop of MakeChallenge: the byte of the target, and the bits that are left
unfoldable pub target_byte : ℕ → ℕ → ℕ → ℕ × ℕ
target_byte zero v bits = (v, bits)
target_byte (suc j) v bits =
    target_byte j (if eqb bits 0 then 2 * v % 256 + 1 else 2 * v % 256) (bits - 1)

-- the outer loop, over the bytes of the target
unfoldable pub make_target : ℕ → ℕ → Text
unfolding target_byte
make_target zero bits = []
make_target (suc n) bits = (target_byte 8 0 bits).0 ∷ make_target n (target_byte 8 0 bits).1

-- `bits.LeadingZeros8`
unfoldable pub leading_zeros8 : ℕ → ℕ
leading_zeros8 b =
    if leb 128 b
    then 0
    else if leb 64 b
    then 1
    else if leb 32 b
    then 2
    else if leb 16 b
    then 3
    else if leb 8 b
    then 4
    else if leb 4 b
    then 5
    else if leb 2 b
    then 6
    else if leb 1 b
    then 7
    else 8

-- the loop of VerifyChallenge that stops at the first byte that is not zero
unfoldable pub leading_zeroes_count : Text → ℕ
leading_zeroes_count [] = 0
leading_zeroes_count (b ∷ hash) =
    let rest = leading_zeroes_count hash in
    if ltb (leading_zeros8 b) 8 then leading_zeros8 b else 8 + rest

pub data VerifyOutput : Type 0 where
  output_ok output_failed output_error : VerifyOutput

-- VerifyChallenge with the difficulty of its parameters, which is compared as a signed number of 64
-- bits
unfoldable pub verify_challenge_answer : (Text → Text) → Text → ℕ → Text → VerifyOutput
unfolding get_challenge leading_zeroes_count leading_zeros8
verify_challenge_answer sha256 key difficulty token =
    let (result, err) = Hex.decode token in
    elim err [
      | some e ↦ output_error
      | none ↦
          if ltb (length result) 8
          then output_error
          else if not
              (text_eq (take (length result - 8) result) (get_challenge sha256 key difficulty))
          then output_failed
          else if ltb difficulty (2 ^ 63) && ltb (leading_zeroes_count (sha256 result)) difficulty
          then output_failed
          else output_ok
    ]

-- the difficulty among the parameters of a challenge; `parse_uint` is ParseUint in base 10, and `none`
-- a panic
unfoldable pub difficulty_of : (Text → Option ℕ) → List (Text × Text) → Option ℕ
difficulty_of parse_uint parameters = elim (lookup (ascii "difficulty") parameters) [
  | none ↦ some 20
  | some digits ↦ parse_uint digits
]

-- VerifyChallengeInput
pub record VerifyInput : Type 0 where
  pub key : Text
  pub parameters : List (Text × Text)
  pub answer : Text

-- the callback of VerifyChallenge; `none` is a panic
unfoldable pub check_input : (Text → Text) → (Text → Option ℕ) → VerifyInput → Option VerifyOutput
unfolding difficulty_of verify_challenge_answer
check_input sha256 parse_uint input = elim (difficulty_of parse_uint input.parameters) [
  | none ↦ none
  | some difficulty ↦ some (verify_challenge_answer sha256 input.key difficulty input.answer)
]
