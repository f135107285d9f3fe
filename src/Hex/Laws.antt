-- ===== src/Hex/Laws.antt =====
-- Round trips of utils/inline/hex.go.
use wpoven_nobot.Hex.{hex_char, reverse_hex, decode, encoded_len, decoded_len, encode}
use wpoven_nobot.Base.{
  length, All, Text, ℕ, ◌%◌, ◌<◌, ◌≡◌, refl, none, [], ◌∷◌, arith, ◌/◌, ◌≤◌, ◌⊎◌,
}

abbrev pub IsByte : ℕ → Type 0
IsByte b = b < 256

reverse_hex-hex_char : (n : ℕ) → n < 16 → reverse_hex (hex_char n) ≡ n
unfolding reverse_hex hex_char
reverse_hex-hex_char n h = ground arith

-- What Encode writes, Decode reads back without error, for every text of bytes.
pub decode-encode : (src : Text) → All IsByte src → decode (encode src) ≡ (src, none)
unfolding decode encode
decode-encode [] h = refl
decode-encode (b ∷ src) (small, h) = ground (
  arith,
  decode-encode src h,
  reverse_hex-hex_char (b / 16) (omega arith),
  reverse_hex-hex_char (b % 16) (omega arith),
)

-- The length of what is written is EncodedLen.
pub length-encode : (src : Text) → length (encode src) ≡ encoded_len (length src)
unfolding encode
length-encode [] = refl
length-encode (b ∷ src) = omega (arith, length-encode src)

-- A text that Decode takes without error has even length and gives DecodedLen bytes.
length-decode :
    (src : Text)
    → (decode src).1 ≡ none
    → (length src % 2 ≡ 0) × (length (decode src).0 ≡ decoded_len (length src))
unfolding decode
length-decode [] e = (refl, refl)
length-decode (p ∷ []) e = absurd (ground arith)
length-decode (p ∷ q ∷ src) e =
    let (even, out) = length-decode src (ground arith) in (omega arith, ground arith)

-- The digits that Encode writes.
abbrev pub IsHexDigit : ℕ → Type 0
IsHexDigit c = (48 ≤ c) × (c ≤ 57) ⊎ (97 ≤ c) × (c ≤ 102)

hex_char-reverse_hex :
    (c : ℕ) → IsHexDigit c → (reverse_hex c < 16) × (hex_char (reverse_hex c) ≡ c)
unfolding reverse_hex hex_char
hex_char-reverse_hex c h = ground arith

-- Of lower-case digits in even number, Decode loses nothing: Encode writes the same text again.
encode-decode :
    (src : Text)
    → All IsHexDigit src
    → length src % 2 ≡ 0
    → (encode (decode src).0 ≡ src) × ((decode src).1 ≡ none)
unfolding decode encode
encode-decode [] h even = (refl, refl)
encode-decode (p ∷ []) h even = absurd (omega arith)
encode-decode (p ∷ q ∷ src) (hp, (hq, h)) even =
    let (same, no_error) = encode-decode src h (omega arith) in
    ground (arith, hex_char-reverse_hex p hp, hex_char-reverse_hex q hq)
