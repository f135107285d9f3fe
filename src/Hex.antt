-- ===== src/Hex.antt =====
-- utils/inline/hex.go, and `encoding/hex`, which it copies.
pub mod Laws
use wpoven_nobot.Base.{
  ltb, leb, if◌then◌else◌, Text, ℕ, ◌+◌, ◌-◌, ◌*◌, ◌/◌, ◌%◌, ◌&&◌, Option, none, some, [], ◌∷◌,
}

-- the entry of `hextable`
unfoldable pub hex_char : ℕ → ℕ
hex_char n = if ltb n 10 then 48 + n else 87 + n

-- the entry of `reverseHexTable`: 255 for a byte that is no digit
unfoldable pub reverse_hex : ℕ → ℕ
reverse_hex c =
    if leb 48 c && leb c 57
    then c - 48
    else if leb 97 c && leb c 102
    then c - 87
    else if leb 65 c && leb c 70
    then c - 55
    else 255

-- Encode: what it writes to `dst`
unfoldable pub encode : Text → Text
encode [] = []
encode (v ∷ src) = hex_char (v / 16) ∷ hex_char (v % 16) ∷ encode src

pub data HexError : Type 0 where
  invalid_byte : ℕ → HexError
  err_length : HexError

-- what Decode wrote to `dst`, and its error
abbrev pub Decoded : Type 0
Decoded = Text × Option HexError

abbrev cons_decoded : ℕ → Decoded → Decoded
cons_decoded b (out, e) = (b ∷ out, e)

-- Decode: two digits a round, and the odd byte at the end
unfoldable pub decode : Text → Decoded
decode [] = ([], none)
decode (p ∷ []) =
    if ltb 15 (reverse_hex p) then ([], some (invalid_byte p)) else ([], some err_length)
decode (p ∷ q ∷ src) =
    let rest = cons_decoded (reverse_hex p * 16 + reverse_hex q) (decode src) in
    if ltb 15 (reverse_hex p)
    then ([], some (invalid_byte p))
    else if ltb 15 (reverse_hex q)
    then ([], some (invalid_byte q))
    else rest

-- EncodedLen and DecodedLen
abbrev pub encoded_len : ℕ → ℕ
encoded_len n = n * 2

abbrev pub decoded_len : ℕ → ℕ
decoded_len x = x / 2
