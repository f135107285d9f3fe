-- ===== src/Command/Options/Seed.antt =====
-- The seeds that cmd/go-away/main.go accepts.
use wpoven_nobot.Hex
use wpoven_nobot.Base.{
  text_equality, Bool-cases, length, is_empty, All, Text, ascii, text_eq_iff, ◌==◌, ℕ, suc, ◌*◌,
  ◌<◌, ◌≡◌, refl, ap, inl, inr, false, [], ◌∷◌, arith, some, ◌++◌, ◌≢◌, none,
}
use wpoven_nobot.Text.{to_lower, before}
use wpoven_nobot.Command.Options.{
  seed_value, seed_given, choose_seed, seed_refused, printed_seed, decoded_seed,
}
use wpoven_nobot.Hex.{Decoded}
use wpoven_nobot.Text.Split.{Lacks, before-append}
use wpoven_nobot.Hex.Laws.{decode-encode}

length-encode : (src : Text) → length (Hex.encode src) ≡ 2 * length src
unfolding Hex.encode
length-encode [] = refl
length-encode (v ∷ src) = omega (arith, length-encode src)

length-to_lower : (s : Text) → length (to_lower s) ≡ length s
length-to_lower [] = refl
length-to_lower (c ∷ s) = ap (λ (n : ℕ). suc n) (length-to_lower s)

not_generate : (s : Text) → 8 < length s → (to_lower s == ascii "generate") ≡ false
not_generate s h = elim (Bool-cases (to_lower s == ascii "generate")) [
  | inr e ↦ e
  | inl e ↦
      let same = ap (λ (t : Text). length t) ((text_eq_iff (to_lower s) (ascii "generate")).0 e) in
      absurd (omega (arith, same, h, length-to_lower s))
]

long_not_empty : (s : Text) → 8 < length s → is_empty s ≡ false
long_not_empty [] h = absurd (omega arith)
long_not_empty (c ∷ s) h = refl

-- a long value is decoded
choose_seed_long : (s : Text) → 8 < length s → choose_seed s ≡ decoded_seed (Hex.decode s)
unfolding choose_seed
choose_seed_long s h = rw (long_not_empty s h, not_generate s h) refl

encode-Lacks : (seed : Text) → All (λ b. b < 256) seed → Lacks 10 (Hex.encode seed)
unfolding Hex.encode Hex.hex_char
encode-Lacks [] h = refl
encode-Lacks (b ∷ seed) (l, h) = ground (arith, encode-Lacks seed h)

-- a line end behind the digits is no digit
decode_line : (seed : Text) → (Hex.decode (Hex.encode seed ++ 10 ∷ [])).1 ≢ none
unfolding Hex.encode Hex.decode Hex.hex_char Hex.reverse_hex
decode_line [] = λ h. ground (arith, h)
decode_line (b ∷ seed) = λ h. ground (arith, h, decode_line seed)

length-line : (s : Text) → length (s ++ 10 ∷ []) ≡ suc (length s)
length-line [] = refl
length-line (c ∷ s) = ap (λ (n : ℕ). suc n) (length-line s)

refused : (d : Decoded) → d.1 ≢ none → decoded_seed d ≡ seed_refused
refused (out, none) h = absurd (h refl)
refused (out, some err) h = refl

given : (seed : Text) → length seed ≡ 32 → decoded_seed (seed, none) ≡ seed_given seed
given seed h = ground (arith, h)

-- The program takes the seed that the value "generate" prints from the line that was printed,
-- whichever of its places is the first that is set: from the digits, and not from the text with the
-- line end, which it refuses.
pub choose_seed-printed_seed :
    (seed env old_env flag : Text)
    → length seed ≡ 32
    → All (λ b. b < 256) seed
    → seed_value env old_env flag ≡ before 10 (printed_seed seed)
    → (choose_seed (seed_value env old_env flag) ≡ seed_given seed)
      × (choose_seed (printed_seed seed) ≡ seed_refused)
choose_seed-printed_seed seed env old_env flag h bytes e =
    let long = length-encode seed in
    (
      rw
          (
            e,
            before-append 10 (Hex.encode seed) [] (encode-Lacks seed bytes),
            choose_seed_long (Hex.encode seed) (omega (arith, long, h)),
            decode-encode seed bytes,
          )
          (given seed h),
      rw
          (choose_seed_long (printed_seed seed)
            (omega (arith, long, length-line (Hex.encode seed), h)))
          (refused (Hex.decode (printed_seed seed)) (decode_line seed)),
    )
