-- ===== src/Wasm/Solution.antt =====
-- The proof of work that embed/challenge/js-pow-sha256/runtime/runtime.go asks for, described by the
-- bits of a hash.
use wpoven_nobot.Hex
use wpoven_nobot.Hex.{HexError}
use wpoven_nobot.Base.{
  ltb, eqb, if◌then◌else◌, length, take, drop, length-append, Option, sym, ap, Bool, true, ◌&&◌,
  Bool-cases, inl, inr, eqb_iff, text_eq_iff, All, Text, ℕ, zero, suc, ◌+◌, ◌-◌, ◌/◌, ◌%◌, ◌^◌, ◌≤◌,
  ◌<◌, ◌≡◌, ◌↔◌, refl, none, some, List, [], ◌∷◌, ◌++◌, arith,
}
use wpoven_nobot.Wasm.{
  leading_zeroes_count, leading_zeros8, verify_challenge_answer, get_challenge, output_ok,
}
use wpoven_nobot.Challenge.Key.{little_endian}

-- The bits of a byte, the highest first.
abbrev pub byte_bits : ℕ → List ℕ
byte_bits b =
    b / 128 % 2
    ∷ b / 64 % 2
    ∷ b / 32 % 2
    ∷ b / 16 % 2
    ∷ b / 8 % 2
    ∷ b / 4 % 2
    ∷ b / 2 % 2
    ∷ b % 2
    ∷ []

-- The bits of a text of bytes.
abbrev pub hash_bits : Text → List ℕ
hash_bits [] = []
hash_bits (b ∷ t) = byte_bits b ++ hash_bits t

-- The first n of the bits are there, and zero.
abbrev pub StartsZero : ℕ → List ℕ → Type 0
StartsZero zero bs = Unit
StartsZero (suc n) [] = ⊥
StartsZero (suc n) (b ∷ bs) = (b ≡ 0) × StartsZero n bs

-- A token spells the challenge of the key and the difficulty and eight more bytes, and the hash of all
-- of these starts with as many zero bits as the difficulty says.
abbrev pub IsSolution : (Text → Text) → Text → ℕ → Text → Type 0
IsSolution sha256 key difficulty token =
    (nonce : Text) × (length nonce ≡ 8)
    × (Hex.decode token ≡ (sha256 (little_endian 8 difficulty ++ key) ++ nonce, none))
    × StartsZero difficulty
        (hash_bits (sha256 (sha256 (little_endian 8 difficulty ++ key) ++ nonce)))

zeros : List ℕ → ℕ
zeros [] = 0
zeros (b ∷ bs) = let rest = suc (zeros bs) in if eqb b 0 then rest else 0

zeros-StartsZero : (n : ℕ) (bs : List ℕ) → (n ≤ zeros bs) ↔ StartsZero n bs
unfolding zeros
zeros-StartsZero zero bs = ((λ h. tt), (λ h. omega arith))
zeros-StartsZero (suc n) [] = ((λ h. absurd (omega (arith, h))), (λ h. absurd h))
zeros-StartsZero (suc n) (b ∷ bs) = (
  (λ h. (ground (arith, h), (zeros-StartsZero n bs).0 (ground (arith, h)))),
  (λ h. ground (arith, h.0, (zeros-StartsZero n bs).1 h.1)),
)

zeros-append :
    (xs bs : List ℕ)
    → zeros (xs ++ bs) ≡ (if ltb (zeros xs) (length xs) then zeros xs else length xs + zeros bs)
unfolding zeros
zeros-append [] bs = omega arith
zeros-append (x ∷ xs) bs = ground (arith, zeros-append xs bs)

all_below : ℕ → (ℕ → Bool) → Bool
all_below zero test = true
all_below (suc n) test = test n && all_below n test

below-all_below :
    (n : ℕ) (test : ℕ → Bool) → all_below n test ≡ true → (b : ℕ) → b < n → test b ≡ true
unfolding all_below
below-all_below zero test h b l = absurd (omega (arith, l))
below-all_below (suc n) test h b l = elim (Bool-cases (eqb b n)) [
  | inl e ↦ rw ((eqb_iff b n).0 e) (ground (arith, h))
  | inr e ↦ below-all_below n test (ground (arith, h)) b (ground (arith, e, l))
]

zeros-byte_bits : (b : ℕ) → b < 256 → leading_zeros8 b ≡ zeros (byte_bits b)
unfolding leading_zeros8 zeros all_below
zeros-byte_bits b l =
    (eqb_iff (leading_zeros8 b) (zeros (byte_bits b))).0
      (below-all_below 256 (λ n. eqb (leading_zeros8 n) (zeros (byte_bits n))) refl b l)

leading_zeroes_count_bits :
    (hash : Text) → All (λ b. b < 256) hash → leading_zeroes_count hash ≡ zeros (hash_bits hash)
unfolding leading_zeroes_count zeros
leading_zeroes_count_bits [] h = refl
leading_zeroes_count_bits (b ∷ hash) (l, h) =
    rw (zeros-byte_bits b l, leading_zeroes_count_bits hash h)
      (sym (zeros-append (byte_bits b) (hash_bits hash)))

take-append : (xs ys : Text) → take (length xs) (xs ++ ys) ≡ xs
take-append [] ys = refl
take-append (x ∷ xs) ys = ap (λ (t : Text). x ∷ t) (take-append xs ys)

take-drop : (n : ℕ) (xs : Text) → take n xs ++ drop n xs ≡ xs
take-drop zero xs = refl
take-drop (suc n) [] = refl
take-drop (suc n) (x ∷ xs) = ap (λ (t : Text). x ∷ t) (take-drop n xs)

length-drop : (n : ℕ) (xs : Text) → length (drop n xs) ≡ length xs - n
length-drop zero xs = omega arith
length-drop (suc n) [] = omega arith
length-drop (suc n) (x ∷ xs) = omega (arith, length-drop n xs)

module _ (sha256 : Text → Text) (key : Text) (difficulty : ℕ) (token : Text) where
  -- what the code computes
  accepted :
      verify_challenge_answer sha256 key difficulty token ≡ output_ok
      → difficulty < 2 ^ 63
      → ((Hex.decode token).1 ≡ none)
        × (8 ≤ length (Hex.decode token).0)
        × (take (length (Hex.decode token).0 - 8) (Hex.decode token).0
            ≡ sha256 (little_endian 8 difficulty ++ key))
        × (difficulty ≤ leading_zeroes_count (sha256 (Hex.decode token).0))
  unfolding verify_challenge_answer get_challenge
  accepted h small = ground (
    arith,
    h,
    small,
    text_eq_iff (take (length (Hex.decode token).0 - 8) (Hex.decode token).0)
        (sha256 (little_endian 8 difficulty ++ key)),
  )

  accepting :
      (Hex.decode token).1 ≡ none
      → 8 ≤ length (Hex.decode token).0
      → take (length (Hex.decode token).0 - 8) (Hex.decode token).0
        ≡ sha256 (little_endian 8 difficulty ++ key)
      → difficulty ≤ leading_zeroes_count (sha256 (Hex.decode token).0)
      → verify_challenge_answer sha256 key difficulty token ≡ output_ok
  unfolding verify_challenge_answer get_challenge
  accepting no_error long front zeroes = ground (
    arith,
    no_error,
    long,
    front,
    zeroes,
    text_eq_iff (take (length (Hex.decode token).0 - 8) (Hex.decode token).0)
        (sha256 (little_endian 8 difficulty ++ key)),
  )

  accepts :
      (nonce : Text)
      → length nonce ≡ 8
      → Hex.decode token ≡ (sha256 (little_endian 8 difficulty ++ key) ++ nonce, none)
      → difficulty
        ≤ leading_zeroes_count (sha256 (sha256 (little_endian 8 difficulty ++ key) ++ nonce))
      → verify_challenge_answer sha256 key difficulty token ≡ output_ok
  accepts nonce long decoded zeroes =
      let c = sha256 (little_endian 8 difficulty ++ key) in
      let whole = length-append c nonce in
      let same : length (c ++ nonce) - 8 ≡ length c = omega (arith, whole, long) in
      accepting (rw decoded refl) (rw decoded (omega (arith, whole, long)))
        (rw (decoded, same) (take-append c nonce)) (rw decoded zeroes)

  zeroes_iff :
      ((t : Text) → All (λ b. b < 256) (sha256 t))
      → (t : Text)
      → (difficulty ≤ leading_zeroes_count (sha256 t))
        ↔ StartsZero difficulty (hash_bits (sha256 t))
  zeroes_iff bytes t =
      rw (leading_zeroes_count_bits (sha256 t) (bytes t))
        (zeros-StartsZero difficulty (hash_bits (sha256 t)))

  -- The check of the proof of work accepts the solutions, and nothing else, for a difficulty below
  -- 2^63 and a hash function that gives bytes.
  pub verify_challenge_answer-IsSolution :
      ((t : Text) → All (λ b. b < 256) (sha256 t))
      → difficulty < 2 ^ 63
      → (verify_challenge_answer sha256 key difficulty token ≡ output_ok)
        ↔ IsSolution sha256 key difficulty token
  verify_challenge_answer-IsSolution bytes small = (
    (λ ok.
        let (no_error, long, front, zeroes) = accepted ok small in
        solved (Hex.decode token) no_error long front
          ((zeroes_iff bytes (Hex.decode token).0).0 zeroes) refl),
    (λ (nonce, long, decoded, zero_bits).
        accepts nonce long decoded
          ((zeroes_iff bytes (sha256 (little_endian 8 difficulty ++ key) ++ nonce)).1 zero_bits)),
  )
    where
      solved :
          (d : Text × Option HexError)
          → d.1 ≡ none
          → 8 ≤ length d.0
          → take (length d.0 - 8) d.0 ≡ sha256 (little_endian 8 difficulty ++ key)
          → StartsZero difficulty (hash_bits (sha256 d.0))
          → Hex.decode token ≡ d
          → IsSolution sha256 key difficulty token
      solved (result, some err) no_error long front zero_bits e = absurd (ground (arith, no_error))
      solved (result, none) no_error long front zero_bits e =
          let n = length result - 8 in
          let whole : sha256 (little_endian 8 difficulty ++ key) ++ drop n result ≡ result =
            rw (← front) (take-drop n result) in
          (drop n result, omega (arith, length-drop n result, long), rw whole e, rw whole zero_bits)
