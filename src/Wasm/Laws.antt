-- ===== src/Wasm/Laws.antt =====
-- The packing of allocations, and the targets of the proof of work.
use wpoven_nobot.Wasm.{
  new_allocation, pointer, size, make_target, leading_zeroes_count, leading_zeros8, target_byte,
}
use wpoven_nobot.Base.{
  ℕ, zero, suc, ◌*◌, ◌^◌, ◌≤◌, ◌<◌, ◌≡◌, refl, arith, ◌+◌, ◌-◌, Text, sym, ap, ◌∷◌,
}

-- NewAllocation packs a pointer and a size of 32 bits each so that both are read back.
pub allocation_parts :
    (ptr len : ℕ)
    → ptr < 2 ^ 32
    → len < 2 ^ 32
    → (pointer (new_allocation ptr len) ≡ ptr) × (size (new_allocation ptr len) ≡ len)
unfolding new_allocation pointer size
allocation_parts ptr len p l = (omega arith, omega arith)

target_byte_zeroes : (j bits : ℕ) → j ≤ bits → target_byte j 0 bits ≡ (0, bits - j)
unfolding target_byte
target_byte_zeroes zero bits h = ground arith
target_byte_zeroes (suc j) zero h = absurd (omega arith)
target_byte_zeroes (suc j) (suc bits) h = ground (arith, target_byte_zeroes j bits)

count_zero : (hash : Text) → leading_zeroes_count (0 ∷ hash) ≡ 8 + leading_zeroes_count hash
unfolding leading_zeroes_count leading_zeros8
count_zero hash = refl

make_target_next :
    (n bits rest : ℕ) → bits ≡ 8 + rest → make_target (suc n) bits ≡ 0 ∷ make_target n (bits - 8)
unfolding make_target
make_target_next n bits rest h =
    ap (λ p. p.0 ∷ make_target n p.1) (target_byte_zeroes 8 bits (omega arith))

zeroes_step :
    (n bits rest : ℕ)
    → bits ≡ 8 + rest
    → leading_zeroes_count (make_target n rest) ≡ rest
    → leading_zeroes_count (make_target (suc n) bits) ≡ bits
zeroes_step n bits rest h ih =
    let same : bits - 8 ≡ rest = omega arith in
    rw (make_target_next n bits rest h, count_zero (make_target n (bits - 8)), same, ih) (sym h)

-- The target that MakeChallenge compares with has as many leading zero bits as the difficulty says,
-- by the count of VerifyChallenge, as long as the target has that many bits.
leading_zeroes_count-make_target :
    (n difficulty : ℕ)
    → difficulty ≤ 8 * n
    → leading_zeroes_count (make_target n difficulty) ≡ difficulty
unfolding make_target target_byte leading_zeroes_count leading_zeros8
leading_zeroes_count-make_target zero d h = omega arith
leading_zeroes_count-make_target (suc n) zero h = refl
leading_zeroes_count-make_target (suc n) (suc zero) h = refl
leading_zeroes_count-make_target (suc n) (suc (suc zero)) h = refl
leading_zeroes_count-make_target (suc n) (suc (suc (suc zero))) h = refl
leading_zeroes_count-make_target (suc n) (suc (suc (suc (suc zero)))) h = refl
leading_zeroes_count-make_target (suc n) (suc (suc (suc (suc (suc zero))))) h = refl
leading_zeroes_count-make_target (suc n) (suc (suc (suc (suc (suc (suc zero)))))) h = refl
leading_zeroes_count-make_target (suc n) (suc (suc (suc (suc (suc (suc (suc zero))))))) h = refl
leading_zeroes_count-make_target (suc n) (suc (suc (suc (suc (suc (suc (suc (suc d)))))))) h =
    let ih = leading_zeroes_count-make_target n d (omega arith) in
    zeroes_step n (suc (suc (suc (suc (suc (suc (suc (suc d)))))))) d (omega arith) ih
