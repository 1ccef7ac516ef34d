-- ===== src/Bits/Xor.antt =====
-- Exclusive or of two numbers, as the swap of two bytes in src/x-lib.c uses it.
use Prim.Native.Nat.{bit_xor, differ, bit_xor-bitwise}
use x_expr.Prelude.{ℕ, zero, suc, ◌+◌, ◌*◌, ◌/◌, ◌%◌, ◌≤◌, ◌≡◌, refl, ap, ◌∙◌, arith}
use x_expr.Bits.{digits_step, bit, bit-le-one, bit_ext}

differ-le-one : (x y : ℕ) → x ≤ 1 → y ≤ 1 → differ x y ≤ 1
differ-le-one zero y p q = q
differ-le-one (suc zero) zero p q = p
differ-le-one (suc zero) (suc zero) p q = omega arith
differ-le-one (suc zero) (suc (suc y)) p q = absurd (omega (arith, q))
differ-le-one (suc (suc x)) y p q = absurd (omega (arith, p))

bit_xor_step : (a b : ℕ) → bit_xor a b ≡ bit_xor (a / 2) (b / 2) * 2 + differ (a % 2) (b % 2)
bit_xor_step a b = omega (
  arith,
  bit_xor-bitwise a b,
  bit_xor-bitwise (a / 2) (b / 2),
  digits_step (λ b. b) differ (λ b. omega arith) a b,
)

half-bit_xor : (a b : ℕ) → bit_xor a b / 2 ≡ bit_xor (a / 2) (b / 2)
half-bit_xor a b =
    omega (arith, bit_xor_step a b, differ-le-one (a % 2) (b % 2) (omega arith) (omega arith))

bit-bit_xor : (i a b : ℕ) → bit i (bit_xor a b) ≡ differ (bit i a) (bit i b)
unfolding bit
bit-bit_xor zero a b =
    omega (arith, bit_xor_step a b, differ-le-one (a % 2) (b % 2) (omega arith) (omega arith))
bit-bit_xor (suc i) a b = rw half-bit_xor (bit-bit_xor i (a / 2) (b / 2))

-- On digits: the second of two is given back, and so is the first.
differ_second : (x y : ℕ) → x ≤ 1 → y ≤ 1 → differ y (differ x y) ≡ x
differ_second zero zero p q = refl
differ_second zero (suc zero) p q = refl
differ_second (suc zero) zero p q = refl
differ_second (suc zero) (suc zero) p q = refl
differ_second x (suc (suc y)) p q = absurd (omega (arith, q))
differ_second (suc (suc x)) y p q = absurd (omega (arith, p))

differ_first : (x y : ℕ) → x ≤ 1 → y ≤ 1 → differ (differ x y) x ≡ y
differ_first zero zero p q = refl
differ_first zero (suc zero) p q = refl
differ_first (suc zero) zero p q = refl
differ_first (suc zero) (suc zero) p q = refl
differ_first x (suc (suc y)) p q = absurd (omega (arith, q))
differ_first (suc (suc x)) y p q = absurd (omega (arith, p))

pub bit_xor_second : (a b : ℕ) → bit_xor b (bit_xor a b) ≡ a
bit_xor_second a b = bit_ext _ _ λ i.
    bit-bit_xor i b (bit_xor a b)
    ∙ ap (differ (bit i b)) (bit-bit_xor i a b)
    ∙ differ_second (bit i a) (bit i b) (bit-le-one i a) (bit-le-one i b)

pub bit_xor_first : (a b : ℕ) → bit_xor (bit_xor a b) a ≡ b
bit_xor_first a b = bit_ext _ _ λ i.
    bit-bit_xor i (bit_xor a b) a
    ∙ ap (λ d. differ d (bit i a)) (bit-bit_xor i a b)
    ∙ differ_first (bit i a) (bit i b) (bit-le-one i a) (bit-le-one i b)
