-- ===== src/Bits.antt =====
-- The bit operations of object flags (`&`, `|` and `& ~`), by their binary digits. Two numbers with
-- the same digits are equal, so a law of the operations is a fact about one digit.
pub mod Xor
use Prim.Native.Nat.{digits, bit_and-bitwise, bit_or-bitwise}
use x_expr.Prelude.{
  ℕ, zero, suc, ◌+◌, ◌-◌, ◌*◌, ◌/◌, ◌%◌, ◌≤◌, min, max, bit_and, bit_or, ◌≡◌, refl, sym, ap, arith,
  ◌∙◌,
}

-- `f & ~m`, for a complement as wide as `f`: the bits of `f` that `m` has go.
unfoldable pub bit_clear : ℕ → ℕ → ℕ
bit_clear f m = f - bit_and f m

-- The count of digits to go does not matter once the first number fits it.
module _ (z : ℕ → ℕ) (f : ℕ → ℕ → ℕ) where
  digits_count : (n m a b : ℕ) → a ≤ n → a ≤ m → digits z f n a b ≡ digits z f m a b
  digits_count zero zero a b p q = refl
  digits_count zero (suc m) zero b p q = refl
  digits_count zero (suc m) (suc a) b p q = elim p [ ]
  digits_count (suc n) zero zero b p q = refl
  digits_count (suc n) zero (suc a) b p q = elim q [ ]
  digits_count (suc n) (suc m) zero b p q = refl
  digits_count (suc n) (suc m) (suc a) b p q =
      ap (λ t. t * 2 + f (suc a % 2) (b % 2))
        (digits_count n m (suc a / 2) (b / 2) (omega arith) (omega arith))

  pub digits_step :
      ((b : ℕ) → z b ≡ z (b / 2) * 2 + f 0 (b % 2))
      → (a b : ℕ) → digits z f a a b ≡ digits z f (a / 2) (a / 2) (b / 2) * 2 + f (a % 2) (b % 2)
  digits_step start zero b = start b
  digits_step start (suc a) b =
      ap (λ t. t * 2 + f (suc a % 2) (b % 2))
        (digits_count a (suc a / 2) (suc a / 2) (b / 2) (omega arith) (omega arith))

bit_and_step : (a b : ℕ) → bit_and a b ≡ bit_and (a / 2) (b / 2) * 2 + min (a % 2) (b % 2)
bit_and_step a b = omega (
  arith,
  bit_and-bitwise a b,
  bit_and-bitwise (a / 2) (b / 2),
  digits_step (λ b. zero) min (λ b. omega arith) a b,
)

bit_or_step : (a b : ℕ) → bit_or a b ≡ bit_or (a / 2) (b / 2) * 2 + max (a % 2) (b % 2)
bit_or_step a b = omega (
  arith,
  bit_or-bitwise a b,
  bit_or-bitwise (a / 2) (b / 2),
  digits_step (λ b. b) max (λ b. omega arith) a b,
)

-- The digit of `a` at position `i`.
unfoldable pub bit : ℕ → ℕ → ℕ
bit zero a = a % 2
bit (suc i) a = bit i (a / 2)

pub bit-le-one : (i a : ℕ) → bit i a ≤ 1
unfolding bit
bit-le-one zero a = omega arith
bit-le-one (suc i) a = bit-le-one i (a / 2)

half-bit_and : (a b : ℕ) → bit_and a b / 2 ≡ bit_and (a / 2) (b / 2)
half-bit_and a b = omega (arith, bit_and_step a b)

half-bit_or : (a b : ℕ) → bit_or a b / 2 ≡ bit_or (a / 2) (b / 2)
half-bit_or a b = omega (arith, bit_or_step a b)

bit-bit_and : (i a b : ℕ) → bit i (bit_and a b) ≡ min (bit i a) (bit i b)
unfolding bit
bit-bit_and zero a b = omega (arith, bit_and_step a b)
bit-bit_and (suc i) a b = rw half-bit_and (bit-bit_and i (a / 2) (b / 2))

bit-bit_or : (i a b : ℕ) → bit i (bit_or a b) ≡ max (bit i a) (bit i b)
unfolding bit
bit-bit_or zero a b = omega (arith, bit_or_step a b)
bit-bit_or (suc i) a b = rw half-bit_or (bit-bit_or i (a / 2) (b / 2))

-- Equal digits make equal numbers.
bit_ext_below : (n a b : ℕ) → a ≤ n → b ≤ n → ((i : ℕ) → bit i a ≡ bit i b) → a ≡ b
unfolding bit
bit_ext_below zero a b p q h = omega arith
bit_ext_below (suc n) a b p q h =
    omega (arith, h 0, bit_ext_below n (a / 2) (b / 2) (omega arith) (omega arith) (λ i. h (suc i)))

pub bit_ext : (a b : ℕ) → ((i : ℕ) → bit i a ≡ bit i b) → a ≡ b
bit_ext a b = bit_ext_below (a + b) a b (omega arith) (omega arith)

bit_and-le_below : (n a b : ℕ) → a ≤ n → bit_and a b ≤ a
bit_and-le_below zero zero b p = omega (arith, bit_and-bitwise 0 b)
bit_and-le_below zero (suc a) b p = elim p [ ]
bit_and-le_below (suc n) zero b p = omega (arith, bit_and-bitwise 0 b)
bit_and-le_below (suc n) (suc a) b p =
    omega (arith, bit_and_step (suc a) b, bit_and-le_below n (suc a / 2) (b / 2) (omega arith))

bit_and-le : (a b : ℕ) → bit_and a b ≤ a
bit_and-le a b = bit_and-le_below a a b (omega arith)

half-bit_clear : (a b : ℕ) → bit_clear a b / 2 ≡ bit_clear (a / 2) (b / 2)
unfolding bit_clear
half-bit_clear a b = omega (arith, bit_and_step a b, bit_and-le (a / 2) (b / 2))

bit-bit_clear : (i a b : ℕ) → bit i (bit_clear a b) ≡ bit i a - bit i b
unfolding bit
bit-bit_clear zero a b =
    unfold bit_clear in omega (arith, bit_and_step a b, bit_and-le (a / 2) (b / 2))
bit-bit_clear (suc i) a b = rw half-bit_clear (bit-bit_clear i (a / 2) (b / 2))

bit-zero : (i : ℕ) → bit i 0 ≡ 0
unfolding bit
bit-zero zero = refl
bit-zero (suc i) = bit-zero i

-- The digit of a conjunction that is 0 everywhere.
bit-disjoint : (i a b : ℕ) → bit_and a b ≡ 0 → min (bit i a) (bit i b) ≡ 0
bit-disjoint i a b h = sym (bit-bit_and i a b) ∙ ap (bit i) h ∙ bit-zero i

-- A mask that was set is read back whole.
pub bit_and-bit_or : (f m : ℕ) → bit_and (bit_or f m) m ≡ m
bit_and-bit_or f m = bit_ext _ _ λ i. omega (arith, bit-bit_and i (bit_or f m) m, bit-bit_or i f m)

-- A mask that was cleared has no bit left.
pub bit_and-bit_clear : (f m : ℕ) → bit_and (bit_clear f m) m ≡ 0
bit_and-bit_clear f m = bit_ext _ _ λ i. omega (
  arith,
  bit-bit_and i (bit_clear f m) m,
  bit-bit_clear i f m,
  bit-le-one i f,
  bit-le-one i m,
  bit-zero i,
)

-- Setting or clearing a mask leaves the bits outside it.
pub bit_and-bit_or_other : (f m k : ℕ) → bit_and m k ≡ 0 → bit_and (bit_or f m) k ≡ bit_and f k
bit_and-bit_or_other f m k h = bit_ext _ _ λ i.
    omega (
      arith,
      bit-bit_and i (bit_or f m) k,
      bit-bit_or i f m,
      bit-bit_and i f k,
      bit-disjoint i m k h,
    )

pub bit_and-bit_clear_other :
    (f m k : ℕ) → bit_and m k ≡ 0 → bit_and (bit_clear f m) k ≡ bit_and f k
bit_and-bit_clear_other f m k h = bit_ext _ _ λ i. omega (
  arith,
  bit-bit_and i (bit_clear f m) k,
  bit-bit_clear i f m,
  bit-bit_and i f k,
  bit-disjoint i m k h,
  bit-le-one i f,
)

-- Setting a mask and clearing it gives back a value that had no bit of it.
pub bit_clear-bit_or : (f m : ℕ) → bit_and f m ≡ 0 → bit_clear (bit_or f m) m ≡ f
bit_clear-bit_or f m h = bit_ext _ _ λ i. omega (
  arith,
  bit-bit_clear i (bit_or f m) m,
  bit-bit_or i f m,
  bit-disjoint i f m h,
  bit-le-one i f,
  bit-le-one i m,
)

-- Nothing is cleared where nothing of the mask is set.
pub bit_clear-disjoint : (f m : ℕ) → bit_and f m ≡ 0 → bit_clear f m ≡ f
unfolding bit_clear
bit_clear-disjoint f m h = omega arith
