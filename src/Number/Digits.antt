-- ===== src/Number/Digits.antt =====
-- The digits that x_lib_inttostr of src/x-lib.c writes, against the numeral of a number.
use x_expr.Prelude.{
  ℕ, zero, suc, ◌/◌, ◌%◌, ◌^◌, ◌≤◌, ◌<◌, ◌≡◌, inl, inr, Bool-cases, true, false, some, List, [],
  ◌∷◌, ◌++◌, arith, ◌==◌, if◌then◌else◌, length, length-append, ==_of_eq, ne_of_==, max,
}
use mathlib.Core.List.{reverse, reverse-append}
use native.Mathlib.Nat.{div-add-mod, mul-le-mul_right}
use x_expr.Number.{digit_char, digits_loop}

-- The numeral of a number of at most `k` digits, the highest first.
unfoldable pub numeral : (k base n : ℕ) → List ℕ
numeral zero base n = []
numeral (suc k) base n =
    (if n / base == 0 then [] else numeral k base (n / base)) ++ digit_char (n % base) ∷ []

-- A quotient by at least 2 is at most half.
pub div-lt-pow : (k base n : ℕ) → 2 ≤ base → n < 2 ^ suc k → n / base < 2 ^ k
div-lt-pow k base n h lt = omega (arith, lt, div-add-mod n base, mul-le-mul_right (n / base) h)

reverse-snoc : (xs : List ℕ) (c : ℕ) → reverse (xs ++ c ∷ []) ≡ c ∷ reverse xs
reverse-snoc xs c = reverse-append xs (c ∷ [])

-- With as many rounds as the number has binary digits, and one more, the loop ends with the numeral
-- turned round.
pub digits_loop-numeral :
    (k base n : ℕ)
    → 2 ≤ base
    → n < 2 ^ k
    → digits_loop (suc k) n base ≡ some (reverse (numeral (suc k) base n))
unfolding digits_loop numeral
digits_loop-numeral zero base n h lt =
    let none_left : (n / base == 0) ≡ true =
      ==_of_eq (n / base) 0 (omega (arith, lt, div-lt-pow 0 base n h (omega (arith, lt)))) in
    rw none_left
digits_loop-numeral (suc k) base n h lt = elim (Bool-cases (n / base == 0)) [
  | inl last ↦ rw last
  | inr more ↦ rw (
    more,
    digits_loop-numeral k base (n / base) h (div-lt-pow k base n h lt),
    reverse-snoc (numeral (suc k) base (n / base)) (digit_char (n % base)),
  )
]

-- A number that is not 0 has a binary digit.
one_digit : (k n : ℕ) → n < 2 ^ k → (n == 0) ≡ false → 1 ≤ k
one_digit zero n lt h = absurd (ne_of_== n 0 h (omega (arith, lt)))
one_digit (suc k) n lt h = omega arith

-- The text of a number: at least one byte, and no more than the number has binary digits.
pub length-numeral :
    (k base n : ℕ)
    → 2 ≤ base
    → n < 2 ^ k
    → (1 ≤ length (numeral (suc k) base n)) × (length (numeral (suc k) base n) ≤ max 1 k)
unfolding numeral
length-numeral zero base n h lt =
    let none_left : (n / base == 0) ≡ true =
      ==_of_eq (n / base) 0 (omega (arith, lt, div-lt-pow 0 base n h (omega (arith, lt)))) in
    rw none_left (omega arith)
length-numeral (suc k) base n h lt = elim (Bool-cases (n / base == 0)) [
  | inl last ↦ rw last (omega arith)
  | inr more ↦
      let (low, high) = length-numeral k base (n / base) h (div-lt-pow k base n h lt) in
      rw more (
        omega (
          arith,
          low,
          high,
          length-append (numeral (suc k) base (n / base)) (digit_char (n % base) ∷ []),
          one_digit k (n / base) (div-lt-pow k base n h lt) more,
        ))
]
