-- ===== src/Number/Scan.antt =====
-- x_lib_strtoint of src/x-lib.c on numerals, for the functions of <ctype.h> in the C locale.
use x_expr.Prelude.{
  refl, none, ◌⊎◌, ℕ, zero, suc, ◌+◌, ◌-◌, ◌*◌, ◌/◌, ◌%◌, ◌^◌, ◌≤◌, ◌<◌, ◌≡◌, true, false, ◌&&◌,
  inl, inr, some, List, [], ◌∷◌, ◌++◌, arith, ◌==◌, ltb, leb, sym, ap, ◌∙◌, Bool-cases, eq_of_==,
  ==_of_eq,
}
use mathlib.Core.List.{append_assoc}
use native.Mathlib.Nat.{div-add-mod, div-le_self}
use x_expr.Number.{Ctype, digit_char, digit_of, scan}
use x_expr.Number.Digits.{numeral, div-lt-pow}

-- What the C standard says of isdigit, and of isspace and toupper in the C locale, for the bytes that
-- a numeral and its sign consist of.
pub record CLocale (ct : Ctype) : Type 0 where
  pub digit : (c : ℕ) → ct.isdigit c ≡ (leb b'0' c && leb c b'9')
  pub lower : (c : ℕ) → b'a' ≤ c → c ≤ b'z' → ct.toupper c ≡ c - 32
  pub graph : (c : ℕ) → b'!' ≤ c → c ≤ b'~' → ct.isspace c ≡ false

pub ascii : (c : ℕ) → c < 2 ^ 7 → ltb c (2 ^ 7) ≡ true
ascii c h = ground (arith, h)

-- A character below 128 is a digit or not.
pub digit_of-cases :
    (ct : Ctype) (c : ℕ)
    → c < 2 ^ 7
    → (digit_of ct c ≡ some none) ⊎ ((d : ℕ) × (digit_of ct c ≡ some (some d)))
unfolding digit_of
digit_of-cases ct c small = rw (ascii c small) (elim (Bool-cases (ct.isdigit c)) [
  | inl digit ↦ inr (c - b'0', rw digit refl)
  | inr other ↦ elim (Bool-cases (leb b'A' (ct.toupper c) && leb (ct.toupper c) b'Z')) [
    | inl letter ↦ inr (ct.toupper c - b'A' + 10, rw (other, letter) refl)
    | inr none_such ↦ inl (rw (other, none_such) refl)
  ]
])

module _ {ct : Ctype} (c_locale : CLocale ct) where
  -- The character of a digit has the digit's value.
  digit_of-digit_char : (d : ℕ) → d < 36 → digit_of ct (digit_char d) ≡ some (some d)
  unfolding digit_of digit_char
  digit_of-digit_char d h = elim (Bool-cases (leb 10 d)) [
    | inl letter ↦
        let big : 10 ≤ d = ground (arith, letter) in
        rw
          (
            letter,
            ascii (d + (b'a' - 10)) (omega (arith, h)),
            c_locale.digit (d + (b'a' - 10)),
            c_locale.lower (d + (b'a' - 10)) (omega (arith, big)) (omega (arith, h)),
          )
          (ground (arith, big, h))
    | inr decimal ↦
        let small : d < 10 = ground (arith, decimal) in
        rw (decimal, ascii (d + b'0') (omega (arith, small)), c_locale.digit (d + b'0'))
          (ground (arith, small))
  ]

  -- One round on the character of a digit, while the number fits.
  scan_digit :
      (base i d : ℕ) (s : List ℕ)
      → base ≤ 36
      → d < base
      → i * base + d < 2 ^ 63
      → scan ct base i (digit_char d ∷ s) ≡ scan ct base (i * base + d) s
  unfolding scan
  scan_digit base i d s small lt fits =
      let some_char : (digit_char d == 0) ≡ false = unfold digit_char in ground arith in
      let digit : leb base d ≡ false = ground (arith, lt) in
      let room : ltb (i * base + d) (2 ^ 63) ≡ true = ground (arith, fits) in
      rw (some_char, digit_of-digit_char d (omega (arith, lt, small)), digit, room)

  -- The last digit of a number behind the others.
  scan_last :
      (base n : ℕ) (s : List ℕ)
      → 2 ≤ base
      → base ≤ 36
      → n < 2 ^ 63
      → scan ct base (n / base) (digit_char (n % base) ∷ s) ≡ scan ct base n s
  scan_last base n s big small fits =
      let back : n / base * base + n % base ≡ n = omega (arith, div-add-mod n base) in
      scan_digit base (n / base) (n % base) s small (grind arith) (omega (arith, back, fits))
      ∙ ap (λ i. scan ct base i s) back

  -- Reading the numeral of a number gives the number.
  pub scan-numeral :
      (k base n : ℕ) (s : List ℕ)
      → 2 ≤ base
      → base ≤ 36
      → n < 2 ^ k
      → n < 2 ^ 63
      → scan ct base 0 (numeral (suc k) base n ++ s) ≡ scan ct base n s
  unfolding numeral
  scan-numeral zero base n s big small lt fits =
      let none_left : n / base ≡ 0 =
        omega (arith, lt, div-lt-pow 0 base n big (omega (arith, lt))) in
      rw (==_of_eq (n / base) 0 none_left) (
        ap (λ i. scan ct base i (digit_char (n % base) ∷ s)) (sym none_left)
        ∙ scan_last base n s big small fits)
  scan-numeral (suc k) base n s big small lt fits = elim (Bool-cases (n / base == 0)) [
    | inl last ↦ rw last (
        ap (λ i. scan ct base i (digit_char (n % base) ∷ s)) (sym (eq_of_== (n / base) 0 last))
        ∙ scan_last base n s big small fits)
    | inr more ↦ rw more (
        ap (scan ct base 0)
          (append_assoc (numeral (suc k) base (n / base)) (digit_char (n % base) ∷ []) s)
        ∙ scan-numeral k base (n / base) (digit_char (n % base) ∷ s) big small
            (div-lt-pow k base n big lt) (omega (arith, div-le_self n base, fits))
        ∙ scan_last base n s big small fits)
  ]
