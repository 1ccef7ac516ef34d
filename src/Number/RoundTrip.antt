-- ===== src/Number/RoundTrip.antt =====
-- x_lib_strtoint of src/x-lib.c reads what x_lib_inttostr prints.
use x_expr.Prelude.{
  ℕ, zero, suc, ◌+◌, ◌^◌, ◌%◌, ◌/◌, ◌≤◌, ◌<◌, ◌≡◌, refl, ◌≢◌, inl, inr, Bool, true, false, none,
  some, List, [], ◌∷◌, ◌++◌, arith, ◌==◌, ltb, if◌then◌else◌, length, drop, sym, ap, ◌∙◌,
  Bool-cases, ==_of_ne,
}
use mathlib.Core.Option
use x_expr.Memory.{Word, Ptr, null, State, ok}
use x_expr.Sys.{put_buffer}
use x_expr.Number.{
  Ctype, digit_char, digit_of, skip_space, take_sign, detect_base, scan, with_sign, x_lib_strtoint,
  is_negative, magnitude, x_lib_inttostr,
}
use x_expr.Number.Digits.{numeral}
use x_expr.Number.Print.{printed, magnitude_lt, length-printed, inttostr-printed}
use x_expr.Number.Scan.{CLocale, ascii, scan-numeral}

-- The first byte of a numeral is the character of a digit.
numeral_head :
    (k base n : ℕ)
    → 2 ≤ base
    → (d : ℕ) × (rest : List ℕ) × (d < base) × (numeral (suc k) base n ≡ digit_char d ∷ rest)
unfolding numeral
numeral_head zero base n h = elim (Bool-cases (n / base == 0)) [
  | inl last ↦ (n % base, [], grind arith, rw last)
  | inr more ↦ (n % base, [], grind arith, rw more)
]
numeral_head (suc k) base n h = elim (Bool-cases (n / base == 0)) [
  | inl last ↦ (n % base, [], grind arith, rw last)
  | inr more ↦
      let (d, rest, lt, eq) = numeral_head k base (n / base) h in
      (d, rest ++ digit_char (n % base) ∷ [], lt, rw (more, eq))
]

-- With a base given, nothing is looked for.
pub detect_given :
    (ct : Ctype) (base : ℕ) (s : List ℕ) → base ≢ 0 → detect_base ct base s ≡ some (base, s)
unfolding detect_base
detect_given ct base [] ne = rw (==_of_ne base 0 ne)
detect_given ct base (c ∷ []) ne = rw (==_of_ne base 0 ne)
detect_given ct base (c ∷ d ∷ s) ne = rw (==_of_ne base 0 ne)

digit_char_bounds : (d : ℕ) → d < 36 → (b'0' ≤ digit_char d) × (digit_char d ≤ b'z')
unfolding digit_char
digit_char_bounds d h = ground arith

-- The result for a sign and what the loop over the digits returns.
abbrev signed_result : Bool → ℕ × List ℕ → Word × List ℕ
signed_result negative (i, rest) = (with_sign negative i, rest)

-- A character that is no space is not skipped.
skip_space-dense :
    (ct : Ctype) (c : ℕ) (rest : List ℕ)
    → c < 2 ^ 7
    → ct.isspace c ≡ false
    → skip_space ct (c ∷ rest) ≡ some (c ∷ rest)
unfolding skip_space
skip_space-dense ct c rest low dense = rw (ascii c low, dense)

module _ (ct : Ctype) (base : ℕ) (given : base ≢ 0) where
  -- No space and no sign in front.
  strtoint_plain :
      (c : ℕ) (rest : List ℕ)
      → c < 2 ^ 7
      → ct.isspace c ≡ false
      → c ≢ b'+'
      → c ≢ b'-'
      → x_lib_strtoint ct (c ∷ rest) base
        ≡ Option.map (signed_result false) (scan ct base 0 (c ∷ rest))
  unfolding x_lib_strtoint take_sign Option.bind
  strtoint_plain c rest low dense plus minus = rw (
    skip_space-dense ct c rest low dense,
    ==_of_ne c b'+' plus,
    ==_of_ne c b'-' minus,
    detect_given ct base (c ∷ rest) given,
  )

  -- A minus in front.
  strtoint_minus :
      (rest : List ℕ)
      → ct.isspace b'-' ≡ false
      → x_lib_strtoint ct (b'-' ∷ rest) base ≡ Option.map (signed_result true) (scan ct base 0 rest)
  unfolding x_lib_strtoint skip_space take_sign Option.bind
  strtoint_minus rest dense = rw (dense, detect_given ct base rest given)

-- -w as a word, for the magnitude of a negative word.
with_sign-magnitude :
    (num : Word) → num < 2 ^ 64 → num ≢ 2 ^ 63 → with_sign (is_negative num) (magnitude num) ≡ num
unfolding with_sign
with_sign-magnitude num w ne = ground arith

module _ {ct : Ctype} (c_locale : CLocale ct) (base : ℕ) (big : 2 ≤ base) (small : base ≤ 36) where
  read_plain :
      (n : ℕ) (s : List ℕ)
      → n < 2 ^ 63
      → x_lib_strtoint ct (numeral 64 base n ++ s) base
        ≡ Option.map (signed_result false) (scan ct base n s)
  read_plain n s fits =
      let (d, rest, lt, eq) = numeral_head 63 base n big in
      let (low, high) = digit_char_bounds d (omega (arith, lt, small)) in
      let dense = c_locale.graph (digit_char d) (omega (arith, low)) (omega (arith, high)) in
      let split : numeral 64 base n ++ s ≡ digit_char d ∷ (rest ++ s) = ap (λ l. l ++ s) eq in
      ap (λ l. x_lib_strtoint ct l base) split
      ∙ strtoint_plain ct base (omega (arith, big)) (digit_char d) (rest ++ s) (omega (arith, high))
          dense (omega (arith, low)) (omega (arith, low))
      ∙ ap (λ l. Option.map (signed_result false) (scan ct base 0 l)) (sym split)
      ∙ ap (Option.map (signed_result false))
          (scan-numeral c_locale 63 base n s big small fits fits)

  read_signed :
      (negative : Bool) (n : ℕ) (s : List ℕ)
      → n < 2 ^ 63
      → x_lib_strtoint ct (((if negative then b'-' ∷ [] else []) ++ numeral 64 base n) ++ s) base
        ≡ Option.map (signed_result negative) (scan ct base n s)
  read_signed true n s fits =
      strtoint_minus ct base (omega (arith, big)) (numeral 64 base n ++ s)
        (c_locale.graph b'-' (omega arith) (omega arith))
      ∙ ap (Option.map (signed_result true)) (scan-numeral c_locale 63 base n s big small fits fits)
  read_signed false n s fits = read_plain n s fits

  scan_nul : (n : ℕ) (post : List ℕ) → scan ct base n (0 ∷ post) ≡ some (n, 0 ∷ post)
  unfolding scan
  scan_nul n post = refl

  scan_high : (n c : ℕ) (post : List ℕ) → 2 ^ 7 ≤ c → scan ct base n (c ∷ post) ≡ none
  unfolding scan digit_of
  scan_high n c post h =
      let some_char : (c == 0) ≡ false = ground (arith, h) in
      let beyond : ltb c (2 ^ 7) ≡ false = ground (arith, h) in rw (some_char, beyond)

  -- The text of a word and a NUL are read as the word.
  pub strtoint-printed :
      (num : Word) (post : List ℕ)
      → num < 2 ^ 64
      → num ≢ 2 ^ 63
      → x_lib_strtoint ct (printed base num ++ 0 ∷ post) base ≡ some (num, 0 ∷ post)
  strtoint-printed num post w ne =
      read_signed (is_negative num) (magnitude num) (0 ∷ post) (magnitude_lt num w ne)
      ∙ ap (Option.map (signed_result (is_negative num))) (scan_nul (magnitude num) post)
      ∙ ap (λ r. some (r, 0 ∷ post)) (with_sign-magnitude num w ne)

  -- For the functions of <ctype.h> in the C locale, a base from 2 to 36 and a word other than the
  -- smallest: on the word's text as x_lib_inttostr prints it, followed at once by a byte of 128 or
  -- more, x_lib_strtoint with that base is undefined behaviour.
  pub strtoint-high :
      (num : Word) (c : ℕ) (post : List ℕ)
      → num < 2 ^ 64
      → num ≢ 2 ^ 63
      → 2 ^ 7 ≤ c
      → x_lib_strtoint ct (printed base num ++ c ∷ post) base ≡ none
  strtoint-high num c post w ne h =
      read_signed (is_negative num) (magnitude num) (c ∷ post) (magnitude_lt num w ne)
      ∙ ap (Option.map (signed_result (is_negative num))) (scan_high (magnitude num) c post h)

-- For the functions of <ctype.h> in the C locale, a base from 2 to 36, a word other than the
-- smallest, and a buffer of at least 65 bytes, x_lib_inttostr returns the buffer's address, and
-- x_lib_strtoint with the same base reads the word back from what is in the buffer then and ends at
-- the NUL behind the digits.
pub strtoint-inttostr :
    {ct : Ctype}
    → CLocale ct
    → (base : ℕ) (num : Word) (s : State) {p_str : Ptr} {b : List ℕ} → 2 ≤ base
    → base ≤ 36
    → num < 2 ^ 64
    → num ≢ 2 ^ 63
    → p_str ≢ null
    → s.buffers p_str ≡ some b
    → 65 ≤ length b
    → (t : State) × (b' : List ℕ) × (x_lib_inttostr num p_str base s ≡ ok p_str t)
      × (t.buffers p_str ≡ some b')
      × (x_lib_strtoint ct b' base ≡ some (num, 0 ∷ drop (length (printed base num) + 1) b))
strtoint-inttostr c_locale base num s {p_str} {b} big small w ne there holds room =
    let out = printed base num ++ (0 ∷ drop (length (printed base num) + 1) b) in
    (
      put_buffer s p_str out,
      out,
      inttostr-printed num base big w ne s small there holds
          (omega (arith, (length-printed num base big w ne).1, room)),
      ground arith,
      strtoint-printed c_locale base big small num (drop (length (printed base num) + 1) b) w ne,
    )
