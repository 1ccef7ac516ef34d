-- ===== src/Debug/Flags.antt =====
-- The flags in a dump of src/x-obj.c: the digits fit their buffer, and no zero leads them.
use x_expr.Prelude.{
  ℕ, zero, suc, ◌+◌, ◌-◌, ◌/◌, ◌%◌, ◌^◌, ◌≤◌, ◌<◌, ◌≡◌, ◌≢◌, refl, inl, inr, false, Option, none,
  some, List, [], ◌∷◌, ◌++◌, take-length, drop, length, length-append, arith, ◌==◌, sym, ap, subst,
  ◌∙◌, Bool-cases, eq_of_==, ne_of_==,
}
use mathlib.Core.Option
use x_expr.Memory.{Word}
use x_expr.Strings.{x_lib_strchr, strchr_loop, x_lib_strlen, strlen_loop}
use x_expr.Strings.Laws.{Text, done, more, strlen-Text}
use x_expr.Number.{digit_char, is_negative}
use x_expr.Number.Digits.{numeral, div-lt-pow}
use x_expr.Number.Print.{printed, inttostr_into-printed}
use x_expr.Debug.{Printf, c_text, flag_text}

Text-snoc : {t : List ℕ} {c : ℕ} → Text t → c ≢ 0 → Text (t ++ c ∷ [])
Text-snoc done h = more h done
Text-snoc (more ne t) h = more ne (Text-snoc t h)

digit_char_set : (n : ℕ) → digit_char (n % 2) ≢ 0
unfolding digit_char
digit_char_set n = ground arith

-- In base 2 the digits are no NUL bytes, fit the bits of the number, and start with a 1 unless it is 0.
numeral-Text : (k n : ℕ) → Text (numeral (suc k) 2 n)
unfolding numeral
numeral-Text zero n = elim (Bool-cases (n / 2 == 0)) [
  | inl last ↦ rw last (more (digit_char_set n) done)
  | inr longer ↦ rw longer (more (digit_char_set n) done)
]
numeral-Text (suc k) n = elim (Bool-cases (n / 2 == 0)) [
  | inl last ↦ rw last (more (digit_char_set n) done)
  | inr longer ↦ rw longer (Text-snoc (numeral-Text k (n / 2)) (digit_char_set n))
]

numeral_bits : (k j n : ℕ) → n < 2 ^ suc j → length (numeral (suc k) 2 n) ≤ suc j
unfolding numeral
numeral_bits zero j n h = elim (Bool-cases (n / 2 == 0)) [
  | inl last ↦ rw last (omega arith)
  | inr longer ↦ rw longer (omega arith)
]
numeral_bits (suc k) zero n h = elim (Bool-cases (n / 2 == 0)) [
  | inl last ↦ rw last (omega arith)
  | inr longer ↦ absurd (ne_of_== (n / 2) 0 longer (omega (arith, h)))
]
numeral_bits (suc k) (suc j) n h = elim (Bool-cases (n / 2 == 0)) [
  | inl last ↦ rw last (omega arith)
  | inr longer ↦
      let fewer = numeral_bits k j (n / 2) (div-lt-pow (suc j) 2 n (omega arith) h) in
      rw longer
        (omega (arith, fewer, length-append (numeral (suc k) 2 (n / 2)) (digit_char (n % 2) ∷ [])))
]

numeral_one : (k n : ℕ) → n < 2 ^ k → 1 ≤ n → (rest : List ℕ) × (numeral (suc k) 2 n ≡ b'1' ∷ rest)
unfolding numeral digit_char
numeral_one zero n h some_bit = absurd (omega (arith, h, some_bit))
numeral_one (suc k) n h some_bit = elim (Bool-cases (n / 2 == 0)) [
  | inl last ↦
      let one : n % 2 ≡ 1 = omega (arith, eq_of_== (n / 2) 0 last, some_bit) in ([], rw (last, one))
  | inr longer ↦
      let (rest, eq) =
        numeral_one k (n / 2) (div-lt-pow k 2 n (omega arith) h) (ground (arith, longer)) in
      (rest ++ digit_char (n % 2) ∷ [], rw (longer, eq))
]

pub c_text-Text : {t : List ℕ} (post : List ℕ) → Text t → c_text (t ++ 0 ∷ post) ≡ some t
unfolding c_text
c_text-Text {t} post text = rw (strlen-Text post text) (ap some (take-length t (0 ∷ post)))

-- What the dump makes of the buffer.
abbrev trimmed : List ℕ → Option (List ℕ)
trimmed b = Option.bind (x_lib_strchr b b'1') λ found. elim found [
  | some i ↦ c_text (drop i b)
  | none ↦ Option.bind (x_lib_strlen b) λ n. c_text (drop (n - 1) b)
]

trimmed-one :
    (rest post : List ℕ)
    → Text (b'1' ∷ rest)
    → trimmed ((b'1' ∷ rest) ++ 0 ∷ post) ≡ some (b'1' ∷ rest)
unfolding x_lib_strchr strchr_loop Option.bind
trimmed-one rest post text = c_text-Text post text

trimmed-zero : (post : List ℕ) → trimmed (b'0' ∷ 0 ∷ post) ≡ some (b'0' ∷ [])
unfolding x_lib_strchr strchr_loop Option.bind c_text x_lib_strlen strlen_loop
trimmed-zero post = refl

numeral_nil : numeral 64 2 0 ≡ b'0' ∷ []
unfolding numeral digit_char
numeral_nil = refl

trimmed-numeral :
    (n : ℕ) (post : List ℕ)
    → n < 2 ^ 63
    → trimmed (numeral 64 2 n ++ 0 ∷ post) ≡ some (numeral 64 2 n)
trimmed-numeral n post h = elim (Bool-cases (n == 0)) [
  | inl nil ↦
      subst (λ l. trimmed (l ++ 0 ∷ post) ≡ some l)
        (sym (ap (numeral 64 2) (eq_of_== n 0 nil) ∙ numeral_nil)) (trimmed-zero post)
  | inr some_bit ↦
      let (rest, eq) = numeral_one 63 n h (ground (arith, some_bit)) in
      subst (λ l. trimmed (l ++ 0 ∷ post) ≡ some l) (sym eq)
        (trimmed-one rest post (subst Text eq (numeral-Text 63 n)))
]

-- For flags below 2^32 and a buffer of 33 bytes, what x_obj_dump does to get the flags' text,
-- x_lib_inttostr in base 2 and x_lib_strchr of the first 1 or else the last byte by x_lib_strlen,
-- stays inside the buffer and ends with the flags' binary numeral without leading zeros, which is 0
-- for no flags.
pub flag_text-numeral :
    (pf : Printf) (flags : Word)
    → length (pf.stack 33) ≡ 33
    → flags < 2 ^ 32
    → flag_text pf flags ≡ some (numeral 64 2 flags)
unfolding flag_text Option.bind
flag_text-numeral pf flags size small =
    let plain : is_negative flags ≡ false = ground (arith, small) in
    let same : printed 2 flags ≡ numeral 64 2 flags = rw plain refl in
    let room : length (printed 2 flags) < length (pf.stack 33) =
      omega (arith, ap length same, numeral_bits 63 31 flags small, size) in
    let filled =
      inttostr_into-printed flags 2 (omega arith) (omega (arith, small)) (omega (arith, small))
        (pf.stack 33) room in
    ap (λ r. Option.bind r trimmed)
      (filled ∙ ap (λ l. some (l ++ 0 ∷ drop (length (printed 2 flags) + 1) (pf.stack 33))) same)
    ∙ trimmed-numeral flags (drop (length (printed 2 flags) + 1) (pf.stack 33))
        (omega (arith, small))
