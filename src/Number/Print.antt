-- ===== src/Number/Print.antt =====
-- What x_lib_inttostr of src/x-lib.c leaves in its buffer.
use x_expr.Prelude.{
  ℕ, ◌+◌, ◌-◌, ◌^◌, ◌≤◌, ◌<◌, ◌≡◌, ◌≢◌, refl, false, some, List, [], ◌∷◌, ◌++◌, arith, ltb, length,
  length-append, drop, sym, ap, ◌∙◌, ==_of_ne,
}
use mathlib.Core.List.{append_assoc, reverse, reverse-reverse, reverse-cons}
use mathlib.Core.Option
use x_expr.Memory.{Word, Ptr, null, State, ok}
use x_expr.Sys.{put_buffer, buffer_at}
use x_expr.Number.{
  overwrite, magnitude, sign_text, inttostr_into, put_result, x_lib_inttostr, reverse_loop,
}
use x_expr.Number.Reverse.{reverse_loop_lem}
use x_expr.Number.Digits.{numeral, digits_loop-numeral, length-numeral}

-- The text of a number: a minus sign if it is negative, and the numeral of its magnitude.
abbrev pub printed : ℕ → Word → List ℕ
printed base num = sign_text num ++ numeral 64 base (magnitude num)

overwrite_lem :
    (b text : List ℕ)
    → length text ≤ length b
    → overwrite b text ≡ some (text ++ drop (length text) b)
unfolding overwrite
overwrite_lem b [] h = refl
overwrite_lem [] (c ∷ text) h = absurd (omega (arith, h))
overwrite_lem (x ∷ b) (c ∷ text) h = rw (overwrite_lem b text (omega (arith, h)))

pub magnitude_lt : (num : Word) → num < 2 ^ 64 → num ≢ 2 ^ 63 → magnitude num < 2 ^ 63
magnitude_lt num h ne = ground arith

length-sign : (num : Word) → length (sign_text num) ≤ 1
length-sign num = ground arith

length-reverse : (xs : List ℕ) → length (reverse xs) ≡ length xs
length-reverse [] = refl
length-reverse (x ∷ xs) =
    ap length (reverse-cons x xs)
    ∙ omega (arith, length-append (reverse xs) (x ∷ []), length-reverse xs)

-- A sign, digits in the order of the loop and a NUL over the buffer, and the digits turned round.
assemble :
    (sign digits b : List ℕ)
    → 1 ≤ length digits
    → length digits < 64
    → length (sign ++ digits) < length b
    → Option.bind
        (overwrite b (sign ++ (reverse digits ++ 0 ∷ [])))
        (reverse_loop 64 (length sign) (length sign + length (reverse digits) - 1))
      ≡ some ((sign ++ digits) ++ (0 ∷ drop (length (sign ++ digits) + 1) b))
unfolding Option.bind
assemble sign digits b low high room =
    rw
      (
        overwrite_lem b (sign ++ (reverse digits ++ 0 ∷ [])) (omega (arith, len, all, room)),
        grouped,
      )
      (reverse_loop_lem 64 sign (reverse digits)
          (0 ∷ drop (length (sign ++ (reverse digits ++ 0 ∷ []))) b) (length sign)
          (length sign + length (reverse digits) - 1) refl (omega (arith, len, low))
          (omega (arith, len, high))
        ∙ ap some (
            rw (reverse-reverse digits, same)
              (sym (append_assoc sign digits (0 ∷ drop (length (sign ++ digits) + 1) b)))))
  where
    len : length (reverse digits) ≡ length digits
    len = length-reverse digits

    all : length (sign ++ (reverse digits ++ 0 ∷ [])) ≡ length (sign ++ digits) + 1
    all = omega (
      arith,
      len,
      length-append sign (reverse digits ++ 0 ∷ []),
      length-append (reverse digits) (0 ∷ []),
      length-append sign digits,
    )

    same : length (sign ++ (reverse digits ++ 0 ∷ [])) ≡ length (sign ++ digits) + 1
    same = all

    tail : List ℕ
    tail = drop (length (sign ++ (reverse digits ++ 0 ∷ []))) b

    grouped : (sign ++ (reverse digits ++ 0 ∷ [])) ++ tail ≡ sign ++ (reverse digits ++ (0 ∷ tail))
    grouped =
        append_assoc sign (reverse digits ++ 0 ∷ []) tail
        ∙ ap (λ l. sign ++ l) (append_assoc (reverse digits) (0 ∷ []) tail)

module _ (num : Word) (base : ℕ) (h : 2 ≤ base) (w : num < 2 ^ 64) (ne : num ≢ 2 ^ 63) where
  -- The sign, at least one digit, and at most 63.
  pub length-printed :
      (1 ≤ length (numeral 64 base (magnitude num))) × (length (printed base num) ≤ 64)
  length-printed =
      let (low, high) = length-numeral 63 base (magnitude num) h (magnitude_lt num w ne) in
      (
        low,
        omega (
          arith,
          high,
          length-append (sign_text num) (numeral 64 base (magnitude num)),
          length-sign num,
        ),
      )

  pub inttostr_into-printed :
      (b : List ℕ)
      → length (printed base num) < length b
      → inttostr_into num base b
        ≡ some (printed base num ++ (0 ∷ drop (length (printed base num) + 1) b))
  unfolding inttostr_into Option.bind
  inttostr_into-printed b room =
      rw
        (
          ==_of_ne num (2 ^ 63) ne,
          digits_loop-numeral 63 base (magnitude num) h (magnitude_lt num w ne),
        )
        (assemble (sign_text num) (numeral 64 base (magnitude num)) b low (omega (arith, high))
          room)
    where
      low : 1 ≤ length (numeral 64 base (magnitude num))
      low = length-printed.0

      high : length (numeral 64 base (magnitude num)) ≤ 63
      high = (length-numeral 63 base (magnitude num) h (magnitude_lt num w ne)).1

  -- For a base from 2 to 36, a word other than the smallest, and a buffer longer than the text,
  -- x_lib_inttostr returns the buffer's address and leaves in it a minus sign if the word is
  -- negative, the numeral of its magnitude with the highest digit first, a NUL, and the old bytes
  -- behind that; nothing else changes.
  pub inttostr-printed :
      (s : State) {p_str : Ptr} {b : List ℕ}
      → base ≤ 36
      → p_str ≢ null
      → s.buffers p_str ≡ some b
      → length (printed base num) < length b
      → x_lib_inttostr num p_str base s
        ≡ ok p_str
            (put_buffer s p_str (printed base num ++ (0 ∷ drop (length (printed base num) + 1) b)))
  unfolding x_lib_inttostr buffer_at put_result
  inttostr-printed s {p_str} {b} small there holds room =
      let low : ltb base 2 ≡ false = ground (arith, h) in
      let high : ltb 36 base ≡ false = ground (arith, small) in
      rw (
        ==_of_ne p_str null there,
        low,
        high,
        holds,
        ==_of_ne p_str null there,
        inttostr_into-printed b room,
        put_result,
      )
