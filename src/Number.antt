-- ===== src/Number.antt =====
-- src/x-lib.c in the freestanding build: x_lib_inttostr, x_lib_strtoint and x_lib_memdup. Texts are
-- lists of bytes. `none` is undefined behaviour: an access past a buffer's end, or an integer overflow.
pub mod Reverse
pub mod Digits
pub mod Print
pub mod Scan
pub mod RoundTrip
pub mod Total
use Prim.Native.Nat.{bit_xor}
use x_expr.Prelude.{
  ℕ, zero, suc, ◌+◌, ◌-◌, ◌*◌, ◌/◌, ◌%◌, ◌^◌, Bool, true, false, not, ◌&&◌, ◌||◌, Option, none,
  some, List, [], ◌∷◌, ◌++◌, ◌==◌, ltb, leb, if◌then◌else◌, length, get_elem?, set,
}
use mathlib.Core.Option
use x_expr.Memory.{Word, Ptr, null, State, ok, fault, out_of_fuel, Cmd, pure, ◌>>=◌}
use x_expr.Sys.{System, x_sys_malloc, put_buffer, buffer_at}
use x_expr.Strings.{x_lib_memcpy, fresh_bytes}

-- offset + (offset >= 10 ? 'a' - 10 : '0')
unfoldable pub digit_char : ℕ → ℕ
digit_char offset = offset + (if leb 10 offset then b'a' - 10 else b'0')

-- The loop that writes the digits, the last one first: do { … } while ((num /= base));
unfoldable pub digits_loop : (rounds num base : ℕ) → Option (List ℕ)
digits_loop zero num base = none
digits_loop (suc k) num base =
    let more = Option.map (λ cs. digit_char (num % base) ∷ cs) (digits_loop k (num / base) base) in
    if num / base == 0 then some (digit_char (num % base) ∷ []) else more

-- *p1 ^= *p2; for the bytes at the offsets `i` and `j`.
unfoldable pub xor_at : (i j : ℕ) → List ℕ → Option (List ℕ)
xor_at i j b = elim (get_elem? b i) [
  | none ↦ none
  | some x ↦ elim (get_elem? b j) [ none ↦ none | some y ↦ some (set b i (bit_xor x y)) ]
]

-- The three statements that swap two bytes.
unfoldable pub swap : (i j : ℕ) → List ℕ → Option (List ℕ)
unfolding xor_at
swap i j b = Option.bind (xor_at i j b) λ b. Option.bind (xor_at j i b) (xor_at i j)

-- for (…; p2 > p1; ++p1, --p2)
unfoldable pub reverse_loop : (rounds i j : ℕ) → List ℕ → Option (List ℕ)
unfolding swap
reverse_loop zero i j b = none
reverse_loop (suc k) i j b =
    let next = Option.bind (swap i j b) (reverse_loop k (i + 1) (j - 1)) in
    if ltb i j then next else some b

-- The text over the first bytes of a buffer, if it has so many.
unfoldable pub overwrite : (b text : List ℕ) → Option (List ℕ)
overwrite b [] = some b
overwrite [] (c ∷ text) = none
overwrite (x ∷ b) (c ∷ text) = Option.map (λ rest. c ∷ rest) (overwrite b text)

-- num < 0, and the number that the digits are of. The smallest number has no negation.
abbrev pub is_negative : Word → Bool
is_negative num = leb (2 ^ 63) num

abbrev pub magnitude : Word → ℕ
magnitude num = if is_negative num then 2 ^ 64 - num else num

abbrev pub sign_text : Word → List ℕ
sign_text num = if is_negative num then b'-' ∷ [] else []

-- What x_lib_inttostr leaves in the buffer `b`: the sign, the digits and a NUL, and then the digits
-- turned round. A word has at most 63 digits behind the sign, so 64 rounds are enough.
unfoldable pub inttostr_into : Word → ℕ → List ℕ → Option (List ℕ)
unfolding digits_loop reverse_loop overwrite
inttostr_into num base b =
    if num == 2 ^ 63
    then none
    else (Option.bind (digits_loop 64 (magnitude num) base) λ digits.
        Option.bind (overwrite b (sign_text num ++ (digits ++ 0 ∷ [])))
          (reverse_loop 64 (length (sign_text num)) (length (sign_text num) + length digits - 1)))

-- A buffer that is there, with new contents.
unfoldable pub put_result : Ptr → Option (List ℕ) → Cmd Ptr
put_result p none s = fault
put_result p (some b) s = ok p (put_buffer s p b)

unfoldable pub x_lib_inttostr : Word → Ptr → ℕ → Cmd Ptr
unfolding inttostr_into put_result
x_lib_inttostr num p_str base =
    if p_str == null || ltb base 2 || ltb 36 base
    then pure null
    else (do b ← buffer_at p_str; put_result p_str (inttostr_into num base b))

-- The functions of <ctype.h> that the source uses. Their argument is an int, which must be the value
-- of an unsigned char or EOF; the source passes a char, which is signed, so a byte from 128 on is a
-- negative int and the call undefined.
pub record Ctype : Type 0 where
  pub isspace : ℕ → Bool
  pub isdigit : ℕ → Bool
  pub toupper : ℕ → ℕ

-- while (isspace(*p_str)) p_str++;
unfoldable pub skip_space : Ctype → List ℕ → Option (List ℕ)
skip_space ct [] = none
skip_space ct (c ∷ s) =
    let rest = skip_space ct s in
    if ltb c (2 ^ 7) then (if ct.isspace c then rest else some (c ∷ s)) else none

-- The optional sign: whether it was a minus, and what follows.
unfoldable pub take_sign : List ℕ → Bool × List ℕ
take_sign [] = (false, [])
take_sign (c ∷ s) =
    if c == b'+' then (false, s) else (if c == b'-' then (true, s) else (false, c ∷ s))

-- The base that a text names when `base` is 0, and what follows the prefix.
unfoldable pub detect_base : Ctype → ℕ → List ℕ → Option (ℕ × List ℕ)
detect_base ct base [] = if base == 0 then none else some (base, [])
detect_base ct base (c ∷ []) =
    if base == 0 then (if c == b'0' then none else some (10, c ∷ [])) else some (base, c ∷ [])
detect_base ct base (c ∷ d ∷ s) =
    if base == 0
    then (if c == b'0'
        then (if ltb d (2 ^ 7)
            then (if ct.toupper d == b'X' then some (16, s) else some (8, d ∷ s))
            else none)
        else some (10, c ∷ d ∷ s))
    else some (base, c ∷ d ∷ s)

-- The value of a digit or a letter, the inner `none` for another character.
unfoldable pub digit_of : Ctype → ℕ → Option (Option ℕ)
digit_of ct c =
    if ltb c (2 ^ 7)
    then some (
        if ct.isdigit c
        then some (c - b'0')
        else (if leb b'A' (ct.toupper c) && leb (ct.toupper c) b'Z'
            then some (ct.toupper c - b'A' + 10)
            else none))
    else none

-- The loop over the digits, from the number that those before spell.
unfoldable pub scan : Ctype → (base i : ℕ) → List ℕ → Option (ℕ × List ℕ)
unfolding digit_of
scan ct base i [] = none
scan ct base i (c ∷ s) = if c == 0 then some (i, c ∷ s) else elim (digit_of ct c) [
  | none ↦ none
  | some none ↦ some (i, c ∷ s)
  | some (some n) ↦
      let next = scan ct base (i * base + n) s in
      if leb base n then some (i, c ∷ s) else (if ltb (i * base + n) (2 ^ 63) then next else none)
]

-- i * sign
unfoldable pub with_sign : Bool → ℕ → Word
with_sign negative i = if negative then (2 ^ 64 - i) % 2 ^ 64 else i

-- The number, and the text from where *pp_end points.
unfoldable pub x_lib_strtoint : Ctype → List ℕ → ℕ → Option (Word × List ℕ)
unfolding skip_space take_sign detect_base scan with_sign
x_lib_strtoint ct p_str base = Option.bind (skip_space ct p_str) λ s.
    let (negative, s) = take_sign s in
    Option.bind (detect_base ct base s)
      λ (base', s). Option.map (λ (i, rest). (with_sign negative i, rest)) (scan ct base' 0 s)

-- A new buffer for `size` bytes, with those at `p_src`, or as malloc left them if that is NULL.
unfoldable pub x_lib_memdup : System → Ptr → ℕ → Cmd Ptr
unfolding x_lib_memcpy fresh_bytes put_result
x_lib_memdup sys p_src size = do
  p_dst ← x_sys_malloc sys size
  if p_dst == null then pure null else (λ s.
      let fresh = fresh_bytes (sys.residue s p_dst) 0 size in
      if p_src == null
      then put_result p_dst (some fresh) s
      else (do src ← buffer_at p_src; put_result p_dst (x_lib_memcpy fresh src size)) s)
