-- ===== src/Sys/ReadChar.antt =====
-- x_sys_read_char of src/x-sys.c on what `read` promises.
use x_expr.Prelude.{
  ℕ, ◌%◌, ◌^◌, ◌≤◌, ◌<◌, ◌≡◌, ◌⊎◌, ◌↔◌, inl, inr, List, [], ◌∷◌, ◌++◌, refl, arith, length,
}
use x_expr.Memory.{Word, State, ok, minus_one, asked}
use x_expr.Memory.Bytes.{Bytes, none_left, one_more}
use x_expr.Sys.{System, x_sys_read, x_sys_read_char, one_char, char_to_int, x_sys_eof}

-- read(2): all ones and nothing read, or the number of bytes that it put into the buffer, which is
-- at most the number that was asked for. A byte is below 256.
pub data Answered (size : Word) : Word × List ℕ → Type 0 where
  failed : Answered size (minus_one, [])
  ended : Answered size (0, [])
  got :
      (b : ℕ) (bs : List ℕ)
      → Bytes (b ∷ bs)
      → length (b ∷ bs) ≤ size
      → Answered size (length (b ∷ bs), b ∷ bs)

pub Answered-Bytes : {size : Word} {r : Word × List ℕ} → Answered size r → Bytes (r.1)
Answered-Bytes failed = none_left
Answered-Bytes ended = none_left
Answered-Bytes (got b bs small fits) = small

pub Answered-length : {size : Word} {r : Word × List ℕ} → Answered size r → length (r.1) ≤ size
Answered-length failed = omega arith
Answered-length ended = omega arith
Answered-length (got b bs small fits) = fits

-- What x_sys_read_char makes of the answer.
unfoldable pub read_value : List ℕ → ℕ
read_value [] = x_sys_eof
read_value (b ∷ _) = char_to_int b

one_char-Answered :
    {r : Word × List ℕ} → Answered 1 r → (s : State) → one_char r s ≡ ok (read_value (r.1)) s
unfolding one_char read_value char_to_int
one_char-Answered failed s = refl
one_char-Answered ended s = refl
one_char-Answered (got b [] (one_more small rest) fits) s =
    let same : b % 2 ^ 8 ≡ b = omega (arith, small) in rw same
one_char-Answered (got b (c ∷ bs) small fits) s = absurd (omega (arith, fits))

-- The value of a byte is all ones for 255 only.
byte-eof : {b : ℕ} → b < 256 → char_to_int b ≡ x_sys_eof → b ≡ 255
unfolding char_to_int
byte-eof small h = ground arith

-- EOF is the value of no byte but 255.
eof-Answered :
    {r : Word × List ℕ}
    → Answered 1 r
    → (read_value (r.1) ≡ x_sys_eof) ↔ ((r.1 ≡ []) ⊎ (r.1 ≡ 255 ∷ []))
unfolding read_value char_to_int
eof-Answered failed = (λ _. inl refl, λ _. refl)
eof-Answered ended = (λ _. inl refl, λ _. refl)
eof-Answered (got b [] (one_more small rest) fits) = (
  λ h. inr (rw (byte-eof small h)),
  λ h. elim h [ inl e ↦ ground (arith, e) | inr e ↦ ground (arith, e) ],
)
eof-Answered (got b (c ∷ bs) small fits) = absurd (omega (arith, fits))

-- When `read` answers a request for one byte as read(2) does, x_sys_read_char asks once and returns
-- the byte as an int, or EOF when there is none; and what it returns is EOF exactly when no byte
-- came or the byte is 255.
pub read_char-Answered :
    (sys : System) (fd : ℕ) {s : State}
    → Answered 1 (sys.read s fd 1)
    → (x_sys_read_char sys fd s
        ≡ ok (read_value (sys.read s fd 1).1) (record s { calls = s.calls ++ asked fd 1 ∷ [] }))
      × ((read_value (sys.read s fd 1).1 ≡ x_sys_eof)
          ↔ (((sys.read s fd 1).1 ≡ []) ⊎ ((sys.read s fd 1).1 ≡ 255 ∷ [])))
unfolding x_sys_read_char x_sys_read
read_char-Answered sys fd {s} a = (one_char-Answered a _, eof-Answered a)
