-- ===== src/Strings.antt =====
-- src/x-stdlib.c in the freestanding build. A string argument is the buffer from its pointer on, byte
-- by byte as unsigned char; `none` is an access past a buffer's end. A destination is what the buffer
-- holds before, and the result is what it holds afterwards; a returned pointer into a string is the
-- offset in it.
pub mod Laws
pub mod Dup
pub mod Within
use x_expr.Prelude.{
  ℕ, zero, suc, ◌+◌, ◌-◌, ◌%◌, ◌^◌, Bool, true, false, not, ◌&&◌, Option, none, some, List, [], ◌∷◌,
  ◌==◌, set, ltb, leb, if◌then◌else◌, length, get_elem?,
}
use x_expr.Memory.{Word, Ptr, null, ok, fault, Cmd, pure, ◌>>=◌}
use x_expr.Sys.{System, x_sys_malloc, put_buffer}

-- return i >= 0 ? i : -i; on an int of 32 bits. The negation of -2^31 overflows, which is undefined.
unfoldable pub x_lib_abs : ℕ → Option ℕ
x_lib_abs i = if ltb i (2 ^ 31) then some i else (if i == 2 ^ 31 then none else some (2 ^ 32 - i))

-- while (size--) *pd++ = *ps++;
unfoldable pub x_lib_memcpy : (dest src : List ℕ) → ℕ → Option (List ℕ)
x_lib_memcpy dest src zero = some dest
x_lib_memcpy [] src (suc size) = none
x_lib_memcpy (d ∷ dest) [] (suc size) = none
x_lib_memcpy (d ∷ dest) (c ∷ src) (suc size) = elim (x_lib_memcpy dest src size) [
  | none ↦ none
  | some rest ↦ some (c ∷ rest)
]

-- The same loop with both pointers into one buffer, at two offsets: a byte is read when its turn comes,
-- so a byte that was written before is read as it is then.
unfoldable pub copy_within : (b : List ℕ) → (to from : ℕ) → ℕ → Option (List ℕ)
copy_within b to from zero = some b
copy_within b to from (suc size) =
    if ltb to (length b)
    then (elim (get_elem? b from) [
      | none ↦ none
      | some c ↦ copy_within (set b to c) (to + 1) (from + 1) size
    ])
    else none

-- while (size--) *pd++ = (unsigned char)byte;
unfoldable pub x_lib_memset : List ℕ → ℕ → ℕ → Option (List ℕ)
x_lib_memset dest byte zero = some dest
x_lib_memset [] byte (suc size) = none
x_lib_memset (d ∷ dest) byte (suc size) = elim (x_lib_memset dest byte size) [
  | none ↦ none
  | some rest ↦ some (byte % 2 ^ 8 ∷ rest)
]

-- The loop of x_lib_strchr at offset `at`: the outer result is the run, the inner the pointer, `none`
-- for NULL.
unfoldable pub strchr_loop : ℕ → List ℕ → ℕ → Option (Option ℕ)
strchr_loop at [] c = none
strchr_loop at (b ∷ p_str) c =
    let later = strchr_loop (at + 1) p_str c in
    if not (b == 0) && not (b == c) then later else some (if b == c then some at else none)

unfoldable pub x_lib_strchr : List ℕ → ℕ → Option (Option ℕ)
unfolding strchr_loop
x_lib_strchr p_str c = strchr_loop 0 p_str (c % 2 ^ 8)

-- The bytes at which a comparison stops; their difference is the int that the source returns.
unfoldable pub x_lib_strcmp : (p_str1 p_str2 : List ℕ) → Option (ℕ × ℕ)
x_lib_strcmp [] p_str2 = none
x_lib_strcmp (a ∷ p_str1) [] = none
x_lib_strcmp (a ∷ p_str1) (b ∷ p_str2) =
    let later = x_lib_strcmp p_str1 p_str2 in
    if not (a == 0) && not (b == 0) && (b == a) then later else some (a, b)

-- for (size=0; *p_str++; size++) ;
unfoldable pub strlen_loop : ℕ → List ℕ → Option ℕ
strlen_loop size [] = none
strlen_loop size (c ∷ p_str) = if c == 0 then some size else strlen_loop (size + 1) p_str

unfoldable pub x_lib_strlen : List ℕ → Option ℕ
unfolding strlen_loop
x_lib_strlen p_str = strlen_loop 0 p_str

-- The loop of x_lib_strncmp when `n` is what `--n` leaves.
unfoldable pub strncmp_loop : ℕ → (p_str1 p_str2 : List ℕ) → Option (ℕ × ℕ)
strncmp_loop n [] p_str2 = none
strncmp_loop n (a ∷ p_str1) [] = none
strncmp_loop zero (a ∷ p_str1) (b ∷ p_str2) = some (a, b)
strncmp_loop (suc n) (a ∷ p_str1) (b ∷ p_str2) =
    let later = strncmp_loop n p_str1 p_str2 in
    if not (a == 0) && not (b == 0) && (b == a) then later else some (a, b)

unfoldable pub x_lib_strncmp : (p_str1 p_str2 : List ℕ) → ℕ → Option (ℕ × ℕ)
unfolding strncmp_loop
x_lib_strncmp p_str1 p_str2 zero = some (0, 0)
x_lib_strncmp p_str1 p_str2 (suc n) = strncmp_loop n p_str1 p_str2

-- for (len = 0; len < size && p_str[len]; len++) ;
unfoldable pub strndup_len : List ℕ → (size len : ℕ) → Option ℕ
strndup_len p_str zero len = some len
strndup_len [] (suc size) len = none
strndup_len (c ∷ p_str) (suc size) len =
    let later = strndup_len p_str size (len + 1) in if c == 0 then some len else later

-- The bytes of a new block, before they are written.
unfoldable pub fresh_bytes : (ℕ → Word) → ℕ → ℕ → List ℕ
fresh_bytes word i zero = []
fresh_bytes word i (suc n) = word i % 2 ^ 8 ∷ fresh_bytes word (i + 1) n

-- x_lib_memcpy(p_clone, p_str, len); p_clone[len] = 0;
unfoldable pub clone : System → List ℕ → ℕ → Ptr → Cmd Ptr
unfolding x_lib_memcpy fresh_bytes
clone sys p_str len p s =
    elim (x_lib_memcpy (fresh_bytes (sys.residue s p) 0 (len + 1)) p_str len) [
      | none ↦ fault
      | some b ↦ ok p (put_buffer s p (set b len 0))
    ]

unfoldable pub x_lib_strndup : System → List ℕ → ℕ → Cmd Ptr
unfolding strndup_len clone
x_lib_strndup sys p_str size = elim (strndup_len p_str size 0) [
  | none ↦ (λ _. fault)
  | some len ↦ do
    p ← x_sys_malloc sys (len + 1)
    if p == null then pure null else clone sys p_str len p
]
