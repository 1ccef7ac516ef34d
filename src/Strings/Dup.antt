-- ===== src/Strings/Dup.antt =====
-- x_lib_strndup of src/x-stdlib.c: the copy that it makes.
use x_expr.Prelude.{
  ℕ, zero, suc, ◌+◌, ◌≤◌, min, ◌≡◌, refl, ◌≢◌, some, List, [], ◌∷◌, ◌++◌, arith, length, take, drop,
  set, ap, ◌∙◌, ==_of_ne, length-append,
}
use x_expr.Memory.{Word, Ptr, null, State, ok, bytes}
use x_expr.Sys.{System, put_block, put_buffer, x_sys_malloc}
use x_expr.Strings.{fresh_bytes, clone, strndup_len, x_lib_strndup}
use x_expr.Strings.Laws.{Text, memcpy-take, strndup_len-lem}

length-fresh_bytes : (word : ℕ → Word) (i n : ℕ) → length (fresh_bytes word i n) ≡ n
unfolding fresh_bytes
length-fresh_bytes word i zero = refl
length-fresh_bytes word i (suc n) = ap suc (length-fresh_bytes word (i + 1) n)

-- Writing the byte behind the copied ones of a buffer that has one more than them.
set-last :
    (src dest : List ℕ) (n v : ℕ)
    → n ≤ length src
    → length dest ≡ n + 1
    → set (take n src ++ drop n dest) n v ≡ take n src ++ v ∷ []
set-last src [] n v hs hd = absurd (omega (arith, hd))
set-last src (d ∷ []) zero v hs hd = refl
set-last src (d ∷ e ∷ dest) zero v hs hd = absurd (omega (arith, hd))
set-last [] (d ∷ dest) (suc n) v hs hd = absurd (omega (arith, hs))
set-last (c ∷ src) (d ∷ dest) (suc n) v hs hd =
    ap (λ l. c ∷ l) (set-last src dest n v (omega (arith, hs)) (omega (arith, hd)))

-- What is taken of a text does not reach its end.
take-append : (t post : List ℕ) (n : ℕ) → n ≤ length t → take n (t ++ post) ≡ take n t
take-append t post zero h = refl
take-append [] post (suc n) h = absurd (omega (arith, h))
take-append (c ∷ t) post (suc n) h = ap (λ l. c ∷ l) (take-append t post n (omega (arith, h)))

clone-ok :
    (sys : System) (s : State) (src : List ℕ) (n : ℕ) (p : Ptr)
    → n ≤ length src
    → clone sys src n p s ≡ ok p (put_buffer s p (take n src ++ 0 ∷ []))
unfolding clone
clone-ok sys s src n p h =
    rw (memcpy-take fresh src n (omega (arith, len)) h, set-last src fresh n 0 h len, clone)
  where
    fresh : List ℕ
    fresh = fresh_bytes (sys.residue s p) 0 (n + 1)

    len : length fresh ≡ n + 1
    len = length-fresh_bytes (sys.residue s p) 0 (n + 1)

-- On a text without NUL bytes, then a NUL and any bytes, when malloc answers the request of the
-- copy's length plus 1 with an address other than NULL, x_lib_strndup returns it, and the buffer
-- there is the first size bytes of the text, or all of it if it is shorter, and a NUL.
pub strndup-Text :
    (sys : System) {s : State} {t : List ℕ} (post : List ℕ) (size : ℕ) (p : Ptr)
    → Text t
    → sys.malloc s (min size (length t) + 1) ≡ p
    → p ≢ null
    → x_lib_strndup sys (t ++ 0 ∷ post) size s
      ≡ ok p (put_buffer (put_block s p (some bytes)) p (take (min size (length t)) t ++ 0 ∷ []))
unfolding x_lib_strndup x_sys_malloc
strndup-Text sys {s} {t} post size p text got ne = rw (
  found,
  x_lib_strndup,
  got,
  ==_of_ne p null ne,
  ==_of_ne p null ne,
  clone-ok sys (put_block s p (some bytes)) (t ++ 0 ∷ post) (min size (length t)) p
      (omega (arith, length-append t (0 ∷ post))),
  take-append t (0 ∷ post) (min size (length t)) (omega arith),
)
  where
    found : strndup_len (t ++ 0 ∷ post) size 0 ≡ some (min size (length t))
    found = strndup_len-lem post size 0 text ∙ ap some (omega arith)
