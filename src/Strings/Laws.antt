-- ===== src/Strings/Laws.antt =====
-- x_lib_strlen and the comparisons of src/x-stdlib.c against the C standard's reading of them.
use x_expr.Prelude.{
  ℕ, zero, suc, ◌+◌, ◌≤◌, ◌<◌, ◌%◌, ◌^◌, has, ==_of_eq, min, ◌↔◌, ◌≡◌, refl, ◌≢◌, inl, inr, false,
  none, some, List, [], ◌∷◌, ◌++◌, arith, ◌==◌, length, take, drop, sym, ap, ◌∙◌, Bool-cases,
  ==_of_ne, eq_of_==, ne_of_==,
}
use x_expr.Strings.{
  strchr_loop, x_lib_strchr, x_lib_memcpy, x_lib_strcmp, strlen_loop, x_lib_strlen, strncmp_loop,
  x_lib_strncmp, strndup_len,
}

-- No byte of the text is NUL: the text ends where the string does.
pub data Text : List ℕ → Type 0 where
  done : Text []
  more : {c : ℕ} {t : List ℕ} → c ≢ 0 → Text t → Text (c ∷ t)

strlen_loop-lem :
    (size : ℕ) {t : List ℕ} (post : List ℕ)
    → Text t
    → strlen_loop size (t ++ 0 ∷ post) ≡ some (size + length t)
unfolding strlen_loop
strlen_loop-lem size post done = ap some (omega arith)
strlen_loop-lem size post (more {c} {t} h text) =
    rw (==_of_ne c 0 h) (strlen_loop-lem (size + 1) post text ∙ ap some (omega arith))

-- On a text without NUL bytes, then a NUL and any bytes, x_lib_strlen returns the text's length.
pub strlen-Text :
    {t : List ℕ} (post : List ℕ) → Text t → x_lib_strlen (t ++ 0 ∷ post) ≡ some (length t)
unfolding x_lib_strlen
strlen-Text {t} post text = strlen_loop-lem 0 post text ∙ ap some (omega arith)

-- When both buffers have n bytes, x_lib_memcpy of n bytes puts the first n of the source in front
-- of what the destination has from n on.
pub memcpy-take :
    (dest src : List ℕ) (n : ℕ)
    → n ≤ length dest
    → n ≤ length src
    → x_lib_memcpy dest src n ≡ some (take n src ++ drop n dest)
unfolding x_lib_memcpy
memcpy-take dest src zero hd hs = refl
memcpy-take [] src (suc n) hd hs = absurd (omega (arith, hd))
memcpy-take (d ∷ dest) [] (suc n) hd hs = absurd (omega (arith, hs))
memcpy-take (d ∷ dest) (c ∷ src) (suc n) hd hs =
    rw (memcpy-take dest src n (omega (arith, hd)) (omega (arith, hs)))

-- On two strings, each a text without NUL bytes, a NUL and any bytes, x_lib_strcmp ends inside both
-- and stops at bytes that are equal exactly when the texts are.
pub strcmp-Text :
    {t u : List ℕ} (post post' : List ℕ)
    → Text t
    → Text u
    → (a : ℕ) × (b : ℕ) × (x_lib_strcmp (t ++ 0 ∷ post) (u ++ 0 ∷ post') ≡ some (a, b))
      × (a ≡ b ↔ t ≡ u)
unfolding x_lib_strcmp
strcmp-Text post post' done done = (0, 0, refl, ((λ _. refl), (λ _. refl)))
strcmp-Text post post' done (more {c} h u) =
    (0, c, refl, ((λ e. absurd (h (sym e))), (λ e. absurd (cc))))
strcmp-Text post post' (more {c} h t) done =
    (c, 0, rw (==_of_ne c 0 h), ((λ e. absurd (h e)), (λ e. absurd (cc))))
strcmp-Text post post' (more {c} {t = xs} h t) (more {c = d} {t = ys} h' u) =
    elim (Bool-cases (d == c)) [
      | inl same ↦
          let (a, b, runs, (to, from)) = strcmp-Text post post' t u in
          let eq : d ≡ c = eq_of_== d c same in
          (
            a,
            b,
            rw (==_of_ne c 0 h, ==_of_ne d 0 h', same, runs),
            ((λ e. let tails : xs ≡ ys = to e in cc), (λ e. from cc)),
          )
      | inr other ↦ (
        c,
        d,
        rw (==_of_ne c 0 h, ==_of_ne d 0 h', other),
        ((λ e. absurd (ne_of_== d c other (sym e))), (λ e. cc)),
      )
    ]

-- The bound is not what ends the loop.
strncmp_loop-lem :
    {t : List ℕ} (post u : List ℕ) (n : ℕ)
    → Text t
    → length t ≤ n
    → strncmp_loop n (t ++ 0 ∷ post) u ≡ x_lib_strcmp (t ++ 0 ∷ post) u
unfolding strncmp_loop x_lib_strcmp
strncmp_loop-lem post [] n done h = refl
strncmp_loop-lem post (b ∷ u) zero done h = refl
strncmp_loop-lem post (b ∷ u) (suc n) done h = refl
strncmp_loop-lem post u zero (more ne t) h = absurd (omega (arith, h))
strncmp_loop-lem post [] (suc n) (more ne t) h = refl
strncmp_loop-lem post (b ∷ u) (suc n) (more ne t) h =
    rw (strncmp_loop-lem post u n t (omega (arith, h)))

-- With a bound above the length of the first string's text, x_lib_strncmp has the result of
-- x_lib_strcmp, on any second buffer.
pub strncmp-strcmp :
    {t : List ℕ} (post u : List ℕ) (n : ℕ)
    → Text t
    → length t < n
    → x_lib_strncmp (t ++ 0 ∷ post) u n ≡ x_lib_strcmp (t ++ 0 ∷ post) u
unfolding x_lib_strncmp
strncmp-strcmp post u zero text h = absurd (omega (arith, h))
strncmp-strcmp post u (suc n) text h = strncmp_loop-lem post u n text (omega (arith, h))

-- The loop of x_lib_strndup on a text counts up to its end or to the limit.
pub strndup_len-lem :
    {t : List ℕ} (post : List ℕ) (size len : ℕ)
    → Text t
    → strndup_len (t ++ 0 ∷ post) size len ≡ some (len + min size (length t))
unfolding strndup_len
strndup_len-lem post zero len text = ap some (omega arith)
strndup_len-lem post (suc size) len done = ap some (omega arith)
strndup_len-lem post (suc size) len (more {c} h text) =
    rw (==_of_ne c 0 h) (strndup_len-lem post size (len + 1) text ∙ ap some (omega arith))

strchr_loop-found :
    (at : ℕ) {t : List ℕ} (post : List ℕ) (c : ℕ)
    → Text t
    → has c t ≡ false
    → strchr_loop at (t ++ c ∷ post) c ≡ some (some (at + length t))
unfolding strchr_loop
strchr_loop-found at post c done h = elim (Bool-cases (c == 0)) [
  | inl nul ↦ rw (nul, ==_of_eq c c refl) (ap (λ n. some (some n)) (omega arith))
  | inr set ↦ rw (set, ==_of_eq c c refl) (ap (λ n. some (some n)) (omega arith))
]
strchr_loop-found at {t = b ∷ t} post c (more ne text) h =
    let differs : (b == c) ≡ false = ground (arith, h) in
    rw (==_of_ne b 0 ne, differs)
      (strchr_loop-found (at + 1) post c text (ground (arith, h))
        ∙ ap (λ n. some (some n)) (omega arith))

strchr_loop-missing :
    (at : ℕ) {t : List ℕ} (post : List ℕ) (c : ℕ)
    → Text t
    → has c t ≡ false
    → c ≢ 0
    → strchr_loop at (t ++ 0 ∷ post) c ≡ some none
unfolding strchr_loop
strchr_loop-missing at post c done h set = rw (==_of_ne 0 c (λ e. set (sym e)))
strchr_loop-missing at {t = b ∷ t} post c (more ne text) h set =
    let differs : (b == c) ≡ false = ground (arith, h) in
    rw (==_of_ne b 0 ne, differs) (strchr_loop-missing (at + 1) post c text (ground (arith, h)) set)

-- On a text without NUL bytes that does not have the byte of the argument (its value modulo 256),
-- followed by that byte and any bytes, x_lib_strchr returns the offset behind the text; the byte
-- may be NUL.
pub strchr-Text :
    {t : List ℕ} (post : List ℕ) (c : ℕ)
    → Text t
    → has (c % 2 ^ 8) t ≡ false
    → x_lib_strchr (t ++ c % 2 ^ 8 ∷ post) c ≡ some (some (length t))
unfolding x_lib_strchr
strchr-Text post c text h =
    strchr_loop-found 0 post (c % 2 ^ 8) text h ∙ ap (λ n. some (some n)) (omega arith)

-- On a text without NUL bytes and a NUL, when the text does not have the byte of the argument (its
-- value modulo 256) and that byte is not NUL, x_lib_strchr returns NULL.
pub strchr-missing :
    {t : List ℕ} (post : List ℕ) (c : ℕ)
    → Text t
    → has (c % 2 ^ 8) t ≡ false
    → c % 2 ^ 8 ≢ 0
    → x_lib_strchr (t ++ 0 ∷ post) c ≡ some none
unfolding x_lib_strchr
strchr-missing post c text h set = strchr_loop-missing 0 post (c % 2 ^ 8) text h set
