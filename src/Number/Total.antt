-- ===== src/Number/Total.antt =====
-- x_lib_strtoint of src/x-lib.c ends on every C string that is too short to overflow.
use x_expr.Prelude.{
  ℕ, suc, ◌+◌, ◌*◌, ◌^◌, ◌≤◌, ◌<◌, ◌≡◌, refl, inl, inr, Bool, true, false, some, List, [], ◌∷◌,
  ◌++◌, arith, ◌==◌, ltb, leb, length, length-append, ap, subst, sym, ◌∙◌, Bool-cases,
}
use mathlib.Core.Option
use mathlib.Core.List.{append_assoc}
use x_expr.Memory.{Word}
use native.Mathlib.Nat.{
  mul_assoc, pow-succ', mul-le-mul_right, mul-le-mul_left, one-le-pow, pow-le-pow_right,
}
use x_expr.Number.{Ctype, skip_space, take_sign, scan, with_sign, x_lib_strtoint, magnitude}
use x_expr.Number.RoundTrip.{detect_given}
use x_expr.Number.Scan.{ascii, digit_of-cases}

-- The end of `text` from somewhere on, and what follows.
pub record Ending (text post rest : List ℕ) : Type 0 where
  pub before : List ℕ
  pub after : List ℕ
  pub splits : text ≡ before ++ after
  pub ends : rest ≡ after ++ 0 ∷ post

whole-Ending : (text post : List ℕ) → Ending text post (text ++ 0 ∷ post)
whole-Ending text post = record { before = []; after = text; splits = refl; ends = refl }

Ending-cons :
    {text post rest : List ℕ} (c : ℕ) → Ending text post rest → Ending (c ∷ text) post rest
Ending-cons c e = record {
  before = c ∷ e.before;
  after = e.after;
  splits = ap (λ l. c ∷ l) e.splits;
  ends = e.ends;
}

-- The room that a digit leaves.
room_next :
    (base i n len : ℕ)
    → n < base
    → (i + 1) * base ^ suc len ≤ 2 ^ 63
    → (i * base + n + 1) * base ^ len ≤ 2 ^ 63
room_next base i n len lt room =
    let wider : i * base + n + 1 ≤ (i + 1) * base = omega (arith, lt) in
    omega (
      arith,
      mul-le-mul_right (base ^ len) wider,
      subst (λ x. x ≤ 2 ^ 63)
          (ap (λ x. (i + 1) * x) (pow-succ' base len) ∙ sym (mul_assoc (i + 1) base (base ^ len)))
          room,
    )

room_fits : (base i len : ℕ) → 1 ≤ base → (i + 1) * base ^ len ≤ 2 ^ 63 → i < 2 ^ 63
room_fits base i len h room = omega (arith, room, mul-le-mul_left (i + 1) (one-le-pow len base h))

tail_eq : {x y : ℕ} {xs ys : List ℕ} → x ∷ xs ≡ y ∷ ys → xs ≡ ys
tail_eq h = cc

-- A text whose bytes are below 128.
pub data Ascii : List ℕ → Type 0 where
  finished : Ascii []
  low : {c : ℕ} {text : List ℕ} → c < 2 ^ 7 → Ascii text → Ascii (c ∷ text)

Ascii-after :
    (before : List ℕ) {text after : List ℕ} → text ≡ before ++ after → Ascii text → Ascii after
Ascii-after [] {text} {after} same a = subst Ascii same a
Ascii-after (b ∷ before) {after} same finished = absurd (cc)
Ascii-after (b ∷ before) {after} same (low small a) = Ascii-after before (tail_eq same) a

module _ (ct : Ctype) where
  -- Space in front ends before the NUL.
  skip_space-Ending :
      (text post : List ℕ)
      → Ascii text
      → ct.isspace 0 ≡ false
      → (after : List ℕ) × (before : List ℕ) × (text ≡ before ++ after)
        × (skip_space ct (text ++ 0 ∷ post) ≡ some (after ++ 0 ∷ post))
  unfolding skip_space
  skip_space-Ending [] post finished dense = ([], [], refl, rw dense)
  skip_space-Ending (c ∷ text) post (low small a) dense = elim (Bool-cases (ct.isspace c)) [
    | inl space ↦
        let (after, before, splits, eq) = skip_space-Ending text post a dense in
        (after, c ∷ before, ap (λ l. c ∷ l) splits, rw (ascii c small, space) eq)
    | inr black ↦ (c ∷ text, [], refl, rw (ascii c small, black))
  ]

  -- From a number with room for as many digits as the text is long, the loop ends in the text.
  scan-Ending :
      (base i : ℕ) (text post : List ℕ)
      → Ascii text
      → 1 ≤ base
      → (i + 1) * base ^ length text ≤ 2 ^ 63
      → (n : ℕ) × (rest : List ℕ) × (n < 2 ^ 63)
        × (scan ct base i (text ++ 0 ∷ post) ≡ some (n, rest))
        × Ending text post rest
  unfolding scan
  scan-Ending base i [] post finished h room =
      (i, 0 ∷ post, room_fits base i 0 h room, refl, whole-Ending [] post)
  scan-Ending base i (c ∷ text) post (low small a) h room = elim (Bool-cases (c == 0)) [
    | inl nul ↦ (
      i,
      c ∷ (text ++ 0 ∷ post),
      room_fits base i (suc (length text)) h room,
      rw nul,
      whole-Ending (c ∷ text) post,
    )
    | inr go ↦ elim (digit_of-cases ct c small) [
      | inl other ↦ (
        i,
        c ∷ (text ++ 0 ∷ post),
        room_fits base i (suc (length text)) h room,
        rw (go, other),
        whole-Ending (c ∷ text) post,
      )
      | inr (d, digit) ↦ elim (Bool-cases (leb base d)) [
        | inl large ↦ (
          i,
          c ∷ (text ++ 0 ∷ post),
          room_fits base i (suc (length text)) h room,
          rw (go, digit, large),
          whole-Ending (c ∷ text) post,
        )
        | inr lt ↦
            let room' = room_next base i d (length text) (ground (arith, lt)) room in
            let fits : ltb (i * base + d) (2 ^ 63) ≡ true =
              ground (arith, room_fits base (i * base + d) (length text) h room') in
            let (n, rest, bound, eq, ending) =
              scan-Ending base (i * base + d) text post a h room' in
            (n, rest, bound, rw (go, digit, lt, fits) eq, Ending-cons c ending)
      ]
    ]
  ]

-- A text and a sign in front of it.
take_sign-Ending :
    (text post : List ℕ)
    → (negative : Bool) × (after : List ℕ) × (before : List ℕ) × (text ≡ before ++ after)
      × (take_sign (text ++ 0 ∷ post) ≡ (negative, after ++ 0 ∷ post))
unfolding take_sign
take_sign-Ending [] post = (false, [], [], refl, refl)
take_sign-Ending (c ∷ text) post = elim (Bool-cases (c == b'+')) [
  | inl plus ↦ (false, text, c ∷ [], refl, rw plus)
  | inr other ↦ elim (Bool-cases (c == b'-')) [
    | inl minus ↦ (true, text, c ∷ [], refl, rw (other, minus))
    | inr bare ↦ (false, c ∷ text, [], refl, rw (other, bare))
  ]
]

magnitude-with_sign :
    (negative : Bool) (n : ℕ) → n < 2 ^ 63 → magnitude (with_sign negative n) < 2 ^ 63
unfolding with_sign
magnitude-with_sign true n h = ground arith
magnitude-with_sign false n h = ground arith

-- When isspace does not hold of NUL, the bytes of the text are below 128, the base is given and at
-- least 1, and the base to the power of the text's length is at most 2^63, x_lib_strtoint on the
-- text and a NUL ends, without an overflow and without a read behind the NUL: it returns a number
-- of magnitude less than 2^63 and a pointer into the text or to its NUL.
pub strtoint-Ending :
    (ct : Ctype) (base : ℕ) (text post : List ℕ)
    → Ascii text
    → ct.isspace 0 ≡ false
    → 1 ≤ base
    → base ^ length text ≤ 2 ^ 63
    → (w : Word) × (rest : List ℕ) × (x_lib_strtoint ct (text ++ 0 ∷ post) base ≡ some (w, rest))
      × (magnitude w < 2 ^ 63)
      × Ending text post rest
unfolding x_lib_strtoint Option.bind
strtoint-Ending ct base text post a dense h room =
    let (dark, space, split, skips) = skip_space-Ending ct text post a dense in
    let (negative, digits, sign, split', signs) = take_sign-Ending dark post in
    let len : length digits ≤ length text = omega (
      arith,
      ap length split,
      length-append space dark,
      ap length split',
      length-append sign digits,
    ) in
    let room' : (0 + 1) * base ^ length digits ≤ 2 ^ 63 =
      omega (arith, room, pow-le-pow_right h len) in
    let (n, rest, bound, eq, ending) =
      scan-Ending ct base 0 digits post (Ascii-after sign split' (Ascii-after space split a)) h
        room' in
    (
      with_sign negative n,
      rest,
      rw (skips, signs, detect_given ct base (digits ++ 0 ∷ post) (omega (arith, h)), eq),
      magnitude-with_sign negative n bound,
      record {
        before = space ++ (sign ++ ending.before);
        after = ending.after;
        splits =
            split
            ∙ ap (λ l. space ++ l)
                (split'
                  ∙ ap (λ l. sign ++ l) ending.splits
                  ∙ sym (append_assoc sign ending.before ending.after))
            ∙ sym (append_assoc space (sign ++ ending.before) ending.after);
        ends = ending.ends;
      },
    )
