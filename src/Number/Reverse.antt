-- ===== src/Number/Reverse.antt =====
-- The loop of src/x-lib.c that turns the digits round: swaps by exclusive or, from both ends.
use Prim.Native.Nat.{bit_xor}
use x_expr.Prelude.{
  ℕ, zero, suc, ◌+◌, ◌-◌, ◌<◌, ◌≡◌, refl, ◌⊎◌, inl, inr, true, false, some, List, [], ◌∷◌, ◌++◌,
  arith, ltb, length, length-append, get_elem?, set, get_elem?-middle, set-middle, sym, ap, ◌∙◌,
}
use mathlib.Core.List.{append_assoc, reverse, reverse-cons, reverse-append}
use mathlib.Core.Option
use x_expr.Bits.Xor.{bit_xor_first, bit_xor_second}
use x_expr.Number.{xor_at, swap, reverse_loop}

-- Two bytes of a buffer, and what stands before, between and behind them.
abbrev spread : (pre : List ℕ) (x : ℕ) (mid : List ℕ) (y : ℕ) (post : List ℕ) → List ℕ
spread pre x mid y post = pre ++ x ∷ (mid ++ y ∷ post)

-- The same, seen from the second.
regroup :
    (pre : List ℕ) (x : ℕ) (mid : List ℕ) (y : ℕ) (post : List ℕ)
    → (pre ++ x ∷ mid) ++ y ∷ post ≡ spread pre x mid y post
regroup pre x mid y post = append_assoc pre (x ∷ mid) (y ∷ post)

module _ (pre : List ℕ) (x : ℕ) (mid : List ℕ) (y : ℕ) (post : List ℕ) {i j : ℕ}
    (at_x : i ≡ length pre) (at_y : j ≡ suc (length pre + length mid)) where
  second_at : j ≡ length (pre ++ x ∷ mid)
  second_at = omega (arith, at_y, length-append pre (x ∷ mid))

  get_first : get_elem? (spread pre x mid y post) i ≡ some x
  get_first = rw at_x (get_elem?-middle pre x (mid ++ y ∷ post))

  get_second : get_elem? (spread pre x mid y post) j ≡ some y
  get_second = rw (← regroup pre x mid y post, second_at) (get_elem?-middle (pre ++ x ∷ mid) y post)

  xor_first : xor_at i j (spread pre x mid y post) ≡ some (spread pre (bit_xor x y) mid y post)
  unfolding xor_at
  xor_first =
      rw (get_first, get_second, xor_at)
        (ap some (rw at_x (set-middle pre x (bit_xor x y) (mid ++ y ∷ post))))

  set_second : set (spread pre x mid y post) j (bit_xor y x) ≡ spread pre x mid (bit_xor y x) post
  set_second =
      rw (← regroup pre x mid y post, second_at) (set-middle (pre ++ x ∷ mid) y (bit_xor y x) post)
      ∙ regroup pre x mid (bit_xor y x) post

  xor_second : xor_at j i (spread pre x mid y post) ≡ some (spread pre x mid (bit_xor y x) post)
  unfolding xor_at
  xor_second = rw (get_second, get_first, xor_at) (ap some set_second)

-- The three exclusive ors swap the two bytes.
swap_ends :
    (pre : List ℕ) (x : ℕ) (mid : List ℕ) (y : ℕ) (post : List ℕ) {i j : ℕ}
    → i ≡ length pre
    → j ≡ suc (length pre + length mid)
    → swap i j (spread pre x mid y post) ≡ some (spread pre y mid x post)
unfolding swap Option.bind
swap_ends pre x mid y post at_x at_y =
    let x1 = bit_xor x y in
    let back : bit_xor y x1 ≡ x = bit_xor_second x y in
    rw (
      xor_first pre x mid y post at_x at_y,
      xor_second pre x1 mid y post at_x at_y,
      back,
      xor_first pre x1 mid x post at_x at_y,
      bit_xor_first x y,
    )

-- A list is empty, or ends in an element.
last_split : (xs : List ℕ) → (xs ≡ []) ⊎ ((mid : List ℕ) × (y : ℕ) × (xs ≡ mid ++ y ∷ []))
last_split [] = inl refl
last_split (x ∷ xs) = elim (last_split xs) [
  | inl e ↦ inr ([], x, ap (λ l. x ∷ l) e)
  | inr (mid, y, e) ↦ inr (x ∷ mid, y, ap (λ l. x ∷ l) e)
]

reverse_ends :
    (x : ℕ) (mid : List ℕ) (y : ℕ) → reverse (x ∷ (mid ++ y ∷ [])) ≡ y ∷ (reverse mid ++ x ∷ [])
reverse_ends x mid y =
    reverse-cons x (mid ++ y ∷ []) ∙ ap (λ l. l ++ x ∷ []) (reverse-append mid (y ∷ []))

-- On the bytes `ds` behind `pre`, from their first to their last offset, the loop turns them round.
pub reverse_loop_lem :
    (k : ℕ) (pre ds post : List ℕ) (i j : ℕ)
    → i ≡ length pre
    → suc j ≡ length pre + length ds
    → length ds < k
    → reverse_loop k i j (pre ++ (ds ++ post)) ≡ some (pre ++ (reverse ds ++ post))
unfolding reverse_loop Option.bind
reverse_loop_lem zero pre ds post i j at_i at_j enough = absurd (omega (arith, enough))
reverse_loop_lem (suc k) pre [] post i j at_i at_j enough =
    let stop : ltb i j ≡ false = ground (arith, at_i, at_j) in rw stop
reverse_loop_lem (suc k) pre (x ∷ xs) post i j at_i at_j enough = elim (last_split xs) [
  | inl e ↦ let stop : ltb i j ≡ false = ground (arith, at_i, at_j, ap length e) in rw (stop, e)
  | inr (mid, y, e) ↦
      let len : length xs ≡ length mid + 1 =
        omega (arith, ap length e, length-append mid (y ∷ [])) in
      let at_y : j ≡ suc (length pre + length mid) = omega (arith, at_j, len) in
      let go : ltb i j ≡ true = ground (arith, at_i, at_j, len) in
      let here : pre ++ ((x ∷ (mid ++ y ∷ [])) ++ post) ≡ spread pre x mid y post =
        ap (λ l. pre ++ x ∷ l) (append_assoc mid (y ∷ []) post) in
      let there : (pre ++ y ∷ []) ++ (mid ++ x ∷ post) ≡ spread pre y mid x post =
        append_assoc pre (y ∷ []) (mid ++ x ∷ post) in
      let back : (pre ++ y ∷ []) ++ (reverse mid ++ x ∷ post)
          ≡ pre ++ (reverse (x ∷ (mid ++ y ∷ [])) ++ post) =
        append_assoc pre (y ∷ []) (reverse mid ++ x ∷ post)
        ∙ ap (λ l. pre ++ y ∷ l) (sym (append_assoc (reverse mid) (x ∷ []) post))
        ∙ ap (λ l. pre ++ (l ++ post)) (sym (reverse_ends x mid y)) in
      rw (e, go, here, swap_ends pre x mid y post {j = j} at_i at_y, ← there)
        (reverse_loop_lem k (pre ++ y ∷ []) mid (x ∷ post) (i + 1) (j - 1)
            (omega (arith, at_i, length-append pre (y ∷ [])))
            (omega (arith, at_j, len, length-append pre (y ∷ []))) (omega (arith, enough, len))
          ∙ ap some back)
]
