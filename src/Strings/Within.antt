-- ===== src/Strings/Within.antt =====
-- x_lib_memcpy of src/x-stdlib.c when the source starts in the destination's buffer.
use x_expr.Prelude.{
  ℕ, zero, suc, ◌+◌, ◌≤◌, ◌<◌, ◌≡◌, refl, ◌≢◌, ◌⊎◌, inl, inr, true, false, some, List, [], ◌∷◌,
  arith, ltb, if◌then◌else◌, length, get_elem?, set, ap, subst, sym, ◌∙◌, Bool-cases,
}
use x_expr.Strings.{copy_within}

-- `r` is `b` with the `size` bytes from `to` on taken from `source`, where they stand from `from` on.
pub record Copied (b r source : List ℕ) (to from size : ℕ) : Type 0 where
  pub long : length r ≡ length b
  pub kept : (j : ℕ) → (j < to) ⊎ (to + size ≤ j) → get_elem? r j ≡ get_elem? b j
  pub bytes : (i : ℕ) → i < size → get_elem? r (to + i) ≡ get_elem? source (from + i)

length-set : (b : List ℕ) (i c : ℕ) → length (set b i c) ≡ length b
length-set [] i c = refl
length-set (x ∷ b) zero c = refl
length-set (x ∷ b) (suc i) c = ap suc (length-set b i c)

get-set_same : (b : List ℕ) (i c : ℕ) → i < length b → get_elem? (set b i c) i ≡ some c
get-set_same [] i c h = absurd (omega (arith, h))
get-set_same (x ∷ b) zero c h = refl
get-set_same (x ∷ b) (suc i) c h = get-set_same b i c (omega (arith, h))

get-set_other : (b : List ℕ) (i j c : ℕ) → j ≢ i → get_elem? (set b i c) j ≡ get_elem? b j
get-set_other [] i j c h = refl
get-set_other (x ∷ b) zero zero c h = absurd (h refl)
get-set_other (x ∷ b) zero (suc j) c h = refl
get-set_other (x ∷ b) (suc i) zero c h = refl
get-set_other (x ∷ b) (suc i) (suc j) c h = get-set_other b i j c (λ e. h (ap suc e))

get_of_lt : (b : List ℕ) (i : ℕ) → i < length b → (c : ℕ) × (get_elem? b i ≡ some c)
get_of_lt [] i h = absurd (omega (arith, h))
get_of_lt (x ∷ b) zero h = (x, refl)
get_of_lt (x ∷ b) (suc i) h = get_of_lt b i (omega (arith, h))

-- One round, and the rest of the loop.
module _ (b r source : List ℕ) (to from size c : ℕ)
    (rest : Copied (set b to c) r source (to + 1) (from + 1) size) (inside : to < length b)
    (there : get_elem? b from ≡ some c) where
  first : get_elem? r to ≡ get_elem? b from
  first = rest.kept to (inl (omega arith)) ∙ get-set_same b to c inside ∙ sym there

  frame : (j : ℕ) → (j < to) ⊎ (to + suc size ≤ j) → get_elem? r j ≡ get_elem? b j
  frame j (inl before) =
      rest.kept j (inl (omega (arith, before))) ∙ get-set_other b to j c (omega (arith, before))
  frame j (inr behind) =
      rest.kept j (inr (omega (arith, behind))) ∙ get-set_other b to j c (omega (arith, behind))

  later : (i : ℕ) → i < size → get_elem? r (to + suc i) ≡ get_elem? source (from + suc i)
  later i h = ap (get_elem? r) (omega arith) ∙ rest.bytes i h ∙ ap (get_elem? source) (omega arith)

  -- The source as the loop sees it when it reads the byte.
  round : get_elem? source from ≡ get_elem? b from → Copied b r source to from (suc size)
  round seen = record { long = rest.long ∙ length-set b to c; kept = frame; bytes = bytes' }
    where
      bytes' : (i : ℕ) → i < suc size → get_elem? r (to + i) ≡ get_elem? source (from + i)
      bytes' zero h =
          ap (get_elem? r) (omega arith) ∙ first ∙ sym seen ∙ ap (get_elem? source) (omega arith)
      bytes' (suc i) h = later i (omega (arith, h))

-- The buffer's bytes from `from` on, as they were where the loop goes up to them from behind, and as
-- they are at the end where it comes after its own writes.
abbrev pub source_of : (b r : List ℕ) → (to from : ℕ) → List ℕ
source_of b r to from = if ltb from to then r else b

next_source :
    (b r : List ℕ) (to from size c : ℕ)
    → Copied (set b to c) r (source_of (set b to c) r (to + 1) (from + 1)) (to + 1) (from + 1) size
    → to < length b
    → get_elem? b from ≡ some c
    → Copied b r (source_of b r to from) to from (suc size)
next_source b r to from size c rest inside there = elim (Bool-cases (ltb from to)) [
  | inl ahead ↦
      let next : ltb (from + 1) (to + 1) ≡ true = ground (arith, ahead) in
      let rest' : Copied (set b to c) r r (to + 1) (from + 1) size =
        subst (λ x. Copied (set b to c) r (if x then r else set b to c) (to + 1) (from + 1) size)
          next rest in
      subst (λ x. Copied b r (if x then r else b) to from (suc size)) (sym ahead)
        (round b r r to from size c rest' inside there
          (frame b r r to from size c rest' inside there from (inl (ground (arith, ahead)))))
  | inr behind ↦
      let next : ltb (from + 1) (to + 1) ≡ false = ground (arith, behind) in
      let rest' : Copied (set b to c) r (set b to c) (to + 1) (from + 1) size =
        subst (λ x. Copied (set b to c) r (if x then r else set b to c) (to + 1) (from + 1) size)
          next rest in
      let rest'' : Copied (set b to c) r b (to + 1) (from + 1) size = record {
        long = rest'.long;
        kept = rest'.kept;
        bytes =
            λ i h. rest'.bytes i h ∙ get-set_other b to (from + 1 + i) c (ground (arith, behind));
      } in
      subst (λ x. Copied b r (if x then r else b) to from (suc size)) (sym behind)
        (round b r b to from size c rest'' inside there refl)
]

-- Within one buffer, x_lib_memcpy of bytes that are all in it to a place that is in it ends, and
-- leaves there the source's bytes: where the destination is ahead of the source, those that the loop
-- itself has written.
pub within-Copied :
    (size : ℕ) (b : List ℕ) (to from : ℕ)
    → from + size ≤ length b
    → to + size ≤ length b
    → (r : List ℕ) × (copy_within b to from size ≡ some r)
      × Copied b r (source_of b r to from) to from size
unfolding copy_within
within-Copied zero b to from src dst =
    (b, refl, record { long = refl; kept = λ j h. refl; bytes = λ i h. absurd (omega (arith, h)) })
within-Copied (suc size) b to from src dst =
    let inside : to < length b = omega (arith, dst) in
    let fine : ltb to (length b) ≡ true = ground (arith, inside) in
    let (c, there) = get_of_lt b from (omega (arith, src)) in
    let long = length-set b to c in
    let (r, runs, rest) =
      within-Copied size (set b to c) (to + 1) (from + 1) (omega (arith, src, long))
        (omega (arith, dst, long)) in
    (r, rw (fine, there) runs, next_source b r to from size c rest inside there)
