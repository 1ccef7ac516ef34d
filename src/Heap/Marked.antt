-- ===== src/Heap/Marked.antt =====
-- Marked objects, and what setting a mask on some objects of a state changes.
use x_expr.Prelude.{
  ℕ, ◌≡◌, refl, ◌⊎◌, inl, inr, Bool, true, false, Option, none, some, bit_and, bit_or, arith, ◌==◌,
  Option-cases, Bool-cases, ==_of_eq, eq_of_==, sym, ap, ◌∙◌,
}
use mathlib.Core.Option
use x_expr.Bits.{bit_and-bit_or}
use x_expr.Memory.{Ptr, Obj, State, put_obj}
use x_expr.Memory.Points.{Points}

false_ne_true : ◌≡◌ {A = Bool} false true → ⊥
false_ne_true h = cc

-- An object is there and has every bit of the mask.
unfoldable pub has_mark : ℕ → Option Obj → Bool
has_mark m none = false
has_mark m (some o) = bit_and o.flags m == m

abbrev pub is_marked : ℕ → State → Ptr → Bool
is_marked m s q = has_mark m (s.objs q)

abbrev pub with_mark : ℕ → Obj → Obj
with_mark m o = record o { flags = bit_or o.flags m }

-- From `s` to `t` the mask `m` was set on some objects that did not have it; nothing else changed.
pub record Change (m : ℕ) (s t : State) : Type 0 where
  pub objs :
      (q : Ptr)
      → (t.objs q ≡ s.objs q)
        ⊎ ((is_marked m s q ≡ false) × (t.objs q ≡ Option.map (with_mark m) (s.objs q)))
  pub blocks : t.blocks ≡ s.blocks
  pub buffers : t.buffers ≡ s.buffers
  pub calls : t.calls ≡ s.calls

module _ (m : ℕ) where
  pub Change-refl : (s : State) → Change m s s
  Change-refl s = record { objs = λ q. inl refl; blocks = refl; buffers = refl; calls = refl }

  -- Marking one object.
  pub Change-mark :
      {s : State} {p : Ptr} {o : Obj}
      → Points s p o
      → is_marked m s p ≡ false
      → Change m s (put_obj s p (some (with_mark m o)))
  Change-mark {s} {p} {o} e white = record {
    objs = λ q. elim (Bool-cases (q == p)) [
      | inl same ↦ let eq = eq_of_== q p same in inr (rw eq white, rw (same, eq, e.holds))
      | inr other ↦ inl (rw other)
    ];
    blocks = refl;
    buffers = refl;
    calls = refl;
  }

  -- An object with the mask set is marked.
  pub has_mark-with_mark : (o : Obj) → has_mark m (some (with_mark m o)) ≡ true
  unfolding has_mark
  has_mark-with_mark o = ==_of_eq _ _ (bit_and-bit_or o.flags m)

  -- An object that was there when its mask was set is marked now.
  pub marked_of_mark :
      {c c' : Option Obj} {o : Obj}
      → c ≡ some o
      → c' ≡ Option.map (with_mark m) c
      → has_mark m c' ≡ true
  marked_of_mark {o} e new = rw (new, e) (has_mark-with_mark o)

  -- A marked object stays as it is.
  pub kept_of_marked :
      {s t : State} (q : Ptr) → Change m s t → is_marked m s q ≡ true → t.objs q ≡ s.objs q
  kept_of_marked q c h = elim (c.objs q) [ inl same ↦ same | inr (white, _) ↦ cc ]

  pub is_marked-Change :
      {s t : State} (q : Ptr) → Change m s t → is_marked m s q ≡ true → is_marked m t q ≡ true
  is_marked-Change q c h = rw (kept_of_marked q c h) h

  -- What is unmarked afterwards was left alone.
  pub kept_of_white :
      {s t : State} (q : Ptr) → Change m s t → is_marked m t q ≡ false → t.objs q ≡ s.objs q
  kept_of_white {s} q c h = elim (c.objs q) [
    | inl same ↦ same
    | inr (white, new) ↦ elim (Option-cases (s.objs q)) [
      | inl gone ↦ rw (new, gone)
      | inr (o, e) ↦ absurd (false_ne_true (sym h ∙ marked_of_mark e new))
    ]
  ]

  pub Change-trans : {s t u : State} → Change m s t → Change m t u → Change m s u
  Change-trans {s} {t} {u} c d = record {
    objs = λ q. elim (c.objs q) [
      | inl same ↦ elim (d.objs q) [
        | inl same' ↦ inl (same' ∙ same)
        | inr (white, new) ↦
            inr (ap (has_mark m) (sym same) ∙ white, new ∙ ap (Option.map (with_mark m)) same)
      ]
      | inr (white, new) ↦ elim (Option-cases (s.objs q)) [
        | inl gone ↦ elim (d.objs q) [
          | inl same' ↦ inr (white, same' ∙ new)
          | inr (_, new') ↦ inr (white, simp (new', new, gone))
        ]
        | inr (o, e) ↦ inr (white, kept_of_marked q d (marked_of_mark e new) ∙ new)
      ]
    ];
    blocks = d.blocks ∙ c.blocks;
    buffers = d.buffers ∙ c.buffers;
    calls = d.calls ∙ c.calls;
  }

  -- Type and units of an object are those that it had before, and an object that was there still is.
  pub origin :
      {s t : State} {q : Ptr} {o : Obj}
      → Change m s t
      → Points t q o
      → (o' : Obj) × Points s q o' × (o'.type ≡ o.type) × (o'.units ≡ o.units)
  origin {s} {q} {o} c e = elim (c.objs q) [
    | inl same ↦ (o, record { ne_null = e.ne_null; holds = sym same ∙ e.holds }, refl, refl)
    | inr (_, new) ↦ elim (Option-cases (s.objs q)) [
      | inl gone ↦ ground (arith, e.holds)
      | inr (o', e') ↦ (
        o',
        record { ne_null = e.ne_null; holds = e' },
        ground (arith, e.holds),
        ground (arith, e.holds),
      )
    ]
  ]

  pub image :
      {s t : State} {q : Ptr} {o : Obj}
      → Change m s t
      → Points s q o
      → (o' : Obj) × Points t q o' × (o'.type ≡ o.type) × (o'.units ≡ o.units)
  image {q} {o} c e = elim (c.objs q) [
    | inl same ↦ (o, record { ne_null = e.ne_null; holds = same ∙ e.holds }, refl, refl)
    | inr (_, new) ↦
        (with_mark m o, record { ne_null = e.ne_null; holds = new ∙ rw e.holds }, refl, refl)
  ]
