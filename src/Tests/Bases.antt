-- ===== src/Tests/Bases.antt =====
-- A new base made with that of the small heap, by an allocator that gives out the first address from
-- 50 on where no object is.
use x_expr.Prelude.{
  ℕ, zero, suc, ◌+◌, ◌≤◌, ◌<◌, ◌≡◌, refl, inl, inr, none, some, arith, ◌==◌, Bool-cases, eq_of_==,
}
use x_expr.Memory.{Ptr, null, Obj, State, ok}
use x_expr.Sys.{System}
use x_expr.Obj.Free.{untyped}
use x_expr.Obj.Make.{behind, made, relink}
use x_expr.Base.Make.{BaseInit, base_tree, x_base_make}
use x_expr.Base.Build.{count, Supply}
use x_expr.Base.Initial.{Initial}
use x_expr.Base.New.{blank_base, make-Initial}
use x_expr.Tests.Scene.{obj, sys, heap}

unfoldable first_free : (rounds p : ℕ) → State → Ptr
first_free zero p s = null
first_free (suc k) p s = elim (s.objs p) [ none ↦ p | some o ↦ first_free k (p + 1) s ]

abbrev first_fit : System
first_fit = record sys { malloc = λ s n. first_free 1000 50 s }

-- From 50 on, objects stand below `a` and nowhere else.
record Packed (a : Ptr) (s : State) : Type 0 where
  below : (q : Ptr) → 50 ≤ q → q < a → (o : Obj) × (s.objs q ≡ some o)
  above : (q : Ptr) → a ≤ q → s.objs q ≡ none

first_free-Packed :
    (k p a : ℕ) (s : State) → 50 ≤ p → p ≤ a → a < p + k → Packed a s → first_free k p s ≡ a
unfolding first_free
first_free-Packed zero p a s low le lt packed = absurd (omega (arith, le, lt))
first_free-Packed (suc k) p a s low le lt packed = elim (Bool-cases (p == a)) [
  | inl same ↦
      rw (packed.above p (omega (arith, eq_of_== p a same)), first_free) (eq_of_== p a same)
  | inr other ↦
      let before : p < a = ground (arith, le, other) in
      rw ((packed.below p low before).1, first_free)
        (first_free-Packed k (p + 1) a s (omega arith) (omega (arith, before)) (omega (arith, lt))
          packed)
]

Packed-made : (a : ℕ) (s : State) (o : Obj) → 51 ≤ a → Packed a s → Packed (a + 1) (made s 50 a o)
Packed-made a s o low packed = record {
  below = λ q h lt. elim (Bool-cases (q == a)) [
    | inl same ↦ (o, ground (arith, same, low))
    | inr other ↦
        let (c, e) = packed.below q h (ground (arith, lt, other)) in
        elim (Bool-cases (q == 50)) [
          | inl base ↦ (relink a c, ground (arith, base, other, e, low))
          | inr new ↦ (c, rw (new, other) e)
        ]
  ];
  above = λ q h. ground (arith, packed.above q (omega (arith, h)), low, h);
}

Supply-Packed : (k a : ℕ) (s : State) → 51 ≤ a → a + k < 1050 → Packed a s → Supply first_fit 50 k s
unfolding Supply
Supply-Packed zero a s low room packed = tt
Supply-Packed (suc k) a s low room packed = λ n.
    let at : first_free 1000 50 s ≡ a =
      first_free-Packed 1000 50 a s (omega arith) (omega arith) (omega arith) packed in
    (
      omega (arith, at, low),
      omega (arith, at, low),
      rw at (packed.above a (omega arith)),
      λ o. rw at (
          Supply-Packed k (a + 1) (made s 50 a o) (omega arith) (omega arith)
            (Packed-made a s o low packed)),
    )

abbrev standard : BaseInit
standard = record {
  filein = 0;
  fileout = 1;
  fileerr = 2;
  p_hook_type_name = 0;
  p_hook_units = 0;
  p_hook_length = 0;
  p_hook_error = 0;
  obj_meta_extra = 0;
  p_heap_mark = 0;
  p_heap_free = 0;
}

-- The small heap with the blank base at 50.
abbrev begun : State
begun = made heap 1 50 (blank_base 10)

begun-Packed : Packed 51 begun
begun-Packed = record {
  below = λ q h lt. (blank_base 10, ground (arith, h, lt));
  above = λ q h. ground (arith, h);
}

got_first : first_fit.malloc heap 32 ≡ 50
unfolding first_free
got_first = refl

fits : 51 + count (base_tree standard) < 1050
unfolding count base_tree
fits = omega arith

make-Initial_example :
    (t : State) × (x_base_make first_fit 1 standard heap ≡ ok 50 t) × Initial standard 50 t
make-Initial_example =
    make-Initial first_fit {s = heap} {outer = 1} {link = 10} 50 standard
      (untyped {o = obj 10 0 0 _} (record { ne_null = omega arith; holds = refl }) refl)
      (behind {o = obj 10 0 0 _} (record { ne_null = omega arith; holds = refl }) refl) got_first
      (omega arith) (omega arith) (Supply-Packed _ 51 begun (omega arith) fits begun-Packed)
