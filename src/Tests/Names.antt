-- ===== src/Tests/Names.antt =====
-- The accessors on the pair at 11, whose rest is the pair of 7 and 8 at 13, and a new cell in the small
-- heap.
use x_expr.Prelude.{◌≡◌, refl, true, false, some, [], ◌∷◌, arith}
use mathlib.Core.Option
use x_expr.Memory.{Ptr, State, ok, Cmd, pure, ◌>>=◌, ◌>>◌}
use x_expr.Obj.Free.{untyped}
use x_expr.Obj.Make.{behind, made, whole}
use x_expr.Obj.Path.{bit_accessor, x_01}
use x_expr.Lisp.{lisp_accessor, x_cadr, x_cons, x_car, x_cdr, x_setcar, x_setcdr}
use x_expr.Lisp.Walk.{
  part, Nest, leaf, node, Held, is_leaf, is_node, bit_accessor-Held, lisp_accessor-bit_accessor,
}
use x_expr.Lisp.Cells.{cons-setcar_setcdr}
use x_expr.Tests.Scene.{at, obj, sys, heap}

abbrev nested : State
nested = record {
  objs = at ((11, obj 0 101 0 (12 ∷ 13 ∷ [])) ∷ (13, obj 0 101 0 (7 ∷ 8 ∷ [])) ∷ []);
  blocks = at [];
  buffers = at [];
  calls = [];
}

abbrev second : Nest
second = node (leaf 7) (leaf 8)

nested-Held : Held nested 11 (node (leaf 12) second)
nested-Held =
    is_node {o = obj 0 101 0 (12 ∷ 13 ∷ [])} (record { ne_null = omega arith; holds = refl }) refl
      is_leaf
      (is_node {o = obj 0 101 0 (7 ∷ 8 ∷ [])} (record { ne_null = omega arith; holds = refl }) refl
        is_leaf is_leaf)

bit_accessor-Held_example : (q : Ptr) × (x_01 11 nested ≡ ok q nested) × Held nested q (leaf 7)
unfolding bit_accessor part Option.bind
bit_accessor-Held_example =
    bit_accessor-Held (false ∷ true ∷ []) {f = x_01} {x = node (leaf 12) second} refl nested-Held
      refl

lisp_accessor-bit_accessor_example :
    (f : Ptr → Cmd Ptr) × (bit_accessor (false ∷ true ∷ []) ≡ some f)
    × ((p : Ptr) (s : State) → x_cadr p s ≡ f p s)
unfolding lisp_accessor
lisp_accessor-bit_accessor_example =
    lisp_accessor-bit_accessor (false ∷ true ∷ []) {g = x_cadr} refl

cons-setcar_setcdr_example :
    (do
      q ← x_cons sys 1 0 3 4
      first ← x_car q
      rest ← x_cdr q
      x_setcar q 5
      between ← x_cdr q
      x_setcdr q 6
      first' ← x_car q
      rest' ← x_cdr q
      pure (first ∷ rest ∷ between ∷ first' ∷ rest' ∷ []))
      heap
    ≡ ok (3 ∷ 4 ∷ 4 ∷ 5 ∷ 6 ∷ []) (made heap 1 50 (whole 10 101 0 (5 ∷ 6 ∷ [])))
cons-setcar_setcdr_example =
    cons-setcar_setcdr sys {s = heap} {base = 1} {link = 10} 0 50 3 4 5 6
      (untyped {o = obj 10 0 0 _} (record { ne_null = omega arith; holds = refl }) refl)
      (behind {o = obj 10 0 0 _} (record { ne_null = omega arith; holds = refl }) refl) refl
      (omega arith) (omega arith)
