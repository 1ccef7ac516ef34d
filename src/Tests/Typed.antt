-- ===== src/Tests/Typed.antt =====
-- The static objects in place, and a pair that is made without a base.
use x_expr.Prelude.{◌≡◌, refl, true, false, [], ◌∷◌, arith}
use x_expr.Memory.{State, ok}
use x_expr.Obj.Alloc.{x_mkspair}
use x_expr.Obj.Free.{no_base}
use x_expr.Obj.Make.{alone, made, whole, make-made}
use x_expr.Obj.Static.{
  Loaded, atom_type, pair_type, units_atom, units_pair, length_atom, length_pair, true_obj,
  false_obj,
}
use x_expr.Obj.TypeInfo.Typed.{a_pair, Typed, construct-Typed}
use x_expr.Tests.Scene.{at, obj, sys}

abbrev pub loaded : State
loaded = record {
  objs = at (
      (101, obj 0 0 0 (122 ∷ []))
      ∷ (102, obj 0 0 0 (121 ∷ []))
      ∷ (103, obj 0 0 0 (1 ∷ []))
      ∷ (104, obj 0 0 0 (2 ∷ []))
      ∷ (105, obj 0 0 0 (1 ∷ []))
      ∷ (106, obj 0 0 0 (2 ∷ []))
      ∷ (107, obj 0 0 0 (123 ∷ []))
      ∷ (108, obj 0 0 0 (124 ∷ []))
      ∷ []);
  blocks = at [];
  buffers = at [];
  calls = [];
}

loaded-Loaded : Loaded sys loaded
loaded-Loaded q o atom_type = record { ne_null = omega arith; holds = refl }
loaded-Loaded q o pair_type = record { ne_null = omega arith; holds = refl }
loaded-Loaded q o units_atom = record { ne_null = omega arith; holds = refl }
loaded-Loaded q o units_pair = record { ne_null = omega arith; holds = refl }
loaded-Loaded q o length_atom = record { ne_null = omega arith; holds = refl }
loaded-Loaded q o length_pair = record { ne_null = omega arith; holds = refl }
loaded-Loaded q o true_obj = record { ne_null = omega arith; holds = refl }
loaded-Loaded q o false_obj = record { ne_null = omega arith; holds = refl }

abbrev with_pair : State
with_pair = made loaded 0 50 (whole 0 101 0 (7 ∷ 0 ∷ []))

pair_made : x_mkspair sys 0 0 7 0 loaded ≡ ok 50 with_pair
unfolding x_mkspair
pair_made =
    make-made sys 101 0 50 (7 ∷ 0 ∷ []) (no_base refl) (alone refl) refl (omega arith) (omega arith)

construct-Typed_example : Typed sys 0 50 with_pair false true 2 122
construct-Typed_example =
    construct-Typed sys 0 (omega arith) loaded-Loaded (no_base refl) (alone refl) (omega arith) refl
      (omega arith) (λ q o st. (loaded-Loaded q o st).ne_null) (a_pair 7 0) refl pair_made
      (record { ne_null = omega arith; unused = refl })
