-- ===== src/Tests/Objects.antt =====
-- Making, freeing, registering and measuring objects of the scene.
use x_expr.Prelude.{◌≡◌, refl, inr, some, [], ◌∷◌, arith}
use x_expr.Memory.{State, ok, ◌>>=◌, put_obj}
use x_expr.Memory.Points.{Points}
use x_expr.Obj.Free.{no_base, untyped, own_block, Disposable, disposed, x_obj_free-Bare}
use x_expr.Obj.Alloc.{x_obj_make, x_obj_free}
use x_expr.Obj.Make.{alone, behind, made, whole, make-made}
use x_expr.Obj.Field.Stack.{with_pair}
use x_expr.Obj.TypeInfo.{x_obj_units, x_obj_length, x_obj_type_name}
use x_expr.Obj.TypeInfo.Unknown.{foreign, units-Unknown}
use x_expr.Obj.TypeInfo.Builtin.{Statics, Free, static, units-builtin}
use x_expr.Obj.Field.{x_obj_push, x_obj_pop}
use x_expr.Obj.Field.Wrapped.{Arguments, x_obj_push-x_obj_pop}
use x_expr.Tests.Scene.{at, obj, sys, heap}

base-here : Points heap 1 (obj 10 0 0 (0 ∷ []))
base-here = record { ne_null = omega arith; holds = refl }

-- A new pair behind the untyped base.
make-made_example :
    x_obj_make sys 1 101 0 (20 ∷ 0 ∷ []) heap
    ≡ ok 50 (made heap 1 50 (whole 10 101 0 (20 ∷ 0 ∷ [])))
make-made_example =
    make-made sys 101 0 50 (20 ∷ 0 ∷ []) (untyped base-here refl) (behind base-here refl) refl
      (omega arith) (omega arith)

owner-Disposable : Disposable heap 30 (obj 40 102 0x20 (35 ∷ []))
unfolding own_block
owner-Disposable = record {
  points = record { ne_null = omega arith; holds = refl };
  home = refl;
  owned = inr refl;
  unit = inr (35, [], refl);
}

-- The atom at 30 goes with the buffer at 35 that it owns.
x_obj_free-Bare_example :
    x_obj_free 1 30 heap ≡ ok tt (disposed heap 30 (obj 40 102 0x20 (35 ∷ [])))
x_obj_free-Bare_example = x_obj_free-Bare owner-Disposable (untyped base-here refl)

-- The static objects, a slot at 60 whose head is the local atom at 61, and another local at 62.
abbrev statics : State
statics = record {
  objs = at (
      (10, obj 0 101 0 (20 ∷ 0 ∷ []))
      ∷ (60, obj 0 101 0 (61 ∷ 0 ∷ []))
      ∷ (61, obj 0 102 0 (5 ∷ []))
      ∷ (62, obj 0 102 0 (6 ∷ []))
      ∷ (103, static 1)
      ∷ (104, static 2)
      ∷ (105, static 1)
      ∷ (106, static 2)
      ∷ []);
  blocks = at [];
  buffers = at [];
  calls = [];
}

abbrev foreign_object : State
foreign_object = record {
  objs = at ((70, obj 0 300 0 (4 ∷ [])) ∷ []);
  blocks = at [];
  buffers = at [];
  calls = [];
}

statics-Statics : Statics sys statics
statics-Statics = record {
  units_atom = record { ne_null = omega arith; holds = refl };
  units_pair = record { ne_null = omega arith; holds = refl };
  length_atom = record { ne_null = omega arith; holds = refl };
  length_pair = record { ne_null = omega arith; holds = refl };
}

statics-Free : Free sys statics
statics-Free = record { ne_null = omega arith; unused = refl }

units-builtin_example :
    (x_obj_units sys 0 10 statics ≡ ok 2 statics) × (x_obj_length sys 0 10 statics ≡ ok 2 statics)
units-builtin_example =
    units-builtin statics-Free statics-Statics 0 {o = obj 0 101 0 (20 ∷ 0 ∷ [])}
      (record { ne_null = omega arith; holds = refl }) refl

-- Pushing the local at 62 on the field in the cell at 60, without a base.
-- A type that the library does not know, without a base.
units-Unknown_example :
    (x_obj_units sys 0 70 foreign_object ≡ ok 1 foreign_object)
    × (x_obj_length sys 0 70 foreign_object ≡ ok 0 foreign_object)
    × (x_obj_type_name sys 0 70 foreign_object ≡ ok 120 foreign_object)
units-Unknown_example =
    units-Unknown {s = foreign_object} (record { ne_null = omega arith; unused = refl }) 0
      (foreign {o = obj 0 300 0 (4 ∷ [])} (record { ne_null = omega arith; holds = refl }) refl
        refl)

-- The field of the object at 60 by its address, 84, in the atom at 83, with the arguments of a push at 80
-- and of a pop at 82.
abbrev wrapped : State
wrapped =
    put_obj
      (put_obj
        (put_obj (put_obj statics 80 (some (obj 0 101 0 (83 ∷ 81 ∷ [])))) 81
          (some (obj 0 101 0 (62 ∷ 0 ∷ []))))
        82 (some (obj 0 101 0 (83 ∷ 0 ∷ []))))
      83 (some (obj 0 102 0 (84 ∷ [])))

wrapped-Arguments : Arguments wrapped 0 50 60 62 80 82
wrapped-Arguments = record {
  atom = 83;
  rest = 81;
  pop_rest = 0;
  at_push = record {
    obj = obj 0 101 0 (83 ∷ 81 ∷ []);
    at = record { ne_null = omega arith; holds = refl };
    is_units = refl;
    off_base = omega arith;
    off_new = omega arith;
    off_cell = omega arith;
  };
  at_rest = record {
    obj = obj 0 101 0 (62 ∷ 0 ∷ []);
    at = record { ne_null = omega arith; holds = refl };
    is_units = refl;
    off_base = omega arith;
    off_new = omega arith;
    off_cell = omega arith;
  };
  at_pop = record {
    obj = obj 0 101 0 (83 ∷ 0 ∷ []);
    at = record { ne_null = omega arith; holds = refl };
    is_units = refl;
    off_base = omega arith;
    off_new = omega arith;
    off_cell = omega arith;
  };
  at_atom = record {
    obj = obj 0 102 0 (84 ∷ []);
    at = record { ne_null = omega arith; holds = refl };
    is_units = refl;
    off_base = omega arith;
    off_new = omega arith;
    off_cell = omega arith;
  };
}

x_obj_push-x_obj_pop_example :
    (x_obj_push sys 0 80 >>= λ _. x_obj_pop 82) wrapped
    ≡ ok 62 (with_pair sys wrapped 0 0 50 0 62 61)
x_obj_push-x_obj_pop_example =
    x_obj_push-x_obj_pop sys {s = wrapped} {base = 0} {cell = 60} {c = obj 0 101 0 (61 ∷ 0 ∷ [])} 62
      50 80 82 (record { ne_null = omega arith; holds = refl }) refl wrapped-Arguments
      (no_base refl) (alone refl) refl (omega arith) (omega arith) (omega arith) (omega arith)
