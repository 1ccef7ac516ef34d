-- ===== src/Obj/Static.antt =====
-- The static objects of src/x-obj.c, and the sizes in include/x-obj.h that they hold.
use x_expr.Prelude.{ℕ, List, [], ◌∷◌}
use x_expr.Memory.{Word, Ptr, null, Obj, State}
use x_expr.Memory.Points.{Points}
use x_expr.Sys.{System}
use x_expr.Obj.{x_obj_flag_none}

abbrev pub x_obj_units_atom : ℕ
x_obj_units_atom = 1

abbrev pub x_obj_units_pair : ℕ
x_obj_units_pair = 2

abbrev pub x_obj_length_atom : ℕ
x_obj_length_atom = x_obj_units_atom

abbrev pub x_obj_length_pair : ℕ
x_obj_length_pair = x_obj_units_pair

-- The brace initialiser of an object in static or local storage.
abbrev pub x_obj_set : (type : Ptr) → (flags : ℕ) → List Word → Obj
x_obj_set type flags units = record {
  heap = null;
  type = type;
  flags = flags;
  units = units;
  before = [];
}

abbrev pub x_type_units_atom_obj : Obj
x_type_units_atom_obj = x_obj_set null x_obj_flag_none (x_obj_units_atom ∷ [])

abbrev pub x_type_units_pair_obj : Obj
x_type_units_pair_obj = x_obj_set null x_obj_flag_none (x_obj_units_pair ∷ [])

abbrev pub x_type_length_atom_obj : Obj
x_type_length_atom_obj = x_obj_set null x_obj_flag_none (x_obj_length_atom ∷ [])

abbrev pub x_type_length_pair_obj : Obj
x_type_length_pair_obj = x_obj_set null x_obj_flag_none (x_obj_length_pair ∷ [])

module _ (sys : System) where
  abbrev pub x_type_atom_obj : Obj
  x_type_atom_obj = x_obj_set null x_obj_flag_none (sys.atom_name ∷ [])

  abbrev pub x_type_pair_obj : Obj
  x_type_pair_obj = x_obj_set null x_obj_flag_none (sys.pair_name ∷ [])

  abbrev pub x_true_obj : Obj
  x_true_obj = x_obj_set null x_obj_flag_none (sys.true_text ∷ [])

  abbrev pub x_false_obj : Obj
  x_false_obj = x_obj_set null x_obj_flag_none (sys.false_text ∷ [])

  -- The static objects and where the linker puts them.
  pub data Static : Ptr → Obj → Type 0 where
    atom_type : Static sys.atom_type x_type_atom_obj
    pair_type : Static sys.pair_type x_type_pair_obj
    units_atom : Static sys.units_atom x_type_units_atom_obj
    units_pair : Static sys.units_pair x_type_units_pair_obj
    length_atom : Static sys.length_atom x_type_length_atom_obj
    length_pair : Static sys.length_pair x_type_length_pair_obj
    true_obj : Static sys.true_obj x_true_obj
    false_obj : Static sys.false_obj x_false_obj

  -- The program's data segment is as it was initialised.
  abbrev pub Loaded : State → Type 0
  Loaded s = (q : Ptr) (o : Obj) → Static q o → Points s q o
