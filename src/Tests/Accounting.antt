-- ===== src/Tests/Accounting.antt =====
-- A full base whose objects have two metadata units, and whose limit of 5 is not reached: an allocation,
-- and the release of an object at 66 in the block at 50.
use x_expr.Prelude.{◌≡◌, refl, true, [], ◌∷◌, some, none, arith}
use x_expr.Memory.{Obj, object, State, ok, put_obj, load, unit_at, word_dec}
use x_expr.Sys.{put_block}
use x_expr.Base.{
  x_base, x_base_isset, rest_n, elem_n, x_base_field_meta_fields, x_base_field_heap_fields,
  x_base_field_alloc_fields, x_base_field_obj_meta_extra, x_base_field_alloc_count,
  x_base_field_alloc_limit, x_base_field_alloc_error, base_full,
}
use x_expr.Obj.{x_obj_type, x_obj_data_i, x_firstobj, x_restobj, x_obj_isnil}
use x_expr.Obj.Alloc.{Config, config, field_atom, field_int, x_obj_make, x_obj_free}
use x_expr.Obj.Full.{Full, counted, enlarged, make-Full}
use x_expr.Obj.FullFree.{free-Full}
use x_expr.Tests.Scene.{obj, sys}
use x_expr.Tests.Limit.{full}

abbrev wide : State
wide = put_obj (full 5) 9 (some (obj 0 102 0 (2 ∷ [])))

abbrev settings : Config
settings = record { full = true; extra = 2; limit = 5; message = 0 }

abbrev count_atom : Obj
count_atom = obj 0 102 0 (2 ∷ [])

abbrev base_cell : Obj
base_cell = obj 0 100 0 (2 ∷ [])

wide-config : config 1 wide ≡ ok settings wide
unfolding config base_full x_base_isset x_obj_isnil x_obj_type x_base_field_heap_fields
    x_base_field_obj_meta_extra x_base_field_alloc_error field_int load unit_at x_obj_data_i
    x_firstobj x_restobj x_base x_base_field_meta_fields x_base_field_alloc_fields rest_n elem_n
    field_atom x_base_field_alloc_limit
wide-config = refl

wide-counter : field_atom (x_base_field_alloc_count 1) wide ≡ ok 16 wide
unfolding load unit_at x_obj_data_i x_firstobj x_restobj x_base x_base_field_meta_fields
    x_base_field_alloc_fields rest_n elem_n field_atom x_base_field_alloc_count
wide-counter = refl

wide-Full : Full wide 1 settings 2 16 count_atom base_cell
wide-Full = record {
  rest = [];
  configured = wide-config;
  is_full = refl;
  counter = wide-counter;
  at_count = record { ne_null = omega arith; holds = refl };
  count_unit = refl;
  at_base = record { ne_null = omega arith; holds = refl };
  apart = omega arith;
}

make-Full_example :
    x_obj_make sys 1 102 0 (9 ∷ []) wide ≡ ok 66 (enlarged sys wide-Full 102 0 50 (9 ∷ []) (9 ∷ []))
make-Full_example =
    make-Full sys wide-Full 102 0 50 (9 ∷ []) (refl, λ h. refl) refl (omega arith) (omega arith)
      (omega arith) (omega arith) (omega arith)

-- The object that goes back.
abbrev old : Obj
old = record { heap = 0; type = 102; flags = 0x80; units = 9 ∷ []; before = 0 ∷ 0 ∷ [] }

abbrev held : State
held = put_obj (put_block wide 50 (some (object 66))) 66 (some old)

held-config : config 1 held ≡ ok settings held
unfolding config base_full x_base_isset x_obj_isnil x_obj_type x_base_field_heap_fields
    x_base_field_obj_meta_extra x_base_field_alloc_error field_int load unit_at x_obj_data_i
    x_firstobj x_restobj x_base x_base_field_meta_fields x_base_field_alloc_fields rest_n elem_n
    field_atom x_base_field_alloc_limit
held-config = refl

held-counter : field_atom (x_base_field_alloc_count 1) held ≡ ok 16 held
unfolding load unit_at x_obj_data_i x_firstobj x_restobj x_base x_base_field_meta_fields
    x_base_field_alloc_fields rest_n elem_n field_atom x_base_field_alloc_count
held-counter = refl

held-full : base_full 1 held ≡ ok true held
unfolding base_full x_base_isset x_obj_isnil x_obj_type load unit_at x_obj_data_i x_firstobj x_base
held-full = refl

held-extra : field_int (x_base_field_obj_meta_extra 1) held ≡ ok 2 held
unfolding x_base_field_heap_fields x_base_field_obj_meta_extra field_int load unit_at x_obj_data_i
    x_firstobj x_restobj x_base x_base_field_meta_fields rest_n elem_n field_atom
held-extra = refl

held-Full : Full held 1 settings 2 16 count_atom base_cell
held-Full = record {
  rest = [];
  configured = held-config;
  is_full = refl;
  counter = held-counter;
  at_count = record { ne_null = omega arith; holds = refl };
  count_unit = refl;
  at_base = record { ne_null = omega arith; holds = refl };
  apart = omega arith;
}

free-Full_example :
    x_obj_free 1 66 held
    ≡ ok tt (put_obj (put_block (counted sys held-Full word_dec held) 50 none) 66 none)
free-Full_example =
    free-Full sys held-Full 50 66 {o = old} held-full held-extra
      (record { ne_null = omega arith; holds = refl }) (omega arith) refl refl refl (omega arith)
      refl
