-- ===== src/Tests/Limit.antt =====
-- A full base whose allocation limit is 2, with two objects counted, and with no message.
use x_expr.Prelude.{ℕ, ◌≡◌, refl, ◌≢◌, inr, true, [], ◌∷◌, arith}
use x_expr.Memory.{Obj, State, ok, load, unit_at}
use x_expr.Base.{
  x_base, x_base_isset, rest_n, elem_n, x_base_field_meta_fields, x_base_field_heap_fields,
  x_base_field_alloc_fields, x_base_field_obj_meta_extra, x_base_field_alloc_count,
  x_base_field_alloc_limit, x_base_field_alloc_error, base_full,
}
use x_expr.Obj.{x_obj_type, x_obj_data_i, x_firstobj, x_restobj, x_obj_isnil}
use x_expr.Obj.Alloc.{Config, config, field_atom, field_int, x_obj_alloc}
use x_expr.Obj.Ceiling.{Limited, latched, stopped, hooked_report, alloc-trip, alloc-ceiling}
use x_expr.Tests.Scene.{at, obj, sys}

-- The base at 1, its tree from 2 on, and the atoms of the extra units (9), the count (16) and the
-- limit (17).
abbrev pub full : ℕ → State
full limit = record {
  objs = at (
      (1, obj 0 100 0 (2 ∷ []))
      ∷ (2, obj 0 101 0 (0 ∷ 3 ∷ []))
      ∷ (3, obj 0 101 0 (0 ∷ 4 ∷ []))
      ∷ (4, obj 0 101 0 (0 ∷ 5 ∷ []))
      ∷ (5, obj 0 101 0 (7 ∷ 6 ∷ []))
      ∷ (6, obj 0 101 0 (10 ∷ 0 ∷ []))
      ∷ (7, obj 0 101 0 (8 ∷ 0 ∷ []))
      ∷ (8, obj 0 101 0 (9 ∷ 0 ∷ []))
      ∷ (9, obj 0 102 0 (0 ∷ []))
      ∷ (10, obj 0 101 0 (11 ∷ 12 ∷ []))
      ∷ (11, obj 0 101 0 (16 ∷ 0 ∷ []))
      ∷ (12, obj 0 101 0 (13 ∷ 14 ∷ []))
      ∷ (13, obj 0 101 0 (17 ∷ 0 ∷ []))
      ∷ (14, obj 0 101 0 (15 ∷ 0 ∷ []))
      ∷ (15, obj 0 101 0 (0 ∷ 0 ∷ []))
      ∷ (16, obj 0 102 0 (2 ∷ []))
      ∷ (17, obj 0 102 0 (limit ∷ []))
      ∷ []);
  blocks = at [];
  buffers = at [];
  calls = [];
}

abbrev limit_atom : ℕ → Obj
limit_atom limit = obj 0 102 0 (limit ∷ [])

abbrev pub read : ℕ → Config
read limit = record { full = true; extra = 0; limit = limit; message = 0 }

full-count : (limit : ℕ) → field_int (x_base_field_alloc_count 1) (full limit) ≡ ok 2 (full limit)
unfolding field_int load unit_at x_obj_data_i x_firstobj x_restobj x_base x_base_field_meta_fields
    x_base_field_alloc_fields rest_n elem_n field_atom x_base_field_alloc_count
full-count limit = refl

full-limit : (limit : ℕ) → field_atom (x_base_field_alloc_limit 1) (full limit) ≡ ok 17 (full limit)
unfolding load unit_at x_obj_data_i x_firstobj x_restobj x_base x_base_field_meta_fields
    x_base_field_alloc_fields rest_n elem_n field_atom x_base_field_alloc_limit
full-limit limit = refl

full-config : (limit : ℕ) → config 1 (full limit) ≡ ok (read limit) (full limit)
unfolding config base_full x_base_isset x_obj_isnil x_obj_type x_base_field_heap_fields
    x_base_field_obj_meta_extra x_base_field_alloc_error field_int load unit_at x_obj_data_i
    x_firstobj x_restobj x_base x_base_field_meta_fields x_base_field_alloc_fields rest_n elem_n
    field_atom x_base_field_alloc_limit
full-config limit = refl

full-Limited : (limit : ℕ) → Limited (full limit) 1 (read limit) 2 17 (limit_atom limit)
full-Limited limit = record {
  configured = full-config limit;
  counted = full-count limit;
  limit_atom = full-limit limit;
  points = record { ne_null = omega arith; holds = refl };
  unit = refl;
}

alloc-ceiling_example : x_obj_alloc sys 1 102 0 1 (full 2) ≢ ok 50 (full 2)
alloc-ceiling_example =
    alloc-ceiling sys (full-Limited 2) 102 0 1 (inr (refl, refl, refl)) 50 (full 2)

alloc-trip_example :
    x_obj_alloc sys 1 102 0 1 (full 2)
    ≡ stopped 0 (hooked_report sys 1 0) (latched (full 2) 17 (limit_atom 2))
alloc-trip_example = alloc-trip sys (full-Limited 2) 102 0 1 refl refl refl
