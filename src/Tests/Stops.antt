-- ===== src/Tests/Stops.antt =====
-- A full base with the message "out" and two objects counted, with an error hook or without, whose
-- ceiling of two is reached.
use x_expr.Prelude.{ℕ, ◌≡◌, refl, true, none, some, List, [], ◌∷◌, arith}
use x_expr.Memory.{Obj, State, ok, jumped, exited, minus_one, load, unit_at}
use x_expr.Strings.Laws.{done, more}
use x_expr.Sys.{System}
use x_expr.Base.{
  x_base, x_base_isset, rest_n, elem_n, x_base_field_meta_fields, x_base_field_heap_fields,
  x_base_field_alloc_fields, x_base_field_obj_meta_extra, x_base_field_alloc_count,
  x_base_field_alloc_limit, x_base_field_alloc_error, base_full, x_base_field_hooks,
  x_base_field_hook_error,
}
use x_expr.Error.{stderr_fileno, error_prefix, error_hook}
use x_expr.Error.Reported.{wrote_all}
use x_expr.Obj.{x_obj_type, x_obj_data_i, x_firstobj, x_restobj, x_obj_isnil}
use x_expr.Obj.Alloc.{Config, config, field_atom, field_int, x_obj_alloc}
use x_expr.Obj.Ceiling.{Limited, latched}
use x_expr.Obj.Full.{Full}
use x_expr.Obj.Stops.{Message, spoken, reach, alloc-Stop, trip-once}
use x_expr.Tests.Scene.{at, obj, sys}
use x_expr.Tests.Limit.{full}

-- The message atom is at 18 and its text at 300; the hook's pair is at `hook`.
abbrev armed : (limit hook : ℕ) → State
armed limit hook = record (full limit) {
  objs = at (
      (1, obj 0 100 0 (2 ∷ []))
      ∷ (2, obj 0 101 0 (0 ∷ 3 ∷ []))
      ∷ (3, obj 0 101 0 (0 ∷ 4 ∷ []))
      ∷ (4, obj 0 101 0 (24 ∷ 5 ∷ []))
      ∷ (5, obj 0 101 0 (7 ∷ 6 ∷ []))
      ∷ (6, obj 0 101 0 (10 ∷ 0 ∷ []))
      ∷ (7, obj 0 101 0 (8 ∷ 0 ∷ []))
      ∷ (8, obj 0 101 0 (9 ∷ 0 ∷ []))
      ∷ (9, obj 0 102 0 (0 ∷ []))
      ∷ (10, obj 0 101 0 (11 ∷ 12 ∷ []))
      ∷ (11, obj 0 101 0 (16 ∷ 0 ∷ []))
      ∷ (12, obj 0 101 0 (13 ∷ 14 ∷ []))
      ∷ (13, obj 0 101 0 (17 ∷ 0 ∷ []))
      ∷ (14, obj 0 101 0 (15 ∷ 0 ∷ []))
      ∷ (15, obj 0 101 0 (18 ∷ 0 ∷ []))
      ∷ (16, obj 0 102 0 (2 ∷ []))
      ∷ (17, obj 0 102 0 (limit ∷ []))
      ∷ (18, obj 0 102 0 (300 ∷ []))
      ∷ (24, obj 0 101 0 (0 ∷ 25 ∷ []))
      ∷ (25, obj 0 101 0 (0 ∷ 26 ∷ []))
      ∷ (26, obj 0 101 0 (0 ∷ 27 ∷ []))
      ∷ (27, obj 0 101 0 (0 ∷ 28 ∷ []))
      ∷ (28, obj 0 101 0 (29 ∷ 0 ∷ []))
      ∷ (29, obj 0 101 0 (hook ∷ 0 ∷ []))
      ∷ (30, obj 0 101 0 (400 ∷ 0 ∷ []))
      ∷ []);
  buffers = at ((300, b'o' ∷ b'u' ∷ b't' ∷ 0 ∷ []) ∷ []);
}

abbrev told : List (List ℕ)
told = error_prefix ∷ (b'o' ∷ b'u' ∷ b't' ∷ []) ∷ []

abbrev limits : ℕ → Config
limits limit = record { full = true; extra = 0; limit = limit; message = 18 }

abbrev limit_atom : ℕ → Obj
limit_atom limit = obj 0 102 0 (limit ∷ [])

abbrev tripped : (hook : ℕ) → State
tripped hook = latched (armed 2 hook) 17 (limit_atom 2)

armed-config : (limit hook : ℕ) → config 1 (armed limit hook) ≡ ok (limits limit) (armed limit hook)
unfolding config base_full x_base_isset x_obj_isnil x_obj_type x_base_field_heap_fields
    x_base_field_obj_meta_extra x_base_field_alloc_error field_int load unit_at x_obj_data_i
    x_firstobj x_restobj x_base x_base_field_meta_fields x_base_field_alloc_fields rest_n elem_n
    field_atom x_base_field_alloc_limit
armed-config limit hook = refl

armed-Limited :
    (limit hook : ℕ) → Limited (armed limit hook) 1 (limits limit) 2 17 (limit_atom limit)
unfolding field_int load unit_at x_obj_data_i x_firstobj x_restobj x_base x_base_field_meta_fields
    x_base_field_alloc_fields rest_n elem_n field_atom x_base_field_alloc_count
    x_base_field_alloc_limit
armed-Limited limit hook = record {
  configured = armed-config limit hook;
  counted = refl;
  limit_atom = refl;
  points = record { ne_null = omega arith; holds = refl };
  unit = refl;
}

armed-Full :
    (limit hook : ℕ)
    → Full (armed limit hook) 1 (limits limit) 2 16 (obj 0 102 0 (2 ∷ [])) (obj 0 100 0 (2 ∷ []))
unfolding load unit_at x_obj_data_i x_firstobj x_restobj x_base x_base_field_meta_fields
    x_base_field_alloc_fields rest_n elem_n field_atom x_base_field_alloc_count
armed-Full limit hook = record {
  rest = [];
  configured = armed-config limit hook;
  is_full = refl;
  counter = refl;
  at_count = record { ne_null = omega arith; holds = refl };
  count_unit = refl;
  at_base = record { ne_null = omega arith; holds = refl };
  apart = omega arith;
}

tripped-unhooked : error_hook sys 1 (tripped 0) ≡ ok none (tripped 0)
unfolding error_hook x_base_isset x_base_field_hook_error x_base_field_hooks load unit_at
    x_obj_data_i x_firstobj x_restobj x_base x_base_field_meta_fields rest_n elem_n x_obj_isnil
tripped-unhooked = refl

tripped-Message : (hook : ℕ) → Message (tripped hook) 18 told
tripped-Message hook =
    spoken {o = obj 0 102 0 (300 ∷ [])} (record { ne_null = omega arith; holds = refl }) refl
      (record {
        ne_null = omega arith;
        post = [];
        holds = refl;
        no_nul = more (omega arith) (more (omega arith) (more (omega arith) done));
      })

-- The ceiling of two is reached, and no hook is installed.
alloc-Stop_example :
    x_obj_alloc sys 1 102 0 1 (armed 2 0) ≡ exited 2 (wrote_all (tripped 0) stderr_fileno told)
alloc-Stop_example =
    alloc-Stop sys 102 0 1 (armed-Full 2 0) (armed-Limited 2 0)
      (reach refl refl refl tripped-unhooked) (tripped-Message 0)

-- A hook that jumps away.
abbrev catching : System
catching = record sys { call_error = λ fn base message p s. jumped s }

tripped-hook : error_hook catching 1 (tripped 30) ≡ ok (some 400) (tripped 30)
unfolding error_hook x_base_isset x_base_field_hook_error x_base_field_hooks load unit_at
    x_obj_data_i x_firstobj x_restobj x_base x_base_field_meta_fields rest_n elem_n x_obj_isnil
tripped-hook = refl

tripped-Limited : Limited (tripped 30) 1 (limits minus_one) 2 17 (limit_atom minus_one)
unfolding config base_full x_base_isset x_obj_isnil x_obj_type x_base_field_heap_fields
    x_base_field_obj_meta_extra x_base_field_alloc_error field_int load unit_at x_obj_data_i
    x_firstobj x_restobj x_base x_base_field_meta_fields x_base_field_alloc_fields rest_n elem_n
    field_atom x_base_field_alloc_limit x_base_field_alloc_count
tripped-Limited = record {
  configured = refl;
  counted = refl;
  limit_atom = refl;
  points = record { ne_null = omega arith; holds = refl };
  unit = refl;
}

trip-once_example :
    (x_obj_alloc catching 1 102 0 1 (armed 2 30) ≡ jumped (tripped 30))
    × (x_obj_alloc catching 1 101 0 2 (tripped 30)
        ≡ exited 2 (wrote_all (tripped 30) stderr_fileno told))
trip-once_example =
    trip-once catching 102 0 1 101 0 2 (armed-Limited 2 30) refl refl refl
      (record { ne_null = omega arith; holds = refl }) refl tripped-hook refl tripped-Limited
      (record { ne_null = omega arith; holds = refl }) (tripped-Message 30)
