-- ===== src/Tests/Account.antt =====
-- A full base without metadata units and with the limit 5, and an allocator with one address, 50: an
-- atom is made, freed and made again.
use x_expr.Prelude.{
  ℕ, ◌≡◌, ◌≢◌, ◌≤◌, ◌+◌, ◌*◌, refl, none, some, Option, List, [], ◌∷◌, ◌==◌, length, inl, inr,
  Bool-cases, arith, ap, ◌∙◌,
}
use x_expr.Memory.{State, Run, ok, put_obj, load, unit_at}
use x_expr.Memory.Reads.{Extends}
use x_expr.Sys.{System, x_sys_malloc, x_sys_free}
use x_expr.Obj.{
  x_obj_type, x_obj_data_i, x_firstobj, x_restobj, x_obj_isnil, x_obj_size, x_obj_heap, set_heap,
  set_data_i, x_obj_flags,
}
use x_expr.Obj.Alloc.{
  config, field_atom, field_int, update_count, fresh_units, fits, place, at_ceiling, allocate,
  x_obj_alloc, fill, x_obj_make, free_back, free_owned, free_alloc, x_obj_free,
}
use x_expr.Obj.Account.{Allocator, Steps, start, make, free}
use x_expr.Obj.Account.Core.{Core}
use x_expr.Obj.Account.Live.{nobody}
use x_expr.Obj.Account.Invariant.{Accounted}
use x_expr.Obj.Account.Kept.{Steps-Accounted, Steps-bounded}
use x_expr.Base.{
  x_base, x_base_isset, rest_n, elem_n, x_base_field_meta_fields, x_base_field_heap_fields,
  x_base_field_alloc_fields, x_base_field_obj_meta_extra, x_base_field_alloc_count,
  x_base_field_alloc_limit, x_base_field_alloc_error, base_full,
}
use x_expr.Tests.Scene.{obj, sys}
use x_expr.Tests.Limit.{full, read}

-- The address, if no block and no object is there.
abbrev vacant : {A B : Type 0} → Option A → Option B → ℕ
vacant none none = 50
vacant none (some _) = 0
vacant (some _) _ = 0

vacant-fresh :
    {A B : Type 0} (x : Option A) (y : Option B)
    → vacant x y ≢ 0
    → (vacant x y ≡ 50) × (x ≡ none) × (y ≡ none)
vacant-fresh none none got = (refl, refl, refl)
vacant-fresh none (some y) got = absurd (got refl)
vacant-fresh (some x) y got = absurd (got refl)

abbrev one_place : System
one_place = record sys { malloc = λ s n. vacant (s.blocks 50) (s.objs 50) }

one_place-Allocator : Allocator one_place 0
one_place-Allocator s size got =
    let (at, no_block, no_object) = vacant-fresh (s.blocks 50) (s.objs 50) got in
    let home : vacant (s.blocks 50) (s.objs 50) + x_obj_size * 0 ≡ 50 = omega (arith, at) in
    (ap s.blocks at ∙ no_block, ap s.objs home ∙ no_object)

abbrev empty : State
empty = put_obj (full 5) 16 (some (obj 0 102 0 (0 ∷ [])))

abbrev settings_only : State
settings_only = put_obj (full 5) 16 none

settings-Core : Core settings_only 1 (read 5) 16
unfolding config base_full x_base_isset x_obj_isnil x_obj_type x_base_field_heap_fields
    x_base_field_obj_meta_extra x_base_field_alloc_error field_int load unit_at x_obj_data_i
    x_firstobj x_restobj x_base x_base_field_meta_fields x_base_field_alloc_fields rest_n elem_n
    field_atom x_base_field_alloc_limit x_base_field_alloc_count
settings-Core = record {
  bo = obj 0 100 0 (2 ∷ []);
  at_base = record { ne_null = omega arith; holds = refl };
  limit_word = omega arith;
  configured = refl;
  is_full = refl;
  full = refl;
  extra = refl;
  counter = refl;
  no_count = refl;
  cell = 17;
  limit_atom = refl;
  lo = obj 0 102 0 (5 ∷ []);
  at_limit = record { ne_null = omega arith; holds = refl };
  limit_unit = refl;
}

settings-Extends : Extends settings_only empty
settings-Extends p = elim (Bool-cases (p == 16)) [
  | inl count ↦ inl (rw count refl)
  | inr other ↦ inr (rw other refl)
]

empty-Accounted : Accounted settings_only 1 (read 5) 16 empty []
empty-Accounted = record {
  within = settings-Extends;
  ao = obj 0 102 0 (0 ∷ []);
  at_count = record { ne_null = omega arith; holds = refl };
  count_unit = refl;
  live = nobody;
  bounded = λ _. omega arith;
}

abbrev one_live : List ℕ
one_live = 50 ∷ []

abbrev after : {A : Type 0} → Run A → State
after (ok a s) = s
after _ = empty

abbrev made_once : State
made_once = after (x_obj_make one_place 1 102 0 (9 ∷ []) empty)

abbrev freed_once : State
freed_once = after (x_obj_free 1 50 made_once)

abbrev made_twice : State
made_twice = after (x_obj_make one_place 1 102 0 (7 ∷ []) freed_once)

make_first : x_obj_make one_place 1 102 0 (9 ∷ []) empty ≡ ok 50 made_once
unfolding config base_full x_base_isset x_obj_isnil x_obj_type x_base_field_heap_fields
    x_base_field_obj_meta_extra x_base_field_alloc_error field_int load unit_at x_obj_data_i
    x_firstobj x_restobj x_base x_base_field_meta_fields x_base_field_alloc_fields rest_n elem_n
    field_atom x_base_field_alloc_limit x_base_field_alloc_count update_count fresh_units fits place
    at_ceiling allocate x_obj_alloc fill x_obj_make x_sys_malloc x_obj_heap set_heap set_data_i
make_first = refl

free_it : x_obj_free 1 50 made_once ≡ ok tt freed_once
unfolding config base_full x_base_isset x_obj_isnil x_obj_type x_base_field_heap_fields
    x_base_field_obj_meta_extra x_base_field_alloc_error field_int load unit_at x_obj_data_i
    x_firstobj x_restobj x_base x_base_field_meta_fields x_base_field_alloc_fields rest_n elem_n
    field_atom x_base_field_alloc_limit x_base_field_alloc_count update_count fresh_units fits place
    at_ceiling allocate x_obj_alloc fill x_obj_make x_sys_malloc x_obj_heap set_heap set_data_i
    free_back free_owned free_alloc x_obj_free x_obj_flags x_sys_free
free_it = refl

make_again : x_obj_make one_place 1 102 0 (7 ∷ []) freed_once ≡ ok 50 made_twice
unfolding config base_full x_base_isset x_obj_isnil x_obj_type x_base_field_heap_fields
    x_base_field_obj_meta_extra x_base_field_alloc_error field_int load unit_at x_obj_data_i
    x_firstobj x_restobj x_base x_base_field_meta_fields x_base_field_alloc_fields rest_n elem_n
    field_atom x_base_field_alloc_limit x_base_field_alloc_count update_count fresh_units fits place
    at_ceiling allocate x_obj_alloc fill x_obj_make x_sys_malloc x_obj_heap set_heap set_data_i
    free_back free_owned free_alloc x_obj_free x_obj_flags x_sys_free
make_again = refl

three-Steps : Steps one_place 1 empty [] made_twice (50 ∷ [])
three-Steps =
    make 102 0 (7 ∷ []) (free 50 (make 102 0 (9 ∷ []) start refl refl make_first) refl free_it) refl
      refl make_again

Steps-Accounted_example : Accounted settings_only 1 (read 5) 16 made_twice (50 ∷ [])
Steps-Accounted_example =
    Steps-Accounted one_place settings-Core one_place-Allocator empty-Accounted three-Steps

Steps-bounded_example :
    (field_int (x_base_field_alloc_count 1) made_twice ≡ ok 1 made_twice) × (length one_live ≤ 5)
Steps-bounded_example =
    Steps-bounded one_place settings-Core one_place-Allocator empty-Accounted refl three-Steps
