-- ===== src/Base.antt =====
-- include/x-base.h: the base tree's root and the macros that walk to its fields. A field is a pair
-- (current value . saved values).
pub mod Reads
pub mod Make
pub mod Trees
pub mod Initial
pub mod Build
pub mod New
pub mod Write
pub mod Read
use x_expr.Prelude.{ℕ, zero, suc, Bool, true, false, not, ◌==◌, if◌then◌else◌}
use x_expr.Memory.{Word, Ptr, null, State, Cmd, pure, ◌>>=◌}
use x_expr.Obj.{x_firstobj, x_restobj, x_obj_type, x_obj_isnil}

unfoldable pub x_base : Ptr → Cmd Ptr
unfolding x_firstobj
x_base b = x_firstobj b

unfoldable pub x_base_isset : Ptr → Cmd Bool
unfolding x_base
x_base_isset b = if b == null then pure false else (do r ← x_base b; pure (not (r == null)))

-- The nth rest of a list, and its element n.
unfoldable pub rest_n : ℕ → Ptr → Cmd Ptr
rest_n zero p = pure p
rest_n (suc n) p = do q ← x_restobj p; rest_n n q

unfoldable pub elem_n : ℕ → Ptr → Cmd Ptr
elem_n n p = do q ← rest_n n p; x_firstobj q

unfoldable pub x_base_field_io_fields : Ptr → Cmd Ptr
x_base_field_io_fields b = do r ← x_base b; elem_n 1 r

unfoldable pub x_base_field_files : Ptr → Cmd Ptr
x_base_field_files b = do io ← x_base_field_io_fields b; f ← x_firstobj io; x_restobj f

unfoldable pub x_base_field_meta_fields : Ptr → Cmd Ptr
x_base_field_meta_fields b = do r ← x_base b; rest_n 2 r

unfoldable pub x_base_field_profile : Ptr → Cmd Ptr
x_base_field_profile b = do m ← x_base_field_meta_fields b; f ← x_firstobj m; x_firstobj f

unfoldable pub x_base_field_profile_allocs : Ptr → Cmd Ptr
unfolding x_base_field_profile
x_base_field_profile_allocs b = x_base_field_profile b >>= x_firstobj

unfoldable pub x_base_field_hooks : Ptr → Cmd Ptr
x_base_field_hooks b = do m ← x_base_field_meta_fields b; f ← x_firstobj m; x_restobj f

unfoldable pub x_base_field_heap_fields : Ptr → Cmd Ptr
x_base_field_heap_fields b = do m ← x_base_field_meta_fields b; elem_n 1 m

unfoldable pub x_base_field_alloc_fields : Ptr → Cmd Ptr
x_base_field_alloc_fields b = do m ← x_base_field_meta_fields b; elem_n 2 m

-- The fields by their place in those lists.
module _ (b : Ptr) where
  unfoldable pub x_base_field_filein : Cmd Ptr
  x_base_field_filein = x_base_field_files b >>= elem_n 0

  unfoldable pub x_base_field_fileout : Cmd Ptr
  x_base_field_fileout = x_base_field_files b >>= elem_n 1

  unfoldable pub x_base_field_fileerr : Cmd Ptr
  x_base_field_fileerr = x_base_field_files b >>= elem_n 2

  unfoldable pub x_base_field_write_buf : Cmd Ptr
  x_base_field_write_buf = x_base_field_files b >>= elem_n 3

  unfoldable pub x_base_field_buffer : Cmd Ptr
  x_base_field_buffer = x_base_field_files b >>= elem_n 4

  unfoldable pub x_base_field_hook_type_name : Cmd Ptr
  x_base_field_hook_type_name = x_base_field_hooks b >>= elem_n 0

  unfoldable pub x_base_field_hook_units : Cmd Ptr
  x_base_field_hook_units = x_base_field_hooks b >>= elem_n 1

  unfoldable pub x_base_field_hook_length : Cmd Ptr
  x_base_field_hook_length = x_base_field_hooks b >>= elem_n 2

  unfoldable pub x_base_field_hook_error : Cmd Ptr
  x_base_field_hook_error = x_base_field_hooks b >>= elem_n 3

  unfoldable pub x_base_field_obj_meta_extra : Cmd Ptr
  x_base_field_obj_meta_extra = x_base_field_heap_fields b >>= elem_n 0

  unfoldable pub x_base_field_heap_mark : Cmd Ptr
  x_base_field_heap_mark = x_base_field_heap_fields b >>= elem_n 1

  unfoldable pub x_base_field_heap_free : Cmd Ptr
  x_base_field_heap_free = x_base_field_heap_fields b >>= elem_n 2

  unfoldable pub x_base_field_heap_mark_hooks : Cmd Ptr
  x_base_field_heap_mark_hooks = x_base_field_heap_fields b >>= elem_n 3

  unfoldable pub x_base_field_heap_free_hooks : Cmd Ptr
  x_base_field_heap_free_hooks = x_base_field_heap_fields b >>= elem_n 4

  unfoldable pub x_base_field_heap_mark_roots : Cmd Ptr
  x_base_field_heap_mark_roots = x_base_field_heap_fields b >>= elem_n 5

  unfoldable pub x_base_field_heap_root_chain : Cmd Ptr
  x_base_field_heap_root_chain = x_base_field_heap_fields b >>= elem_n 6

  unfoldable pub x_base_field_alloc_count : Cmd Ptr
  x_base_field_alloc_count = x_base_field_alloc_fields b >>= elem_n 0

  unfoldable pub x_base_field_alloc_limit : Cmd Ptr
  x_base_field_alloc_limit = x_base_field_alloc_fields b >>= elem_n 1

  unfoldable pub x_base_field_alloc_error : Cmd Ptr
  x_base_field_alloc_error = x_base_field_alloc_fields b >>= elem_n 2

-- The test of x-obj.c before it reads a base's fields: a base that is there, typed and set.
unfoldable pub base_full : Ptr → Cmd Bool
base_full b =
    if b == null
    then pure false
    else (do t ← x_obj_type b; if x_obj_isnil t then pure false else x_base_isset b)
