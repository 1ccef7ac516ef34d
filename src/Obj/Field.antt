-- ===== src/Obj/Field.antt =====
-- x_obj_push_field and x_obj_pop_field of src/x-obj.c. The field that `p_field` points to is the first
-- unit of the object `cell`, as at every call in the repository; x_obj_push and x_obj_pop get that address
-- in an atom.
pub mod Stack
pub mod Wrapped
use x_expr.Prelude.{ℕ, ◌*◌, ◌-◌, ◌%◌, ◌^◌, if◌then◌else◌}
use x_expr.Memory.{Word, Ptr, Cmd, pure, ◌>>=◌, ◌>>◌}
use x_expr.Sys.{System}
use x_expr.Obj.{
  x_obj_size, x_obj_meta_len, x_obj_flag_none, x_obj_isnil, x_firstobj, x_restobj, set_data_i,
}
use x_expr.Obj.Alloc.{x_mkspair}

unfoldable pub x_obj_push_field : System → (base cell value : Ptr) → ℕ → Cmd Ptr
x_obj_push_field sys base cell value flags = do
  old ← x_firstobj cell
  pair ← x_mkspair sys base flags value old
  set_data_i cell 0 pair
  head ← x_firstobj cell
  x_firstobj head

unfoldable pub x_obj_pop_field : Ptr → Cmd Ptr
x_obj_pop_field cell = do
  head ← x_firstobj cell
  top ← x_firstobj head
  head ← x_firstobj cell
  rest ← x_restobj head
  set_data_i cell 0 rest
  pure top

-- The object whose first data unit is at an address: the header's units are in front of it. Below the
-- header's size this is NULL, where nothing can be read.
abbrev pub cell_of : Word → Ptr
cell_of field = field - x_obj_size * x_obj_meta_len

-- The flags are cast to an enumeration of 32 bits.
unfoldable pub x_obj_push : System → (base args : Ptr) → Cmd Ptr
unfolding x_obj_push_field
x_obj_push sys base args = do
  atom ← x_firstobj args
  field ← x_firstobj atom
  rest ← x_restobj args
  value ← x_firstobj rest
  more ← x_restobj rest
  flags ←
      if x_obj_isnil more
      then pure x_obj_flag_none
      else (do last ← x_restobj rest; f ← x_firstobj last; i ← x_firstobj f; pure (i % 2 ^ 32))
  x_obj_push_field sys base (cell_of field) value flags

unfoldable pub x_obj_pop : Ptr → Cmd Ptr
unfolding x_obj_pop_field
x_obj_pop args = do atom ← x_firstobj args; field ← x_firstobj atom; x_obj_pop_field (cell_of field)
