-- ===== src/Base/Read.antt =====
-- x_base_read of src/x-base.c. The bytes go to the atom's own unit, at `&x_atomchar(p_atom)`.
pub mod Outcome
use x_expr.Prelude.{
  ℕ, zero, suc, ◌+◌, ◌*◌, ◌/◌, ◌%◌, ◌^◌, Bool, Option, none, some, List, [], ◌∷◌, ◌==◌,
  if◌then◌else◌, get_elem?, set,
}
use x_expr.Memory.{Word, Ptr, null, Obj, ok, fault, Cmd, pure, ◌>>=◌, ◌>>◌, load, store}
use x_expr.Memory.Bytes.{poke}
use x_expr.Sys.{System, x_sys_read}
use x_expr.Obj.{x_firstobj, x_restobj, set_data_i}
use x_expr.Base.{x_base_isset, x_base_field_filein}

abbrev pub stdin_fileno : ℕ
stdin_fileno = 0

-- The units that read() left in the object at `p`, if the bytes stayed inside them.
unfoldable pub put_units : Ptr → Obj → Option (List Word) → Cmd (Unit {0})
put_units p o none s = fault
put_units p o (some us) s = store p (record o { units = us }) s

-- What read() does to its buffer, the data units at `p`.
unfoldable pub fill_buffer : Ptr → List ℕ → Cmd (Unit {0})
unfolding poke put_units
fill_buffer p bs = do o ← load p; put_units p o (poke o.units 0 bs)

unfoldable pub x_base_read : System → (base args : Ptr) → Cmd Ptr
unfolding fill_buffer
x_base_read sys base args = do
  set ← x_base_isset base
  fd ←
      if set
      then (do field ← x_base_field_filein base; a ← x_firstobj field; x_firstobj a)
      else pure stdin_fileno
  p_atom ← x_firstobj args
  rest ← x_restobj args
  count ← x_firstobj rest
  size ← x_firstobj count
  got ← x_sys_read sys (fd % 2 ^ 32) size
  fill_buffer p_atom (got.1)
  if got.0 == size then pure p_atom else (do
    rest ← x_restobj args
    count ← x_firstobj rest
    set_data_i count 0 (got.0)
    pure null)
