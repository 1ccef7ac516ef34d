-- ===== src/Base/Write.antt =====
-- x_base_write of src/x-base.c. The write buffer's pointer is the start of a byte buffer.
pub mod Buffered
use x_expr.Prelude.{
  ℕ, ◌+◌, ◌%◌, ◌^◌, Bool, true, false, List, Option, none, some, [], ◌++◌, ◌==◌, ltb, leb, ◌&&◌,
  ◌-◌, if◌then◌else◌, take, drop, length,
}
use x_expr.Memory.{Word, Ptr, null, State, ok, fault, Cmd, pure, ◌>>=◌, ◌>>◌}
use x_expr.Sys.{System, put_buffer, buffer_at, x_sys_write}
use x_expr.Obj.{x_firstobj, x_restobj, set_data_i, x_obj_isnil}
use x_expr.Base.{x_base_isset, x_base_field_write_buf, x_base_field_fileout}
use x_expr.Strings.{x_lib_memcpy, copy_within}

abbrev pub stdout_fileno : ℕ
stdout_fileno = 1

-- The buffer at `dst` with its new end, if the copy stayed inside both buffers.
unfoldable pub put_end : (dst : Ptr) → (start : List ℕ) → Option (List ℕ) → Cmd (Unit {0})
put_end dst start none s = fault
put_end dst start (some tail) s = ok tt (put_buffer s dst (start ++ tail))

-- Whether a pointer leads into the buffer `b` that starts at `dst`.
abbrev pub into : (dst : Ptr) → (b : List ℕ) → Ptr → Bool
into dst b p = leb dst p && ltb p (dst + length b)

-- x_lib_memcpy(dst + pos, text, size) on the buffer that starts at `dst`. The text is a buffer of its
-- own, or starts in that buffer, and then each byte is read after the writes before it.
unfoldable pub copy_to : (dst : Ptr) → (pos : Word) → (text : Ptr) → (size : Word) → Cmd (Unit {0})
unfolding buffer_at x_lib_memcpy copy_within put_end
copy_to dst pos text size = do
  b ← buffer_at dst
  if into dst b text
      then put_end dst [] (copy_within b pos (text - dst) size)
      else (do src ← buffer_at text; put_end dst (take pos b) (x_lib_memcpy (drop pos b) src size))

-- The branch with a write buffer, the pair `buf` of the pointer and the position.
unfoldable pub write_to_buffer : (p_atom buf : Ptr) → (size : Word) → Cmd Ptr
unfolding copy_to
write_to_buffer p_atom buf size = do
  dst ← x_firstobj buf
  pos_atom ← x_restobj buf
  pos ← x_firstobj pos_atom
  text ← x_firstobj p_atom
  copy_to dst pos text size
  pos_atom ← x_restobj buf
  set_data_i pos_atom 0 ((pos + size) % 2 ^ 64)
  pure p_atom

-- The branch that writes to a file descriptor, an int of 32 bits. Text that ends before `size` bytes
-- is a read past its end.
unfoldable pub write_to_file : System → (set : Bool) → (base p_atom : Ptr) → (size : Word) → Cmd Ptr
unfolding buffer_at
write_to_file sys set base p_atom size = do
  fd ←
      if set
      then (do field ← x_base_field_fileout base; a ← x_firstobj field; x_firstobj a)
      else pure stdout_fileno
  text ← x_firstobj p_atom
  b ← buffer_at text
  if leb size (length b)
      then (do
        result ← x_sys_write sys (fd % 2 ^ 32) (take size b)
        pure (if result == size then p_atom else null))
      else (λ _. fault)

unfoldable pub x_base_write : System → (base args : Ptr) → Cmd Ptr
unfolding write_to_buffer write_to_file
x_base_write sys base args = do
  p_atom ← x_firstobj args
  rest ← x_restobj args
  count ← x_firstobj rest
  size ← x_firstobj count
  set ← x_base_isset base
  buf ← if set then (do field ← x_base_field_write_buf base; x_firstobj field) else pure null
  if x_obj_isnil buf
      then write_to_file sys set base p_atom size
      else write_to_buffer p_atom buf size
