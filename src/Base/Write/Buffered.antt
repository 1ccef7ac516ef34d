-- ===== src/Base/Write/Buffered.antt =====
-- x_base_write of src/x-base.c with a write buffer.
use x_expr.Prelude.{
  ℕ, zero, suc, ◌+◌, ◌-◌, ◌%◌, ◌^◌, ◌≤◌, ◌<◌, ◌≡◌, ◌≢◌, ◌⊎◌, true, false, some, List, [], ◌∷◌, ◌++◌,
  arith, length, take, drop, ==_of_ne,
}
use x_expr.Memory.{Word, Ptr, null, Obj, State, ok, put_obj}
use x_expr.Memory.Points.{Points, not_null}
use x_expr.Sys.{System, put_buffer, buffer_at}
use x_expr.Obj.{x_obj_isnil}
use x_expr.Obj.Access.{x_firstobj-ok, x_restobj-ok, set_data_i-ok, unit_zero}
use x_expr.Strings.Laws.{memcpy-take}
use x_expr.Strings.Within.{Copied, source_of, within-Copied}
use x_expr.Base.{x_base_isset, x_base_field_write_buf}
use x_expr.Base.Write.{into, put_end, copy_to, write_to_buffer, x_base_write}

-- The address of an object with the given units.
pub record Holds (s : State) (p : Ptr) (units : List Word) : Type 0 where
  pub obj : Obj
  pub at : Points s p obj
  pub same : obj.units ≡ units

-- What a write of `size` bytes at `text` through the buffer `b` at `dst` meets: its arguments, and the
-- base's pair of that buffer and a position.
pub record Buffered (s : State) (base args p_atom dst text : Ptr) (size pos : Word) (b : List ℕ)
    (pos_atom : Ptr) (cell : Obj) : Type 0 where
  pub rest : Ptr
  pub count : Ptr
  pub field : Ptr
  pub buf : Ptr
  pub at_args : Holds s args (p_atom ∷ rest ∷ [])
  pub at_rest : Holds s rest (count ∷ null ∷ [])
  pub at_count : Holds s count (size ∷ [])
  pub at_atom : Holds s p_atom (text ∷ [])
  pub is_set : x_base_isset base s ≡ ok true s
  pub is_field : x_base_field_write_buf base s ≡ ok field s
  pub at_field : Holds s field (buf ∷ null ∷ [])
  pub at_buf : Holds s buf (dst ∷ pos_atom ∷ [])
  pub at_pos : Points s pos_atom cell
  pub pos_unit : cell.units ≡ pos ∷ []
  pub dst_set : dst ≢ null
  pub dst_bytes : s.buffers dst ≡ some b

-- The buffer with new bytes, and the position behind those that were written.
abbrev pub advanced : State → Ptr → Word → Word → List ℕ → Ptr → Obj → State
advanced s dst pos size r pos_atom cell =
    put_obj (put_buffer s dst r) pos_atom
      (some (record cell { units = (pos + size) % 2 ^ 64 ∷ [] }))

-- The buffer with the first `size` bytes of `src` from `pos` on.
abbrev pub appended : Word → Word → (src b : List ℕ) → List ℕ
appended pos size src b = take pos b ++ (take size src ++ drop size (drop pos b))

length-drop : (n : ℕ) (xs : List ℕ) → length (drop n xs) ≡ length xs - n
length-drop zero xs = omega arith
length-drop (suc n) [] = omega arith
length-drop (suc n) (x ∷ xs) = omega (arith, length-drop n xs)

module _ {s : State} {base args p_atom dst text : Ptr} {size pos : Word} {b : List ℕ}
    {pos_atom : Ptr} {cell : Obj}
    (w : Buffered s base args p_atom dst text size pos b pos_atom cell) where
  writes :
      (r : List ℕ)
      → copy_to dst pos text size s ≡ ok tt (put_buffer s dst r)
      → write_to_buffer p_atom w.buf size s ≡ ok p_atom (advanced s dst pos size r pos_atom cell)
  unfolding write_to_buffer
  writes r copies = rw (
    x_firstobj-ok w.at_buf.at w.at_buf.same,
    x_restobj-ok w.at_buf.at w.at_buf.same,
    x_firstobj-ok w.at_pos w.pos_unit,
    x_firstobj-ok w.at_atom.at w.at_atom.same,
    copies,
    x_restobj-ok (later w.at_buf.at) w.at_buf.same,
    set_data_i-ok (later w.at_pos) 0 ((pos + size) % 2 ^ 64) (unit_zero w.pos_unit),
    w.pos_unit,
  )
    where
      later : {q : Ptr} {o : Obj} → Points s q o → Points (put_buffer s dst r) q o
      later e = record { ne_null = e.ne_null; holds = e.holds }

  -- The write is the copy and the move of the position.
  write-copy :
      (sys : System) (r : List ℕ)
      → copy_to dst pos text size s ≡ ok tt (put_buffer s dst r)
      → x_base_write sys base args s ≡ ok p_atom (advanced s dst pos size r pos_atom cell)
  unfolding x_base_write x_obj_isnil
  write-copy sys r copies = rw (
    x_firstobj-ok w.at_args.at w.at_args.same,
    x_restobj-ok w.at_args.at w.at_args.same,
    x_firstobj-ok w.at_rest.at w.at_rest.same,
    x_firstobj-ok w.at_count.at w.at_count.same,
    w.is_set,
    w.is_field,
    x_firstobj-ok w.at_field.at w.at_field.same,
    not_null w.at_buf.at,
    writes r copies,
  )

  -- With well-formed arguments, a set base whose write buffer is a pair of a buffer and a position
  -- atom, room in the buffer for the bytes behind the position, and a text of at least as many
  -- bytes in a buffer of its own that ends before the write buffer or starts behind it,
  -- x_base_write returns the atom that it was given, the bytes stand at the position in the buffer,
  -- the rest of the buffer stays, and the position grows by their number, modulo the word. Nothing
  -- else changes, so nothing is written to a file descriptor.
  pub write-Buffered :
      (sys : System) {src : List ℕ}
      → text ≢ null
      → s.buffers text ≡ some src
      → text ≢ dst
      → (text + length src ≤ dst) ⊎ (dst + length b ≤ text)
      → size ≤ length src
      → pos + size ≤ length b
      → x_base_write sys base args s
        ≡ ok p_atom (advanced s dst pos size (appended pos size src b) pos_atom cell)
  unfolding copy_to buffer_at put_end
  write-Buffered sys {src} text_set text_bytes other apart enough room =
      let outside : into dst b text ≡ false = ground (arith, other, apart) in
      write-copy sys (appended pos size src b) rw (
        ==_of_ne dst null w.dst_set,
        w.dst_bytes,
        outside,
        ==_of_ne text null text_set,
        text_bytes,
        memcpy-take (drop pos b) src size (omega (arith, room, length-drop pos b)) enough,
      )

-- With the same arguments and base, but a text that starts in the write buffer itself, `size` bytes
-- of the buffer from its start and room for as many behind the position, x_base_write returns the
-- atom that it was given, the position grows by the size, modulo the word, and nothing but the
-- buffer changes besides. The buffer is as long as it was and keeps its bytes outside of the place
-- written. There, when the text starts at the position or behind it, stand the text's old bytes;
-- when it starts before the position, the byte at each offset is the new byte of the text at that
-- offset, so that bytes that were written are copied again.
pub write-Copied :
    (sys : System) {s : State} {base args p_atom dst : Ptr} (from : ℕ) {size pos : Word}
    {b : List ℕ} {pos_atom : Ptr} {cell : Obj}
    (w : Buffered s base args p_atom dst (dst + from) size pos b pos_atom cell)
    → from < length b
    → from + size ≤ length b
    → pos + size ≤ length b
    → (r : List ℕ) × (x_base_write sys base args s
        ≡ ok p_atom (advanced s dst pos size r pos_atom cell))
      × Copied b r (source_of b r pos from) pos from size
unfolding copy_to buffer_at put_end
write-Copied sys {s} {dst} from {size} {pos} {b} w start there room =
    let inside : into dst b (dst + from) ≡ true = ground (arith, start) in
    let offset : dst + from - dst ≡ from = omega arith in
    let (r, runs, copied) = within-Copied size b pos from there room in
    (
      r,
      write-copy w sys r rw (==_of_ne dst null w.dst_set, w.dst_bytes, inside, offset, runs),
      copied,
    )
